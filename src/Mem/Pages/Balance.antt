-- ===== src/Mem/Pages/Balance.antt =====
-- From nvme_mem_hp_init to nvme_mem_hp_cleanup the process loses nothing.
use libnvme.Prelude.{
  ℕ, zero, suc, ◌-◌, ◌^◌, ◌<◌, ◌≡◌, refl, ap, ◌∙◌, Bool, true, false, Bool-cases, inl, inr, some,
  List, [], ◌∷◌, ◌==◌, ==_iff, subst, if◌then◌else◌, count, remove, count-remove_self,
  count-remove_ne, length, arith,
}
use libnvme.Types.{success}
use libnvme.Mem.{Hugepage}
use libnvme.Mem.Pages.{Os, Pages, given_back}
use libnvme.Mem.Pages.Setup.{Host, hp_init, close_dd, remove_dir, hp_cleanup}
use libnvme.Mem.Pages.Table.{weigh, tally, one, mapped, opened, named, PagesOk}
use libnvme.Mem.Pages.Outcome.{GivesBack}
use libnvme.Mem.Pages.Cleanup.{Uses, Uses-PagesOk, nothing, hp_init-PagesOk, empty_buckets-IsSwept}

tally-clear :
    (w : Hugepage → ℕ) (n : ℕ) (buckets : ℕ → List Hugepage)
    → ((j : ℕ) → j < n → buckets j ≡ [])
    → tally w n buckets ≡ 0
unfolding tally weigh
tally-clear w zero buckets h = refl
tally-clear w (suc n) buckets h =
    rw (h n (omega arith)) (omega (arith, tally-clear w n buckets (λ j l. h j (omega (arith, l)))))

none_counted : (l : List ℕ) → ((x : ℕ) → count x l ≡ 0) → l ≡ []
none_counted [] h = refl
none_counted (y ∷ ys) h = absurd (ground (arith, h y))

-- A list with one entry is empty after that entry is given back.
last_given_back :
    (b : Bool) (y : ℕ) (l : List ℕ)
    → b ≡ true
    → ((x : ℕ) → count x l ≡ (if y == x then 1 else 0))
    → given_back b y l ≡ []
last_given_back b y l e h = rw e (
    none_counted (remove y l) (λ x. elim (Bool-cases (y == x)) [
      | inl p ↦
          let q : y ≡ x = (==_iff y x).0 p in
          subst (λ z. count z (remove y l) ≡ 0) q
            (ground (arith, count-remove_self y l (ground (arith, h y)), h y))
      | inr p ↦ omega (arith, count-remove_ne y x l (λ q. ground (arith, p, q)), off x p)
    ]))
  where
    off : (x : ℕ) → (y == x) ≡ false → count x l ≡ 0
    off x p = ground (arith, h x, p)

alone : (d : ℕ) → remove d (d ∷ []) ≡ []
unfolding remove
alone d = ground arith

-- With an empty table, what nvme_mem_hp_cleanup finds last is the directory and its descriptor.
module _ (os : Os) (good : GivesBack os) (p : Pages) (ok : PagesOk p)
    (clear : (j : ℕ) → j < 32 → p.hp_list j ≡ []) where
  empty : (w : Hugepage → ℕ) → tally w 32 p.hp_list ≡ 0
  empty w = tally-clear w 32 p.hp_list clear

  ends-nothing :
      ((remove_dir (close_dd os p)).kernel ≡ nothing) × ((remove_dir (close_dd os p)).nr_hp ≡ 0)
  unfolding close_dd remove_dir
  ends-nothing =
      rw (differs, ok.hp_dir)
        (
          (λ i. record {
            fds =
                last_given_back os.close p.hp_dd p.kernel.fds good.close
                  (λ x. omega (arith, ok.fds x, empty (opened x))) i;
            maps = none_counted p.kernel.maps (λ x. omega (arith, ok.maps x, empty (mapped x))) i;
            files = none_counted p.kernel.files (λ x. omega (arith, ok.files x, empty (named x))) i;
            dirs = (ap (remove ok.dir) ok.dirs ∙ alone ok.dir) i;
          }),
          omega (arith, ok.counted, empty one),
        )
    where
      differs : (p.hp_dd == 2 ^ 32 - 1) ≡ false
      differs = ground (arith, ok.hp_dd)

-- From nvme_mem_hp_init to nvme_mem_hp_cleanup, whatever pages are got and freed in between: the clean-up
-- ends, with as many passes over each list as it has pages and one more, and then the process holds no
-- descriptor, no mapping, no file and no directory any more, and the counter of pages is 0. The calls
-- that give back to the system have to succeed, and descriptors are below 2 ^ 31.
pub hp_cleanup-hp_init :
    (fuel : ℕ) (os : Os) (e : Host) (p q : Pages)
    → GivesBack os
    → p.kernel ≡ nothing
    → ((fd : ℕ) → e.opened ≡ some fd → fd < 2 ^ 31)
    → (hp_init e p).0 ≡ success
    → Uses ((hp_init e p).1) q
    → ((j : ℕ) → length (q.hp_list j) < fuel)
    → (q' : Pages) × (hp_cleanup fuel os q ≡ some q') × (q'.kernel ≡ nothing) × (q'.nr_hp ≡ 0)
unfolding hp_cleanup
hp_cleanup-hp_init fuel os e p q good k small h uses short =
    let ok = Uses-PagesOk (hp_init-PagesOk e p k small h) uses in
    let (q', run, swept) = empty_buckets-IsSwept os good fuel 32 0 q (omega arith) ok short in
    let (none_held, none_left) =
      ends-nothing os good q' swept.ok (λ j l. swept.clear j (omega arith) (omega (arith, l))) in
    (remove_dir (close_dd os q'), rw (hp_cleanup, run) refl, none_held, none_left)
