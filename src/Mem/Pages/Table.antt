-- ===== src/Mem/Pages/Table.antt =====
-- The hash table of huge pages: sums over all its lists, and the invariant that what the process
-- holds is exactly what the pages of the table need.
use libnvme.Prelude.{
  ℕ, zero, suc, ◌+◌, ◌-◌, ◌/◌, ◌%◌, ◌^◌, ◌≤◌, ◌<◌, ◌≡◌, ◌≢◌, refl, Bool-cases, inl, inr, List, [],
  ◌∷◌, ◌==◌, ==_iff, if◌then◌else◌, count, update, some, arith,
}
use libnvme.Common.Results.{AllSome, bind-AllSome, split-AllSome}
use libnvme.Mem.{Hugepage}
use libnvme.Mem.Pages.{Pages, unlink}

-- The sum of a weight over one list, and over the first `n` lists.
unfoldable pub weigh : (Hugepage → ℕ) → List Hugepage → ℕ
weigh w [] = 0
weigh w (hp ∷ hps) = w hp + weigh w hps

unfoldable pub tally : (Hugepage → ℕ) → ℕ → (ℕ → List Hugepage) → ℕ
unfolding weigh
tally w zero buckets = 0
tally w (suc n) buckets = weigh w (buckets n) + tally w n buckets

abbrev pub one : Hugepage → ℕ
one hp = 1

abbrev pub mapped : ℕ → Hugepage → ℕ
mapped x hp = if hp.vaddr == x then 1 else 0

abbrev pub opened : ℕ → Hugepage → ℕ
opened x hp = if hp.fd == x then 1 else 0

abbrev pub named : ℕ → Hugepage → ℕ
named x hp = if hp.fname == x then 1 else 0

tally-update_above :
    (w : Hugepage → ℕ) (n i : ℕ) (buckets : ℕ → List Hugepage) (l : List Hugepage)
    → n ≤ i
    → tally w n (update buckets i l) ≡ tally w n buckets
unfolding tally
tally-update_above w zero i buckets l h = refl
tally-update_above w (suc n) i buckets l h =
    ground (arith, tally-update_above w n i buckets l (omega (arith, h)))

-- Replacing one list changes the sum by the difference of the two lists.
pub tally-update :
    (w : Hugepage → ℕ) (n i : ℕ) (buckets : ℕ → List Hugepage) (l : List Hugepage)
    → i < n
    → tally w n (update buckets i l) + weigh w (buckets i) ≡ tally w n buckets + weigh w l
unfolding tally
tally-update w zero i buckets l h = absurd (omega (arith, h))
tally-update w (suc n) i buckets l h = elim (Bool-cases (i == n)) [
  | inl e ↦ ground (arith, tally-update_above w n i buckets l)
  | inr e ↦ ground (arith, tally-update w n i buckets l)
]

-- What `unlink` finds is taken out, and has the address asked for.
pub record IsTaken (v : ℕ) (l : List Hugepage) (found : Hugepage × List Hugepage) : Type 0 where
  pub same : (w : Hugepage → ℕ) → w (found.0) + weigh w (found.1) ≡ weigh w l
  pub here : (found.0).vaddr ≡ v

pub unlink-IsTaken : (v : ℕ) (l : List Hugepage) → AllSome (IsTaken v l) (unlink v l)
unfolding unlink weigh AllSome
unlink-IsTaken v [] = tt
unlink-IsTaken v (hp ∷ hps) =
    split-AllSome (IsTaken v (hp ∷ hps)) (hp.vaddr == v) _ _
      (λ e. record { same = λ w. refl; here = (==_iff hp.vaddr v).0 e })
      (λ e.
        bind-AllSome (IsTaken v hps) (IsTaken v (hp ∷ hps)) (unlink v hps) _ (unlink-IsTaken v hps)
          (λ found t. record { same = λ w. omega (arith, t.same w); here = t.here }))

-- The invariant of the table: a page is in the list of its address, the counter counts the pages,
-- and the process holds the descriptors, mappings and files of these pages, the descriptor of the
-- directory, and the directory.
pub record PagesOk (p : Pages) : Type 0 where
  pub placed : (b v : ℕ) → 0 < weigh (mapped v) (p.hp_list b) → v / 2 ^ p.hp_size_bits % 32 ≡ b
  pub counted : p.nr_hp ≡ tally one 32 p.hp_list % 2 ^ 32
  pub maps : (x : ℕ) → count x p.kernel.maps ≡ tally (mapped x) 32 p.hp_list
  pub files : (x : ℕ) → count x p.kernel.files ≡ tally (named x) 32 p.hp_list
  pub fds :
      (x : ℕ)
      → count x p.kernel.fds ≡ tally (opened x) 32 p.hp_list + (if p.hp_dd == x then 1 else 0)
  pub dir : ℕ
  pub hp_dir : p.hp_dir ≡ some dir
  pub dirs : p.kernel.dirs ≡ dir ∷ []
  pub hp_dd : p.hp_dd ≢ 2 ^ 32 - 1
