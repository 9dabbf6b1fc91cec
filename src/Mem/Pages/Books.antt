-- ===== src/Mem/Pages/Books.antt =====
-- nvme_mem_hp_init, nvme_mem_alloc_hp and nvme_mem_free_hp keep the invariant of the table.
use libnvme.Prelude.{
  ℕ, ◌+◌, ◌/◌, ◌%◌, ◌^◌, ◌<◌, ◌≡◌, sym, subst, Bool, true, Bool-cases, inl, inr, Option, none, some,
  List, ◌∷◌, ◌==◌, ==_iff, if◌then◌else◌, count, count-remove_self, count-remove_ne, remove, update,
  arith,
}
use libnvme.Common.Results.{AllSome, bind-AllSome}
use libnvme.Sync.Atomic
use libnvme.Mem.{Hugepage, add_hp}
use libnvme.Mem.Pages.{Os, Pages, given_back, release_hp, unlink, free_hp, alloc_hp}
use libnvme.Mem.Pages.Table.{
  weigh, tally, tally-update, one, mapped, opened, named, IsTaken, unlink-IsTaken, PagesOk,
}
use libnvme.Mem.Pages.Outcome.{GivesBack, hold, IsOutcome, alloc_hp-IsOutcome}

hash_small : (n : ℕ) → n % 32 < 32
hash_small n = omega arith

count-given_back :
    (b : Bool) (y x : ℕ) (xs : List ℕ)
    → b ≡ true
    → 0 < count y xs
    → count x (given_back b y xs) + (if y == x then 1 else 0) ≡ count x xs
count-given_back b y x xs h c = elim (Bool-cases (y == x)) [
  | inl e ↦
      let q : y ≡ x = (==_iff y x).0 e in
      rw h (rw e (subst (λ z. count z (remove y xs) + 1 ≡ count z xs) q (count-remove_self y xs c)))
  | inr e ↦ rw h (rw e (omega (arith, count-remove_ne y x xs (λ q. ground (arith, e, q)))))
]

-- Entering a page changes each sum by the weight of the page.
tally-add_hp :
    (w : Hugepage → ℕ) (bits : ℕ) (buckets : ℕ → List Hugepage) (hp : Hugepage)
    → tally w 32 (add_hp bits buckets hp) ≡ w hp + tally w 32 buckets
unfolding add_hp weigh
tally-add_hp w bits buckets hp =
    let h : ℕ = hp.vaddr / 2 ^ bits % 32 in
    omega (arith, tally-update w 32 h buckets (hp ∷ buckets h) (hash_small (hp.vaddr / 2 ^ bits)))

-- So does taking one out.
tally-taken :
    (w : Hugepage → ℕ) (i v : ℕ) (buckets : ℕ → List Hugepage) (found : Hugepage × List Hugepage)
    → i < 32
    → IsTaken v (buckets i) found
    → tally w 32 (update buckets i (found.1)) + w (found.0) ≡ tally w 32 buckets
tally-taken w i v buckets found h t =
    omega (arith, tally-update w 32 i buckets (found.1) h, t.same w)

-- The kind of a resource: which number of a page it has.
abbrev pub of_kind : (Hugepage → ℕ) → ℕ → Hugepage → ℕ
of_kind key x hp = if key hp == x then 1 else 0

-- Giving back what the page that is taken out held, next to `extra` that no page holds.
given_back-tally :
    (key : Hugepage → ℕ) (extra : ℕ → ℕ) (b : Bool) (xs : List ℕ) (i v : ℕ)
    (buckets : ℕ → List Hugepage) (found : Hugepage × List Hugepage)
    → b ≡ true
    → i < 32
    → IsTaken v (buckets i) found
    → ((x : ℕ) → count x xs ≡ tally (of_kind key x) 32 buckets + extra x)
    → (x : ℕ)
    → count x (given_back b (key (found.0)) xs)
      ≡ tally (of_kind key x) 32 (update buckets i (found.1)) + extra x
given_back-tally key extra b xs i v buckets found e h t same x =
    let y : ℕ = key (found.0) in
    let self : of_kind key y (found.0) ≡ 1 = ground arith in
    let some_y = tally-taken (of_kind key y) i v buckets found h t in
    let c = count-given_back b y x xs e (omega (arith, same y, some_y, self)) in
    omega (arith, c, same x, tally-taken (of_kind key x) i v buckets found h t)

-- The state after a page of list `i` is taken out and released.
abbrev pub without : Os → ℕ → Pages → Hugepage × List Hugepage → Pages
without os i p found = record p {
  hp_list = update p.hp_list i (found.1);
  nr_hp = Atomic.dec 32 p.nr_hp;
  kernel = release_hp os (found.0) p.kernel;
}

module _ (os : Os) (good : GivesBack os) (p : Pages) (ok : PagesOk p) where
  pub without-PagesOk :
      (i v : ℕ) (found : Hugepage × List Hugepage)
      → i < 32
      → IsTaken v (p.hp_list i) found
      → PagesOk (without os i p found)
  unfolding release_hp Atomic.dec
  without-PagesOk i v found h t = record {
    placed = λ b x q. ok.placed b x (more b x q);
    counted = omega (arith, ok.counted, tally-taken one i v p.hp_list found h t);
    maps = λ x. omega (
      arith,
      given_back-tally (λ hp. hp.vaddr) (λ _. 0) os.munmap p.kernel.maps i v p.hp_list found
          good.munmap h t (λ z. omega (arith, ok.maps z)) x,
    );
    files = λ x. omega (
      arith,
      given_back-tally (λ hp. hp.fname) (λ _. 0) os.unlinkat p.kernel.files i v p.hp_list found
          good.unlinkat h t (λ z. omega (arith, ok.files z)) x,
    );
    fds =
        given_back-tally (λ hp. hp.fd) (λ x. if p.hp_dd == x then 1 else 0) os.close p.kernel.fds i
          v p.hp_list found good.close h t ok.fds;
    dir = ok.dir;
    hp_dir = ok.hp_dir;
    dirs = ok.dirs;
    hp_dd = ok.hp_dd;
  }
    where
      more :
          (b x : ℕ)
          → 0 < weigh (mapped x) (update p.hp_list i (found.1) b)
          → 0 < weigh (mapped x) (p.hp_list b)
      more b x q = ground (arith, t.same (mapped x))

-- nvme_mem_free_hp of a page of the table keeps the invariant.
pub free_hp-PagesOk :
    (os : Os) (v : ℕ) (p : Pages) → GivesBack os → PagesOk p → AllSome PagesOk (free_hp os v p)
unfolding free_hp AllSome
free_hp-PagesOk os v p good ok =
    let h : ℕ = v / 2 ^ p.hp_size_bits % 32 in
    bind-AllSome (IsTaken v (p.hp_list h)) PagesOk (unlink v (p.hp_list h)) _
      (unlink-IsTaken v (p.hp_list h))
      (λ found t. without-PagesOk os good p ok h v found (hash_small (v / 2 ^ p.hp_size_bits)) t)

entered-placed :
    (bits b v : ℕ) (hp : Hugepage) (buckets : ℕ → List Hugepage)
    → (0 < weigh (mapped v) (buckets b) → v / 2 ^ bits % 32 ≡ b)
    → 0 < weigh (mapped v) (add_hp bits buckets hp b)
    → v / 2 ^ bits % 32 ≡ b
unfolding add_hp weigh
entered-placed bits b v hp buckets old q = elim (Bool-cases (hp.vaddr == v)) [
  | inl e ↦
      let at : hp.vaddr ≡ v = (==_iff hp.vaddr v).0 e in
      elim (Bool-cases (v / 2 ^ bits % 32 == b)) [
        | inl f ↦ (==_iff _ b).0 f
        | inr f ↦ old (rw (at, f) at q)
      ]
  | inr e ↦ old (ground (arith, q, e))
]

entered-PagesOk :
    (tmp : ℕ) (hp : Hugepage) (p : Pages)
    → PagesOk p
    → PagesOk (record p {
      hp_tmp = tmp;
      hp_list = add_hp p.hp_size_bits p.hp_list hp;
      nr_hp = Atomic.inc 32 p.nr_hp;
      kernel = hold hp p.kernel;
    })
unfolding Atomic.inc
entered-PagesOk tmp hp p ok = record {
  placed = λ b v q. entered-placed p.hp_size_bits b v hp p.hp_list (ok.placed b v) q;
  counted = omega (arith, ok.counted, tally-add_hp one p.hp_size_bits p.hp_list hp);
  maps = λ x. omega (arith, ok.maps x, tally-add_hp (mapped x) p.hp_size_bits p.hp_list hp);
  files = λ x. omega (arith, ok.files x, tally-add_hp (named x) p.hp_size_bits p.hp_list hp);
  fds = λ x. omega (arith, ok.fds x, tally-add_hp (opened x) p.hp_size_bits p.hp_list hp);
  dir = ok.dir;
  hp_dir = ok.hp_dir;
  dirs = ok.dirs;
  hp_dd = ok.hp_dd;
}

renumbered : (tmp : ℕ) (p : Pages) → PagesOk p → PagesOk (record p { hp_tmp = tmp })
renumbered tmp p ok = record {
  placed = ok.placed;
  counted = ok.counted;
  maps = ok.maps;
  files = ok.files;
  fds = ok.fds;
  dir = ok.dir;
  hp_dir = ok.hp_dir;
  dirs = ok.dirs;
  hp_dd = ok.hp_dd;
}

-- nvme_mem_alloc_hp keeps the invariant, whether it gets a page or not.
pub alloc_hp-PagesOk :
    (os : Os) (node_id : ℕ) (p : Pages)
    → GivesBack os
    → PagesOk p
    → PagesOk ((alloc_hp os node_id p).1)
alloc_hp-PagesOk os node_id p good ok =
    go (alloc_hp os node_id p) (alloc_hp-IsOutcome os good node_id p)
  where
    go : (r : Option Hugepage × Pages) → IsOutcome p r → PagesOk (r.1)
    go (none, p') e = subst PagesOk (sym e) (renumbered p'.hp_tmp p ok)
    go (some hp, p') (e, _) = subst PagesOk (sym e) (entered-PagesOk p'.hp_tmp hp p ok)
