-- ===== src/Mem/Pages/Cleanup.antt =====
-- The life of the table from nvme_mem_hp_init on, and the loops of nvme_mem_hp_cleanup over its lists.
use native.Mathlib.Decide.{ℕ_discrete}
use libnvme.Prelude.{
  ℕ, zero, suc, ◌+◌, ◌/◌, ◌%◌, ◌^◌, ◌≤◌, ◌<◌, ◌≡◌, ◌≢◌, refl, sym, ◌∙◌, subst, Bool-cases, inl, inr,
  some, List, [], ◌∷◌, ◌==◌, update_self, update_ne, Option-cases, length, arith,
}
use libnvme.Common.{log2}
use libnvme.Types.{success}
use libnvme.Common.Results.{AllSome-some}
use libnvme.Mem.{Hugepage}
use libnvme.Mem.Pages.{Kernel, Os, Pages, free_hp, alloc_hp, empty_bucket}
use libnvme.Mem.Pages.Setup.{Host, hp_init, empty_buckets}
use libnvme.Mem.Pages.Table.{weigh, tally, mapped, IsTaken, PagesOk}
use libnvme.Mem.Pages.Outcome.{GivesBack}
use libnvme.Mem.Pages.Books.{without, without-PagesOk, free_hp-PagesOk, alloc_hp-PagesOk}
use libnvme.Mem.Pages.Release.{free_hp-first}

-- The states that the process reaches by getting and freeing huge pages.
pub data Uses (p : Pages) : Pages → Type 0 where
  begin : Uses p p
  get :
      {q : Pages}
      → Uses p q
      → (os : Os) → GivesBack os
      → (node_id : ℕ) → Uses p ((alloc_hp os node_id q).1)
  free :
      {q q' : Pages}
      → Uses p q
      → (os : Os) → GivesBack os
      → (vaddr : ℕ) → free_hp os vaddr q ≡ some q'
      → Uses p q'

pub Uses-PagesOk : {p q : Pages} → PagesOk p → Uses p q → PagesOk q
Uses-PagesOk ok begin = ok
Uses-PagesOk ok (get u os good node_id) = alloc_hp-PagesOk os node_id _ good (Uses-PagesOk ok u)
Uses-PagesOk ok (free u os good v e) =
    AllSome-some PagesOk e (free_hp-PagesOk os v _ good (Uses-PagesOk ok u))

abbrev pub nothing : Kernel
nothing = record { fds = []; maps = []; files = []; dirs = [] }

started :
    (bits tmp dir fd : ℕ) (e : Host) (p : Pages)
    → p.kernel ≡ nothing
    → fd < 2 ^ 31
    → PagesOk (record p {
      hp_tmp = tmp;
      nr_hp = 0;
      hp_list = λ _. [];
      hp_dir = some dir;
      hp_size = e.hp_size;
      hp_size_bits = bits;
      hp_dd = fd;
      kernel = record p.kernel { dirs = dir ∷ p.kernel.dirs; fds = fd ∷ p.kernel.fds };
    })
unfolding tally weigh
started bits tmp dir fd e p k small = record {
  placed = λ b v q. absurd (omega (arith, q));
  counted = refl;
  maps = λ x. rw k refl;
  files = λ x. rw k refl;
  fds = λ x. rw k (ground arith);
  dir = dir;
  hp_dir = refl;
  dirs = rw k refl;
  hp_dd = omega (arith, small);
}

-- A successful nvme_mem_hp_init starts from an empty table, its directory and its descriptor.
pub hp_init-PagesOk :
    (e : Host) (p : Pages)
    → p.kernel ≡ nothing
    → ((fd : ℕ) → e.opened ≡ some fd → fd < 2 ^ 31)
    → (hp_init e p).0 ≡ success
    → PagesOk ((hp_init e p).1)
unfolding hp_init
hp_init-PagesOk e p k small h = elim (Option-cases e.hp_dir) [
  | inl d ↦ absurd (ground (arith, d, h))
  | inr (dir, d) ↦ elim (Bool-cases (e.hp_size == 0)) [
    | inl z ↦ absurd (ground (arith, d, z, h))
    | inr z ↦ elim (Option-cases e.opened) [
      | inl o ↦ absurd (ground (arith, d, z, o, h))
      | inr (fd, o) ↦ rw (d, z, o) (started (log2 e.hp_size) 0 dir fd e p k (small fd o))
    ]
  ]
]

-- What emptying list `i` leaves.
record IsEmptied (i : ℕ) (p p' : Pages) : Type 0 where
  pub ok : PagesOk p'
  pub here : p'.hp_list i ≡ []
  pub others : (j : ℕ) → j ≢ i → p'.hp_list j ≡ p.hp_list j

-- The `n` lists from list `i` on are emptied; those below keep what they have.
pub record IsSwept (n i : ℕ) (p p' : Pages) : Type 0 where
  pub ok : PagesOk p'
  pub clear : (j : ℕ) → i ≤ j → j < n + i → p'.hp_list j ≡ []
  pub kept : (j : ℕ) → j < i → p'.hp_list j ≡ p.hp_list j

weigh-first : (hp : Hugepage) (hps : List Hugepage) → 0 < weigh (mapped hp.vaddr) (hp ∷ hps)
unfolding weigh
weigh-first hp hps = ground arith

first-IsTaken : (hp : Hugepage) (hps : List Hugepage) → IsTaken hp.vaddr (hp ∷ hps) (hp, hps)
unfolding weigh
first-IsTaken hp hps = record { same = λ w. refl; here = refl }

module _ (os : Os) (good : GivesBack os) where
  empty_bucket-IsEmptied :
      (f i : ℕ) (p : Pages) (l : List Hugepage)
      → i < 32
      → PagesOk p
      → p.hp_list i ≡ l
      → length l < f
      → (p' : Pages) × (empty_bucket f os i p ≡ some p') × IsEmptied i p p'
  unfolding empty_bucket
  empty_bucket-IsEmptied zero i p l h ok e s = absurd (omega (arith, s))
  empty_bucket-IsEmptied (suc f) i p [] h ok e s =
      (p, rw (empty_bucket, e) refl, record { ok = ok; here = e; others = λ j n. refl })
  empty_bucket-IsEmptied (suc f) i p (hp ∷ hps) h ok e s =
      let hash : hp.vaddr / 2 ^ p.hp_size_bits % 32 ≡ i =
        ok.placed i hp.vaddr (rw e (weigh-first hp hps)) in
      let q : Pages = without os i p (hp, hps) in
      let first : free_hp os hp.vaddr p ≡ some q =
        subst (λ n. free_hp os hp.vaddr p ≡ some (without os n p (hp, hps))) hash
          (free_hp-first os p hp hps (rw (hash) e)) in
      let taken : IsTaken hp.vaddr (p.hp_list i) (hp, hps) =
        subst (λ l. IsTaken hp.vaddr l (hp, hps)) (sym e) (first-IsTaken hp hps) in
      let (p', run, left) =
        empty_bucket-IsEmptied f i q hps h
          (without-PagesOk os good p ok i hp.vaddr (hp, hps) h taken) (update_self p.hp_list i hps)
          (omega (arith, s)) in
      (
        p',
        rw (empty_bucket, e, first) run,
        record {
          ok = left.ok;
          here = left.here;
          others = λ j n. left.others j n ∙ update_ne p.hp_list i j hps (λ z. n (sym z));
        },
      )

  pub empty_buckets-IsSwept :
      (f n i : ℕ) (p : Pages)
      → n + i ≤ 32
      → PagesOk p
      → ((j : ℕ) → length (p.hp_list j) < f)
      → (p' : Pages) × (empty_buckets f os n i p ≡ some p') × IsSwept n i p p'
  unfolding empty_buckets
  empty_buckets-IsSwept f zero i p h ok s = (
    p,
    refl,
    record { ok = ok; clear = λ j a b. absurd (omega (arith, a, b)); kept = λ j a. refl },
  )
  empty_buckets-IsSwept f (suc n) i p h ok s =
      let (q, run, left) =
        empty_bucket-IsEmptied f i p (p.hp_list i) (omega (arith, h)) ok refl (s i) in
      let (p', rest, swept) =
        empty_buckets-IsSwept f n (i + 1) q (omega (arith, h)) left.ok (short q left) in
      (
        p',
        rw (empty_buckets, run) rest,
        record {
          ok = swept.ok;
          clear = λ j a b. elim (ℕ_discrete j i) [
            | yes e ↦ rw e (swept.kept i (omega arith) ∙ left.here)
            | no ne ↦ swept.clear j (omega (arith, a, ne)) (omega (arith, b))
          ];
          kept = λ j a. swept.kept j (omega (arith, a)) ∙ left.others j (λ z. omega (arith, a, z));
        },
      )
    where
      short : (q : Pages) → IsEmptied i p q → (j : ℕ) → length (q.hp_list j) < f
      short q left j = elim (ℕ_discrete j i) [
        | yes e ↦ rw (e, left.here) (omega (arith, s i))
        | no ne ↦ rw (left.others j ne) (s j)
      ]
