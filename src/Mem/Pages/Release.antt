-- ===== src/Mem/Pages/Release.antt =====
-- nvme_mem_free_hp undoes nvme_mem_alloc_hp, and nvme_mem_hp_cleanup gives back whatever pages are
-- left, so that the process holds nothing from nvme_mem_hp_init on.

use std.Path.{fun_ext}
use libnvme.Prelude.{
  ℕ, ◌/◌, ◌%◌, ◌^◌, ◌<◌, ◌≡◌, refl, sym, ◌∙◌, subst, Option, none, some, List, ◌∷◌, some_inj,
  ==_iff, update, update_self, arith,
}
use libnvme.Sync.Atomic
use libnvme.Mem.{Hugepage, add_hp}
use libnvme.Mem.Pages.{Os, Pages, unlink, free_hp, alloc_hp}
use libnvme.Mem.Pages.Outcome.{GivesBack, hold, IsOutcome, release_first, alloc_hp-IsOutcome}
use libnvme.Mem.Pages.Books.{without}

-- The first page of a list is the one that is found at its address.
unlink-first : (hp : Hugepage) (hps : List Hugepage) → unlink hp.vaddr (hp ∷ hps) ≡ some (hp, hps)
unfolding unlink
unlink-first hp hps = rw ((==_iff hp.vaddr hp.vaddr).1 refl) refl

-- Freeing the first page of its list.
pub free_hp-first :
    (os : Os) (p : Pages) (hp : Hugepage) (hps : List Hugepage)
    → p.hp_list (hp.vaddr / 2 ^ p.hp_size_bits % 32) ≡ hp ∷ hps
    → free_hp os hp.vaddr p ≡ some (without os (hp.vaddr / 2 ^ p.hp_size_bits % 32) p (hp, hps))
unfolding free_hp
free_hp-first os p hp hps e = rw (e, unlink-first hp hps) refl

update-update :
    (buckets : ℕ → List Hugepage) (i : ℕ) (l : List Hugepage)
    → update (update buckets i l) i (buckets i) ≡ buckets
update-update buckets i l = fun_ext (λ j. ground arith)

module _ (os : Os) (good : GivesBack os) where
  dec-inc : (n : ℕ) → n < 2 ^ 32 → Atomic.dec 32 (Atomic.inc 32 n) ≡ n
  unfolding Atomic.dec Atomic.inc
  dec-inc n h = omega (arith, h)

  freed_entered :
      (p : Pages) (tmp : ℕ) (hp : Hugepage)
      → p.nr_hp < 2 ^ 32
      → free_hp os hp.vaddr (record p {
        hp_tmp = tmp;
        hp_list = add_hp p.hp_size_bits p.hp_list hp;
        nr_hp = Atomic.inc 32 p.nr_hp;
        kernel = hold hp p.kernel;
      })
        ≡ some (record p { hp_tmp = tmp })
  unfolding add_hp
  freed_entered p tmp hp small =
      let h : ℕ = hp.vaddr / 2 ^ p.hp_size_bits % 32 in
      let back = update-update p.hp_list h (hp ∷ p.hp_list h) in
      free_hp-first os
        (record p {
          hp_tmp = tmp;
          hp_list = add_hp p.hp_size_bits p.hp_list hp;
          nr_hp = Atomic.inc 32 p.nr_hp;
          kernel = hold hp p.kernel;
        })
        hp (p.hp_list h) (update_self p.hp_list h (hp ∷ p.hp_list h))
      ∙ (λ i. some (record p {
        hp_tmp = tmp;
        hp_list = back i;
        nr_hp = dec-inc p.nr_hp small i;
        kernel = release_first os good hp p.kernel i;
      }))

  -- A page that nvme_mem_alloc_hp has returned and nvme_mem_free_hp takes back leaves the table, its
  -- counter, and what the process holds as they were before: only the number of the next file has
  -- moved on. The calls that give back to the system have to succeed.
  pub free_hp-alloc_hp :
      (node_id : ℕ) (p : Pages) (hp : Hugepage)
      → p.nr_hp < 2 ^ 32
      → (alloc_hp os node_id p).0 ≡ some hp
      → free_hp os hp.vaddr ((alloc_hp os node_id p).1)
        ≡ some (record p { hp_tmp = (alloc_hp os node_id p).1.hp_tmp })
  free_hp-alloc_hp node_id p hp small e =
      go (alloc_hp os node_id p) e (alloc_hp-IsOutcome os good node_id p)
    where
      go :
          (r : Option Hugepage × Pages)
          → (r.0) ≡ some hp
          → IsOutcome p r
          → free_hp os hp.vaddr (r.1) ≡ some (record p { hp_tmp = r.1.hp_tmp })
      go (none, p') e o = absurd cc
      go (some x, p') e (o, _) =
          subst (λ (y : Hugepage). free_hp os y.vaddr p' ≡ some (record p { hp_tmp = p'.hp_tmp }))
            (some_inj e)
            (subst (λ q. free_hp os x.vaddr q ≡ some (record p { hp_tmp = p'.hp_tmp })) (sym o)
              (freed_entered p p'.hp_tmp x small))
