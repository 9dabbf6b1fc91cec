-- ===== src/Mem/Pools/Drain.antt =====
-- nvme_mem_cleanup empties the lists of every pool, in one pass of its second loop.
use libnvme.Prelude.{
  ℕ, suc, ◌≡◌, refl, sym, ap, subst, ◌∙◌, true, Option, some, List, [], ◌∷◌, remove, arith,
}
use libnvme.Mem.{Mempool, drop_heap, shrink_loop, pool_shrink}
use libnvme.Mem.Pools.{requeue_full, drain}

remove-first : (h : ℕ) (hs : List ℕ) → remove h (h ∷ hs) ≡ hs
unfolding remove
remove-first h hs = ground arith

-- A forced shrink drops every heap of the use list, and leaves the full list.
shrink_loop-empties :
    (l : List ℕ) (n : ℕ) (mp : Mempool)
    → mp.use_list ≡ l
    → ((shrink_loop true l n mp).use_list ≡ [])
      × ((shrink_loop true l n mp).full_list ≡ mp.full_list)
unfolding shrink_loop
shrink_loop-empties [] n mp e = (e, refl)
shrink_loop-empties (h ∷ hs) n mp e =
    shrink_loop-empties hs n (drop_heap h mp) (ap (remove h) e ∙ remove-first h hs)

requeue_full-empties :
    (l : List ℕ) (mp : Mempool) → mp.full_list ≡ l → (requeue_full l mp).full_list ≡ []
unfolding requeue_full
requeue_full-empties [] mp e = e
requeue_full-empties (h ∷ hs) mp e = requeue_full-empties hs _ (ap (remove h) e ∙ remove-first h hs)

-- The second loop stops at an empty use list, and has another pass otherwise.
drain_done : (f : ℕ) (q : Mempool) → q.use_list ≡ [] → drain (suc f) q ≡ some q
unfolding drain
drain_done f q e =
    subst
      (λ l.
        (elim l as (λ _. Option Mempool) [ [] ↦ some q | _ ∷ _ ↦ drain f (pool_shrink true q) ])
        ≡ some q)
      (sym e) refl

drain_again :
    (f h : ℕ) (hs : List ℕ) (q : Mempool)
    → q.use_list ≡ h ∷ hs
    → drain (suc f) q ≡ drain f (pool_shrink true q)
unfolding drain
drain_again f h hs q e =
    subst
      (λ l.
        (elim l as (λ _. Option Mempool) [ [] ↦ some q | _ ∷ _ ↦ drain f (pool_shrink true q) ])
        ≡ drain f (pool_shrink true q))
      (sym e) refl

drained :
    (q : Mempool) (l : List ℕ)
    → q.use_list ≡ l
    → q.full_list ≡ []
    → (mp' : Mempool) × (drain 2 q ≡ some mp') × (mp'.use_list ≡ []) × (mp'.full_list ≡ [])
unfolding pool_shrink
drained q [] e f = (q, drain_done 1 q e, e, f)
drained q (h ∷ hs) e f =
    let (none_used, same) = shrink_loop-empties q.use_list 0 q refl in
    (
      pool_shrink true q,
      drain_again 1 h hs q e ∙ drain_done 0 (pool_shrink true q) none_used,
      none_used,
      same ∙ f,
    )

-- Two passes of the second loop of nvme_mem_cleanup are enough for every pool: its loops end, and leave
-- the pool without heaps.
pub drain-empties :
    (mp : Mempool)
    → (mp' : Mempool) × (drain 2 (requeue_full mp.full_list mp) ≡ some mp')
      × (mp'.use_list ≡ [])
      × (mp'.full_list ≡ [])
drain-empties mp =
    let q : Mempool = requeue_full mp.full_list mp in
    drained q q.use_list refl (requeue_full-empties mp.full_list mp refl)
