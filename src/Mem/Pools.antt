-- ===== src/Mem/Pools.antt =====
-- lib/common/nvme_mem.c: the pools that nvme_mem_init sets up, which one nvme_mem_alloc_node takes,
-- and how nvme_mem_cleanup empties them. The pools are the list `mm.mp`, the smallest objects first.
pub mod Choice
pub mod Drain
mod Tests
use libnvme.Prelude.{
  ℕ, zero, suc, ◌+◌, ◌^◌, Bool, true, false, Option, none, some, List, [], ◌∷◌, if◌then◌else◌,
  ◌>>=◌, remove,
}
use libnvme.Types.{Ret, success, failure}
use libnvme.Mem.{Hugepage, Heap, Mempool, pool_shrink}
use libnvme.Mem.Pages.{Pages}
use libnvme.Mem.Pages.Setup.{Host, hp_init}

-- A pool as the `memset` of nvme_mem_init and the loop over the pools leave it
abbrev pub new_pool : ℕ → Mempool
new_pool size_bits = record {
  size_bits = size_bits;
  nr_objs = 0;
  nr_free_objs = 0;
  nr_use = 0;
  use_list = [];
  nr_full = 0;
  full_list = [];
  heaps = λ _. record {
    hp = record { size = 0; size_bits = 0; vaddr = 0; paddr = 0; node_id = 0; fd = 0; fname = 0 };
    nr_objs = 0;
    nr_free_objs = 0;
    bitmap = [];
  };
}

-- The loop of nvme_mem_init over `n` pools, from order `size_bits` on.
unfoldable pub init_pools : ℕ → ℕ → List Mempool
init_pools zero size_bits = []
init_pools (suc n) size_bits = new_pool size_bits ∷ init_pools n (size_bits + 1)

-- struct nvme_mem: the huge pages and the pools
pub record Manager : Type 0 where
  pub pages : Pages
  pub mp : List Mempool

-- nvme_mem_init after the `memset`; `pg_map` says whether /proc/self/pagemap can be opened.
-- NVME_MP_SIZE_BITS_MIN is 7, NVME_MP_NUM 15.
unfoldable pub mem_init : Bool → Host → Manager → Ret × Manager
unfolding init_pools hp_init
mem_init pg_map e m =
    let r = hp_init e m.pages in
    if pg_map
    then elim (r.0) [
      | success ↦ (success, record { pages = r.1; mp = init_pools 15 7 })
      | ret ↦ (ret, record m { pages = r.1 })
    ]
    else (failure, m)

-- The first loop of nvme_mem_cleanup for one pool: every full heap goes to the head of the use list,
-- and the counters stay.
unfoldable pub requeue_full : List ℕ → Mempool → Mempool
unfolding remove
requeue_full [] mp = mp
requeue_full (h ∷ hs) mp =
    requeue_full hs (record mp { full_list = remove h mp.full_list; use_list = h ∷ mp.use_list })

-- The second: `while (LIST_FIRST(&mp->use_list)) nvme_mem_pool_shrink(mp, true)`.
unfoldable pub drain : ℕ → Mempool → Option Mempool
unfolding pool_shrink
drain zero mp = none
drain (suc fuel) mp = elim mp.use_list [ [] ↦ some mp | _ ∷ _ ↦ drain fuel (pool_shrink true mp) ]

-- The loop of nvme_mem_cleanup over the pools, before nvme_mem_hp_cleanup.
unfoldable pub drain_pools : ℕ → List Mempool → Option (List Mempool)
unfolding drain requeue_full
drain_pools fuel [] = some []
drain_pools fuel (mp ∷ mps) =
    let rest = drain_pools fuel mps in
    drain fuel (requeue_full mp.full_list mp) >>= λ mp'. rest >>= λ mps'. some (mp' ∷ mps')
