-- ===== src/Mem.antt =====
-- lib/common/nvme_mem.c and lib/common/nvme_mem.h: memory pools of equal objects in huge pages.
-- A pointer to a heap is a number; the pool has the heaps as a function of it. What the operating
-- system gives is a parameter: the next huge page, and the entries of /proc/self/pagemap.
pub mod Inv
pub mod Grow
pub mod Mark
pub mod Alloc
pub mod Gain
pub mod Free
pub mod Translate
pub mod Pages
pub mod Pools
mod Tests
use Prim.Native.Nat.{bit_and}
use libnvme.Prelude.{
  ℕ, zero, suc, ◌+◌, ◌-◌, ◌*◌, ◌/◌, ◌%◌, ◌^◌, max, Bool, true, false, ◌&&◌, ◌||◌, not, Option, none,
  some, List, [], ◌∷◌, ltb, leb, ◌==◌, if◌then◌else◌, remove, update, map,
}
use libnvme.Common.{is_pow2, log2, align_pow2, test_bit, set_bit, clear_bit, find_first_zero_bit}

-- struct nvme_hugepage, without the pointers to the pool and the heap that use it; `fname` is the
-- number that ends the name of the file.
pub record Hugepage : Type 0 where
  pub size : ℕ
  pub size_bits : ℕ
  pub vaddr : ℕ
  pub paddr : ℕ
  pub node_id : ℕ
  pub fd : ℕ
  pub fname : ℕ

-- struct nvme_heap
pub record Heap : Type 0 where
  pub hp : Hugepage
  pub nr_objs : ℕ
  pub nr_free_objs : ℕ
  pub bitmap : List ℕ

-- struct nvme_mempool, without its lock
pub record Mempool : Type 0 where
  pub size_bits : ℕ
  pub nr_objs : ℕ
  pub nr_free_objs : ℕ
  pub nr_use : ℕ
  pub use_list : List ℕ
  pub nr_full : ℕ
  pub full_list : List ℕ
  pub heaps : ℕ → Heap

-- `nvme_heap_empty` and `nvme_heap_full`
abbrev pub heap_empty : Heap → Bool
heap_empty h = h.nr_free_objs == h.nr_objs

abbrev pub heap_full : Heap → Bool
heap_full h = h.nr_free_objs == 0

-- `x - n` and `x + n` on a `size_t`
abbrev pub sub64 : ℕ → ℕ → ℕ
sub64 x n = if ltb x n then x + 2 ^ 64 - n else x - n

abbrev pub add64 : ℕ → ℕ → ℕ
add64 x n = (x + n) % 2 ^ 64

pub zero_bytes : ℕ → List ℕ
zero_bytes zero = []
zero_bytes (suc n) = 0 ∷ zero_bytes n

-- The heap on a fresh huge page: nvme_mem_pool_grow up to the list.
unfoldable pub new_heap : ℕ → Hugepage → Heap
unfolding zero_bytes
new_heap size_bits hp =
    let n = hp.size / 2 ^ size_bits in
    record { hp = hp; nr_objs = n; nr_free_objs = n; bitmap = zero_bytes (8 * ((n + 63) / 64)) }

-- nvme_mem_pool_grow, given the descriptor and the huge page that it gets.
unfoldable pub pool_grow : ℕ → Hugepage → Mempool → Mempool
unfolding new_heap
pool_grow h hp mp =
    let heap = new_heap mp.size_bits hp in
    record mp {
      heaps = update mp.heaps h heap;
      use_list = h ∷ mp.use_list;
      nr_use = add64 mp.nr_use 1;
      nr_objs = add64 mp.nr_objs heap.nr_objs;
      nr_free_objs = add64 mp.nr_free_objs heap.nr_free_objs;
    }

-- An object: its virtual and its physical address.
abbrev pub Object : Type 0
Object = ℕ × ℕ

abbrev pub object_at : Mempool → ℕ → ℕ → Object
object_at mp h bit =
    let hp = (mp.heaps h).hp in
    (hp.vaddr + bit * 2 ^ mp.size_bits, hp.paddr + bit * 2 ^ mp.size_bits)

-- Bit `bit` of heap `h` becomes allocated; a heap that is now full changes lists.
unfoldable pub mark : Mempool → ℕ → ℕ → Mempool
mark mp h bit =
    let old = mp.heaps h in
    let heap = record old {
      bitmap = set_bit old.bitmap bit;
      nr_free_objs = sub64 old.nr_free_objs 1;
    } in
    let mp' = record mp {
      heaps = update mp.heaps h heap;
      nr_free_objs = sub64 mp.nr_free_objs 1;
    } in
    if heap_full heap
    then record mp' {
      use_list = remove h mp.use_list;
      nr_use = sub64 mp.nr_use 1;
      full_list = h ∷ mp.full_list;
      nr_full = add64 mp.nr_full 1;
    }
    else mp'

-- nvme_mem_pool_alloc once a heap is found
unfoldable pub alloc_from : Mempool → ℕ → Option Object × Mempool
unfolding mark
alloc_from mp h = elim (find_first_zero_bit (mp.heaps h).bitmap (mp.heaps h).nr_objs) [
  | none ↦ (none, mp)
  | some bit ↦ (some (object_at mp h bit), mark mp h bit)
]

unfoldable pub alloc_grown : Option (ℕ × Hugepage) → Mempool → Option Object × Mempool
unfolding alloc_from pool_grow
alloc_grown none mp = (none, mp)
alloc_grown (some (h, hp)) mp = alloc_from (pool_grow h hp mp) h

unfoldable pub alloc_first : List ℕ → Mempool → Option Object × Mempool
unfolding alloc_from
alloc_first [] mp = (none, mp)
alloc_first (h ∷ _) mp = alloc_from mp h

-- nvme_mem_pool_alloc. `next` is the huge page that growing would get, `none` for a failure.
unfoldable pub pool_alloc : Option (ℕ × Hugepage) → Mempool → Option Object × Mempool
unfolding alloc_grown alloc_first
pool_alloc next mp = if mp.nr_use == 0 then alloc_grown next mp else alloc_first mp.use_list mp

-- One heap leaves the use list and is freed.
abbrev pub drop_heap : ℕ → Mempool → Mempool
drop_heap h mp = record mp {
  use_list = remove h mp.use_list;
  nr_use = sub64 mp.nr_use 1;
  nr_objs = sub64 mp.nr_objs (mp.heaps h).nr_objs;
  nr_free_objs = sub64 mp.nr_free_objs (mp.heaps h).nr_free_objs;
}

-- The loop of nvme_mem_pool_shrink over the use list at the start; `n` counts the empty heaps.
unfoldable pub shrink_loop : Bool → List ℕ → ℕ → Mempool → Mempool
shrink_loop force [] n mp = mp
shrink_loop force (h ∷ hs) n mp =
    let empty = heap_empty (mp.heaps h) in
    let n' = if not force && empty then n + 1 else n in
    if not force && (not empty || n' == 1)
    then shrink_loop force hs n' mp
    else shrink_loop force hs n' (drop_heap h mp)

unfoldable pub pool_shrink : Bool → Mempool → Mempool
unfolding shrink_loop
pool_shrink force mp = shrink_loop force mp.use_list 0 mp

-- Bit `bit` of heap `h` becomes free: nvme_mem_pool_free between its checks and the shrinking.
unfoldable pub unmark : Mempool → ℕ → ℕ → Mempool
unmark mp h bit =
    let old = mp.heaps h in
    let mp' =
      if heap_full old
      then record mp {
        full_list = remove h mp.full_list;
        nr_full = sub64 mp.nr_full 1;
        use_list = h ∷ mp.use_list;
        nr_use = add64 mp.nr_use 1;
      }
      else mp in
    record mp' {
      heaps = update mp.heaps h (record old {
        bitmap = clear_bit old.bitmap bit;
        nr_free_objs = add64 old.nr_free_objs 1;
      });
      nr_free_objs = add64 mp.nr_free_objs 1;
    }

-- nvme_mem_pool_free; an address outside the heap or of a free object is reported and ignored.
unfoldable pub pool_free : Mempool → ℕ → ℕ → Mempool
unfolding unmark pool_shrink
pool_free mp h obj =
    let heap = mp.heaps h in
    let bit = (obj - heap.hp.vaddr) / 2 ^ mp.size_bits in
    if ltb obj heap.hp.vaddr || leb (heap.hp.vaddr + heap.hp.size) obj
    then mp
    else if heap_empty heap || not (test_bit heap.bitmap bit)
    then mp
    else let mp' = unmark mp h bit in
      if heap_empty (mp'.heaps h) then pool_shrink false mp' else mp'

-- nvme_mem_search_hp in the list of one hash bucket: the first huge page with the page number.
pub find_hp : ℕ → ℕ → List Hugepage → Option Hugepage
find_hp bits hpn [] = none
find_hp bits hpn (hp ∷ hps) = if hp.vaddr / 2 ^ bits == hpn then some hp else find_hp bits hpn hps

-- nvme_mem_search_hp: `buckets` is the hash table of 32 lists, `bits` is hp_size_bits.
unfoldable pub search_hp : ℕ → (ℕ → List Hugepage) → ℕ → Option Hugepage
unfolding find_hp
search_hp bits buckets vaddr = find_hp bits (vaddr / 2 ^ bits) (buckets (vaddr / 2 ^ bits % 32))

-- The insertion in nvme_mem_alloc_hp
unfoldable pub add_hp : ℕ → (ℕ → List Hugepage) → Hugepage → ℕ → List Hugepage
add_hp bits buckets hp =
    let hash = hp.vaddr / 2 ^ bits % 32 in update buckets hash (hp ∷ buckets hash)

-- nvme_mem_vtophys for a page size of 4096. `pagemap vpn` is what reading the entry gives, `none`
-- for a failed or short read; the low 55 bits (NVME_PFN_MASK) are the frame number.
unfoldable pub vtophys : ℕ → (ℕ → List Hugepage) → (ℕ → Option ℕ) → ℕ → ℕ
unfolding search_hp
vtophys bits buckets pagemap addr = elim (search_hp bits buckets addr) [
  | some hp ↦ (hp.paddr + addr + 2 ^ 64 - hp.vaddr) % 2 ^ 64
  | none ↦ elim (pagemap (addr / 4096)) [
    | none ↦ 2 ^ 64 - 1
    | some ppfn ↦ ppfn % 2 ^ 55 * 4096 % 2 ^ 64 + addr % 4096
  ]
]

-- Which pool serves nvme_mem_alloc_node, by its index; `none` where NULL is returned at once.
-- NVME_MP_SIZE_BITS_MIN is 7, NVME_MP_SIZE_BITS_MAX 21.
unfoldable pub pool_for : ℕ → ℕ → Option ℕ
pool_for size align =
    let bits = log2 (align_pow2 (max size align)) in
    if size == 0 || (not (align == 0) && not (is_pow2 align))
    then none
    else if leb bits 7
    then some 0
    else if leb bits 21
    then some (bits - 7)
    else none

-- The totals of nvme_memstat over the pools: total_bytes and free_bytes.
unfoldable pub memstat : List Mempool → ℕ × ℕ
memstat [] = (0, 0)
memstat (mp ∷ mps) =
    let rest = memstat mps in
    (
      add64 (mp.nr_objs * 2 ^ mp.size_bits) (rest.0),
      add64 (mp.nr_free_objs * 2 ^ mp.size_bits) (rest.1),
    )
