-- ===== src/Mem/Free.antt =====
-- nvme_mem_pool_free keeps the invariant of a pool, whatever address is freed.
use native.Mathlib.Nat.{div-lt_iff_lt-mul}
use libnvme.Prelude.{
  ℕ, zero, suc, ◌+◌, ◌-◌, ◌/◌, ◌^◌, ◌≤◌, ◌<◌, ◌≡◌, refl, subst, Bool, true, false, not, ◌||◌,
  Bool-cases, inl, inr, if◌then◌else◌, arith, ltb, leb,
}
use libnvme.Common.{test_bit}
use libnvme.Common.Bitmap.{zeros-le}
use libnvme.Mem.{Heap, Mempool, heap_full, heap_empty, unmark, pool_free, pool_shrink}
use libnvme.Mem.Inv.{PoolOk, objs_of}
use libnvme.Mem.Gain.{
  Listed, pool_shrink-PoolOk, cleared, cleared-HeapOk, stays-PoolOk, returns-PoolOk,
}

pow_pos : (n : ℕ) → 0 < 2 ^ n
pow_pos zero = omega arith
pow_pos (suc n) = omega (arith, pow_pos n)

unmark-PoolOk :
    (mp : Mempool) (h bit : ℕ)
    → PoolOk mp
    → Listed mp h
    → bit < objs_of mp h
    → test_bit (mp.heaps h).bitmap bit ≡ true
    → PoolOk (unmark mp h bit)
unfolding unmark
unmark-PoolOk mp h bit ok listed lt t =
    let (good, more) = cleared-HeapOk mp.size_bits (mp.heaps h) bit (ok.heap h listed) lt t in
    let v = cleared (mp.heaps h) bit in
    let bound : v.nr_free_objs ≤ v.nr_objs =
      omega (arith, good.free, zeros-le v.bitmap v.nr_objs) in
    elim (Bool-cases (heap_full (mp.heaps h))) [
      | inl e ↦
          simp e (returns-PoolOk mp h v ok good more refl bound (ground (arith, ok.use_free h)))
      | inr e ↦
          simp e (stays-PoolOk mp h v ok good more refl bound (ground (arith, ok.full_free h)))
    ]

if-PoolOk :
    (b : Bool) (x y : Mempool)
    → (b ≡ true → PoolOk x)
    → (b ≡ false → PoolOk y)
    → PoolOk (if b then x else y)
if-PoolOk true x y f g = f refl
if-PoolOk false x y f g = g refl

-- nvme_mem_pool_free of any address, in the heap or not, of an allocated object or a free one, keeps
-- the invariant of the pool that has the heap, the shrinking included.
pub pool_free-PoolOk :
    (mp : Mempool) (h obj : ℕ) → PoolOk mp → Listed mp h → PoolOk (pool_free mp h obj)
unfolding pool_free
pool_free-PoolOk mp h obj ok listed =
    if-PoolOk (ltb obj heap.hp.vaddr || leb (heap.hp.vaddr + heap.hp.size) obj) mp _ (λ _. ok)
      (λ inside.
        if-PoolOk (heap_empty heap || not (test_bit heap.bitmap bit)) mp _ (λ _. ok)
          (λ taken.
            let done = unmark-PoolOk mp h bit ok listed (in_heap inside) (ground (arith, taken)) in
            if-PoolOk (heap_empty ((unmark mp h bit).heaps h)) (pool_shrink false (unmark mp h bit))
              (unmark mp h bit) (λ _. pool_shrink-PoolOk false (unmark mp h bit) done) (λ _. done)))
  where
    heap : Heap
    heap = mp.heaps h

    bit : ℕ
    bit = (obj - heap.hp.vaddr) / 2 ^ mp.size_bits

    in_heap :
        (ltb obj heap.hp.vaddr || leb (heap.hp.vaddr + heap.hp.size) obj) ≡ false
        → bit < heap.nr_objs
    in_heap e =
        (div-lt_iff_lt-mul (pow_pos mp.size_bits)).1
          (subst (λ n. obj - heap.hp.vaddr < n) (ok.heap h listed).size (ground (arith, e)))
