-- ===== src/Mem/Grow.antt =====
-- nvme_mem_pool_grow keeps the invariant: a fresh heap has only free objects.
use Prim.Native.Nat.{bit_and-bitwise}
use native.Mathlib.Nat.{mul-div_cancel}
use libnvme.Prelude.{
  ℕ, zero, suc, ◌+◌, ◌*◌, ◌/◌, ◌%◌, ◌^◌, ◌≤◌, ◌<◌, ◌≡◌, ◌≢◌, refl, ◌∙◌, sym, update_self, subst, ap,
  false, Bool-cases, inl, inr, ◌∷◌, ◌==◌, length, get_or, count, arith,
}
use libnvme.Common.{test_bit}
use libnvme.Common.Bitmap.{zeros_all, zeros-le}
use libnvme.Mem.{Hugepage, Mempool, zero_bytes, new_heap, pool_grow}
use libnvme.Mem.Inv.{HeapOk, PoolOk, sum, sum_absent, sum-cons, sum_le, free_of, objs_of}

zero_bytes-get : (n i : ℕ) → get_or (zero_bytes n) i 0 ≡ 0
unfolding zero_bytes
zero_bytes-get zero i = refl
zero_bytes-get (suc n) zero = refl
zero_bytes-get (suc n) (suc i) = zero_bytes-get n i

length-zero_bytes : (n : ℕ) → length (zero_bytes n) ≡ n
unfolding zero_bytes
length-zero_bytes zero = refl
length-zero_bytes (suc n) = ap suc (length-zero_bytes n)

pub zero_bytes-free : (n j : ℕ) → test_bit (zero_bytes n) j ≡ false
unfolding test_bit
zero_bytes-free n j = rw (zero_bytes-get n (j / 8)) (rw (bit_and-bitwise 0 (2 ^ (j % 8))) refl)

-- A huge page that the operating system may give to a pool: it holds a whole number of objects, its
-- descriptor is not one of the pool's, and the pool's counters have room for it.
pub record Fresh (mp : Mempool) (h : ℕ) (hp : Hugepage) : Type 0 where
  pub objs : ℕ
  pub size : hp.size ≡ objs * 2 ^ mp.size_bits
  pub some_objs : 0 < objs
  pub small : objs < 2 ^ 31
  pub unlisted : count h mp.use_list + count h mp.full_list ≡ 0
  pub few : mp.nr_use + mp.nr_full + 1 < 2 ^ 63
  pub few_objs : mp.nr_objs + objs < 2 ^ 63

pow_pos : (n : ℕ) → 0 < 2 ^ n
pow_pos zero = omega arith
pow_pos (suc n) = omega (arith, pow_pos n)

module _ (mp : Mempool) (h : ℕ) (hp : Hugepage) (fresh : Fresh mp h hp) where
  new_objs : (new_heap mp.size_bits hp).nr_objs ≡ fresh.objs
  unfolding new_heap
  new_objs =
      subst (λ s. s / 2 ^ mp.size_bits ≡ fresh.objs) (sym fresh.size)
        (mul-div_cancel fresh.objs (pow_pos mp.size_bits))

  new_heap-HeapOk :
      HeapOk mp.size_bits (new_heap mp.size_bits hp)
      × ((new_heap mp.size_bits hp).nr_free_objs ≡ fresh.objs)
  unfolding new_heap
  new_heap-HeapOk =
      let n = new_objs in
      (
        record {
          bytes =
              λ i. omega (arith, zero_bytes-get (8 * ((hp.size / 2 ^ mp.size_bits + 63) / 64)) i);
          room = omega (arith, length-zero_bytes (8 * ((hp.size / 2 ^ mp.size_bits + 63) / 64)));
          free = zeros_all _ _ (λ j p. zero_bytes-free _ j);
          size = subst (λ k. hp.size ≡ k * 2 ^ mp.size_bits) (sym n) fresh.size;
          some_objs = omega (arith, n, fresh.some_objs);
          small = omega (arith, n, fresh.small);
        },
        n,
      )

  grown_free : (i : ℕ) → i ≢ h → free_of (pool_grow h hp mp) i ≡ free_of mp i
  unfolding pool_grow
  grown_free i n = ground (arith, n)

  grown_objs : (i : ℕ) → i ≢ h → objs_of (pool_grow h hp mp) i ≡ objs_of mp i
  unfolding pool_grow
  grown_objs i n = ground (arith, n)

  grown_here : (pool_grow h hp mp).heaps h ≡ new_heap mp.size_bits hp
  unfolding pool_grow
  grown_here = update_self mp.heaps h (new_heap mp.size_bits hp)

  grown_sum :
      (f g : ℕ → ℕ)
      → ((i : ℕ) → i ≢ h → g i ≡ f i)
      → sum g (h ∷ mp.use_list) + sum g mp.full_list
        ≡ g h + (sum f mp.use_list + sum f mp.full_list)
  grown_sum f g e = omega (
    arith,
    sum-cons g h mp.use_list,
    sum_absent f g h mp.use_list e (omega (arith, fresh.unlisted)),
    sum_absent f g h mp.full_list e (omega (arith, fresh.unlisted)),
  )

  pub pool_grow-PoolOk : PoolOk mp → PoolOk (pool_grow h hp mp)
  unfolding pool_grow
  pool_grow-PoolOk ok =
      let (good, all_free) = new_heap-HeapOk in
      let o = new_objs in
      let here = grown_here in
      let fsum = grown_sum (free_of mp) (free_of (pool_grow h hp mp)) grown_free in
      let osum = grown_sum (objs_of mp) (objs_of (pool_grow h hp mp)) grown_objs in
      let less =
        sum_le (free_of mp) (objs_of mp) mp.use_list (λ i p. free_le ok i (omega (arith, p))) in
      let less' =
        sum_le (free_of mp) (objs_of mp) mp.full_list (λ i p. free_le ok i (omega (arith, p))) in
      let ho : objs_of (pool_grow h hp mp) h ≡ fresh.objs = ap (λ x. x.nr_objs) here ∙ o in
      let hf : free_of (pool_grow h hp mp) h ≡ fresh.objs =
        ap (λ x. x.nr_free_objs) here ∙ all_free in
      record {
        used = omega (arith, ok.used, fresh.few);
        full = ok.full;
        single = λ i. ground (arith, ok.single i, fresh.unlisted);
        heap = λ i p. elim (Bool-cases (h == i)) [
          | inl e ↦ rw e good
          | inr e ↦ rw e (ok.heap i (ground (arith, p)))
        ];
        use_free = λ i p. ground (arith, ok.use_free i, all_free, fresh.some_objs);
        full_free = λ i p. ground (arith, ok.full_free i, fresh.unlisted);
        objs = omega (arith, ok.objs, osum, ho, o, fresh.few_objs);
        free = omega (arith, ok.free, ok.objs, fsum, hf, less, less', all_free, fresh.few_objs);
        few = omega (arith, fresh.few);
        few_objs = omega (arith, o, fresh.few_objs);
      }
    where
      free_le :
          PoolOk mp
          → (i : ℕ) → 0 < count i mp.use_list + count i mp.full_list
          → free_of mp i ≤ objs_of mp i
      free_le ok i p =
          omega (arith, (ok.heap i p).free, zeros-le (mp.heaps i).bitmap (mp.heaps i).nr_objs)
