-- ===== src/Mem/Pools/Choice.antt =====
-- nvme_mem_alloc_node takes a pool whose objects are large enough, and the smallest such.
use libnvme.Prelude.{
  ℕ, zero, suc, ◌+◌, ◌-◌, ◌^◌, ◌≤◌, ◌<◌, ◌≡◌, ◌≢◌, ◌⊎◌, refl, sym, ap, ◌∙◌, subst, max, true, false,
  ◌&&◌, not, some, ◌==◌, leb, get_or, inl, inr, arith,
}
use native.Mathlib.Decide.{dec_lt, ℕ_discrete}
use libnvme.Common.{is_pow2, log2, align_pow2}
use libnvme.Common.Pow2.{align_pow2-next, log2-pow, between, pow_le}
use libnvme.Mem.{Mempool, pool_for}
use libnvme.Mem.Pools.{new_pool, init_pools}

-- The order of the pool at an index of the list.
get_or-init_pools : (n b i : ℕ) → i < n → get_or (init_pools n b) i (new_pool 0) ≡ new_pool (b + i)
unfolding init_pools
get_or-init_pools zero b i h = absurd (omega (arith, h))
get_or-init_pools (suc n) b zero h = ap new_pool {x = b} {y = b + 0} (omega arith)
get_or-init_pools (suc n) b (suc i) h =
    get_or-init_pools n (b + 1) i (omega (arith, h))
    ∙ ap new_pool {x = b + 1 + i} {y = b + suc i} (omega arith)

-- What a good choice is: the objects of the pool hold the size and the alignment, and no smaller pool's
-- do.
pub record IsChoice (size align i : ℕ) (mp : Mempool) : Type 0 where
  pub holds : size ≤ 2 ^ mp.size_bits
  pub aligned : align ≤ 2 ^ mp.size_bits
  pub least : (i ≡ 0) ⊎ (2 ^ (mp.size_bits - 1) < max size align)

log2_one : log2 (align_pow2 1) ≡ 0
unfolding log2 align_pow2
log2_one = refl

-- The order that a size and an alignment need.
order-log2 :
    (n v : ℕ)
    → 0 < v
    → v ≤ 2 ^ n
    → n < 63
    → (b : ℕ) × (log2 (align_pow2 v) ≡ b) × (b ≤ n) × (v ≤ 2 ^ b) × ((b ≡ 0) ⊎ (2 ^ (b - 1) < v))
order-log2 n v pos l few = elim (dec_lt 1 v) [
  | yes h ↦
      let (k, at, low, high) = between n v h l in
      (
        suc k,
        ap log2 (align_pow2-next k v (omega (arith, at, few)) low high)
            ∙ log2-pow (suc k) (omega (arith, at, few)),
        at,
        high,
        inr (subst (λ x. 2 ^ x < v) {x = k} (omega arith) low),
      )
  | no h ↦
      let one : v ≡ 1 = omega (arith, pos, h) in
      (0, ap (λ x. log2 (align_pow2 x)) one ∙ log2_one, omega arith, omega (arith, one), inl refl)
]

pool_for-order :
    (size align b : ℕ)
    → 0 < size
    → (align ≡ 0) ⊎ (is_pow2 align ≡ true)
    → log2 (align_pow2 (max size align)) ≡ b
    → b ≤ 21
    → max size align ≤ 2 ^ b
    → (b ≡ 0) ⊎ (2 ^ (b - 1) < max size align)
    → (i : ℕ) × (i < 15)
      × (pool_for size align ≡ some i)
      × IsChoice size align i (get_or (init_pools 15 7) i (new_pool 0))
unfolding pool_for
pool_for-order size align b pos power order few hold least = elim (dec_lt 7 b) [
  | yes h ↦
      let small : leb b 7 ≡ false = ground (arith, h) in
      let large : leb b 21 ≡ true = ground (arith, few) in
      (
        b - 7,
        omega (arith, few),
        rw (pool_for, order, some_size, power_of_two, small, large) refl,
        chosen (b - 7) b (omega (arith, few)) (omega (arith, h)) hold (λ z. least_at b h least),
      )
  | no h ↦
      let small : leb b 7 ≡ true = ground (arith, h) in
      (
        0,
        omega arith,
        rw (pool_for, order, some_size, power_of_two, small) refl,
        chosen 0 7 (omega arith) refl (omega (arith, hold, pow_le b 7 (omega (arith, h))))
            (λ z. absurd (z refl)),
      )
]
  where
    some_size : (size == 0) ≡ false
    some_size = ground (arith, pos)

    power_of_two : (not (align == 0) && not (is_pow2 align)) ≡ false
    power_of_two = ground (arith, power)

    least_at :
        (b : ℕ) → 7 < b → (b ≡ 0) ⊎ (2 ^ (b - 1) < max size align) → 2 ^ (b - 1) < max size align
    least_at b h (inl z) = absurd (omega (arith, h, z))
    least_at b h (inr low) = low

    chosen :
        (i b : ℕ)
        → i < 15
        → b ≡ 7 + i
        → max size align ≤ 2 ^ b
        → (i ≢ 0 → 2 ^ (b - 1) < max size align)
        → IsChoice size align i (get_or (init_pools 15 7) i (new_pool 0))
    chosen i b h e hold least = subst (IsChoice size align i) (sym (get_or-init_pools 15 7 i h)) (
        subst (λ o. IsChoice size align i (new_pool o)) e
          (record {
            holds = omega (arith, hold);
            aligned = omega (arith, hold);
            least = elim (ℕ_discrete i 0) [ yes z ↦ inl z | no z ↦ inr (least z) ];
          }))

-- nvme_mem_alloc_node of a size above 0 with an alignment that is 0 or a power of two, neither above
-- 2 MB: it takes one of the 15 pools that nvme_mem_init has set up, whose objects are at least as large
-- as the size and the alignment, and it is the smallest pool or objects of half the size would not do.
pub pool_for-IsChoice :
    (size align : ℕ)
    → 0 < size
    → (align ≡ 0) ⊎ (is_pow2 align ≡ true)
    → max size align ≤ 2 ^ 21
    → (i : ℕ) × (i < 15)
      × (pool_for size align ≡ some i)
      × IsChoice size align i (get_or (init_pools 15 7) i (new_pool 0))
pool_for-IsChoice size align pos power l =
    let (b, order, few, hold, least) =
      order-log2 21 (max size align) (omega (arith, pos)) l (omega arith) in
    pool_for-order size align b pos power order few hold least
