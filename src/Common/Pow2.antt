-- ===== src/Common/Pow2.antt =====
-- nvme_align_pow2 is the next power of two, and nvme_log2 its exponent.
use Prim.Native.Nat.{bit_or, bit_or-bitwise}
use native.Mathlib.Decide.{dec_lt}
use native.Mathlib.Nat.{
  le-div_iff_mul-le, div-lt_iff_lt-mul, div-eq_of_lt, one-le-pow, pow-le-pow_right,
}
use libnvme.Prelude.{
  ℕ, zero, suc, ◌+◌, ◌-◌, ◌*◌, ◌/◌, ◌^◌, ◌≤◌, ◌<◌, ◌≡◌, refl, sym, ap, subst, ◌∙◌, true, false,
  ◌==◌, ==_iff, arith,
}
use libnvme.Common.Bits.{table, entry}
use libnvme.Common.Fields.{or_digits, or_digits-zero, twice}
use libnvme.Common.{is_pow2, smear, align_pow2, log2_loop, log2}

-- A number `b` below 2 ^ t, put into a number `v` whose digits from `t` on are `q`: at least `b` is
-- added to the high part, and nothing is carried into it.
or_digits-bounds :
    (t n q v b : ℕ)
    → q * 2 ^ t ≤ v
    → v < q * 2 ^ t + 2 ^ t
    → b < 2 ^ t
    → v ≤ n
    → (q * 2 ^ t + b ≤ or_digits n v b) × (or_digits n v b < q * 2 ^ t + 2 ^ t)
or_digits-bounds zero n q v b low high hb h =
    let none : b ≡ 0 = omega (arith, hb) in
    let same = or_digits-zero n v h in rw none (omega (arith, same, low), omega (arith, same, high))
or_digits-bounds (suc t) zero q v b low high hb h = (omega (arith, low, h), omega (arith, hb))
or_digits-bounds (suc t) (suc n) q zero b low high hb h = (omega (arith, low), omega (arith, hb))
or_digits-bounds (suc t) (suc n) q (suc v) b low high hb h =
    let double : q * 2 ^ suc t ≡ q * 2 ^ t * 2 = twice q (2 ^ t) (2 ^ suc t) (omega arith) in
    let (least, most) =
      or_digits-bounds t n q (suc v / 2) (b / 2) (omega (arith, low, double))
        (omega (arith, high, double)) (omega (arith, hb)) (omega (arith, h)) in
    (omega (arith, least, double), omega (arith, most, double))

bit_or-bounds :
    (t q v b : ℕ)
    → q * 2 ^ t ≤ v
    → v < q * 2 ^ t + 2 ^ t
    → b < 2 ^ t
    → (q * 2 ^ t + b ≤ bit_or v b) × (bit_or v b < q * 2 ^ t + 2 ^ t)
bit_or-bounds t q v b low high hb =
    let (least, most) = or_digits-bounds t v q v b low high hb (omega arith) in
    let same = bit_or-bitwise v b in (omega (arith, least, same), omega (arith, most, same))

pow_add : (a b : ℕ) → 2 ^ (a + b) ≡ 2 ^ a * 2 ^ b
pow_add a zero = ap (λ x. 2 ^ x) {x = a + 0} {y = a} (omega arith) ∙ omega arith
pow_add a (suc b) =
    let half : 2 ^ (a + suc b) ≡ 2 ^ suc (a + b) =
      ap (λ x. 2 ^ x) {x = a + suc b} {y = suc (a + b)} (omega arith) in
    let low : 2 ^ a * 2 ^ suc b ≡ 2 ^ a * 2 ^ b * 2 =
      twice (2 ^ a) (2 ^ b) (2 ^ suc b) (omega arith) in
    omega (arith, half, low, pow_add a b)

quotient_least : (a u d v : ℕ) → 0 < a → a * (u + d) ≤ v + a * u → d ≤ v / a
quotient_least a u d v pos h = (le-div_iff_mul-le {k = a} {x = d} {y = v} pos).1 (omega (arith, h))

-- The highest `s` of the `k` digits of `v` are ones.
record Top (k s v : ℕ) : Type 0 where
  small : v < 2 ^ k
  ones : 2 ^ k ≤ v + 2 ^ (k - s)

-- `v |= v >> s` doubles their number, with A = 2 ^ s, T = 2 ^ (k - s) and U = 2 ^ (k - 2 * s).
or-doubles :
    (t q u d v : ℕ)
    → u + d ≡ 2 ^ t
    → v < (q + 1) * 2 ^ t
    → (q + 1) * 2 ^ t ≤ v + 2 ^ t
    → 2 ^ t ≤ (q + 1) * u
    → (bit_or v (v / (q + 1)) < (q + 1) * 2 ^ t) × ((q + 1) * 2 ^ t ≤ bit_or v (v / (q + 1)) + u)
or-doubles t q u d v parts small ones short =
    let b =
      (div-lt_iff_lt-mul {k = q + 1} {x = v} {y = 2 ^ t} (omega arith)).1 (omega (arith, small)) in
    let c = quotient_least (q + 1) u d v (omega arith) (rw parts (omega (arith, ones, short))) in
    let (least, most) =
      bit_or-bounds t q v (v / (q + 1)) (omega (arith, ones)) (omega (arith, small)) b in
    (omega (arith, most), omega (arith, least, c, parts))

pow_pos : (n : ℕ) → 0 < 2 ^ n
pow_pos n = one-le-pow n 2 (omega arith)

pub pow_le : (i j : ℕ) → i ≤ j → 2 ^ i ≤ 2 ^ j
pow_le i j h = pow-le-pow_right (omega arith) h

bit_or_zero : (v : ℕ) → bit_or v 0 ≡ v
bit_or_zero v = omega (arith, bit_or-bitwise v 0, or_digits-zero v v (omega arith))

-- The same for any A that is not 0.
doubled :
    (t a u v m : ℕ)
    → 0 < a
    → v < m
    → m ≤ v + 2 ^ t
    → a * 2 ^ t ≡ m
    → u ≤ 2 ^ t
    → 2 ^ t ≤ a * u
    → (bit_or v (v / a) < m) × (m ≤ bit_or v (v / a) + u)
doubled t a u v m pos small ones e less short =
    subst (λ b. b * 2 ^ t ≡ m → 2 ^ t ≤ b * u → (bit_or v (v / b) < m) × (m ≤ bit_or v (v / b) + u))
      {x = a - 1 + 1} (omega (arith, pos))
      (λ f g.
        subst (λ n. (bit_or v (v / (a - 1 + 1)) < n) × (n ≤ bit_or v (v / (a - 1 + 1)) + u)) f
          (or-doubles t (a - 1) u (2 ^ t - u) v (omega (arith, less)) (omega (arith, small, f))
            (omega (arith, ones, f)) g))
      e short

smear-Top : (k s v : ℕ) → Top k s v → Top k (s + s) (smear s v)
smear-Top k s v top = elim (dec_lt s k) [
  | yes h ↦
      let whole : 2 ^ s * 2 ^ (k - s) ≡ 2 ^ k =
        sym (pow_add s (k - s)) ∙ ap (λ x. 2 ^ x) {x = s + (k - s)} {y = k} (omega (arith, h)) in
      let less : 2 ^ (k - (s + s)) ≤ 2 ^ (k - s) = pow-le-pow_right (omega arith) (omega arith) in
      let short : 2 ^ (k - s) ≤ 2 ^ (s + (k - (s + s))) =
        pow-le-pow_right (omega arith) (omega arith) in
      let (small, ones) =
        doubled (k - s) (2 ^ s) (2 ^ (k - (s + s))) v (2 ^ k) (pow_pos s) top.small top.ones whole
          less (subst (λ x. 2 ^ (k - s) ≤ x) (pow_add s (k - (s + s))) short) in
      record { small = small; ones = ones }
  | no h ↦
      let wide : 2 ^ k ≤ 2 ^ s = pow-le-pow_right (omega arith) (omega (arith, h)) in
      let none : v / 2 ^ s ≡ 0 = div-eq_of_lt (omega (arith, top.small, wide)) in
      let flat : 2 ^ (k - s) ≡ 2 ^ (k - (s + s)) =
        ap (λ x. 2 ^ x) {x = k - s} {y = k - (s + s)} (omega (arith, h)) in
      let same : smear s v ≡ v = ap (bit_or v) none ∙ bit_or_zero v in
      record { small = omega (arith, same, top.small); ones = omega (arith, same, top.ones, flat) }
]

-- The six steps together.
smears-Top :
    (k v : ℕ)
    → k ≤ 64
    → Top k 1 v
    → smear 32 (smear 16 (smear 8 (smear 4 (smear 2 (smear 1 v))))) + 1 ≡ 2 ^ k
smears-Top k v h top =
    let all = smear-Top k 32 _ (
      smear-Top k 16 _
        (smear-Top k 8 _ (smear-Top k 4 _ (smear-Top k 2 _ (smear-Top k 1 v top))))) in
    let flat : 2 ^ (k - 64) ≡ 1 = ap (λ x. 2 ^ x) {x = k - 64} {y = 0} (omega (arith, h)) in
    omega (arith, all.small, all.ones, flat)

-- nvme_align_pow2 of a size above 1: the power of two that is not below it, and whose half is.
pub align_pow2-next : (k v : ℕ) → suc k < 64 → 2 ^ k < v → v ≤ 2 ^ suc k → align_pow2 v ≡ 2 ^ suc k
unfolding align_pow2
align_pow2-next k v few low high =
    let some_v : (v == 0) ≡ false = ground (arith, low) in
    let most = pow_le (suc k) 63 (omega (arith, few)) in
    let half : 2 ^ (suc k - 1) ≡ 2 ^ k = ap (λ x. 2 ^ x) {x = suc k - 1} {y = k} (omega arith) in
    let twice_half : 2 ^ suc k ≡ 2 ^ k * 2 = omega arith in
    let next =
      smears-Top (suc k) (v - 1) (omega (arith, few)) (record {
        small = omega (arith, high, low);
        ones = omega (arith, low, half, twice_half);
      }) in
    rw (some_v, next) (omega (arith, most))

powers_checked : table (λ k. log2 (2 ^ k) == k) 64 ≡ true
unfolding table log2 log2_loop is_pow2
powers_checked = refl

pub log2-pow : (k : ℕ) → k < 64 → log2 (2 ^ k) ≡ k
log2-pow k h = (==_iff (log2 (2 ^ k)) k).0 (entry (λ x. log2 (2 ^ x) == x) 64 powers_checked h)

-- The powers of two around a number.
pub between : (n v : ℕ) → 1 < v → v ≤ 2 ^ n → (k : ℕ) × (suc k ≤ n) × (2 ^ k < v) × (v ≤ 2 ^ suc k)
between zero v h l = absurd (omega (arith, h, l))
between (suc n) v h l = elim (dec_lt (2 ^ n) v) [
  | yes above ↦ (n, omega arith, above, l)
  | no below ↦
      let (k, few, low, high) = between n v h (omega (arith, below)) in
      (k, omega (arith, few), low, high)
]
