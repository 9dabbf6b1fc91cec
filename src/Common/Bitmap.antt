-- ===== src/Common/Bitmap.antt =====
-- `test_bit`, `set_bit` and `clear_bit` on a bitmap of bytes.
use libnvme.Prelude.{
  ℕ, zero, suc, ◌+◌, ◌≤◌, ltb, false, ◌*◌, ◌/◌, ◌%◌, ◌<◌, ◌≡◌, true, ◌&&◌, not, Bool-cases, ==_iff,
  inl, inr, List, ◌==◌, if◌then◌else◌, length, get_or, set, length-set, get_or-set_self,
  get_or-set_ne, arith,
}
use libnvme.Common.{test_bit, set_bit, clear_bit}
use libnvme.Common.Bits.{or_bit, mask_bit, or_bit-lt, bit_of-or_bit, bit_of-mask_bit}

abbrev pub IsBytes : List ℕ → Type 0
IsBytes b = (i : ℕ) → get_or b i 0 < 256

get_or-set :
    (b : List ℕ) (i j v : ℕ)
    → i < length b
    → get_or (set b i v) j 0 ≡ (if i == j then v else get_or b j 0)
get_or-set b i j v h = elim (Bool-cases (i == j)) [
  | inl e ↦ let p : i ≡ j = (==_iff i j).0 e in rw e (rw (← p) (get_or-set_self b i v 0 h))
  | inr e ↦ rw e (get_or-set_ne b i j v 0 (λ p. ground arith))
]

-- Setting a bit of the bitmap sets that bit and leaves every other one.
pub test_bit-set_bit :
    (b : List ℕ) (i j : ℕ)
    → IsBytes b
    → i < 8 * length b
    → test_bit (set_bit b i) j ≡ (if i == j then true else test_bit b j)
unfolding test_bit set_bit
test_bit-set_bit b i j v h = ground (
  arith,
  get_or-set b (i / 8) (j / 8) (or_bit (get_or b (i / 8) 0) (i % 8)),
  bit_of-or_bit (get_or b (i / 8) 0) (i % 8) (j % 8),
  v (i / 8),
)

-- Clearing a bit of the bitmap clears that bit and leaves every other one.
pub test_bit-clear_bit :
    (b : List ℕ) (i j : ℕ)
    → IsBytes b
    → i < 8 * length b
    → test_bit (clear_bit b i) j ≡ (not (i == j) && test_bit b j)
unfolding test_bit clear_bit
test_bit-clear_bit b i j v h = ground (
  arith,
  get_or-set b (i / 8) (j / 8) (mask_bit (get_or b (i / 8) 0) (i % 8)),
  bit_of-mask_bit (get_or b (i / 8) 0) (i % 8) (j % 8),
  v (i / 8),
)

pub set_bit-IsBytes : (b : List ℕ) (i : ℕ) → IsBytes b → i < 8 * length b → IsBytes (set_bit b i)
unfolding set_bit
set_bit-IsBytes b i v h j = ground (
  arith,
  get_or-set b (i / 8) j (or_bit (get_or b (i / 8) 0) (i % 8)),
  or_bit-lt (get_or b (i / 8) 0) (i % 8) (v (i / 8)),
  v j,
)

pub clear_bit-IsBytes :
    (b : List ℕ) (i : ℕ) → IsBytes b → i < 8 * length b → IsBytes (clear_bit b i)
unfolding clear_bit
clear_bit-IsBytes b i v h j =
    ground (arith, get_or-set b (i / 8) j (mask_bit (get_or b (i / 8) 0) (i % 8)), v j)

pub length-set_bit : (b : List ℕ) (i : ℕ) → length (set_bit b i) ≡ length b
unfolding set_bit
length-set_bit b i = length-set b _ _

pub length-clear_bit : (b : List ℕ) (i : ℕ) → length (clear_bit b i) ≡ length b
unfolding clear_bit
length-clear_bit b i = length-set b _ _

-- How many of the first `n` bits are clear.
pub zeros : List ℕ → ℕ → ℕ
zeros b zero = 0
zeros b (suc n) = (if test_bit b n then 0 else 1) + zeros b n

pub zeros-le : (b : List ℕ) (n : ℕ) → zeros b n ≤ n
unfolding zeros
zeros-le b zero = omega arith
zeros-le b (suc n) = ground (arith, zeros-le b n)

clear_then :
    (b : List ℕ) (i j : ℕ)
    → IsBytes b
    → i < 8 * length b
    → test_bit b i ≡ true
    → test_bit b j ≡ (if i == j then true else test_bit (clear_bit b i) j)
clear_then b i j v h z = elim (Bool-cases (i == j)) [
  | inl p ↦ let q : i ≡ j = (==_iff i j).0 p in rw p (rw q at z)
  | inr p ↦ ground (arith, test_bit-clear_bit b i j v h)
]

-- Two bitmaps that differ at bit `i` alone, which is clear in the first and set in the second.
zeros_differ :
    (b c : List ℕ) (i n : ℕ)
    → test_bit b i ≡ false
    → ((j : ℕ) → test_bit c j ≡ (if i == j then true else test_bit b j))
    → zeros c n + (if ltb i n then 1 else 0) ≡ zeros b n
unfolding zeros
zeros_differ b c i zero h e = ground arith
zeros_differ b c i (suc n) h e = elim (Bool-cases (i == n)) [
  | inl p ↦
      let q : i ≡ n = (==_iff i n).0 p in ground (arith, zeros_differ b c i n h e, e n, rw q at h)
  | inr p ↦ ground (arith, zeros_differ b c i n h e, e n)
]

pub zeros-set_bit :
    (b : List ℕ) (i n : ℕ)
    → IsBytes b
    → i < 8 * length b
    → i < n
    → test_bit b i ≡ false
    → zeros (set_bit b i) n + 1 ≡ zeros b n
zeros-set_bit b i n v h lt z =
    ground (arith, zeros_differ b (set_bit b i) i n z (λ j. test_bit-set_bit b i j v h))

pub zeros-clear_bit :
    (b : List ℕ) (i n : ℕ)
    → IsBytes b
    → i < 8 * length b
    → i < n
    → test_bit b i ≡ true
    → zeros (clear_bit b i) n ≡ zeros b n + 1
zeros-clear_bit b i n v h lt z = ground (
  arith,
  zeros_differ (clear_bit b i) b i n (ground (arith, test_bit-clear_bit b i i v h))
      (λ j. clear_then b i j v h z),
)

pub zeros_none : (b : List ℕ) (n : ℕ) → ((j : ℕ) → j < n → test_bit b j ≡ true) → zeros b n ≡ 0
unfolding zeros
zeros_none b zero h = omega arith
zeros_none b (suc n) h =
    ground (arith, h n (omega arith), zeros_none b n (λ j p. h j (omega arith)))

pub zeros_all : (b : List ℕ) (n : ℕ) → ((j : ℕ) → j < n → test_bit b j ≡ false) → zeros b n ≡ n
unfolding zeros
zeros_all b zero h = omega arith
zeros_all b (suc n) h = ground (arith, h n (omega arith), zeros_all b n (λ j p. h j (omega arith)))
