-- ===== src/Common/Find.antt =====
-- `find_first_zero_bit` scans whole words first; it finds what a scan of all bits finds.
use libnvme.Prelude.{
  ℕ, zero, suc, ◌+◌, ◌-◌, ◌*◌, ◌/◌, ◌%◌, ◌^◌, ◌<◌, ◌≤◌, ◌≡◌, refl, true, false, Bool-cases, ==_iff,
  inl, inr, Option, none, some, List, subst, ltb, ◌==◌, get_or, arith,
}
use libnvme.Common.{test_bit, word, skip_full_words, find_zero_from, find_first_zero_bit}
use libnvme.Common.Bits.{bit_of}
use libnvme.Common.Bitmap.{IsBytes}

-- What a search over the bits below `n` may answer: the first clear bit, or that there is none.
abbrev pub FirstZero : List ℕ → ℕ → Option ℕ → Type 0
FirstZero b n none = (j : ℕ) → j < n → test_bit b j ≡ true
FirstZero b n (some i) = (i < n) × (test_bit b i ≡ false) × ((j : ℕ) → j < i → test_bit b j ≡ true)

find_zero_from-FirstZero :
    (b : List ℕ) (n j : ℕ)
    → ((k : ℕ) → k < j → test_bit b k ≡ true)
    → FirstZero b (j + n) (find_zero_from b n j)
unfolding find_zero_from
find_zero_from-FirstZero b zero j h = λ k p. h k (omega arith)
find_zero_from-FirstZero b (suc n) j h = elim (Bool-cases (test_bit b j)) [
  | inl e ↦ rw e (
      subst (λ m. FirstZero b m (find_zero_from b n (j + 1))) (omega arith)
        (find_zero_from-FirstZero b n (j + 1) (λ k p. below k p e)))
  | inr e ↦ rw e (omega arith, e, h)
]
  where
    below : (k : ℕ) → k < j + 1 → test_bit b j ≡ true → test_bit b k ≡ true
    below k p e = elim (Bool-cases (k == j)) [
      | inl q ↦ let r : k ≡ j = (==_iff k j).0 q in rw r e
      | inr q ↦ h k (ground arith)
    ]

below_eight {ℓ} :
    (P : ℕ → Type ℓ) → P 0 × P 1 × P 2 × P 3 × P 4 × P 5 × P 6 × P 7 → (k : ℕ) → k < 8 → P k
below_eight P t zero h = t.0
below_eight P t (suc zero) h = t.1
below_eight P t (suc (suc zero)) h = t.2
below_eight P t (suc (suc (suc zero))) h = t.3
below_eight P t (suc (suc (suc (suc zero)))) h = t.4
below_eight P t (suc (suc (suc (suc (suc zero))))) h = t.5
below_eight P t (suc (suc (suc (suc (suc (suc zero)))))) h = t.6
below_eight P t (suc (suc (suc (suc (suc (suc (suc zero))))))) h = t.7
below_eight P t (suc (suc (suc (suc (suc (suc (suc (suc k)))))))) h = absurd (omega arith)

full_byte :
    (b : List ℕ) (i k : ℕ)
    → IsBytes b
    → word b i ≡ 2 ^ 64 - 1
    → k < 8
    → get_or b (8 * i + k) 0 ≡ 255
unfolding word
full_byte b i k v e h =
    below_eight (λ k. get_or b (8 * i + k) 0 ≡ 255)
      (omega (arith, bound 0, bound 1, bound 2, bound 3, bound 4, bound 5, bound 6, bound 7)) k h
  where
    bound : (k : ℕ) → get_or b (8 * i + k) 0 < 256
    bound k = v (8 * i + k)

full_bit : (b : List ℕ) (j : ℕ) → IsBytes b → word b (j / 64) ≡ 2 ^ 64 - 1 → test_bit b j ≡ true
unfolding test_bit
full_bit b j v e = rw byte (
    below_eight (λ k. bit_of 255 k ≡ true) (refl, refl, refl, refl, refl, refl, refl, refl) (j % 8)
      (omega arith))
  where
    byte : get_or b (j / 8) 0 ≡ 255
    byte =
        subst (λ m. get_or b m 0 ≡ 255) (omega arith)
          (full_byte b (j / 64) (j / 8 % 8) v e (omega arith))

skip_full :
    (b : List ℕ) (n i j : ℕ)
    → IsBytes b
    → 64 * i ≤ j
    → j < 64 * skip_full_words b n i
    → test_bit b j ≡ true
unfolding skip_full_words
skip_full b zero i j v lo hi = absurd (omega arith)
skip_full b (suc n) i j v lo hi = elim (Bool-cases (word b i == 2 ^ 64 - 1)) [
  | inl e ↦ elim (Bool-cases (ltb j (64 * (i + 1)))) [
    | inl p ↦ full_bit b j v (subst (λ m. word b m ≡ 2 ^ 64 - 1) (ground arith) ((==_iff _ _).0 e))
    | inr p ↦ skip_full b n (i + 1) j v (ground arith) (rw e at hi)
  ]
  | inr e ↦ absurd (let q : j < 64 * i = rw e at hi in omega arith)
]

-- The word-wise scan answers the first clear bit below the size, or -1 exactly if all are set.
pub find_first_zero_bit-FirstZero :
    (b : List ℕ) (n : ℕ) → IsBytes b → FirstZero b n (find_first_zero_bit b n)
unfolding find_first_zero_bit
find_first_zero_bit-FirstZero b n v = elim (Bool-cases (ltb bit n)) [
  | inl p ↦
      subst (λ m. FirstZero b m (find_zero_from b (n - bit) bit)) (ground arith)
        (find_zero_from-FirstZero b (n - bit) bit skipped)
  | inr p ↦
      subst (λ m. FirstZero b n (find_zero_from b m bit)) {x = 0} (ground arith)
        (λ j q. skipped j (ground arith))
]
  where
    bit : ℕ
    bit = 64 * skip_full_words b ((n + 63) / 64) 0

    skipped : (j : ℕ) → j < bit → test_bit b j ≡ true
    skipped j q = skip_full b ((n + 63) / 64) 0 j v (omega arith) q
