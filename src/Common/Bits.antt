-- ===== src/Common/Bits.antt =====
-- Facts about single bytes, checked on all their values, and the digit laws of `&`.
use Prim.Native.Nat.{bit_and, bit_or}
use libnvme.Prelude.{
  ℕ, zero, suc, ◌-◌, ◌%◌, ◌^◌, ◌<◌, ◌≡◌, refl, Bool, true, ◌&&◌, not, ltb, ◌==◌, if◌then◌else◌,
  ltb→lt, false, if_inv, Bool-cases, ==_iff, inl, inr, arith,
}

-- A table of truth values read at one entry.
unfoldable pub table : (ℕ → Bool) → ℕ → Bool
table p zero = true
table p (suc n) = if p n then table p n else false

pub entry : (p : ℕ → Bool) (n : ℕ) → table p n ≡ true → {x : ℕ} → x < n → p x ≡ true
unfolding table
entry p zero h {x} lt = absurd (omega arith)
entry p (suc n) h {x} lt = elim (if_inv (p n) (table p n) false h) [
  | inl (here, rest) ↦ elim (Bool-cases (x == n)) [
    | inl e ↦ let q : x ≡ n = (==_iff x n).0 e in rw q here
    | inr e ↦ entry p n rest (ground arith)
  ]
  | inr (_, q) ↦ cc
]

bool_eq : Bool → Bool → Bool
bool_eq true b = b
bool_eq _ b = not b

bool_eq_sound : (a b : Bool) → bool_eq a b ≡ true → a ≡ b
unfolding bool_eq
bool_eq_sound a b h = ground arith

abbrev pub bit_of : ℕ → ℕ → Bool
bit_of x k = not (bit_and x (2 ^ k) == 0)

abbrev pub or_bit : ℕ → ℕ → ℕ
or_bit x j = bit_or x (2 ^ j)

abbrev pub mask_bit : ℕ → ℕ → ℕ
mask_bit x j = bit_and x (2 ^ 32 - 1 - 2 ^ j) % 256

abbrev byte_laws : ℕ → ℕ → ℕ → Bool
unfolding bool_eq
byte_laws x j k =
    bool_eq (bit_of (or_bit x j) k) (if j == k then true else bit_of x k)
    && bool_eq (bit_of (mask_bit x j) k) (not (j == k) && bit_of x k)

byte_table : table (λ x. table (λ j. ltb (or_bit x j) 256 && table (byte_laws x j) 8) 8) 256 ≡ true
unfolding table bool_eq
byte_table = refl

pub and_true : (a b : Bool) → (a && b) ≡ true → (a ≡ true) × (b ≡ true)
and_true a b h = ground arith

row : (x j : ℕ) → x < 256 → j < 8 → (ltb (or_bit x j) 256 && table (byte_laws x j) 8) ≡ true
row x j hx hj =
    entry (λ i. ltb (or_bit x i) 256 && table (byte_laws x i) 8) 8 (entry _ 256 byte_table hx) hj

cell : (x j k : ℕ) → x < 256 → j < 8 → k < 8 → byte_laws x j k ≡ true
cell x j k hx hj hk = entry (byte_laws x j) 8 (and_true _ _ (row x j hx hj)).1 hk

pub or_bit-lt : (x j : ℕ) → x < 256 → j < 8 → or_bit x j < 256
or_bit-lt x j hx hj = ltb→lt _ _ (and_true _ _ (row x j hx hj)).0

-- Setting bit `j` of a byte sets that bit and no other.
pub bit_of-or_bit :
    (x j k : ℕ)
    → x < 256
    → j < 8
    → k < 8
    → bit_of (or_bit x j) k ≡ (if j == k then true else bit_of x k)
unfolding bool_eq
bit_of-or_bit x j k hx hj hk = bool_eq_sound _ _ (and_true _ _ (cell x j k hx hj hk)).0

-- Clearing bit `j` of a byte clears that bit and no other.
pub bit_of-mask_bit :
    (x j k : ℕ) → x < 256 → j < 8 → k < 8 → bit_of (mask_bit x j) k ≡ (not (j == k) && bit_of x k)
unfolding bool_eq
bit_of-mask_bit x j k hx hj hk = bool_eq_sound _ _ (and_true _ _ (cell x j k hx hj hk)).1
