-- ===== src/Common/Fields.antt =====
-- Words put together from fields: `(high << k) | low` is a sum where the low field has at most `k`
-- bits, and the fields are read back by division.
use Prim.Native.Nat.{max, bit_or, digits, bit_or-bitwise}
use libnvme.Prelude.{ℕ, zero, suc, ◌+◌, ◌*◌, ◌/◌, ◌%◌, ◌^◌, ◌≤◌, ◌<◌, ◌≡◌, sym, subst, arith}

-- The recursion on digits that `|` stands for.
abbrev pub or_digits : ℕ → ℕ → ℕ → ℕ
or_digits n a b = digits (λ y. y) max n a b

pub or_digits-zero : (n a : ℕ) → a ≤ n → or_digits n a 0 ≡ a
or_digits-zero zero a h = omega (arith, h)
or_digits-zero (suc n) zero h = omega arith
or_digits-zero (suc n) (suc a) h = omega (arith, or_digits-zero n (suc a / 2) (omega (arith, h)))

-- One step: an even first number, and the law for the halves.
or_digits-even :
    (n x b : ℕ)
    → x % 2 ≡ 0
    → x ≤ n
    → ((m : ℕ) → x / 2 ≤ m → or_digits m (x / 2) (b / 2) ≡ x / 2 + b / 2)
    → or_digits n x b ≡ x + b
or_digits-even zero x b e h half = omega (arith, e, h)
or_digits-even (suc n) zero b e h half = omega arith
or_digits-even (suc n) (suc x) b e h half = omega (arith, e, half n (omega (arith, h, e)))

pub twice : (a p q : ℕ) → q ≡ p * 2 → a * q ≡ a * p * 2
twice a p q e = rw e (grind arith)

-- A first number without digits below `k`, a second without digits from `k` on.
or_digits-shifted :
    (k n a b : ℕ) → a * 2 ^ k ≤ n → b < 2 ^ k → or_digits n (a * 2 ^ k) b ≡ a * 2 ^ k + b
or_digits-shifted zero n a b h l =
    let z : b ≡ 0 = omega (arith, l) in
    rw z (
      subst (λ x. or_digits n x 0 ≡ x + 0) {x = a} (omega arith)
        (omega (arith, or_digits-zero n a (omega (arith, h)))))
or_digits-shifted (suc k) n a b h l =
    let double : a * 2 ^ suc k ≡ a * 2 ^ k * 2 = twice a (2 ^ k) (2 ^ suc k) (omega arith) in
    let half : a * 2 ^ suc k / 2 ≡ a * 2 ^ k = omega (arith, double) in
    or_digits-even n (a * 2 ^ suc k) b (omega (arith, double)) h (λ m le.
      subst (λ y. or_digits m y (b / 2) ≡ y + b / 2) (sym half)
        (or_digits-shifted k m a (b / 2) (omega (arith, le, half)) (omega (arith, l))))

pub bit_or-field : (k a b : ℕ) → b < 2 ^ k → bit_or (a * 2 ^ k) b ≡ a * 2 ^ k + b
bit_or-field k a b h =
    omega (arith, bit_or-bitwise (a * 2 ^ k) b, or_digits-shifted k (a * 2 ^ k) a b (omega arith) h)
