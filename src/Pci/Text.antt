-- ===== src/Pci/Text.antt =====
-- The digits of a serial number: what a text that `%08x` prints stands for.
use libnvme.Prelude.{
  ℕ, zero, suc, ◌+◌, ◌-◌, ◌*◌, ◌/◌, ◌%◌, ◌^◌, ◌<◌, ◌≡◌, refl, subst, ltb, List, [], ◌∷◌, ◌++◌,
  if◌then◌else◌, length, length-append, arith,
}
use libnvme.Pci.{hex_digit, hex}

-- What a text of hexadecimal digits stands for.
pub digit_value : ℕ → ℕ
digit_value c = if ltb c 87 then c - 48 else c - 87

unfoldable pub text_value : List ℕ → ℕ → ℕ
unfolding digit_value
text_value [] v = v
text_value (c ∷ cs) v = text_value cs (v * 16 + digit_value c)

digit_value-hex_digit : (d : ℕ) → d < 16 → digit_value (hex_digit d) ≡ d
unfolding digit_value hex_digit
digit_value-hex_digit d h = ground (arith, h)

text_value-append :
    (xs ys : List ℕ) (v : ℕ) → text_value (xs ++ ys) v ≡ text_value ys (text_value xs v)
unfolding text_value
text_value-append [] ys v = refl
text_value-append (x ∷ xs) ys v = text_value-append xs ys (v * 16 + digit_value x)

pub length-hex : (n v : ℕ) → length (hex n v) ≡ n
unfolding hex
length-hex zero v = refl
length-hex (suc n) v =
    omega (arith, length-append (hex n (v / 16)) (hex_digit (v % 16) ∷ []), length-hex n (v / 16))

scaled : (a w v : ℕ) → (a * w + v / 16) * 16 + v % 16 ≡ a * (w * 16) + v
scaled a w v = omega arith

pow_suc : (n : ℕ) → 16 ^ n * 16 ≡ 16 ^ suc n
pow_suc n = omega arith

-- `n` digits after a text.
text_value-hex : (n v a : ℕ) → v < 16 ^ n → text_value (hex n v) a ≡ a * 16 ^ n + v
unfolding hex text_value
text_value-hex zero v a h = omega (arith, h)
text_value-hex (suc n) v a h =
    let step = text_value-hex n (v / 16) a (omega (arith, h)) in
    let end = digit_value-hex_digit (v % 16) (omega arith) in
    rw (text_value-append (hex n (v / 16)) (hex_digit (v % 16) ∷ []) a, step, end)
      (subst (λ w. (a * 16 ^ n + v / 16) * 16 + v % 16 ≡ a * w + v) (pow_suc n)
        (scaled a (16 ^ n) v))

pub words_value :
    (high low : ℕ)
    → high < 2 ^ 32
    → low < 2 ^ 32
    → text_value (hex 8 high ++ hex 8 low) 0 ≡ high * 2 ^ 32 + low
words_value high low h l = omega (
  arith,
  text_value-append (hex 8 high) (hex 8 low) 0,
  text_value-hex 8 low (text_value (hex 8 high) 0) l,
  text_value-hex 8 high 0 h,
)
