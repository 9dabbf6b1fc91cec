-- ===== src/Common/Tests.antt =====
-- A bitmap of two bytes.
use libnvme.Prelude.{ℕ, zero, suc, ◌≡◌, refl, true, false, some, List, [], ◌∷◌, arith}
use libnvme.Common.{test_bit, set_bit, clear_bit, find_first_zero_bit}
use libnvme.Common.Bitmap.{IsBytes, test_bit-set_bit, test_bit-clear_bit}
use libnvme.Common.Find.{FirstZero, find_first_zero_bit-FirstZero}

-- Bits 0 to 8 are set.
abbrev nine_set : List ℕ
nine_set = 0xff ∷ 1 ∷ []

nine_set-IsBytes : IsBytes nine_set
nine_set-IsBytes zero = omega arith
nine_set-IsBytes (suc zero) = omega arith
nine_set-IsBytes (suc (suc i)) = omega arith

test_bit-set_bit_example : test_bit (set_bit nine_set 12) 12 ≡ true
test_bit-set_bit_example = test_bit-set_bit nine_set 12 12 nine_set-IsBytes (omega arith)

test_bit-clear_bit_example : test_bit (clear_bit nine_set 8) 8 ≡ false
test_bit-clear_bit_example = test_bit-clear_bit nine_set 8 8 nine_set-IsBytes (omega arith)

found : find_first_zero_bit nine_set 16 ≡ some 9
unfolding find_first_zero_bit test_bit
found = refl

find_first_zero_bit-FirstZero_example : FirstZero nine_set 16 (find_first_zero_bit nine_set 16)
find_first_zero_bit-FirstZero_example = find_first_zero_bit-FirstZero nine_set 16 nine_set-IsBytes
