-- ===== src/Strings/Tests.antt =====
-- Trimming and splitting short strings; 32 is a space, 58 a colon.
use libnvme.Prelude.{ℕ, ◌≤◌, ◌≡◌, refl, Bool, List, [], ◌∷◌, ◌++◌, ◌==◌, length}
use libnvme.Strings.{str_split, str_trim}
use libnvme.Strings.Split.{Ascending, str_split-Ascending}
use libnvme.Strings.Trim.{Blank, NoSpaceFirst, NoSpaceLast, str_trim-trims}

abbrev is_blank : ℕ → Bool
is_blank ch = ch == 32

-- " a b "
abbrev padded : List ℕ
padded = 32 ∷ 97 ∷ 32 ∷ 98 ∷ 32 ∷ []

padded_trimmed : str_trim is_blank padded ≡ 97 ∷ 32 ∷ 98 ∷ []
unfolding str_trim
padded_trimmed = refl

str_trim-trims_example :
    (front : List ℕ) × (end : List ℕ) × Blank is_blank front
    × Blank is_blank end
    × (padded ≡ front ++ (str_trim is_blank padded ++ end))
    × NoSpaceFirst is_blank (str_trim is_blank padded)
    × NoSpaceLast is_blank (str_trim is_blank padded)
str_trim-trims_example = str_trim-trims is_blank padded

-- "a::b"
abbrev address : List ℕ
address = 97 ∷ 58 ∷ 58 ∷ 98 ∷ []

address_split :
    ((str_split address 4 58).starts ≡ 0 ∷ 2 ∷ 3 ∷ [])
    × ((str_split address 4 58).string ≡ 97 ∷ 0 ∷ 0 ∷ 98 ∷ [])
unfolding str_split
address_split = (refl, refl)

str_split-Ascending_example :
    (length (str_split address 4 58).starts ≤ 4)
    × Ascending 0 (length address) (str_split address 4 58).starts
    × (length (str_split address 4 58).string ≡ length address)
str_split-Ascending_example = str_split-Ascending address 4 58
