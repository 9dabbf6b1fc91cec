-- ===== src/Pci/Listed.antt =====
-- The list of a device's extended capabilities, and what a serial number on it is.
use libnvme.Prelude.{ℕ, ◌+◌, ◌*◌, ◌^◌, ◌≤◌, ◌<◌, ◌≡◌, ◌≢◌, ◌⊎◌, Option, none, some, List, length}
use libnvme.Pci.{cap_id, next_cap}
use libnvme.Pci.Text.{text_value}

-- The positions on the list from position `p` on, up to the first capability with id 3.
pub data From (cfg : ℕ → Option ℕ) : ℕ → ℕ → Type 0 where
  here : {p : ℕ} → From cfg p p
  next :
      {p q header : ℕ}
      → cfg p ≡ some header
      → cap_id header ≢ 3
      → 256 ≤ next_cap header
      → From cfg (next_cap header) q
      → From cfg p q

-- One capability further.
pub From-next :
    (cfg : ℕ → Option ℕ) (p q header : ℕ)
    → From cfg p q
    → cfg q ≡ some header
    → cap_id header ≢ 3
    → 256 ≤ next_cap header
    → From cfg p (next_cap header)
From-next cfg p q header here at id far = next at id far here
From-next cfg p q header (next at' id' far' f) at id far =
    next at' id' far' (From-next cfg _ q header f at id far)

-- The text is the serial number: the two words after the header of a capability with id 3.
pub record IsSerial (cfg : ℕ → Option ℕ) (p : ℕ) (text : List ℕ) : Type 0 where
  pub pos : ℕ
  pub listed : From cfg p pos
  pub header : ℕ
  pub at : cfg pos ≡ some header
  pub id : cap_id header ≡ 3
  pub low : ℕ
  pub low_at : cfg (pos + 4) ≡ some low
  pub high : ℕ
  pub high_at : cfg (pos + 8) ≡ some high
  pub value : text_value text 0 ≡ high * 2 ^ 32 + low
  pub digits : length text ≡ 16

-- Why there is none: no capability of the list has id 3, the header of one of them cannot be read,
-- or one with id 3 is reached of which one of the two words cannot be read.
pub data NoSerial (cfg : ℕ → Option ℕ) (p : ℕ) : Type 0 where
  no_such :
      ((q header : ℕ) → From cfg p q → cfg q ≡ some header → cap_id header ≢ 3) → NoSerial cfg p
  no_header : (q : ℕ) → From cfg p q → cfg q ≡ none → NoSerial cfg p
  no_word :
      (q header : ℕ)
      → From cfg p q
      → cfg q ≡ some header
      → cap_id header ≡ 3
      → (cfg (q + 4) ≡ none) ⊎ (cfg (q + 8) ≡ none)
      → NoSerial cfg p

abbrev pub IsResult : (ℕ → Option ℕ) → ℕ → Option (List ℕ) → Type 0
IsResult cfg p none = NoSerial cfg p
IsResult cfg p (some text) = IsSerial cfg p text

-- Each capability of the list that names a next one names one above itself.
abbrev pub Ascending : (ℕ → Option ℕ) → Type 0
Ascending cfg =
    (p header : ℕ)
    → From cfg 256 p
    → cfg p ≡ some header
    → cap_id header ≢ 3
    → 256 ≤ next_cap header
    → p < next_cap header
