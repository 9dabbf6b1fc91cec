-- ===== src/Strings/Trim.antt =====
-- What nvme_str_trim takes off a string.
use libnvme.Prelude.{ℕ, ◌≡◌, refl, ap, ◌∙◌, Bool, true, false, List, [], ◌∷◌, ◌++◌, if◌then◌else◌}
use libnvme.Strings.{skip_spaces, keep_before, drop_trailing, str_trim}

module _ (isspace : ℕ → Bool) where
  -- Nothing but spaces.
  unfoldable pub Blank : List ℕ → Type 0
  Blank [] = Unit
  Blank (ch ∷ s) = (isspace ch ≡ true) × Blank s

  -- Not empty with a space in front, and not empty with a space at the end.
  unfoldable pub NoSpaceFirst : List ℕ → Type 0
  NoSpaceFirst [] = Unit
  NoSpaceFirst (ch ∷ s) = isspace ch ≡ false

  unfoldable pub NoSpaceLast : List ℕ → Type 0
  NoSpaceLast [] = Unit
  NoSpaceLast (ch ∷ []) = isspace ch ≡ false
  NoSpaceLast (ch ∷ d ∷ s) = NoSpaceLast (d ∷ s)

  -- `t` is `s` without spaces at its front.
  Skipped : List ℕ → List ℕ → Type 0
  Skipped s t = (front : List ℕ) × Blank front × (s ≡ front ++ t) × NoSpaceFirst t

  skip_spaces-Skipped : (s : List ℕ) → Skipped s (skip_spaces isspace s)
  unfolding skip_spaces Blank NoSpaceFirst Skipped
  skip_spaces-Skipped [] = ([], tt, refl, tt)
  skip_spaces-Skipped (ch ∷ s) = go (isspace ch) refl (skip_spaces-Skipped s)
    where
      go :
          (b : Bool)
          → isspace ch ≡ b
          → Skipped s (skip_spaces isspace s)
          → Skipped (ch ∷ s) (if b then skip_spaces isspace s else ch ∷ s)
      go true p (front, h, e, n) = (ch ∷ front, (p, h), ap (λ l. ch ∷ l) e, n)
      go false p r = ([], tt, refl, p)

  -- `t` is `s` without spaces at its end.
  Dropped : List ℕ → List ℕ → Type 0
  Dropped s t = (end : List ℕ) × Blank end × (s ≡ t ++ end) × NoSpaceLast t

  keep_before-Dropped :
      (ch : ℕ) (s t : List ℕ) → Dropped s t → Dropped (ch ∷ s) (keep_before isspace ch t)
  unfolding keep_before Blank NoSpaceLast Dropped
  keep_before-Dropped ch s [] (end, h, e, n) = go (isspace ch) refl
    where
      go : (b : Bool) → isspace ch ≡ b → Dropped (ch ∷ s) (if b then [] else ch ∷ [])
      go true p = (ch ∷ end, (p, h), ap (λ l. ch ∷ l) e, tt)
      go false p = (end, h, ap (λ l. ch ∷ l) e, p)
  keep_before-Dropped ch s (d ∷ ds) (end, h, e, n) = (end, h, ap (λ l. ch ∷ l) e, n)

  drop_trailing-Dropped : (s : List ℕ) → Dropped s (drop_trailing isspace s)
  unfolding drop_trailing Blank NoSpaceLast Dropped
  drop_trailing-Dropped [] = ([], tt, refl, tt)
  drop_trailing-Dropped (ch ∷ s) =
      keep_before-Dropped ch s (drop_trailing isspace s) (drop_trailing-Dropped s)

  -- Dropping from the end leaves the first character, or nothing.
  drop_trailing-NoSpaceFirst :
      (s : List ℕ) → NoSpaceFirst s → NoSpaceFirst (drop_trailing isspace s)
  unfolding drop_trailing keep_before NoSpaceFirst
  drop_trailing-NoSpaceFirst [] h = tt
  drop_trailing-NoSpaceFirst (ch ∷ s) h = go (drop_trailing isspace s)
    where
      go : (t : List ℕ) → NoSpaceFirst (keep_before isspace ch t)
      go [] = rw h h
      go (d ∷ ds) = h

  -- nvme_str_trim takes spaces off both ends of a string and nothing else: the string is what is left
  -- between two runs of spaces, and what is left neither begins nor ends with one.
  pub str_trim-trims :
      (s : List ℕ)
      → (front : List ℕ) × (end : List ℕ) × Blank front
        × Blank end
        × (s ≡ front ++ (str_trim isspace s ++ end))
        × NoSpaceFirst (str_trim isspace s)
        × NoSpaceLast (str_trim isspace s)
  unfolding str_trim Skipped Dropped
  str_trim-trims s =
      let (front, h, e, n) = skip_spaces-Skipped s in
      let (end, k, f, m) = drop_trailing-Dropped (skip_spaces isspace s) in
      (front, end, h, k, e ∙ ap (λ l. front ++ l) f, drop_trailing-NoSpaceFirst _ n, m)
