-- ===== src/Strings.antt =====
-- lib/common/nvme_common.c: nvme_str_trim and nvme_str_split. A string is the list of its characters
-- without the final 0; `isspace` is the C library's test.
pub mod Split
pub mod Trim
mod Tests
use libnvme.Prelude.{
  ℕ, zero, suc, ◌+◌, ◌<◌, ◌≡◌, refl, sym, ap, ◌∙◌, Bool, true, false, ◌||◌, not, Bool-cases, inl,
  inr, List, [], ◌∷◌, ◌++◌, ltb, ◌==◌, if◌then◌else◌, arith,
}

-- What nvme_str_split leaves: the indices at which tokens start, and the string with a 0 in place of
-- each delimiter that was passed.
pub record Tokens : Type 0 where
  pub starts : List ℕ
  pub string : List ℕ

abbrev pub cut : ℕ → ℕ → ℕ
cut delim ch = if ch == delim then 0 else ch

-- The loop of nvme_str_split, from index `i` on, with `tok` tokens found; `tokstart` is whether the
-- next character starts a token.
unfoldable pub split_loop : ℕ → ℕ → ℕ → ℕ → Bool → List ℕ → Tokens
split_loop delim maxtokens i tok tokstart [] = record { starts = []; string = [] }
split_loop delim maxtokens i tok tokstart (ch ∷ rest) =
    let later =
      split_loop delim maxtokens (i + 1) (if tokstart then tok + 1 else tok) (ch == delim) rest in
    if ch == 0 || not (ltb tok maxtokens)
    then record { starts = []; string = ch ∷ rest }
    else record {
      starts = if tokstart then i ∷ later.starts else later.starts;
      string = cut delim ch ∷ later.string;
    }

-- nvme_str_split, for a string and a token array that are not NULL
unfoldable pub str_split : List ℕ → ℕ → ℕ → Tokens
unfolding split_loop
str_split string maxtokens delim = split_loop delim maxtokens 0 0 true string

module _ (isspace : ℕ → Bool) where
  -- `while (*p != '\0' && isspace(*p)) p++`
  unfoldable pub skip_spaces : List ℕ → List ℕ
  skip_spaces [] = []
  skip_spaces (ch ∷ s) = let rest = skip_spaces s in if isspace ch then rest else ch ∷ s

  -- The loop from the end of the string: a character goes where only spaces follow it.
  unfoldable pub keep_before : ℕ → List ℕ → List ℕ
  keep_before ch [] = if isspace ch then [] else ch ∷ []
  keep_before ch (d ∷ ds) = ch ∷ d ∷ ds

  unfoldable pub drop_trailing : List ℕ → List ℕ
  unfolding keep_before
  drop_trailing [] = []
  drop_trailing (ch ∷ s) = keep_before ch (drop_trailing s)

  -- nvme_str_trim
  unfoldable pub str_trim : List ℕ → List ℕ
  unfolding skip_spaces drop_trailing
  str_trim s = drop_trailing (skip_spaces s)
