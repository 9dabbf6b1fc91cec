-- ===== src/Strings/Split.antt =====
-- The tokens that nvme_str_split finds.
use libnvme.Prelude.{
  ℕ, suc, ◌+◌, ◌≤◌, ◌<◌, ◌≡◌, refl, ap, subst, Bool, true, false, ◌||◌, not, List, [], ◌∷◌, ltb,
  ◌==◌, if◌then◌else◌, length, arith,
}
use libnvme.Strings.{Tokens, cut, split_loop, str_split}

-- Starts that increase from `i` on and stay below `end`.
unfoldable pub Ascending : ℕ → ℕ → List ℕ → Type 0
Ascending i end [] = Unit
Ascending i end (s ∷ ss) = (i ≤ s) × (s < end) × Ascending (s + 1) end ss

Ascending-from : (i j end : ℕ) (l : List ℕ) → i ≤ j → Ascending j end l → Ascending i end l
unfolding Ascending
Ascending-from i j end [] h a = tt
Ascending-from i j end (s ∷ ss) h (p, q, r) = (omega (arith, h, p), q, r)

-- What the loop promises from index `i` on, with `tok` tokens found.
record InBounds (maxtokens i tok : ℕ) (s : List ℕ) (t : Tokens) : Type 0 where
  few : tok ≤ maxtokens → tok + length t.starts ≤ maxtokens
  inside : Ascending i (i + length s) t.starts
  same : length t.string ≡ length s

split_loop-InBounds :
    (delim maxtokens i tok : ℕ) (tokstart : Bool) (s : List ℕ)
    → InBounds maxtokens i tok s (split_loop delim maxtokens i tok tokstart s)
unfolding split_loop Ascending
split_loop-InBounds delim maxtokens i tok tokstart [] = record {
  few = λ h. ground (arith, h);
  inside = tt;
  same = refl;
}
split_loop-InBounds delim maxtokens i tok tokstart (ch ∷ rest) =
    go (ch == 0 || not (ltb tok maxtokens)) refl tokstart (
      split_loop-InBounds delim maxtokens (i + 1) (if tokstart then tok + 1 else tok) (ch == delim)
        rest)
  where
    later : Bool → Tokens
    later start =
        split_loop delim maxtokens (i + 1) (if start then tok + 1 else tok) (ch == delim) rest

    go :
        (stop : Bool)
        → (ch == 0 || not (ltb tok maxtokens)) ≡ stop
        → (start : Bool)
        → InBounds maxtokens (i + 1) (if start then tok + 1 else tok) rest (later start)
        → InBounds maxtokens i tok (ch ∷ rest) (
            if stop then record { starts = []; string = ch ∷ rest } else record {
              starts = if start then i ∷ (later start).starts else (later start).starts;
              string = cut delim ch ∷ (later start).string;
            })
    go true p start b = record { few = λ h. ground (arith, h); inside = tt; same = refl }
    go false p true b =
        let room : tok + 1 ≤ maxtokens = ground (arith, p) in
        record {
          few = λ h. omega (arith, b.few room);
          inside = (
            omega arith,
            omega arith,
            subst (λ e. Ascending (i + 1) e (later true).starts) {x = i + 1 + length rest}
                (omega arith) b.inside,
          );
          same = ap suc b.same;
        }
    go false p false b = record {
      few = b.few;
      inside = Ascending-from i (i + 1) _ (later false).starts (omega arith) (
          subst (λ e. Ascending (i + 1) e (later false).starts) {x = i + 1 + length rest}
            (omega arith) b.inside);
      same = ap suc b.same;
    }

-- nvme_str_split finds at most `maxtokens` tokens, whose starts increase and are indices of the
-- string, and the string keeps its length.
pub str_split-Ascending :
    (string : List ℕ) (maxtokens delim : ℕ)
    → let t = str_split string maxtokens delim in
      (length t.starts ≤ maxtokens)
      × Ascending 0 (length string) t.starts
      × (length t.string ≡ length string)
unfolding str_split
str_split-Ascending string maxtokens delim =
    let b = split_loop-InBounds delim maxtokens 0 0 true string in
    (
      omega (arith, b.few (omega arith)),
      subst (λ e. Ascending 0 e (str_split string maxtokens delim).starts) {x = 0 + length string}
          (omega arith) b.inside,
      b.same,
    )
