-- ===== src/Ns/Chunks.antt =====
-- How a transfer is split: the loop of _nvme_ns_split_request runs through consecutive pieces that
-- cover the transfer, none larger than the limit and none across a boundary.
use Prim.Native.Nat.{min, bit_and, digits, bit_and-bitwise}
use libnvme.Prelude.{
  ℕ, zero, suc, ◌+◌, ◌-◌, ◌*◌, ◌/◌, ◌%◌, ◌^◌, ◌≤◌, ◌<◌, ◌≡◌, refl, Bool-cases, inl, inr, ==_iff,
  Option, some, List, [], ◌∷◌, ◌==◌, if◌then◌else◌, ◌>>=◌, arith, ap,
}
use libnvme.Types.{Qpair}
use libnvme.Request.{add_child}
use libnvme.Ns.{
  Namespace, Transfer, MakeRequest, buffer_sector, chunk, place_child, split_next, split_loop,
}

digits_le : (n a b : ℕ) → digits (λ _. zero) min n a b ≤ b
digits_le zero a b = omega arith
digits_le (suc n) zero b = omega arith
digits_le (suc n) (suc a) b = omega (arith, digits_le n (suc a / 2) (b / 2))

bit_and_le : (a b : ℕ) → bit_and a b ≤ b
bit_and_le a b = omega (arith, bit_and-bitwise a b, digits_le a a b)

-- The pieces of a transfer, each a first sector and a number of sectors.
unfoldable pub plan : ℕ → ℕ → ℕ → ℕ → ℕ → List (ℕ × ℕ)
plan per_io mask zero lba remaining = []
plan per_io mask (suc n) lba remaining =
    let count = chunk per_io mask lba remaining in
    let rest = plan per_io mask n ((lba + count) % 2 ^ 64) (remaining - count) in
    if remaining == 0 then [] else (lba, count) ∷ rest

-- One child request for each piece, added to the parent with the offsets so far.
pub run_plan :
    Namespace
    → Transfer
    → MakeRequest
    → ℕ
    → List (ℕ × ℕ)
    → Qpair
    → ℕ
    → ℕ
    → Option (Option ℕ × Qpair)
run_plan ns t make p [] q offset md_offset = some (some p, q)
run_plan ns t make p ((lba, count) ∷ rest) q offset md_offset =
    make q lba count
    >>= split_next
        (λ q' c.
          run_plan ns t make p rest (add_child (place_child q' c t.payload.md offset md_offset) p c)
            ((offset + count * buffer_sector ns t.io_flags) % 2 ^ 32)
            ((md_offset + count * ns.md_size) % 2 ^ 32))
        p

-- Consecutive pieces that cover `remaining` sectors from `lba` on; each has at least one sector and
-- ends at most `per_io` sectors after the boundary below its start.
abbrev pub Pieces : ℕ → ℕ → ℕ → ℕ → List (ℕ × ℕ) → Type 0
Pieces per_io mask lba remaining [] = remaining ≡ 0
Pieces per_io mask lba remaining ((start, count) ∷ rest) =
    (start ≡ lba)
    × (0 < count)
    × (count ≤ remaining)
    × (bit_and lba mask + count ≤ per_io)
    × Pieces per_io mask ((lba + count) % 2 ^ 64) (remaining - count) rest

chunk_bounds :
    (per_io mask lba remaining : ℕ)
    → mask < per_io
    → per_io < 2 ^ 32
    → 0 < remaining
    → (0 < chunk per_io mask lba remaining)
      × (chunk per_io mask lba remaining ≤ remaining)
      × (bit_and lba mask + chunk per_io mask lba remaining ≤ per_io)
unfolding chunk
chunk_bounds per_io mask lba remaining m p r =
    let b = bit_and_le lba mask in (omega (arith, b), omega (arith, b), omega (arith, b))

plan-Pieces :
    (per_io mask n lba remaining : ℕ)
    → mask < per_io
    → per_io < 2 ^ 32
    → remaining ≤ n
    → Pieces per_io mask lba remaining (plan per_io mask n lba remaining)
unfolding plan
plan-Pieces per_io mask zero lba remaining m p h = omega arith
plan-Pieces per_io mask (suc n) lba remaining m p h = elim (Bool-cases (remaining == 0)) [
  | inl e ↦ rw e ((==_iff remaining 0).0 e)
  | inr e ↦
      let b = chunk_bounds per_io mask lba remaining m p (ground arith) in
      rw e (
        refl,
        b.0,
        b.1,
        b.2,
        plan-Pieces per_io mask n ((lba + chunk per_io mask lba remaining) % 2 ^ 64)
            (remaining - chunk per_io mask lba remaining) m p (omega (arith, b)),
      )
]

module _ (ns : Namespace) (t : Transfer) (make : MakeRequest) (p per_io mask : ℕ)
    (m : mask < per_io) (small : per_io < 2 ^ 32) where
  split_loop-plan :
      (n lba remaining : ℕ) (q : Qpair) (offset md_offset : ℕ)
      → remaining ≤ n
      → split_loop ns t make p per_io mask n q lba remaining offset md_offset
        ≡ run_plan ns t make p (plan per_io mask n lba remaining) q offset md_offset
  unfolding split_loop plan run_plan
  split_loop-plan zero lba remaining q offset md_offset h =
      let z : remaining ≡ 0 = omega arith in rw z refl
  split_loop-plan (suc n) lba remaining q offset md_offset h = elim (Bool-cases (remaining == 0)) [
    | inl e ↦ rw e refl
    | inr e ↦
        let count = chunk per_io mask lba remaining in
        let b = chunk_bounds per_io mask lba remaining m small (ground arith) in
        rw e (
          ap (λ (go : Qpair → ℕ → Option (Option ℕ × Qpair)). make q lba count >>= split_next go p)
            (λ i q' c.
              split_loop-plan n ((lba + count) % 2 ^ 64) (remaining - count)
                (add_child (place_child q' c t.payload.md offset md_offset) p c)
                ((offset + count * buffer_sector ns t.io_flags) % 2 ^ 32)
                ((md_offset + count * ns.md_size) % 2 ^ 32) (omega (arith, b)) i))
  ]

-- The loop of _nvme_ns_split_request, with a limit that is not 0 and exceeds the mask, ends within
-- `lba_count` passes: it makes one child for each piece of a plan, whose pieces follow each other,
-- cover the transfer, and lie within the limit counted from the boundary below each start.
pub split_loop-Pieces :
    (ns : Namespace) (t : Transfer) (make : MakeRequest) (p per_io mask : ℕ) (q : Qpair)
    (lba lba_count : ℕ)
    → mask < per_io
    → per_io < 2 ^ 32
    → (split_loop ns t make p per_io mask lba_count q lba lba_count 0 0
        ≡ run_plan ns t make p (plan per_io mask lba_count lba lba_count) q 0 0)
      × Pieces per_io mask lba lba_count (plan per_io mask lba_count lba lba_count)
split_loop-Pieces ns t make p per_io mask q lba lba_count m small = (
  split_loop-plan ns t make p per_io mask m small lba_count lba lba_count q 0 0 (omega arith),
  plan-Pieces per_io mask lba_count lba lba_count m small (omega arith),
)
