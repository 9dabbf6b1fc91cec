-- ===== src/Common.antt =====
-- lib/common/nvme_common.h: powers of two, alignment and the allocation bitmaps.
-- A `__u64` or a `size_t` is a number, with its wrap-around written out; a bitmap is the list of its
-- bytes, lowest first, and a byte read past the end is 0.
pub mod Bits
pub mod Bitmap
pub mod Find
pub mod Fields
pub mod Results
pub mod Pow2
mod Tests
use Prim.Native.Nat.{bit_and, bit_or}
use libnvme.Prelude.{
  ℕ, zero, suc, ◌+◌, ◌-◌, ◌*◌, ◌/◌, ◌%◌, ◌^◌, Bool, true, false, ◌&&◌, not, Option, none, some,
  List, ltb, ◌==◌, if◌then◌else◌, get_or, set,
}

-- `v && !(v & (v - 1))`
unfoldable pub is_pow2 : ℕ → Bool
is_pow2 v = not (v == 0) && bit_and v (v - 1) == 0

-- `v |= v >> k`
abbrev pub smear : ℕ → ℕ → ℕ
smear k v = bit_or v (v / 2 ^ k)

-- nvme_align_pow2; 0 becomes all ones, and wraps to 0.
unfoldable pub align_pow2 : ℕ → ℕ
align_pow2 v =
    let w = if v == 0 then 2 ^ 64 - 1 else v - 1 in
    (smear 32 (smear 16 (smear 8 (smear 4 (smear 2 (smear 1 w))))) + 1) % 2 ^ 64

-- `while (size >>= 1) bits++`. A `size_t` has 64 bits, so 64 rounds always suffice.
unfoldable pub log2_loop : ℕ → ℕ → ℕ → ℕ
log2_loop zero size bits = bits
log2_loop (suc f) size bits =
    let rest = log2_loop f (size / 2) (bits + 1) in if size / 2 == 0 then bits else rest

unfoldable pub log2 : ℕ → ℕ
unfolding is_pow2 log2_loop
log2 size = if is_pow2 size then log2_loop 64 size 0 else 0

-- `bitmap[bit >> 3] & (1U << (bit & 0x7))`, as a truth value
unfoldable pub test_bit : List ℕ → ℕ → Bool
test_bit b bit = not (bit_and (get_or b (bit / 8) 0) (2 ^ (bit % 8)) == 0)

-- `bitmap[bit >> 3] |= 1U << (bit & 0x7)`
unfoldable pub set_bit : List ℕ → ℕ → List ℕ
set_bit b bit = set b (bit / 8) (bit_or (get_or b (bit / 8) 0) (2 ^ (bit % 8)))

-- `bitmap[bit >> 3] &= ~(1U << (bit & 0x7))`: the complement has 32 bits, the store keeps 8.
unfoldable pub clear_bit : List ℕ → ℕ → List ℕ
clear_bit b bit =
    set b (bit / 8) (bit_and (get_or b (bit / 8) 0) (2 ^ 32 - 1 - 2 ^ (bit % 8)) % 256)

-- `((__u64 *)bitmap)[i]` on a little-endian machine
pub word : List ℕ → ℕ → ℕ
word b i =
    byte 0
    + 2 ^ 8 * byte 1
    + 2 ^ 16 * byte 2
    + 2 ^ 24 * byte 3
    + 2 ^ 32 * byte 4
    + 2 ^ 40 * byte 5
    + 2 ^ 48 * byte 6
    + 2 ^ 56 * byte 7
  where
    byte : ℕ → ℕ
    byte k = get_or b (8 * i + k) 0

-- The first loop of `find_first_zero_bit`, over the `n` words from word `i` on: it stops at the
-- first word that is not all ones.
pub skip_full_words : List ℕ → ℕ → ℕ → ℕ
unfolding word
skip_full_words b zero i = i
skip_full_words b (suc n) i = if word b i == 2 ^ 64 - 1 then skip_full_words b n (i + 1) else i

-- The second loop, over the `n` bits from bit `j` on; `none` is -1.
pub find_zero_from : List ℕ → ℕ → ℕ → Option ℕ
find_zero_from b zero j = none
find_zero_from b (suc n) j = if test_bit b j then find_zero_from b n (j + 1) else some j

unfoldable pub find_first_zero_bit : List ℕ → ℕ → Option ℕ
unfolding skip_full_words find_zero_from
find_first_zero_bit b nr_bits =
    let bit = 64 * skip_full_words b ((nr_bits + 63) / 64) 0 in find_zero_from b (nr_bits - bit) bit
