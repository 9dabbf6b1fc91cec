-- ===== src/Prp.antt =====
-- lib/nvme/nvme_qpair.c: the data pointers of a command, built from its payload:
-- _nvme_qpair_build_contig_request and _nvme_qpair_build_hw_sgl_request, and in `Scatter`
-- _nvme_qpair_build_prps_sgl_request. PAGE_SIZE is 4096. `vtophys` is the address translation; an
-- SGE list is what the caller's next_sge_fn would return, call by call, after reset_sgl_fn, and
-- fails at its end.
pub mod Cases
pub mod Contig
pub mod Scatter
mod Tests
use Prim.Native.Nat.{bit_and}
use libnvme.Prelude.{
  ℕ, zero, suc, ◌+◌, ◌-◌, ◌*◌, ◌/◌, ◌%◌, ◌^◌, min, Bool, ◌&&◌, ◌||◌, not, Option, none, some, List,
  [], ◌∷◌, ltb, leb, ◌==◌, if◌then◌else◌, ◌>>=◌, update,
}
use mathlib.Core.Option
use libnvme.Types.{Cmd}

-- NVME_VTOPHYS_ERROR
abbrev pub vtophys_error : ℕ
vtophys_error = 2 ^ 64 - 1

-- Segments of a transfer of `size` bytes whose first byte is at offset `unaligned` of its page.
unfoldable pub segments : ℕ → ℕ → ℕ
segments size unaligned =
    let nseg = size / 4096 in
    let modulo = size % 4096 in
    if not (modulo == 0) || not (unaligned == 0)
    then nseg + 1 + (modulo + unaligned - 1) / 4096
    else nseg

-- A command and the PRP entries of its tracker.
abbrev pub Built : Type 0
Built = Cmd × (ℕ → ℕ)

-- `payload + cur_nseg * PAGE_SIZE - unaligned`
abbrev pub seg_addr : ℕ → ℕ → ℕ → ℕ
seg_addr payload unaligned cur = (payload + cur * 4096 + 2 ^ 64 - unaligned) % 2 ^ 64

module _ (vtophys : ℕ → ℕ) where
  -- The loop over the segments from `cur` on, `n` of them; `none` is a failed translation.
  unfoldable pub fill_prps : ℕ → ℕ → ℕ → ℕ → (ℕ → ℕ) → Option (ℕ → ℕ)
  fill_prps payload unaligned zero cur prp = some prp
  fill_prps payload unaligned (suc n) cur prp =
      let phys = vtophys (seg_addr payload unaligned cur) in
      let rest = fill_prps payload unaligned n (cur + 1) (update prp (cur - 1) phys) in
      if phys == vtophys_error then none else rest

  -- The metadata pointer; `none` is a failed translation.
  unfoldable pub build_mptr : Option ℕ → Cmd → Option Cmd
  build_mptr none cmd = some cmd
  build_mptr (some md) cmd =
      if vtophys md == vtophys_error then none else some (record cmd { mptr = vtophys md })

  -- The data pointers: one page, two pages, or a list.
  unfoldable pub build_dptr : ℕ → ℕ → ℕ → ℕ → Cmd → (ℕ → ℕ) → Option Built
  unfolding fill_prps
  build_dptr payload size unaligned bus cmd prp =
      let nseg = segments size unaligned in
      if nseg == 2
      then some (record cmd { prp2 = vtophys (seg_addr payload unaligned 1) }, prp)
      else if ltb 2 nseg
      then Option.map (λ prp'. (record cmd { prp2 = bus }, prp'))
          (fill_prps payload unaligned (nseg - 1) 1 prp)
      else some (cmd, prp)

  -- _nvme_qpair_build_contig_request, with `payload` and `md` at their offsets and `bus` the
  -- tracker's prp_sgl_bus_addr; `none` where the code aborts the request and returns -1.
  unfoldable pub build_contig : ℕ → Option ℕ → ℕ → ℕ → Cmd → (ℕ → ℕ) → Option Built
  unfolding build_mptr build_dptr segments
  build_contig payload md size bus cmd prp =
      let phys = vtophys payload in
      if phys == vtophys_error
      then none
      else build_mptr md cmd >>= λ c.
          build_dptr payload size (phys % 4096) bus (record c { psdt = 0; prp1 = phys }) prp

-- One SGL descriptor: the second qword has the length in its low half, the type in its top 4 bits and
-- the subtype 0 in the 4 below; the 3 reserved bytes between keep what `old` has there.
abbrev pub sgl_qword : ℕ → ℕ → ℕ → ℕ
sgl_qword old type length = type * 2 ^ 60 + old / 2 ^ 32 % 2 ^ 24 * 2 ^ 32 + length

pub data SgeFail : Type 0 where
  bad : SgeFail
  callback : SgeFail

pub data SgeResult {ℓ} (A : Type ℓ) : Type ℓ where
  done : A → SgeResult A
  fail : SgeFail → SgeResult A

-- The loop of _nvme_qpair_build_hw_sgl_request: descriptor `nseg` takes the qwords 2 * nseg and
-- 2 * nseg + 1. It ends with the number of descriptors, of which there may be 253.
unfoldable pub hw_sgl_loop : List (ℕ × ℕ) → ℕ → ℕ → (ℕ → ℕ) → SgeResult (ℕ × (ℕ → ℕ))
hw_sgl_loop [] remaining nseg prp =
    if remaining == 0 then done (nseg, prp) else if leb 253 nseg then fail bad else fail callback
hw_sgl_loop ((phys, len) ∷ sges) remaining nseg prp =
    let length = min remaining len in
    let second = sgl_qword (prp (2 * nseg + 1)) 0 length in
    let prp' = update (update prp (2 * nseg) phys) (2 * nseg + 1) second in
    let rest = hw_sgl_loop sges (remaining - length) (nseg + 1) prp' in
    if remaining == 0 then done (nseg, prp) else if leb 253 nseg then fail bad else rest

-- What follows the loop: a single descriptor goes into the command itself.
unfoldable pub hw_sgl_finish : ℕ → Cmd → ℕ × (ℕ → ℕ) → SgeResult Built
hw_sgl_finish bus cmd (nseg, prp) =
    if nseg == 1
    then done
        (record cmd { psdt = 2; prp1 = prp 0; prp2 = sgl_qword cmd.prp2 0 (prp 1 % 2 ^ 32) }, prp)
    else done
        (record cmd { psdt = 2; prp1 = bus; prp2 = sgl_qword cmd.prp2 3 (nseg * 16 % 2 ^ 32) }, prp)

unfoldable pub build_hw_sgl : List (ℕ × ℕ) → ℕ → ℕ → Cmd → (ℕ → ℕ) → SgeResult Built
unfolding hw_sgl_loop hw_sgl_finish
build_hw_sgl sges size bus cmd prp = elim (hw_sgl_loop sges size 0 prp) [
  | done r ↦ hw_sgl_finish bus cmd r
  | fail e ↦ fail e
]
