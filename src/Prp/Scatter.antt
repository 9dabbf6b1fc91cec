-- ===== src/Prp/Scatter.antt =====
-- lib/nvme/nvme_qpair.c: _nvme_qpair_build_prps_sgl_request, a PRP list for a scattered payload.
use libnvme.Prelude.{
  ℕ, zero, suc, ◌+◌, ◌-◌, ◌*◌, ◌%◌, ◌^◌, min, Bool, ◌&&◌, ◌||◌, Option, none, some, List, [], ◌∷◌,
  ltb, ◌==◌, if◌then◌else◌, update,
}
use libnvme.Types.{Cmd}
use libnvme.Prp.{segments, Built}

-- The locals of the function, with the command and the tracker's entries; `saved` is `prp2`.
pub record Scatter : Type 0 where
  pub cmd : Cmd
  pub prp : ℕ → ℕ
  pub saved : ℕ
  pub total_nseg : ℕ
  pub last_nseg : ℕ
  pub sge_count : ℕ

-- The inner loop: `n` entries from segment `cur` of the SGE at `phys`.
unfoldable pub scatter_fill : ℕ → ℕ → ℕ → ℕ → Scatter → Scatter
scatter_fill phys unaligned zero cur s = s
scatter_fill phys unaligned (suc n) cur s =
    let addr = (phys + cur * 4096 - unaligned) % 2 ^ 64 in
    scatter_fill phys unaligned n (cur + 1) (
      if s.saved == 0
      then record s { prp = update s.prp s.last_nseg addr; last_nseg = s.last_nseg + 1 }
      else record s {
        prp = update (update s.prp 0 s.saved) (s.last_nseg + 1) addr;
        last_nseg = s.last_nseg + 1;
      })

-- `total_nseg == 2`: the second page goes into the command and is kept in `prp2`.
unfoldable pub scatter_two : ℕ → ℕ → Scatter → Scatter
scatter_two phys unaligned s =
    let second =
      if s.sge_count == 1
      then (phys + 4096 - unaligned) % 2 ^ 64
      else if s.sge_count == 2
      then phys
      else s.cmd.prp2 in
    record s { cmd = record s.cmd { prp2 = second }; saved = second }

-- What one accepted SGE of `size` bytes at `phys` does.
unfoldable pub scatter_sge : ℕ → ℕ → ℕ → Scatter → Scatter
unfolding scatter_fill scatter_two segments
scatter_sge bus phys size s =
    let unaligned = phys % 4096 in
    let nseg = segments size unaligned in
    let first = s.total_nseg == 0 in
    let s' = record s {
      cmd = if first then record s.cmd { psdt = 0; prp1 = phys } else s.cmd;
      total_nseg = s.total_nseg + nseg;
      sge_count = s.sge_count + 1;
    } in
    if s'.total_nseg == 2
    then scatter_two phys unaligned s'
    else if ltb 2 s'.total_nseg
    then (let cur = if s'.sge_count == 1 then 1 else 0 in
        scatter_fill phys unaligned (nseg - cur) cur
          (record s' { cmd = record s'.cmd { prp2 = bus } }))
    else s'

-- The alignment rules: dword aligned; an SGE that is not the last ends on a page boundary; one that
-- is not the first starts on one.
unfoldable pub sge_ok : ℕ → ℕ → ℕ → ℕ → Bool
sge_ok phys length remaining sge_count =
    (phys % 4 == 0)
    && (length == remaining || (phys + length) % 2 ^ 64 % 4096 == 0)
    && (sge_count == 0 || phys % 4096 == 0)

-- The outer loop; `none` where the request is aborted and -1 returned.
unfoldable pub scatter_loop : ℕ → List (ℕ × ℕ) → ℕ → Scatter → Option Scatter
unfolding scatter_sge sge_ok
scatter_loop bus [] remaining s = if remaining == 0 then some s else none
scatter_loop bus ((phys, len) ∷ sges) remaining s =
    let size = min remaining len in
    let rest = scatter_loop bus sges (remaining - size) (scatter_sge bus phys size s) in
    if remaining == 0 then some s else if sge_ok phys len remaining s.sge_count then rest else none

unfoldable pub build_prps_sgl : List (ℕ × ℕ) → ℕ → ℕ → Cmd → (ℕ → ℕ) → Option Built
unfolding scatter_loop
build_prps_sgl sges size bus cmd prp =
    elim (scatter_loop bus sges size
      (record { cmd = cmd; prp = prp; saved = 0; total_nseg = 0; last_nseg = 0; sge_count = 0 })) [
        | none ↦ none
        | some s ↦ some (s.cmd, s.prp)
      ]
