-- ===== src/Ctrlr.antt =====
-- lib/nvme/nvme_ctrlr.c: struct nvme_ctrlr of lib/nvme/nvme_internal.h, and what only touches the
-- registers and the fields. The queue pairs are indexed by their identifier: 0 is `adminq`, i + 1 is
-- `ioq[i]`. `flags` are the fields of the controller that a queue pair works on: they are lent to a
-- queue pair for an operation and taken back after it.
pub mod State
pub mod Namespaces
pub mod Start
pub mod Init
pub mod Cmb
pub mod Qpairs
pub mod Reset
pub mod Firmware
pub mod Api
pub mod Sample
mod Tests
use libnvme.Prelude.{
  ℕ, zero, suc, ◌+◌, ◌-◌, ◌*◌, ◌/◌, ◌%◌, ◌^◌, min, Bool, true, false, not, Option, none, some, List,
  ltb, ◌==◌, if◌then◌else◌, ◌>>=◌, update,
}
use libnvme.Types.{Qpair, Ret, success, einval}
use libnvme.Ctrlr.State.{Ctrlr, CtrlrState, Cc, Cap, Opts, default_opts}

abbrev pub load : Ctrlr → ℕ → Qpair
load c id = record (c.qpairs id) { ctrlr = c.flags }

abbrev pub store : Ctrlr → ℕ → Qpair → Ctrlr
store c id q = record c { qpairs = update c.qpairs id q; flags = q.ctrlr }

-- An operation on one queue pair of the controller.
unfoldable pub on_qpair {ℓ} :
    {A : Type ℓ} → Ctrlr → ℕ → (Qpair → Option (A × Qpair)) → Option (A × Ctrlr)
on_qpair c id f = f (load c id) >>= λ r. some (r.0, store c id (r.1))

-- nvme_ctrlr_get_ready_to_in_ms, with NVME_READY_TIMEOUT_UNIT
unfoldable pub ready_to_in_ms : Cap → ℕ
ready_to_in_ms cap = 500 * cap.to

-- nvme_ctrlr_set_state at the time `now`; no time-out stands for NVME_TIMEOUT_INFINITE.
unfoldable pub set_state : ℕ → CtrlrState → Option ℕ → Ctrlr → Ctrlr
set_state now state none c = record c { state = state; state_timeout_ms = none }
set_state now state (some t) c = record c { state = state; state_timeout_ms = some (now + t) }

-- Whether the arbitration mechanism is one that nvme_ctrlr_enable accepts: NVME_CC_AMS_RR,
-- NVME_CC_AMS_WRR with NVME_CAP_AMS_WRR, NVME_CC_AMS_VS with NVME_CAP_AMS_VS.
unfoldable pub arb_supported : ℕ → Cap → Bool
arb_supported mechanism cap =
    if mechanism == 0
    then true
    else if mechanism == 1
    then not (cap.ams % 2 == 0)
    else if mechanism == 7
    then not (cap.ams / 2 % 2 == 0)
    else false

-- The configuration that nvme_ctrlr_enable writes; a page has 4096 bytes.
abbrev pub enabled_cc : ℕ → Cc
enabled_cc mechanism = record {
  en = true;
  css = 0;
  mps = 0;
  ams = mechanism;
  shn = 0;
  iosqes = 6;
  iocqes = 4;
}

-- The admin queue attributes: the two sizes less one.
abbrev pub aqa_of : ℕ → ℕ
aqa_of entries = let size = (entries + 2 ^ 32 - 1) % 2 ^ 12 in size * 2 ^ 16 + size

abbrev pub set_admin_registers : Ctrlr → Ctrlr
set_admin_registers c = record c {
  asq = (c.queues 0).cmd_bus_addr;
  acq = (c.queues 0).cpl_bus_addr;
  aqa = aqa_of (c.qpairs 0).entries;
}

-- nvme_ctrlr_enable
unfoldable pub enable_ctrlr : Cap → Ctrlr → Ret × Ctrlr
unfolding arb_supported
enable_ctrlr cap c =
    if c.cc.en
    then (einval, c)
    else if arb_supported c.opts.arb_mechanism cap
    then (success, record (set_admin_registers c) { cc = enabled_cc c.opts.arb_mechanism })
    else (einval, set_admin_registers c)

-- nvme_ctrlr_disable
unfoldable pub disable_ctrlr : Ctrlr → Ctrlr
disable_ctrlr c = record c { cc = record c.cc { en = false } }

-- nvme_ctrlr_set_opts, with DEFAULT_MAX_IO_QUEUES and NVME_MAX_IO_QUEUES
unfoldable pub limit_io_queues : ℕ → ℕ
limit_io_queues n =
    let asked = if n == 0 then 1024 else n in if ltb 65535 asked then 65535 else asked

unfoldable pub set_opts : Option Opts → Ctrlr → Ctrlr
unfolding limit_io_queues
set_opts none c = record c {
  opts = record default_opts { io_queues = limit_io_queues default_opts.io_queues };
}
set_opts (some opts) c = record c {
  opts = record opts { io_queues = limit_io_queues opts.io_queues };
}
