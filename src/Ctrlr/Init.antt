-- ===== src/Ctrlr/Init.antt =====
-- lib/nvme/nvme_ctrlr.c: failing a controller, one call of nvme_ctrlr_init, and the loop that
-- repeats it until the controller is ready. `Look` is what a call sees: CSTS.RDY and the time in
-- milliseconds, each read once. The loop's list of looks is as long as its number of calls; `none` is
-- a list that ended too early, or the panic on a call in the last state. The delays of the quirks
-- only take time.
pub mod Control
pub mod Frame
pub mod Steps
pub mod Runs
pub mod Waiting
pub mod Failing
pub mod Expiry
use libnvme.Prelude.{
  ℕ, zero, suc, ◌+◌, Bool, true, false, not, Option, none, some, List, [], ◌∷◌, ltb, ◌==◌,
  if◌then◌else◌, ◌>>=◌,
}
use libnvme.Types.{Ret, success, failure}
use libnvme.Qpair.{fail_qpair}
use libnvme.Admin.{is_success}
use libnvme.Ctrlr.{load, store, ready_to_in_ms, set_state, enable_ctrlr, disable_ctrlr}
use libnvme.Ctrlr.Namespaces.{submit_of}
use libnvme.Ctrlr.Start.{ids_from, start}
use libnvme.Ctrlr.State.{
  Ctrlr, CtrlrState, init, disable_wait_for_ready_1, disable_wait_for_ready_0,
  enable_wait_for_ready_1, ready, Env,
}

pub record Look : Type 0 where
  pub rdy : Bool
  pub now : ℕ

-- The loop of nvme_ctrlr_fail, and nvme_ctrlr_fail
unfoldable pub fail_each : Env → List ℕ → Ctrlr → Option Ctrlr
fail_each e [] c = some c
fail_each e (id ∷ ids) c =
    fail_qpair (submit_of e) (load c id) >>= λ q. fail_each e ids (store c id q)

abbrev pub all_qpairs : Ctrlr → List ℕ
all_qpairs c = 0 ∷ (if c.ioq_allocated then ids_from 1 c.io_queues else [])

abbrev pub mark_failed : Ctrlr → Ctrlr
mark_failed c = record c { flags = record c.flags { failed = true } }

unfoldable pub fail_ctrlr : Env → Ctrlr → Option Ctrlr
unfolding fail_each
fail_ctrlr e c = fail_each e (all_qpairs c) (mark_failed c)

-- Entering a state in which the controller has the time of CAP.TO.
abbrev pub enter : Env → Look → CtrlrState → Ctrlr → Ctrlr
enter e l state c = set_state l.now state (some (ready_to_in_ms e.cap)) c

-- The controller is enabled, and the state follows unless that failed.
unfoldable pub try_enable : Env → Look → Ctrlr → Ret × Ctrlr
unfolding enable_ctrlr set_state ready_to_in_ms
try_enable e l c =
    let (ret, c1) = enable_ctrlr e.cap c in
    (ret, if is_success ret then enter e l enable_wait_for_ready_1 c1 else c1)

-- The controller is started, and the state follows unless that failed.
unfoldable pub try_start : Env → Look → Ctrlr → Option (Ret × Ctrlr)
unfolding set_state
try_start e l c = do
  (ret, c1) ← start e c
  some (ret, if is_success ret then set_state l.now ready none c1 else c1)

-- NVME_CTRLR_STATE_INIT
unfoldable pub leave_init : Env → Look → Ctrlr → Ret × Ctrlr
unfolding try_enable set_state ready_to_in_ms disable_ctrlr
leave_init e l c =
    if c.cc.en
    then (
      success,
      if l.rdy
          then enter e l disable_wait_for_ready_0 (disable_ctrlr c)
          else enter e l disable_wait_for_ready_1 c,
    )
    else if l.rdy
    then (success, enter e l disable_wait_for_ready_0 c)
    else try_enable e l c

-- Whether the time of the state has passed.
unfoldable pub expired : Look → Option ℕ → Bool
expired l none = false
expired l (some t) = ltb t l.now

-- The end of nvme_ctrlr_init: waiting on, or giving up.
unfoldable pub keep_waiting : Env → Look → Ctrlr → Option (Ret × Ctrlr)
unfolding expired
keep_waiting e l c =
    if expired l c.state_timeout_ms
    then (fail_ctrlr e c >>= λ c1. some (failure, c1))
    else some (success, c)

-- nvme_ctrlr_init
unfoldable pub step_in : Env → Look → CtrlrState → Ctrlr → Option (Ret × Ctrlr)
unfolding leave_init keep_waiting disable_ctrlr try_enable try_start set_state ready_to_in_ms
step_in e l init c = some (leave_init e l c)
step_in e l disable_wait_for_ready_1 c =
    if l.rdy
    then some (success, enter e l disable_wait_for_ready_0 (disable_ctrlr c))
    else keep_waiting e l c
step_in e l disable_wait_for_ready_0 c =
    if l.rdy then keep_waiting e l c else some (try_enable e l c)
step_in e l enable_wait_for_ready_1 c = if l.rdy then try_start e l c else keep_waiting e l c
step_in e l ready c = none

unfoldable pub init_step : Env → Look → Ctrlr → Option (Ret × Ctrlr)
unfolding step_in
init_step e l c = step_in e l c.state c

-- `ctrlr->state == NVME_CTRLR_STATE_READY`
unfoldable pub is_ready : CtrlrState → Bool
is_ready ready = true
is_ready _ = false

-- The loops of nvme_ctrlr_attach and nvme_ctrlr_reset, which call nvme_ctrlr_init until the
-- controller is ready or a call fails.
unfoldable pub init_loop : Env → List Look → Ctrlr → Option (Ret × Ctrlr)
unfolding init_step is_ready
init_loop e [] c = if is_ready c.state then some (success, c) else none
init_loop e (l ∷ looks) c =
    let step = init_step e l c >>= λ (r : Ret × Ctrlr).
    let rest = init_loop e looks (r.1) in if is_success (r.0) then rest else some r in
    if is_ready c.state then some (success, c) else step
