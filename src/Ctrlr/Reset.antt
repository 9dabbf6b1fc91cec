-- ===== src/Ctrlr/Reset.antt =====
-- Taking a controller down and up again: nvme_ctrlr_reset, nvme_ctrlr_attach, nvme_ctrlr_shutdown
-- and nvme_ctrlr_detach of lib/nvme/nvme_ctrlr.c, with the disabling of queue pairs and the abort of
-- the asynchronous event requests of lib/nvme/nvme_qpair.c.
pub mod Outcome
mod Tests
use libnvme.Prelude.{
  ℕ, zero, suc, ◌+◌, ◌*◌, ◌^◌, Bool, true, false, ◌||◌, Option, none, some, List, [], ◌∷◌, ◌==◌,
  if◌then◌else◌, ◌>>=◌,
}
use libnvme.Types.{Qpair, Ret, success, failure}
use libnvme.Qpair.{Submit, manual_complete_tracker}
use libnvme.Qpair.Submit.{io_disable}
use libnvme.Admin.{is_success}
use libnvme.Ctrlr.{load, store, set_state, set_opts}
use libnvme.Ctrlr.Cmb.{map_cmb}
use libnvme.Ctrlr.Init.{Look, fail_ctrlr, init_loop}
use libnvme.Ctrlr.Namespaces.{submit_of, destruct_namespaces}
use libnvme.Ctrlr.Qpairs.{construct_qpair, create_qpair, ioqp_release}
use libnvme.Ctrlr.Start.{ids_from}
use libnvme.Ctrlr.State.{Ctrlr, init, Opts, Env}

-- The first outstanding tracker whose request is NVME_OPC_ASYNC_EVENT_REQUEST; `none` is the failed
-- assertion on a tracker without a request.
unfoldable pub find_aer : Qpair → List ℕ → Option (Option ℕ)
find_aer q [] = some none
find_aer q (t ∷ ts) = do
  r ← (q.tr t).req
  let rest = find_aer q ts
  if (q.reqs r).cmd.opc == 0x0c then some (some t) else rest

-- nvme_qpair_abort_aers, which starts again at the head of the list after each abort, with
-- NVME_SC_ABORTED_SQ_DELETION. `fuel` bounds the aborts.
unfoldable pub abort_found : Submit → (Qpair → Option Qpair) → Qpair → Option ℕ → Option Qpair
abort_found submit again q none = some q
abort_found submit again q (some t) = manual_complete_tracker submit q t 0 0x08 0 >>= again

unfoldable pub abort_aers : Submit → ℕ → Qpair → Option Qpair
unfolding find_aer abort_found
abort_aers submit zero q = none
abort_aers submit (suc fuel) q =
    find_aer q q.outstanding_tr >>= abort_found submit (abort_aers submit fuel) q

-- nvme_qpair_disable; an I/O queue pair that was never constructed has no controller to count it.
unfoldable pub disable_admin : Env → ℕ → Ctrlr → Option Ctrlr
unfolding abort_aers
disable_admin e fuel c =
    abort_aers (submit_of e) fuel (record (load c 0) { enabled = false }) >>= λ q.
    some (store c 0 q)

unfoldable pub disable_io : ℕ → Ctrlr → Option Ctrlr
disable_io id c = if c.constructed id then some (store c id (io_disable (load c id))) else none

unfoldable pub disable_each : List ℕ → Ctrlr → Option Ctrlr
unfolding disable_io
disable_each [] c = some c
disable_each (id ∷ ids) c = disable_io id c >>= disable_each ids

-- The active queue pairs are created on the controller again: what fails to be fails the controller,
-- and the loop goes on.
unfoldable pub recreate_each : Env → List ℕ → Ctrlr → Option Ctrlr
unfolding fail_ctrlr
recreate_each e [] c = some c
recreate_each e (id ∷ ids) c = do
  (ret, c1) ← create_qpair e id c
  let failed = fail_ctrlr e c1 >>= recreate_each e ids
  let rest = recreate_each e ids c1
  if is_success ret then rest else failed

-- The end of nvme_ctrlr_reset.
abbrev pub end_reset : Ctrlr → Ret × Ctrlr
end_reset c = (
  if c.flags.failed then failure else success,
  record c { flags = record c.flags { resetting = false } },
)

-- After the loop around nvme_ctrlr_init.
unfoldable pub after_init : Env → Ret × Ctrlr → Option (Ret × Ctrlr)
unfolding recreate_each fail_ctrlr
after_init e (ret, c) =
    let up = recreate_each e c.active_io_qpairs c >>= λ c1. some (end_reset c1) in
    let down = fail_ctrlr e c >>= λ c1. some (end_reset c1) in if is_success ret then up else down

-- nvme_ctrlr_reset; `fuel` bounds the aborts, and `looks` is what the calls of nvme_ctrlr_init see.
abbrev pub begin_reset : Ctrlr → Ctrlr
begin_reset c = record c { flags = record c.flags { resetting = true } }

unfoldable pub run_reset : Env → ℕ → List Look → Ctrlr → Option (Ret × Ctrlr)
unfolding disable_admin disable_each after_init set_state ids_from
run_reset e fuel looks c = do
  c1 ← disable_admin e fuel (begin_reset c)
  c2 ← disable_each (ids_from 1 c1.io_queues) c1
  initialised ← init_loop e looks (set_state 0 init none c2)
  after_init e initialised

unfoldable pub reset_ctrlr : Env → ℕ → List Look → Ctrlr → Option (Ret × Ctrlr)
unfolding run_reset
reset_ctrlr e fuel looks c =
    if c.flags.resetting || c.flags.failed then some (success, c) else run_reset e fuel looks c

-- nvme_ctrlr_shutdown: NVME_SHN_NORMAL is requested, then CSTS.SHST is polled once a millisecond for
-- NVME_SHST_COMPLETE. `complete n` is what the poll number `n` sees; the result is whether the
-- shutdown completed.
unfoldable pub await_shutdown_complete : (ℕ → Bool) → ℕ → ℕ → Bool
await_shutdown_complete complete zero n = complete n
await_shutdown_complete complete (suc left) n =
    let rest = await_shutdown_complete complete left (n + 1) in if complete n then true else rest

unfoldable pub shutdown : (ℕ → Bool) → Ctrlr → Bool × Ctrlr
unfolding await_shutdown_complete
shutdown complete c =
    (await_shutdown_complete complete 5001 0, record c { cc = record c.cc { shn = 1 } })

-- nvme_ctrlr_detach: the first active queue pair is released until there is none. `releases` bounds
-- the releases: the loop of the code has no end where one fails. What is freed is left out.
unfoldable pub release_next : Env → (Ctrlr → Option Ctrlr) → List ℕ → Ctrlr → Option Ctrlr
release_next e again [] c = some c
release_next e again (id ∷ _) c = ioqp_release e (some id) c >>= λ r. again (r.1)

unfoldable pub release_all : Env → ℕ → Ctrlr → Option Ctrlr
unfolding release_next
release_all e zero c = none
release_all e (suc releases) c = release_next e (release_all e releases) c.active_io_qpairs c

unfoldable pub detach : Env → ℕ → ℕ → (ℕ → Bool) → Ctrlr → Option Ctrlr
unfolding release_all shutdown destruct_namespaces abort_aers
detach e releases fuel complete c = do
  c1 ← release_all e releases c
  let c2 = destruct_namespaces (shutdown complete c1).1
  q ← abort_aers (submit_of e) fuel (load c2 0)
  some (store c2 0 q)

-- nvme_ctrlr_attach from the mapping of the BARs on. `new` is the handle after memset, with the quirks
-- of the device and the state INIT; NVME_MAX_XFER_SIZE, NVME_ADMIN_ENTRIES and NVME_ADMIN_TRACKERS.
-- A controller that does not come up is detached again; it has no active queue pair to release.
unfoldable pub sized : Env → Ctrlr → Ctrlr
sized e c = record c { min_page_size = 2 ^ (12 + e.cap.mpsmin); max_xfer_size = 506 * 4096 }

unfoldable pub bring_up : Env → List Look → Option Opts → Ctrlr → Option (Ret × Ctrlr)
unfolding map_cmb sized set_opts
bring_up e looks opts new = do
  (ret, c) ← construct_qpair e 0 0 128 16 (sized e (map_cmb e new))
  let up = init_loop e looks (set_opts opts c)
  if is_success ret then up else some (ret, c)

unfoldable pub attach :
    Env → ℕ → (ℕ → Bool) → List Look → Option Opts → Ctrlr → Option (Option Ctrlr)
unfolding bring_up detach
attach e fuel complete looks opts new = do
  (ret, c) ← bring_up e looks opts new
  let detached = detach e 1 fuel complete c >>= λ _. some none
  if is_success ret then some (some c) else detached
