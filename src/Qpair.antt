-- ===== src/Qpair.antt =====
-- lib/nvme/nvme_qpair.c: submission, completion, abort, polling and reset of a queue pair.
-- `none` is an abort of the process (nvme_assert, nvme_panic), or fuel that ran out: submitting may
-- complete a request at once, which submits the next queued one, so the calls nest at most as deep
-- as the queue is long. `vtophys` translates addresses; `sges arg offset` is what the caller's SGE
-- callbacks return for a payload.
pub mod Submit
pub mod Ring
pub mod Steady
use libnvme.Prelude.{
  ℕ, zero, suc, ◌+◌, ◌-◌, ◌*◌, ◌%◌, ◌^◌, Bool, true, false, ◌&&◌, ◌||◌, not, Option, none, some,
  List, [], ◌∷◌, ◌++◌, ltb, ◌==◌, if◌then◌else◌, ◌>>=◌, remove, update,
}
use libnvme.Types.{
  Cmd, zero_cmd, Cpl, zero_cpl, cpl_is_error, Buffer, invalid, contig, sgl, Payload, Request,
  Tracker, Qpair, Ret, success, enxio, einval, failure, sge_failure,
}
use libnvme.Prp.{Built, build_contig, build_hw_sgl, SgeResult, done, fail, bad, callback}
use libnvme.Prp.Scatter.{build_prps_sgl}
use libnvme.Request.{set_req, request_free, remove_child, run_cb}

-- How deep parent requests may nest: a request split at stripes and then at the transfer size.
abbrev pub depth : ℕ
depth = 3

-- nvme_qpair_completion_retry: NVME_SCT_GENERIC with NVME_SC_NAMESPACE_NOT_READY or
-- NVME_SC_FORMAT_IN_PROGRESS, unless the controller says not to.
unfoldable pub completion_retry : Cpl → Bool
completion_retry c = (c.sct == 0) && (c.sc == 0x82 || c.sc == 0x84) && c.dnr == 0

abbrev pub set_tr : Qpair → ℕ → Tracker → Qpair
set_tr q t v = record q { tr = update q.tr t v }

-- `++index == entries` wraps to 0
abbrev pub next_index : ℕ → ℕ → ℕ
next_index entries i = if i + 1 == entries then 0 else i + 1

-- nvme_qpair_submit_tracker; `none` without a request
unfoldable pub submit_tracker : Qpair → ℕ → Option Qpair
submit_tracker q t = do
  r ← (q.tr t).req
  let cid = (q.tr t).cid
  let tail = next_index q.entries q.sq_tail
  some (record q {
    tr = update q.tr cid (record (q.tr cid) { active = true });
    cmd = update q.cmd q.sq_tail (q.reqs r).cmd;
    sq_tail = tail;
    sq_tdbl = tail;
  })

abbrev pub clear_active : Qpair → ℕ → Qpair
clear_active q c = set_tr q c (record (q.tr c) { active = false })

-- A nested nvme_qpair_submit_request.
abbrev pub Submit : Type 0
Submit = Qpair → ℕ → Option (Ret × Qpair)

-- The end of nvme_qpair_complete_tracker: the tracker is freed, and the next queued request goes out.
unfoldable pub release_tracker : Submit → Qpair → ℕ → Option Qpair
release_tracker submit q t =
    let q' = record q {
      tr = update q.tr t (record (q.tr t) { req = none });
      outstanding_tr = remove t q.outstanding_tr;
      free_tr = t ∷ remove t q.free_tr;
    } in
    elim q.queued_req [
      | [] ↦ some q'
      | r ∷ rest ↦
          if q.ctrlr.resetting
          then some q'
          else submit (record q' { queued_req = rest }) r >>= λ res. some (res.1)
    ]

-- nvme_qpair_complete_tracker for a tracker with request `r`: whether the command is sent again
-- (NVME_MAX_RETRY_COUNT is 3), sending it again, and finishing it. `active` is cleared before both.
unfoldable pub wants_retry : Qpair → ℕ → Cpl → Bool
unfolding completion_retry
wants_retry q r cpl = cpl_is_error cpl && completion_retry cpl && ltb (q.reqs r).retries 3

unfoldable pub retry_request : Qpair → ℕ → ℕ → Option Qpair
unfolding submit_tracker
retry_request q t r =
    submit_tracker (set_req q r (record (q.reqs r) { retries = (q.reqs r).retries + 1 })) t

unfoldable pub finish_request : Submit → Qpair → ℕ → ℕ → Cpl → Option Qpair
unfolding release_tracker
finish_request submit q t r cpl = do
  q1 ← run_cb depth q r cpl
  q2 ← request_free q1 r
  release_tracker submit q2 t

unfoldable pub complete_request : Submit → Qpair → ℕ → ℕ → Cpl → Option Qpair
unfolding wants_retry retry_request finish_request
complete_request submit q t r cpl =
    if wants_retry q r cpl
    then retry_request (clear_active q cpl.cid) t r
    else finish_request submit (clear_active q cpl.cid) t r cpl

unfoldable pub complete_tracker : Submit → Qpair → ℕ → Cpl → Option Qpair
unfolding complete_request release_tracker
complete_tracker submit q t cpl = elim (q.tr t).req [
  | none ↦ release_tracker submit (clear_active q cpl.cid) t
  | some r ↦ complete_request submit q t r cpl
]

-- nvme_qpair_manual_complete_tracker
unfoldable pub manual_complete_tracker : Submit → Qpair → ℕ → ℕ → ℕ → ℕ → Option Qpair
unfolding complete_tracker
manual_complete_tracker submit q t sct sc dnr =
    complete_tracker submit q t
      (record zero_cpl { sqid = q.id; cid = (q.tr t).cid; sct = sct; sc = sc; dnr = dnr })

-- nvme_qpair_manual_complete_request
unfoldable pub manual_complete_request : Qpair → ℕ → ℕ → ℕ → Option Qpair
manual_complete_request q r sct sc = do
  q1 ← run_cb depth q r (record zero_cpl { sqid = q.id; sct = sct; sc = sc })
  request_free q1 r

-- The status codes that the driver makes up itself.
abbrev pub sc_invalid_field : ℕ
sc_invalid_field = 0x02

abbrev pub sc_aborted_by_request : ℕ
sc_aborted_by_request = 0x07

-- Each queued request is completed with `sc`: the loops of _nvme_qpair_io_qpair_enable and of
-- nvme_qpair_fail. The list is the queue at the start, which nothing refills.
unfoldable pub abort_queued : Qpair → List ℕ → Option Qpair
unfolding manual_complete_request
abort_queued q [] = some q
abort_queued q (r ∷ rest) =
    manual_complete_request (record q { queued_req = rest }) r 0 sc_aborted_by_request >>= λ q'.
    abort_queued q' rest

-- Each tracker of the list is completed as aborted: the LIST_FOREACH_SAFE loops of the two enable
-- functions, and the loop of nvme_qpair_fail, over the outstanding trackers at the start. With the
-- queue empty, or during a reset, nothing becomes outstanding meanwhile.
unfoldable pub abort_outstanding : Submit → ℕ → Qpair → List ℕ → Option Qpair
unfolding manual_complete_tracker
abort_outstanding submit dnr q [] = some q
abort_outstanding submit dnr q (t ∷ rest) =
    manual_complete_tracker submit q t 0 sc_aborted_by_request dnr >>= λ q'.
    abort_outstanding submit dnr q' rest

-- _nvme_qpair_admin_qpair_enable and _nvme_qpair_io_qpair_enable
unfoldable pub admin_enable : Submit → Qpair → Option Qpair
unfolding abort_outstanding
admin_enable submit q =
    abort_outstanding submit 1 q q.outstanding_tr >>= λ q'. some (record q' { enabled = true })

unfoldable pub io_enable : Submit → Qpair → Option Qpair
unfolding abort_outstanding abort_queued
io_enable submit q = do
  let q1 = record q {
    enabled = true;
    ctrlr = record q.ctrlr { enabled_io_qpairs = (q.ctrlr.enabled_io_qpairs + 1) % 2 ^ 32 };
  }
  q2 ← abort_queued q1 q1.queued_req
  abort_outstanding submit 0 q2 q2.outstanding_tr

-- nvme_qpair_enable
unfoldable pub enable : Submit → Qpair → Option Qpair
unfolding admin_enable io_enable
enable submit q = if q.id == 0 then admin_enable submit q else io_enable submit q

-- nvme_qpair_enabled, before it reads the flag
unfoldable pub ensure_enabled : Submit → Qpair → Option Qpair
unfolding enable
ensure_enabled submit q = if not q.enabled && not q.ctrlr.resetting then enable submit q else some q

-- nvme_qpair_fail
unfoldable pub fail_qpair : Submit → Qpair → Option Qpair
unfolding abort_outstanding abort_queued
fail_qpair submit q =
    abort_queued q q.queued_req >>= λ q'. abort_outstanding submit 1 q' q'.outstanding_tr
