-- ===== src/Qpair/Submit.antt =====
-- lib/nvme/nvme_qpair.c: nvme_qpair_submit_request, nvme_qpair_poll, nvme_qpair_reset and
-- nvme_qpair_disable, over the parts that libnvme.Qpair defines.
pub mod Invariant
pub mod Poll
pub mod Total
pub mod Failed
pub mod Drained
mod Tests
use libnvme.Prelude.{
  ℕ, zero, suc, ◌+◌, ◌-◌, ◌*◌, ◌%◌, ◌^◌, Bool, true, false, ◌&&◌, ◌||◌, not, Option, none, some,
  List, [], ◌∷◌, ◌++◌, ltb, ◌==◌, if◌then◌else◌, ◌>>=◌, remove, update,
}
use mathlib.Core.Option
use libnvme.Types.{
  Cmd, zero_cmd, Cpl, zero_cpl, cpl_is_error, Buffer, invalid, contig, sgl, Payload, Request,
  Tracker, Qpair, Ret, success, enxio, einval, failure, sge_failure,
}
use libnvme.Prp.{Built, build_contig, build_hw_sgl, SgeResult, done, fail, SgeFail, bad, callback}
use libnvme.Prp.Scatter.{build_prps_sgl}
use libnvme.Request.{set_req, request_free, remove_child}
use libnvme.Qpair.{
  Submit, set_tr, submit_tracker, complete_tracker, manual_complete_tracker, ensure_enabled,
  next_index, sc_invalid_field,
}

-- The data pointers built, or what is returned once the request has been aborted.
pub data Build : Type 0 where
  built : Cmd → (ℕ → ℕ) → Build
  aborted : Ret → Build

abbrev of_option : Option Built → Build
of_option none = aborted failure
of_option (some (cmd, prp)) = built cmd prp

abbrev of_sge : SgeResult Built → Build
of_sge (done (cmd, prp)) = built cmd prp
of_sge (fail bad) = aborted failure
of_sge (fail callback) = aborted sge_failure

-- `req->payload.md + req->md_offset`
abbrev md_addr : Request → Option ℕ
md_addr r = Option.map (λ md. (md + r.md_offset) % 2 ^ 64) r.payload.md

-- nvme_qpair_disable for an I/O queue; aborting the AERs of the admin queue is left out.
unfoldable pub io_disable : Qpair → Qpair
io_disable q = record q {
  enabled = false;
  ctrlr = record q.ctrlr { enabled_io_qpairs = (q.ctrlr.enabled_io_qpairs + 2 ^ 32 - 1) % 2 ^ 32 };
}

-- nvme_qpair_reset; the rings hold `entries` zeroed elements.
unfoldable pub reset : Qpair → Qpair
reset q = record q {
  sq_tail = 0;
  cq_head = 0;
  phase = 1;
  cmd = λ i. if ltb i q.entries then zero_cmd else q.cmd i;
  cpl = λ i. if ltb i q.entries then zero_cpl else q.cpl i;
}

abbrev pub take_tracker : Qpair → ℕ → List ℕ → ℕ → Qpair
take_tracker q t rest r =
    let r' = q.reqs r in
    set_tr
      (set_req (record q { free_tr = rest; outstanding_tr = t ∷ q.outstanding_tr }) r
        (record r' { cmd = record r'.cmd { cid = (q.tr t).cid } }))
      t (record (q.tr t) { req = some r })

abbrev pub enqueue : Qpair → ℕ → Qpair
enqueue q r = record q { queued_req = q.queued_req ++ r ∷ [] }

abbrev pub set_built : Qpair → ℕ → ℕ → Cmd → (ℕ → ℕ) → Qpair
set_built q t r cmd prp =
    set_tr (set_req q r (record (q.reqs r) { cmd = cmd })) t (record (q.tr t) { prp = prp })

-- `++cq_head == entries`, with the phase toggled at the wrap
unfoldable pub advance : Qpair → Qpair
advance q =
    let head = next_index q.entries q.cq_head in
    record q { cq_head = head; phase = if head == 0 then 1 - q.phase else q.phase }

-- How many completions one call may take: one queue's depth at most.
unfoldable pub poll_limit : Qpair → ℕ → ℕ
poll_limit q max_completions =
    if max_completions == 0 || ltb (q.entries - 1) max_completions
    then q.entries - 1
    else max_completions

-- The completion doorbell is written if there was a completion.
unfoldable pub ring_cq : ℕ → Qpair → Qpair
ring_cq num q = if num == 0 then q else record q { cq_hdbl = q.cq_head }

-- The end of nvme_qpair_submit_request: the tracker is submitted, or the request was aborted.
unfoldable pub start_built : Submit → Qpair → ℕ → ℕ → Build → Option (Ret × Qpair)
start_built submit q t r (built cmd prp) =
    submit_tracker (set_built q t r cmd prp) t >>= λ q'. some (success, q')
start_built submit q t r (aborted ret) =
    manual_complete_tracker submit q t 0 sc_invalid_field 1 >>= λ q'. some (ret, q')

module _ (vtophys : ℕ → ℕ) (sges : ℕ → ℕ → List (ℕ × ℕ)) where
  build_buffer : Bool → Request → Tracker → Buffer → Build
  build_buffer hw r t invalid = aborted einval
  build_buffer hw r t (contig buf) = of_option (
      build_contig vtophys ((buf + r.payload_offset) % 2 ^ 64) (md_addr r) r.payload_size
        t.prp_sgl_bus_addr r.cmd t.prp)
  build_buffer hw r t (sgl arg) =
      let l = sges arg r.payload_offset in
      if hw
      then of_sge (build_hw_sgl l r.payload_size t.prp_sgl_bus_addr r.cmd t.prp)
      else of_option (build_prps_sgl l r.payload_size t.prp_sgl_bus_addr r.cmd t.prp)

  -- The payload of a request; an empty one leaves the pointers zeroed.
  unfoldable pub build_payload : Bool → Request → Tracker → Build
  unfolding build_buffer
  build_payload hw r t =
      if r.payload_size == 0 then built r.cmd t.prp else build_buffer hw r t r.payload.buffer

  -- The request at a tracker, which has just been moved to the outstanding list.
  unfoldable pub start_request : Submit → Qpair → ℕ → ℕ → Option (Ret × Qpair)
  unfolding build_payload start_built
  start_request submit q t r =
      start_built submit q t r (build_payload q.ctrlr.sgl_supported (q.reqs r) (q.tr t))

  -- A request that was not split, given the free trackers: queued, or started at the first of them.
  unfoldable pub place_on : Submit → Qpair → ℕ → List ℕ → Option (Ret × Qpair)
  unfolding start_request
  place_on submit q r [] = some (success, enqueue q r)
  place_on submit q r (t ∷ rest) =
      if q.enabled
      then start_request submit (take_tracker q t rest r) t r
      else some (success, enqueue q r)

  unfoldable pub place_request : Submit → Submit
  unfolding place_on
  place_request submit q r = place_on submit q r q.free_tr

  -- The children of a split request: once one fails, the others are freed.
  unfoldable pub submit_children : Submit → Qpair → ℕ → List ℕ → Ret → Option (Ret × Qpair)
  submit_children submit q p [] ret = some (ret, q)
  submit_children submit q p (c ∷ cs) success =
      submit q c >>= λ res. submit_children submit res.1 p cs res.0
  submit_children submit q p (c ∷ cs) ret = do
    q1 ← remove_child q p c
    q2 ← request_free q1 c
    submit_children submit q2 p cs ret

  -- What follows once the queue pair is enabled.
  unfoldable pub submit_ready : Submit → ℕ → Qpair → Option (Ret × Qpair)
  unfolding place_request submit_children
  submit_ready submit r q =
      if (q.reqs r).child_reqs == 0
      then place_request submit q r
      else submit_children submit q r (q.reqs r).children success

  unfoldable pub submit_step : Submit → Submit
  unfolding submit_ready ensure_enabled
  submit_step submit q r =
      if q.ctrlr.failed
      then (request_free q r >>= λ q'. some (enxio, q'))
      else (ensure_enabled submit q >>= submit_ready submit r)

  -- nvme_qpair_submit_request
  unfoldable pub submit_request : ℕ → Submit
  unfolding submit_step
  submit_request zero q r = none
  submit_request (suc fuel) q r = submit_step (submit_request fuel) q r

  -- One completion: the tracker that it names is completed, and the head moves on. `none` also
  -- where the tracker is not active, which panics.
  unfoldable pub poll_one : Submit → Qpair → Option Qpair
  unfolding advance
  poll_one submit q =
      let cpl = q.cpl q.cq_head in
      if (q.tr cpl.cid).active
      then (complete_tracker submit q cpl.cid cpl >>= λ q'. some (advance q'))
      else none

  -- The loop of nvme_qpair_poll, with `n` completions left to take.
  unfoldable pub poll_loop : Submit → ℕ → Qpair → ℕ → Option (ℕ × Qpair)
  unfolding poll_one
  poll_loop submit zero q num = some (num, q)
  poll_loop submit (suc n) q num =
      if (q.cpl q.cq_head).p == q.phase
      then (poll_one submit q >>= λ q'. poll_loop submit n q' (num + 1))
      else some (num, q)

  -- nvme_qpair_poll once the queue pair is known to be enabled, or not to be.
  unfoldable pub poll_ready : Submit → ℕ → Qpair → Option (ℕ × Qpair)
  unfolding poll_loop poll_limit ring_cq
  poll_ready submit max_completions q =
      if q.enabled
      then (poll_loop submit (poll_limit q max_completions) q 0 >>= λ res.
          some (res.0, ring_cq res.0 res.1))
      else some (0, q)

  -- nvme_qpair_poll. With one entry the loop of the code would not stop, but nvme_ioqp_get gives no
  -- such queue.
  unfoldable pub poll : Submit → Qpair → ℕ → Option (ℕ × Qpair)
  unfolding poll_ready ensure_enabled
  poll submit q max_completions = ensure_enabled submit q >>= poll_ready submit max_completions
