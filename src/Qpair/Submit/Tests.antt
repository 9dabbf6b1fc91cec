-- ===== src/Qpair/Submit/Tests.antt =====
-- A queue pair with two trackers and four entries, run through a submission and a completion.
use libnvme.Prelude.{
  ℕ, min, ◌-◌, ◌<◌, ◌≡◌, refl, true, false, Option, none, some, List, [], ◌∷◌, update, ltb,
  if◌then◌else◌, arith, remove, count, length,
}
use libnvme.Types.{
  zero_cmd, zero_cpl, contig, user_cb, zero_request, Request, Tracker, Qpair, Ret, success, Cpl,
  cpl_is_error,
}
use libnvme.Request.{request_free, run_cb}
use libnvme.Prp.{build_contig}
use libnvme.Qpair.{complete_tracker, fail_qpair}
use libnvme.Qpair.Steady.{consumer_of, Steady}
use libnvme.Qpair.Submit.{poll_limit, submit_request, poll, poll_one}
use libnvme.Qpair.Submit.Total.{Plain, submit_request-Returns, poll_one-Returns}
use libnvme.Qpair.Submit.Drained.{fail_qpair-drains}
use libnvme.Qpair.Submit.Invariant.{submit_request-Steady, submit_request-IsSteady}
use libnvme.Qpair.Submit.Poll.{IsSteady, Tracks, poll-takes}

abbrev fresh_tracker : ℕ → Tracker
fresh_tracker c = record {
  req = none;
  cid = c;
  active = false;
  prp_sgl_bus_addr = 0x9000;
  prp = λ _. 0;
}

-- One request of 8192 bytes at address 0x10000, taken from the free list.
abbrev io_request : Request
io_request = record zero_request {
  payload = record { buffer = contig 0x10000; md = none };
  payload_size = 8192;
  cb_fn = user_cb;
  cb_arg = 7;
}

-- Three completions of the first pass have been taken.
abbrev idle : Qpair
idle = record {
  ctrlr = record {
    failed = false;
    resetting = false;
    sgl_supported = false;
    enabled_io_qpairs = 1;
  };
  id = 1;
  entries = 4;
  trackers = 2;
  cmd = λ _. zero_cmd;
  cpl = λ i. record zero_cpl { p = if ltb i 3 then 1 else 0 };
  sq_tail = 3;
  cq_head = 3;
  phase = 1;
  enabled = true;
  sq_tdbl = 3;
  cq_hdbl = 3;
  tr = fresh_tracker;
  free_tr = 0 ∷ 1 ∷ [];
  outstanding_tr = [];
  reqs = λ _. io_request;
  num_reqs = 16;
  free_req = 1 ∷ 2 ∷ [];
  queued_req = [];
  calls = [];
}

abbrev state_of : Qpair → Option (Ret × Qpair) → Qpair
state_of q none = q
state_of q (some (ret, q')) = q'

abbrev polled : Qpair → Option (ℕ × Qpair) → Qpair
polled q none = q
polled q (some (n, q')) = q'

abbrev no_sges : ℕ → ℕ → List (ℕ × ℕ)
no_sges _ _ = []

abbrev same_addr : ℕ → ℕ
same_addr a = a

abbrev submitted : Qpair
unfolding submit_request build_contig
submitted = state_of idle (submit_request same_addr no_sges 2 idle 0)

-- The tail wraps, the doorbell follows, and the second page is in the command.
submitted_state :
    (submitted.sq_tail ≡ 0)
    × (submitted.sq_tdbl ≡ 0)
    × ((submitted.cmd 3).prp2 ≡ 0x11000)
    × (submitted.outstanding_tr ≡ 0 ∷ [])
unfolding submit_request build_contig
submitted_state = (refl, refl, refl, refl)

idle-Steady : IsSteady idle
idle-Steady = record {
  on = refl;
  consumer = refl;
  tracked = λ c. ground arith;
  owned = λ c h. ground arith;
  named = λ c h. refl;
  tail_in = omega arith;
  head_in = omega arith;
}

submit_request-IsSteady_example : Steady (consumer_of idle) submitted
unfolding submit_request build_contig
submit_request-IsSteady_example =
    submit_request-IsSteady same_addr no_sges 2 idle 0 success submitted idle-Steady refl

-- The controller completes command 0 in the last slot of the ring.
abbrev posted : Qpair
posted = record submitted { cpl = update submitted.cpl 3 (record zero_cpl { cid = 0; p = 1 }) }

abbrev completed : Qpair
unfolding poll submit_request build_contig complete_tracker
completed = polled posted (poll same_addr no_sges (submit_request same_addr no_sges 2) posted 0)

completed_state :
    (completed.cq_head ≡ 0)
    × (completed.phase ≡ 0)
    × (completed.free_tr ≡ 0 ∷ 1 ∷ [])
    × (completed.calls ≡ (7, record zero_cpl { cid = 0; p = 1 }) ∷ [])
unfolding poll submit_request complete_tracker run_cb request_free remove cpl_is_error build_contig
completed_state = (refl, refl, refl, refl)

posted-Steady : IsSteady posted
unfolding submit_request build_contig
posted-Steady =
    let s =
      submit_request-Steady (consumer_of idle) same_addr no_sges 2 idle 0 success submitted
        idle-Steady refl in
    record {
      on = s.on;
      consumer = refl;
      tracked = s.tracked;
      owned = s.owned;
      named = s.named;
      tail_in = s.tail_in;
      head_in = s.head_in;
    }

posted-Tracks : Tracks 4 3 (consumer_of posted)
unfolding submit_request build_contig
posted-Tracks = (refl, refl, λ i. ground arith)

poll-takes_example :
    (1 ≡ min (poll_limit posted 0) (4 - 3))
    × IsSteady completed
    × (completed.entries ≡ posted.entries)
    × Tracks 4 4 (consumer_of completed)
unfolding poll submit_request complete_tracker run_cb request_free remove cpl_is_error build_contig
poll-takes_example =
    poll-takes same_addr no_sges 2 posted 0 1 4 3 completed posted-Steady posted-Tracks
      (omega arith) (omega arith) refl

idle-Plain : Plain idle.reqs
idle-Plain r = (refl, λ e. cc)

submit_request-Returns_example :
    (ret : Ret) × (q' : Qpair) × (submit_request same_addr no_sges 1 idle 0 ≡ some (ret, q'))
submit_request-Returns_example =
    submit_request-Returns same_addr no_sges 1 idle 0 refl idle-Plain (omega arith)

posted-Plain : Plain posted.reqs
unfolding submit_request build_contig
posted-Plain r = ground arith

poll_one-Returns_example :
    (q' : Qpair) × (poll_one same_addr no_sges (submit_request same_addr no_sges 1) posted
      ≡ some q')
unfolding submit_request build_contig
poll_one-Returns_example =
    poll_one-Returns same_addr no_sges 1 posted refl posted-Plain (omega arith) refl

-- One command outstanding, and one request queued behind it.
abbrev loaded : Qpair
unfolding submit_request build_contig
loaded = record posted { queued_req = 1 ∷ [] }

abbrev submitted_calls : Option Qpair → List (ℕ × Cpl)
submitted_calls none = []
submitted_calls (some q) = q.calls

fail_qpair-drains_example :
    (q' : Qpair) × (fail_qpair (submit_request same_addr no_sges 1) loaded ≡ some q')
    × (q'.queued_req ≡ [])
    × (q'.outstanding_tr ≡ [])
    × ((t : ℕ) → 0 < count t loaded.outstanding_tr → 0 < count t q'.free_tr)
unfolding submit_request build_contig
fail_qpair-drains_example =
    fail_qpair-drains (submit_request same_addr no_sges 1) loaded posted-Plain

-- Both callbacks have run, the queued one first.
failed_calls : length (submitted_calls (fail_qpair (submit_request same_addr no_sges 1) loaded)) ≡ 2
unfolding fail_qpair complete_tracker submit_request build_contig run_cb request_free remove
    cpl_is_error
failed_calls = refl
