-- ===== src/Admin/Tests.antt =====
-- An Identify command on an admin queue pair of four entries, against a device that completes the
-- outstanding command with a given status.
use libnvme.Prelude.{
  ℕ, ◌≡◌, refl, true, false, Option, none, some, List, [], ◌∷◌, update, remove, arith, ◌/◌, ◌%◌,
  ◌^◌,
}
use libnvme.Types.{
  zero_cmd, zero_cpl, cpl_is_error, zero_request, Qpair, success, enxio, zero_request,
}
use libnvme.Request.{request_allocate_contig, request_free, run_cb}
use libnvme.Prp.{build_contig}
use libnvme.Qpair.{Submit, complete_tracker}
use libnvme.Qpair.Submit.{submit_request, poll}
use libnvme.Admin.{done, AdminResult, admin_exec_cmd}
use libnvme.Admin.Commands.{
  IoQueue, submission_queue, completion_queue, create_ioq_cmd, identify_ctrlr_cmd,
}
use libnvme.Admin.Fields.{IsDescribable, create_ioq_fields}

abbrev idle : Qpair
idle = record {
  ctrlr = record {
    failed = false;
    resetting = false;
    sgl_supported = false;
    enabled_io_qpairs = 0;
  };
  id = 0;
  entries = 4;
  trackers = 2;
  cmd = λ _. zero_cmd;
  cpl = λ _. zero_cpl;
  sq_tail = 0;
  cq_head = 0;
  phase = 1;
  enabled = true;
  sq_tdbl = 0;
  cq_hdbl = 0;
  tr = λ c. record { req = none; cid = c; active = false; prp_sgl_bus_addr = 0x9000; prp = λ _. 0 };
  free_tr = 0 ∷ 1 ∷ [];
  outstanding_tr = [];
  reqs = λ _. zero_request;
  num_reqs = 16;
  free_req = 1 ∷ 2 ∷ [];
  queued_req = [];
  calls = [];
}

-- The device posts a completion with status code `sc` for the newest outstanding command.
abbrev device : ℕ → Qpair → Qpair
device sc q = elim q.outstanding_tr [
  | [] ↦ q
  | c ∷ _ ↦ record q {
    cpl = update q.cpl q.cq_head (record zero_cpl { cid = c; sc = sc; p = q.phase });
  }
]

abbrev no_sges : ℕ → ℕ → List (ℕ × ℕ)
no_sges _ _ = []

abbrev same_addr : ℕ → ℕ
same_addr a = a

abbrev submit : Submit
submit = submit_request same_addr no_sges 2

abbrev identify : ℕ → Option AdminResult
identify sc =
    admin_exec_cmd same_addr no_sges submit (device sc) 3 77 identify_ctrlr_cmd (some 0x20000) 4096
      idle

abbrev result_of : Option AdminResult → AdminResult
result_of none = (enxio, zero_cpl, idle)
result_of (some r) = r

identify_succeeds : (result_of (identify 0)).0 ≡ success
unfolding admin_exec_cmd identify_ctrlr_cmd request_allocate_contig submit_request poll
    complete_tracker run_cb request_free remove cpl_is_error build_contig done
identify_succeeds = refl

identify_fails : (result_of (identify 2)).0 ≡ enxio
unfolding admin_exec_cmd identify_ctrlr_cmd request_allocate_contig submit_request poll
    complete_tracker run_cb request_free remove cpl_is_error build_contig done
identify_fails = refl

abbrev queue_3 : IoQueue
queue_3 = record {
  id = 3;
  entries = 1024;
  qprio = 2;
  cmd_bus_addr = 0x30000;
  cpl_bus_addr = 0x40000;
}

queue_3-IsDescribable : IsDescribable queue_3
queue_3-IsDescribable = record {
  some_entries = omega arith;
  entries_16 = omega arith;
  id_16 = omega arith;
  prio_2 = omega arith;
}

create_ioq_fields_example :
    let sq = create_ioq_cmd queue_3 submission_queue in
    let cq = create_ioq_cmd queue_3 completion_queue in
    (sq.cdw10 % 2 ^ 16 ≡ 3)
    × (sq.cdw10 / 2 ^ 16 ≡ 1023)
    × (cq.cdw10 ≡ sq.cdw10)
    × (sq.cdw11 / 2 ^ 16 ≡ 3)
    × (sq.cdw11 / 2 % 4 ≡ 2)
    × (sq.cdw11 % 2 ≡ 1)
    × (sq.prp1 ≡ 0x30000)
    × (cq.prp1 ≡ 0x40000)
create_ioq_fields_example = create_ioq_fields queue_3 queue_3-IsDescribable
