-- ===== src/Ns/Tests.antt =====
-- Ten sectors at a limit of four, with a boundary every four sectors.
use libnvme.Prelude.{◌≡◌, refl, true, false, none, [], ◌∷◌, arith}
use libnvme.Types.{contig, user_cb, zero_request, zero_cmd, zero_cpl, Qpair}
use libnvme.Ns.{Namespace, Transfer, ns_rw, chunk, split_loop}
use libnvme.Ns.Chunks.{plan, run_plan, Pieces, split_loop-Pieces}

abbrev disk : Namespace
disk = record {
  id = 1;
  sector_size = 512;
  md_size = 0;
  pi_type = 0;
  sectors_per_max_io = 8;
  sectors_per_stripe = 4;
  pi = false;
  extended = false;
}

abbrev read : Transfer
read = record {
  payload = record { buffer = contig 0x10000; md = none };
  cb_fn = user_cb;
  cb_arg = 7;
  opc = 2;
  io_flags = 0;
  apptag_mask = 0;
  apptag = 0;
}

-- A queue pair of which only the free requests matter; request 0 is the parent.
abbrev five_requests : Qpair
five_requests = record {
  ctrlr = record {
    failed = false;
    resetting = false;
    sgl_supported = false;
    enabled_io_qpairs = 1;
  };
  id = 1;
  entries = 4;
  trackers = 2;
  cmd = λ _. zero_cmd;
  cpl = λ _. zero_cpl;
  sq_tail = 0;
  cq_head = 0;
  phase = 1;
  enabled = true;
  sq_tdbl = 0;
  cq_hdbl = 0;
  tr = λ c. record { req = none; cid = c; active = false; prp_sgl_bus_addr = 0; prp = λ _. 0 };
  free_tr = 0 ∷ 1 ∷ [];
  outstanding_tr = [];
  reqs = λ _. zero_request;
  num_reqs = 16;
  free_req = 1 ∷ 2 ∷ 3 ∷ 4 ∷ 5 ∷ [];
  queued_req = [];
  calls = [];
}

ten_sectors : plan 4 3 10 6 10 ≡ (6, 2) ∷ (8, 4) ∷ (12, 4) ∷ []
unfolding plan chunk
ten_sectors = refl

split_loop-Pieces_example :
    (split_loop disk read (ns_rw 2 disk read) 0 4 3 10 five_requests 6 10 0 0
      ≡ run_plan disk read (ns_rw 2 disk read) 0 (plan 4 3 10 6 10) five_requests 0 0)
    × Pieces 4 3 6 10 (plan 4 3 10 6 10)
split_loop-Pieces_example =
    split_loop-Pieces disk read (ns_rw 2 disk read) 0 4 3 five_requests 6 10 (omega arith)
      (omega arith)
