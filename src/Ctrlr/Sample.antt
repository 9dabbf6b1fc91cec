-- ===== src/Ctrlr/Sample.antt =====
-- The controller of the examples: a device that completes every admin command that it finds, the
-- newest first, and a controller before its first nvme_ctrlr_init.
use libnvme.Prelude.{
  ℕ, ◌*◌, Bool, true, false, Option, none, some, [], ◌∷◌, update, if◌then◌else◌, ◌==◌,
}
use libnvme.Types.{zero_cpl, CtrlrFlags, Qpair, Ret, failure}
use libnvme.Ctrlr.Namespaces.{zero_handle}
use libnvme.Ctrlr.Start.{zero_qpair}
use libnvme.Ctrlr.Init.{Look}
use libnvme.Ctrlr.State.{Ctrlr, CtrlrData, NsData, Env, init, default_opts}

abbrev pub adminq : Qpair
adminq = record (zero_qpair 0) {
  entries = 128;
  trackers = 3;
  phase = 1;
  tr = λ c. record { req = none; cid = c; active = false; prp_sgl_bus_addr = 0x9000; prp = λ _. 0 };
  free_tr = 0 ∷ 1 ∷ 2 ∷ [];
  num_reqs = 16;
  free_req = 1 ∷ 2 ∷ 3 ∷ [];
}

-- The newest outstanding command, with eight queues of each type in the completion.
abbrev pub complete_newest : Qpair → Qpair
complete_newest q = elim q.outstanding_tr [
  | [] ↦ q
  | c ∷ _ ↦ record q {
    cpl = update q.cpl q.cq_head (record zero_cpl { cid = c; cdw0 = 0x00070007; p = q.phase });
  }
]

abbrev pub data_4k : CtrlrData
data_4k = record {
  vid = 0x1b96;
  mdts = 5;
  aerl = 0;
  nn = 1;
  celp = true;
  vwc_present = true;
  apsta_supported = false;
  hmpre = 0;
  sgls_supported = true;
  oncs_dsm = true;
  oncs_write_zeroes = false;
  vs_3 = 0;
}

abbrev pub ns_512 : NsData
ns_512 = record {
  nsze = 0x100000;
  format = 0;
  extended = false;
  nsrescap = 0;
  pit = 0;
  lbaf = λ _. record { ms = 0; lbads = 9 };
}

abbrev pub env : Env
env = record {
  vtophys = λ a. a;
  sges = λ _ _. [];
  device = complete_newest;
  fuel = 3;
  status = 77;
  buffer = 0x20000;
  cap = record { mqes = 1023; ams = 0; to = 20; dstrd = 0; mpsmin = 0 };
  identified = data_4k;
  identified_ns = λ _. ns_512;
  log_page_dir = record {
    read_latency = false;
    write_latency = false;
    temperature_statistics = false;
    smart = false;
    marketing_description = false;
  };
  pci_devid = 0;
  memory = true;
  mem_alloc = λ _ _. some 0x100000;
  cmb = record { sqs = true; szu = 0; sz = 16; bir = 2; ofst = 1 };
  bar_size = λ _. (0xf0000000, 0x100000);
  map_bar = λ _. some 0x7f0000000000;
}

abbrev pub flags : CtrlrFlags
flags = record { failed = false; resetting = false; sgl_supported = false; enabled_io_qpairs = 0 }

-- A controller before its first nvme_ctrlr_init.
abbrev pub fresh : Bool → Ctrlr
fresh en = record {
  flags = flags;
  qpairs = λ id. if id == 0 then adminq else zero_qpair id;
  queues = λ id. record {
    id = id;
    entries = 128;
    qprio = 0;
    cmd_bus_addr = 0x30000;
    cpl_bus_addr = 0x40000;
  };
  constructed = λ id. id == 0;
  ioq_allocated = false;
  io_queues = 0;
  max_io_queues = 0;
  io_qpairs_max_entries = 0;
  nr_ns = 0;
  ns = λ _. zero_handle;
  nsdata = λ _. ns_512;
  state = init;
  state_timeout_ms = none;
  log_page_supported = λ _. false;
  feature_supported = λ _. false;
  max_xfer_size = 506 * 4096;
  min_page_size = 4096;
  num_aers = 0;
  cdata = data_4k;
  free_io_qpairs = [];
  active_io_qpairs = [];
  opts = record default_opts { io_queues = 4 };
  cmb_bar_virt_addr = none;
  cmb_bar_phys_addr = 0;
  cmb_size = 0;
  cmb_current_offset = 0;
  quirks = 0;
  cc = record { en = en; css = 0; mps = 0; ams = 0; shn = 0; iosqes = 0; iocqes = 0 };
  asq = 0;
  acq = 0;
  aqa = 0;
}

abbrev pub ctrlr_of : Ctrlr → Option (Ret × Ctrlr) → Ctrlr
ctrlr_of c none = c
ctrlr_of c (some r) = r.1

abbrev pub ret_of : Option (Ret × Ctrlr) → Ret
ret_of none = failure
ret_of (some r) = r.0

abbrev pub see : Bool → ℕ → Look
see rdy now = record { rdy = rdy; now = now }
