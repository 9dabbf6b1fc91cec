-- ===== src/Ctrlr/Start.antt =====
-- lib/nvme/nvme_ctrlr.c: nvme_ctrlr_start and what it calls, once the controller is ready: identify,
-- the number of I/O queue pairs, the namespaces, the asynchronous event requests, and the tables of
-- supported log pages and features.
use Prim.Native.Nat.{bit_or}
use libnvme.Prelude.{
  ℕ, zero, suc, ◌+◌, ◌-◌, ◌*◌, ◌/◌, ◌%◌, ◌^◌, min, Bool, true, false, ◌||◌, not, Option, none, some,
  List, [], ◌∷◌, ◌++◌, ◌==◌, if◌then◌else◌, ◌>>=◌, update,
}
use libnvme.Types.{
  zero_cmd, zero_cpl, zero_request, user_cb, CtrlrFlags, Tracker, Qpair, Ret, success, enomem,
  failure,
}
use libnvme.Request.{set_req, request_allocate_null}
use libnvme.Qpair.{Submit, enable}
use libnvme.Qpair.Submit.{reset}
use libnvme.Admin.{is_success}
use libnvme.Admin.Commands.{
  admin_identify_ctrlr, admin_get_feature, admin_set_feature, admin_get_log_page,
}
use libnvme.Ctrlr.{on_qpair, load, store}
use libnvme.Ctrlr.Namespaces.{submit_of, exec_of, construct_namespaces}
use libnvme.Ctrlr.State.{Ctrlr, CtrlrData, IntelLogPageDir, Env}

-- nvme_ctrlr_identify
abbrev limit_xfer_size : Ctrlr → Ctrlr
limit_xfer_size c = if c.cdata.mdts == 0 then c else record c {
  max_xfer_size = min c.max_xfer_size (c.min_page_size * 2 ^ c.cdata.mdts % 2 ^ 32);
}

unfoldable pub identify : Env → Ctrlr → Option (Ret × Ctrlr)
identify e c = do
  (ret, c1) ← on_qpair c 0 (admin_identify_ctrlr (exec_of e) e.buffer)
  some (
      if is_success ret
      then (success, limit_xfer_size (record c1 { cdata = e.identified }))
      else (ret, c1))

-- The number of queue pairs in the completion of a Number of Queues feature.
unfoldable pub queues_allocated : ℕ → ℕ
queues_allocated cdw0 = min (cdw0 % 2 ^ 16 + 1) (cdw0 / 2 ^ 16 + 1)

-- A feature command of the admin queue, with `cdw0` of its completion where it succeeded.
unfoldable pub on_feature :
    Ctrlr → (Qpair → Option (Ret × Option ℕ × Qpair)) → (ℕ → Ctrlr → Ctrlr) → Option (Ret × Ctrlr)
on_feature c f k = f (load c 0) >>= λ (r : Ret × Option ℕ × Qpair).
    some (r.0, elim (r.1) [ none ↦ store c 0 (r.2) | some cdw0 ↦ k cdw0 (store c 0 (r.2)) ])

-- nvme_ctrlr_get_max_io_qpairs: NVME_FEAT_CURRENT of NVME_FEAT_NUMBER_OF_QUEUES
unfoldable pub get_max_io_qpairs : Env → Ctrlr → Option (Ret × Ctrlr)
unfolding queues_allocated
get_max_io_qpairs e c =
    on_feature c (admin_get_feature (exec_of e) 0 7 0)
      (λ cdw0 c1. record c1 { max_io_queues = queues_allocated cdw0 })

-- The word that asks for `n` queues of both types, and nvme_ctrlr_set_num_qpairs.
unfoldable pub num_queues_word : ℕ → ℕ
num_queues_word n = bit_or ((n + 2 ^ 32 - 1) % 2 ^ 32 * 2 ^ 16 % 2 ^ 32) ((n + 2 ^ 32 - 1) % 2 ^ 32)

unfoldable pub set_num_qpairs : Env → Ctrlr → Option (Ret × Ctrlr)
unfolding get_max_io_qpairs num_queues_word queues_allocated
set_num_qpairs e c = do
  (ret, c1) ← get_max_io_qpairs e c
  let set =
      on_feature c1 (admin_set_feature (exec_of e) false 7 (num_queues_word c1.opts.io_queues) 0)
        (λ cdw0 c2. record c2 { io_queues = min (queues_allocated cdw0) c2.opts.io_queues })
  if is_success ret then set else some (ret, c1)

-- The identifiers from `id` on, `n` of them.
unfoldable pub ids_from : ℕ → ℕ → List ℕ
ids_from id zero = []
ids_from id (suc n) = id ∷ ids_from (id + 1) n

-- A queue pair as calloc gives it, with its identifier; it has no rings, trackers or requests.
abbrev no_tracker : Tracker
no_tracker = record { req = none; cid = 0; active = false; prp_sgl_bus_addr = 0; prp = λ _. 0 }

abbrev no_flags : CtrlrFlags
no_flags = record {
  failed = false;
  resetting = false;
  sgl_supported = false;
  enabled_io_qpairs = 0;
}

abbrev pub zero_qpair : ℕ → Qpair
zero_qpair id = record {
  ctrlr = no_flags;
  id = id;
  entries = 0;
  trackers = 0;
  cmd = λ _. zero_cmd;
  cpl = λ _. zero_cpl;
  sq_tail = 0;
  cq_head = 0;
  phase = 0;
  enabled = false;
  sq_tdbl = 0;
  cq_hdbl = 0;
  tr = λ _. no_tracker;
  free_tr = [];
  outstanding_tr = [];
  reqs = λ _. zero_request;
  num_reqs = 0;
  free_req = [];
  queued_req = [];
  calls = [];
}

-- nvme_ctrlr_init_io_qpairs; NVME_IO_ENTRIES is 1024.
unfoldable pub init_io_qpairs : Env → Ctrlr → Ret × Ctrlr
unfolding ids_from
init_io_qpairs e c =
    let c1 = record c { io_qpairs_max_entries = min 1024 (e.cap.mqes + 1) } in
    if c.ioq_allocated
    then (success, c)
    else if e.memory
    then (
      success,
      record c1 {
        ioq_allocated = true;
        qpairs = λ id. if id == 0 then c.qpairs 0 else zero_qpair id;
        constructed = λ id. id == 0;
        free_io_qpairs = c.free_io_qpairs ++ ids_from 1 c.io_queues;
      },
    )
    else (enomem, c1)

-- nvme_ctrlr_construct_and_submit_aer for the request with number `i` in `aer`.
abbrev send_aer : Submit → Qpair → Option (ℕ × Qpair) → Option (Ret × Qpair)
send_aer submit q none = some (failure, q)
send_aer submit q (some (r, q')) =
    let cmd = (q'.reqs r).cmd in
    submit (set_req q' r (record (q'.reqs r) { cmd = record cmd { opc = 0x0c } })) r

unfoldable pub construct_and_submit_aer : Env → ℕ → Qpair → Option (Ret × Qpair)
construct_and_submit_aer e i q = send_aer (submit_of e) q (request_allocate_null q user_cb i)

unfoldable pub submit_aers : Env → ℕ → ℕ → Ctrlr → Option (Ret × Ctrlr)
unfolding construct_and_submit_aer
submit_aers e zero i c = some (success, c)
submit_aers e (suc n) i c = do
  (ret, c1) ← on_qpair c 0 (construct_and_submit_aer e i)
  let rest = submit_aers e n (i + 1) c1
  if is_success ret then rest else some (failure, c1)

-- nvme_ctrlr_configure_aer: NVME_FEAT_ASYNC_EVENT_CONFIGURATION with the five warnings that are not
-- reserved, and at most NVME_MAX_ASYNC_EVENTS requests.
unfoldable pub configure_aer : Env → Ctrlr → Option (Ret × Ctrlr)
unfolding submit_aers
configure_aer e c = do
  (ret, c1) ← on_feature c (admin_set_feature (exec_of e) false 0x0b 0x1f 0) (λ _ c1. c1)
  let num_aers = min 8 (c1.cdata.aerl + 1)
  let aers = submit_aers e num_aers 0 (record c1 { num_aers = num_aers })
  if is_success ret then aers else some (ret, c1)

-- Which entries of a table become true.
unfoldable pub set_all : List ℕ → (ℕ → Bool) → ℕ → Bool
set_all [] f = f
set_all (i ∷ is) f = set_all is (update f i true)

abbrev when : Bool → ℕ → List ℕ
when b i = if b then i ∷ [] else []

-- NVME_PCI_VID_INTEL
abbrev pub is_intel : CtrlrData → Bool
is_intel cdata = cdata.vid == 0x8086

-- nvme_ctrlr_construct_intel_support_log_page_list: the pages that it adds.
unfoldable pub intel_log_pages : ℕ → IntelLogPageDir → List ℕ
intel_log_pages quirks dir =
    0xc0 ∷ when (dir.read_latency || not (quirks % 2 == 0)) 0xc1
    ++ when (dir.write_latency || not (quirks / 2 % 2 == 0)) 0xc2
    ++ when dir.temperature_statistics 0xc5
    ++ when dir.smart 0xca
    ++ when dir.marketing_description 0xdd

-- nvme_ctrlr_set_intel_support_log_pages: NVME_INTEL_LOG_PAGE_DIR has 512 bytes.
unfoldable pub set_intel_support_log_pages : Env → Ctrlr → Option (Ret × Ctrlr)
unfolding intel_log_pages set_all
set_intel_support_log_pages e c =
    let get = on_qpair c 0 (admin_get_log_page (exec_of e) 0xc0 (2 ^ 32 - 1) e.buffer 512) >>= λ r.
    let c1 : Ctrlr = r.1 in
    let pages = intel_log_pages c1.quirks e.log_page_dir in
    some (
      r.0,
      if is_success (r.0)
          then record c1 { log_page_supported = set_all pages c1.log_page_supported }
          else c1,
    ) in
    if e.memory then get else some (enomem, c)

-- nvme_ctrlr_set_supported_log_pages
unfoldable pub standard_log_pages : CtrlrData → List ℕ
standard_log_pages cdata = 0x01 ∷ 0x02 ∷ 0x03 ∷ when cdata.celp 0x05

unfoldable pub set_supported_log_pages : Env → Ctrlr → Option Ctrlr
unfolding set_intel_support_log_pages standard_log_pages set_all
set_supported_log_pages e c =
    let c1 = record c { log_page_supported = set_all (standard_log_pages c.cdata) (λ _. false) } in
    let intel = set_intel_support_log_pages e c1 >>= λ r. some (r.1) in
    if is_intel c.cdata then intel else some c1

-- nvme_ctrlr_set_supported_features, with nvme_ctrlr_set_intel_supported_features
unfoldable pub supported_features : CtrlrData → List ℕ
supported_features cdata =
    0x01 ∷ 0x02 ∷ 0x04 ∷ 0x05 ∷ 0x07 ∷ 0x08 ∷ 0x09 ∷ 0x0a ∷ 0x0b ∷ when cdata.vwc_present 0x06
    ++ when cdata.apsta_supported 0x0c
    ++ when (not (cdata.hmpre == 0)) 0x0d
    ++ (if is_intel cdata then intel else [])
  where
    intel : List ℕ
    intel = 0xc1 ∷ 0xc2 ∷ 0xc6 ∷ 0xc8 ∷ 0xc9 ∷ 0xd5 ∷ 0xe2 ∷ []

unfoldable pub set_supported_features : Ctrlr → Ctrlr
unfolding supported_features set_all
set_supported_features c = record c {
  feature_supported = set_all (supported_features c.cdata) (λ _. false);
}

-- A step of nvme_ctrlr_start, which returns -1 where the step before failed.
abbrev pub or_fail : (Ctrlr → Option (Ret × Ctrlr)) → Ret × Ctrlr → Option (Ret × Ctrlr)
or_fail next (ret, c) = if is_success ret then next c else some (failure, c)

-- nvme_ctrlr_start: the reset and the enabling of the admin queue pair come first. A failure of
-- nvme_ctrlr_configure_aer is only reported.
unfoldable pub start_adminq : Env → Ctrlr → Option Ctrlr
start_adminq e c = enable (submit_of e) (reset (load c 0)) >>= λ q. some (store c 0 q)

unfoldable pub finish_start : Env → Ctrlr → Option (Ret × Ctrlr)
unfolding configure_aer set_supported_log_pages set_supported_features
finish_start e c = do
  (_, c1) ← configure_aer e c
  c2 ← set_supported_log_pages e c1
  let c3 = set_supported_features c2
  some (
    success,
    if c3.cdata.sgls_supported
        then record c3 { flags = record c3.flags { sgl_supported = true } }
        else c3,
  )

unfoldable pub start : Env → Ctrlr → Option (Ret × Ctrlr)
unfolding start_adminq identify set_num_qpairs init_io_qpairs construct_namespaces finish_start
start e c = do
  c1 ← start_adminq e c
  identified ← identify e c1
  numbered ← or_fail (set_num_qpairs e) identified
  allocated ← or_fail (λ c2. some (init_io_qpairs e c2)) numbered
  named ← or_fail (construct_namespaces e) allocated
  or_fail (finish_start e) named
