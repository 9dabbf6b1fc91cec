-- ===== src/Types.antt =====
-- The structures of include/libnvme/nvme_spec.h and lib/nvme/nvme_internal.h that queue pairs work on.
-- A pointer to a request or a tracker is its index in the queue pair's array; an array is a function
-- of the index. A 16-byte SGL descriptor and the two PRP entries share the qwords `prp1` and `prp2`.
use libnvme.Prelude.{ℕ, Bool, ◌||◌, not, Option, none, List, [], ◌==◌}

-- struct nvme_cmd, 64 bytes
pub record Cmd : Type 0 where
  pub opc : ℕ
  pub psdt : ℕ
  pub cid : ℕ
  pub nsid : ℕ
  pub mptr : ℕ
  pub prp1 : ℕ
  pub prp2 : ℕ
  pub cdw10 : ℕ
  pub cdw11 : ℕ
  pub cdw12 : ℕ
  pub cdw13 : ℕ
  pub cdw14 : ℕ
  pub cdw15 : ℕ

-- `memset(cmd, 0, sizeof(struct nvme_cmd))`
abbrev pub zero_cmd : Cmd
zero_cmd = record {
  opc = 0;
  psdt = 0;
  cid = 0;
  nsid = 0;
  mptr = 0;
  prp1 = 0;
  prp2 = 0;
  cdw10 = 0;
  cdw11 = 0;
  cdw12 = 0;
  cdw13 = 0;
  cdw14 = 0;
  cdw15 = 0;
}

-- struct nvme_cpl with its struct nvme_status
pub record Cpl : Type 0 where
  pub cdw0 : ℕ
  pub sqid : ℕ
  pub cid : ℕ
  pub p : ℕ
  pub sc : ℕ
  pub sct : ℕ
  pub dnr : ℕ

abbrev pub zero_cpl : Cpl
zero_cpl = record { cdw0 = 0; sqid = 0; cid = 0; p = 0; sc = 0; sct = 0; dnr = 0 }

-- nvme_cpl_is_error
unfoldable pub cpl_is_error : Cpl → Bool
cpl_is_error c = not (c.sc == 0) || not (c.sct == 0)

-- struct nvme_payload: a contiguous buffer, or the callbacks' argument of a scattered one; `md` is
-- the metadata buffer (`none` for NULL).
pub data Buffer : Type 0 where
  invalid : Buffer
  contig : ℕ → Buffer
  sgl : ℕ → Buffer

pub record Payload : Type 0 where
  pub buffer : Buffer
  pub md : Option ℕ

-- What `cb_fn` can be: NULL, a function of the caller (the admin poll and async event callbacks
-- among them), or nvme_request_cb_complete_child.
pub data Callback : Type 0 where
  no_cb : Callback
  user_cb : Callback
  complete_child_cb : Callback

-- struct nvme_request
pub record Request : Type 0 where
  pub cmd : Cmd
  pub payload : Payload
  pub retries : ℕ
  pub child_reqs : ℕ
  pub payload_size : ℕ
  pub payload_offset : ℕ
  pub md_offset : ℕ
  pub cb_fn : Callback
  pub cb_arg : ℕ
  pub children : List ℕ
  pub parent : Option ℕ
  pub parent_status : Cpl

abbrev pub zero_request : Request
zero_request = record {
  cmd = zero_cmd;
  payload = record { buffer = invalid; md = none };
  retries = 0;
  child_reqs = 0;
  payload_size = 0;
  payload_offset = 0;
  md_offset = 0;
  cb_fn = no_cb;
  cb_arg = 0;
  children = [];
  parent = none;
  parent_status = zero_cpl;
}

-- struct nvme_tracker; `prp` is the union `u` read as PRP entries. It has 506 of them, or 253 SGL
-- descriptors of two qwords; an index from 506 on stands for the memory after it.
pub record Tracker : Type 0 where
  pub req : Option ℕ
  pub cid : ℕ
  pub active : Bool
  pub prp_sgl_bus_addr : ℕ
  pub prp : ℕ → ℕ

-- The fields of struct nvme_ctrlr that a queue pair reads and writes.
pub record CtrlrFlags : Type 0 where
  pub failed : Bool
  pub resetting : Bool
  pub sgl_supported : Bool
  pub enabled_io_qpairs : ℕ

-- struct nvme_qpair. `sq_tdbl` and `cq_hdbl` hold what was last written to the doorbell registers;
-- `calls` lists the calls of the caller's callbacks, the latest first.
pub record Qpair : Type 0 where
  pub ctrlr : CtrlrFlags
  pub id : ℕ
  pub entries : ℕ
  pub trackers : ℕ
  pub cmd : ℕ → Cmd
  pub cpl : ℕ → Cpl
  pub sq_tail : ℕ
  pub cq_head : ℕ
  pub phase : ℕ
  pub enabled : Bool
  pub sq_tdbl : ℕ
  pub cq_hdbl : ℕ
  pub tr : ℕ → Tracker
  pub free_tr : List ℕ
  pub outstanding_tr : List ℕ
  pub reqs : ℕ → Request
  pub num_reqs : ℕ
  pub free_req : List ℕ
  pub queued_req : List ℕ
  pub calls : List (ℕ × Cpl)

-- What the entry points return: 0, a negative errno, -1, or the code of a failing SGE callback.
pub data Ret : Type 0 where
  success : Ret
  enxio : Ret
  einval : Ret
  enomem : Ret
  failure : Ret
  sge_failure : Ret
