-- ===== src/Ctrlr/State.antt =====
-- The structures of lib/nvme/nvme_internal.h and include/libnvme/nvme_spec.h that a controller keeps:
-- struct nvme_ctrlr, the registers, the identify data and the options. A bit field that the code
-- only tests is a Bool.
use libnvme.Prelude.{ℕ, Bool, false, Option, List}
use libnvme.Types.{Qpair, CtrlrFlags}
use libnvme.Admin.Commands.{IoQueue}
use libnvme.Ns.{Namespace}

-- union nvme_cap_register
pub record Cap : Type 0 where
  pub mqes : ℕ
  pub ams : ℕ
  pub to : ℕ
  pub dstrd : ℕ
  pub mpsmin : ℕ

-- union nvme_cc_register
pub record Cc : Type 0 where
  pub en : Bool
  pub css : ℕ
  pub mps : ℕ
  pub ams : ℕ
  pub shn : ℕ
  pub iosqes : ℕ
  pub iocqes : ℕ

-- union nvme_cmbsz_register and union nvme_cmbloc_register
pub record CmbRegisters : Type 0 where
  pub sqs : Bool
  pub szu : ℕ
  pub sz : ℕ
  pub bir : ℕ
  pub ofst : ℕ

-- enum nvme_ctrlr_state
pub data CtrlrState : Type 0 where
  init : CtrlrState
  disable_wait_for_ready_1 : CtrlrState
  disable_wait_for_ready_0 : CtrlrState
  enable_wait_for_ready_1 : CtrlrState
  ready : CtrlrState

-- struct nvme_ctrlr_opts
pub record Opts : Type 0 where
  pub io_queues : ℕ
  pub use_cmb_sqs : Bool
  pub arb_mechanism : ℕ

-- `memset(&ctrlr->opts, 0, sizeof(struct nvme_ctrlr_opts))`
abbrev pub default_opts : Opts
default_opts = record { io_queues = 0; use_cmb_sqs = false; arb_mechanism = 0 }

-- struct nvme_ctrlr_data; `vs_3` is `vs[3]`
pub record CtrlrData : Type 0 where
  pub vid : ℕ
  pub mdts : ℕ
  pub aerl : ℕ
  pub nn : ℕ
  pub celp : Bool
  pub vwc_present : Bool
  pub apsta_supported : Bool
  pub hmpre : ℕ
  pub sgls_supported : Bool
  pub oncs_dsm : Bool
  pub oncs_write_zeroes : Bool
  pub vs_3 : ℕ

-- An entry of `lbaf` in struct nvme_ns_data
pub record LbaFormat : Type 0 where
  pub ms : ℕ
  pub lbads : ℕ

-- struct nvme_ns_data
pub record NsData : Type 0 where
  pub nsze : ℕ
  pub format : ℕ
  pub extended : Bool
  pub nsrescap : ℕ
  pub pit : ℕ
  pub lbaf : ℕ → LbaFormat

-- struct nvme_ns: what the I/O commands read, and the rest.
pub record NsHandle : Type 0 where
  pub ns : Namespace
  pub stripe_size : ℕ
  pub deallocate : Bool
  pub flush : Bool
  pub write_zeroes : Bool
  pub reservation : Bool
  pub open_count : ℕ

-- struct nvme_intel_log_page_dir: which of the lengths are not zero
pub record IntelLogPageDir : Type 0 where
  pub read_latency : Bool
  pub write_latency : Bool
  pub temperature_statistics : Bool
  pub smart : Bool
  pub marketing_description : Bool

-- struct nvme_ctrlr with its registers. `queues` has the fields of the queue pairs that describe the
-- rings. A queue pair that nvme_qpair_construct has not filled is not in `constructed`: its pointer
-- to the controller is NULL. `ioq_allocated` is `ioq != NULL`; `nsdata` is what the namespaces were
-- last identified with.
pub record Ctrlr : Type 0 where
  pub flags : CtrlrFlags
  pub qpairs : ℕ → Qpair
  pub queues : ℕ → IoQueue
  pub constructed : ℕ → Bool
  pub ioq_allocated : Bool
  pub io_queues : ℕ
  pub max_io_queues : ℕ
  pub io_qpairs_max_entries : ℕ
  pub nr_ns : ℕ
  pub ns : ℕ → NsHandle
  pub nsdata : ℕ → NsData
  pub state : CtrlrState
  pub state_timeout_ms : Option ℕ
  pub log_page_supported : ℕ → Bool
  pub feature_supported : ℕ → Bool
  pub max_xfer_size : ℕ
  pub min_page_size : ℕ
  pub num_aers : ℕ
  pub cdata : CtrlrData
  pub free_io_qpairs : List ℕ
  pub active_io_qpairs : List ℕ
  pub opts : Opts
  pub cmb_bar_virt_addr : Option ℕ
  pub cmb_bar_phys_addr : ℕ
  pub cmb_size : ℕ
  pub cmb_current_offset : ℕ
  pub quirks : ℕ
  pub cc : Cc
  pub asq : ℕ
  pub acq : ℕ
  pub aqa : ℕ

-- What the code finds around it: address translation, the callers' SGEs, what the device does to a
-- queue pair between two polls, the registers it offers and the data it writes on an identify or log
-- page command, and whether calloc and the allocator of the library find memory. `fuel` bounds the
-- polls of one admin command and the nesting of submissions; `status` is the address of the status
-- of nvme_admin_exec_cmd, `buffer` of the data that a command transfers.
pub record Env : Type 0 where
  pub vtophys : ℕ → ℕ
  pub sges : ℕ → ℕ → List (ℕ × ℕ)
  pub device : Qpair → Qpair
  pub fuel : ℕ
  pub status : ℕ
  pub buffer : ℕ
  pub cap : Cap
  pub identified : CtrlrData
  pub identified_ns : ℕ → NsData
  pub log_page_dir : IntelLogPageDir
  pub pci_devid : ℕ
  pub memory : Bool
  pub mem_alloc : ℕ → ℕ → Option ℕ
  pub cmb : CmbRegisters
  pub bar_size : ℕ → ℕ × ℕ
  pub map_bar : ℕ → Option ℕ
