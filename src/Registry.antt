-- ===== src/Registry.antt =====
-- lib/nvme/nvme.c: the list of open controllers. A handle is the address of the controller. What
-- libpciaccess finds for a name is an argument, as the identity of the device: nvme_pci_dev_cmp
-- compares domain, bus, device and function.
pub mod Open
mod Tests
use libnvme.Prelude.{
  ℕ, zero, suc, ◌+◌, Bool, true, false, ◌&&◌, Option, none, some, List, [], ◌∷◌, ltb, ◌==◌, ◌||◌,
  if◌then◌else◌, ◌>>=◌, remove, update,
}
use libnvme.Types.{Ret, success, einval}
use libnvme.Ctrlr.Init.{Look}
use libnvme.Ctrlr.Reset.{attach, detach}
use libnvme.Ctrlr.Start.{ids_from}
use libnvme.Ctrlr.State.{Ctrlr, CtrlrData, Opts, Env}

-- struct pci_device, as far as it is compared
pub record PciSlot : Type 0 where
  pub domain : ℕ
  pub bus : ℕ
  pub dev : ℕ
  pub func : ℕ

-- `nvme_pci_dev_cmp(d1, d2) == 0`
unfoldable pub same_slot : PciSlot → PciSlot → Bool
same_slot a b = a.domain == b.domain && a.bus == b.bus && a.dev == b.dev && a.func == b.func

-- `ctrlr_head`, with the controllers and the devices behind the handles.
pub record Registry : Type 0 where
  pub ctrlr_head : List ℕ
  pub ctrlr : ℕ → Ctrlr
  pub slot : ℕ → PciSlot

abbrev pub is_open : ℕ → List ℕ → Bool
is_open h [] = false
is_open h (c ∷ cs) = c == h || is_open h cs

-- nvme_ctrlr_get
unfoldable pub ctrlr_get : ℕ → Bool → Registry → Option ℕ × Registry
ctrlr_get h removing reg =
    if is_open h reg.ctrlr_head
    then (some h, if removing then record reg { ctrlr_head = remove h reg.ctrlr_head } else reg)
    else (none, reg)

-- The loop of nvme_ctrlr_open over the open controllers.
unfoldable pub already_open : (ℕ → PciSlot) → PciSlot → List ℕ → Bool
already_open slot pdev [] = false
already_open slot pdev (h ∷ hs) =
    let later = already_open slot pdev hs in if same_slot (slot h) pdev then true else later

-- A controller that was attached goes to the head of the list.
unfoldable pub enter_list : ℕ → PciSlot → Registry → Option Ctrlr → Option ℕ × Registry
enter_list h pdev reg none = (none, reg)
enter_list h pdev reg (some c) = (
  some h,
  record reg {
    ctrlr_head = h ∷ reg.ctrlr_head;
    ctrlr = update reg.ctrlr h c;
    slot = update reg.slot h pdev;
  },
)

-- nvme_ctrlr_open once the name has been looked up; `h` is the address that malloc gives the new
-- handle, `new` the handle after memset.
unfoldable pub ctrlr_open :
    Env
    → ℕ
    → (ℕ → Bool)
    → List Look
    → Option Opts
    → ℕ
    → Ctrlr
    → Option PciSlot
    → Registry
    → Option (Option ℕ × Registry)
unfolding already_open enter_list
ctrlr_open e fuel complete looks opts h new none reg = some (none, reg)
ctrlr_open e fuel complete looks opts h new (some pdev) reg =
    let attached = attach e fuel complete looks opts new >>= λ c. some (enter_list h pdev reg c) in
    if already_open reg.slot pdev reg.ctrlr_head then some (none, reg) else attached

-- nvme_ctrlr_close
unfoldable pub close_found :
    Env → ℕ → ℕ → (ℕ → Bool) → Option ℕ × Registry → Option (Ret × Registry)
close_found e releases fuel complete (none, reg) = some (einval, reg)
close_found e releases fuel complete (some h, reg) =
    detach e releases fuel complete (reg.ctrlr h) >>= λ _. some (success, reg)

unfoldable pub ctrlr_close : Env → ℕ → ℕ → (ℕ → Bool) → ℕ → Registry → Option (Ret × Registry)
unfolding ctrlr_get close_found
ctrlr_close e releases fuel complete h reg =
    close_found e releases fuel complete (ctrlr_get h true reg)

-- nvme_ctrlr_cleanup: the first controller is removed and detached until there is none.
unfoldable pub cleanup_each : Env → ℕ → ℕ → (ℕ → Bool) → List ℕ → Registry → Option Registry
cleanup_each e releases fuel complete [] reg = some (record reg { ctrlr_head = [] })
cleanup_each e releases fuel complete (h ∷ hs) reg =
    detach e releases fuel complete (reg.ctrlr h) >>= λ _.
    cleanup_each e releases fuel complete hs (record reg { ctrlr_head = hs })

unfoldable pub ctrlr_cleanup : Env → ℕ → ℕ → (ℕ → Bool) → Registry → Option Registry
unfolding cleanup_each
ctrlr_cleanup e releases fuel complete reg =
    cleanup_each e releases fuel complete reg.ctrlr_head reg

-- nvme_ctrlr_stat, from the maximum transfer size on.
pub record CtrlrStat : Type 0 where
  pub max_xfer_size : ℕ
  pub features : ℕ → Bool
  pub log_pages : ℕ → Bool
  pub nr_ns : ℕ
  pub ns_ids : List ℕ
  pub max_io_qpairs : ℕ
  pub io_qpairs : ℕ
  pub enabled_io_qpairs : ℕ
  pub max_qd : ℕ

abbrev stat_of : Ctrlr → CtrlrStat
stat_of c = record {
  max_xfer_size = c.max_xfer_size;
  features = c.feature_supported;
  log_pages = c.log_page_supported;
  nr_ns = c.nr_ns;
  ns_ids = ids_from 1 c.nr_ns;
  max_io_qpairs = c.max_io_queues;
  io_qpairs = c.io_queues;
  enabled_io_qpairs = c.flags.enabled_io_qpairs;
  max_qd = c.io_qpairs_max_entries;
}

unfoldable pub ctrlr_stat : ℕ → Registry → Ret × Option CtrlrStat
unfolding ctrlr_get
ctrlr_stat h reg = elim ((ctrlr_get h false reg).0) [
  | none ↦ (einval, none)
  | some c ↦ (success, some (stat_of (reg.ctrlr c)))
]

-- nvme_ctrlr_data: the identify data and CAP.MQES.
unfoldable pub ctrlr_data : Env → ℕ → Registry → Ret × Option (CtrlrData × ℕ)
unfolding ctrlr_get
ctrlr_data e h reg = elim ((ctrlr_get h false reg).0) [
  | none ↦ (einval, none)
  | some c ↦ (success, some ((reg.ctrlr c).cdata, e.cap.mqes))
]
