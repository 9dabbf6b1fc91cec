-- ===== src/Ctrlr/Namespaces.antt =====
-- The namespaces of a controller: lib/nvme/nvme_ns.c where it identifies, opens and closes them, and
-- nvme_ctrlr_construct_namespaces of lib/nvme/nvme_ctrlr.c. A handle is the identifier of the
-- namespace, or NULL. A format's `lbads` is below 31, since the code shifts an int by it.
pub mod Handles
use libnvme.Prelude.{
  ℕ, zero, suc, ◌+◌, ◌-◌, ◌*◌, ◌/◌, ◌%◌, ◌^◌, false, ◌&&◌, ◌||◌, not, Option, none, some, ltb, ◌==◌,
  if◌then◌else◌, ◌>>=◌, update,
}
use libnvme.Types.{Ret, success, einval, failure}
use libnvme.Qpair.{Submit}
use libnvme.Qpair.Submit.{submit_request}
use libnvme.Admin.{is_success, admin_exec_cmd}
use libnvme.Admin.Commands.{Exec, admin_identify_ns}
use libnvme.Ctrlr.{on_qpair}
use libnvme.Ctrlr.State.{Ctrlr, CtrlrData, NsData, NsHandle, Env}

-- nvme_qpair_submit_request and nvme_admin_exec_cmd, in the environment.
abbrev pub submit_of : Env → Submit
submit_of e = submit_request e.vtophys e.sges e.fuel

abbrev pub exec_of : Env → Exec
exec_of e = admin_exec_cmd e.vtophys e.sges (submit_of e) e.device e.fuel e.status

-- The fields that nvme_ns_identify_update fills, from the controller's and the namespace's data.
unfoldable pub identified_namespace : CtrlrData → ℕ → NsData → NsHandle → NsHandle
identified_namespace cdata max_xfer_size d h =
    let format = d.lbaf d.format in
    let sector_size = 2 ^ format.lbads in
    let pi = not (format.ms == 0) && not (d.pit == 0) in
    record h {
      ns = record h.ns {
        sector_size = sector_size;
        md_size = format.ms;
        pi_type = if pi then d.pit else 0;
        sectors_per_max_io = max_xfer_size / sector_size;
        sectors_per_stripe = h.stripe_size / sector_size;
        pi = pi;
        extended = pi && d.extended;
      };
      deallocate = cdata.oncs_dsm;
      flush = cdata.vwc_present;
      write_zeroes = cdata.oncs_write_zeroes;
      reservation = not (d.nsrescap == 0);
    }

-- nvme_ns_identify_update
unfoldable pub ns_identify_update : Env → ℕ → Ctrlr → Option (Ret × Ctrlr)
unfolding identified_namespace
ns_identify_update e id c = do
  (ret, c1) ← on_qpair c 0 (admin_identify_ns (exec_of e) id e.buffer)
  let d = e.identified_ns id
  let c2 = record c1 {
    nsdata = update c1.nsdata id d;
    ns = update c1.ns id (identified_namespace c1.cdata c1.max_xfer_size d (c1.ns id));
  }
  some (if is_success ret then (success, c2) else (ret, c1))

-- The stripe size of nvme_ns_construct: INTEL_DC_P3X00_DEVID is 0x09538086.
unfoldable pub stripe_size_of : ℕ → CtrlrData → ℕ → ℕ
stripe_size_of pci_devid cdata min_page_size =
    if pci_devid == 0x09538086 && not (cdata.vs_3 == 0)
    then 2 ^ cdata.vs_3 * min_page_size % 2 ^ 32
    else 0

-- nvme_ns_construct
unfoldable pub ns_construct : Env → ℕ → Ctrlr → Option (Ret × Ctrlr)
unfolding ns_identify_update stripe_size_of
ns_construct e id c =
    let h = c.ns id in
    ns_identify_update e id (record c {
      ns = update c.ns id (record h {
        ns = record h.ns { id = id };
        stripe_size = stripe_size_of e.pci_devid c.cdata c.min_page_size;
      });
    })

-- nvme_ctrlr_destruct_namespaces; without namespaces there is nothing to free.
unfoldable pub destruct_namespaces : Ctrlr → Ctrlr
destruct_namespaces c = record c { nr_ns = 0 }

-- What calloc gives for a namespace.
abbrev pub zero_handle : NsHandle
zero_handle = record {
  ns = record {
    id = 0;
    sector_size = 0;
    md_size = 0;
    pi_type = 0;
    sectors_per_max_io = 0;
    sectors_per_stripe = 0;
    pi = false;
    extended = false;
  };
  stripe_size = 0;
  deallocate = false;
  flush = false;
  write_zeroes = false;
  reservation = false;
  open_count = 0;
}

-- The loop of nvme_ctrlr_construct_namespaces, with `n` namespaces left, the next being `id`.
unfoldable pub construct_each : Env → ℕ → ℕ → Ctrlr → Option (Ret × Ctrlr)
unfolding ns_construct destruct_namespaces
construct_each e zero id c = some (success, c)
construct_each e (suc n) id c = do
  (ret, c1) ← ns_construct e id c
  let rest = construct_each e n (id + 1) c1
  if is_success ret then rest else some (failure, destruct_namespaces c1)

-- nvme_ctrlr_construct_namespaces
unfoldable pub construct_namespaces : Env → Ctrlr → Option (Ret × Ctrlr)
unfolding construct_each destruct_namespaces
construct_namespaces e c =
    if c.cdata.nn == c.nr_ns
    then construct_each e c.cdata.nn 1 c
    else if e.memory
    then construct_each e c.cdata.nn 1 (record c { nr_ns = c.cdata.nn; ns = λ _. zero_handle })
    else some (failure, destruct_namespaces c)

-- nvme_ns_open
unfoldable pub ns_open : ℕ → Ctrlr → Option ℕ × Ctrlr
ns_open id c =
    if ltb 0 id && ltb id (c.nr_ns + 1)
    then (
      some id,
      record c {
        ns = update c.ns id (record (c.ns id) { open_count = ((c.ns id).open_count + 1) % 2 ^ 32 });
      },
    )
    else (none, c)

-- nvme_ns_ctrlr_lock: whether the handle is that of an open namespace.
unfoldable pub ns_ctrlr_lock : Option ℕ → Ctrlr → Option ℕ
ns_ctrlr_lock none c = none
ns_ctrlr_lock (some id) c =
    if ltb id 1 || ltb c.nr_ns id || (c.ns id).open_count == 0 then none else some id

-- nvme_ns_close
unfoldable pub ns_close : Option ℕ → Ctrlr → Ret × Ctrlr
unfolding ns_ctrlr_lock
ns_close handle c = elim (ns_ctrlr_lock handle c) [
  | none ↦ (einval, c)
  | some id ↦ (
    success,
    record c { ns = update c.ns id (record (c.ns id) { open_count = (c.ns id).open_count - 1 }) },
  )
]

-- nvme_ns_stat: the handle and the number of sectors, from which the caller's structure is filled.
unfoldable pub ns_stat : Option ℕ → Ctrlr → Ret × Option (NsHandle × ℕ)
unfolding ns_ctrlr_lock
ns_stat handle c = elim (ns_ctrlr_lock handle c) [
  | none ↦ (einval, none)
  | some id ↦ (success, some (c.ns id, (c.nsdata id).nsze))
]

-- nvme_ns_data
unfoldable pub ns_data : Option ℕ → Ctrlr → Ret × Option NsData
unfolding ns_ctrlr_lock
ns_data handle c = elim (ns_ctrlr_lock handle c) [
  | none ↦ (einval, none)
  | some id ↦ (success, some (c.nsdata id))
]
