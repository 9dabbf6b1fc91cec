-- ===== src/Ns/Commands.antt =====
-- lib/nvme/nvme_ns.c: the entry points of the I/O commands.
use Prim.Native.Nat.{bit_or}
use libnvme.Prelude.{
  ℕ, ◌-◌, ◌*◌, ◌/◌, ◌%◌, ◌^◌, Bool, ◌||◌, not, Option, none, some, ltb, ◌==◌, if◌then◌else◌,
}
use libnvme.Types.{Cmd, Buffer, contig, sgl, Callback, Qpair, Ret, enomem, einval}
use libnvme.Request.{set_req, request_allocate_contig, request_allocate_null}
use libnvme.Qpair.{Submit}
use libnvme.Ns.{Namespace, Transfer, ns_transfer}

abbrev transfer : ℕ → Buffer → Option ℕ → Callback → ℕ → ℕ → ℕ → ℕ → Transfer
transfer opc buffer md cb_fn cb_arg io_flags apptag_mask apptag = record {
  payload = record { buffer = buffer; md = md };
  cb_fn = cb_fn;
  cb_arg = cb_arg;
  opc = opc;
  io_flags = io_flags;
  apptag_mask = apptag_mask;
  apptag = apptag;
}

-- NVME_OPC_READ and NVME_OPC_WRITE
abbrev pub opc_read : ℕ
opc_read = 0x02

abbrev pub opc_write : ℕ
opc_write = 0x01

module _ (submit : Submit) (ns : Namespace) (q : Qpair) (cb_fn : Callback) (cb_arg : ℕ) where
  unfoldable pub ns_read : ℕ → ℕ → ℕ → ℕ → Option (Ret × Qpair)
  unfolding ns_transfer
  ns_read buffer lba lba_count io_flags =
      ns_transfer submit ns (transfer opc_read (contig buffer) none cb_fn cb_arg io_flags 0 0) q lba
        lba_count

  unfoldable pub ns_read_with_md : ℕ → Option ℕ → ℕ → ℕ → ℕ → ℕ → ℕ → Option (Ret × Qpair)
  unfolding ns_transfer
  ns_read_with_md buffer metadata lba lba_count io_flags apptag_mask apptag =
      ns_transfer submit ns
        (transfer opc_read (contig buffer) metadata cb_fn cb_arg io_flags apptag_mask apptag) q lba
        lba_count

  unfoldable pub ns_write : ℕ → ℕ → ℕ → ℕ → Option (Ret × Qpair)
  unfolding ns_transfer
  ns_write buffer lba lba_count io_flags =
      ns_transfer submit ns (transfer opc_write (contig buffer) none cb_fn cb_arg io_flags 0 0) q
        lba lba_count

  unfoldable pub ns_write_with_md : ℕ → Option ℕ → ℕ → ℕ → ℕ → ℕ → ℕ → Option (Ret × Qpair)
  unfolding ns_transfer
  ns_write_with_md buffer metadata lba lba_count io_flags apptag_mask apptag =
      ns_transfer submit ns
        (transfer opc_write (contig buffer) metadata cb_fn cb_arg io_flags apptag_mask apptag) q lba
        lba_count

  -- The scattered forms; `has_cbs` tells whether both SGL callbacks are given. Their argument is
  -- `cb_arg`.
  unfoldable pub ns_readv : Bool → ℕ → ℕ → ℕ → Option (Ret × Qpair)
  unfolding ns_transfer
  ns_readv has_cbs lba lba_count io_flags =
      if not has_cbs
      then some (einval, q)
      else ns_transfer submit ns (transfer opc_read (sgl cb_arg) none cb_fn cb_arg io_flags 0 0) q
          lba lba_count

  unfoldable pub ns_writev : Bool → ℕ → ℕ → ℕ → Option (Ret × Qpair)
  unfolding ns_transfer
  ns_writev has_cbs lba lba_count io_flags =
      if not has_cbs
      then some (einval, q)
      else ns_transfer submit ns (transfer opc_write (sgl cb_arg) none cb_fn cb_arg io_flags 0 0) q
          lba lba_count

  -- The command of an allocated request is set and the request submitted, or -ENOMEM returned.
  unfoldable pub submit_cmd : Option (ℕ × Qpair) → (Cmd → Cmd) → Option (Ret × Qpair)
  submit_cmd none fill = some (enomem, q)
  submit_cmd (some (r, q')) fill =
      submit (set_req q' r (record (q'.reqs r) { cmd = fill (q'.reqs r).cmd })) r

  unfoldable pub ns_write_zeroes : ℕ → ℕ → ℕ → Option (Ret × Qpair)
  unfolding submit_cmd
  ns_write_zeroes lba lba_count io_flags =
      if lba_count == 0
      then some (einval, q)
      else submit_cmd (request_allocate_null q cb_fn cb_arg) λ cmd. record cmd {
        opc = 0x08;
        nsid = ns.id;
        cdw10 = lba % 2 ^ 32;
        cdw11 = lba / 2 ^ 32;
        cdw12 = bit_or (lba_count - 1) io_flags;
      }

  -- A range has 16 bytes, NVME_DATASET_MANAGEMENT_MAX_RANGES is 256.
  unfoldable pub ns_deallocate : ℕ → ℕ → Option (Ret × Qpair)
  unfolding submit_cmd
  ns_deallocate payload ranges =
      if ranges == 0 || ltb 256 ranges
      then some (einval, q)
      else submit_cmd (request_allocate_contig q payload (ranges * 16) cb_fn cb_arg)
          λ cmd. record cmd { opc = 0x09; nsid = ns.id; cdw10 = ranges - 1; cdw11 = 0x4 }

  unfoldable pub ns_flush : Option (Ret × Qpair)
  unfolding submit_cmd
  ns_flush =
      submit_cmd (request_allocate_null q cb_fn cb_arg) λ cmd. record cmd { opc = 0; nsid = ns.id }

  -- `ignore_key ? 1 << 3 : 0`
  abbrev key_bit : Bool → ℕ
  key_bit ignore_key = if ignore_key then 8 else 0

  unfoldable pub ns_reservation_register : ℕ → Bool → ℕ → ℕ → Option (Ret × Qpair)
  unfolding submit_cmd
  ns_reservation_register payload ignore_key action cptpl =
      submit_cmd (request_allocate_contig q payload 16 cb_fn cb_arg) λ cmd. record cmd {
        opc = 0x0d;
        nsid = ns.id;
        cdw10 = bit_or (bit_or action (key_bit ignore_key)) (cptpl * 2 ^ 30 % 2 ^ 32);
      }

  unfoldable pub ns_reservation_release : ℕ → Bool → ℕ → ℕ → Option (Ret × Qpair)
  unfolding submit_cmd
  ns_reservation_release payload ignore_key action type =
      submit_cmd (request_allocate_contig q payload 8 cb_fn cb_arg) λ cmd. record cmd {
        opc = 0x15;
        nsid = ns.id;
        cdw10 = bit_or (bit_or action (key_bit ignore_key)) (type * 2 ^ 8 % 2 ^ 32);
      }

  unfoldable pub ns_reservation_acquire : ℕ → Bool → ℕ → ℕ → Option (Ret × Qpair)
  unfolding submit_cmd
  ns_reservation_acquire payload ignore_key action type =
      submit_cmd (request_allocate_contig q payload 16 cb_fn cb_arg) λ cmd. record cmd {
        opc = 0x11;
        nsid = ns.id;
        cdw10 = bit_or (bit_or action (key_bit ignore_key)) (type * 2 ^ 8 % 2 ^ 32);
      }

  unfoldable pub ns_reservation_report : ℕ → ℕ → Option (Ret × Qpair)
  unfolding submit_cmd
  ns_reservation_report payload len =
      if not (len % 4 == 0)
      then some (einval, q)
      else submit_cmd (request_allocate_contig q payload (len % 2 ^ 32) cb_fn cb_arg)
          λ cmd. record cmd { opc = 0x0e; nsid = ns.id; cdw10 = len / 4 % 2 ^ 32 }
