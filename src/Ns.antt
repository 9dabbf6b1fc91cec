-- ===== src/Ns.antt =====
-- lib/nvme/nvme_ns.c: the read and write commands of a namespace, and how a transfer is split at
-- stripe boundaries and at the largest transfer of the controller. The outer `none` is a failed
-- nvme_assert, or a loop that would not end: with a largest transfer of no sectors the loop of
-- _nvme_ns_split_request makes no progress.
pub mod Commands
pub mod Chunks
mod Tests
use Prim.Native.Nat.{bit_and, bit_or}
use libnvme.Prelude.{
  ℕ, zero, suc, ◌+◌, ◌*◌, ◌/◌, ◌%◌, ◌^◌, min, Bool, ◌&&◌, ◌||◌, not, Option, none, some, List, [],
  ◌∷◌, ltb, ◌==◌, if◌then◌else◌, ◌>>=◌, ◌-◌,
}
use libnvme.Types.{Cmd, Payload, Callback, Request, Qpair, Ret, enomem, contig, sgl}
use libnvme.Request.{set_req, request_allocate, request_free, add_child, remove_child}
use libnvme.Qpair.{Submit}

-- The fields of struct nvme_ns that the commands read. `pi` and `extended` are the flags
-- NVME_NS_DPS_PI_SUPPORTED and NVME_NS_EXTENDED_LBA_SUPPORTED.
pub record Namespace : Type 0 where
  pub id : ℕ
  pub sector_size : ℕ
  pub md_size : ℕ
  pub pi_type : ℕ
  pub sectors_per_max_io : ℕ
  pub sectors_per_stripe : ℕ
  pub pi : Bool
  pub extended : Bool

-- The arguments that _nvme_ns_rw and _nvme_ns_split_request pass on unchanged.
pub record Transfer : Type 0 where
  pub payload : Payload
  pub cb_fn : Callback
  pub cb_arg : ℕ
  pub opc : ℕ
  pub io_flags : ℕ
  pub apptag_mask : ℕ
  pub apptag : ℕ

-- The bytes of a sector in the buffer; NVME_IO_FLAGS_PRACT is bit 29.
unfoldable pub buffer_sector : Namespace → ℕ → ℕ
buffer_sector ns io_flags =
    if ns.pi && ns.extended && bit_and io_flags (2 ^ 29) == 0
    then (ns.sector_size + ns.md_size) % 2 ^ 32
    else ns.sector_size

-- The sectors of the next child: `per_io - (lba & mask)` in 32 bits, or what remains.
unfoldable pub chunk : ℕ → ℕ → ℕ → ℕ → ℕ
chunk per_io mask lba remaining =
    min remaining ((per_io + 2 ^ 64 - bit_and lba mask) % 2 ^ 64 % 2 ^ 32)

-- The command of a request that is not split.
unfoldable pub rw_cmd : Namespace → Transfer → ℕ → ℕ → Cmd → Cmd
rw_cmd ns t lba lba_count cmd = record cmd {
  opc = t.opc;
  nsid = ns.id;
  cdw10 = lba % 2 ^ 32;
  cdw11 = lba / 2 ^ 32;
  cdw12 = bit_or ((lba_count + 2 ^ 32 - 1) % 2 ^ 32) t.io_flags;
  cdw14 = if ns.pi && (ns.pi_type == 1 || ns.pi_type == 2) then lba % 2 ^ 32 else cmd.cdw14;
  cdw15 = bit_or (t.apptag_mask * 2 ^ 16 % 2 ^ 32) t.apptag;
}

-- The children of a parent that could not be completed are freed.
unfoldable pub free_children : Qpair → ℕ → List ℕ → Option Qpair
free_children q p [] = some q
free_children q p (c ∷ cs) = do
  q1 ← remove_child q p c
  q2 ← request_free q1 c
  free_children q2 p cs

unfoldable pub split_failed : Qpair → ℕ → Option (Option ℕ × Qpair)
unfolding free_children
split_failed q p =
    let l = if (q.reqs p).child_reqs == 0 then [] else (q.reqs p).children in
    free_children q p l >>= λ q'. some (none, q')

-- `child->payload_offset = offset`, and the metadata's where there is a separate buffer
unfoldable pub place_child : Qpair → ℕ → Option ℕ → ℕ → ℕ → Qpair
place_child q c md offset md_offset = set_req q c (record (q.reqs c) {
  payload_offset = offset;
  md_offset = elim md [ none ↦ (q.reqs c).md_offset | some _ ↦ md_offset ];
})

-- Building one request for a part of the transfer: _nvme_ns_rw, called from the loop.
abbrev pub MakeRequest : Type 0
MakeRequest = Qpair → ℕ → ℕ → Option (Option ℕ × Qpair)

-- What follows one call of _nvme_ns_rw in the loop.
unfoldable pub split_next :
    (Qpair → ℕ → Option (Option ℕ × Qpair)) → ℕ → Option ℕ × Qpair → Option (Option ℕ × Qpair)
unfolding split_failed
split_next go p (none, q) = split_failed q p
split_next go p (some c, q) = go q c

-- The loop of _nvme_ns_split_request. Each pass takes a sector at least, unless `per_io` is 0, so
-- as many passes as sectors suffice.
unfoldable pub split_loop :
    Namespace
    → Transfer
    → MakeRequest
    → ℕ
    → ℕ
    → ℕ
    → ℕ
    → Qpair
    → ℕ
    → ℕ
    → ℕ
    → ℕ
    → Option (Option ℕ × Qpair)
unfolding chunk place_child split_next
split_loop ns t make p per_io mask zero q lba remaining offset md_offset =
    if remaining == 0 then some (some p, q) else none
split_loop ns t make p per_io mask (suc n) q lba remaining offset md_offset =
    let count = chunk per_io mask lba remaining in
    let next = λ (q' : Qpair) (c : ℕ).
      split_loop ns t make p per_io mask n
        (add_child (place_child q' c t.payload.md offset md_offset) p c) ((lba + count) % 2 ^ 64)
        (remaining - count) ((offset + count * buffer_sector ns t.io_flags) % 2 ^ 32)
        ((md_offset + count * ns.md_size) % 2 ^ 32) in
    if remaining == 0 then some (some p, q) else make q lba count >>= split_next next p

-- The end of _nvme_ns_rw, with the request allocated at `r`.
unfoldable pub rw_request :
    Namespace → Transfer → MakeRequest → Qpair → ℕ → ℕ → ℕ → Option (Option ℕ × Qpair)
unfolding split_loop rw_cmd
rw_request ns t make q r lba lba_count =
    let stripe = ns.sectors_per_stripe in
    if not (stripe == 0) && ltb stripe (bit_and lba (stripe - 1) + lba_count)
    then split_loop ns t make r stripe (stripe - 1) lba_count q lba lba_count 0 0
    else if ltb ns.sectors_per_max_io lba_count
    then split_loop ns t make r ns.sectors_per_max_io 0 lba_count q lba lba_count 0 0
    else some
        (some r, set_req q r (record (q.reqs r) { cmd = rw_cmd ns t lba lba_count (q.reqs r).cmd }))

-- _nvme_ns_rw and, through `make`, _nvme_ns_split_request; `levels` bounds how deep they nest. The
-- inner `none` is NULL.
unfoldable pub ns_rw : ℕ → Namespace → Transfer → MakeRequest
unfolding rw_request buffer_sector
ns_rw zero ns t q lba lba_count = none
ns_rw (suc levels) ns t q lba lba_count =
    let allocated =
      request_allocate q t.payload (lba_count * buffer_sector ns t.io_flags % 2 ^ 32) t.cb_fn
        t.cb_arg in
    if not (t.io_flags % 2 ^ 16 == 0) then some (none, q) else elim allocated [
      | none ↦ some (none, q)
      | some (r, q') ↦ rw_request ns t (ns_rw levels ns t) q' r lba lba_count
    ]

-- What the entry points do with the request: submit it, or return -ENOMEM.
unfoldable pub submit_made : Submit → Option ℕ × Qpair → Option (Ret × Qpair)
submit_made submit (none, q) = some (enomem, q)
submit_made submit (some r, q) = submit q r

-- nvme_ns_read, nvme_ns_write, nvme_ns_readv, nvme_ns_writev and the variants with metadata, which
-- differ in the payload, the opcode and the application tags. A stripe, the largest transfer and
-- the command itself make three levels.
unfoldable pub ns_transfer : Submit → Namespace → Transfer → Qpair → ℕ → ℕ → Option (Ret × Qpair)
unfolding ns_rw submit_made
ns_transfer submit ns t q lba lba_count = ns_rw 3 ns t q lba lba_count >>= submit_made submit
