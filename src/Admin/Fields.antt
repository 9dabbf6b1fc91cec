-- ===== src/Admin/Fields.antt =====
-- The fields of the commands that create a queue.
use Prim.Native.Nat.{bit_or}
use libnvme.Prelude.{◌+◌, ◌-◌, ◌*◌, ◌/◌, ◌%◌, ◌^◌, ◌≤◌, ◌<◌, ◌≡◌, refl, subst, arith}
use libnvme.Common.Fields.{bit_or-field}
use libnvme.Admin.Commands.{
  IoQueue, submission_queue, completion_queue, create_ioq_cmd, size_and_id,
}

-- A queue that nvme_admin_create_ioq can describe in its fields.
pub record IsDescribable (q : IoQueue) : Type 0 where
  pub some_entries : 0 < q.entries
  pub entries_16 : q.entries ≤ 2 ^ 16
  pub id_16 : q.id < 2 ^ 16
  pub prio_2 : q.qprio < 4

size_word : (q : IoQueue) → IsDescribable q → size_and_id q ≡ (q.entries - 1) * 2 ^ 16 + q.id
size_word q d =
    let w : (q.entries + 2 ^ 32 - 1) * 2 ^ 16 % 2 ^ 32 ≡ (q.entries - 1) * 2 ^ 16 =
      omega (arith, d.some_entries, d.entries_16) in
    rw w (bit_or-field 16 (q.entries - 1) q.id d.id_16)

-- The commands that create the two rings of a queue carry its size less one, its identifier and its
-- priority in their fields, and the bus addresses of the rings.
pub create_ioq_fields :
    (q : IoQueue)
    → IsDescribable q
    → let sq = create_ioq_cmd q submission_queue in
      let cq = create_ioq_cmd q completion_queue in
      (sq.cdw10 % 2 ^ 16 ≡ q.id)
      × (sq.cdw10 / 2 ^ 16 ≡ q.entries - 1)
      × (cq.cdw10 ≡ sq.cdw10)
      × (sq.cdw11 / 2 ^ 16 ≡ q.id)
      × (sq.cdw11 / 2 % 4 ≡ q.qprio)
      × (sq.cdw11 % 2 ≡ 1)
      × (sq.prp1 ≡ q.cmd_bus_addr)
      × (cq.prp1 ≡ q.cpl_bus_addr)
unfolding create_ioq_cmd
create_ioq_fields q d =
    let w = size_word q d in
    let v = flags_word in
    (
      omega (arith, w, d.id_16),
      omega (arith, w, d.id_16),
      refl,
      omega (arith, v, d.prio_2),
      omega (arith, v, d.prio_2),
      omega (arith, v, d.prio_2),
      refl,
      refl,
    )
  where
    high : q.id * 2 ^ 16 % 2 ^ 32 ≡ q.id * 2 ^ 16
    high = omega (arith, d.id_16)

    flags_word :
        bit_or (bit_or (q.id * 2 ^ 16 % 2 ^ 32) (q.qprio * 2)) 1 ≡ q.id * 2 ^ 16 + q.qprio * 2 + 1
    flags_word =
        rw (high, bit_or-field 16 q.id (q.qprio * 2) (omega (arith, d.prio_2)))
          (subst (λ x. bit_or x 1 ≡ x + 1) {x = (q.id * 2 ^ 15 + q.qprio) * 2 ^ 1} (omega arith)
            (bit_or-field 1 (q.id * 2 ^ 15 + q.qprio) 1 (omega arith)))
