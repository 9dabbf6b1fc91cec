-- ===== src/Ctrlr/Qpairs/Tests.antt =====
-- Queue pairs handed out and taken back, and a queue in the controller memory buffer.
use libnvme.Prelude.{
  ℕ, ◌+◌, ◌*◌, ◌%◌, ◌≤◌, ◌≡◌, refl, true, Option, none, some, [], ◌∷◌, remove, arith,
}
use libnvme.Types.{success, cpl_is_error}
use libnvme.Request.{request_allocate_contig, request_allocate_null, request_free, run_cb}
use libnvme.Prp.{build_contig}
use libnvme.Qpair.{complete_tracker}
use libnvme.Qpair.Submit.{submit_request, reset, poll}
use libnvme.Qpair.Steady.{consumer_of}
use libnvme.Qpair.Submit.Poll.{IsSteady, Tracks}
use libnvme.Admin.{done, admin_exec_cmd}
use libnvme.Admin.Commands.{admin_create_ioq, admin_delete_ioq}
use libnvme.Ctrlr.{on_qpair}
use libnvme.Ctrlr.Cmb.{
  map_cmb, IsMapped, map_cmb-IsMapped, reserve_sq_in_cmb, IsPlaced, reserve_sq_in_cmb-IsPlaced,
}
use libnvme.Ctrlr.Qpairs.{construct_lists, ioqp_get, ioqp_release}
use libnvme.Ctrlr.Qpairs.Owners.{listed, ioqp_get-listed, ioqp_release-listed}
use libnvme.Ctrlr.Qpairs.Fresh.{construct_lists-IsSteady}
use libnvme.Ctrlr.Sample.{env, fresh, adminq, ctrlr_of}
use libnvme.Ctrlr.State.{Ctrlr}

-- A controller with two free queue pairs, and a memory buffer of 64 KB for submission queues.
abbrev with_free : Ctrlr
with_free = record (fresh true) {
  qpairs = λ id. record adminq { id = id; enabled = true };
  io_queues = 2;
  io_qpairs_max_entries = 64;
  free_io_qpairs = 1 ∷ 2 ∷ [];
  cmb_size = 65536;
  cmb_current_offset = 100;
}

abbrev got : Option (Option ℕ × Ctrlr)
got = ioqp_get env 0 0 with_free

abbrev handle_of : Option (Option ℕ × Ctrlr) → Option ℕ
handle_of none = none
handle_of (some r) = r.0

abbrev after : Option (Option ℕ × Ctrlr) → Ctrlr
after none = with_free
after (some r) = r.1

got_state :
    (handle_of got ≡ some 1)
    × ((after got).free_io_qpairs ≡ 2 ∷ [])
    × ((after got).active_io_qpairs ≡ 1 ∷ [])
    × (((after got).queues 1).entries ≡ 64)
unfolding ioqp_get on_qpair admin_exec_cmd admin_create_ioq request_allocate_contig
    request_allocate_null submit_request reset poll complete_tracker run_cb request_free remove
    cpl_is_error build_contig done
got_state = (refl, refl, refl, refl)

ioqp_get-listed_example : listed (after got) 2 ≡ listed with_free 2
unfolding ioqp_get on_qpair admin_exec_cmd admin_create_ioq request_allocate_contig
    request_allocate_null submit_request reset poll complete_tracker run_cb request_free remove
    cpl_is_error build_contig done
ioqp_get-listed_example = ioqp_get-listed env 0 0 with_free (some 1) (after got) 2 refl

abbrev with_active : Ctrlr
with_active = record with_free { free_io_qpairs = 2 ∷ []; active_io_qpairs = 1 ∷ [] }

abbrev released : Ctrlr
released = ctrlr_of with_active (ioqp_release env (some 1) with_active)

ioqp_release-listed_example : listed released 1 ≡ listed with_active 1
unfolding ioqp_release on_qpair admin_exec_cmd admin_delete_ioq request_allocate_contig
    request_allocate_null submit_request reset poll complete_tracker run_cb request_free remove
    cpl_is_error build_contig done
ioqp_release-listed_example =
    ioqp_release-listed env 1 with_active success released 1 (omega arith) refl

construct_lists-IsSteady_example :
    let new = record (construct_lists 0x100000 adminq) { enabled = true } in
    IsSteady new
    × Tracks 0 0 (consumer_of new)
    × (new.outstanding_tr ≡ [])
    × ((c : ℕ) → (new.tr c).prp_sgl_bus_addr % 4096 + 506 * 8 ≤ 4096)
construct_lists-IsSteady_example = construct_lists-IsSteady 0x100000 adminq (omega arith) refl

-- 64 entries take a page; the first page is partly taken.
abbrev placed : Ctrlr
placed = record with_free { cmb_current_offset = 8192 }

reserve_sq_in_cmb-IsPlaced_example : IsPlaced 100 65536 64 4096 8192
unfolding reserve_sq_in_cmb
reserve_sq_in_cmb-IsPlaced_example =
    reserve_sq_in_cmb-IsPlaced with_free placed 64 4096 (omega arith) (omega arith) refl

map_cmb-IsMapped_example : IsMapped 0x100000 (map_cmb env with_free)
map_cmb-IsMapped_example = map_cmb-IsMapped env with_free
