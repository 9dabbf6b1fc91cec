-- ===== src/Ctrlr/Qpairs.antt =====
-- The I/O queue pairs of a controller: nvme_qpair_construct and nvme_qpair_destroy of
-- lib/nvme/nvme_qpair.c, and the functions of lib/nvme/nvme_ctrlr.c that create, delete, hand out
-- and take back queue pairs. A handle is the identifier of the queue pair.
pub mod Lists
pub mod Created
pub mod Owners
pub mod Fresh
mod Tests
use libnvme.Prelude.{
  ℕ, zero, suc, ◌+◌, ◌-◌, ◌*◌, ◌%◌, ◌^◌, min, Bool, true, false, ◌&&◌, ◌||◌, not, Option, none,
  some, List, [], ◌∷◌, ◌++◌, ltb, ◌==◌, if◌then◌else◌, ◌>>=◌, update, remove,
}
use libnvme.Types.{Cmd, zero_cmd, zero_cpl, Callback, Tracker, Qpair, Ret, success, enomem, failure}
use libnvme.Request.{set_req, request_allocate_contig, request_pool_construct}
use libnvme.Qpair.{Submit, manual_complete_tracker}
use libnvme.Qpair.Submit.{poll, reset}
use libnvme.Admin.{is_success, send}
use libnvme.Admin.Commands.{
  IoQueue, IoQueueType, submission_queue, completion_queue, admin_create_ioq, admin_delete_ioq,
}
use libnvme.Ctrlr.{on_qpair, load, store}
use libnvme.Ctrlr.Namespaces.{submit_of, exec_of}
use libnvme.Ctrlr.Cmb.{reserve_sq_in_cmb}
use libnvme.Ctrlr.State.{Ctrlr, Env}

-- nvme_qpair_construct_tracker: a tracker has 4096 bytes, with its PRP list 40 bytes in.
abbrev pub construct_tracker : ℕ → ℕ → Tracker
construct_tracker phys_addr cid = record {
  req = none;
  cid = cid;
  active = false;
  prp_sgl_bus_addr = phys_addr + cid * 4096 + 40;
  prp = λ _. 0;
}

-- The trackers below `n`, each inserted at the head.
unfoldable pub inserted_trackers : ℕ → List ℕ
inserted_trackers zero = []
inserted_trackers (suc n) = n ∷ inserted_trackers n

-- Where the submission queue goes: in the controller memory buffer where there is room.
unfoldable pub placed_sq : Option ℕ → Ctrlr → Option (ℕ × Ctrlr) → Option ℕ × Ctrlr
placed_sq in_memory c none = (in_memory, c)
placed_sq in_memory c (some (offset, c1)) = (some (c1.cmb_bar_phys_addr + offset), c1)

unfoldable pub place_sq : Env → ℕ → Ctrlr → Option ℕ × Ctrlr
unfolding reserve_sq_in_cmb placed_sq
place_sq e entries c =
    let in_memory = e.mem_alloc (64 * entries) 4096 in
    if c.opts.use_cmb_sqs
    then placed_sq in_memory c (reserve_sq_in_cmb c entries)
    else (in_memory, c)

-- The first assignments of nvme_qpair_construct.
abbrev pub begin_construct : ℕ → ℕ → ℕ → ℕ → Ctrlr → Ctrlr
begin_construct id qprio entries trackers c = record c {
  qpairs = update c.qpairs id (record (c.qpairs id) { entries = entries; trackers = trackers });
  queues = update c.queues id (record (c.queues id) { entries = entries; qprio = qprio });
  constructed = update c.constructed id true;
}

abbrev pub set_rings : ℕ → ℕ → ℕ → Ctrlr → Ctrlr
set_rings id sq cq c = record c {
  queues = update c.queues id (record (c.queues id) { cmd_bus_addr = sq; cpl_bus_addr = cq });
}

-- The zeroed rings, the request pool and the trackers at `phys_addr`.
unfoldable pub construct_lists : ℕ → Qpair → Qpair
unfolding inserted_trackers reset
construct_lists phys_addr q =
    let q1 = request_pool_construct (record q {
      cmd = λ _. zero_cmd;
      cpl = λ _. zero_cpl;
      free_req = [];
      queued_req = [];
      outstanding_tr = [];
    }) in
    reset (record q1 { tr = construct_tracker phys_addr; free_tr = inserted_trackers q.trackers })

-- The steps of nvme_qpair_construct after the assertions, each on what the one before allocated.
unfoldable pub with_trackers : ℕ → Option ℕ → Ctrlr → Ret × Ctrlr
unfolding construct_lists
with_trackers id none c = (failure, c)
with_trackers id (some phys_addr) c =
    (success, record c { qpairs = update c.qpairs id (construct_lists phys_addr (c.qpairs id)) })

unfoldable pub with_cq : Env → ℕ → ℕ → ℕ → Option ℕ → Ctrlr → Ret × Ctrlr
unfolding with_trackers
with_cq e id trackers sq none c = (failure, c)
with_cq e id trackers sq (some cq) c =
    with_trackers id (if e.memory then e.mem_alloc (4096 * trackers) 4096 else none)
      (set_rings id sq cq c)

unfoldable pub with_sq : Env → ℕ → ℕ → ℕ → Option ℕ × Ctrlr → Ret × Ctrlr
unfolding with_cq
with_sq e id entries trackers (none, c) = (failure, c)
with_sq e id entries trackers (some sq, c) =
    with_cq e id trackers sq (e.mem_alloc (16 * entries) 4096) c

unfoldable pub construct_qpair : Env → ℕ → ℕ → ℕ → ℕ → Ctrlr → Option (Ret × Ctrlr)
unfolding place_sq with_sq
construct_qpair e id qprio entries trackers c =
    if entries == 0 || trackers == 0
    then none
    else some (
        with_sq e id entries trackers
          (place_sq e entries (begin_construct id qprio entries trackers c)))

-- nvme_ctrlr_create_qpair; without a submission queue the completion queue is deleted again.
abbrev pub admin_ioq : Env → ℕ → IoQueueType → Ctrlr → Option (Ret × Ctrlr)
admin_ioq e id type c = on_qpair c 0 (admin_create_ioq (exec_of e) (c.queues id) type)

abbrev admin_no_ioq : Env → ℕ → IoQueueType → Ctrlr → Option (Ret × Ctrlr)
admin_no_ioq e id type c = on_qpair c 0 (admin_delete_ioq (exec_of e) id type)

abbrev reset_qpair : ℕ → Ctrlr → Ctrlr
reset_qpair id c = record c { qpairs = update c.qpairs id (reset (c.qpairs id)) }

unfoldable pub create_sq : Env → ℕ → Ctrlr → Option (Ret × Ctrlr)
create_sq e id c = do
  (ret, c1) ← admin_ioq e id submission_queue c
  let undone = admin_no_ioq e id completion_queue c1 >>= λ r. some (ret, r.1)
  if is_success ret then some (success, reset_qpair id c1) else undone

unfoldable pub create_qpair : Env → ℕ → Ctrlr → Option (Ret × Ctrlr)
unfolding create_sq
create_qpair e id c = do
  (ret, c1) ← admin_ioq e id completion_queue c
  let rest = create_sq e id c1
  if is_success ret then rest else some (ret, c1)

-- nvme_ctrlr_delete_qpair
unfoldable pub delete_qpair : Env → ℕ → Ctrlr → Option (Ret × Ctrlr)
delete_qpair e id c = do
  (ret, c1) ← admin_no_ioq e id submission_queue c
  let rest = admin_no_ioq e id completion_queue c1
  if is_success ret then rest else some (ret, c1)

-- The queue depth that nvme_ioqp_get settles on: the largest one for 0 and beyond it.
unfoldable pub queue_depth : ℕ → ℕ → ℕ
queue_depth max_entries qd = if qd == 0 || ltb max_entries qd then max_entries else qd

-- What nvme_ioqp_get refuses: a priority that is none, one that is not NVME_QPRIO_URGENT with round
-- robin arbitration, and a depth of 1.
unfoldable pub get_refused : ℕ → ℕ → Ctrlr → Bool
get_refused qprio qd c = ltb 3 qprio || (c.cc.ams == 0 && not (qprio == 0)) || qd == 1

-- A queue pair that the controller has is moved to the active ones.
abbrev pub activate : ℕ → Ret × Ctrlr → Option ℕ × Ctrlr
activate id (ret, c) =
    if is_success ret
    then (
      some id,
      record c {
        free_io_qpairs = remove id c.free_io_qpairs;
        active_io_qpairs = c.active_io_qpairs ++ id ∷ [];
      },
    )
    else (none, c)

-- NVME_IO_TRACKERS is 128.
unfoldable pub get_first : Env → ℕ → ℕ → ℕ → Ctrlr → Option (Option ℕ × Ctrlr)
unfolding construct_qpair create_qpair remove
get_first e qprio qd id c = do
  (ret, c1) ← construct_qpair e id qprio qd (min 128 (qd - 1)) c
  let created = create_qpair e id c1 >>= λ r. some (activate id r)
  if is_success ret then created else some (none, c1)

-- nvme_ioqp_get
unfoldable pub get_from : Env → ℕ → ℕ → List ℕ → Ctrlr → Option (Option ℕ × Ctrlr)
unfolding get_first queue_depth
get_from e qprio qd [] c = some (none, c)
get_from e qprio qd (id ∷ _) c = get_first e qprio (queue_depth c.io_qpairs_max_entries qd) id c

unfoldable pub ioqp_get : Env → ℕ → ℕ → Ctrlr → Option (Option ℕ × Ctrlr)
unfolding get_refused get_from
ioqp_get e qprio qd c =
    if get_refused qprio qd c then some (none, c) else get_from e qprio qd c.free_io_qpairs c

-- nvme_ioqp_release
abbrev pub deactivate : ℕ → Ctrlr → Ctrlr
deactivate id c = record c {
  active_io_qpairs = remove id c.active_io_qpairs;
  free_io_qpairs = id ∷ c.free_io_qpairs;
}

unfoldable pub release_active : Env → ℕ → Ctrlr → Option (Ret × Ctrlr)
unfolding delete_qpair
release_active e id c = do
  (ret, c1) ← delete_qpair e id c
  some (if is_success ret then (success, deactivate id c1) else (ret, c1))

unfoldable pub ioqp_release : Env → Option ℕ → Ctrlr → Option (Ret × Ctrlr)
unfolding release_active
ioqp_release e none c = some (success, c)
ioqp_release e (some id) c = release_active e id c

-- nvme_ioqp_submit_cmd
unfoldable pub ioqp_submit_cmd : Env → ℕ → Cmd → ℕ → ℕ → Callback → ℕ → Ctrlr → Option (Ret × Ctrlr)
ioqp_submit_cmd e id cmd buf len cb_fn cb_arg c =
    on_qpair c id (λ q. send (submit_of e) cmd q (request_allocate_contig q buf len cb_fn cb_arg))

-- nvme_ioqp_poll
unfoldable pub ioqp_poll : Env → ℕ → ℕ → Ctrlr → Option (ℕ × Ctrlr)
ioqp_poll e id max_completions c =
    on_qpair c id (λ q. poll e.vtophys e.sges (submit_of e) q max_completions)
