-- ===== src/Request.antt =====
-- lib/nvme/nvme_request.c: the request descriptors of a queue pair. `none` is a failed nvme_assert,
-- or the use of a NULL parent; nothing runs after it.
pub mod Frame
use libnvme.Prelude.{
  ℕ, zero, suc, ◌+◌, ◌-◌, ◌*◌, ◌%◌, Bool, false, Option, none, some, List, [], ◌∷◌, ◌++◌, ◌==◌,
  if◌then◌else◌, ◌>>=◌, remove, update,
}
use libnvme.Types.{
  Cmd, zero_cmd, Cpl, zero_cpl, cpl_is_error, Buffer, contig, Payload, Callback, no_cb, user_cb,
  complete_child_cb, Request, zero_request, Qpair,
}

abbrev pub set_req : Qpair → ℕ → Request → Qpair
set_req q r v = record q { reqs = update q.reqs r v }

-- nvme_request_pool_construct: `i` counts the requests inserted at the tail. NVME_IO_ENTRIES /
-- NVME_IO_TRACKERS is 8. (`req++` at the end of the body has no effect.)
unfoldable pub pool_fill : Qpair → ℕ → ℕ → Qpair
pool_fill q zero i = q
pool_fill q (suc n) i = pool_fill (record q { free_req = q.free_req ++ i ∷ [] }) n (i + 1)

unfoldable pub request_pool_construct : Qpair → Qpair
unfolding pool_fill
request_pool_construct q =
    pool_fill (record q { num_reqs = q.trackers * 8; reqs = λ _. zero_request }) (q.trackers * 8) 0

-- nvme_alloc_request: the head of the free list, its command zeroed.
unfoldable pub alloc_request : Qpair → Option (ℕ × Qpair)
alloc_request q = elim q.free_req [
  | [] ↦ none
  | r ∷ rest ↦
      some (r, set_req (record q { free_req = rest }) r (record (q.reqs r) { cmd = zero_cmd }))
]

-- nvme_request_allocate: all that stands before `children` is zeroed, then set.
unfoldable pub request_allocate : Qpair → Payload → ℕ → Callback → ℕ → Option (ℕ × Qpair)
unfolding alloc_request
request_allocate q payload payload_size cb_fn cb_arg = elim (alloc_request q) [
  | none ↦ none
  | some (r, q') ↦ some (
    r,
    set_req q' r (record (q'.reqs r) {
      cmd = zero_cmd;
      retries = 0;
      child_reqs = 0;
      payload_offset = 0;
      md_offset = 0;
      cb_fn = cb_fn;
      cb_arg = cb_arg;
      payload = payload;
      payload_size = payload_size;
    }),
  )
]

unfoldable pub request_allocate_contig : Qpair → ℕ → ℕ → Callback → ℕ → Option (ℕ × Qpair)
unfolding request_allocate
request_allocate_contig q buffer size cb_fn cb_arg =
    request_allocate q (record { buffer = contig buffer; md = none }) size cb_fn cb_arg

unfoldable pub request_allocate_null : Qpair → Callback → ℕ → Option (ℕ × Qpair)
unfolding request_allocate_contig
request_allocate_null q cb_fn cb_arg = request_allocate_contig q 0 0 cb_fn cb_arg

-- nvme_request_free
unfoldable pub request_free : Qpair → ℕ → Option Qpair
request_free q r =
    if (q.reqs r).child_reqs == 0 then some (record q { free_req = r ∷ q.free_req }) else none

-- nvme_request_add_child. `child_reqs` is a uint8_t.
unfoldable pub add_child : Qpair → ℕ → ℕ → Qpair
add_child q p c =
    let old = q.reqs p in
    let first =
      if old.child_reqs == 0
      then record old { children = []; parent = none; parent_status = zero_cpl }
      else old in
    let q' = set_req q p (record first {
      child_reqs = (first.child_reqs + 1) % 256;
      children = first.children ++ c ∷ [];
    }) in
    set_req q' c (record (q'.reqs c) { parent = some p; cb_fn = complete_child_cb; cb_arg = c })

-- `child->parent == parent`
unfoldable pub is_parent : Option ℕ → ℕ → Bool
is_parent none p = false
is_parent (some p') p = p' == p

-- nvme_request_remove_child
unfoldable pub remove_child : Qpair → ℕ → ℕ → Option Qpair
unfolding is_parent
remove_child q p c =
    let par = q.reqs p in
    if is_parent (q.reqs c).parent p
    then if par.child_reqs == 0
      then none
      else some (
          set_req q p
            (record par { child_reqs = par.child_reqs - 1; children = remove c par.children }))
    else none

-- nvme_request_cb_complete_child, with the parent's own callback as an argument.
unfoldable pub complete_child : (Qpair → ℕ → Cpl → Option Qpair) → Qpair → ℕ → Cpl → Option Qpair
unfolding remove_child request_free
complete_child run_parent_cb q c cpl = do
  p ← (q.reqs c).parent
  q1 ← remove_child q p c
  let par = q1.reqs p
  let q2 = if cpl_is_error cpl then set_req q1 p (record par { parent_status = cpl }) else q1
  if par.child_reqs == 0
      then (do q3 ← run_parent_cb q2 p (q2.reqs p).parent_status; request_free q3 p)
      else some q2

-- `if (req->cb_fn) req->cb_fn(req->cb_arg, cpl)`. `depth` bounds how deep parents nest; the caller's
-- callbacks are recorded and submit nothing here.
unfoldable pub run_cb : ℕ → Qpair → ℕ → Cpl → Option Qpair
unfolding complete_child
run_cb zero q r cpl = none
run_cb (suc depth) q r cpl = elim (q.reqs r).cb_fn [
  | no_cb ↦ some q
  | user_cb ↦ some (record q { calls = ((q.reqs r).cb_arg, cpl) ∷ q.calls })
  | complete_child_cb ↦ complete_child (run_cb depth) q (q.reqs r).cb_arg cpl
]
