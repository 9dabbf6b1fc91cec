-- ===== src/Admin.antt =====
-- lib/nvme/nvme_admin.c: an admin command is submitted on the admin queue pair, which is then polled
-- until the command's callback has run. `device` is what the controller does to the queue pair
-- between two polls. `status.done` is whether a callback with the address of `status` as argument
-- has run, and `status.cpl` the completion that it was given; a call starts with no call recorded.
pub mod Commands
pub mod Fields
pub mod Wait
mod Tests
use libnvme.Prelude.{
  ℕ, zero, suc, ◌+◌, ◌%◌, ◌^◌, Bool, true, false, Option, none, some, List, [], ◌∷◌, ◌++◌, ◌==◌,
  if◌then◌else◌, ◌>>=◌,
}
use libnvme.Types.{
  Cmd, Cpl, zero_cpl, cpl_is_error, Callback, user_cb, Qpair, Ret, success, enxio, einval, enomem,
}
use libnvme.Request.{set_req, request_allocate_contig, request_allocate_null}
use libnvme.Qpair.{Submit}
use libnvme.Qpair.Submit.{poll}

-- `ret == 0`
abbrev pub is_success : Ret → Bool
is_success success = true
is_success _ = false

-- Whether the callback with argument `status` has run, and with what.
unfoldable pub done : ℕ → List (ℕ × Cpl) → Option Cpl
done status [] = none
done status ((arg, cpl) ∷ calls) = if arg == status then some cpl else done status calls

-- The command of a request that was allocated, and its submission.
unfoldable pub send : Submit → Cmd → Qpair → Option (ℕ × Qpair) → Option (Ret × Qpair)
send submit cmd q none = some (enomem, q)
send submit cmd q (some (r, q')) = submit (set_req q' r (record (q'.reqs r) { cmd = cmd })) r

-- nvme_admin_submit_cmd
unfoldable pub admin_submit_cmd :
    Submit → Qpair → Cmd → Option ℕ → ℕ → Callback → ℕ → Option (Ret × Qpair)
unfolding send
admin_submit_cmd submit q cmd none len cb_fn cb_arg =
    send submit cmd q (request_allocate_null q cb_fn cb_arg)
admin_submit_cmd submit q cmd (some buf) len cb_fn cb_arg =
    send submit cmd q (request_allocate_contig q buf len cb_fn cb_arg)

-- What a command returns, with its completion where it has one.
abbrev pub AdminResult : Type 0
AdminResult = Ret × Cpl × Qpair

-- The result once the callback has run.
abbrev pub waited : Cpl → Qpair → AdminResult
waited cpl q = (if cpl_is_error cpl then enxio else success, cpl, q)

-- The calls that ran before are put back under the new ones.
abbrev pub with_calls : List (ℕ × Cpl) → AdminResult → AdminResult
with_calls calls (ret, cpl, q) = (ret, cpl, record q { calls = q.calls ++ calls })

module _ (vtophys : ℕ → ℕ) (sges : ℕ → ℕ → List (ℕ × ℕ)) (submit : Submit)
    (device : Qpair → Qpair) where
  -- nvme_admin_wait_cmd. Whether the loop ends is up to the controller; `fuel` bounds the polls.
  unfoldable pub admin_wait_cmd : ℕ → ℕ → Qpair → Option AdminResult
  unfolding done
  admin_wait_cmd zero status q = none
  admin_wait_cmd (suc fuel) status q =
      let again = poll vtophys sges submit (device q) 0 >>= λ r. admin_wait_cmd fuel status (r.1) in
      elim (done status q.calls) [ none ↦ again | some cpl ↦ some (waited cpl q) ]

  -- What follows the submission: the wait, or the error of the submission.
  unfoldable pub wait_submitted : ℕ → ℕ → Ret × Qpair → Option AdminResult
  unfolding admin_wait_cmd
  wait_submitted fuel status (ret, q) =
      if is_success ret then admin_wait_cmd fuel status q else some (ret, zero_cpl, q)

  -- nvme_admin_exec_cmd, and the same steps in nvme_admin_get_feature, nvme_admin_set_feature and
  -- nvme_admin_create_ns, which also read `status.cpl.cdw0`.
  unfoldable pub admin_exec_cmd : ℕ → ℕ → Cmd → Option ℕ → ℕ → Qpair → Option AdminResult
  unfolding wait_submitted admin_submit_cmd
  admin_exec_cmd fuel status cmd buf len q = do
    submitted ← admin_submit_cmd submit (record q { calls = [] }) cmd buf len user_cb status
    result ← wait_submitted fuel status submitted
    some (with_calls q.calls result)
