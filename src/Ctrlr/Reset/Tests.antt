-- ===== src/Ctrlr/Reset/Tests.antt =====
-- A reset of a controller that is up, and a controller that does not become ready in time.
use libnvme.Prelude.{◌≡◌, refl, true, false, some, List, [], ◌∷◌, remove, update}
use libnvme.Types.{cpl_is_error, no_cb, complete_child_cb}
use libnvme.Request.{request_allocate_contig, request_allocate_null, request_free, run_cb}
use libnvme.Prp.{build_contig}
use libnvme.Qpair.{complete_tracker}
use libnvme.Qpair.Submit.{submit_request, reset, poll}
use libnvme.Admin.{done, admin_exec_cmd}
use libnvme.Admin.Commands.{
  admin_identify_ctrlr, admin_get_feature, admin_set_feature, admin_identify_ns,
}
use libnvme.Ctrlr.{on_qpair}
use libnvme.Ctrlr.Init.Failing.{PlainOn}
use libnvme.Ctrlr.Init.{Look, all_qpairs, init_loop}
use libnvme.Ctrlr.Init.Expiry.{Awaits, WaitResult, init_step-times_out}
use libnvme.Ctrlr.Reset.{reset_ctrlr}
use libnvme.Ctrlr.Reset.Outcome.{IsUp, reset_ctrlr-IsUp}
use libnvme.Ctrlr.Sample.{adminq, env, fresh, ctrlr_of, see}
use libnvme.Ctrlr.Start.{start, on_feature}
use libnvme.Ctrlr.State.{Ctrlr, ready, enable_wait_for_ready_1}

-- The controller is ready; the reset disables it, waits, enables it and starts it.
abbrev up : Ctrlr
up = record (fresh true) { state = ready }

abbrev looks : List Look
looks = see true 100 ∷ see false 300 ∷ see true 2300 ∷ []

abbrev again : Ctrlr
again = ctrlr_of up (reset_ctrlr env 4 looks up)

reset_ctrlr-IsUp_example : IsUp again
unfolding reset_ctrlr init_loop start on_qpair on_feature admin_exec_cmd admin_identify_ctrlr
    admin_get_feature admin_set_feature admin_identify_ns request_allocate_contig
    request_allocate_null submit_request reset poll complete_tracker run_cb request_free remove
    cpl_is_error build_contig done
reset_ctrlr-IsUp_example = reset_ctrlr-IsUp env 4 looks up again refl refl refl

-- Ten seconds have passed since the controller was enabled; a request is queued and one outstanding.
abbrev late : Ctrlr
late = record (fresh true) {
  state = enable_wait_for_ready_1;
  state_timeout_ms = some 10100;
  qpairs = λ _. record adminq {
    tr = update adminq.tr 2 (record (adminq.tr 2) { req = some 1; active = true });
    free_tr = 0 ∷ 1 ∷ [];
    outstanding_tr = 2 ∷ [];
    free_req = 3 ∷ [];
    queued_req = 2 ∷ [];
  };
}

-- No request is split.
late-PlainOn : PlainOn (all_qpairs late) late
late-PlainOn id h r = (refl, λ e. absurd (differ e))
  where
    differ : no_cb ≡ complete_child_cb → ⊥
    differ e = cc

init_step-times_out_example : WaitResult env (see false 10101) late 10100
unfolding Awaits
init_step-times_out_example =
    init_step-times_out env (see false 10101) late 10100 refl refl late-PlainOn
