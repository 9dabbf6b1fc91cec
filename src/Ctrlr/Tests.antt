-- ===== src/Ctrlr/Tests.antt =====
-- nvme_ctrlr_init on a controller that is found enabled, or disabled.
use libnvme.Prelude.{
  ℕ, ◌+◌, ◌*◌, ◌≤◌, ◌≡◌, refl, Bool, true, false, some, List, [], ◌∷◌, remove, arith, ◌⊎◌,
}
use libnvme.Types.{cpl_is_error, success}
use libnvme.Request.{request_allocate_contig, request_allocate_null, request_free, run_cb}
use libnvme.Prp.{build_contig}
use libnvme.Qpair.{complete_tracker}
use libnvme.Qpair.Submit.{submit_request, reset, poll}
use libnvme.Admin.{is_success, done, admin_exec_cmd}
use libnvme.Admin.Commands.{
  admin_identify_ctrlr, admin_get_feature, admin_set_feature, admin_identify_ns,
}
use libnvme.Ctrlr.{on_qpair, ready_to_in_ms}
use libnvme.Ctrlr.Start.{on_feature, start}
use libnvme.Ctrlr.Init.{Look, init_step, init_loop, is_ready}
use libnvme.Ctrlr.Init.Control.{control, Fits, Step}
use libnvme.Ctrlr.Init.Steps.{init_step-Stepped}
use libnvme.Ctrlr.Init.Runs.{Toggles, init_step-Toggles, init_loop-ready}
use libnvme.Ctrlr.Init.Waiting.{so_far, call, Paced, last_time, loop-ends}
use libnvme.Ctrlr.State.{Ctrlr, disable_wait_for_ready_0, ready}
use libnvme.Ctrlr.Namespaces.{ns_open, ns_close}
use libnvme.Ctrlr.Namespaces.Handles.{opened, ns_open-ns_close}
use libnvme.Ctrlr.Sample.{env, fresh, ctrlr_of, ret_of, see}

-- The controller is found enabled and ready, and is disabled.
abbrev disabled : Ctrlr
unfolding init_step
disabled = ctrlr_of (fresh true) (init_step env (see true 100) (fresh true))

disabled_state :
    (disabled.state ≡ disable_wait_for_ready_0)
    × (disabled.cc.en ≡ false)
    × (disabled.state_timeout_ms ≡ some 10100)
unfolding init_step
disabled_state = (refl, refl, refl)

fresh-Fits : (en : Bool) → Fits (fresh en).state en
unfolding Fits
fresh-Fits en = tt

init_step-Stepped_example :
    ((is_success success ≡ true)
      × Step (ready_to_in_ms env.cap) true 100 (control (fresh true)) (control disabled))
    ⊎ ((is_success success ≡ false) × (control disabled ≡ control (fresh true)))
unfolding init_step
init_step-Stepped_example =
    init_step-Stepped env (see true 100) (fresh true) success disabled (fresh-Fits true) refl

init_step-Toggles_example : Fits disabled.state disabled.cc.en × Toggles true true disabled.cc.en
unfolding init_step
init_step-Toggles_example =
    init_step-Toggles env (see true 100) (fresh true) success disabled (fresh-Fits true) refl

-- Two looks after the first, at which nothing has changed.
loop-ends_example :
    last_time 100 (see true 900 ∷ see true 1700 ∷ []) ≤ 100 + 3 * (500 * 20) + 2 * 800
unfolding init_step Paced is_ready
loop-ends_example =
    loop-ends env 800 (see true 100) (see true 900 ∷ see true 1700 ∷ []) (fresh true) refl
      (omega arith, (omega arith, tt))
      (call (see true 100) (see true 900 ∷ see true 1700 ∷ []) (fresh true) disabled refl refl (
        call (see true 900) (see true 1700 ∷ []) disabled disabled refl refl
          (call (see true 1700) [] disabled disabled refl refl (so_far disabled))))

-- A disabled controller is enabled, is ready at the second look, and is started.
abbrev looks : List Look
looks = see false 100 ∷ see true 2100 ∷ []

abbrev started : Ctrlr
started = ctrlr_of (fresh false) (init_loop env looks (fresh false))

started_state :
    (ret_of (init_loop env looks (fresh false)) ≡ success)
    × (started.io_queues ≡ 4)
    × (started.max_xfer_size ≡ 131072)
    × (started.free_io_qpairs ≡ 1 ∷ 2 ∷ 3 ∷ 4 ∷ [])
unfolding init_loop start on_qpair on_feature admin_exec_cmd admin_identify_ctrlr admin_get_feature
    admin_set_feature admin_identify_ns request_allocate_contig request_allocate_null submit_request
    reset poll complete_tracker run_cb request_free remove cpl_is_error build_contig done
started_state = (refl, refl, refl, refl)

init_loop-ready_example : (started.state ≡ ready) × (started.cc.en ≡ true)
unfolding init_loop start on_qpair on_feature admin_exec_cmd admin_identify_ctrlr admin_get_feature
    admin_set_feature admin_identify_ns request_allocate_contig request_allocate_null submit_request
    reset poll complete_tracker run_cb request_free remove cpl_is_error build_contig done
init_loop-ready_example = init_loop-ready env looks (fresh false) started (fresh-Fits false) refl

abbrev one_namespace : Ctrlr
one_namespace = record (fresh true) { nr_ns = 1 }

ns_open-ns_close_example :
    let (handle, c1) = ns_open 1 one_namespace in
    let (ret, c2) = ns_close handle c1 in
    (handle ≡ some 1) × (ret ≡ success) × ((x : ℕ) → opened c2 x ≡ opened one_namespace x)
ns_open-ns_close_example =
    ns_open-ns_close 1 one_namespace (omega arith) (omega arith) (omega arith)
