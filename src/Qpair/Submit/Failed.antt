-- ===== src/Qpair/Submit/Failed.antt =====
-- A failed controller stays failed while its queue pairs are failed.
use libnvme.Prelude.{
  ℕ, zero, suc, ◌≡◌, ap, ◌∙◌, Bool, true, false, Option, none, some, List, [], ◌∷◌, if◌then◌else◌,
  ◌>>=◌, remove, update,
}
use libnvme.Types.{Cpl, Qpair, Ret, enxio}
use libnvme.Common.Results.{AllSome, bind-AllSome, then-AllSome, if-AllSome, to-AllSome}
use libnvme.Request.{request_free, run_cb}
use libnvme.Request.Frame.{core, core-request_free, core-run_cb}
use libnvme.Qpair.{
  Submit, depth, clear_active, submit_tracker, release_tracker, wants_retry, retry_request,
  finish_request, complete_request, complete_tracker, manual_complete_tracker,
  manual_complete_request, abort_queued, abort_outstanding, ensure_enabled, fail_qpair,
}
use libnvme.Qpair.Submit.{submit_ready, submit_step, submit_request}

-- The controller has failed.
abbrev pub HasFailed : Qpair → Type 0
HasFailed q = q.ctrlr.failed ≡ true

-- What leaves the queue pair but for its requests alone.
core-HasFailed : (q q' : Qpair) → core q' ≡ core q → HasFailed q → HasFailed q'
core-HasFailed q q' e h = ap (λ (q : Qpair). q.ctrlr.failed) e ∙ h

request_free-HasFailed : (q : Qpair) (r : ℕ) → HasFailed q → AllSome HasFailed (request_free q r)
request_free-HasFailed q r h =
    to-AllSome HasFailed (request_free q r)
      (λ q' e. core-HasFailed q q' (core-request_free q r e) h)

run_cb-HasFailed :
    (n : ℕ) (q : Qpair) (r : ℕ) (cpl : Cpl) → HasFailed q → AllSome HasFailed (run_cb n q r cpl)
run_cb-HasFailed n q r cpl h =
    to-AllSome HasFailed (run_cb n q r cpl)
      (λ q' e. core-HasFailed q q' (core-run_cb n q r cpl q' e) h)

-- The nested submissions leave a failed controller failed.
abbrev pub StaysFailed : Submit → Type 0
StaysFailed submit =
    (q : Qpair) (r : ℕ) → HasFailed q → AllSome (λ (x : Ret × Qpair). HasFailed (x.1)) (submit q r)

module _ (submit : Submit) (stays : StaysFailed submit) where
  release_tracker-HasFailed :
      (q : Qpair) (t : ℕ) → HasFailed q → AllSome HasFailed (release_tracker submit q t)
  unfolding release_tracker AllSome
  release_tracker-HasFailed q t h = go q.queued_req
    where
      q' : Qpair
      q' = record q {
        tr = update q.tr t (record (q.tr t) { req = none });
        outstanding_tr = remove t q.outstanding_tr;
        free_tr = t ∷ remove t q.free_tr;
      }

      go :
          (l : List ℕ)
          → AllSome HasFailed (elim l [
            | [] ↦ some q'
            | r ∷ rest ↦
                if q.ctrlr.resetting
                then some q'
                else submit (record q' { queued_req = rest }) r >>= λ res. some (res.1)
          ])
      go [] = h
      go (r ∷ rest) = if-AllSome HasFailed q.ctrlr.resetting (some q') _ h (
          bind-AllSome (λ (x : Ret × Qpair). HasFailed (x.1)) HasFailed
            (submit (record q' { queued_req = rest }) r) (λ (res : Ret × Qpair). some (res.1))
            (stays (record q' { queued_req = rest }) r h) (λ x p. p))

  finish_request-HasFailed :
      (q : Qpair) (t r : ℕ) (cpl : Cpl)
      → HasFailed q
      → AllSome HasFailed (finish_request submit q t r cpl)
  unfolding finish_request
  finish_request-HasFailed q t r cpl h =
      bind-AllSome HasFailed HasFailed (run_cb depth q r cpl) _ (run_cb-HasFailed depth q r cpl h)
        (λ q1 h1.
          bind-AllSome HasFailed HasFailed (request_free q1 r) _ (request_free-HasFailed q1 r h1)
            (λ q2 h2. release_tracker-HasFailed q2 t h2))

  retry_request-HasFailed :
      (q : Qpair) (t r : ℕ) → HasFailed q → AllSome HasFailed (retry_request q t r)
  unfolding retry_request submit_tracker AllSome
  retry_request-HasFailed q t r h = then-AllSome HasFailed (q.tr t).req _ (λ r. h)

  complete_tracker-HasFailed :
      (q : Qpair) (t : ℕ) (cpl : Cpl)
      → HasFailed q
      → AllSome HasFailed (complete_tracker submit q t cpl)
  unfolding complete_tracker complete_request
  complete_tracker-HasFailed q t cpl h = go (q.tr t).req
    where
      q' : Qpair
      q' = clear_active q cpl.cid

      go :
          (o : Option ℕ)
          → AllSome HasFailed (elim o [
            | none ↦ release_tracker submit q' t
            | some r ↦ complete_request submit q t r cpl
          ])
      go none = release_tracker-HasFailed q' t h
      go (some r) =
          if-AllSome HasFailed (wants_retry q r cpl) (retry_request q' t r)
            (finish_request submit q' t r cpl) (retry_request-HasFailed q' t r h)
            (finish_request-HasFailed q' t r cpl h)

  abort_outstanding-HasFailed :
      (dnr : ℕ) (q : Qpair) (l : List ℕ)
      → HasFailed q
      → AllSome HasFailed (abort_outstanding submit dnr q l)
  unfolding abort_outstanding manual_complete_tracker AllSome
  abort_outstanding-HasFailed dnr q [] h = h
  abort_outstanding-HasFailed dnr q (t ∷ l) h =
      bind-AllSome HasFailed HasFailed (complete_tracker submit q t _) _
        (complete_tracker-HasFailed q t _ h) (λ q' h'. abort_outstanding-HasFailed dnr q' l h')

  abort_queued-HasFailed :
      (q : Qpair) (l : List ℕ) → HasFailed q → AllSome HasFailed (abort_queued q l)
  unfolding abort_queued manual_complete_request AllSome
  abort_queued-HasFailed q [] h = h
  abort_queued-HasFailed q (r ∷ l) h =
      bind-AllSome HasFailed HasFailed (manual_complete_request (record q { queued_req = l }) r 0 _)
        _
        (bind-AllSome HasFailed HasFailed (run_cb depth (record q { queued_req = l }) r _) _
          (run_cb-HasFailed depth (record q { queued_req = l }) r _ h)
          (λ q1 h1. request_free-HasFailed q1 r h1))
        (λ q' h'. abort_queued-HasFailed q' l h')

  pub fail_qpair-HasFailed : (q : Qpair) → HasFailed q → AllSome HasFailed (fail_qpair submit q)
  unfolding fail_qpair
  fail_qpair-HasFailed q h =
      bind-AllSome HasFailed HasFailed (abort_queued q q.queued_req) _
        (abort_queued-HasFailed q q.queued_req h)
        (λ q' h'. abort_outstanding-HasFailed 1 q' q'.outstanding_tr h')

-- A submission to a failed controller only frees the request.
pub submit_request-StaysFailed :
    (vtophys : ℕ → ℕ) (sges : ℕ → ℕ → List (ℕ × ℕ)) (fuel : ℕ)
    → StaysFailed (submit_request vtophys sges fuel)
unfolding submit_request submit_step AllSome
submit_request-StaysFailed vtophys sges zero q r h = tt
submit_request-StaysFailed vtophys sges (suc fuel) q r h = go q.ctrlr.failed h
  where
    go :
        (b : Bool)
        → b ≡ true
        → AllSome
            (λ (x : Ret × Qpair). HasFailed (x.1))
            (if b
              then (request_free q r >>= λ q'. some (enxio, q'))
              else (ensure_enabled (submit_request vtophys sges fuel) q
                  >>= submit_ready vtophys sges (submit_request vtophys sges fuel) r))
    go true p =
        bind-AllSome HasFailed (λ (x : Ret × Qpair). HasFailed (x.1)) (request_free q r)
          (λ q'. some (enxio, q')) (request_free-HasFailed q r h) (λ q' h'. h')
    go false p = cc
