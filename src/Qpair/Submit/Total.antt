-- ===== src/Qpair/Submit/Total.antt =====
-- Submitting returns: with requests that are not split, one more level than the queue is long is
-- fuel enough, and no assertion fails.
use libnvme.Prelude.{
  ℕ, zero, suc, ◌+◌, ◌<◌, ◌≤◌, ◌≡◌, ◌≢◌, refl, ◌∙◌, sym, ap, subst, Bool, true, false, not, ◌&&◌,
  inl, inr, Option, none, some, List, [], ◌∷◌, ◌==◌, ==_iff, if◌then◌else◌, ◌>>=◌, some_inj,
  Bool-cases, update, update_self, length, arith, remove,
}
use libnvme.Types.{
  Cpl, Callback, no_cb, user_cb, complete_child_cb, Request, Qpair, Tracker, Ret, success, enxio,
}
use libnvme.Request.{set_req, request_free, complete_child, run_cb}
use libnvme.Qpair.{
  Submit, depth, clear_active, complete_tracker, complete_request, wants_retry, retry_request,
  finish_request, release_tracker, submit_tracker, manual_complete_tracker, ensure_enabled,
  sc_invalid_field,
}
use libnvme.Qpair.Submit.{
  Build, built, aborted, set_built, start_built, start_request, take_tracker, enqueue, place_on,
  place_request, submit_children, submit_ready, submit_step, submit_request, poll_one, advance,
}

true-ne-false : true ≡ false → ⊥
true-ne-false e = cc

abbrev pub Returns : {A : Type 0} → Option A → Type 0
Returns {A} o = (a : A) × (o ≡ some a)

-- No request is split: none has children, or is a child.
abbrev pub Plain : (ℕ → Request) → Type 0
Plain reqs = (r : ℕ) → ((reqs r).child_reqs ≡ 0) × ((reqs r).cb_fn ≢ complete_child_cb)

>>=-Returns :
    {A B : Type 0} (m : Option A) (f : A → Option B)
    → Returns m
    → ((a : A) → m ≡ some a → Returns (f a))
    → Returns (m >>= f)
>>=-Returns m f (a, e) g = let (b, p) = g a e in (b, rw e p)

if-Returns :
    {A : Type 0} (b : Bool) (x y : Option A)
    → (b ≡ true → Returns x)
    → (b ≡ false → Returns y)
    → Returns (if b then x else y)
if-Returns true x y f g = f refl
if-Returns false x y f g = g refl

pub run_cb_plain :
    (q : Qpair) (r : ℕ) (cpl : Cpl)
    → (q.reqs r).cb_fn ≢ complete_child_cb
    → (calls : List (ℕ × Cpl)) × (run_cb depth q r cpl ≡ some (record q { calls = calls }))
unfolding run_cb complete_child
run_cb_plain q r cpl n = go (q.reqs r).cb_fn n
  where
    go :
        (cb : Callback)
        → cb ≢ complete_child_cb
        → (calls : List (ℕ × Cpl)) × (elim cb [
          | no_cb ↦ some q
          | user_cb ↦ some (record q { calls = ((q.reqs r).cb_arg, cpl) ∷ q.calls })
          | complete_child_cb ↦ complete_child (run_cb 2) q (q.reqs r).cb_arg cpl
        ]
            ≡ some (record q { calls = calls }))
    go no_cb h = (q.calls, refl)
    go user_cb h = (((q.reqs r).cb_arg, cpl) ∷ q.calls, refl)
    go complete_child_cb h = absurd (h refl)

submit_tracker-Returns : (q : Qpair) (t : ℕ) → Returns (q.tr t).req → Returns (submit_tracker q t)
unfolding submit_tracker
submit_tracker-Returns q t has = >>=-Returns (q.tr t).req _ has (λ r _. (_, refl))

cleared_req : (q : Qpair) (c t : ℕ) → ((clear_active q c).tr t).req ≡ (q.tr t).req
cleared_req q c t = elim (Bool-cases (c == t)) [
  | inl e ↦ let p : c ≡ t = (==_iff c t).0 e in rw e (ap (λ i. (q.tr i).req) p)
  | inr e ↦ rw e refl
]

-- Nested submissions that return while fewer than `n` requests are queued.
abbrev Total : Submit → ℕ → Type 0
Total submit n =
    (q : Qpair) (r : ℕ)
    → q.enabled ≡ true
    → Plain q.reqs
    → length q.queued_req < n
    → Returns (submit q r)

module _ (submit : Submit) (n : ℕ) (total : Total submit n) where
  release_tracker-Returns :
      (q : Qpair) (t : ℕ)
      → q.enabled ≡ true
      → Plain q.reqs
      → length q.queued_req ≤ n
      → Returns (release_tracker submit q t)
  unfolding release_tracker
  release_tracker-Returns q t on plain len = go q.queued_req len
    where
      freed : Qpair
      freed = record q {
        tr = update q.tr t (record (q.tr t) { req = none });
        outstanding_tr = remove t q.outstanding_tr;
        free_tr = t ∷ remove t q.free_tr;
      }

      go :
          (l : List ℕ)
          → length l ≤ n
          → Returns (elim l [
            | [] ↦ some freed
            | r ∷ rest ↦
                if q.ctrlr.resetting
                then some freed
                else submit (record freed { queued_req = rest }) r >>= λ res. some (res.1)
          ])
      go [] h = (freed, refl)
      go (r ∷ rest) h =
          if-Returns q.ctrlr.resetting (some freed)
            (submit (record freed { queued_req = rest }) r >>= λ res. some (res.1))
            (λ _. (freed, refl))
            (λ _.
              >>=-Returns (submit (record freed { queued_req = rest }) r) (λ res. some (res.1))
                (total (record freed { queued_req = rest }) r on plain (omega (arith, h)))
                (λ a _. (a.1, refl)))

  finish_request-Returns :
      (q : Qpair) (t r : ℕ) (cpl : Cpl)
      → q.enabled ≡ true
      → Plain q.reqs
      → length q.queued_req ≤ n
      → Returns (finish_request submit q t r cpl)
  unfolding finish_request request_free
  finish_request-Returns q t r cpl on plain len =
      let (calls, e) = run_cb_plain q r cpl (plain r).1 in
      rw (e, (plain r).0)
        (release_tracker-Returns (record q { calls = calls; free_req = r ∷ q.free_req }) t on plain
          len)

  complete_tracker-Returns :
      (q : Qpair) (t : ℕ) (cpl : Cpl)
      → q.enabled ≡ true
      → Plain q.reqs
      → length q.queued_req ≤ n
      → Returns (complete_tracker submit q t cpl)
  unfolding complete_tracker complete_request retry_request
  complete_tracker-Returns q t cpl on plain len = go (q.tr t).req refl
    where
      go :
          (o : Option ℕ)
          → (q.tr t).req ≡ o
          → Returns (elim o [
            | none ↦ release_tracker submit (clear_active q cpl.cid) t
            | some r ↦ complete_request submit q t r cpl
          ])
      go none e = release_tracker-Returns (clear_active q cpl.cid) t on plain len
      go (some r') e =
          if-Returns (wants_retry q r' cpl) (retry_request (clear_active q cpl.cid) t r')
            (finish_request submit (clear_active q cpl.cid) t r' cpl)
            (λ _.
              submit_tracker-Returns
                (set_req (clear_active q cpl.cid) r'
                  (record (q.reqs r') { retries = (q.reqs r').retries + 1 }))
                t (r', cleared_req q cpl.cid t ∙ e))
            (λ _. finish_request-Returns (clear_active q cpl.cid) t r' cpl on plain len)

  start_built-Returns :
      (q : Qpair) (t r : ℕ) (b : Build)
      → (q.tr t).req ≡ some r
      → q.enabled ≡ true
      → Plain q.reqs
      → length q.queued_req ≤ n
      → Returns (start_built submit q t r b)
  unfolding start_built manual_complete_tracker
  start_built-Returns q t r (built cmd prp) has on plain len =
      >>=-Returns (submit_tracker (set_built q t r cmd prp) t) _
        (submit_tracker-Returns (set_built q t r cmd prp) t (
          r,
          ap (λ (x : Tracker). x.req) (update_self q.tr t (record (q.tr t) { prp = prp })) ∙ has,
        ))
        (λ a _. (_, refl))
  start_built-Returns q t r (aborted ret) has on plain len =
      >>=-Returns (manual_complete_tracker submit q t 0 sc_invalid_field 1) _
        (complete_tracker-Returns q t _ on plain len) (λ a _. (_, refl))

  module _ (vtophys : ℕ → ℕ) (sges : ℕ → ℕ → List (ℕ × ℕ)) where
    place_on-Returns :
        (q : Qpair) (r : ℕ) (l : List ℕ)
        → q.enabled ≡ true
        → Plain q.reqs
        → length q.queued_req ≤ n
        → Returns (place_on vtophys sges submit q r l)
    unfolding place_on start_request
    place_on-Returns q r [] on plain len = (_, refl)
    place_on-Returns q r (t ∷ rest) on plain len =
        if-Returns q.enabled (start_request vtophys sges submit (take_tracker q t rest r) t r)
          (some (success, enqueue q r))
          (λ _.
            start_built-Returns (take_tracker q t rest r) t r _
              (ap (λ (x : Tracker). x.req) (update_self q.tr t (record (q.tr t) { req = some r })))
              on (taken plain) len)
          (λ _. (_, refl))
      where
        taken : Plain q.reqs → Plain (take_tracker q t rest r).reqs
        taken p i = elim (Bool-cases (r == i)) [ inl e ↦ rw e (p r) | inr e ↦ rw e (p i) ]

    submit_step-Returns :
        (q : Qpair) (r : ℕ)
        → q.enabled ≡ true
        → Plain q.reqs
        → length q.queued_req ≤ n
        → Returns (submit_step vtophys sges submit q r)
    unfolding submit_step submit_ready place_request request_free ensure_enabled
    submit_step-Returns q r on plain len =
        if-Returns q.ctrlr.failed (request_free q r >>= λ q'. some (enxio, q'))
          (ensure_enabled submit q >>= submit_ready vtophys sges submit r)
          (λ _. rw (plain r).0 (_, refl))
          (λ _.
            >>=-Returns (ensure_enabled submit q) (submit_ready vtophys sges submit r) (q, ensured)
              (λ a e.
                subst (λ x. Returns (submit_ready vtophys sges submit r x))
                  (some_inj (sym ensured ∙ e)) ready))
      where
        ensured : ensure_enabled submit q ≡ some q
        ensured = elim (Bool-cases (not q.enabled && not q.ctrlr.resetting)) [
          | inl e ↦ absurd (ground (arith, on))
          | inr e ↦ rw e refl
        ]

        ready : Returns (submit_ready vtophys sges submit r q)
        ready =
            if-Returns ((q.reqs r).child_reqs == 0) (place_request vtophys sges submit q r)
              (submit_children vtophys sges submit q r (q.reqs r).children success)
              (λ _. place_on-Returns q r q.free_tr on plain len)
              (λ e. absurd (ground (arith, (plain r).0)))

submit_request-Total :
    (vtophys : ℕ → ℕ) (sges : ℕ → ℕ → List (ℕ × ℕ)) (fuel : ℕ)
    → Total (submit_request vtophys sges fuel) fuel
unfolding submit_request
submit_request-Total vtophys sges zero q r on plain len = absurd (omega (arith, len))
submit_request-Total vtophys sges (suc fuel) q r on plain len =
    submit_step-Returns (submit_request vtophys sges fuel) fuel
      (submit_request-Total vtophys sges fuel) vtophys sges q r on plain (omega (arith, len))

-- nvme_qpair_submit_request returns on an enabled queue pair whose requests are not split: no
-- assertion fails, and its nested calls are at most as many as requests are queued.
pub submit_request-Returns :
    (vtophys : ℕ → ℕ) (sges : ℕ → ℕ → List (ℕ × ℕ)) (fuel : ℕ) (q : Qpair) (r : ℕ)
    → q.enabled ≡ true
    → Plain q.reqs
    → length q.queued_req < fuel
    → (ret : Ret) × (q' : Qpair) × (submit_request vtophys sges fuel q r ≡ some (ret, q'))
submit_request-Returns vtophys sges fuel q r on plain len =
    let ((ret, q'), e) = submit_request-Total vtophys sges fuel q r on plain len in (ret, q', e)

-- Handling one completion in nvme_qpair_poll returns on an enabled queue pair whose requests are
-- not split, provided that the completion names an active tracker.
pub poll_one-Returns :
    (vtophys : ℕ → ℕ) (sges : ℕ → ℕ → List (ℕ × ℕ)) (fuel : ℕ) (q : Qpair)
    → q.enabled ≡ true
    → Plain q.reqs
    → length q.queued_req ≤ fuel
    → (q.tr (q.cpl q.cq_head).cid).active ≡ true
    → (q' : Qpair) × (poll_one vtophys sges (submit_request vtophys sges fuel) q ≡ some q')
unfolding poll_one
poll_one-Returns vtophys sges fuel q on plain len act =
    let cpl = q.cpl q.cq_head in
    let submit = submit_request vtophys sges fuel in
    if-Returns (q.tr cpl.cid).active
      (complete_tracker submit q cpl.cid cpl >>= λ q'. some (advance q')) none
      (λ _.
        >>=-Returns (complete_tracker submit q cpl.cid cpl) (λ q'. some (advance q'))
          (complete_tracker-Returns submit fuel (submit_request-Total vtophys sges fuel) q cpl.cid
            cpl on plain len)
          (λ a _. (_, refl)))
      (λ e. absurd (true-ne-false (sym act ∙ e)))
