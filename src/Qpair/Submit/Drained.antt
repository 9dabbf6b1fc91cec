-- ===== src/Qpair/Submit/Drained.antt =====
-- nvme_qpair_fail leaves nothing queued and nothing outstanding.
use libnvme.Prelude.{
  ℕ, ◌+◌, ◌<◌, ◌≡◌, refl, ◌∙◌, sym, ap, subst, Option, none, some, List, [], ◌∷◌, if◌then◌else◌,
  ◌>>=◌, count, count-remove_ne, remove, update, arith,
}
use native.Mathlib.Decide.{ℕ_discrete}
use libnvme.Types.{Cpl, Qpair, zero_cpl, cpl_is_error}
use libnvme.Request.{request_free}
use libnvme.Qpair.{
  Submit, clear_active, complete_tracker, complete_request, wants_retry, finish_request,
  release_tracker, manual_complete_tracker, manual_complete_request, abort_queued,
  abort_outstanding, fail_qpair, sc_aborted_by_request, completion_retry,
}
use libnvme.Qpair.Submit.Total.{Plain, run_cb_plain}

-- Nothing is queued and nothing outstanding, and no request is split.
pub record IsEmpty (q : Qpair) : Type 0 where
  pub unqueued : q.queued_req ≡ []
  pub none_left : q.outstanding_tr ≡ []
  pub plain : Plain q.reqs

-- What completing the queued requests `l` leaves.
record IsUnqueued (q q' : Qpair) : Type 0 where
  unqueued : q'.queued_req ≡ []
  same_tr : q'.outstanding_tr ≡ q.outstanding_tr
  same_free : q'.free_tr ≡ q.free_tr
  plain : Plain q'.reqs

abort_queued-IsUnqueued :
    (l : List ℕ) (q : Qpair)
    → q.queued_req ≡ l
    → Plain q.reqs
    → (q' : Qpair) × (abort_queued q l ≡ some q') × IsUnqueued q q'
unfolding abort_queued manual_complete_request request_free
abort_queued-IsUnqueued [] q e plain =
    (q, refl, record { unqueued = e; same_tr = refl; same_free = refl; plain = plain })
abort_queued-IsUnqueued (r ∷ rest) q e plain =
    let q0 : Qpair = record q { queued_req = rest } in
    let (calls, called) =
      run_cb_plain q0 r (record zero_cpl { sqid = q.id; sct = 0; sc = sc_aborted_by_request })
        (plain r).1 in
    let (q', run, left) =
      abort_queued-IsUnqueued rest (record q0 { calls = calls; free_req = r ∷ q.free_req }) refl
        plain in
    (
      q',
      rw (called, (plain r).0) run,
      record {
        unqueued = left.unqueued;
        same_tr = left.same_tr;
        same_free = left.same_free;
        plain = left.plain;
      },
    )

-- What completing the outstanding tracker `t` leaves, with nothing queued.
record IsFreed (t : ℕ) (q q' : Qpair) : Type 0 where
  unqueued : q'.queued_req ≡ []
  rest : q'.outstanding_tr ≡ remove t q.outstanding_tr
  free : q'.free_tr ≡ t ∷ remove t q.free_tr
  plain : Plain q'.reqs

remove-first : (t : ℕ) (rest : List ℕ) → remove t (t ∷ rest) ≡ rest
unfolding remove
remove-first t rest = ground arith

module _ (submit : Submit) where
  release_tracker-IsFreed :
      (q : Qpair) (t : ℕ)
      → q.queued_req ≡ []
      → Plain q.reqs
      → (q' : Qpair) × (release_tracker submit q t ≡ some q') × IsFreed t q q'
  unfolding release_tracker
  release_tracker-IsFreed q t e plain =
      (freed, run, record { unqueued = e; rest = refl; free = refl; plain = plain })
    where
      freed : Qpair
      freed = record q {
        tr = update q.tr t (record (q.tr t) { req = none });
        outstanding_tr = remove t q.outstanding_tr;
        free_tr = t ∷ remove t q.free_tr;
      }

      run : release_tracker submit q t ≡ some freed
      run =
          subst
            (λ l.
              (elim l as (λ _. Option Qpair) [
                | [] ↦ some freed
                | r ∷ rest ↦
                    if q.ctrlr.resetting
                    then some freed
                    else submit (record freed { queued_req = rest }) r >>= λ res. some (res.1)
              ])
              ≡ some freed)
            (sym e) refl

  manual_complete-IsFreed :
      (q : Qpair) (t : ℕ)
      → q.queued_req ≡ []
      → Plain q.reqs
      → (q' : Qpair) × (manual_complete_tracker submit q t 0 sc_aborted_by_request 1 ≡ some q')
        × IsFreed t q q'
  unfolding manual_complete_tracker complete_tracker complete_request wants_retry completion_retry
      cpl_is_error finish_request request_free
  manual_complete-IsFreed q t e plain = go (q.tr t).req
    where
      cpl : Cpl
      cpl = record zero_cpl {
        sqid = q.id;
        cid = (q.tr t).cid;
        sct = 0;
        sc = sc_aborted_by_request;
        dnr = 1;
      }

      go :
          (o : Option ℕ)
          → (q' : Qpair) × ((elim o as (λ _. Option Qpair) [
            | none ↦ release_tracker submit (clear_active q cpl.cid) t
            | some r ↦ complete_request submit q t r cpl
          ])
              ≡ some q')
            × IsFreed t q q'
      go none =
          let (q', run, left) = release_tracker-IsFreed (clear_active q cpl.cid) t e plain in
          (
            q',
            run,
            record {
              unqueued = left.unqueued;
              rest = left.rest;
              free = left.free;
              plain = left.plain;
            },
          )
      go (some r) =
          let (calls, called) = run_cb_plain (clear_active q cpl.cid) r cpl (plain r).1 in
          let (q', run, left) =
            release_tracker-IsFreed
              (record (clear_active q cpl.cid) { calls = calls; free_req = r ∷ q.free_req }) t e
              plain in
          (
            q',
            rw (called, (plain r).0) run,
            record {
              unqueued = left.unqueued;
              rest = left.rest;
              free = left.free;
              plain = left.plain;
            },
          )

  -- What aborting the outstanding trackers leaves.
  record IsDrained (l free : List ℕ) (q' : Qpair) : Type 0 where
    unqueued : q'.queued_req ≡ []
    none_left : q'.outstanding_tr ≡ []
    freed : (t : ℕ) → 0 < count t l + count t free → 0 < count t q'.free_tr
    plain : Plain q'.reqs

  abort_outstanding-IsDrained :
      (l : List ℕ) (q : Qpair)
      → q.outstanding_tr ≡ l
      → q.queued_req ≡ []
      → Plain q.reqs
      → (q' : Qpair) × (abort_outstanding submit 1 q l ≡ some q') × IsDrained l q.free_tr q'
  unfolding abort_outstanding
  abort_outstanding-IsDrained [] q o e plain = (
    q,
    refl,
    record { unqueued = e; none_left = o; freed = λ t h. omega (arith, h); plain = plain },
  )
  abort_outstanding-IsDrained (t ∷ rest) q o e plain =
      let (q1, run, one) = manual_complete-IsFreed q t e plain in
      let (q', runs, all) =
        abort_outstanding-IsDrained rest q1 (one.rest ∙ ap (remove t) o ∙ remove-first t rest)
          one.unqueued one.plain in
      (
        q',
        rw run runs,
        record {
          unqueued = all.unqueued;
          none_left = all.none_left;
          freed = λ x h. all.freed x (rw one.free (moved x h));
          plain = all.plain;
        },
      )
    where
      moved :
          (x : ℕ)
          → 0 < count x (t ∷ rest) + count x q.free_tr
          → 0 < count x rest + count x (t ∷ remove t q.free_tr)
      moved x h = elim (ℕ_discrete t x) [
        | yes p ↦ ground (arith, p)
        | no p ↦ ground (arith, h, p, count-remove_ne t x q.free_tr p)
      ]

  -- nvme_qpair_fail leaves the queue pair empty.
  pub fail_qpair-IsEmpty :
      (q : Qpair) → Plain q.reqs → (q' : Qpair) × (fail_qpair submit q ≡ some q') × IsEmpty q'
  unfolding fail_qpair
  fail_qpair-IsEmpty q plain =
      let (q1, run, first) = abort_queued-IsUnqueued q.queued_req q refl plain in
      let (q', runs, all) =
        abort_outstanding-IsDrained q1.outstanding_tr q1 refl first.unqueued first.plain in
      (
        q',
        rw run runs,
        record { unqueued = all.unqueued; none_left = all.none_left; plain = all.plain },
      )

  -- nvme_qpair_fail on a queue pair whose requests are not split: it returns, whatever a nested
  -- submission would do; no request is queued and no tracker outstanding any more, and every tracker
  -- that was outstanding is free.
  pub fail_qpair-drains :
      (q : Qpair)
      → Plain q.reqs
      → (q' : Qpair) × (fail_qpair submit q ≡ some q')
        × (q'.queued_req ≡ [])
        × (q'.outstanding_tr ≡ [])
        × ((t : ℕ) → 0 < count t q.outstanding_tr → 0 < count t q'.free_tr)
  unfolding fail_qpair
  fail_qpair-drains q plain =
      let (q1, run, first) = abort_queued-IsUnqueued q.queued_req q refl plain in
      let (q', runs, all) =
        abort_outstanding-IsDrained q1.outstanding_tr q1 refl first.unqueued first.plain in
      (
        q',
        rw run runs,
        all.unqueued,
        all.none_left,
        λ t h. all.freed t (omega (arith, h, ap (count t) first.same_tr)),
      )
