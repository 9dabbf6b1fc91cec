-- ===== src/Qpair/Steady.antt =====
-- The invariant of an enabled queue pair: each tracker is on one of the two lists, an active one is
-- outstanding, and the ring indices are in range. The parts of completion keep it.
use libnvme.Prelude.{
  ℕ, ◌+◌, ◌<◌, ◌≡◌, refl, ◌∙◌, sym, ap, subst, true, false, inl, inr, Option, none, some, List, [],
  ◌∷◌, ltb, if◌then◌else◌, ◌>>=◌, some_inj, if_inv, count, remove, count-remove_self,
  count-remove_ne, remove_absent, update, arith,
}
use libnvme.Types.{Cpl, Qpair, Ret}
use libnvme.Request.{run_cb, request_free}
use libnvme.Request.Frame.{core, >>=-eq-some, core-run_cb, core-request_free}
use libnvme.Qpair.{
  Submit, depth, next_index, clear_active, submit_tracker, release_tracker, complete_request,
  complete_tracker, wants_retry, retry_request, finish_request, manual_complete_tracker,
}

-- What polling reads besides the trackers; submitting and completing leave it alone.
pub record Consumer : Type 0 where
  pub entries : ℕ
  pub cpl : ℕ → Cpl
  pub cq_head : ℕ
  pub phase : ℕ

abbrev pub consumer_of : Qpair → Consumer
consumer_of q = record { entries = q.entries; cpl = q.cpl; cq_head = q.cq_head; phase = q.phase }

module _ (k : Consumer) where
  pub record Steady (q : Qpair) : Type 0 where
    pub on : q.enabled ≡ true
    pub consumer : consumer_of q ≡ k
    pub tracked :
        (c : ℕ) → count c q.free_tr + count c q.outstanding_tr ≡ (if ltb c q.trackers then 1 else 0)
    pub owned : (c : ℕ) → (q.tr c).active ≡ true → 0 < count c q.outstanding_tr
    pub named : (c : ℕ) → c < q.trackers → (q.tr c).cid ≡ c
    pub tail_in : q.sq_tail < q.entries
    pub head_in : q.cq_head < q.entries

  Steady-core : (q : Qpair) → Steady (core q) → Steady q
  Steady-core q s = record {
    on = s.on;
    consumer = s.consumer;
    tracked = s.tracked;
    owned = s.owned;
    named = s.named;
    tail_in = s.tail_in;
    head_in = s.head_in;
  }

  core-Steady : (q : Qpair) → Steady q → Steady (core q)
  core-Steady q s = record {
    on = s.on;
    consumer = s.consumer;
    tracked = s.tracked;
    owned = s.owned;
    named = s.named;
    tail_in = s.tail_in;
    head_in = s.head_in;
  }

  -- Whatever leaves the trackers and rings alone keeps the invariant.
  pub Steady-frame : (q q' : Qpair) → core q' ≡ core q → Steady q → Steady q'
  Steady-frame q q' e s = Steady-core q' (subst Steady (sym e) (core-Steady q s))

  pub queue-Steady : {q : Qpair} (l : List ℕ) → Steady q → Steady (record q { queued_req = l })
  queue-Steady l s = record {
    on = s.on;
    consumer = s.consumer;
    tracked = s.tracked;
    owned = s.owned;
    named = s.named;
    tail_in = s.tail_in;
    head_in = s.head_in;
  }

  pub outstanding-lt :
      {q : Qpair} (t : ℕ) → Steady q → 0 < count t q.outstanding_tr → t < q.trackers
  outstanding-lt t s h = ground (arith, s.tracked t)

  pub clear_active-Steady : {q : Qpair} (t : ℕ) → Steady q → Steady (clear_active q t)
  clear_active-Steady {q} t s = record {
    on = s.on;
    consumer = s.consumer;
    tracked = s.tracked;
    owned = λ c h. ground (arith, s.owned c);
    named = λ c h. ground (arith, s.named c, s.named t);
    tail_in = s.tail_in;
    head_in = s.head_in;
  }

  next_index-lt : (n i : ℕ) → i < n → next_index n i < n
  next_index-lt n i h = ground arith

  pub submit_tracker-Steady :
      (q : Qpair) (t : ℕ) (q' : Qpair)
      → Steady q
      → 0 < count t q.outstanding_tr
      → submit_tracker q t ≡ some q'
      → Steady q'
  unfolding submit_tracker
  submit_tracker-Steady q t q' s h e =
      let (r, er, e1) = >>=-eq-some (q.tr t).req _ e in
      subst Steady (some_inj e1) (record {
        on = s.on;
        consumer = s.consumer;
        tracked = s.tracked;
        owned = λ c a. ground (arith, s.owned c, own);
        named = λ c l. ground (arith, s.named c);
        tail_in = next_index-lt q.entries q.sq_tail s.tail_in;
        head_in = s.head_in;
      })
    where
      own : (q.tr t).cid ≡ t
      own = s.named t (outstanding-lt t s h)

  -- A submission that keeps the invariant, as the nested ones must.
  abbrev pub Keeps : Submit → Type 0
  Keeps submit =
      (q : Qpair) (r : ℕ) (ret : Ret) (q' : Qpair)
      → Steady q
      → submit q r ≡ some (ret, q')
      → Steady q'

  module _ (submit : Submit) (keeps : Keeps submit) where
    released : (q : Qpair) (t : ℕ) → Qpair
    released q t = record q {
      tr = update q.tr t (record (q.tr t) { req = none });
      outstanding_tr = remove t q.outstanding_tr;
      free_tr = t ∷ remove t q.free_tr;
    }

    released-Steady :
        (q : Qpair) (t : ℕ)
        → Steady q
        → 0 < count t q.outstanding_tr
        → (q.tr t).active ≡ false
        → Steady (released q t)
    unfolding released
    released-Steady q t s h idle = record {
      on = s.on;
      consumer = s.consumer;
      tracked = λ c. ground (
        arith,
        s.tracked c,
        s.tracked t,
        count-remove_self t q.outstanding_tr,
        count-remove_ne t c q.outstanding_tr,
        count-remove_ne t c q.free_tr,
        remove_absent t q.free_tr,
      );
      owned = λ c a. ground (arith, s.owned c, idle, count-remove_ne t c q.outstanding_tr);
      named = λ c l. ground (arith, s.named c, s.named t);
      tail_in = s.tail_in;
      head_in = s.head_in;
    }

    release_tracker-Steady :
        (q : Qpair) (t : ℕ) (q' : Qpair)
        → Steady q
        → 0 < count t q.outstanding_tr
        → (q.tr t).active ≡ false
        → release_tracker submit q t ≡ some q'
        → Steady q'
    unfolding release_tracker released
    release_tracker-Steady q t q' s h idle e = go q.queued_req e
      where
        done : Steady (released q t)
        done = released-Steady q t s h idle

        go :
            (l : List ℕ)
            → (elim l [
              | [] ↦ some (released q t)
              | r ∷ rest ↦
                  if q.ctrlr.resetting
                  then some (released q t)
                  else submit (record (released q t) { queued_req = rest }) r >>= λ res.
                      some (res.1)
            ])
              ≡ some q'
            → Steady q'
        go [] p = subst Steady (some_inj p) done
        go (r ∷ l) p =
            elim (if_inv q.ctrlr.resetting (some (released q t))
              (submit (record (released q t) { queued_req = l }) r >>= λ res. some (res.1)) p) [
                | inl (_, p') ↦ subst Steady (some_inj p') done
                | inr (_, p') ↦
                    let ((ret, q2), e1, e2) =
                      >>=-eq-some (submit (record (released q t) { queued_req = l }) r) _ p' in
                    subst Steady (some_inj e2) (keeps _ r ret q2 (queue-Steady l done) e1)
              ]

    finish_request-Steady :
        (q : Qpair) (t r : ℕ) (cpl : Cpl) (q' : Qpair)
        → Steady q
        → 0 < count t q.outstanding_tr
        → (q.tr t).active ≡ false
        → finish_request submit q t r cpl ≡ some q'
        → Steady q'
    unfolding finish_request
    finish_request-Steady q t r cpl q' s h idle e =
        let (q1, e1, p1) = >>=-eq-some (run_cb depth q r cpl) _ e in
        let (q2, e2, p2) = >>=-eq-some (request_free q1 r) _ p1 in
        let same_core = core-request_free q1 r e2 ∙ core-run_cb depth q r cpl q1 e1 in
        release_tracker-Steady q2 t q' (Steady-frame q q2 same_core s)
          (subst (λ (k : Qpair). 0 < count t k.outstanding_tr) (sym same_core) h)
          (ap (λ (k : Qpair). (k.tr t).active) same_core ∙ idle) p2

    complete_request-Steady :
        (q : Qpair) (t r : ℕ) (cpl : Cpl) (q' : Qpair)
        → Steady q
        → 0 < count t q.outstanding_tr
        → cpl.cid ≡ t
        → complete_request submit q t r cpl ≡ some q'
        → Steady q'
    unfolding complete_request retry_request
    complete_request-Steady q t r cpl q' s h same e =
        elim (if_inv (wants_retry q r cpl) (retry_request (clear_active q cpl.cid) t r)
          (finish_request submit (clear_active q cpl.cid) t r cpl) e) [
            | inl (_, p) ↦
                submit_tracker-Steady _ t q' (Steady-frame (clear_active q cpl.cid) _ refl cleared)
                  h p
            | inr (_, p) ↦
                finish_request-Steady (clear_active q cpl.cid) t r cpl q' cleared h (ground arith) p
          ]
      where
        cleared : Steady (clear_active q cpl.cid)
        cleared = clear_active-Steady cpl.cid s

    -- Completing an outstanding tracker keeps the invariant, retries and the next request included.
    pub complete_tracker-Steady :
        (q : Qpair) (t : ℕ) (cpl : Cpl) (q' : Qpair)
        → Steady q
        → 0 < count t q.outstanding_tr
        → cpl.cid ≡ t
        → complete_tracker submit q t cpl ≡ some q'
        → Steady q'
    unfolding complete_tracker
    complete_tracker-Steady q t cpl q' s h same e = go (q.tr t).req e
      where
        go :
            (o : Option ℕ)
            → (elim o [
              | none ↦ release_tracker submit (clear_active q cpl.cid) t
              | some r ↦ complete_request submit q t r cpl
            ])
              ≡ some q'
            → Steady q'
        go none p =
            release_tracker-Steady (clear_active q cpl.cid) t q' (clear_active-Steady cpl.cid s) h
              (ground arith) p
        go (some r) p = complete_request-Steady q t r cpl q' s h same p

    pub manual_complete_tracker-Steady :
        (q : Qpair) (t sct sc dnr : ℕ) (q' : Qpair)
        → Steady q
        → 0 < count t q.outstanding_tr
        → manual_complete_tracker submit q t sct sc dnr ≡ some q'
        → Steady q'
    unfolding manual_complete_tracker
    manual_complete_tracker-Steady q t sct sc dnr q' s h e =
        complete_tracker-Steady q t _ q' s h (s.named t (outstanding-lt t s h)) e
