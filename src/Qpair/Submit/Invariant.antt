-- ===== src/Qpair/Submit/Invariant.antt =====
-- Submission and polling keep an enabled queue pair's invariant, nested submissions included.
use libnvme.Prelude.{
  ℕ, zero, suc, ◌<◌, ◌≡◌, refl, ◌∙◌, ap, subst, not, ◌&&◌, inl, inr, some, List, [], ◌∷◌, ◌==◌,
  ◌>>=◌, some_inj, none-ne-some, if_inv, count, arith,
}
use libnvme.Types.{Qpair, Ret, success, enxio}
use libnvme.Request.{request_free, remove_child}
use libnvme.Request.Frame.{>>=-eq-some, core-request_free, core-remove_child}
use libnvme.Qpair.{
  Submit, set_tr, submit_tracker, manual_complete_tracker, ensure_enabled, enable, sc_invalid_field,
}
use libnvme.Qpair.Steady.{
  Consumer, consumer_of, Steady, Steady-frame, queue-Steady, Keeps, submit_tracker-Steady,
  manual_complete_tracker-Steady,
}
use libnvme.Qpair.Submit.{
  Build, built, aborted, set_built, start_built, start_request, take_tracker, enqueue, place_on,
  place_request, submit_children, submit_ready, submit_step, submit_request,
}

module _ (k : Consumer) where
  pub ensure_enabled-Steady :
      (submit : Submit) (q q' : Qpair) → Steady k q → ensure_enabled submit q ≡ some q' → q ≡ q'
  unfolding ensure_enabled
  ensure_enabled-Steady submit q q' s e =
      elim (if_inv (not q.enabled && not q.ctrlr.resetting) (enable submit q) (some q) e) [
        | inl (b, p) ↦ absurd (ground (arith, s.on))
        | inr (b, p) ↦ some_inj p
      ]

  take_tracker-Steady :
      (q : Qpair) (t r : ℕ) (rest : List ℕ)
      → Steady k q
      → q.free_tr ≡ t ∷ rest
      → Steady k (take_tracker q t rest r)
  take_tracker-Steady q t r rest s e = record {
    on = s.on;
    consumer = s.consumer;
    tracked = λ c. ground (arith, s.tracked c, ap (count c) e);
    owned = λ c a. ground (arith, s.owned c);
    named = λ c l. ground (arith, s.named c);
    tail_in = s.tail_in;
    head_in = s.head_in;
  }

  prp-Steady :
      {q : Qpair} (t : ℕ) (prp : ℕ → ℕ)
      → Steady k q
      → Steady k (set_tr q t (record (q.tr t) { prp = prp }))
  prp-Steady {q} t prp s = record {
    on = s.on;
    consumer = s.consumer;
    tracked = s.tracked;
    owned = λ c a. ground (arith, s.owned c);
    named = λ c l. ground (arith, s.named c);
    tail_in = s.tail_in;
    head_in = s.head_in;
  }

  start_built-Steady :
      (submit : Submit)
      → Keeps k submit
      → (q : Qpair) (t r : ℕ) (b : Build) (ret : Ret) (q' : Qpair) → Steady k q
      → 0 < count t q.outstanding_tr
      → start_built submit q t r b ≡ some (ret, q')
      → Steady k q'
  unfolding start_built
  start_built-Steady submit kp q t r (built cmd prp) ret q' s h e =
      let (q1, e1, p1) = >>=-eq-some (submit_tracker (set_built q t r cmd prp) t) _ e in
      subst (Steady k) (ap (λ w. w.1) (some_inj p1)) (
        submit_tracker-Steady k _ t q1
          (Steady-frame k (set_tr q t (record (q.tr t) { prp = prp })) _ refl (prp-Steady t prp s))
          h e1)
  start_built-Steady submit kp q t r (aborted x) ret q' s h e =
      let (q1, e1, p1) =
        >>=-eq-some (manual_complete_tracker submit q t 0 sc_invalid_field 1) _ e in
      subst (Steady k) (ap (λ w. w.1) (some_inj p1))
        (manual_complete_tracker-Steady k submit kp q t 0 sc_invalid_field 1 q1 s h e1)

  module _ (vtophys : ℕ → ℕ) (sges : ℕ → ℕ → List (ℕ × ℕ)) where
    place_on-Steady :
        (submit : Submit)
        → Keeps k submit
        → (q : Qpair) (r : ℕ) (l : List ℕ) (ret : Ret) (q' : Qpair) → Steady k q
        → q.free_tr ≡ l
        → place_on vtophys sges submit q r l ≡ some (ret, q')
        → Steady k q'
    unfolding place_on start_request
    place_on-Steady submit kp q r [] ret q' s f e =
        subst (Steady k) (ap (λ w. w.1) (some_inj e)) (queue-Steady k _ s)
    place_on-Steady submit kp q r (t ∷ rest) ret q' s f e =
        elim (if_inv q.enabled (start_request vtophys sges submit (take_tracker q t rest r) t r)
          (some (success, enqueue q r)) e) [
            | inl (_, p) ↦
                start_built-Steady submit kp (take_tracker q t rest r) t r _ ret q'
                  (take_tracker-Steady q t r rest s f) (ground arith) p
            | inr (_, p) ↦ subst (Steady k) (ap (λ w. w.1) (some_inj p)) (queue-Steady k _ s)
          ]

    free_child :
        (submit : Submit)
        → Keeps k submit
        → (q : Qpair) (p c : ℕ) (cs : List ℕ) (ret ret' : Ret) (q' : Qpair) → Steady k q
        → ((q2 : Qpair)
            → Steady k q2
            → submit_children vtophys sges submit q2 p cs ret ≡ some (ret', q')
            → Steady k q')
        → (remove_child q p c >>= λ q1.
            request_free q1 c >>= λ q2. submit_children vtophys sges submit q2 p cs ret)
          ≡ some (ret', q')
        → Steady k q'
    free_child submit kp q p c cs ret ret' q' s more e =
        let (q1, e1, p1) = >>=-eq-some (remove_child q p c) _ e in
        let (q2, e2, p2) = >>=-eq-some (request_free q1 c) _ p1 in
        more q2 (Steady-frame k q q2 (core-request_free q1 c e2 ∙ core-remove_child q p c e1) s) p2

    submit_children-Steady :
        (submit : Submit)
        → Keeps k submit
        → (q : Qpair) (p : ℕ) (cs : List ℕ) (ret ret' : Ret) (q' : Qpair) → Steady k q
        → submit_children vtophys sges submit q p cs ret ≡ some (ret', q')
        → Steady k q'
    unfolding submit_children
    submit_children-Steady submit kp q p [] ret ret' q' s e =
        subst (Steady k) (ap (λ w. w.1) (some_inj e)) s
    submit_children-Steady submit kp q p (c ∷ cs) success ret' q' s e =
        let ((x, q1), e1, p1) = >>=-eq-some (submit q c) _ e in
        submit_children-Steady submit kp q1 p cs x ret' q' (kp q c x q1 s e1) p1
    submit_children-Steady submit kp q p (c ∷ cs) ret ret' q' s e =
        free_child submit kp q p c cs ret ret' q' s
          (λ q2 s2 p2. submit_children-Steady submit kp q2 p cs ret ret' q' s2 p2) e

    submit_ready-Steady :
        (submit : Submit)
        → Keeps k submit
        → (r : ℕ) (q : Qpair) (ret : Ret) (q' : Qpair) → Steady k q
        → submit_ready vtophys sges submit r q ≡ some (ret, q')
        → Steady k q'
    unfolding submit_ready place_request
    submit_ready-Steady submit kp r q ret q' s e =
        elim (if_inv ((q.reqs r).child_reqs == 0) (place_request vtophys sges submit q r)
          (submit_children vtophys sges submit q r (q.reqs r).children success) e) [
            | inl (_, p) ↦ place_on-Steady submit kp q r q.free_tr ret q' s refl p
            | inr (_, p) ↦
                submit_children-Steady submit kp q r (q.reqs r).children success ret q' s p
          ]

    submit_step-Steady :
        (submit : Submit) → Keeps k submit → Keeps k (submit_step vtophys sges submit)
    unfolding submit_step place_request
    submit_step-Steady submit kp q r ret q' s e =
        elim (if_inv q.ctrlr.failed (request_free q r >>= λ q1. some (enxio, q1))
          (ensure_enabled submit q >>= submit_ready vtophys sges submit r) e) [
            | inl (_, p) ↦
                let (q1, e1, p1) = >>=-eq-some (request_free q r) _ p in
                subst (Steady k) (ap (λ w. w.1) (some_inj p1))
                  (Steady-frame k q q1 (core-request_free q r e1) s)
            | inr (_, p) ↦
                let (q1, e1, p1) = >>=-eq-some (ensure_enabled submit q) _ p in
                submit_ready-Steady submit kp r q1 ret q'
                  (subst (Steady k) (ensure_enabled-Steady submit q q1 s e1) s) p1
          ]

    -- nvme_qpair_submit_request keeps the invariant, whatever it returns.
    pub submit_request-Steady : (fuel : ℕ) → Keeps k (submit_request vtophys sges fuel)
    unfolding submit_request
    submit_request-Steady zero q r ret q' s e = absurd (none-ne-some e)
    submit_request-Steady (suc fuel) q r ret q' s e =
        submit_step-Steady (submit_request vtophys sges fuel) (submit_request-Steady fuel) q r ret
          q' s e

-- nvme_qpair_submit_request on an enabled queue pair keeps its invariant, whatever it returns: each
-- tracker on one of the two lists, an active one outstanding, the ring indices in range, and what
-- polling reads unchanged.
pub submit_request-IsSteady :
    (vtophys : ℕ → ℕ) (sges : ℕ → ℕ → List (ℕ × ℕ)) (fuel : ℕ) (q : Qpair) (r : ℕ) (ret : Ret)
    (q' : Qpair)
    → Steady (consumer_of q) q
    → submit_request vtophys sges fuel q r ≡ some (ret, q')
    → Steady (consumer_of q) q'
submit_request-IsSteady vtophys sges fuel q r ret q' s e =
    submit_request-Steady (consumer_of q) vtophys sges fuel q r ret q' s e
