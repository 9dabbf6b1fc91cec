-- ===== src/Ctrlr/Init/Expiry.antt =====
-- A state that waits for CSTS.RDY, until its time has passed and after.
use libnvme.Prelude.{
  ℕ, ◌<◌, ◌≤◌, ◌≡◌, refl, ap, sym, subst, ◌∙◌, inl, inr, ◌⊎◌, Bool, true, false, Bool-cases, some,
  List, [], ◌∷◌, count, ltb, arith,
}
use libnvme.Types.{success, failure}
use libnvme.Common.Results.{AllSome, bind-AllSome, AllSome-some}
use libnvme.Qpair.{fail_qpair}
use libnvme.Qpair.Submit.Failed.{HasFailed, fail_qpair-HasFailed, submit_request-StaysFailed}
use libnvme.Ctrlr.{load, store}
use libnvme.Ctrlr.Namespaces.{submit_of}
use libnvme.Ctrlr.Init.Control.{Control}
use libnvme.Ctrlr.Init.Failing.{PlainOn, fail_ctrlr-IsEmpty}
use libnvme.Ctrlr.Init.Frame.{Kept, fail_ctrlr-Kept}
use libnvme.Ctrlr.Init.{
  Look, all_qpairs, mark_failed, fail_each, fail_ctrlr, expired, keep_waiting, step_in, init_step,
}
use libnvme.Ctrlr.State.{
  Ctrlr, CtrlrState, init, disable_wait_for_ready_1, disable_wait_for_ready_0,
  enable_wait_for_ready_1, ready, Env,
}

abbrev pub CtrlrFailed : Ctrlr → Type 0
CtrlrFailed c = c.flags.failed ≡ true

fail_each-CtrlrFailed :
    (e : Env) (ids : List ℕ) (c : Ctrlr) → CtrlrFailed c → AllSome CtrlrFailed (fail_each e ids c)
unfolding fail_each AllSome
fail_each-CtrlrFailed e [] c h = h
fail_each-CtrlrFailed e (id ∷ ids) c h =
    bind-AllSome HasFailed CtrlrFailed (fail_qpair (submit_of e) (load c id))
      (λ q. fail_each e ids (store c id q))
      (fail_qpair-HasFailed (submit_of e) (submit_request-StaysFailed e.vtophys e.sges e.fuel)
        (load c id) h)
      (λ q p. fail_each-CtrlrFailed e ids (store c id q) p)

pub fail_ctrlr-CtrlrFailed : (e : Env) (c : Ctrlr) → AllSome CtrlrFailed (fail_ctrlr e c)
unfolding fail_ctrlr
fail_ctrlr-CtrlrFailed e c = fail_each-CtrlrFailed e (all_qpairs c) (mark_failed c) refl

-- The states that wait for CSTS.RDY, with the value that they do not wait for.
unfoldable pub Awaits : CtrlrState → Bool → Type 0
Awaits init rdy = ⊥
Awaits disable_wait_for_ready_1 rdy = rdy ≡ false
Awaits disable_wait_for_ready_0 rdy = rdy ≡ true
Awaits enable_wait_for_ready_1 rdy = rdy ≡ false
Awaits ready rdy = ⊥

-- Such a state goes on waiting.
step_in-keep_waiting :
    (e : Env) (l : Look) (state : CtrlrState) (c : Ctrlr)
    → Awaits state l.rdy
    → step_in e l state c ≡ keep_waiting e l c
unfolding step_in Awaits
step_in-keep_waiting e l init c a = absurd a
step_in-keep_waiting e l disable_wait_for_ready_1 c a = rw a refl
step_in-keep_waiting e l disable_wait_for_ready_0 c a = rw a refl
step_in-keep_waiting e l enable_wait_for_ready_1 c a = rw a refl
step_in-keep_waiting e l ready c a = absurd a

-- What a call that gives up leaves: the controller is failed, its state and CC.EN are those of before,
-- and none of its queue pairs has a request queued or a tracker outstanding.
pub record IsGivenUp (c c' : Ctrlr) : Type 0 where
  pub failed : c'.flags.failed ≡ true
  pub state_kept : c'.state ≡ c.state
  pub en_kept : c'.cc.en ≡ c.cc.en
  pub emptied :
      (id : ℕ)
      → 0 < count id (all_qpairs c)
      → ((c'.qpairs id).queued_req ≡ []) × ((c'.qpairs id).outstanding_tr ≡ [])

fail_ctrlr-IsGivenUp :
    (e : Env) (c : Ctrlr)
    → PlainOn (all_qpairs c) c
    → (c' : Ctrlr) × (fail_ctrlr e c ≡ some c') × IsGivenUp c c'
fail_ctrlr-IsGivenUp e c plain =
    let (c', run, empty) = fail_ctrlr-IsEmpty e c plain in
    let kept = AllSome-some (Kept c) run (fail_ctrlr-Kept e c) in
    (
      c',
      run,
      record {
        failed = AllSome-some CtrlrFailed run (fail_ctrlr-CtrlrFailed e c);
        state_kept = ap (λ (k : Control). k.state) kept;
        en_kept = ap (λ (k : Control). k.en) kept;
        emptied = λ id h. ((empty id h).unqueued, (empty id h).none_left);
      },
    )

-- What a call that finds CSTS.RDY not yet as its state waits for it does until the time `t` and after.
abbrev pub WaitResult : Env → Look → Ctrlr → ℕ → Type 0
WaitResult e l c t =
    ((l.now ≤ t) × (init_step e l c ≡ some (success, c)))
    ⊎ ((t < l.now) × (c' : Ctrlr) × (init_step e l c ≡ some (failure, c')) × IsGivenUp c c')

-- A call of nvme_ctrlr_init that finds CSTS.RDY not yet as the state waits for it, where no request of
-- the controller's queue pairs is split. Until the time-out of the state it returns 0 and changes
-- nothing. After it, it does return, with -1: the controller is failed, in the same state and with the
-- same CC.EN, and no queue pair of it has a request queued or a tracker outstanding any more.
pub init_step-times_out :
    (e : Env) (l : Look) (c : Ctrlr) (t : ℕ)
    → Awaits c.state l.rdy
    → c.state_timeout_ms ≡ some t
    → PlainOn (all_qpairs c) c
    → WaitResult e l c t
unfolding init_step expired
init_step-times_out e l c t a s plain = elim (Bool-cases (ltb t l.now)) [
  | inl late ↦
      let (c', run, left) = fail_ctrlr-IsGivenUp e c plain in
      inr (
        ground (arith, late),
        c',
        step_in-keep_waiting e l c.state c a ∙ rw (keep_waiting, passed true late, run) refl,
        left,
      )
  | inr early ↦ inl (
    ground (arith, early),
    step_in-keep_waiting e l c.state c a ∙ rw (keep_waiting, passed false early) refl,
  )
]
  where
    passed : (b : Bool) → ltb t l.now ≡ b → expired l c.state_timeout_ms ≡ b
    passed b h = subst (λ o. expired l o ≡ b) (sym s) h
