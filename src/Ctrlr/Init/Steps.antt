-- ===== src/Ctrlr/Init/Steps.antt =====
-- nvme_ctrlr_init against the steps of Ctrlr/Init/Control.antt.
use libnvme.Prelude.{
  ℕ, ◌+◌, ◌≡◌, refl, sym, ap, subst, Bool, true, false, Bool-cases, ◌⊎◌, inl, inr, Option, none,
  some, if◌then◌else◌, arith,
}
use libnvme.Types.{Ret, success, failure, einval}
use libnvme.Common.Results.{AllSome, AllSome-some, bind-AllSome, split-AllSome}
use libnvme.Admin.{is_success}
use libnvme.Ctrlr.{
  ready_to_in_ms, enable_ctrlr, disable_ctrlr, set_state, arb_supported, set_admin_registers,
  enabled_cc,
}
use libnvme.Ctrlr.Start.{start}
use libnvme.Ctrlr.Init.{
  Look, enter, fail_ctrlr, init_step, step_in, leave_init, try_enable, try_start, keep_waiting,
  expired,
}
use libnvme.Ctrlr.Init.Control.{
  Control, control, InTime, Fits, Step, await_ready, disable_now, await_shutdown, enable_now,
  disable_ready, enable_stopped, finish, wait_ready_1, wait_ready_0, wait_enabled,
}
use libnvme.Ctrlr.Init.Frame.{Kept, start-Keeps, fail_ctrlr-Kept}
use libnvme.Ctrlr.State.{
  Ctrlr, CtrlrState, init, disable_wait_for_ready_1, disable_wait_for_ready_0,
  enable_wait_for_ready_1, ready, Env,
}

-- The outcome of a call: a step where it returned 0, and nothing of the control changed otherwise.
abbrev pub Stepped : Env → Look → Ctrlr → Ret × Ctrlr → Type 0
Stepped e l c (ret, c') =
    ((is_success ret ≡ true) × Step (ready_to_in_ms e.cap) l.rdy l.now (control c) (control c'))
    ⊎ ((is_success ret ≡ false) × (control c' ≡ control c))

InTime-of : (l : Look) (t : Option ℕ) → expired l t ≡ false → InTime l.now t
unfolding InTime expired
InTime-of l none h = tt
InTime-of l (some t) h = ground (arith, h)

keep_waiting-Stepped :
    (e : Env) (l : Look) (c : Ctrlr)
    → (InTime l.now c.state_timeout_ms
        → Step (ready_to_in_ms e.cap) l.rdy l.now (control c) (control c))
    → AllSome (Stepped e l c) (keep_waiting e l c)
unfolding keep_waiting AllSome
keep_waiting-Stepped e l c h = elim (Bool-cases (expired l c.state_timeout_ms)) [
  | inl p ↦ rw p (
      bind-AllSome (Kept c) (Stepped e l c) (fail_ctrlr e c) (λ c1. some (failure, c1))
        (fail_ctrlr-Kept e c) (λ c1 k. inr (refl, k)))
  | inr p ↦ rw p (inl (refl, h (InTime-of l c.state_timeout_ms p)))
]

-- The control of a controller whose CC.EN and state are known.
at : Ctrlr → Bool → CtrlrState → Control
at c en state = record { en = en; state = state; timeout = c.state_timeout_ms }

control-at :
    (c : Ctrlr) (en : Bool) (state : CtrlrState)
    → c.cc.en ≡ en
    → c.state ≡ state
    → at c en state ≡ control c
unfolding at
control-at c en state p q =
    λ i. record { en = sym p i; state = sym q i; timeout = c.state_timeout_ms }

-- A step from there.
from :
    (e : Env) (l : Look) (c : Ctrlr) (en : Bool) (state : CtrlrState) (k : Control)
    → c.cc.en ≡ en
    → c.state ≡ state
    → Step (ready_to_in_ms e.cap) l.rdy l.now (at c en state) k
    → Step (ready_to_in_ms e.cap) l.rdy l.now (control c) k
from e l c en state k p q =
    subst (λ x. Step (ready_to_in_ms e.cap) l.rdy l.now x k) (control-at c en state p q)

-- A step that stays there.
stay :
    (e : Env) (l : Look) (c : Ctrlr) (en : Bool) (state : CtrlrState)
    → c.cc.en ≡ en
    → c.state ≡ state
    → Step (ready_to_in_ms e.cap) l.rdy l.now (at c en state) (at c en state)
    → Step (ready_to_in_ms e.cap) l.rdy l.now (control c) (control c)
stay e l c en state p q =
    subst (λ x. Step (ready_to_in_ms e.cap) l.rdy l.now x x) (control-at c en state p q)

-- Enabling a disabled controller enters the last waiting state, or changes nothing of the control.
try_enable-Stepped :
    (e : Env) (l : Look) (c : Ctrlr)
    → c.cc.en ≡ false
    → Step (ready_to_in_ms e.cap) l.rdy l.now (control c) (record {
      en = true;
      state = enable_wait_for_ready_1;
      timeout = some (l.now + ready_to_in_ms e.cap);
    })
    → Stepped e l c (try_enable e l c)
unfolding try_enable enable_ctrlr set_state
try_enable-Stepped e l c p h = go c.cc.en (arb_supported c.opts.arb_mechanism e.cap) p
  where
    enabling : Bool → Bool → Ret × Ctrlr
    enabling en arb =
        if en
        then (einval, c)
        else if arb
        then (success, record (set_admin_registers c) { cc = enabled_cc c.opts.arb_mechanism })
        else (einval, set_admin_registers c)

    outcome : Ret × Ctrlr → Ret × Ctrlr
    outcome (ret, c1) = (ret, if is_success ret then enter e l enable_wait_for_ready_1 c1 else c1)

    go : (en arb : Bool) → en ≡ false → Stepped e l c (outcome (enabling en arb))
    go true arb q = cc
    go false true q = inl (refl, h)
    go false false q = inr (refl, refl)

-- NVME_CTRLR_STATE_INIT
leave_init-Stepped :
    (e : Env) (l : Look) (c : Ctrlr) → c.state ≡ init → Stepped e l c (leave_init e l c)
unfolding leave_init set_state disable_ctrlr at
leave_init-Stepped e l c s = go c.cc.en l.rdy refl refl
  where
    leaving : Bool → Bool → Ret × Ctrlr
    leaving en rdy =
        if en
        then (
          success,
          if rdy
              then enter e l disable_wait_for_ready_0 (disable_ctrlr c)
              else enter e l disable_wait_for_ready_1 c,
        )
        else if rdy
        then (success, enter e l disable_wait_for_ready_0 c)
        else try_enable e l c

    go : (en rdy : Bool) → c.cc.en ≡ en → l.rdy ≡ rdy → Stepped e l c (leaving en rdy)
    go true true p q = inl (refl, from e l c true init _ p s (disable_now c.state_timeout_ms q))
    go true false p q = inl (
      refl,
      from e l c true init _ p s (
          subst
            (λ en. Step (ready_to_in_ms e.cap) l.rdy l.now (at c true init) (record {
              en = en;
              state = disable_wait_for_ready_1;
              timeout = some (l.now + ready_to_in_ms e.cap);
            }))
            (sym p) (await_ready c.state_timeout_ms q)),
    )
    go false true p q = inl (
      refl,
      from e l c false init _ p s (
          subst
            (λ en. Step (ready_to_in_ms e.cap) l.rdy l.now (at c false init) (record {
              en = en;
              state = disable_wait_for_ready_0;
              timeout = some (l.now + ready_to_in_ms e.cap);
            }))
            (sym p) (await_shutdown c.state_timeout_ms q)),
    )
    go false false p q =
        try_enable-Stepped e l c p (from e l c false init _ p s (enable_now c.state_timeout_ms q))

-- NVME_CTRLR_STATE_ENABLE_WAIT_FOR_READY_1 with the controller ready
try_start-Stepped :
    (e : Env) (l : Look) (c : Ctrlr)
    → c.state ≡ enable_wait_for_ready_1
    → l.rdy ≡ true
    → AllSome (Stepped e l c) (try_start e l c)
unfolding try_start set_state at AllSome
try_start-Stepped e l c s q =
    bind-AllSome (λ r. Kept c (r.1)) (Stepped e l c) (start e c)
      (λ r. some (r.0, if is_success (r.0) then set_state l.now ready none (r.1) else r.1))
      (start-Keeps e c) (λ r k. go (r.0) (r.1) (is_success (r.0)) refl k)
  where
    go :
        (ret : Ret) (c1 : Ctrlr) (b : Bool)
        → is_success ret ≡ b
        → Kept c c1
        → Stepped e l c (ret, if b then set_state l.now ready none c1 else c1)
    go ret c1 true p k = inl (
      p,
      from e l c c.cc.en enable_wait_for_ready_1 _ refl s (
          subst
            (λ en.
              Step (ready_to_in_ms e.cap) l.rdy l.now (at c c.cc.en enable_wait_for_ready_1)
                (record { en = en; state = ready; timeout = none }))
            (sym (ap (λ (k : Control). k.en) k)) (finish c.state_timeout_ms c.cc.en q)),
    )
    go ret c1 false p k = inr (p, k)

step_in-Stepped :
    (e : Env) (l : Look) (state : CtrlrState) (c : Ctrlr)
    → c.state ≡ state
    → Fits state c.cc.en
    → AllSome (Stepped e l c) (step_in e l state c)
unfolding step_in set_state disable_ctrlr Fits at AllSome
step_in-Stepped e l init c s f = leave_init-Stepped e l c s
step_in-Stepped e l disable_wait_for_ready_1 c s f =
    split-AllSome (Stepped e l c) l.rdy
      (some (success, enter e l disable_wait_for_ready_0 (disable_ctrlr c))) (keep_waiting e l c)
      (λ q. inl (
        refl,
        from e l c true disable_wait_for_ready_1 _ f s (disable_ready c.state_timeout_ms true q),
      ))
      (λ q. keep_waiting-Stepped e l c (λ t.
        stay e l c true disable_wait_for_ready_1 f s (wait_ready_1 c.state_timeout_ms true q t)))
step_in-Stepped e l disable_wait_for_ready_0 c s f =
    split-AllSome (Stepped e l c) l.rdy (keep_waiting e l c) (some (try_enable e l c))
      (λ q. keep_waiting-Stepped e l c (λ t.
        stay e l c false disable_wait_for_ready_0 f s (wait_ready_0 c.state_timeout_ms false q t)))
      (λ q.
        try_enable-Stepped e l c f
          (from e l c false disable_wait_for_ready_0 _ f s (enable_stopped c.state_timeout_ms q)))
step_in-Stepped e l enable_wait_for_ready_1 c s f =
    split-AllSome (Stepped e l c) l.rdy (try_start e l c) (keep_waiting e l c)
      (λ q. try_start-Stepped e l c s q)
      (λ q. keep_waiting-Stepped e l c (λ t.
        stay e l c true enable_wait_for_ready_1 f s (wait_enabled c.state_timeout_ms true q t)))
step_in-Stepped e l ready c s f = tt

-- A call of nvme_ctrlr_init that returns 0, on a controller whose CC.EN fits its state, takes one of
-- the steps of the state machine: what it sees of CSTS.RDY decides which, CC.EN and the state change
-- together, a state that is entered has the time of CAP.TO, and waiting on is for a state whose time
-- has not passed. A call that returns an error leaves CC.EN, the state and its time-out alone.
pub init_step-Stepped :
    (e : Env) (l : Look) (c : Ctrlr) (ret : Ret) (c' : Ctrlr)
    → Fits c.state c.cc.en
    → init_step e l c ≡ some (ret, c')
    → ((is_success ret ≡ true) × Step (ready_to_in_ms e.cap) l.rdy l.now (control c) (control c'))
      ⊎ ((is_success ret ≡ false) × (control c' ≡ control c))
unfolding init_step
init_step-Stepped e l c ret c' f p =
    AllSome-some (Stepped e l c) p (step_in-Stepped e l c.state c refl f)
