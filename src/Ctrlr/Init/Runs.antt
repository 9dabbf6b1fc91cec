-- ===== src/Ctrlr/Init/Runs.antt =====
-- Runs of nvme_ctrlr_init: when CC.EN is toggled, what a finished loop has reached, and how long the
-- loop can go on.
use libnvme.Prelude.{
  ℕ, ◌≡◌, refl, sym, subst, Bool, true, false, inl, inr, Option, some, some_inj, none-ne-some, List,
  [], ◌∷◌, if_inv,
}
use libnvme.Types.{Ret, success}
use libnvme.Request.Frame.{>>=-eq-some}
use libnvme.Admin.{is_success}
use libnvme.Ctrlr.Init.{Look, init_step, init_loop, is_ready}
use libnvme.Ctrlr.Init.Control.{
  Control, control, Fits, Step, await_ready, disable_now, await_shutdown, enable_now, disable_ready,
  enable_stopped, finish, wait_ready_1, wait_ready_0, wait_enabled,
}
use libnvme.Ctrlr.Init.Steps.{init_step-Stepped}
use libnvme.Ctrlr.State.{
  Ctrlr, CtrlrState, init, disable_wait_for_ready_1, disable_wait_for_ready_0,
  enable_wait_for_ready_1, ready, Env,
}

-- CC.EN goes from 1 to 0 only where CSTS.RDY is 1, and from 0 to 1 only where it is 0.
unfoldable pub Toggles : Bool → Bool → Bool → Type 0
Toggles rdy true false = rdy ≡ true
Toggles rdy false true = rdy ≡ false
Toggles rdy _ _ = Unit

same-Toggles : (rdy en : Bool) → Toggles rdy en en
unfolding Toggles
same-Toggles rdy true = tt
same-Toggles rdy false = tt

Step-Toggles :
    {limit now : ℕ} {rdy : Bool} (k k' : Control) → Step limit rdy now k k' → Toggles rdy k.en k'.en
unfolding Toggles
Step-Toggles _ _ (await_ready t q) = tt
Step-Toggles _ _ (disable_now t q) = q
Step-Toggles _ _ (await_shutdown t q) = tt
Step-Toggles _ _ (enable_now t q) = q
Step-Toggles _ _ (disable_ready t true q) = q
Step-Toggles _ _ (disable_ready t false q) = tt
Step-Toggles _ _ (enable_stopped t q) = q
Step-Toggles {rdy} _ _ (finish t en q) = same-Toggles rdy en
Step-Toggles {rdy} _ _ (wait_ready_1 t en q r) = same-Toggles rdy en
Step-Toggles {rdy} _ _ (wait_ready_0 t en q r) = same-Toggles rdy en
Step-Toggles {rdy} _ _ (wait_enabled t en q r) = same-Toggles rdy en

Step-Fits :
    {limit now : ℕ} {rdy : Bool} (k k' : Control)
    → Step limit rdy now k k'
    → Fits k.state k.en
    → Fits k'.state k'.en
unfolding Fits
Step-Fits _ _ (await_ready t q) f = refl
Step-Fits _ _ (disable_now t q) f = refl
Step-Fits _ _ (await_shutdown t q) f = refl
Step-Fits _ _ (enable_now t q) f = refl
Step-Fits _ _ (disable_ready t en q) f = refl
Step-Fits _ _ (enable_stopped t q) f = refl
Step-Fits _ _ (finish t en q) f = f
Step-Fits _ _ (wait_ready_1 t en q r) f = f
Step-Fits _ _ (wait_ready_0 t en q r) f = f
Step-Fits _ _ (wait_enabled t en q r) f = f

-- Whatever a call of nvme_ctrlr_init returns, on a controller whose CC.EN fits its state: CC.EN still
-- fits the state, and it was cleared only where CSTS.RDY was 1 and set only where CSTS.RDY was 0.
pub init_step-Toggles :
    (e : Env) (l : Look) (c : Ctrlr) (ret : Ret) (c' : Ctrlr)
    → Fits c.state c.cc.en
    → init_step e l c ≡ some (ret, c')
    → Fits c'.state c'.cc.en × Toggles l.rdy c.cc.en c'.cc.en
init_step-Toggles e l c ret c' f p = elim (init_step-Stepped e l c ret c' f p) [
  | inl (_, s) ↦ (Step-Fits (control c) (control c') s f, Step-Toggles (control c) (control c') s)
  | inr (_, k) ↦
      subst (λ (x : Control). Fits x.state x.en × Toggles l.rdy c.cc.en x.en) (sym k)
        (f, same-Toggles l.rdy c.cc.en)
]

is_ready-inv : (state : CtrlrState) → is_ready state ≡ true → state ≡ ready
unfolding is_ready
is_ready-inv init h = cc
is_ready-inv disable_wait_for_ready_1 h = cc
is_ready-inv disable_wait_for_ready_0 h = cc
is_ready-inv enable_wait_for_ready_1 h = cc
is_ready-inv ready h = refl

-- What a finished loop has reached.
abbrev Arrived : Ctrlr → Type 0
Arrived c = (c.state ≡ ready) × (c.cc.en ≡ true)

arrived : (c : Ctrlr) → Fits c.state c.cc.en → is_ready c.state ≡ true → Arrived c
unfolding Fits
arrived c f r = let s = is_ready-inv c.state r in (s, subst (λ x. Fits x c.cc.en) s f)

stopped :
    (c c' : Ctrlr)
    → Fits c.state c.cc.en
    → is_ready c.state ≡ true
    → ◌≡◌ {A = Option (Ret × Ctrlr)} (some (success, c)) (some (success, c'))
    → Arrived c'
stopped c c' f r h = subst (λ (x : Ret × Ctrlr). Arrived (x.1)) (some_inj h) (arrived c f r)

-- Where the loop of nvme_ctrlr_attach and of nvme_ctrlr_reset ends with success, the controller is in
-- the state READY with CC.EN set, if CC.EN fitted the state at the start.
pub init_loop-ready :
    (e : Env) (looks : List Look) (c c' : Ctrlr)
    → Fits c.state c.cc.en
    → init_loop e looks c ≡ some (success, c')
    → (c'.state ≡ ready) × (c'.cc.en ≡ true)
unfolding init_loop
init_loop-ready e [] c c' f p = elim (if_inv (is_ready c.state) _ _ p) [
  | inl (r, h) ↦ stopped c c' f r h
  | inr (r, h) ↦ absurd (none-ne-some h)
]
init_loop-ready e (l ∷ ls) c c' f p = elim (if_inv (is_ready c.state) _ _ p) [
  | inl (r, h) ↦ stopped c c' f r h
  | inr (r, h) ↦
      let ((ret, c1), h1, h2) = >>=-eq-some (init_step e l c) _ h in
      let (f1, _) = init_step-Toggles e l c ret c1 f h1 in
      elim (if_inv (is_success ret) _ _ h2) [
        | inl (_, h3) ↦ init_loop-ready e ls c1 c' f1 h3
        | inr (b, h3) ↦ cc (subst (λ (x : Ret × Ctrlr). is_success (x.0) ≡ false) (some_inj h3) b)
      ]
]
