-- ===== src/Ctrlr/Init/Waiting.antt =====
-- How long the loop around nvme_ctrlr_init can wait: each waiting state has the time of CAP.TO, and
-- there are at most three of them.
use libnvme.Prelude.{
  ℕ, ◌+◌, ◌*◌, ◌≤◌, ◌≡◌, refl, sym, subst, Bool, false, inl, inr, Option, some, List, [], ◌∷◌,
  arith,
}
use libnvme.Types.{success}
use libnvme.Ctrlr.{ready_to_in_ms}
use libnvme.Ctrlr.Init.{Look, init_step, is_ready}
use libnvme.Ctrlr.Init.Control.{
  Control, control, InTime, Fits, Step, await_ready, disable_now, await_shutdown, enable_now,
  disable_ready, enable_stopped, finish, wait_ready_1, wait_ready_0, wait_enabled,
}
use libnvme.Ctrlr.Init.Steps.{init_step-Stepped}
use libnvme.Ctrlr.Init.Runs.{init_step-Toggles}
use libnvme.Ctrlr.State.{
  Ctrlr, CtrlrState, init, disable_wait_for_ready_1, disable_wait_for_ready_0,
  enable_wait_for_ready_1, ready, Env,
}

-- The loop goes on through all the looks: each call returns 0, and none reaches READY.
pub data GoesOn (e : Env) : List Look → Ctrlr → Type 0 where
  so_far : (c : Ctrlr) → GoesOn e [] c
  call :
      (l : Look) (looks : List Look) (c c' : Ctrlr)
      → init_step e l c ≡ some (success, c')
      → is_ready c'.state ≡ false
      → GoesOn e looks c'
      → GoesOn e (l ∷ looks) c

-- Each look is at most `gap` after the one before, the first after `now`.
unfoldable pub Paced : ℕ → ℕ → List Look → Type 0
Paced gap now [] = Unit
Paced gap now (l ∷ looks) = (l.now ≤ now + gap) × Paced gap l.now looks

-- The time of the last look.
unfoldable pub last_time : ℕ → List Look → ℕ
last_time now [] = now
last_time now (l ∷ looks) = last_time l.now looks

-- The time that the states after a waiting state can take, where each takes at most `x`.
unfoldable pub budget : ℕ → CtrlrState → ℕ
budget x init = 3 * x
budget x disable_wait_for_ready_1 = 2 * x
budget x disable_wait_for_ready_0 = x
budget x enable_wait_for_ready_1 = 0
budget x ready = 0

unfoldable IsWaiting : CtrlrState → Type 0
IsWaiting init = ⊥
IsWaiting ready = ⊥
IsWaiting _ = Unit

-- A waiting state with a deadline, at a time before it, and all that can still follow.
record Deadline (x bound now : ℕ) (k : Control) : Type 0 where
  time : ℕ
  known : k.timeout ≡ some time
  waits : IsWaiting k.state
  ahead : now ≤ time
  enough : time + budget x k.state ≤ bound

in_time : (now time : ℕ) (o : Option ℕ) → InTime now o → o ≡ some time → now ≤ time
unfolding InTime
in_time now time o h e = subst (InTime now) e h

later :
    {x bound : ℕ} {k : Control} (before now : ℕ) (d : Deadline x bound before k)
    → now ≤ d.time
    → Deadline x bound now k
later before now d h = record {
  time = d.time;
  known = d.known;
  waits = d.waits;
  ahead = h;
  enough = d.enough;
}

-- A step from a waiting state that does not end the wait leaves a deadline again.
Step-Deadline :
    (limit gap bound before now : ℕ) (rdy : Bool) (k k' : Control)
    → Step limit rdy now k k'
    → is_ready k'.state ≡ false
    → now ≤ before + gap
    → Deadline (limit + gap) bound before k
    → Deadline (limit + gap) bound now k'
unfolding IsWaiting budget is_ready
Step-Deadline limit gap bound before now rdy _ _ (await_ready t q) r h d = absurd d.waits
Step-Deadline limit gap bound before now rdy _ _ (disable_now t q) r h d = absurd d.waits
Step-Deadline limit gap bound before now rdy _ _ (await_shutdown t q) r h d = absurd d.waits
Step-Deadline limit gap bound before now rdy _ _ (enable_now t q) r h d = absurd d.waits
Step-Deadline limit gap bound before now rdy _ _ (disable_ready t en q) r h d = record {
  time = now + limit;
  known = refl;
  waits = tt;
  ahead = omega arith;
  enough = omega (arith, h, d.ahead, d.enough);
}
Step-Deadline limit gap bound before now rdy _ _ (enable_stopped t q) r h d = record {
  time = now + limit;
  known = refl;
  waits = tt;
  ahead = omega arith;
  enough = omega (arith, h, d.ahead, d.enough);
}
Step-Deadline limit gap bound before now rdy _ _ (finish t en q) r h d = cc
Step-Deadline limit gap bound before now rdy _ _ (wait_ready_1 t en q i) r h d =
    later before now d (in_time now d.time t i d.known)
Step-Deadline limit gap bound before now rdy _ _ (wait_ready_0 t en q i) r h d =
    later before now d (in_time now d.time t i d.known)
Step-Deadline limit gap bound before now rdy _ _ (wait_enabled t en q i) r h d =
    later before now d (in_time now d.time t i d.known)

-- The first call enters a waiting state.
Step-start :
    (limit gap now : ℕ) (rdy : Bool) (k k' : Control)
    → Step limit rdy now k k'
    → k.state ≡ init
    → Deadline (limit + gap) (now + 3 * limit + 2 * gap) now k'
unfolding IsWaiting budget
Step-start limit gap now rdy _ _ (await_ready t q) s = record {
  time = now + limit;
  known = refl;
  waits = tt;
  ahead = omega arith;
  enough = omega arith;
}
Step-start limit gap now rdy _ _ (disable_now t q) s = record {
  time = now + limit;
  known = refl;
  waits = tt;
  ahead = omega arith;
  enough = omega arith;
}
Step-start limit gap now rdy _ _ (await_shutdown t q) s = record {
  time = now + limit;
  known = refl;
  waits = tt;
  ahead = omega arith;
  enough = omega arith;
}
Step-start limit gap now rdy _ _ (enable_now t q) s = record {
  time = now + limit;
  known = refl;
  waits = tt;
  ahead = omega arith;
  enough = omega arith;
}
Step-start limit gap now rdy _ _ (disable_ready t en q) s = cc
Step-start limit gap now rdy _ _ (enable_stopped t q) s = cc
Step-start limit gap now rdy _ _ (finish t en q) s = cc
Step-start limit gap now rdy _ _ (wait_ready_1 t en q i) s = cc
Step-start limit gap now rdy _ _ (wait_ready_0 t en q i) s = cc
Step-start limit gap now rdy _ _ (wait_enabled t en q i) s = cc

init-Fits : (c : Ctrlr) → c.state ≡ init → Fits c.state c.cc.en
unfolding Fits
init-Fits c s = subst (λ x. Fits x c.cc.en) (sym s) tt

-- The step of a call that returned 0.
step-of :
    (e : Env) (l : Look) (c c' : Ctrlr)
    → Fits c.state c.cc.en
    → init_step e l c ≡ some (success, c')
    → Step (ready_to_in_ms e.cap) l.rdy l.now (control c) (control c')
step-of e l c c' f p = elim (init_step-Stepped e l c success c' f p) [
  | inl (_, s) ↦ s
  | inr (b, _) ↦ cc
]

run-Deadline :
    (e : Env) (gap bound before : ℕ) (looks : List Look) (c : Ctrlr)
    → GoesOn e looks c
    → Fits c.state c.cc.en
    → Paced gap before looks
    → Deadline (ready_to_in_ms e.cap + gap) bound before (control c)
    → last_time before looks ≤ bound
unfolding Paced last_time
run-Deadline e gap bound before _ _ (so_far c) f p d = omega (arith, d.ahead, d.enough)
run-Deadline e gap bound before _ _ (call l looks c c' s r go) f (h, p) d =
    run-Deadline e gap bound l.now looks c' go (init_step-Toggles e l c success c' f s).0 p (
      Step-Deadline (ready_to_in_ms e.cap) gap bound before l.now l.rdy (control c) (control c')
        (step-of e l c c' f s) r h d)

-- From the state INIT, the loop around nvme_ctrlr_init cannot go on for longer than three times the
-- time of CAP.TO and twice the longest pause between two calls: that is how far the last call that
-- returned 0 without reaching READY can be from the first.
pub loop-ends :
    (e : Env) (gap : ℕ) (l : Look) (looks : List Look) (c : Ctrlr)
    → c.state ≡ init
    → Paced gap l.now looks
    → GoesOn e (l ∷ looks) c
    → last_time l.now looks ≤ l.now + 3 * (500 * e.cap.to) + 2 * gap
unfolding ready_to_in_ms
loop-ends e gap l looks c s p (call _ _ _ c' q r go) =
    run-Deadline e gap _ l.now looks c' go (init_step-Toggles e l c success c' f q).0 p (
      Step-start (ready_to_in_ms e.cap) gap l.now l.rdy (control c) (control c')
        (step-of e l c c' f q) s)
  where
    f : Fits c.state c.cc.en
    f = init-Fits c s
