-- ===== src/Ctrlr/Init/Control.antt =====
-- The part of a controller that nvme_ctrlr_init steers by, and the steps that it takes, as the
-- comments of enum nvme_ctrlr_state describe them.
use libnvme.Prelude.{ℕ, ◌+◌, ◌≤◌, ◌≡◌, Bool, true, false, Option, none, some}
use libnvme.Ctrlr.State.{
  Ctrlr, CtrlrState, init, disable_wait_for_ready_1, disable_wait_for_ready_0,
  enable_wait_for_ready_1, ready,
}

-- CC.EN, the state and its time-out.
pub record Control : Type 0 where
  pub en : Bool
  pub state : CtrlrState
  pub timeout : Option ℕ

abbrev pub control : Ctrlr → Control
control c = record { en = c.cc.en; state = c.state; timeout = c.state_timeout_ms }

-- The time-out has not passed at the time `now`.
unfoldable pub InTime : ℕ → Option ℕ → Type 0
InTime now none = Unit
InTime now (some t) = now ≤ t

-- What a state says of CC.EN.
unfoldable pub Fits : CtrlrState → Bool → Type 0
Fits init en = Unit
Fits disable_wait_for_ready_1 en = en ≡ true
Fits disable_wait_for_ready_0 en = en ≡ false
Fits enable_wait_for_ready_1 en = en ≡ true
Fits ready en = en ≡ true

-- The step that a call takes when it sees `rdy` at the time `now`; a state that is entered has the
-- time `limit`.
pub data Step (limit : ℕ) (rdy : Bool) (now : ℕ) : Control → Control → Type 0 where
  await_ready :
      (t : Option ℕ)
      → rdy ≡ false
      → Step limit rdy now
          (record { en = true; state = init; timeout = t })
          (record { en = true; state = disable_wait_for_ready_1; timeout = some (now + limit) })
  disable_now :
      (t : Option ℕ)
      → rdy ≡ true
      → Step limit rdy now
          (record { en = true; state = init; timeout = t })
          (record { en = false; state = disable_wait_for_ready_0; timeout = some (now + limit) })
  await_shutdown :
      (t : Option ℕ)
      → rdy ≡ true
      → Step limit rdy now
          (record { en = false; state = init; timeout = t })
          (record { en = false; state = disable_wait_for_ready_0; timeout = some (now + limit) })
  enable_now :
      (t : Option ℕ)
      → rdy ≡ false
      → Step limit rdy now
          (record { en = false; state = init; timeout = t })
          (record { en = true; state = enable_wait_for_ready_1; timeout = some (now + limit) })
  disable_ready :
      (t : Option ℕ) (en : Bool)
      → rdy ≡ true
      → Step limit rdy now
          (record { en = en; state = disable_wait_for_ready_1; timeout = t })
          (record { en = false; state = disable_wait_for_ready_0; timeout = some (now + limit) })
  enable_stopped :
      (t : Option ℕ)
      → rdy ≡ false
      → Step limit rdy now
          (record { en = false; state = disable_wait_for_ready_0; timeout = t })
          (record { en = true; state = enable_wait_for_ready_1; timeout = some (now + limit) })
  finish :
      (t : Option ℕ) (en : Bool)
      → rdy ≡ true
      → Step limit rdy now
          (record { en = en; state = enable_wait_for_ready_1; timeout = t })
          (record { en = en; state = ready; timeout = none })
  wait_ready_1 :
      (t : Option ℕ) (en : Bool)
      → rdy ≡ false
      → InTime now t
      → Step limit rdy now
          (record { en = en; state = disable_wait_for_ready_1; timeout = t })
          (record { en = en; state = disable_wait_for_ready_1; timeout = t })
  wait_ready_0 :
      (t : Option ℕ) (en : Bool)
      → rdy ≡ true
      → InTime now t
      → Step limit rdy now
          (record { en = en; state = disable_wait_for_ready_0; timeout = t })
          (record { en = en; state = disable_wait_for_ready_0; timeout = t })
  wait_enabled :
      (t : Option ℕ) (en : Bool)
      → rdy ≡ false
      → InTime now t
      → Step limit rdy now
          (record { en = en; state = enable_wait_for_ready_1; timeout = t })
          (record { en = en; state = enable_wait_for_ready_1; timeout = t })
