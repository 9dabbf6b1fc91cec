-- ===== src/Admin/Wait.antt =====
-- What an admin command returns: success only for a completion without an error status.
use libnvme.Prelude.{
  ℕ, zero, suc, ◌≡◌, refl, subst, true, false, Bool-cases, inl, inr, ◌⊎◌, Option, none, some,
  some_inj, none-ne-some, List, [], ◌∷◌, ◌++◌, ◌>>=◌, if_inv, ◌==◌, if◌then◌else◌,
}
use libnvme.Types.{
  Cmd, Cpl, zero_cpl, cpl_is_error, Qpair, Ret, success, enxio, einval, enomem, failure,
  sge_failure, user_cb,
}
use libnvme.Request.Frame.{>>=-eq-some}
use libnvme.Qpair.{Submit}
use libnvme.Qpair.Submit.{poll}
use libnvme.Admin.{
  is_success, done, AdminResult, admin_wait_cmd, wait_submitted, admin_exec_cmd, admin_submit_cmd,
  with_calls, waited,
}

done-append :
    (status : ℕ) (l m : List (ℕ × Cpl)) (cpl : Cpl)
    → done status l ≡ some cpl
    → done status (l ++ m) ≡ some cpl
unfolding done
done-append status [] m cpl e = absurd (none-ne-some e)
done-append status ((arg, c) ∷ l) m cpl e = elim (Bool-cases (arg == status)) [
  | inl p ↦ rw p (rw p at e)
  | inr p ↦ rw p (done-append status l m cpl (rw p at e))
]

pub is_success-inv : (ret : Ret) → is_success ret ≡ true → ret ≡ success
is_success-inv success h = refl
is_success-inv enxio h = cc
is_success-inv einval h = cc
is_success-inv enomem h = cc
is_success-inv failure h = cc
is_success-inv sge_failure h = cc

-- The return value that a completion stands for.
abbrev pub ret_for : Cpl → Ret
ret_for cpl = if cpl_is_error cpl then enxio else success

-- What a finished wait knows.
abbrev Waited : ℕ → AdminResult → Type 0
Waited status (ret, cpl, q) = (done status q.calls ≡ some cpl) × (ret ≡ ret_for cpl)

module _ (vtophys : ℕ → ℕ) (sges : ℕ → ℕ → List (ℕ × ℕ)) (submit : Submit)
    (device : Qpair → Qpair) where
  admin_wait_cmd-Waited :
      (fuel status : ℕ) (q : Qpair) (res : AdminResult)
      → admin_wait_cmd vtophys sges submit device fuel status q ≡ some res
      → Waited status res
  unfolding admin_wait_cmd
  admin_wait_cmd-Waited zero status q res e = absurd (none-ne-some e)
  admin_wait_cmd-Waited (suc fuel) status q res e =
      go (done status q.calls) refl e
        (λ (r : ℕ × Qpair) p. admin_wait_cmd-Waited fuel status (r.1) res p)
    where
      go :
          (o : Option Cpl)
          → done status q.calls ≡ o
          → (elim o [
            | none ↦ poll vtophys sges submit (device q) 0 >>= λ r.
                admin_wait_cmd vtophys sges submit device fuel status (r.1)
            | some cpl ↦ some (waited cpl q)
          ])
            ≡ some res
          → ((r : ℕ × Qpair)
              → admin_wait_cmd vtophys sges submit device fuel status (r.1) ≡ some res
              → Waited status res)
          → Waited status res
      go none d p again =
          let (r, _, p') = >>=-eq-some (poll vtophys sges submit (device q) 0) _ p in again r p'
      go (some cpl) d p again = subst (Waited status) (some_inj p) (d, refl)

  pub admin_exec_cmd-Result :
      (fuel status : ℕ) (cmd : Cmd) (buf : Option ℕ) (len : ℕ) (q : Qpair) (ret : Ret) (cpl : Cpl)
      (q' : Qpair)
      → admin_exec_cmd vtophys sges submit device fuel status cmd buf len q ≡ some (ret, cpl, q')
      → (is_success ret ≡ false)
        ⊎ ((done status q'.calls ≡ some cpl) × (ret ≡ success) × (cpl_is_error cpl ≡ false))
  unfolding admin_exec_cmd wait_submitted
  admin_exec_cmd-Result fuel status cmd buf len q ret cpl q' e =
      let ((ret1, q1), _, p1) =
        >>=-eq-some (admin_submit_cmd submit (record q { calls = [] }) cmd buf len user_cb status) _
          e in
      let ((ret2, cpl2, q2), e2, p2) =
        >>=-eq-some (wait_submitted vtophys sges submit device fuel status (ret1, q1)) _ p1 in
      subst Outcome (some_inj p2) (finished ret1 q1 ret2 cpl2 q2 e2)
    where
      Outcome : AdminResult → Type 0
      Outcome (ret, cpl, q) =
          (is_success ret ≡ false)
          ⊎ ((done status q.calls ≡ some cpl) × (ret ≡ success) × (cpl_is_error cpl ≡ false))

      completed :
          (cpl : Cpl) (q2 : Qpair) (ret : Ret)
          → done status q2.calls ≡ some cpl
          → ret ≡ ret_for cpl
          → Outcome (with_calls q.calls (ret, cpl, q2))
      completed cpl q2 ret d r = elim (Bool-cases (cpl_is_error cpl)) [
        | inl bad ↦ inl (rw (r, bad) refl)
        | inr good ↦ inr (done-append status q2.calls q.calls cpl d, rw (r, good) refl, good)
      ]

      finished :
          (ret1 : Ret) (q1 : Qpair) (ret2 : Ret) (cpl2 : Cpl) (q2 : Qpair)
          → wait_submitted vtophys sges submit device fuel status (ret1, q1) ≡ some (ret2, cpl2, q2)
          → Outcome (with_calls q.calls (ret2, cpl2, q2))
      finished ret1 q1 ret2 cpl2 q2 p =
          elim (if_inv (is_success ret1) (admin_wait_cmd vtophys sges submit device fuel status q1)
            (some (ret1, zero_cpl, q1)) p) [
              | inl (_, w) ↦
                  let (d, r) = admin_wait_cmd-Waited fuel status q1 (ret2, cpl2, q2) w in
                  completed cpl2 q2 ret2 d r
              | inr (f, w) ↦
                  inl (subst (λ (x : AdminResult). is_success (x.0) ≡ false) (some_inj w) f)
            ]
