-- ===== src/Request/Frame.antt =====
-- The request functions touch the request store, the free list and the record of calls alone.
use libnvme.Prelude.{
  ℕ, zero, suc, ◌≡◌, refl, ◌∙◌, sym, ap, Bool-cases, inl, inr, Bool, true, false, ◌∷◌, Option, none,
  some, [], ◌==◌, if◌then◌else◌, ◌>>=◌, some_inj, none-ne-some,
}
use libnvme.Types.{
  Cpl, cpl_is_error, no_cb, user_cb, complete_child_cb, Callback, Request, zero_request, Qpair,
}
use libnvme.Request.{set_req, request_free, is_parent, remove_child, complete_child, run_cb}

-- A queue pair without what the request functions work on.
abbrev pub core : Qpair → Qpair
core q = record q { reqs = λ _. zero_request; free_req = []; calls = [] }

-- Inversion of a step that did not stop.
pub >>=-eq-some {ℓ κ} :
    {A : Type ℓ} {B : Type κ} (m : Option A) (f : A → Option B) {b : B}
    → (m >>= f) ≡ some b
    → (a : A) × (m ≡ some a) × (f a ≡ some b)
>>=-eq-some none f h = absurd (none-ne-some h)
>>=-eq-some (some a) f h = (a, refl, h)

pub core-request_free :
    (q : Qpair) (r : ℕ) {q' : Qpair} → request_free q r ≡ some q' → core q' ≡ core q
unfolding request_free
core-request_free q r e = elim (Bool-cases ((q.reqs r).child_reqs == 0)) [
  | inl p ↦ sym (ap core (some_inj (rw p at e)))
  | inr p ↦ absurd (none-ne-some (rw p at e))
]

pub core-remove_child :
    (q : Qpair) (p c : ℕ) {q' : Qpair} → remove_child q p c ≡ some q' → core q' ≡ core q
unfolding remove_child
core-remove_child q p c e = elim (Bool-cases (is_parent (q.reqs c).parent p)) [
  | inl h ↦ elim (Bool-cases ((q.reqs p).child_reqs == 0)) [
    | inl z ↦ absurd (none-ne-some (rw (h, z) at e))
    | inr z ↦ sym (ap core (some_inj (rw (h, z) at e)))
  ]
  | inr h ↦ absurd (none-ne-some (rw h at e))
]

abbrev pub KeepsCore : (Qpair → ℕ → Cpl → Option Qpair) → Type 0
KeepsCore f = (q : Qpair) (r : ℕ) (cpl : Cpl) (q' : Qpair) → f q r cpl ≡ some q' → core q' ≡ core q

-- The parent's status is written; then the parent is completed and freed, or nothing is done.
finish_parent :
    (f : Qpair → ℕ → Cpl → Option Qpair)
    → KeepsCore f
    → (q2 : Qpair) (p : ℕ) (last : Bool) (q' : Qpair)
    → (if last then (f q2 p (q2.reqs p).parent_status >>= λ q3. request_free q3 p) else some q2)
      ≡ some q'
    → core q' ≡ core q2
finish_parent f k q2 p true q' e =
    let (q3, e1, e2) = >>=-eq-some (f q2 p (q2.reqs p).parent_status) _ e in
    core-request_free q3 p e2 ∙ k q2 p _ q3 e1
finish_parent f k q2 p false q' e = sym (ap core (some_inj e))

core-written :
    (b : Bool) (q : Qpair) (p : ℕ) (v : Request) → core (if b then set_req q p v else q) ≡ core q
core-written true q p v = refl
core-written false q p v = refl

core-complete_child :
    (f : Qpair → ℕ → Cpl → Option Qpair) → KeepsCore f → KeepsCore (complete_child f)
unfolding complete_child
core-complete_child f k q c cpl q' e =
    let (p, ep, e1) = >>=-eq-some (q.reqs c).parent _ e in
    let (q1, e2, e3) = >>=-eq-some (remove_child q p c) _ e1 in
    finish_parent f k _ p _ q' e3
    ∙ core-written (cpl_is_error cpl) q1 p _
    ∙ core-remove_child q p c e2

run_cb_case :
    (f : Qpair → ℕ → Cpl → Option Qpair)
    → KeepsCore f
    → (q : Qpair) (r : ℕ) (cpl : Cpl) (q' : Qpair) (k : Callback)
    → (elim k [
      | no_cb ↦ some q
      | user_cb ↦ some (record q { calls = ((q.reqs r).cb_arg, cpl) ∷ q.calls })
      | complete_child_cb ↦ complete_child f q (q.reqs r).cb_arg cpl
    ])
      ≡ some q'
    → core q' ≡ core q
run_cb_case f k q r cpl q' no_cb e = sym (ap core (some_inj e))
run_cb_case f k q r cpl q' user_cb e = sym (ap core (some_inj e))
run_cb_case f k q r cpl q' complete_child_cb e =
    core-complete_child f k q (q.reqs r).cb_arg cpl q' e

pub core-run_cb : (depth : ℕ) → KeepsCore (run_cb depth)
unfolding run_cb
core-run_cb zero q r cpl q' e = absurd (none-ne-some e)
core-run_cb (suc d) q r cpl q' e =
    run_cb_case (run_cb d) (core-run_cb d) q r cpl q' (q.reqs r).cb_fn e
