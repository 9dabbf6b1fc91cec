-- ===== src/Ctrlr/Reset/Outcome.antt =====
-- What nvme_ctrlr_reset leaves behind.
use libnvme.Prelude.{
  ℕ, ◌≡◌, refl, ap, subst, ◌∙◌, Bool, true, false, inl, inr, Option, none, some, List, [], ◌∷◌,
  ◌||◌, if◌then◌else◌, ◌>>=◌, if_inv, arith,
}
use libnvme.Types.{Ret, success, failure}
use libnvme.Common.Results.{
  AllSome, bind-AllSome, then-AllSome, if-AllSome, split-AllSome, AllSome-some, to-AllSome,
}
use libnvme.Admin.{is_success}
use libnvme.Admin.Wait.{is_success-inv}
use libnvme.Ctrlr.{set_state}
use libnvme.Ctrlr.Init.{Look, fail_ctrlr, init_loop}
use libnvme.Ctrlr.Init.Control.{Control, Fits}
use libnvme.Ctrlr.Init.Expiry.{CtrlrFailed, fail_ctrlr-CtrlrFailed}
use libnvme.Ctrlr.Init.Frame.{
  Kept, Keeps, on_qpair-Keeps, chain-Keeps, Keeps-trans, fail_ctrlr-Kept,
}
use libnvme.Ctrlr.Init.Runs.{init_loop-ready}
use libnvme.Ctrlr.Qpairs.{create_sq, create_qpair}
use libnvme.Ctrlr.Reset.{
  disable_admin, disable_each, recreate_each, end_reset, after_init, begin_reset, run_reset,
  reset_ctrlr,
}
use libnvme.Ctrlr.Start.{ids_from}
use libnvme.Ctrlr.State.{Ctrlr, init, ready, Env}

create_sq-Keeps : (e : Env) (id : ℕ) (c : Ctrlr) → Keeps c (create_sq e id c)
unfolding create_sq AllSome
create_sq-Keeps e id c = chain-Keeps c _ _ (on_qpair-Keeps c 0 _) (λ r p.
    if-AllSome (λ r. Kept c (r.1)) (is_success (r.0)) _ _ p
      (chain-Keeps c _ _ (Keeps-trans c (r.1) _ p (on_qpair-Keeps (r.1) 0 _)) (λ r2 p2. p2)))

create_qpair-Keeps : (e : Env) (id : ℕ) (c : Ctrlr) → Keeps c (create_qpair e id c)
unfolding create_qpair AllSome
create_qpair-Keeps e id c = chain-Keeps c _ _ (on_qpair-Keeps c 0 _) (λ r p.
    if-AllSome (λ r. Kept c (r.1)) (is_success (r.0)) _ _
      (Keeps-trans c (r.1) _ p (create_sq-Keeps e id (r.1))) p)

Kept-along :
    (c c1 : Ctrlr) (m : Option Ctrlr) → Kept c c1 → AllSome (Kept c1) m → AllSome (Kept c) m
unfolding AllSome
Kept-along c c1 none p k = tt
Kept-along c c1 (some c2) p k = k ∙ p

recreate_each-Kept : (e : Env) (ids : List ℕ) (c : Ctrlr) → AllSome (Kept c) (recreate_each e ids c)
unfolding recreate_each AllSome
recreate_each-Kept e [] c = refl
recreate_each-Kept e (id ∷ ids) c =
    bind-AllSome (λ (r : Ret × Ctrlr). Kept c (r.1)) (Kept c) (create_qpair e id c) _
      (create_qpair-Keeps e id c)
      (λ r p.
        if-AllSome (Kept c) (is_success (r.0)) (recreate_each e ids (r.1))
          (fail_ctrlr e (r.1) >>= recreate_each e ids)
          (Kept-along c (r.1) _ p (recreate_each-Kept e ids (r.1)))
          (bind-AllSome (Kept (r.1)) (Kept c) (fail_ctrlr e (r.1)) (recreate_each e ids)
            (fail_ctrlr-Kept e (r.1))
            (λ c2 k. Kept-along c c2 _ (k ∙ p) (recreate_each-Kept e ids c2))))

-- What a reset that returns 0 has reached.
unfoldable pub IsUp : Ctrlr → Type 0
IsUp c =
    (c.state ≡ ready) × (c.cc.en ≡ true) × (c.flags.failed ≡ false) × (c.flags.resetting ≡ false)

-- The outcome of the end of a reset: up where it returns 0.
UpOrFailed : Ret × Ctrlr → Type 0
UpOrFailed (ret, c) = ret ≡ success → IsUp c

end_reset-up : (c : Ctrlr) → c.state ≡ ready → c.cc.en ≡ true → UpOrFailed (end_reset c)
unfolding UpOrFailed IsUp
end_reset-up c s n = go c.flags.failed refl
  where
    go :
        (b : Bool)
        → c.flags.failed ≡ b
        → (if b then failure else success) ≡ success
        → IsUp (end_reset c).1
    go true p q = cc
    go false p q = (s, n, p, refl)

end_reset-down : (c : Ctrlr) → CtrlrFailed c → UpOrFailed (end_reset c)
unfolding UpOrFailed
end_reset-down c h = go c.flags.failed h
  where
    go : (b : Bool) → b ≡ true → (if b then failure else success) ≡ success → IsUp (end_reset c).1
    go true p q = cc
    go false p q = cc

after_init-up :
    (e : Env) (ret : Ret) (c : Ctrlr)
    → (is_success ret ≡ true → (c.state ≡ ready) × (c.cc.en ≡ true))
    → AllSome UpOrFailed (after_init e (ret, c))
unfolding after_init AllSome
after_init-up e ret c h =
    split-AllSome UpOrFailed (is_success ret)
      (recreate_each e c.active_io_qpairs c >>= λ c1. some (end_reset c1))
      (fail_ctrlr e c >>= λ c1. some (end_reset c1))
      (λ p.
        bind-AllSome (Kept c) UpOrFailed (recreate_each e c.active_io_qpairs c)
          (λ c1. some (end_reset c1)) (recreate_each-Kept e c.active_io_qpairs c)
          (λ c1 k.
            end_reset-up c1 (ap (λ (k : Control). k.state) k ∙ (h p).0)
              (ap (λ (k : Control). k.en) k ∙ (h p).1)))
      (λ p.
        bind-AllSome CtrlrFailed UpOrFailed (fail_ctrlr e c) (λ c1. some (end_reset c1))
          (fail_ctrlr-CtrlrFailed e c) (λ c1 k. end_reset-down c1 k))

start-Fits : (c : Ctrlr) → Fits (set_state 0 init none c).state (set_state 0 init none c).cc.en
unfolding Fits set_state
start-Fits c = tt

run_reset-up :
    (e : Env) (fuel : ℕ) (looks : List Look) (c : Ctrlr)
    → AllSome UpOrFailed (run_reset e fuel looks c)
unfolding run_reset AllSome
run_reset-up e fuel looks c =
    then-AllSome UpOrFailed (disable_admin e fuel (begin_reset c)) _ (λ c1.
      then-AllSome UpOrFailed (disable_each (ids_from 1 c1.io_queues) c1) _ (λ c2.
        bind-AllSome
          (λ (r : Ret × Ctrlr).
            is_success (r.0) ≡ true → ((r.1).state ≡ ready) × ((r.1).cc.en ≡ true))
          UpOrFailed (init_loop e looks (set_state 0 init none c2)) (after_init e)
          (to-AllSome _ (init_loop e looks (set_state 0 init none c2)) (λ r q s.
            init_loop-ready e looks (set_state 0 init none c2) (r.1) (start-Fits c2) (
              subst (λ x. init_loop e looks (set_state 0 init none c2) ≡ some (x, r.1))
                (is_success-inv (r.0) s) q)))
          (λ r h. after_init-up e (r.0) (r.1) h)))

-- A reset of a controller that has not failed and is not being reset, if it returns 0, leaves the
-- controller in the state READY with CC.EN set, not failed and no longer resetting.
pub reset_ctrlr-IsUp :
    (e : Env) (fuel : ℕ) (looks : List Look) (c c' : Ctrlr)
    → c.flags.failed ≡ false
    → c.flags.resetting ≡ false
    → reset_ctrlr e fuel looks c ≡ some (success, c')
    → IsUp c'
unfolding reset_ctrlr UpOrFailed
reset_ctrlr-IsUp e fuel looks c c' f r p =
    elim (if_inv (c.flags.resetting || c.flags.failed) (some (success, c))
      (run_reset e fuel looks c) p) [
        | inl (b, _) ↦ absurd (ground (arith, b, f, r))
        | inr (_, q) ↦ AllSome-some UpOrFailed q (run_reset-up e fuel looks c) refl
      ]
