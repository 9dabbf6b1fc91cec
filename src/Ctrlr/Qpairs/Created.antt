-- ===== src/Ctrlr/Qpairs/Created.antt =====
-- The two queues that nvme_ctrlr_create_qpair has the controller create.
use libnvme.Prelude.{
  ℕ, ◌-◌, ◌≡◌, sym, ap, subst, ◌∙◌, min, false, true, inl, inr, List, [], ◌∷◌, none, some, some_inj,
  none-ne-some, if_inv,
}
use libnvme.Types.{Cmd, Cpl, cpl_is_error, Qpair, Ret, success}
use libnvme.Request.Frame.{>>=-eq-some}
use libnvme.Admin.{is_success, done}
use libnvme.Admin.Commands.{
  IoQueueType, submission_queue, completion_queue, create_ioq_cmd, admin_create_ioq,
}
use libnvme.Admin.Wait.{is_success-inv, admin_exec_cmd-Result}
use libnvme.Ctrlr.{on_qpair, load, store}
use libnvme.Ctrlr.Namespaces.{submit_of, exec_of}
use libnvme.Ctrlr.Qpairs.{
  admin_ioq, admin_no_ioq, activate, reset_qpair, construct_qpair, create_sq, create_qpair,
  get_first, get_from, get_refused, ioqp_get, queue_depth,
}
use libnvme.Ctrlr.State.{Ctrlr, Env}

-- The admin command `cmd` was executed on the admin queue pair of `c` and completed: its callback has
-- run with a completion that is no error, and `c'` is what that leaves.
pub record IsExecuted (e : Env) (cmd : Cmd) (c c' : Ctrlr) : Type 0 where
  pub cpl : Cpl
  pub adminq : Qpair
  pub ran : exec_of e cmd none 0 (load c 0) ≡ some (success, cpl, adminq)
  pub called : done e.status adminq.calls ≡ some cpl
  pub good : cpl_is_error cpl ≡ false
  pub left : c' ≡ store c 0 adminq

differ : (r s : Ret) → r ≡ s → is_success r ≡ false → is_success s ≡ true → ⊥
differ r s p bad ok = cc

admin_ioq-IsExecuted :
    (e : Env) (id : ℕ) (type : IoQueueType) (c : Ctrlr) (ret : Ret) (c' : Ctrlr)
    → admin_ioq e id type c ≡ some (ret, c')
    → is_success ret ≡ true
    → IsExecuted e (create_ioq_cmd (c.queues id) type) c c'
unfolding on_qpair admin_create_ioq
admin_ioq-IsExecuted e id type c ret c' p ok =
    let ((ret1, q1), p1, l1) =
      >>=-eq-some (admin_create_ioq (exec_of e) (c.queues id) type (load c 0)) _ p in
    let ((ret2, cpl, q2), p2, l2) =
      >>=-eq-some (exec_of e (create_ioq_cmd (c.queues id) type) none 0 (load c 0)) _ p1 in
    let same : ret2 ≡ ret = ap (λ t. t.0) (some_inj l2) ∙ ap (λ t. t.0) (some_inj l1) in
    let kept : q2 ≡ q1 = ap (λ t. t.1) (some_inj l2) in
    elim (admin_exec_cmd-Result e.vtophys e.sges (submit_of e) e.device e.fuel e.status
      (create_ioq_cmd (c.queues id) type) none 0 (load c 0) ret2 cpl q2 p2) [
        | inl bad ↦ absurd (differ ret2 ret same bad ok)
        | inr (d, r, good) ↦ record {
          cpl = cpl;
          adminq = q2;
          ran = p2 ∙ ap (λ x. some (x, cpl, q2)) r;
          called = d;
          good = good;
          left = sym (ap (λ t. t.1) (some_inj l1)) ∙ ap (store c 0) (sym kept);
        }
      ]

-- The submission queue is created, or the call fails.
create_sq-IsExecuted :
    (e : Env) (id : ℕ) (c : Ctrlr) (ret : Ret) (c' : Ctrlr)
    → create_sq e id c ≡ some (ret, c')
    → is_success ret ≡ true
    → (c1 : Ctrlr) × IsExecuted e (create_ioq_cmd (c.queues id) submission_queue) c c1
      × (c' ≡ reset_qpair id c1)
unfolding create_sq
create_sq-IsExecuted e id c ret c' p ok =
    let ((ret1, c1), p1, l) = >>=-eq-some (admin_ioq e id submission_queue c) _ p in
    elim (if_inv (is_success ret1) _ _ l) [
      | inl (ok1, q) ↦ (
        c1,
        admin_ioq-IsExecuted e id submission_queue c ret1 c1 p1 ok1,
        sym (ap (λ t. t.1) (some_inj q)),
      )
      | inr (bad, q) ↦
          let (r, _, q') = >>=-eq-some (admin_no_ioq e id completion_queue c1) _ q in
          absurd (differ ret1 ret (ap (λ t. t.0) (some_inj q')) bad ok)
    ]

-- Both queues are created, or the call fails.
create_qpair-IsExecuted :
    (e : Env) (id : ℕ) (c : Ctrlr) (ret : Ret) (c' : Ctrlr)
    → create_qpair e id c ≡ some (ret, c')
    → is_success ret ≡ true
    → (c1 c2 : Ctrlr) × IsExecuted e (create_ioq_cmd (c.queues id) completion_queue) c c1
      × IsExecuted e (create_ioq_cmd (c1.queues id) submission_queue) c1 c2
      × (c' ≡ reset_qpair id c2)
unfolding create_qpair
create_qpair-IsExecuted e id c ret c' p ok =
    let ((ret1, c1), p1, l) = >>=-eq-some (admin_ioq e id completion_queue c) _ p in
    elim (if_inv (is_success ret1) _ _ l) [
      | inl (ok1, q) ↦
          let (c2, second, left) = create_sq-IsExecuted e id c1 ret c' q ok in
          (c1, c2, admin_ioq-IsExecuted e id completion_queue c ret1 c1 p1 ok1, second, left)
      | inr (bad, q) ↦ absurd (differ ret1 ret (ap (λ t. t.0) (some_inj q)) bad ok)
    ]

-- How queue pair `id` was created on the controller: its memory was set up, then the controller
-- executed the command that creates the completion queue and the one that creates the submission
-- queue, both with the description of the queue that `c'` has, and last the queue pair was reset and
-- became active.
pub record IsCreated (e : Env) (id qprio depth : ℕ) (c c' : Ctrlr) : Type 0 where
  pub set_up : Ctrlr
  pub with_completion : Ctrlr
  pub with_both : Ctrlr
  pub constructed :
      construct_qpair e id qprio depth (min 128 (depth - 1)) c ≡ some (success, set_up)
  pub completion :
      IsExecuted e (create_ioq_cmd (c'.queues id) completion_queue) set_up with_completion
  pub submission :
      IsExecuted e (create_ioq_cmd (c'.queues id) submission_queue) with_completion with_both
  pub left : c' ≡ (activate id (success, reset_qpair id with_both)).1

-- The commands carry the description that the queue has in the end.
chain-IsCreated :
    (e : Env) (id qprio depth : ℕ) (c c1 c2 c3 c' : Ctrlr)
    → construct_qpair e id qprio depth (min 128 (depth - 1)) c ≡ some (success, c1)
    → IsExecuted e (create_ioq_cmd (c1.queues id) completion_queue) c1 c2
    → IsExecuted e (create_ioq_cmd (c2.queues id) submission_queue) c2 c3
    → c' ≡ (activate id (success, reset_qpair id c3)).1
    → IsCreated e id qprio depth c c'
chain-IsCreated e id qprio depth c c1 c2 c3 c' constructed first second left =
    let after : c2.queues ≡ c'.queues =
      sym (ap (λ x. x.queues) left ∙ ap (λ x. x.queues) second.left) in
    record {
      set_up = c1;
      with_completion = c2;
      with_both = c3;
      constructed = constructed;
      completion =
          subst (λ f. IsExecuted e (create_ioq_cmd (f id) completion_queue) c1 c2)
            (sym (ap (λ x. x.queues) first.left) ∙ after) first;
      submission =
          subst (λ f. IsExecuted e (create_ioq_cmd (f id) submission_queue) c2 c3) after second;
      left = left;
    }

pub get_first-IsCreated :
    (e : Env) (qprio depth id got : ℕ) (c c' : Ctrlr)
    → get_first e qprio depth id c ≡ some (some got, c')
    → IsCreated e got qprio depth c c'
unfolding get_first
get_first-IsCreated e qprio depth id got c c' p =
    let ((ret, c1), p1, l) =
      >>=-eq-some (construct_qpair e id qprio depth (min 128 (depth - 1)) c) _ p in
    elim (if_inv (is_success ret) _ _ l) [
      | inr (bad, q) ↦ absurd (none-ne-some (ap (λ t. t.0) (some_inj q)))
      | inl (ok, q) ↦
          let ((ret2, c2), p2, l2) = >>=-eq-some (create_qpair e id c1) _ q in
          elim (if_inv (is_success ret2) _ _ (some_inj l2)) [
            | inr (bad, q2) ↦ absurd (none-ne-some (ap (λ t. t.0) q2))
            | inl (ok2, q2) ↦
                let (c3, c4, first, second, left) =
                  create_qpair-IsExecuted e id c1 ret2 c2 p2 ok2 in
                subst (λ x. IsCreated e x qprio depth c c') (some_inj (ap (λ t. t.0) q2))
                  (chain-IsCreated e id qprio depth c c1 c3 c4 c'
                    (p1 ∙ ap (λ x. some (x, c1)) (is_success-inv ret ok)) first second
                    (sym (ap (λ t. t.1) q2) ∙ ap (λ x. (activate id (success, x)).1) left))
          ]
    ]

-- A handle of nvme_ioqp_get is a queue pair that was created.
pub ioqp_get-IsCreated :
    (e : Env) (qprio qd got : ℕ) (c c' : Ctrlr)
    → ioqp_get e qprio qd c ≡ some (some got, c')
    → IsCreated e got qprio (queue_depth c.io_qpairs_max_entries qd) c c'
unfolding ioqp_get get_from
ioqp_get-IsCreated e qprio qd got c c' p =
    elim (if_inv (get_refused qprio qd c) (some (none, c)) (get_from e qprio qd c.free_io_qpairs c)
      p) [
        | inl (_, q) ↦ absurd (none-ne-some (ap (λ t. t.0) (some_inj q)))
        | inr (_, q) ↦ go c.free_io_qpairs q
      ]
  where
    go :
        (l : List ℕ)
        → get_from e qprio qd l c ≡ some (some got, c')
        → IsCreated e got qprio (queue_depth c.io_qpairs_max_entries qd) c c'
    go [] q = absurd (none-ne-some (ap (λ t. t.0) (some_inj q)))
    go (id ∷ rest) q =
        get_first-IsCreated e qprio (queue_depth c.io_qpairs_max_entries qd) id got c c' q
