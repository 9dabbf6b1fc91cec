-- ===== src/Ctrlr/Init/Failing.antt =====
-- nvme_ctrlr_fail returns, and leaves nothing queued and nothing outstanding.
use libnvme.Prelude.{
  ℕ, ◌<◌, ◌≡◌, ◌≢◌, refl, sym, subst, ◌∙◌, some, List, [], ◌∷◌, count, update_self, update_ne,
  arith,
}
use native.Mathlib.Decide.{ℕ_discrete}
use libnvme.Qpair.Submit.Drained.{IsEmpty, fail_qpair-IsEmpty}
use libnvme.Qpair.Submit.Total.{Plain}
use libnvme.Ctrlr.{load, store}
use libnvme.Ctrlr.Namespaces.{submit_of}
use libnvme.Ctrlr.Init.{all_qpairs, mark_failed, fail_each, fail_ctrlr}
use libnvme.Ctrlr.State.{Ctrlr, Env}

-- No request of the queue pairs in the list is split.
abbrev pub PlainOn : List ℕ → Ctrlr → Type 0
PlainOn ids c = (id : ℕ) → 0 < count id ids → Plain (c.qpairs id).reqs

-- What the loop over the queue pairs in the list leaves.
record AreEmpty (ids : List ℕ) (c c' : Ctrlr) : Type 0 where
  emptied : (id : ℕ) → 0 < count id ids → IsEmpty (c'.qpairs id)
  others : (id : ℕ) → count id ids ≡ 0 → c'.qpairs id ≡ c.qpairs id

fail_each-AreEmpty :
    (e : Env) (ids : List ℕ) (c : Ctrlr)
    → PlainOn ids c
    → (c' : Ctrlr) × (fail_each e ids c ≡ some c') × AreEmpty ids c c'
unfolding fail_each
fail_each-AreEmpty e [] c plain =
    (c, refl, record { emptied = λ id h. absurd (omega (arith, h)); others = λ id h. refl })
fail_each-AreEmpty e (id ∷ ids) c plain =
    let (q, run, empty) = fail_qpair-IsEmpty (submit_of e) (load c id) (plain id (ground arith)) in
    let here : (store c id q).qpairs id ≡ q = update_self c.qpairs id q in
    let there : (x : ℕ) → id ≢ x → (store c id q).qpairs x ≡ c.qpairs x =
      λ x n. update_ne c.qpairs id x q n in
    let (c', runs, rest) = fail_each-AreEmpty e ids (store c id q) (λ x h. elim (ℕ_discrete id x) [
      | yes p ↦ subst (λ y. Plain ((store c id q).qpairs y).reqs) p (rw here empty.plain)
      | no p ↦ rw (there x p) (plain x (ground (arith, h)))
    ]) in
    (
      c',
      rw run runs,
      record {
        emptied = λ x h. elim (ℕ_discrete 0 (count x ids)) [
          | no p ↦ rest.emptied x (omega (arith, p))
          | yes p ↦ rw (rest.others x (sym p)) (elim (ℕ_discrete id x) [
            | yes s ↦ subst (λ y. IsEmpty ((store c id q).qpairs y)) s (rw here empty)
            | no s ↦ absurd (ground (arith, h, p, s))
          ])
        ];
        others = λ x h. elim (ℕ_discrete id x) [
          | yes s ↦ absurd (ground (arith, h, s))
          | no s ↦ rest.others x (ground (arith, h, s)) ∙ there x s
        ];
      },
    )

-- Every queue pair of the controller is emptied.
pub fail_ctrlr-IsEmpty :
    (e : Env) (c : Ctrlr)
    → PlainOn (all_qpairs c) c
    → (c' : Ctrlr) × (fail_ctrlr e c ≡ some c')
      × ((id : ℕ) → 0 < count id (all_qpairs c) → IsEmpty (c'.qpairs id))
unfolding fail_ctrlr
fail_ctrlr-IsEmpty e c plain =
    let (c', run, left) = fail_each-AreEmpty e (all_qpairs c) (mark_failed c) plain in
    (c', run, left.emptied)
