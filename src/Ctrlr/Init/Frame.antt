-- ===== src/Ctrlr/Init/Frame.antt =====
-- Starting and failing a controller leave CC.EN, the state and its time-out as they are.
use libnvme.Prelude.{
  ℕ, zero, suc, ◌+◌, min, ◌≡◌, refl, ◌∙◌, Bool, true, false, Option, none, some, List, [], ◌∷◌,
  ◌==◌, if◌then◌else◌, ◌>>=◌,
}
use libnvme.Types.{Qpair, Ret, success, failure}
use libnvme.Common.Results.{AllSome, bind-AllSome, then-AllSome, if-AllSome}
use libnvme.Qpair.{enable, fail_qpair}
use libnvme.Qpair.Submit.{reset}
use libnvme.Admin.{is_success}
use libnvme.Ctrlr.{on_qpair, load, store}
use libnvme.Ctrlr.Namespaces.{
  submit_of, ns_identify_update, ns_construct, construct_each, construct_namespaces,
  destruct_namespaces, zero_handle,
}
use libnvme.Ctrlr.Start.{
  on_feature, or_fail, identify, get_max_io_qpairs, set_num_qpairs, init_io_qpairs, submit_aers,
  configure_aer, set_intel_support_log_pages, set_supported_log_pages, set_supported_features,
  start_adminq, finish_start, start, set_all, standard_log_pages, is_intel,
}
use libnvme.Ctrlr.Init.{all_qpairs, mark_failed, fail_each, fail_ctrlr}
use libnvme.Ctrlr.Init.Control.{control}
use libnvme.Ctrlr.State.{Ctrlr, Env}

-- Each result has the control of `c`.
abbrev pub Kept : Ctrlr → Ctrlr → Type 0
Kept c c' = control c' ≡ control c

abbrev pub Keeps : Ctrlr → Option (Ret × Ctrlr) → Type 0
Keeps c = AllSome (λ r. Kept c (r.1))

pub on_qpair-Keeps :
    (c : Ctrlr) (id : ℕ) (f : Qpair → Option (Ret × Qpair)) → Keeps c (on_qpair c id f)
unfolding on_qpair AllSome
on_qpair-Keeps c id f =
    then-AllSome (λ r. Kept c (r.1)) (f (load c id)) (λ r. some (r.0, store c id (r.1))) (λ r. refl)

-- A further step keeps what the controller has after the steps before.
pub chain-Keeps :
    (c : Ctrlr) (m : Option (Ret × Ctrlr)) (f : Ret × Ctrlr → Option (Ret × Ctrlr))
    → Keeps c m
    → ((r : Ret × Ctrlr) → Kept c (r.1) → Keeps c (f r))
    → Keeps c (m >>= f)
chain-Keeps c m f = bind-AllSome (λ r. Kept c (r.1)) (λ r. Kept c (r.1)) m f

-- The control of a result may be compared with that of another controller.
pub Keeps-trans : (c c1 : Ctrlr) (m : Option (Ret × Ctrlr)) → Kept c c1 → Keeps c1 m → Keeps c m
unfolding AllSome
Keeps-trans c c1 none p k = tt
Keeps-trans c c1 (some r) p k = k ∙ p

-- Each operation keeps the control of the controller that it works on.
abbrev KeepsAll : (Ctrlr → Option (Ret × Ctrlr)) → Type 0
KeepsAll f = (c : Ctrlr) → Keeps c (f c)

or_fail-Keeps :
    (f : Ctrlr → Option (Ret × Ctrlr)) (c : Ctrlr) (r : Ret × Ctrlr)
    → KeepsAll f
    → Kept c (r.1)
    → Keeps c (or_fail f r)
unfolding AllSome
or_fail-Keeps f c (ret, c1) k p =
    if-AllSome (λ r. Kept c (r.1)) (is_success ret) (f c1) (some (failure, c1))
      (Keeps-trans c c1 (f c1) p (k c1)) p

if-Kept :
    (c : Ctrlr) (b : Bool) (r r' : Ret × Ctrlr)
    → Kept c (r.1)
    → Kept c (r'.1)
    → Kept c ((if b then r else r').1)
if-Kept c true r r' h k = h
if-Kept c false r r' h k = k

if_same-Kept :
    (c : Ctrlr) (b : Bool) (x y : Ctrlr) → Kept c x → Kept c y → Kept c (if b then x else y)
if_same-Kept c true x y h k = h
if_same-Kept c false x y h k = k

on_feature-Keeps :
    (c : Ctrlr) (f : Qpair → Option (Ret × Option ℕ × Qpair)) (k : ℕ → Ctrlr → Ctrlr)
    → ((cdw0 : ℕ) (c1 : Ctrlr) → Kept c1 (k cdw0 c1))
    → Keeps c (on_feature c f k)
unfolding on_feature AllSome
on_feature-Keeps c f k h =
    then-AllSome (λ r. Kept c (r.1)) (f (load c 0))
      (λ (r : Ret × Option ℕ × Qpair).
        some (r.0, elim (r.1) [ none ↦ store c 0 (r.2) | some cdw0 ↦ k cdw0 (store c 0 (r.2)) ]))
      (λ r. go (r.0) (r.1) (r.2))
  where
    go :
        (ret : Ret) (o : Option ℕ) (q : Qpair)
        → Keeps c (some (ret, elim o [ none ↦ store c 0 q | some cdw0 ↦ k cdw0 (store c 0 q) ]))
    go ret none q = refl
    go ret (some cdw0) q = h cdw0 (store c 0 q)

ns_construct-Keeps : (e : Env) (id : ℕ) → KeepsAll (ns_construct e id)
unfolding ns_construct ns_identify_update AllSome
ns_construct-Keeps e id c =
    chain-Keeps c _ _ (on_qpair-Keeps _ 0 _)
      (λ r p. if-Kept c (is_success (r.0)) (success, _) (r.0, r.1) p p)

construct_each-Keeps : (e : Env) (n id : ℕ) → KeepsAll (construct_each e n id)
unfolding construct_each destruct_namespaces AllSome
construct_each-Keeps e zero id c = refl
construct_each-Keeps e (suc n) id c = chain-Keeps c _ _ (ns_construct-Keeps e id c) (λ r p.
    if-AllSome (λ r. Kept c (r.1)) (is_success (r.0)) _ _
      (Keeps-trans c (r.1) _ p (construct_each-Keeps e n (id + 1) (r.1))) (destructed (r.1) p))
  where
    destructed : (c1 : Ctrlr) → Kept c c1 → Kept c (destruct_namespaces c1)
    destructed c1 p = p

construct_namespaces-Keeps : (e : Env) → KeepsAll (construct_namespaces e)
unfolding construct_namespaces destruct_namespaces AllSome
construct_namespaces-Keeps e c =
    if-AllSome (λ r. Kept c (r.1)) (c.cdata.nn == c.nr_ns) _ _ (construct_each-Keeps e _ 1 c)
      (if-AllSome (λ r. Kept c (r.1)) e.memory _ _
        (Keeps-trans c (record c { nr_ns = c.cdata.nn; ns = λ _. zero_handle }) _ refl
          (construct_each-Keeps e _ 1 _))
        refl)

identify-Keeps : (e : Env) → KeepsAll (identify e)
unfolding identify AllSome
identify-Keeps e c = chain-Keeps c _ _ (on_qpair-Keeps c 0 _) (λ r p.
    if-Kept c (is_success (r.0)) (success, _) (r.0, r.1)
      (if_same-Kept c (e.identified.mdts == 0) _ _ p p) p)

get_max_io_qpairs-Keeps : (e : Env) → KeepsAll (get_max_io_qpairs e)
unfolding get_max_io_qpairs
get_max_io_qpairs-Keeps e c = on_feature-Keeps c _ _ (λ cdw0 c1. refl)

set_num_qpairs-Keeps : (e : Env) → KeepsAll (set_num_qpairs e)
unfolding set_num_qpairs AllSome
set_num_qpairs-Keeps e c = chain-Keeps c _ _ (get_max_io_qpairs-Keeps e c) (λ r p.
    if-AllSome (λ r. Kept c (r.1)) (is_success (r.0)) _ _
      (Keeps-trans c (r.1) _ p (on_feature-Keeps (r.1) _ _ (λ cdw0 c1. refl))) p)

init_io_qpairs-Keeps : (e : Env) → KeepsAll (λ c. some (init_io_qpairs e c))
unfolding init_io_qpairs AllSome
init_io_qpairs-Keeps e c = if-Kept c c.ioq_allocated _ _ refl (if-Kept c e.memory _ _ refl refl)

submit_aers-Keeps : (e : Env) (n i : ℕ) → KeepsAll (submit_aers e n i)
unfolding submit_aers AllSome
submit_aers-Keeps e zero i c = refl
submit_aers-Keeps e (suc n) i c = chain-Keeps c _ _ (on_qpair-Keeps c 0 _) (λ r p.
    if-AllSome (λ r. Kept c (r.1)) (is_success (r.0)) _ _
      (Keeps-trans c (r.1) _ p (submit_aers-Keeps e n (i + 1) (r.1))) p)

configure_aer-Keeps : (e : Env) → KeepsAll (configure_aer e)
unfolding configure_aer AllSome
configure_aer-Keeps e c = chain-Keeps c _ _ (on_feature-Keeps c _ _ (λ cdw0 c1. refl)) (λ r p.
    if-AllSome (λ r. Kept c (r.1)) (is_success (r.0)) _ _
      (Keeps-trans c (record (r.1) { num_aers = min 8 ((r.1).cdata.aerl + 1) }) _ p
        (submit_aers-Keeps e _ 0 _))
      p)

set_intel-Keeps : (e : Env) → KeepsAll (set_intel_support_log_pages e)
unfolding set_intel_support_log_pages AllSome
set_intel-Keeps e c =
    if-AllSome (λ r. Kept c (r.1)) e.memory _ _
      (chain-Keeps c _ _ (on_qpair-Keeps c 0 _) (λ r p. if_same-Kept c (is_success (r.0)) _ _ p p))
      refl

log_pages-Kept : (e : Env) (c : Ctrlr) → AllSome (Kept c) (set_supported_log_pages e c)
unfolding set_supported_log_pages AllSome
log_pages-Kept e c =
    let c1 = record c { log_page_supported = set_all (standard_log_pages c.cdata) (λ _. false) } in
    let next : Ret × Ctrlr → Option Ctrlr = λ r. some (r.1) in
    if-AllSome (Kept c) (is_intel c.cdata) (set_intel_support_log_pages e c1 >>= next) (some c1)
      (bind-AllSome (λ (r : Ret × Ctrlr). Kept c (r.1)) (Kept c) (set_intel_support_log_pages e c1)
        next (Keeps-trans c c1 _ refl (set_intel-Keeps e c1)) (λ r p. p))
      refl

finish_start-Keeps : (e : Env) → KeepsAll (finish_start e)
unfolding finish_start set_supported_features AllSome
finish_start-Keeps e c = chain-Keeps c _ _ (configure_aer-Keeps e c) (λ r p.
    bind-AllSome (Kept (r.1)) (λ r. Kept c (r.1)) _ _ (log_pages-Kept e (r.1))
      (λ c2 p2. if_same-Kept c c2.cdata.sgls_supported _ _ (p2 ∙ p) (p2 ∙ p)))

start_adminq-Kept : (e : Env) (c : Ctrlr) → AllSome (Kept c) (start_adminq e c)
unfolding start_adminq AllSome
start_adminq-Kept e c =
    then-AllSome (Kept c) (enable (submit_of e) (reset (load c 0))) (λ q. some (store c 0 q))
      (λ q. refl)

pub start-Keeps : (e : Env) (c : Ctrlr) → Keeps c (start e c)
unfolding start
start-Keeps e c =
    bind-AllSome (Kept c) (λ r. Kept c (r.1)) _ _ (start_adminq-Kept e c)
      (λ c1 p. chain-Keeps c _ _ (Keeps-trans c c1 _ p (identify-Keeps e c1)) (λ r1 p1.
        chain-Keeps c _ _ (or_fail-Keeps (set_num_qpairs e) c r1 (set_num_qpairs-Keeps e) p1)
          (λ r2 p2. chain-Keeps c _ _ (or_fail-Keeps _ c r2 (init_io_qpairs-Keeps e) p2) (λ r3 p3.
            chain-Keeps c _ _
              (or_fail-Keeps (construct_namespaces e) c r3 (construct_namespaces-Keeps e) p3)
              (λ r4 p4. or_fail-Keeps (finish_start e) c r4 (finish_start-Keeps e) p4)))))

fail_each-Kept : (e : Env) (ids : List ℕ) (c : Ctrlr) → AllSome (Kept c) (fail_each e ids c)
unfolding fail_each AllSome
fail_each-Kept e [] c = refl
fail_each-Kept e (id ∷ ids) c =
    then-AllSome (Kept c) (fail_qpair (submit_of e) (load c id))
      (λ q. fail_each e ids (store c id q)) (λ q. fail_each-Kept e ids (store c id q))

pub fail_ctrlr-Kept : (e : Env) (c : Ctrlr) → AllSome (Kept c) (fail_ctrlr e c)
unfolding fail_ctrlr
fail_ctrlr-Kept e c = fail_each-Kept e (all_qpairs c) (mark_failed c)
