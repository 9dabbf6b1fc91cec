-- ===== src/Ctrlr/Qpairs/Lists.antt =====
-- What nvme_ioqp_get and nvme_ioqp_release do to the lists of free and active queue pairs.
use libnvme.Prelude.{
  ℕ, ◌*◌, ◌<◌, ◌≡◌, refl, ap, ◌∙◌, Bool, true, false, ◌||◌, Option, none, some, List, [], ◌∷◌, ◌++◌,
  ◌==◌, if◌then◌else◌, ◌>>=◌, remove, count, arith,
}
use libnvme.Types.{Qpair, Ret}
use libnvme.Common.Results.{AllSome, bind-AllSome, then-AllSome, if-AllSome}
use libnvme.Admin.{is_success}
use libnvme.Admin.Commands.{IoQueue}
use libnvme.Ctrlr.{on_qpair, load, store}
use libnvme.Ctrlr.Cmb.{reserve_sq_in_cmb}
use libnvme.Ctrlr.Qpairs.{
  placed_sq, place_sq, with_trackers, with_cq, with_sq, begin_construct, set_rings, construct_qpair,
  create_sq, create_qpair, delete_qpair, queue_depth,
}
use libnvme.Ctrlr.State.{Ctrlr, Env}

-- The lists and the descriptions of the queues.
pub record Book : Type 0 where
  pub free : List ℕ
  pub active : List ℕ
  pub queues : ℕ → IoQueue

abbrev pub book : Ctrlr → Book
book c = record { free = c.free_io_qpairs; active = c.active_io_qpairs; queues = c.queues }

abbrev pub SameBook : Ctrlr → Ctrlr → Type 0
SameBook c c' = book c' ≡ book c

on_qpair-SameBook :
    (c : Ctrlr) (id : ℕ) (f : Qpair → Option (Ret × Qpair))
    → AllSome (λ r. SameBook c (r.1)) (on_qpair c id f)
unfolding on_qpair AllSome
on_qpair-SameBook c id f =
    then-AllSome (λ r. SameBook c (r.1)) (f (load c id)) (λ r. some (r.0, store c id (r.1)))
      (λ r. refl)

-- A further step on the controller that the step before left.
step-SameBook :
    (c : Ctrlr) (m : Option (Ret × Ctrlr)) (f : Ret × Ctrlr → Option (Ret × Ctrlr))
    → AllSome (λ r. SameBook c (r.1)) m
    → ((r : Ret × Ctrlr) → SameBook c (r.1) → AllSome (λ r. SameBook c (r.1)) (f r))
    → AllSome (λ r. SameBook c (r.1)) (m >>= f)
step-SameBook c m f = bind-AllSome (λ r. SameBook c (r.1)) (λ r. SameBook c (r.1)) m f

trans-SameBook :
    (c c1 : Ctrlr) (m : Option (Ret × Ctrlr))
    → SameBook c c1
    → AllSome (λ r. SameBook c1 (r.1)) m
    → AllSome (λ r. SameBook c (r.1)) m
unfolding AllSome
trans-SameBook c c1 none p k = tt
trans-SameBook c c1 (some r) p k = k ∙ p

create_sq-SameBook :
    (e : Env) (id : ℕ) (c : Ctrlr) → AllSome (λ r. SameBook c (r.1)) (create_sq e id c)
unfolding create_sq AllSome
create_sq-SameBook e id c = step-SameBook c _ _ (on_qpair-SameBook c 0 _) (λ r p.
    if-AllSome (λ r. SameBook c (r.1)) (is_success (r.0)) _ _ p
      (step-SameBook c _ _ (trans-SameBook c (r.1) _ p (on_qpair-SameBook (r.1) 0 _))
        (λ r2 p2. p2)))

pub create_qpair-SameBook :
    (e : Env) (id : ℕ) (c : Ctrlr) → AllSome (λ r. SameBook c (r.1)) (create_qpair e id c)
unfolding create_qpair AllSome
create_qpair-SameBook e id c = step-SameBook c _ _ (on_qpair-SameBook c 0 _) (λ r p.
    if-AllSome (λ r. SameBook c (r.1)) (is_success (r.0)) _ _
      (trans-SameBook c (r.1) _ p (create_sq-SameBook e id (r.1))) p)

pub delete_qpair-SameBook :
    (e : Env) (id : ℕ) (c : Ctrlr) → AllSome (λ r. SameBook c (r.1)) (delete_qpair e id c)
unfolding delete_qpair AllSome
delete_qpair-SameBook e id c = step-SameBook c _ _ (on_qpair-SameBook c 0 _) (λ r p.
    if-AllSome (λ r. SameBook c (r.1)) (is_success (r.0)) _ _
      (trans-SameBook c (r.1) _ p (on_qpair-SameBook (r.1) 0 _)) p)

-- What a call of nvme_ioqp_get for the depth `qd` and the priority `qprio` leaves of the lists and the
-- descriptions: without a handle the
-- lists as they were; with one, that queue pair moved from the free to the end of the active ones,
-- and described with its identifier of before, the depth and the priority.
unfoldable pub Handed : Ctrlr → ℕ → ℕ → Option ℕ × Ctrlr → Type 0
Handed c qprio qd (none, c') =
    (c'.free_io_qpairs ≡ c.free_io_qpairs) × (c'.active_io_qpairs ≡ c.active_io_qpairs)
Handed c qprio qd (some id, c') =
    (0 < count id c.free_io_qpairs)
    × (c'.free_io_qpairs ≡ remove id c.free_io_qpairs)
    × (c'.active_io_qpairs ≡ c.active_io_qpairs ++ id ∷ [])
    × ((c'.queues id).entries ≡ queue_depth c.io_qpairs_max_entries qd)
    × ((c'.queues id).qprio ≡ qprio)
    × ((c'.queues id).id ≡ (c.queues id).id)

-- The lists are those of `c`, and queue `id` has these entries, this priority and its identifier.
pub record Described (c : Ctrlr) (id qprio entries : ℕ) (c' : Ctrlr) : Type 0 where
  pub free : c'.free_io_qpairs ≡ c.free_io_qpairs
  pub active : c'.active_io_qpairs ≡ c.active_io_qpairs
  pub entries_are : (c'.queues id).entries ≡ entries
  pub qprio_is : (c'.queues id).qprio ≡ qprio
  pub id_is : (c'.queues id).id ≡ (c.queues id).id

pub Described-along :
    (c : Ctrlr) (id qprio entries : ℕ) (c1 c2 : Ctrlr)
    → SameBook c1 c2
    → Described c id qprio entries c1
    → Described c id qprio entries c2
Described-along c id qprio entries c1 c2 p d = record {
  free = ap (λ (b : Book). b.free) p ∙ d.free;
  active = ap (λ (b : Book). b.active) p ∙ d.active;
  entries_are = ap (λ (b : Book). (b.queues id).entries) p ∙ d.entries_are;
  qprio_is = ap (λ (b : Book). (b.queues id).qprio) p ∙ d.qprio_is;
  id_is = ap (λ (b : Book). (b.queues id).id) p ∙ d.id_is;
}

-- Placing the submission queue touches the controller memory buffer alone.
reserved-SameBook :
    (c : Ctrlr) (in_memory : Option ℕ) (b : Bool) (start : ℕ) (end : ℕ)
    → SameBook c
        (placed_sq in_memory c
          (if b then none else some (start, record c { cmb_current_offset = end }))).1
unfolding placed_sq
reserved-SameBook c in_memory true start end = refl
reserved-SameBook c in_memory false start end = refl

if-SameBook :
    (c : Ctrlr) (b : Bool) (x y : Option ℕ × Ctrlr)
    → SameBook c (x.1)
    → SameBook c (y.1)
    → SameBook c ((if b then x else y).1)
if-SameBook c true x y p q = p
if-SameBook c false x y p q = q

place_sq-SameBook : (e : Env) (entries : ℕ) (c : Ctrlr) → SameBook c (place_sq e entries c).1
unfolding place_sq reserve_sq_in_cmb
place_sq-SameBook e entries c =
    if-SameBook c c.opts.use_cmb_sqs (placed_sq _ c (reserve_sq_in_cmb c entries)) (_, c)
      (reserved-SameBook c (e.mem_alloc (64 * entries) 4096) _ _ _) refl

with_trackers-Described :
    (c : Ctrlr) (id qprio entries : ℕ) (phys : Option ℕ) (c1 : Ctrlr)
    → Described c id qprio entries c1
    → Described c id qprio entries (with_trackers id phys c1).1
unfolding with_trackers
with_trackers-Described c id qprio entries none c1 d = d
with_trackers-Described c id qprio entries (some phys) c1 d =
    Described-along c id qprio entries c1 _ refl d

with_cq-Described :
    (e : Env) (c : Ctrlr) (id qprio entries trackers sq : ℕ) (cq : Option ℕ) (c1 : Ctrlr)
    → Described c id qprio entries c1
    → Described c id qprio entries (with_cq e id trackers sq cq c1).1
unfolding with_cq
with_cq-Described e c id qprio entries trackers sq none c1 d = d
with_cq-Described e c id qprio entries trackers sq (some cq) c1 d =
    with_trackers-Described c id qprio entries _ (set_rings id sq cq c1) (record {
      free = d.free;
      active = d.active;
      entries_are = ground (arith, d.entries_are);
      qprio_is = ground (arith, d.qprio_is);
      id_is = ground (arith, d.id_is);
    })

with_sq-Described :
    (e : Env) (c : Ctrlr) (id qprio entries trackers : ℕ) (sq : Option ℕ) (c1 : Ctrlr)
    → Described c id qprio entries c1
    → Described c id qprio entries (with_sq e id entries trackers (sq, c1)).1
unfolding with_sq
with_sq-Described e c id qprio entries trackers none c1 d = d
with_sq-Described e c id qprio entries trackers (some sq) c1 d =
    with_cq-Described e c id qprio entries trackers sq _ c1 d

pub construct_qpair-Described :
    (e : Env) (id qprio entries trackers : ℕ) (c : Ctrlr)
    → AllSome
        (λ r. Described c id qprio entries (r.1))
        (construct_qpair e id qprio entries trackers c)
unfolding construct_qpair AllSome
construct_qpair-Described e id qprio entries trackers c =
    let c0 = begin_construct id qprio entries trackers c in
    let p = place_sq e entries c0 in
    if-AllSome (λ (r : Ret × Ctrlr). Described c id qprio entries (r.1))
      (entries == 0 || trackers == 0) none (some (with_sq e id entries trackers p)) tt
      (with_sq-Described e c id qprio entries trackers (p.0) (p.1) (
        Described-along c id qprio entries c0 (p.1) (place_sq-SameBook e entries c0) (record {
          free = refl;
          active = refl;
          entries_are = ground arith;
          qprio_is = ground arith;
          id_is = ground arith;
        })))
