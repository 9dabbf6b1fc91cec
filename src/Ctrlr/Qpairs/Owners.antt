-- ===== src/Ctrlr/Qpairs/Owners.antt =====
-- A queue pair of a controller is free or active: nvme_ioqp_get and nvme_ioqp_release move it.
use libnvme.Prelude.{
  ℕ, ◌+◌, ◌-◌, min, ◌<◌, ◌≡◌, ◌≢◌, refl, sym, ap, subst, Bool, true, false, inl, inr, Bool-cases,
  Option, none, some, List, [], ◌∷◌, ◌++◌, ◌==◌, if◌then◌else◌, ◌>>=◌, remove, count, count-append,
  count-remove_self, count-remove_ne, arith,
}
use libnvme.Types.{Ret, success}
use libnvme.Common.Results.{AllSome, bind-AllSome, if-AllSome, AllSome-some}
use libnvme.Admin.{is_success}
use libnvme.Ctrlr.Qpairs.{
  activate, deactivate, construct_qpair, create_qpair, delete_qpair, queue_depth, get_refused,
  get_first, get_from, ioqp_get, ioqp_release,
}
use libnvme.Ctrlr.Qpairs.Created.{IsCreated}
use libnvme.Ctrlr.Qpairs.Lists.{
  Book, SameBook, Handed, Described, Described-along, construct_qpair-Described,
  create_qpair-SameBook, delete_qpair-SameBook,
}
use libnvme.Ctrlr.State.{Ctrlr, Env}

activate-Handed :
    (c : Ctrlr) (id qprio qd : ℕ) (r : Ret × Ctrlr)
    → 0 < count id c.free_io_qpairs
    → Described c id qprio (queue_depth c.io_qpairs_max_entries qd) (r.1)
    → Handed c qprio qd (activate id r)
unfolding Handed
activate-Handed c id qprio qd (ret, c1) h d = go (is_success ret)
  where
    go :
        (b : Bool)
        → Handed c qprio qd (
            if b
            then (
              some id,
              record c1 {
                free_io_qpairs = remove id c1.free_io_qpairs;
                active_io_qpairs = c1.active_io_qpairs ++ id ∷ [];
              },
            )
            else (none, c1))
    go true = (
      h,
      ap (remove id) d.free,
      ap (λ l. l ++ id ∷ []) d.active,
      d.entries_are,
      d.qprio_is,
      d.id_is,
    )
    go false = (d.free, d.active)

get_first-Handed :
    (e : Env) (qprio qd id : ℕ) (c : Ctrlr)
    → 0 < count id c.free_io_qpairs
    → AllSome (Handed c qprio qd) (get_first e qprio (queue_depth c.io_qpairs_max_entries qd) id c)
unfolding get_first AllSome Handed
get_first-Handed e qprio qd id c h =
    let depth = queue_depth c.io_qpairs_max_entries qd in
    let D : Ret × Ctrlr → Type 0 = λ r. Described c id qprio depth (r.1) in
    let next : Ret × Ctrlr → Option (Option ℕ × Ctrlr) = λ r. some (activate id r) in
    bind-AllSome D (Handed c qprio qd) (construct_qpair e id qprio depth (min 128 (depth - 1)) c)
      (λ r. if is_success (r.0) then (create_qpair e id (r.1) >>= next) else some (none, r.1))
      (construct_qpair-Described e id qprio depth (min 128 (depth - 1)) c)
      (λ r d.
        if-AllSome (Handed c qprio qd) (is_success (r.0)) (create_qpair e id (r.1) >>= next)
          (some (none, r.1))
          (bind-AllSome (λ (r2 : Ret × Ctrlr). SameBook (r.1) (r2.1)) (Handed c qprio qd)
            (create_qpair e id (r.1)) next (create_qpair-SameBook e id (r.1))
            (λ r2 p.
              activate-Handed c id qprio qd r2 h
                (Described-along c id qprio depth (r.1) (r2.1) p d)))
          (d.free, d.active))

get_from-Handed :
    (e : Env) (qprio qd : ℕ) (l : List ℕ) (c : Ctrlr)
    → c.free_io_qpairs ≡ l
    → AllSome (Handed c qprio qd) (get_from e qprio qd l c)
unfolding get_from AllSome Handed
get_from-Handed e qprio qd [] c p = (refl, refl)
get_from-Handed e qprio qd (id ∷ rest) c p =
    get_first-Handed e qprio qd id c (subst (λ l. 0 < count id l) (sym p) (ground arith))

ioqp_get-Handed :
    (e : Env) (qprio qd : ℕ) (c : Ctrlr) (r : Option ℕ × Ctrlr)
    → ioqp_get e qprio qd c ≡ some r
    → Handed c qprio qd r
unfolding ioqp_get AllSome Handed
ioqp_get-Handed e qprio qd c r p = AllSome-some (Handed c qprio qd) p (
    if-AllSome (Handed c qprio qd) (get_refused qprio qd c) (some (none, c))
      (get_from e qprio qd c.free_io_qpairs c) (refl, refl)
      (get_from-Handed e qprio qd c.free_io_qpairs c refl))

-- The lists and descriptions, and for a handle that the controller created the queues.
unfoldable pub GetResult : Env → Ctrlr → ℕ → ℕ → Option ℕ × Ctrlr → Type 0
GetResult e c qprio qd (none, c') = Handed c qprio qd (none, c')
GetResult e c qprio qd (some id, c') =
    Handed c qprio qd (some id, c')
    × IsCreated e id qprio (queue_depth c.io_qpairs_max_entries qd) c c'

-- How often a queue pair stands in the two lists.
abbrev pub listed : Ctrlr → ℕ → ℕ
listed c x = count x c.free_io_qpairs + count x c.active_io_qpairs

-- `id` goes from one list to the other.
moved-count :
    (id x : ℕ) (from to : List ℕ)
    → 0 < count id from
    → count x (remove id from) + ((if id == x then 1 else 0) + count x to)
      ≡ count x from + count x to
moved-count id x from to h = elim (Bool-cases (id == x)) [
  | inl q ↦
      subst
        (λ y.
          count y (remove id from) + ((if id == y then 1 else 0) + count y to)
          ≡ count y from + count y to)
        (same q) (ground (arith, count-remove_self id from h))
  | inr q ↦ ground (arith, q, count-remove_ne id x from (other q))
]
  where
    same : id == x ≡ true → id ≡ x
    same q = ground (arith, q)

    other : id == x ≡ false → id ≢ x
    other q p = ground (arith, q, p)

at_end-count :
    (id x : ℕ) (l : List ℕ) → count x (l ++ id ∷ []) ≡ (if id == x then 1 else 0) + count x l
at_end-count id x l = omega (arith, count-append x l (id ∷ []))

-- nvme_ioqp_get neither loses nor duplicates a queue pair: each stands in the two lists together as
-- often as before.
pub ioqp_get-listed :
    (e : Env) (qprio qd : ℕ) (c : Ctrlr) (r : Option ℕ) (c' : Ctrlr) (x : ℕ)
    → ioqp_get e qprio qd c ≡ some (r, c')
    → listed c' x ≡ listed c x
unfolding Handed
ioqp_get-listed e qprio qd c r c' x p = go r (ioqp_get-Handed e qprio qd c (r, c') p)
  where
    go : (r : Option ℕ) → Handed c qprio qd (r, c') → listed c' x ≡ listed c x
    go none g = let (f, a) = g in rw (f, a) refl
    go (some id) g =
        let (h, f, a, _, _, _) = g in
        rw (f, a, at_end-count id x c.active_io_qpairs)
          (moved-count id x c.free_io_qpairs c.active_io_qpairs h)

abbrev released : Bool → ℕ → Ret → Ctrlr → Ret × Ctrlr
released b id ret c = if b then (success, deactivate id c) else (ret, c)

-- nvme_ioqp_release of an active queue pair neither loses nor duplicates one: each stands in the two
-- lists together as often as before, whether the controller deletes the queues or not.
pub ioqp_release-listed :
    (e : Env) (id : ℕ) (c : Ctrlr) (ret : Ret) (c' : Ctrlr) (x : ℕ)
    → 0 < count id c.active_io_qpairs
    → ioqp_release e (some id) c ≡ some (ret, c')
    → listed c' x ≡ listed c x
unfolding ioqp_release AllSome
ioqp_release-listed e id c ret c' x h p =
    AllSome-some (λ (r : Ret × Ctrlr). listed (r.1) x ≡ listed c x) p
      (bind-AllSome (λ (r : Ret × Ctrlr). SameBook c (r.1))
        (λ (r : Ret × Ctrlr). listed (r.1) x ≡ listed c x) (delete_qpair e id c)
        (λ r. some (if is_success (r.0) then (success, deactivate id (r.1)) else (r.0, r.1)))
        (delete_qpair-SameBook e id c) (λ r b. go (is_success (r.0)) (r.0) (r.1) b))
  where
    go :
        (b : Bool) (ret : Ret) (c1 : Ctrlr)
        → SameBook c c1
        → listed ((released b id ret c1).1) x ≡ listed c x
    go true ret c1 b =
        let f = ap (λ (k : Book). k.free) b in
        let a = ap (λ (k : Book). k.active) b in
        let m = moved-count id x c.active_io_qpairs c.free_io_qpairs h in
        rw (f, a) (omega (arith, m))
    go false ret c1 b = ap (λ (k : Book). count x k.free + count x k.active) b
