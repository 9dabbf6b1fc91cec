-- ===== src/Sync/Exclusion.antt =====
-- What the spin lock of lib/common/nvme_spinlock.h keeps, in every state that threads reach.
use libnvme.Prelude.{
  ℕ, ◌≡◌, ◌≢◌, ◌↔◌, refl, sym, ap, ◌∙◌, Bool, true, false, Option, none, some, List, [], ◌∷◌, ◌++◌,
  update, arith,
}
use libnvme.Sync.Spinlock.{
  lock_test_and_set, trylock, Shared, Pc, outside, trying, spinning, entered, loaded, leaving, Move,
  begin, win, lose, pause, retry, try_win, try_lose, load, store, unlock, System, initial,
}

-- Between the test that won and the store that releases.
abbrev pub critical {ℓ} : {S : Type ℓ} → Pc S → Bool
critical (entered _) = true
critical (loaded _ _) = true
critical leaving = true
critical _ = false

-- The operations applied one after the other, the last one at the head of the list.
unfoldable pub replay {ℓ} : {S : Type ℓ} → List (S → S) → S → S
replay [] s = s
replay (op ∷ ops) s = op (replay ops s)

-- The states that threads reach from the initialised lock, in any order of their steps, with the
-- operations that have been stored, the last one at the head.
pub data Reach {ℓ} {S : Type ℓ} (s0 : S) : System S → List (S → S) → Type ℓ where
  start : Reach s0 (initial s0) []
  later :
      {s : System S} {ops new : List (S → S)} {m : Shared S} {p : Pc S}
      → Reach s0 s ops
      → (i : ℕ) → Move s.mem (s.pc i) m p new
      → Reach s0 (record { mem = m; pc = update s.pc i p }) (new ++ ops)

-- What a thread has read and not yet stored
abbrev pub read_value {ℓ} : {S : Type ℓ} → Pc S → Option S
read_value (loaded _ s) = some s
read_value _ = none

reader {ℓ} : {S : Type ℓ} (p : Pc S) (s : S) → read_value p ≡ some s → critical p ≡ true
reader outside s q = absurd (ground arith)
reader (trying _) s q = absurd (ground arith)
reader (spinning _) s q = absurd (ground arith)
reader (entered _) s q = refl
reader (loaded _ _) s q = refl
reader leaving s q = refl

-- A state that threads reach: one of them at most holds the lock, the lock is taken exactly while one
-- does, and the data are what the stored operations make of the initial value.
pub record Inv {ℓ} {S : Type ℓ} (s0 : S) (m : Shared S) (pc : ℕ → Pc S) (ops : List (S → S))
    : Type ℓ where
  pub unique : (i j : ℕ) → critical (pc i) ≡ true → critical (pc j) ≡ true → i ≡ j
  pub taken : (i : ℕ) → critical (pc i) ≡ true → m.locked ≢ 0
  pub held : m.locked ≢ 0 → (i : ℕ) × (critical (pc i) ≡ true)
  pub fresh : (i : ℕ) (s : S) → read_value (pc i) ≡ some s → m.value ≡ s
  pub serial : m.value ≡ replay ops s0

module _ {ℓ} {S : Type ℓ} {s0 : S} {m : Shared S} {pc : ℕ → Pc S} {ops : List (S → S)}
    (inv : Inv s0 m pc ops) (i : ℕ) where
  open inv use {unique, taken, held, fresh, serial}

  -- A step of a thread that does not hold the lock, and does not get it.
  wait-Inv :
      {p : Pc S} (p' : Pc S) (locked' : ℕ)
      → pc i ≡ p
      → critical p ≡ false
      → critical p' ≡ false
      → read_value p' ≡ none
      → (m.locked ≡ 0 → locked' ≡ 0)
      → (m.locked ≢ 0 → locked' ≢ 0)
      → Inv s0 (record m { locked = locked' }) (update pc i p') ops
  wait-Inv p' locked' e out out' none' free busy = record {
    unique = λ a b qa qb. ground (arith, unique a b);
    taken = λ a qa. busy (ground (arith, taken a));
    held = λ h. let (j, q) = held (λ z. h (free z)) in (j, ground arith);
    fresh = λ a s q. ground (arith, fresh a s);
    serial = serial;
  }

  -- The step that gets the free lock.
  enter-Inv :
      (p' : Pc S) (locked' : ℕ)
      → m.locked ≡ 0
      → critical p' ≡ true
      → read_value p' ≡ none
      → locked' ≢ 0
      → Inv s0 (record m { locked = locked' }) (update pc i p') ops
  enter-Inv p' locked' free in' none' busy = record {
    unique = λ a b qa qb. ground (arith, taken a, taken b);
    taken = λ a qa. busy;
    held = λ h. (i, ground arith);
    fresh = λ a s q. ground (arith, fresh a s);
    serial = serial;
  }

  Move-Inv :
      {m' : Shared S} {p p' : Pc S} {new : List (S → S)}
      → pc i ≡ p
      → Move m p m' p' new
      → Inv s0 m' (update pc i p') (new ++ ops)
  unfolding lock_test_and_set trylock replay
  Move-Inv e begin = wait-Inv _ m.locked e refl refl refl (λ z. z) (λ z. z)
  Move-Inv e (win g) = enter-Inv _ 1 g refl refl (omega arith)
  Move-Inv e (lose g) = wait-Inv _ 1 e refl refl refl (λ z. absurd (g z)) (λ z. omega arith)
  Move-Inv e (pause g) = wait-Inv _ m.locked e refl refl refl (λ z. z) (λ z. z)
  Move-Inv e (retry g) = wait-Inv _ m.locked e refl refl refl (λ z. z) (λ z. z)
  Move-Inv e (try_win g) = enter-Inv _ 1 (ground (arith, g)) refl refl (omega arith)
  Move-Inv e (try_lose g) =
      wait-Inv _ 1 e refl refl refl (λ z. absurd (ground (arith, g, z))) (λ z. omega arith)
  Move-Inv e load = record {
    unique = λ a b qa qb. ground (arith, unique a b, unique i b, unique a i);
    taken = λ a qa. ground (arith, taken a, taken i);
    held = λ h. (i, ground arith);
    fresh = λ a s q. ground (arith, fresh a s);
    serial = serial;
  }
  Move-Inv e (store {op} {s}) = record {
    unique = λ a b qa qb. ground (arith, unique a b, unique i b, unique a i);
    taken = λ a qa. ground (arith, taken a, taken i);
    held = λ h. (i, ground arith);
    fresh = λ a t q. absurd (ground (arith, unique i a, reader (update pc i leaving a) t q));
    serial = ap op (sym (fresh i s (ground (arith, e))) ∙ serial);
  }
  Move-Inv e unlock = record {
    unique = λ a b qa qb. ground (arith, unique a b);
    taken = λ a qa. absurd (ground (arith, unique i a));
    held = λ h. absurd (h refl);
    fresh = λ a s q. ground (arith, fresh a s);
    serial = serial;
  }

pub Reach-Inv {ℓ} :
    {S : Type ℓ} {s0 : S} {s : System S} {ops : List (S → S)}
    → Reach s0 s ops
    → Inv s0 s.mem s.pc ops
unfolding replay
Reach-Inv start = record {
  unique = λ i j p q. absurd (ground arith);
  taken = λ i p. absurd (ground arith);
  held = λ h. absurd (h refl);
  fresh = λ i s q. absurd (ground arith);
  serial = refl;
}
Reach-Inv (later r i mv) = Move-Inv (Reach-Inv r) i refl mv

-- In every state that threads reach, with any number of them and in any order of their steps: at most
-- one thread is between winning the spin lock and releasing it, and the lock is taken exactly while
-- one is.
pub mutual_exclusion {ℓ} :
    {S : Type ℓ} {s0 : S} {s : System S} {ops : List (S → S)}
    → Reach s0 s ops
    → ((i j : ℕ) → critical (s.pc i) ≡ true → critical (s.pc j) ≡ true → i ≡ j)
      × ((s.mem.locked ≢ 0) ↔ ((i : ℕ) × (critical (s.pc i) ≡ true)))
mutual_exclusion r = let inv = Reach-Inv r in (inv.unique, (inv.held, λ (i, c). inv.taken i c))

-- What the threads make of the data under the spin lock, each reading them and then writing what its
-- operation makes of what it read, is what the same operations make one after the other in the order
-- of the writes: no update is lost.
pub value-replay {ℓ} :
    {S : Type ℓ} {s0 : S} {s : System S} {ops : List (S → S)}
    → Reach s0 s ops
    → s.mem.value ≡ replay ops s0
value-replay r = (Reach-Inv r).serial
