-- ===== src/Sync/Spinlock.antt =====
-- lib/common/nvme_spinlock.h, and threads that change the data of type `S` under one spin lock: each
-- reads the data, then writes what its operation makes of it, a shared access at a time. This is the
-- pattern of the lock around the huge-page table in lib/common/nvme_mem.c.
use libnvme.Prelude.{ℕ, ◌≡◌, ◌≢◌, Bool, true, false, List, [], ◌∷◌, ◌==◌}

-- `__sync_lock_test_and_set(&sl->locked, 1)`: the old value, and the lock.
unfoldable pub lock_test_and_set : ℕ → ℕ × ℕ
lock_test_and_set locked = (locked, 1)

-- nvme_spinlock_trylock
unfoldable pub trylock : ℕ → Bool × ℕ
unfolding lock_test_and_set
trylock locked = let (old, locked') = lock_test_and_set locked in (old == 0, locked')

-- nvme_spinlock_init and nvme_spin_unlock
abbrev pub unlocked : ℕ
unlocked = 0

-- What the threads share.
pub record Shared {ℓ} (S : Type ℓ) : Type ℓ where
  pub locked : ℕ
  pub value : S

-- Where a thread stands, with the operation it is about to apply.
pub data Pc {ℓ} (S : Type ℓ) : Type ℓ where
  outside : Pc S
  trying : (op : S → S) → Pc S  -- the outer loop of nvme_spin_lock
  spinning : (op : S → S) → Pc S  -- the inner loop
  entered : (op : S → S) → Pc S
  loaded : (op : S → S) (s : S) → Pc S
  leaving : Pc S

-- One step of one thread; the last index is the operation that the step has made visible.
pub data Move {ℓ} {S : Type ℓ} (m : Shared S) : Pc S → Shared S → Pc S → List (S → S) → Type ℓ where
  begin : {op : S → S} → Move m outside m (trying op) []
  win :
      {op : S → S}
      → (lock_test_and_set m.locked).0 ≡ 0
      → Move m (trying op) (record m { locked = (lock_test_and_set m.locked).1 }) (entered op) []
  lose :
      {op : S → S}
      → (lock_test_and_set m.locked).0 ≢ 0
      → Move m (trying op) (record m { locked = (lock_test_and_set m.locked).1 }) (spinning op) []
  pause : {op : S → S} → m.locked ≢ 0 → Move m (spinning op) m (spinning op) []
  retry : {op : S → S} → m.locked ≡ 0 → Move m (spinning op) m (trying op) []
  try_win :
      {op : S → S}
      → (trylock m.locked).0 ≡ true
      → Move m outside (record m { locked = (trylock m.locked).1 }) (entered op) []
  try_lose :
      (trylock m.locked).0 ≡ false
      → Move m outside (record m { locked = (trylock m.locked).1 }) outside []
  load : {op : S → S} → Move m (entered op) m (loaded op m.value) []
  store : {op : S → S} {s : S} → Move m (loaded op s) (record m { value = op s }) leaving (op ∷ [])
  unlock : Move m leaving (record m { locked = unlocked }) outside []

pub record System {ℓ} (S : Type ℓ) : Type ℓ where
  pub mem : Shared S
  pub pc : ℕ → Pc S

-- The initialised lock, with every thread outside.
abbrev pub initial {ℓ} : {S : Type ℓ} → S → System S
initial s = record { mem = record { locked = unlocked; value = s }; pc = λ _. outside }
