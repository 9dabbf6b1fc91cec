-- ===== src/Sync/Tests.antt =====
-- Two threads enter a huge page each into one table.
use libnvme.Prelude.{ℕ, ◌-◌, ◌^◌, ◌≡◌, ◌≢◌, ◌↔◌, refl, true, List, [], ◌∷◌, arith}
use libnvme.Sync.Atomic
use libnvme.Sync.Spinlock.{
  lock_test_and_set, Shared, Pc, Move, begin, win, lose, retry, load, store, unlock, System,
  initial,
}
use libnvme.Sync.Exclusion.{critical, replay, Reach, start, later, mutual_exclusion, value-replay}

-- -1 + 1 and 0 - 1
inc_and_test_wraps : Atomic.inc_and_test 32 (2 ^ 32 - 1) ≡ (true, 0)
unfolding Atomic.inc_and_test Atomic.add_return Atomic.add
inc_and_test_wraps = refl

dec_wraps : Atomic.dec 64 0 ≡ 2 ^ 64 - 1
unfolding Atomic.dec Atomic.sub
dec_wraps = refl

abbrev Table : Type 0
Table = List ℕ

abbrev Run : Type 0
Run = (s : System Table) × (ops : List (Table → Table)) × Reach [] s ops

abbrev advance :
    (r : Run) (i : ℕ) {m : Shared Table} {p : Pc Table} {new : List (Table → Table)}
    → Move (r.0.mem) (r.0.pc i) m p new
    → Run
advance r i mv = (_, _, later (r.2) i mv)

-- Thread 0 wins, thread 1 loses and spins; thread 0 stores.
abbrev contended : Run
unfolding lock_test_and_set
contended =
    let a = advance (initial [], [], start) 0 (begin {op = ◌∷◌ 3}) in
    let b = advance a 1 (begin {op = ◌∷◌ 5}) in
    let c = advance b 0 (win refl) in
    let d = advance c 1 (lose (omega arith)) in let e = advance d 0 load in advance e 0 store

-- Thread 0 releases, and thread 1 enters its page.
abbrev both : Run
unfolding lock_test_and_set
both =
    let a = advance contended 0 unlock in
    let b = advance a 1 (retry refl) in
    let c = advance b 1 (win refl) in let d = advance c 1 load in advance d 1 store

mutual_exclusion_example :
    ((i j : ℕ) → critical (contended.0.pc i) ≡ true → critical (contended.0.pc j) ≡ true → i ≡ j)
    × ((contended.0.mem.locked ≢ 0) ↔ ((i : ℕ) × (critical (contended.0.pc i) ≡ true)))
unfolding lock_test_and_set
mutual_exclusion_example = mutual_exclusion (contended.2)

value-replay_example : both.0.mem.value ≡ 5 ∷ 3 ∷ []
unfolding lock_test_and_set replay
value-replay_example = value-replay (both.2)
