-- ===== src/Sync/Atomic.antt =====
-- lib/common/nvme_atomic.h: counters of `w` bits, 32 or 64, as numbers below 2 ^ w in two's
-- complement. Every operation is one step; those that test answer a truth value.
use libnvme.Prelude.{ℕ, ◌+◌, ◌-◌, ◌%◌, ◌^◌, Bool, true, false, ◌==◌, if◌then◌else◌}

-- nvme_atomic_init and nvme_atomic_clear
unfoldable pub init : ℕ
init = 0

-- __sync_fetch_and_add and __sync_fetch_and_sub
unfoldable pub add : ℕ → ℕ → ℕ → ℕ
add w v inc = (v + inc) % 2 ^ w

unfoldable pub sub : ℕ → ℕ → ℕ → ℕ
sub w v dec = (v + 2 ^ w - dec % 2 ^ w) % 2 ^ w

unfoldable pub inc : ℕ → ℕ → ℕ
unfolding add
inc w v = add w v 1

unfoldable pub dec : ℕ → ℕ → ℕ
unfolding sub
dec w v = sub w v 1

-- The value returned, and the counter.
unfoldable pub add_return : ℕ → ℕ → ℕ → ℕ × ℕ
unfolding add
add_return w v inc = (add w v inc, add w v inc)

unfoldable pub sub_return : ℕ → ℕ → ℕ → ℕ × ℕ
unfolding sub
sub_return w v dec = (sub w v dec, sub w v dec)

unfoldable pub inc_and_test : ℕ → ℕ → Bool × ℕ
unfolding add_return
inc_and_test w v = let (r, v') = add_return w v 1 in (r == 0, v')

unfoldable pub dec_and_test : ℕ → ℕ → Bool × ℕ
unfolding sub_return
dec_and_test w v = let (r, v') = sub_return w v 1 in (r == 0, v')

-- `__sync_bool_compare_and_swap(v, 0, 1)`
unfoldable pub test_and_set : ℕ → Bool × ℕ
test_and_set v = if v == 0 then (true, 1) else (false, v)
