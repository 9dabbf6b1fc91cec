-- ===== src/Mem/Pools/Tests.antt =====
-- 200 bytes at an alignment of 64 come from the pool of 256-byte objects.
use libnvme.Prelude.{ℕ, ◌<◌, ◌≡◌, refl, inr, none, some, get_or, arith}
use libnvme.Common.{is_pow2, align_pow2, log2}
use libnvme.Mem.{pool_for}
use libnvme.Mem.Pools.{new_pool, init_pools}
use libnvme.Mem.Pools.Choice.{IsChoice, pool_for-IsChoice}

pool_for-IsChoice_example :
    (i : ℕ) × (i < 15)
    × (pool_for 200 64 ≡ some i)
    × IsChoice 200 64 i (get_or (init_pools 15 7) i (new_pool 0))
unfolding is_pow2
pool_for-IsChoice_example = pool_for-IsChoice 200 64 (omega arith) (inr refl) (omega arith)

second_pool : pool_for 200 64 ≡ some 1
unfolding pool_for log2 align_pow2 is_pow2
second_pool = refl

-- NULL for 3 MB
too_large : pool_for 0x300000 0 ≡ none
unfolding pool_for log2 align_pow2 is_pow2
too_large = refl
