-- ===== src/Sync.antt =====
-- lib/common/nvme_atomic.h and lib/common/nvme_spinlock.h: counters and the spin lock, and the
-- threads that change the data under one lock.
pub mod Atomic
pub mod Spinlock
pub mod Exclusion
mod Tests
