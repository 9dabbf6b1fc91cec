-- ===== src/Cpu/Siblings.antt =====
-- How many CPUs before a given one are on its core: the count of nvme_cpu_thread_id.

use libnvme.Prelude.{
  ℕ, zero, suc, ◌+◌, ◌≤◌, ◌<◌, ◌≡◌, refl, true, Bool-cases, inl, inr, ◌==◌, if◌then◌else◌, update,
  arith,
}
use libnvme.Cpu.{Cpu, same_core, siblings}

-- How many of the first `n` CPUs are the first thread of their core.
unfoldable pub first_threads : (ℕ → Cpu) → ℕ → ℕ
first_threads cpu zero = 0
first_threads cpu (suc n) =
    let rest = first_threads cpu n in if (cpu n).thread == 0 then rest + 1 else rest

-- A write above the first `n` CPUs.
pub siblings-update :
    (cpu : ℕ → Cpu) (n i : ℕ) (x c d : Cpu)
    → n ≤ i
    → c.socket ≡ d.socket
    → c.core ≡ d.core
    → siblings (update cpu i x) n c ≡ siblings cpu n d
unfolding siblings
siblings-update cpu zero i x c d h s r = refl
siblings-update cpu (suc n) i x c d h s r =
    ground (arith, siblings-update cpu n i x c d (omega (arith, h)) s r)

pub first_threads-update :
    (cpu : ℕ → Cpu) (n i : ℕ) (x : Cpu)
    → n ≤ i
    → first_threads (update cpu i x) n ≡ first_threads cpu n
unfolding first_threads
first_threads-update cpu zero i x h = refl
first_threads-update cpu (suc n) i x h =
    ground (arith, first_threads-update cpu n i x (omega (arith, h)))

-- Later CPUs of a core have more siblings before them.
pub siblings_grow :
    (cpu : ℕ → Cpu) (i j : ℕ) (c : Cpu)
    → i < j
    → same_core (cpu i) c ≡ true
    → siblings cpu i c < siblings cpu j c
unfolding siblings
siblings_grow cpu i zero c h e = absurd (omega (arith, h))
siblings_grow cpu i (suc j) c h e = elim (Bool-cases (i == j)) [
  | inl p ↦ ground (arith, p, e)
  | inr p ↦ ground (arith, siblings_grow cpu i j c)
]

pub siblings_alike :
    (cpu : ℕ → Cpu) (n : ℕ) (c d : Cpu) → same_core c d ≡ true → siblings cpu n c ≡ siblings cpu n d
unfolding siblings
siblings_alike cpu zero c d e = refl
siblings_alike cpu (suc n) c d e = ground (arith, siblings_alike cpu n c d e)
