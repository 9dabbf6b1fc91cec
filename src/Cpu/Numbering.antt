-- ===== src/Cpu/Numbering.antt =====
-- Where the CPUs 0 to n - 1 are the ones present, nvme_cpu_init numbers the threads of each core.
use libnvme.Prelude.{ℕ, ◌<◌, ◌≡◌}
use libnvme.Cpu.{Cpu, CpuInfo, siblings}
use libnvme.Cpu.Siblings.{first_threads}

-- The first `n` CPUs are numbered.
pub record IsNumbered (n : ℕ) (info : CpuInfo) : Type 0 where
  pub cpus : info.nr_cpus ≡ n
  pub ids : (k : ℕ) → k < n → (info.cpu k).id ≡ k
  pub threads : (k : ℕ) → k < n → (info.cpu k).thread ≡ siblings info.cpu k (info.cpu k)
  pub cores : info.nr_cores ≡ first_threads info.cpu n
