-- ===== src/Cpu.antt =====
-- lib/common/nvme_cpu.c and lib/common/nvme_cpu.h: the CPUs of the system. What sysfs shows and what
-- sched_getcpu answers are parameters; an `unsigned int` is a number below 2 ^ 32.
pub mod Siblings
pub mod Numbering
mod Tests
use libnvme.Prelude.{
  ℕ, zero, suc, ◌+◌, ◌-◌, ◌%◌, ◌^◌, Bool, true, false, ◌&&◌, Option, none, some, leb, ◌==◌,
  if◌then◌else◌, update,
}

-- struct nvme_cpu
pub record Cpu : Type 0 where
  pub id : ℕ
  pub socket : ℕ
  pub core : ℕ
  pub thread : ℕ
  pub present : Bool

-- struct nvme_cpu_info
pub record CpuInfo : Type 0 where
  pub nr_cpus : ℕ
  pub cpu : ℕ → Cpu
  pub nr_sockets : ℕ
  pub nr_cores : ℕ

-- The files under /sys/devices/system: which nodes and CPUs there are, and the values that
-- nvme_parse_sysfs_value reads, `none` for a failure.
pub record Sysfs : Type 0 where
  pub node : ℕ → Bool
  pub present : ℕ → Bool
  pub package_id : ℕ → Option ℕ
  pub core_id : ℕ → Option ℕ

-- nvme_socket_count: the loop from socket `socket` on, for `n` more.
unfoldable pub count_sockets : Sysfs → ℕ → ℕ → ℕ
count_sockets sys zero socket = 0
count_sockets sys (suc n) socket =
    let rest = count_sockets sys n (socket + 1) in if sys.node socket then rest + 1 else 0

unfoldable pub socket_count : Sysfs → ℕ
unfolding count_sockets
socket_count sys = count_sockets sys 32 0

-- nvme_cpu_socket_id and nvme_cpu_core_id: a value that cannot be read is 0.
unfoldable pub value_or_zero : Option ℕ → ℕ
value_or_zero none = 0
value_or_zero (some id) = id % 2 ^ 32

abbrev pub same_core : Cpu → Cpu → Bool
same_core c d = (c.socket == d.socket) && (c.core == d.core)

-- The loop of nvme_cpu_thread_id after `n` passes: how many of the first `n` CPUs are on this core.
unfoldable pub siblings : (ℕ → Cpu) → ℕ → Cpu → ℕ
siblings cpu zero c = 0
siblings cpu (suc n) c =
    let thid = siblings cpu n c in if same_core (cpu n) c then thid + 1 else thid

-- nvme_cpu_thread_id
unfoldable pub thread_id : CpuInfo → ℕ → ℕ
unfolding siblings
thread_id info cpu_id = siblings info.cpu info.nr_cpus (info.cpu cpu_id)

-- `cpu->id`, `cpu->present`, `cpu->socket` and `cpu->core` of a CPU that is there
abbrev pub place_cpu : Sysfs → ℕ → Cpu → Cpu
place_cpu sys i cpu = record cpu {
  id = i;
  present = true;
  socket = value_or_zero (sys.package_id i);
  core = value_or_zero (sys.core_id i);
}

-- `cpu->thread`, and the counters
abbrev pub number_cpu : ℕ → CpuInfo → CpuInfo
number_cpu i info =
    let thread = thread_id info i in
    record info {
      cpu = update info.cpu i (record (info.cpu i) { thread = thread });
      nr_cpus = info.nr_cpus + 1;
      nr_cores = if thread == 0 then info.nr_cores + 1 else info.nr_cores;
    }

-- One pass of the loop of nvme_cpu_init.
unfoldable pub init_cpu : Sysfs → ℕ → CpuInfo → CpuInfo
init_cpu sys i info =
    if sys.present i
    then number_cpu i (record info { cpu = update info.cpu i (place_cpu sys i (info.cpu i)) })
    else (record info {
      cpu = update info.cpu i (record (info.cpu i) { id = 2 ^ 32 - 1; present = false });
    })

-- The first `n` passes.
unfoldable pub init_cpus : Sysfs → ℕ → CpuInfo → CpuInfo
unfolding init_cpu
init_cpus sys zero info = info
init_cpus sys (suc n) info = init_cpu sys n (init_cpus sys n info)

-- nvme_cpu_init, after the `memset`; NVME_CPU_MAX is 64.
unfoldable pub cpu_init : Sysfs → CpuInfo
unfolding init_cpus socket_count
cpu_init sys = init_cpus sys 64 (record {
  nr_cpus = 0;
  cpu = λ _. record { id = 0; socket = 0; core = 0; thread = 0; present = false };
  nr_sockets = socket_count sys;
  nr_cores = 0;
})

-- nvme_get_cpu, by the number of the CPU; `cpu` is what sched_getcpu answers.
unfoldable pub get_cpu : Option ℕ → CpuInfo → Option ℕ
get_cpu none info = none
get_cpu (some cpu) info = if leb info.nr_cpus cpu then none else some cpu

-- nvme_cpu_id and nvme_socket_id; NVME_CPU_ID_ANY and NVME_SOCKET_ID_ANY are UINT_MAX.
unfoldable pub cpu_id : Option ℕ → CpuInfo → ℕ
unfolding get_cpu
cpu_id now info = elim (get_cpu now info) [ none ↦ 2 ^ 32 - 1 | some i ↦ (info.cpu i).id ]

unfoldable pub socket_id : Option ℕ → CpuInfo → ℕ
unfolding get_cpu
socket_id now info = elim (get_cpu now info) [ none ↦ 2 ^ 32 - 1 | some i ↦ (info.cpu i).socket ]
