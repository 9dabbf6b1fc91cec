-- ===== src/Cpu/Tests.antt =====
-- Four CPUs on two cores, and a system in which CPU 0 is missing.
use libnvme.Prelude.{◌%◌, ◌≡◌, refl, ◌&&◌, none, some, ltb, ◌==◌, not}
use libnvme.Cpu.{Sysfs, thread_id, cpu_init, get_cpu, value_or_zero}

abbrev sys : Sysfs
sys = record {
  node = λ i. i == 0;
  present = λ i. ltb i 4;
  package_id = λ i. some 0;
  core_id = λ i. some (i % 2);
}

two_cores : (cpu_init sys).nr_cores ≡ 2
unfolding cpu_init thread_id value_or_zero
two_cores = refl

second_thread : ((cpu_init sys).cpu 3).thread ≡ 1
unfolding cpu_init thread_id value_or_zero
second_thread = refl

-- CPU 0 is offline, and CPUs 1 and 2 share core 5: both become thread 0, and CPU 2 is refused.
abbrev gap : Sysfs
gap = record {
  node = λ i. i == 0;
  present = λ i. not (i == 0) && ltb i 3;
  package_id = λ i. some 0;
  core_id = λ i. some 5;
}

gap_threads : (((cpu_init gap).cpu 1).thread ≡ 0) × (((cpu_init gap).cpu 2).thread ≡ 0)
unfolding cpu_init thread_id value_or_zero
gap_threads = (refl, refl)

gap_refused : get_cpu (some 2) (cpu_init gap) ≡ none
unfolding cpu_init get_cpu
gap_refused = refl
