-- ===== src/Mem/Pages/Tests.antt =====
-- A process that gets a huge page of 2 MB, and gives it back.
use libnvme.Prelude.{◌^◌, ◌<◌, ◌≡◌, refl, true, false, none, some, some_inj, subst, [], arith}
use libnvme.Mem.{Hugepage}
use libnvme.Mem.Pages.{Os, Pages, free_hp, alloc_hp}
use libnvme.Mem.Pages.Setup.{Host, hp_init, hp_cleanup}
use libnvme.Mem.Pages.Outcome.{GivesBack, IsOutcome, alloc_hp-IsOutcome}
use libnvme.Mem.Pages.Release.{free_hp-alloc_hp}
use libnvme.Mem.Pages.Cleanup.{begin, get, nothing}
use libnvme.Mem.Pages.Balance.{hp_cleanup-hp_init}

abbrev os : Os
os = record {
  calloc = true;
  openat = some 7;
  mmap = some 0x40000000;
  mbind = λ mask nodes. true;
  mlock = true;
  pagemap = λ vpn. some 0x1234;
  munmap = true;
  close = true;
  unlinkat = true;
}

abbrev no_lock : Os
no_lock = record os { mlock = false }

os-GivesBack : GivesBack os
os-GivesBack = record { munmap = refl; close = refl; unlinkat = refl }

no_lock-GivesBack : GivesBack no_lock
no_lock-GivesBack = record { munmap = refl; close = refl; unlinkat = refl }

abbrev cleared : Pages
cleared = record {
  hp_dir = none;
  hp_dd = 0;
  hp_size = 0;
  hp_size_bits = 0;
  hp_tmp = 0;
  nr_hp = 0;
  hp_list = λ _. [];
  kernel = nothing;
}

abbrev host : Host
host = record { hp_dir = some 1; hp_size = 0x200000; opened = some 4 }

abbrev ready : Pages
ready = (hp_init host cleared).1

abbrev got : Hugepage
got = record {
  size = 0;
  size_bits = 0;
  vaddr = 0x40000000;
  paddr = 0x1234000;
  node_id = 0;
  fd = 7;
  fname = 1;
}

free_hp-alloc_hp_example :
    free_hp os 0x40000000 ((alloc_hp os 0 cleared).1) ≡ some (record cleared { hp_tmp = 1 })
unfolding alloc_hp
free_hp-alloc_hp_example = free_hp-alloc_hp os os-GivesBack 0 cleared got (omega arith) refl

-- The page cannot be locked: everything is given back.
alloc_hp-IsOutcome_example : IsOutcome cleared (alloc_hp no_lock 0 cleared)
alloc_hp-IsOutcome_example = alloc_hp-IsOutcome no_lock no_lock-GivesBack 0 cleared

no_lock_fails : (alloc_hp no_lock 0 cleared).0 ≡ none
unfolding alloc_hp
no_lock_fails = refl

hp_cleanup-hp_init_example :
    (q : Pages) × (hp_cleanup 2 os ((alloc_hp os 0 ready).1) ≡ some q)
    × (q.kernel ≡ nothing)
    × (q.nr_hp ≡ 0)
unfolding alloc_hp hp_init
hp_cleanup-hp_init_example =
    hp_cleanup-hp_init 2 os host cleared ((alloc_hp os 0 ready).1) os-GivesBack refl
      (λ fd e. subst (λ x. x < 2 ^ 31) (some_inj e) (omega arith)) refl
      (get begin os os-GivesBack 0) (λ j. ground arith)
