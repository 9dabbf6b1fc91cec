-- ===== src/Mem/Tests.antt =====
-- A pool of 128-byte objects, empty at first, that grows by a page of eight objects.
use libnvme.Prelude.{ℕ, ◌≡◌, refl, Option, none, some, some_inj, subst, [], arith}
use libnvme.Common.{find_first_zero_bit, test_bit}
use libnvme.Mem.{Hugepage, Mempool, pool_alloc, pool_free, vtophys, add_hp}
use libnvme.Mem.Inv.{PoolOk, sum}
use libnvme.Mem.Grow.{Fresh}
use libnvme.Mem.Free.{pool_free-PoolOk}
use libnvme.Mem.Translate.{vtophys-add_hp}
use libnvme.Mem.Alloc.{AllocResult, pool_alloc-AllocResult}

abbrev page : Hugepage
page = record {
  size = 1024;
  size_bits = 10;
  vaddr = 0x200000;
  paddr = 0x7000000;
  node_id = 0;
  fd = 5;
  fname = 1;
}

abbrev empty_pool : Mempool
empty_pool = record {
  size_bits = 7;
  nr_objs = 0;
  nr_free_objs = 0;
  nr_use = 0;
  use_list = [];
  nr_full = 0;
  full_list = [];
  heaps = λ _. record { hp = page; nr_objs = 0; nr_free_objs = 0; bitmap = [] };
}

empty_pool-PoolOk : PoolOk empty_pool
unfolding sum
empty_pool-PoolOk = record {
  used = refl;
  full = refl;
  single = λ h. omega arith;
  heap = λ h p. absurd (omega (arith, p));
  use_free = λ h p. absurd (omega (arith, p));
  full_free = λ h p. absurd (omega (arith, p));
  objs = refl;
  free = refl;
  few = omega arith;
  few_objs = omega arith;
}

page-Fresh : Fresh empty_pool 1 page
page-Fresh = record {
  objs = 8;
  size = refl;
  some_objs = omega arith;
  small = omega arith;
  unlisted = refl;
  few = omega arith;
  few_objs = omega arith;
}

abbrev next : Option (ℕ × Hugepage)
next = some (1, page)

next-Fresh : (h : ℕ) (hp : Hugepage) → next ≡ some (h, hp) → Fresh empty_pool h hp
next-Fresh h hp e =
    subst (λ (w : ℕ × Hugepage). Fresh empty_pool (w.0) (w.1)) (some_inj e) page-Fresh

pool_alloc-AllocResult_example : AllocResult next empty_pool (pool_alloc next empty_pool)
pool_alloc-AllocResult_example = pool_alloc-AllocResult next empty_pool empty_pool-PoolOk next-Fresh

-- The first object starts the page.
first_object : (pool_alloc next empty_pool).0 ≡ some (0x200000, 0x7000000)
unfolding pool_alloc find_first_zero_bit test_bit
first_object = refl

-- The pool after that allocation.
abbrev one_used : Mempool
unfolding pool_alloc find_first_zero_bit test_bit
one_used = (pool_alloc next empty_pool).1

one_used-PoolOk : PoolOk one_used
unfolding pool_alloc find_first_zero_bit test_bit
one_used-PoolOk = (pool_alloc-AllocResult next empty_pool empty_pool-PoolOk next-Fresh).0

pool_free-PoolOk_example : PoolOk (pool_free one_used 1 0x200000)
unfolding pool_alloc find_first_zero_bit test_bit
pool_free-PoolOk_example = pool_free-PoolOk one_used 1 0x200000 one_used-PoolOk (omega arith)

vtophys-add_hp_example : vtophys 21 (add_hp 21 (λ _. []) page) (λ _. none) 0x200010 ≡ 0x7000010
vtophys-add_hp_example =
    vtophys-add_hp 21 (λ _. []) (λ _. none) page 1 16 refl (omega arith) (omega arith)
