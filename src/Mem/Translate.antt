-- ===== src/Mem/Translate.antt =====
-- The huge-page table: nvme_mem_search_hp finds the pages that nvme_mem_alloc_hp enters, so that
-- nvme_mem_vtophys translates their addresses without the page map.
use native.Mathlib.Nat.{add-mul-div_right, div-lt_iff_lt-mul}
use libnvme.Prelude.{
  ℕ, zero, suc, ◌+◌, ◌-◌, ◌*◌, ◌/◌, ◌%◌, ◌^◌, ◌<◌, ◌≡◌, refl, sym, subst, true, ◌==◌, ==_iff,
  some_inj, none-ne-some, arith, Option, none, some, List,
}
use libnvme.Mem.{Hugepage, find_hp, search_hp, add_hp, vtophys}

pow_pos : (n : ℕ) → 0 < 2 ^ n
pow_pos zero = omega arith
pow_pos (suc n) = omega (arith, pow_pos n)

same : (n : ℕ) → (n == n) ≡ true
same n = (==_iff n n).1 refl

-- The page number of an address at offset `r` of page `k`.
page_number : (bits k r : ℕ) → r < 2 ^ bits → (r + k * 2 ^ bits) / 2 ^ bits ≡ k
page_number bits k r h =
    let d = (div-lt_iff_lt-mul {x = r} {y = 1} (pow_pos bits)).1 (omega (arith, h)) in
    omega (arith, add-mul-div_right r k (pow_pos bits), d)

found :
    (bits : ℕ) (buckets : ℕ → List Hugepage) (hp : Hugepage) (k r : ℕ)
    → hp.vaddr ≡ k * 2 ^ bits
    → r < 2 ^ bits
    → search_hp bits (add_hp bits buckets hp) (r + k * 2 ^ bits) ≡ some hp
unfolding search_hp add_hp find_hp
found bits buckets hp k r at h = rw (b, a, same (k % 32)) (rw (a, same k) refl)
  where
    a : hp.vaddr / 2 ^ bits ≡ k
    a = subst (λ n. n / 2 ^ bits ≡ k) (omega (arith, at)) (page_number bits k 0 (pow_pos bits))

    b : (r + k * 2 ^ bits) / 2 ^ bits ≡ k
    b = page_number bits k r h

-- nvme_mem_vtophys of an address in a huge page that nvme_mem_alloc_hp has just entered: the
-- physical address of the page plus the offset, whatever the page map says.
pub vtophys-add_hp :
    (bits : ℕ) (buckets : ℕ → List Hugepage) (pagemap : ℕ → Option ℕ) (hp : Hugepage) (k r : ℕ)
    → hp.vaddr ≡ k * 2 ^ bits
    → r < 2 ^ bits
    → hp.paddr + r < 2 ^ 64
    → vtophys bits (add_hp bits buckets hp) pagemap (r + k * 2 ^ bits) ≡ hp.paddr + r
unfolding vtophys
vtophys-add_hp bits buckets pagemap hp k r at h small =
    go (search_hp bits (add_hp bits buckets hp) (r + k * 2 ^ bits)) (found bits buckets hp k r at h)
  where
    addr : ℕ
    addr = r + k * 2 ^ bits

    go :
        (o : Option Hugepage)
        → o ≡ some hp
        → (elim o [
          | some page ↦ (page.paddr + addr + 2 ^ 64 - page.vaddr) % 2 ^ 64
          | none ↦ elim (pagemap (addr / 4096)) [
            | none ↦ 2 ^ 64 - 1
            | some ppfn ↦ ppfn % 2 ^ 55 * 4096 % 2 ^ 64 + addr % 4096
          ]
        ])
          ≡ hp.paddr + r
    go none e = absurd (none-ne-some e)
    go (some page) e =
        subst (λ (x : Hugepage). (x.paddr + addr + 2 ^ 64 - x.vaddr) % 2 ^ 64 ≡ hp.paddr + r)
          (sym (some_inj e)) (omega (arith, at, small))
