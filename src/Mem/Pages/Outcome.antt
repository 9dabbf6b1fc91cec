-- ===== src/Mem/Pages/Outcome.antt =====
-- nvme_mem_alloc_hp and nvme_mem_free_hp: what each leaves, error paths included.
use libnvme.Prelude.{
  ℕ, ◌-◌, ◌^◌, ◌≡◌, ◌≢◌, refl, ap, Bool, true, false, Option, none, some, List, ◌∷◌, ◌==◌,
  if◌then◌else◌, remove, arith,
}
use libnvme.Sync.Atomic
use libnvme.Mem.{Hugepage, vtophys, add_hp}
use libnvme.Mem.Pages.{
  Kernel, new_hp, Os, Pages, given_back, release_hp, enter_hp, settle_hp, map_hp, alloc_hp,
}

-- The calls that give back a file, a descriptor or a mapping that is there succeed.
pub record GivesBack (os : Os) : Type 0 where
  pub munmap : os.munmap ≡ true
  pub close : os.close ≡ true
  pub unlinkat : os.unlinkat ≡ true

abbrev pub hold : Hugepage → Kernel → Kernel
hold hp k = record k { fds = hp.fd ∷ k.fds; maps = hp.vaddr ∷ k.maps; files = hp.fname ∷ k.files }

-- What a call leaves: without a page, nothing but the number of the next file has changed; with one,
-- the page is counted, is the first of its list, has a physical address, and is held.
abbrev pub IsOutcome : Pages → Option Hugepage × Pages → Type 0
IsOutcome p (none, p') = p' ≡ record p { hp_tmp = p'.hp_tmp }
IsOutcome p (some hp, p') =
    (p' ≡ record p {
      hp_tmp = p'.hp_tmp;
      hp_list = add_hp p.hp_size_bits p.hp_list hp;
      nr_hp = Atomic.inc 32 p.nr_hp;
      kernel = hold hp p.kernel;
    })
    × (hp.paddr ≢ 2 ^ 64 - 1)

given_back_first : (b : Bool) (x : ℕ) (xs : List ℕ) → b ≡ true → given_back b x (x ∷ xs) ≡ xs
unfolding remove
given_back_first b x xs h = ground (arith, h)

-- A conditional whose branches have outcomes.
if-IsOutcome :
    (p : Pages) (b : Bool) (r s : Option Hugepage × Pages)
    → (b ≡ true → IsOutcome p r)
    → (b ≡ false → IsOutcome p s)
    → IsOutcome p (if b then r else s)
if-IsOutcome p true r s f g = f refl
if-IsOutcome p false r s f g = g refl

module _ (os : Os) (good : GivesBack os) where
  pub release_first : (hp : Hugepage) (k : Kernel) → release_hp os hp (hold hp k) ≡ k
  unfolding release_hp remove
  release_first hp k = ground (arith, good.munmap, good.close, good.unlinkat)

  settle_hp-IsOutcome :
      (hp : Hugepage) (tmp : ℕ) (p : Pages)
      → IsOutcome p (settle_hp os hp (record p { hp_tmp = tmp; kernel = hold hp p.kernel }))
  unfolding settle_hp enter_hp
  settle_hp-IsOutcome hp tmp p =
      let bound : Bool = if hp.node_id == 2 ^ 32 - 1 then os.mbind 0 0 else os.mbind hp.node_id 1 in
      let paddr : ℕ = vtophys p.hp_size_bits p.hp_list os.pagemap hp.vaddr in
      let placed : Hugepage = record hp { paddr = paddr } in
      let held : Pages = record p { hp_tmp = tmp; kernel = hold hp p.kernel } in
      let back : Option Hugepage × Pages =
        (none, record p { hp_tmp = tmp; kernel = release_hp os hp (hold hp p.kernel) }) in
      let got : Option Hugepage × Pages = (some placed, enter_hp placed held) in
      let checked : Option Hugepage × Pages = if paddr == 2 ^ 64 - 1 then back else got in
      if-IsOutcome p bound (if os.mlock then checked else back) back
        (λ b.
          if-IsOutcome p os.mlock checked back
            (λ l.
              if-IsOutcome p (paddr == 2 ^ 64 - 1) back got (λ e. undone)
                (λ e. (refl, λ q. ground (arith, e, q))))
            (λ l. undone))
        (λ b. undone)
    where
      undone :
          record p { hp_tmp = tmp; kernel = release_hp os hp (hold hp p.kernel) }
          ≡ record p { hp_tmp = tmp }
      undone = ap (λ k. record p { hp_tmp = tmp; kernel = k }) (release_first hp p.kernel)

  map_hp-IsOutcome :
      (o : Option ℕ) (hp : Hugepage) (tmp : ℕ) (p : Pages)
      → os.mmap ≡ o
      → IsOutcome p (
          map_hp os hp (record p {
            hp_tmp = tmp;
            kernel = record p.kernel {
              fds = hp.fd ∷ p.kernel.fds;
              files = hp.fname ∷ p.kernel.files;
            };
          }))
  unfolding map_hp
  map_hp-IsOutcome none hp tmp p e = rw e (
      ap (λ (k : Kernel). record p { hp_tmp = tmp; kernel = k })
        (ground (arith, good.close, good.unlinkat)))
  map_hp-IsOutcome (some v) hp tmp p e = rw e (settle_hp-IsOutcome (record hp { vaddr = v }) tmp p)

  -- nvme_mem_alloc_hp, whatever the system answers to the allocation, as long as it takes back what
  -- it gave: without a page it has changed nothing but the number of the next file, so that no
  -- descriptor, file or mapping is lost on an error path; with a page, the page is counted, is the
  -- first of its list in the table, has a physical address, and is what the process holds in addition.
  pub alloc_hp-IsOutcome : (node_id : ℕ) (p : Pages) → IsOutcome p (alloc_hp os node_id p)
  unfolding alloc_hp
  alloc_hp-IsOutcome node_id p = if-IsOutcome p os.calloc _ _ (λ c. go os.openat) (λ c. refl)
    where
      go :
          (o : Option ℕ)
          → IsOutcome p (elim o [
            | none ↦ (none, record p { hp_tmp = (Atomic.add_return 64 p.hp_tmp 1).1 })
            | some fd ↦
                map_hp os (new_hp p node_id fd ((Atomic.add_return 64 p.hp_tmp 1).0)) (record p {
                  hp_tmp = (Atomic.add_return 64 p.hp_tmp 1).1;
                  kernel = record p.kernel {
                    fds = fd ∷ p.kernel.fds;
                    files = (Atomic.add_return 64 p.hp_tmp 1).0 ∷ p.kernel.files;
                  };
                })
          ])
      go none = refl
      go (some fd) =
          map_hp-IsOutcome os.mmap (new_hp p node_id fd ((Atomic.add_return 64 p.hp_tmp 1).0))
            ((Atomic.add_return 64 p.hp_tmp 1).1) p refl
