-- ===== src/Mem/Pages.antt =====
-- lib/common/nvme_mem.c: the huge pages of the process, from the operating system and back. What the
-- system answers to one call is the parameter `Os`; what the process holds is `Kernel`. A pointer to
-- a huge page is its virtual address, and ends with the mapping.
pub mod Setup
pub mod Table
pub mod Outcome
pub mod Books
pub mod Release
pub mod Cleanup
pub mod Balance
mod Tests
use libnvme.Prelude.{
  ℕ, zero, suc, ◌+◌, ◌-◌, ◌*◌, ◌/◌, ◌%◌, ◌^◌, Bool, Option, none, some, List, [], ◌∷◌, ◌==◌, ◌>>=◌,
  if◌then◌else◌, remove, update,
}
use libnvme.Common.{log2}
use libnvme.Types.{Ret, success, failure, enomem}
use libnvme.Sync.Atomic
use libnvme.Mem.{Hugepage, vtophys, add_hp}

-- What nvme_mem_alloc_hp and nvme_mem_hp_init hold: open files, mapped addresses, files of the huge
-- pages, and directories.
pub record Kernel : Type 0 where
  pub fds : List ℕ
  pub maps : List ℕ
  pub files : List ℕ
  pub dirs : List ℕ

-- The answers of the system, `none` and `false` for a failure. `mbind` takes the node mask and its
-- length.
pub record Os : Type 0 where
  pub calloc : Bool
  pub openat : Option ℕ
  pub mmap : Option ℕ
  pub mbind : ℕ → ℕ → Bool
  pub mlock : Bool
  pub pagemap : ℕ → Option ℕ
  pub munmap : Bool
  pub close : Bool
  pub unlinkat : Bool

-- struct nvme_mem up to the pools, with what the process holds for it. The size of a page (4096) and
-- the descriptor of the page map stand in `vtophys` and its parameter.
pub record Pages : Type 0 where
  pub hp_dir : Option ℕ
  pub hp_dd : ℕ
  pub hp_size : ℕ
  pub hp_size_bits : ℕ
  pub hp_tmp : ℕ
  pub nr_hp : ℕ
  pub hp_list : ℕ → List Hugepage
  pub kernel : Kernel

-- A call that gives something back, where it succeeds.
abbrev pub given_back : Bool → ℕ → List ℕ → List ℕ
given_back ok x xs = if ok then remove x xs else xs

-- The mapping, the descriptor and the file of a huge page are given back.
unfoldable pub release_hp : Os → Hugepage → Kernel → Kernel
unfolding remove
release_hp os hp k = record k {
  maps = given_back os.munmap hp.vaddr k.maps;
  fds = given_back os.close hp.fd k.fds;
  files = given_back os.unlinkat hp.fname k.files;
}

-- The end of nvme_mem_alloc_hp: the page enters the table.
unfoldable pub enter_hp : Hugepage → Pages → Pages
unfolding add_hp Atomic.inc
enter_hp hp p = record p {
  hp_list = add_hp p.hp_size_bits p.hp_list hp;
  nr_hp = Atomic.inc 32 p.nr_hp;
}

-- nvme_mem_alloc_hp once the file is mapped, with its error path; `NVME_NODE_ID_ANY` is UINT_MAX.
unfoldable pub settle_hp : Os → Hugepage → Pages → Option Hugepage × Pages
unfolding release_hp enter_hp vtophys
settle_hp os hp p =
    let bound = if hp.node_id == 2 ^ 32 - 1 then os.mbind 0 0 else os.mbind hp.node_id 1 in
    let paddr = vtophys p.hp_size_bits p.hp_list os.pagemap hp.vaddr in
    let placed = record hp { paddr = paddr } in
    let undone = record p { kernel = release_hp os hp p.kernel } in
    if bound
    then if os.mlock
      then if paddr == 2 ^ 64 - 1 then (none, undone) else (some placed, enter_hp placed p)
      else (none, undone)
    else (none, undone)

-- nvme_mem_alloc_hp once the file is open; a file that cannot be mapped is closed and removed.
unfoldable pub map_hp : Os → Hugepage → Pages → Option Hugepage × Pages
unfolding settle_hp remove
map_hp os hp p = elim os.mmap [
  | none ↦ (
    none,
    record p {
      kernel = record p.kernel {
        fds = given_back os.close hp.fd p.kernel.fds;
        files = given_back os.unlinkat hp.fname p.kernel.files;
      };
    },
  )
  | some vaddr ↦
      settle_hp os (record hp { vaddr = vaddr })
        (record p { kernel = record p.kernel { maps = vaddr ∷ p.kernel.maps } })
]

-- The descriptor that nvme_mem_alloc_hp fills before it maps the file
abbrev pub new_hp : Pages → ℕ → ℕ → ℕ → Hugepage
new_hp p node_id fd fname = record {
  size = p.hp_size;
  size_bits = p.hp_size_bits;
  vaddr = 0;
  paddr = 0;
  node_id = node_id;
  fd = fd;
  fname = fname;
}

-- nvme_mem_alloc_hp
unfoldable pub alloc_hp : Os → ℕ → Pages → Option Hugepage × Pages
unfolding map_hp Atomic.add_return
alloc_hp os node_id p =
    let (fname, tmp) = Atomic.add_return 64 p.hp_tmp 1 in
    let named = record p { hp_tmp = tmp } in
    if os.calloc
    then elim os.openat [
      | none ↦ (none, named)
      | some fd ↦ map_hp os (new_hp p node_id fd fname) (record named {
        kernel = record p.kernel { fds = fd ∷ p.kernel.fds; files = fname ∷ p.kernel.files };
      })
    ]
    else (none, p)

-- LIST_REMOVE: the page mapped at `vaddr` and the list without it; `none` if there is none.
unfoldable pub unlink : ℕ → List Hugepage → Option (Hugepage × List Hugepage)
unlink vaddr [] = none
unlink vaddr (hp ∷ hps) =
    let rest = unlink vaddr hps in
    if hp.vaddr == vaddr then some (hp, hps) else rest >>= λ found. some (found.0, hp ∷ found.1)

-- nvme_mem_free_hp; `none` for a page that is not in the table.
unfoldable pub free_hp : Os → ℕ → Pages → Option Pages
unfolding unlink release_hp Atomic.dec
free_hp os vaddr p =
    let hash = vaddr / 2 ^ p.hp_size_bits % 32 in
    unlink vaddr (p.hp_list hash) >>= λ found. some (record p {
      hp_list = update p.hp_list hash (found.1);
      nr_hp = Atomic.dec 32 p.nr_hp;
      kernel = release_hp os (found.0) p.kernel;
    })

-- One inner loop of nvme_mem_hp_cleanup: `while ((hp = LIST_FIRST(...))) nvme_mem_free_hp(hp)`.
unfoldable pub empty_bucket : ℕ → Os → ℕ → Pages → Option Pages
unfolding free_hp
empty_bucket zero os i p = none
empty_bucket (suc f) os i p = elim (p.hp_list i) [
  | [] ↦ some p
  | hp ∷ _ ↦ free_hp os hp.vaddr p >>= empty_bucket f os i
]
