-- ===== src/Mem/Pages/Setup.antt =====
-- lib/common/nvme_mem.c: nvme_mem_hp_init and nvme_mem_hp_cleanup. What is found around them is the
-- parameter `Host`.
use libnvme.Prelude.{
  ℕ, zero, suc, ◌+◌, ◌-◌, ◌^◌, Option, none, some, [], ◌∷◌, ◌==◌, if◌then◌else◌, ◌>>=◌, remove,
}
use libnvme.Common.{log2}
use libnvme.Types.{Ret, success, failure, enomem}
use libnvme.Sync.Atomic
use libnvme.Mem.Pages.{Os, Pages, given_back, empty_bucket}

-- The directory that nvme_mem_get_hp_dir makes, the size that nvme_mem_get_hp_size reads, 0 for a
-- failure, and the descriptor of the directory.
pub record Host : Type 0 where
  pub hp_dir : Option ℕ
  pub hp_size : ℕ
  pub opened : Option ℕ

-- nvme_mem_hp_init
unfoldable pub hp_init : Host → Pages → Ret × Pages
unfolding log2 Atomic.init
hp_init e p =
    let cleared = record p { hp_tmp = Atomic.init; nr_hp = Atomic.init; hp_list = λ _. [] } in
    elim e.hp_dir [
      | none ↦ (failure, record cleared { hp_dir = none })
      | some dir ↦
          let made = record cleared {
            hp_dir = some dir;
            hp_size = e.hp_size;
            kernel = record p.kernel { dirs = dir ∷ p.kernel.dirs };
          } in
          if e.hp_size == 0
          then (enomem, made)
          else let sized = record made { hp_size_bits = log2 e.hp_size } in
            elim e.opened [
              | none ↦ (failure, sized)
              | some fd ↦ (
                success,
                record sized {
                  hp_dd = fd;
                  kernel = record sized.kernel { fds = fd ∷ p.kernel.fds };
                },
              )
            ]
    ]

-- The outer loop of nvme_mem_hp_cleanup, over the `n` buckets from bucket `i` on; `fuel` bounds the
-- passes over each.
unfoldable pub empty_buckets : ℕ → Os → ℕ → ℕ → Pages → Option Pages
unfolding empty_bucket
empty_buckets fuel os zero i p = some p
empty_buckets fuel os (suc n) i p = empty_bucket fuel os i p >>= empty_buckets fuel os n (i + 1)

-- `if (mm.hp_dd != -1) close(mm.hp_dd)`
unfoldable pub close_dd : Os → Pages → Pages
unfolding remove
close_dd os p =
    if p.hp_dd == 2 ^ 32 - 1
    then p
    else record p { kernel = record p.kernel { fds = given_back os.close p.hp_dd p.kernel.fds } }

-- `rmdir(mm.hp_dir)`, which is taken to succeed; without a directory the call fails.
unfoldable pub remove_dir : Pages → Pages
unfolding remove
remove_dir p = elim p.hp_dir [
  | none ↦ p
  | some dir ↦ record p { kernel = record p.kernel { dirs = remove dir p.kernel.dirs } }
]

-- nvme_mem_hp_cleanup
unfoldable pub hp_cleanup : ℕ → Os → Pages → Option Pages
unfolding empty_buckets close_dd remove_dir
hp_cleanup fuel os p = empty_buckets fuel os 32 0 p >>= λ p'. some (remove_dir (close_dd os p'))
