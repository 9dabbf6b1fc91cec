-- ===== src/Ctrlr/Qpairs/Fresh.antt =====
-- A queue pair that nvme_qpair_construct has filled: all its trackers are free, and it is what
-- submission and polling rely on.
use libnvme.Prelude.{
  ℕ, zero, suc, ◌+◌, ◌*◌, ◌%◌, ◌≤◌, ◌<◌, ◌≡◌, refl, ap, true, [], ltb, if◌then◌else◌, count, arith,
}
use libnvme.Types.{Qpair, zero_cmd, zero_cpl}
use libnvme.Request.{pool_fill, request_pool_construct}
use libnvme.Request.Frame.{core}
use libnvme.Qpair.Steady.{consumer_of}
use libnvme.Qpair.Submit.{reset}
use libnvme.Qpair.Submit.Poll.{IsSteady, Tracks}
use libnvme.Ctrlr.Qpairs.{construct_lists, inserted_trackers}

core-pool_fill : (q : Qpair) (n i : ℕ) → core (pool_fill q n i) ≡ core q
unfolding pool_fill
core-pool_fill q zero i = refl
core-pool_fill q (suc n) i = core-pool_fill _ n (i + 1)

count-inserted_trackers : (c n : ℕ) → count c (inserted_trackers n) ≡ (if ltb c n then 1 else 0)
unfolding inserted_trackers
count-inserted_trackers c zero = ground arith
count-inserted_trackers c (suc n) = ground (arith, count-inserted_trackers c n)

-- The queue pair before its pool and trackers are filled in.
abbrev emptied : Qpair → Qpair
emptied q = record q {
  cmd = λ _. zero_cmd;
  cpl = λ _. zero_cpl;
  free_req = [];
  queued_req = [];
  outstanding_tr = [];
}

core-pool :
    (q : Qpair) → core (request_pool_construct q) ≡ core (record q { num_reqs = q.trackers * 8 })
unfolding request_pool_construct
core-pool q = core-pool_fill _ (q.trackers * 8) 0

-- A queue pair with at least one entry that has been constructed keeps the invariant of submission
-- and polling once it is enabled, with no completion posted and none taken; its trackers are all free
-- and none is outstanding, and for trackers allocated at a page boundary each list of PRP entries
-- stays within its page.
pub construct_lists-IsSteady :
    (phys_addr : ℕ) (q : Qpair)
    → 0 < q.entries
    → phys_addr % 4096 ≡ 0
    → let fresh = record (construct_lists phys_addr q) { enabled = true } in
      IsSteady fresh
      × Tracks 0 0 (consumer_of fresh)
      × (fresh.outstanding_tr ≡ [])
      × ((c : ℕ) → (fresh.tr c).prp_sgl_bus_addr % 4096 + 506 * 8 ≤ 4096)
unfolding construct_lists reset
construct_lists-IsSteady phys_addr q h page = (
  record {
    on = refl;
    consumer = refl;
    tracked =
        λ c. rw (outstanding, trackers) (ground (arith, count-inserted_trackers c q.trackers));
    owned = λ c p. cc;
    named = λ c p. refl;
    tail_in = rw entries h;
    head_in = rw entries h;
  },
  (ground arith, ground arith, λ i. rw cpl (ground arith)),
  outstanding,
  λ c. omega (arith, page),
)
  where
    pool : Qpair
    pool = request_pool_construct (emptied q)

    e : core pool ≡ core (record (emptied q) { num_reqs = q.trackers * 8 })
    e = core-pool (emptied q)

    outstanding : pool.outstanding_tr ≡ []
    outstanding = ap (λ (q : Qpair). q.outstanding_tr) e

    trackers : pool.trackers ≡ q.trackers
    trackers = ap (λ (q : Qpair). q.trackers) e

    entries : pool.entries ≡ q.entries
    entries = ap (λ (q : Qpair). q.entries) e

    cpl : pool.cpl ≡ (λ _. zero_cpl)
    cpl = ap (λ (q : Qpair). q.cpl) e
