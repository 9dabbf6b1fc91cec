-- ===== src/Mem/Gain.antt =====
-- Shrinking keeps the invariant of a pool, and so does giving one object back to a heap.
use libnvme.Prelude.{
  ℕ, ◌+◌, ◌≤◌, ◌<◌, ◌≡◌, ◌≢◌, subst, Bool, true, false, Bool-cases, ==_iff, inl, inr, List, [], ◌∷◌,
  ◌==◌, if◌then◌else◌, count, count-remove_self, count-remove_ne, remove, update, arith,
}
use libnvme.Common.{test_bit, clear_bit}
use libnvme.Common.Bitmap.{zeros-le, zeros-clear_bit, clear_bit-IsBytes, length-clear_bit}
use libnvme.Mem.{Heap, Mempool, sub64, add64, drop_heap, shrink_loop, pool_shrink}
use libnvme.Mem.Inv.{
  HeapOk, PoolOk, sum, sum_once, sum_absent, sum_same, sum-cons, sum-remove, sum_le, length-remove,
  free_of, objs_of,
}

abbrev pub Listed : Mempool → ℕ → Type 0
Listed mp h = 0 < count h mp.use_list + count h mp.full_list

free_le : (mp : Mempool) → PoolOk mp → (i : ℕ) → Listed mp i → free_of mp i ≤ objs_of mp i
free_le mp ok i p =
    omega (arith, (ok.heap i p).free, zeros-le (mp.heaps i).bitmap (mp.heaps i).nr_objs)

-- What leaving a list does to the counts.
remove_counts :
    (h i : ℕ) (l : List ℕ)
    → 0 < count h l
    → (count i (remove h l) + (if h == i then 1 else 0) ≡ count i l)
remove_counts h i l used = elim (Bool-cases (h == i)) [
  | inl e ↦
      let q : h ≡ i = (==_iff h i).0 e in
      rw e (subst (λ j. count j (remove h l) + 1 ≡ count j l) q (count-remove_self h l used))
  | inr e ↦ rw e (omega (arith, count-remove_ne h i l (λ p. ground arith)))
]

drop_heap-PoolOk :
    (mp : Mempool) (h : ℕ) → PoolOk mp → 0 < count h mp.use_list → PoolOk (drop_heap h mp)
drop_heap-PoolOk mp h ok used =
    let c = λ (i : ℕ). remove_counts h i mp.use_list used in
    let len = length-remove h mp.use_list used in
    let o = sum-remove (objs_of mp) h mp.use_list used in
    let f = sum-remove (free_of mp) h mp.use_list used in
    record {
      used = ground (arith, ok.used, len);
      full = ok.full;
      single = λ i. omega (arith, c i, ok.single i);
      heap = λ i p. ok.heap i (omega (arith, c i, p));
      use_free = λ i p. ok.use_free i (omega (arith, c i, p));
      full_free = ok.full_free;
      objs = ground (arith, o, ok.objs);
      free = ground (arith, f, ok.free);
      few = ground (arith, len, ok.used, ok.few);
      few_objs = ground (arith, o, ok.objs, ok.few_objs);
    }

if-PoolOk : (b : Bool) (x y : Mempool) → PoolOk x → PoolOk y → PoolOk (if b then x else y)
if-PoolOk true x y p q = p
if-PoolOk false x y p q = q

shrink_loop-PoolOk :
    (force : Bool) (l : List ℕ) (n : ℕ) (mp : Mempool)
    → PoolOk mp
    → ((i : ℕ) → count i l ≤ count i mp.use_list)
    → PoolOk (shrink_loop force l n mp)
unfolding shrink_loop
shrink_loop-PoolOk force [] n mp ok part = ok
shrink_loop-PoolOk force (h ∷ hs) n mp ok part =
    let used : 0 < count h mp.use_list = ground (arith, part h) in
    if-PoolOk _ _ _ (shrink_loop-PoolOk force hs _ mp ok (λ i. ground (arith, part i))) (
      shrink_loop-PoolOk force hs _ (drop_heap h mp) (drop_heap-PoolOk mp h ok used)
        (λ i. ground (arith, part i, remove_counts h i mp.use_list used, ok.single i)))

-- nvme_mem_pool_shrink, forced or not, keeps the invariant of a pool.
pub pool_shrink-PoolOk : (force : Bool) (mp : Mempool) → PoolOk mp → PoolOk (pool_shrink force mp)
unfolding pool_shrink
pool_shrink-PoolOk force mp ok = shrink_loop-PoolOk force mp.use_list 0 mp ok (λ i. omega arith)

abbrev pub cleared : Heap → ℕ → Heap
cleared old bit = record old {
  bitmap = clear_bit old.bitmap bit;
  nr_free_objs = add64 old.nr_free_objs 1;
}

pub cleared-HeapOk :
    (b : ℕ) (h : Heap) (bit : ℕ)
    → HeapOk b h
    → bit < h.nr_objs
    → test_bit h.bitmap bit ≡ true
    → HeapOk b (cleared h bit) × ((cleared h bit).nr_free_objs ≡ h.nr_free_objs + 1)
cleared-HeapOk b h bit ok lt t =
    let z = zeros-clear_bit h.bitmap bit h.nr_objs ok.bytes (omega (arith, ok.room)) lt t in
    let up = zeros-le (clear_bit h.bitmap bit) h.nr_objs in
    (
      record {
        bytes = clear_bit-IsBytes h.bitmap bit ok.bytes (omega (arith, ok.room));
        room = omega (arith, ok.room, length-clear_bit h.bitmap bit);
        free = omega (arith, z, up, ok.free, ok.small);
        size = ok.size;
        some_objs = ok.some_objs;
        small = ok.small;
      },
      omega (arith, z, up, ok.free, ok.small),
    )

-- Heap `h` replaced by one with one free object more: on the use list already, or moved there.
module _ (mp : Mempool) (h : ℕ) (v : Heap) (ok : PoolOk mp) (v_ok : HeapOk mp.size_bits v)
    (more : v.nr_free_objs ≡ free_of mp h + 1) (same : v.nr_objs ≡ objs_of mp h)
    (bound : v.nr_free_objs ≤ v.nr_objs) where
  abbrev pub gained : Mempool
  gained = record mp { heaps = update mp.heaps h v; nr_free_objs = add64 mp.nr_free_objs 1 }

  gained-HeapOk : (i : ℕ) → Listed mp i → HeapOk mp.size_bits (update mp.heaps h v i)
  gained-HeapOk i p = elim (Bool-cases (h == i)) [ inl e ↦ rw e v_ok | inr e ↦ rw e (ok.heap i p) ]

  objs_kept : (l : List ℕ) → sum (objs_of gained) l ≡ sum (objs_of mp) l
  objs_kept l = sum_same (objs_of mp) (objs_of gained) l (λ i. ground (arith, same))

  free_elsewhere : (i : ℕ) → i ≢ h → free_of gained i ≡ free_of mp i
  free_elsewhere i n = ground (arith, n)

  few_free : mp.nr_free_objs ≤ mp.nr_objs
  few_free = omega (
    arith,
    ok.free,
    ok.objs,
    sum_le (free_of mp) (objs_of mp) mp.use_list (λ i p. free_le mp ok i (omega (arith, p))),
    sum_le (free_of mp) (objs_of mp) mp.full_list (λ i p. free_le mp ok i (omega (arith, p))),
  )

  pub stays-PoolOk : 0 < count h mp.use_list → PoolOk gained
  stays-PoolOk used =
      let f =
        sum_once (free_of mp) (free_of gained) h mp.use_list free_elsewhere
          (omega (arith, used, ok.single h)) in
      let g =
        sum_absent (free_of mp) (free_of gained) h mp.full_list free_elsewhere
          (omega (arith, used, ok.single h)) in
      record {
        used = ok.used;
        full = ok.full;
        single = ok.single;
        heap = gained-HeapOk;
        use_free = λ i p. ground (arith, ok.use_free i, more);
        full_free = λ i p. ground (arith, ok.full_free i, ok.single i, used);
        objs = omega (arith, ok.objs, objs_kept mp.use_list, objs_kept mp.full_list);
        free = ground (arith, ok.free, f, g, more, few_free, ok.few_objs);
        few = ok.few;
        few_objs = ok.few_objs;
      }

  abbrev pub returned : Mempool
  returned = record gained {
    full_list = remove h mp.full_list;
    nr_full = sub64 mp.nr_full 1;
    use_list = h ∷ mp.use_list;
    nr_use = add64 mp.nr_use 1;
  }

  pub returns-PoolOk : 0 < count h mp.full_list → PoolOk returned
  returns-PoolOk used =
      let c = λ (i : ℕ). remove_counts h i mp.full_list used in
      let len = length-remove h mp.full_list used in
      let o = sum-remove (objs_of gained) h mp.full_list used in
      let r = sum-remove (free_of gained) h mp.full_list used in
      let f =
        sum_once (free_of mp) (free_of gained) h mp.full_list free_elsewhere
          (omega (arith, used, ok.single h)) in
      let g =
        sum_absent (free_of mp) (free_of gained) h mp.use_list free_elsewhere
          (omega (arith, used, ok.single h)) in
      record {
        used = ground (arith, ok.used, ok.few);
        full = ground (arith, ok.full, len);
        single = λ i. ground (arith, c i, ok.single i);
        heap = λ i p. gained-HeapOk i (ground (arith, c i, p));
        use_free = λ i p. ground (arith, ok.use_free i, more);
        full_free = λ i p. ground (arith, ok.full_free i, c i, ok.single i);
        objs = ground (
          arith,
          ok.objs,
          objs_kept mp.use_list,
          objs_kept mp.full_list,
          o,
          sum-cons (objs_of gained) h mp.use_list,
        );
        free = ground (
          arith,
          ok.free,
          f,
          g,
          r,
          more,
          few_free,
          ok.few_objs,
          sum-cons (free_of gained) h mp.use_list,
        );
        few = ground (arith, ok.few, ok.full, len);
        few_objs = ok.few_objs;
      }
