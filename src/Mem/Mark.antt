-- ===== src/Mem/Mark.antt =====
-- Marking an object of a heap as allocated keeps the invariant of its pool.
use libnvme.Prelude.{
  ℕ, ◌+◌, ◌≤◌, ◌<◌, ◌≡◌, ◌≢◌, refl, subst, false, Bool-cases, ==_iff, inl, inr, List, ◌∷◌, ◌==◌,
  count, count-remove_self, count-remove_ne, remove, update, arith,
}
use libnvme.Common.{test_bit, set_bit}
use libnvme.Common.Bitmap.{zeros-set_bit, set_bit-IsBytes, length-set_bit}
use libnvme.Mem.{Heap, Mempool, sub64, add64, heap_full, mark}
use libnvme.Mem.Inv.{
  HeapOk, PoolOk, sum, sum_once, sum_absent, sum_same, sum-cons, sum-remove, length-remove, free_of,
  objs_of,
}

abbrev pub marked : Heap → ℕ → Heap
marked old bit = record old {
  bitmap = set_bit old.bitmap bit;
  nr_free_objs = sub64 old.nr_free_objs 1;
}

marked-HeapOk :
    (b : ℕ) (h : Heap) (bit : ℕ)
    → HeapOk b h
    → bit < h.nr_objs
    → test_bit h.bitmap bit ≡ false
    → HeapOk b (marked h bit) × ((marked h bit).nr_free_objs + 1 ≡ h.nr_free_objs)
marked-HeapOk b h bit ok lt t =
    let z = zeros-set_bit h.bitmap bit h.nr_objs ok.bytes (omega (arith, ok.room)) lt t in
    (
      record {
        bytes = set_bit-IsBytes h.bitmap bit ok.bytes (omega (arith, ok.room));
        room = omega (arith, ok.room, length-set_bit h.bitmap bit);
        free = ground (arith, z, ok.free);
        size = ok.size;
        some_objs = ok.some_objs;
        small = ok.small;
      },
      ground (arith, z, ok.free),
    )

-- The heap at `h` replaced by one with one free object less, the lists left alone.
abbrev replaced : Mempool → ℕ → Heap → Mempool
replaced mp h heap = record mp {
  heaps = update mp.heaps h heap;
  nr_free_objs = sub64 mp.nr_free_objs 1;
}

module _ (mp : Mempool) (h : ℕ) (v : Heap) (ok : PoolOk mp) (used : 0 < count h mp.use_list)
    (v_ok : HeapOk mp.size_bits v) (less : v.nr_free_objs + 1 ≡ free_of mp h)
    (same : v.nr_objs ≡ objs_of mp h) where
  new_free : (i : ℕ) → i ≢ h → free_of (replaced mp h v) i ≡ free_of mp i
  new_free i n = ground (arith, n)

  new_objs : (i : ℕ) → objs_of (replaced mp h v) i ≡ objs_of mp i
  new_objs i = ground (arith, same)

  new-HeapOk :
      (i : ℕ)
      → 0 < count i mp.use_list + count i mp.full_list
      → HeapOk mp.size_bits (update mp.heaps h v i)
  new-HeapOk i p = elim (Bool-cases (h == i)) [ inl e ↦ rw e v_ok | inr e ↦ rw e (ok.heap i p) ]

  objs_kept : (l : List ℕ) → sum (objs_of (replaced mp h v)) l ≡ sum (objs_of mp) l
  objs_kept l = sum_same (objs_of mp) (objs_of (replaced mp h v)) l new_objs

  free_less : sum (free_of (replaced mp h v)) mp.use_list + 1 ≡ sum (free_of mp) mp.use_list
  free_less =
      ground (
        arith,
        sum_once (free_of mp) (free_of (replaced mp h v)) h mp.use_list new_free,
        ok.single h,
      )

  free_kept : sum (free_of (replaced mp h v)) mp.full_list ≡ sum (free_of mp) mp.full_list
  free_kept =
      sum_absent (free_of mp) (free_of (replaced mp h v)) h mp.full_list new_free
        (omega (arith, ok.single h))

  stays-PoolOk : 0 < v.nr_free_objs → PoolOk (replaced mp h v)
  stays-PoolOk pos = record {
    used = ok.used;
    full = ok.full;
    single = ok.single;
    heap = new-HeapOk;
    use_free = λ i p. ground (arith, ok.use_free i);
    full_free = λ i p. ground (arith, ok.full_free i, ok.single i);
    objs = omega (arith, ok.objs, objs_kept mp.use_list, objs_kept mp.full_list);
    free = ground (arith, ok.free, free_less, free_kept);
    few = ok.few;
    few_objs = ok.few_objs;
  }

  -- The heap moves to the full list.
  abbrev moved : Mempool
  moved = record (replaced mp h v) {
    use_list = remove h mp.use_list;
    nr_use = sub64 mp.nr_use 1;
    full_list = h ∷ mp.full_list;
    nr_full = add64 mp.nr_full 1;
  }

  moved_count :
      (i : ℕ)
      → (count i (remove h mp.use_list) + count i (h ∷ mp.full_list)
          ≡ count i mp.use_list + count i mp.full_list)
        × (count i (remove h mp.use_list) ≤ count i mp.use_list)
        × (0 < count i (remove h mp.use_list) → h ≢ i)
  moved_count i = elim (Bool-cases (h == i)) [
    | inl e ↦
        let q : h ≡ i = (==_iff h i).0 e in
        let c = count-remove_self h mp.use_list used in
        subst
          (λ j.
            (count j (remove h mp.use_list) + count j (h ∷ mp.full_list)
              ≡ count j mp.use_list + count j mp.full_list)
            × (count j (remove h mp.use_list) ≤ count j mp.use_list)
            × (0 < count j (remove h mp.use_list) → h ≢ j))
          q (ground (arith, c), omega (arith, c), λ p. absurd (omega (arith, c, ok.single h)))
    | inr e ↦
        let n : h ≢ i = λ p. ground arith in
        let c = count-remove_ne h i mp.use_list n in (ground (arith, c), omega (arith, c), λ p. n)
  ]

  moves-PoolOk : v.nr_free_objs ≡ 0 → PoolOk moved
  moves-PoolOk none_left =
      let len = length-remove h mp.use_list used in
      let o = sum-remove (objs_of moved) h mp.use_list used in
      let f = sum-remove (free_of moved) h mp.use_list used in
      record {
        used = ground (arith, ok.used, len);
        full = ground (arith, ok.full, ok.few);
        single = λ i. omega (arith, moved_count i, ok.single i);
        heap = λ i p. new-HeapOk i (omega (arith, moved_count i));
        use_free = λ i p. ground (arith, ok.use_free i, moved_count i);
        full_free = λ i p. ground (arith, ok.full_free i, none_left);
        objs = ground (
          arith,
          o,
          ok.objs,
          objs_kept mp.use_list,
          objs_kept mp.full_list,
          sum-cons (objs_of moved) h mp.full_list,
        );
        free = ground (
          arith,
          f,
          ok.free,
          free_less,
          free_kept,
          none_left,
          sum-cons (free_of moved) h mp.full_list,
        );
        few = ground (arith, ok.few, ok.used, len);
        few_objs = ok.few_objs;
      }

pub mark-PoolOk :
    (mp : Mempool) (h bit : ℕ)
    → PoolOk mp
    → 0 < count h mp.use_list
    → bit < objs_of mp h
    → test_bit (mp.heaps h).bitmap bit ≡ false
    → PoolOk (mark mp h bit)
unfolding mark
mark-PoolOk mp h bit ok used lt t =
    let (good, less) =
      marked-HeapOk mp.size_bits (mp.heaps h) bit (ok.heap h (omega (arith, used))) lt t in
    elim (Bool-cases (heap_full (marked (mp.heaps h) bit))) [
      | inl e ↦
          rw e
            (moves-PoolOk mp h (marked (mp.heaps h) bit) ok used good less refl ((==_iff _ 0).0 e))
      | inr e ↦
          rw e (stays-PoolOk mp h (marked (mp.heaps h) bit) ok used good less refl (ground arith))
    ]
