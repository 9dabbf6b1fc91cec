-- ===== src/Mem/Alloc.antt =====
-- nvme_mem_pool_alloc keeps the invariant, and hands out an object that was free.
use libnvme.Prelude.{
  ℕ, ◌+◌, ◌<◌, ◌≡◌, ◌≢◌, refl, sym, ◌∙◌, ap, subst, Bool, true, false, Bool-cases, ==_iff, ◌⊎◌, inl,
  inr, List, [], ◌∷◌, ◌==◌, if◌then◌else◌, length, count, count-remove_ne, update, update_self,
  update_ne, arith, Option, none, some,
}
use libnvme.Common.{test_bit, find_first_zero_bit}
use libnvme.Common.Bitmap.{zeros_none, test_bit-set_bit}
use libnvme.Common.Find.{FirstZero, find_first_zero_bit-FirstZero}
use libnvme.Mem.{
  Hugepage, Heap, Mempool, Object, object_at, alloc_from, alloc_first, alloc_grown, pool_alloc,
  new_heap, pool_grow, heap_full, mark,
}
use libnvme.Mem.Inv.{HeapOk, PoolOk, objs_of}
use libnvme.Mem.Grow.{Fresh, pool_grow-PoolOk}
use libnvme.Mem.Mark.{marked, mark-PoolOk}

-- The objects of pool `mp`: slot `bit` of heap `h`.
abbrev IsSlot : Mempool → ℕ → ℕ → Type 0
IsSlot mp h bit = (0 < count h mp.use_list + count h mp.full_list) × (bit < objs_of mp h)

abbrev allocated : Mempool → ℕ → ℕ → Bool
allocated mp h bit = test_bit (mp.heaps h).bitmap bit

-- What handing out object `o` does to the pool: `o` is a slot that was free, or is of a new heap;
-- it is allocated now, and the other slots are as they were.
pub record Handed (mp mp' : Mempool) (o : Object) : Type 0 where
  pub h : ℕ
  pub bit : ℕ
  pub slot : IsSlot mp' h bit
  pub addr : o ≡ object_at mp' h bit
  pub was_free : IsSlot mp h bit → allocated mp h bit ≡ false
  pub now : allocated mp' h bit ≡ true
  pub others :
      (i j : ℕ)
      → IsSlot mp i j
      → (i ≢ h) ⊎ (j ≢ bit)
      → IsSlot mp' i j × (allocated mp' i j ≡ allocated mp i j)

marked_heap :
    (mp : Mempool) (h bit : ℕ) → (mark mp h bit).heaps ≡ update mp.heaps h (marked (mp.heaps h) bit)
unfolding mark
marked_heap mp h bit = elim (Bool-cases (heap_full (marked (mp.heaps h) bit))) [
  | inl e ↦ rw e refl
  | inr e ↦ rw e refl
]

marked_count :
    (mp : Mempool) (h bit : ℕ)
    → 0 < count h mp.use_list
    → (i : ℕ) → 0 < count i mp.use_list + count i mp.full_list
    → 0 < count i (mark mp h bit).use_list + count i (mark mp h bit).full_list
unfolding mark
marked_count mp h bit used i p = elim (Bool-cases (heap_full (marked (mp.heaps h) bit))) [
  | inr e ↦ rw e p
  | inl e ↦ rw e (elim (Bool-cases (h == i)) [
    | inl q ↦ ground arith
    | inr q ↦ ground (arith, count-remove_ne h i mp.use_list (λ r. ground arith))
  ])
]

marked_view {ℓ} :
    {A : Type ℓ} (f : Heap → A) (mp : Mempool) (h bit : ℕ)
    → f (marked (mp.heaps h) bit) ≡ f (mp.heaps h)
    → (i : ℕ) → f ((mark mp h bit).heaps i) ≡ f (mp.heaps i)
marked_view f mp h bit e i = rw (marked_heap mp h bit) (elim (Bool-cases (h == i)) [
  | inl p ↦ let q : h ≡ i = (==_iff h i).0 p in rw p (e ∙ ap (λ k. f (mp.heaps k)) q)
  | inr p ↦ rw p refl
])

marked_size_bits : (mp : Mempool) (h bit : ℕ) → (mark mp h bit).size_bits ≡ mp.size_bits
unfolding mark
marked_size_bits mp h bit = elim (Bool-cases (heap_full (marked (mp.heaps h) bit))) [
  | inl e ↦ rw e refl
  | inr e ↦ rw e refl
]

module _ (mp : Mempool) (h bit : ℕ) (ok : PoolOk mp) (used : 0 < count h mp.use_list)
    (lt : bit < objs_of mp h) where
  h_ok : HeapOk mp.size_bits (mp.heaps h)
  h_ok = ok.heap h (omega (arith, used))

  marked_here :
      (j : ℕ) → allocated (mark mp h bit) h j ≡ (if bit == j then true else allocated mp h j)
  marked_here j =
      rw (marked_heap mp h bit, update_self mp.heaps h (marked (mp.heaps h) bit))
        (test_bit-set_bit (mp.heaps h).bitmap bit j h_ok.bytes (omega (arith, h_ok.room, lt)))

  marked_away : (i j : ℕ) → i ≢ h → allocated (mark mp h bit) i j ≡ allocated mp i j
  marked_away i j n =
      rw (marked_heap mp h bit, update_ne mp.heaps h i (marked (mp.heaps h) bit) (λ e. n (sym e)))
        refl

  marked_others : (i j : ℕ) → (i ≢ h) ⊎ (j ≢ bit) → allocated (mark mp h bit) i j ≡ allocated mp i j
  marked_others i j (inl n) = marked_away i j n
  marked_others i j (inr n) = elim (Bool-cases (h == i)) [
    | inl e ↦
        let q : h ≡ i = (==_iff h i).0 e in
        subst (λ k. allocated (mark mp h bit) k j ≡ allocated mp k j) q
          (ground (arith, marked_here j, n))
    | inr e ↦ marked_away i j (λ q. ground arith)
  ]

  marked-IsSlot : (i j : ℕ) → IsSlot mp i j → IsSlot (mark mp h bit) i j
  marked-IsSlot i j s = (
    marked_count mp h bit used i s.0,
    subst (λ n. j < n) (sym (marked_view (λ x. x.nr_objs) mp h bit refl i)) s.1,
  )

  mark-Handed : allocated mp h bit ≡ false → Handed mp (mark mp h bit) (object_at mp h bit)
  mark-Handed t = record {
    h = h;
    bit = bit;
    slot = marked-IsSlot h bit (omega (arith, used), lt);
    addr = rw (marked_size_bits mp h bit, marked_view (λ x. x.hp) mp h bit refl h) refl;
    was_free = λ _. t;
    now = ground (arith, marked_here bit);
    others = λ i j s n. (marked-IsSlot i j s, marked_others i j n);
  }

-- All slots of the first pool are slots of the second, and as they were.
abbrev Extends : Mempool → Mempool → Type 0
Extends mp mp' = (i j : ℕ) → IsSlot mp i j → IsSlot mp' i j × (allocated mp' i j ≡ allocated mp i j)

Handed-Extends :
    (mp mp1 mp' : Mempool) (o : Object) → Extends mp mp1 → Handed mp1 mp' o → Handed mp mp' o
Handed-Extends mp mp1 mp' o x d = record {
  h = d.h;
  bit = d.bit;
  slot = d.slot;
  addr = d.addr;
  was_free = λ s. let (s', same) = x d.h d.bit s in sym same ∙ d.was_free s';
  now = d.now;
  others = λ i j s n.
      let (s1, same1) = x i j s in let (s2, same2) = d.others i j s1 n in (s2, same2 ∙ same1);
}

pool_grow-Extends :
    (mp : Mempool) (h : ℕ) (hp : Hugepage) → Fresh mp h hp → Extends mp (pool_grow h hp mp)
unfolding pool_grow
pool_grow-Extends mp h hp fresh i j s = elim (Bool-cases (h == i)) [
  | inl e ↦
      let q : h ≡ i = (==_iff h i).0 e in
      absurd (
        subst (λ k. 0 < count k mp.use_list + count k mp.full_list → ⊥) q
          (λ p. omega (arith, p, fresh.unlisted)) s.0)
  | inr e ↦
      let q = update_ne mp.heaps h i (new_heap mp.size_bits hp) (λ r. ground arith) in
      (
        (ground (arith, s.0), subst (λ (x : Heap). j < x.nr_objs) (sym q) s.1),
        ap (λ (x : Heap). test_bit x.bitmap j) q,
      )
]

-- What an allocation may answer: an object with the pool's invariant kept, or NULL with the pool
-- as it was, where it had no free object and could not grow.
abbrev pub AllocResult : Option (ℕ × Hugepage) → Mempool → Option Object × Mempool → Type 0
AllocResult next mp (none, mp') = (mp' ≡ mp) × (mp.nr_use ≡ 0) × (next ≡ none)
AllocResult next mp (some o, mp') = PoolOk mp' × Handed mp mp' o

alloc_from-AllocResult :
    (next : Option (ℕ × Hugepage)) (mp mp1 : Mempool) (h : ℕ)
    → PoolOk mp1
    → 0 < count h mp1.use_list
    → Extends mp mp1
    → AllocResult next mp (alloc_from mp1 h)
unfolding alloc_from
alloc_from-AllocResult next mp mp1 h ok used x =
    found (find_first_zero_bit (mp1.heaps h).bitmap (mp1.heaps h).nr_objs)
      (find_first_zero_bit-FirstZero (mp1.heaps h).bitmap (mp1.heaps h).nr_objs h_good.bytes)
  where
    h_good : HeapOk mp1.size_bits (mp1.heaps h)
    h_good = ok.heap h (omega (arith, used))

    found :
        (r : Option ℕ)
        → FirstZero (mp1.heaps h).bitmap (mp1.heaps h).nr_objs r
        → AllocResult next mp (elim r [
          | none ↦ (none, mp1)
          | some bit ↦ (some (object_at mp1 h bit), mark mp1 h bit)
        ])
    found none z = absurd (
        omega (
          arith,
          zeros_none (mp1.heaps h).bitmap (mp1.heaps h).nr_objs z,
          h_good.free,
          ok.use_free h used,
        ))
    found (some bit) (lt, z, _) = (
      mark-PoolOk mp1 h bit ok used lt z,
      Handed-Extends mp mp1 (mark mp1 h bit) (object_at mp1 h bit) x
          (mark-Handed mp1 h bit ok used lt z),
    )

-- nvme_mem_pool_alloc on a pool with its invariant, where a huge page that it may get is fresh:
-- it hands out a slot that was free or is of the new heap, keeps every other slot and the invariant,
-- and fails only if no heap has a free object and no huge page is to be had.
pub pool_alloc-AllocResult :
    (next : Option (ℕ × Hugepage)) (mp : Mempool)
    → PoolOk mp
    → ((h : ℕ) (hp : Hugepage) → next ≡ some (h, hp) → Fresh mp h hp)
    → AllocResult next mp (pool_alloc next mp)
unfolding pool_alloc alloc_grown alloc_first pool_grow
pool_alloc-AllocResult next mp ok fresh = elim (Bool-cases (mp.nr_use == 0)) [
  | inl e ↦ rw e (grown next fresh ((==_iff _ 0).0 e))
  | inr e ↦ rw e (first mp.use_list refl e)
]
  where
    listed : (h : ℕ) (hp : Hugepage) → 0 < count h (pool_grow h hp mp).use_list
    listed h hp = ground arith

    grown :
        (n : Option (ℕ × Hugepage))
        → ((h : ℕ) (hp : Hugepage) → n ≡ some (h, hp) → Fresh mp h hp)
        → mp.nr_use ≡ 0
        → AllocResult n mp (alloc_grown n mp)
    grown none f z = (refl, z, refl)
    grown (some (h, hp)) f z =
        let fr = f h hp refl in
        alloc_from-AllocResult (some (h, hp)) mp (pool_grow h hp mp) h
          (pool_grow-PoolOk mp h hp fr ok) (listed h hp) (pool_grow-Extends mp h hp fr)

    first :
        (l : List ℕ)
        → mp.use_list ≡ l
        → (mp.nr_use == 0) ≡ false
        → AllocResult next mp (alloc_first l mp)
    first [] e z = absurd (ground (arith, ok.used, ap length e))
    first (h ∷ hs) e z =
        alloc_from-AllocResult next mp mp h ok (subst (λ l. 0 < count h l) (sym e) (ground arith))
          (λ i j s. (s, refl))
