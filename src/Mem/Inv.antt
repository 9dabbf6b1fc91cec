-- ===== src/Mem/Inv.antt =====
-- The invariant of a memory pool: its counters count its lists and its bitmaps, each heap is on one
-- list, and the full list holds the heaps that have no free object.
use libnvme.Prelude.{
  ℕ, ◌+◌, ◌*◌, ◌^◌, ◌≤◌, ◌<◌, ◌≡◌, ◌≢◌, refl, Bool-cases, ==_iff, inl, inr, List, [], ◌∷◌, ◌==◌,
  length, count, remove, arith,
}
use libnvme.Common.Bitmap.{IsBytes, zeros}
use libnvme.Mem.{Heap, Mempool}

pub record HeapOk (size_bits : ℕ) (h : Heap) : Type 0 where
  pub bytes : IsBytes h.bitmap
  pub room : h.nr_objs ≤ 8 * length h.bitmap
  pub free : zeros h.bitmap h.nr_objs ≡ h.nr_free_objs
  pub size : h.hp.size ≡ h.nr_objs * 2 ^ size_bits
  pub some_objs : 0 < h.nr_objs
  pub small : h.nr_objs < 2 ^ 31

unfoldable pub sum : (ℕ → ℕ) → List ℕ → ℕ
sum f [] = 0
sum f (x ∷ xs) = f x + sum f xs

-- Changing the term of one element, which is not in the list, or stands there once.
pub sum_absent :
    (f g : ℕ → ℕ) (h : ℕ) (l : List ℕ)
    → ((i : ℕ) → i ≢ h → g i ≡ f i)
    → count h l ≡ 0
    → sum g l ≡ sum f l
unfolding sum
sum_absent f g h [] e c = refl
sum_absent f g h (x ∷ xs) e c = ground (arith, sum_absent f g h xs e, e x)

pub sum_once :
    (f g : ℕ → ℕ) (h : ℕ) (l : List ℕ)
    → ((i : ℕ) → i ≢ h → g i ≡ f i)
    → count h l ≡ 1
    → sum g l + f h ≡ sum f l + g h
unfolding sum
sum_once f g h [] e c = absurd (ground arith)
sum_once f g h (x ∷ xs) e c = elim (Bool-cases (x == h)) [
  | inl p ↦ let q : x ≡ h = (==_iff x h).0 p in rw q (ground (arith, sum_absent f g h xs e))
  | inr p ↦ ground (arith, sum_once f g h xs e, e x)
]

pub sum-remove :
    (f : ℕ → ℕ) (h : ℕ) (l : List ℕ) → 0 < count h l → sum f (remove h l) + f h ≡ sum f l
unfolding sum remove
sum-remove f h [] c = absurd (ground arith)
sum-remove f h (x ∷ xs) c = elim (Bool-cases (x == h)) [
  | inl p ↦ let q : x ≡ h = (==_iff x h).0 p in rw q (ground arith)
  | inr p ↦ ground (arith, sum-remove f h xs)
]

pub sum_le : (f g : ℕ → ℕ) (l : List ℕ) → ((i : ℕ) → 0 < count i l → f i ≤ g i) → sum f l ≤ sum g l
unfolding sum
sum_le f g [] e = omega arith
sum_le f g (x ∷ xs) e =
    omega (arith, e x (ground arith), sum_le f g xs (λ i p. e i (omega (arith, p))))

pub sum_same : (f g : ℕ → ℕ) (l : List ℕ) → ((i : ℕ) → g i ≡ f i) → sum g l ≡ sum f l
unfolding sum
sum_same f g [] e = refl
sum_same f g (x ∷ xs) e = omega (arith, e x, sum_same f g xs e)

pub sum-cons : (f : ℕ → ℕ) (x : ℕ) (xs : List ℕ) → sum f (x ∷ xs) ≡ f x + sum f xs
unfolding sum
sum-cons f x xs = refl

pub length-remove : (h : ℕ) (l : List ℕ) → 0 < count h l → length (remove h l) + 1 ≡ length l
unfolding remove
length-remove h [] c = absurd (ground arith)
length-remove h (x ∷ xs) c = ground (arith, length-remove h xs)

abbrev pub free_of : Mempool → ℕ → ℕ
free_of mp h = (mp.heaps h).nr_free_objs

abbrev pub objs_of : Mempool → ℕ → ℕ
objs_of mp h = (mp.heaps h).nr_objs

pub record PoolOk (mp : Mempool) : Type 0 where
  pub used : mp.nr_use ≡ length mp.use_list
  pub full : mp.nr_full ≡ length mp.full_list
  pub single : (h : ℕ) → count h mp.use_list + count h mp.full_list ≤ 1
  pub heap :
      (h : ℕ) → 0 < count h mp.use_list + count h mp.full_list → HeapOk mp.size_bits (mp.heaps h)
  pub use_free : (h : ℕ) → 0 < count h mp.use_list → 0 < free_of mp h
  pub full_free : (h : ℕ) → 0 < count h mp.full_list → free_of mp h ≡ 0
  pub objs : mp.nr_objs ≡ sum (objs_of mp) mp.use_list + sum (objs_of mp) mp.full_list
  pub free : mp.nr_free_objs ≡ sum (free_of mp) mp.use_list + sum (free_of mp) mp.full_list
  pub few : mp.nr_use + mp.nr_full < 2 ^ 63
  pub few_objs : mp.nr_objs < 2 ^ 63
