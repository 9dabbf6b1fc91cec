-- ===== src/Registry/Open.antt =====
-- No device is open twice: nvme_ctrlr_open and nvme_ctrlr_close keep the list of open controllers
-- free of two controllers for one device.
use libnvme.Prelude.{
  ℕ, ◌+◌, ◌≤◌, ◌<◌, ◌≡◌, refl, subst, Bool, true, false, Bool-cases, inl, inr, Option, none, some,
  some_inj, List, [], ◌∷◌, ◌==◌, if◌then◌else◌, ◌>>=◌, remove, count, update, arith,
}
use libnvme.Types.{Ret, einval}
use libnvme.Common.Results.{AllSome, then-AllSome, split-AllSome, AllSome-some}
use libnvme.Request.Frame.{>>=-eq-some}
use libnvme.Ctrlr.Init.{Look}
use libnvme.Ctrlr.Reset.{attach, detach}
use libnvme.Ctrlr.State.{Ctrlr, Opts, Env}
use libnvme.Registry.{
  PciSlot, same_slot, Registry, is_open, ctrlr_get, already_open, enter_list, ctrlr_open,
  close_found, ctrlr_close,
}

-- Each open controller stands once in the list, and no two have the same device.
pub record NoneTwice (reg : Registry) : Type 0 where
  pub once : (h : ℕ) → count h reg.ctrlr_head ≤ 1
  pub differ :
      (h k : ℕ)
      → 0 < count h reg.ctrlr_head
      → 0 < count k reg.ctrlr_head
      → same_slot (reg.slot h) (reg.slot k) ≡ true
      → h ≡ k

same_slot-sym : (a b : PciSlot) → same_slot a b ≡ true → same_slot b a ≡ true
unfolding same_slot
same_slot-sym a b h = ground (arith, h)

already_open-none :
    (slot : ℕ → PciSlot) (pdev : PciSlot) (l : List ℕ) (h : ℕ)
    → already_open slot pdev l ≡ false
    → 0 < count h l
    → same_slot (slot h) pdev ≡ false
unfolding already_open
already_open-none slot pdev [] h p q = absurd (omega arith)
already_open-none slot pdev (k ∷ ks) h p q = elim (Bool-cases (k == h)) [
  | inl e ↦
      subst (λ x. same_slot (slot x) pdev ≡ false) {x = k} (ground (arith, e)) (ground (arith, p))
  | inr e ↦ already_open-none slot pdev ks h (ground (arith, p)) (ground (arith, q, e))
]

-- A new controller for a device that no open one has.
module _ (reg : Registry) (s : NoneTwice reg) (n : ℕ) (pdev : PciSlot)
    (fresh : count n reg.ctrlr_head ≡ 0)
    (free : already_open reg.slot pdev reg.ctrlr_head ≡ false) where
  entered_once : (h : ℕ) → (if n == h then 1 else 0) + count h reg.ctrlr_head ≤ 1
  entered_once h = elim (Bool-cases (n == h)) [
    | inl e ↦
        let p : n ≡ h = ground (arith, e) in
        subst (λ x. (if n == x then 1 else 0) + count x reg.ctrlr_head ≤ 1) p
          (ground (arith, fresh))
    | inr e ↦ ground (arith, e, s.once h)
  ]

  not_same : (h : ℕ) → 0 < count h reg.ctrlr_head → same_slot (reg.slot h) pdev ≡ true → h ≡ n
  not_same h p q = cc (already_open-none reg.slot pdev reg.ctrlr_head h free p, q)

  entered_differ :
      (h k : ℕ)
      → 0 < (if n == h then 1 else 0) + count h reg.ctrlr_head
      → 0 < (if n == k then 1 else 0) + count k reg.ctrlr_head
      → same_slot (update reg.slot n pdev h) (update reg.slot n pdev k) ≡ true
      → h ≡ k
  entered_differ h k p q r = go (n == h) (n == k) refl refl p q r
    where
      go :
          (b d : Bool)
          → n == h ≡ b
          → n == k ≡ d
          → 0 < (if b then 1 else 0) + count h reg.ctrlr_head
          → 0 < (if d then 1 else 0) + count k reg.ctrlr_head
          → same_slot (if b then pdev else reg.slot h) (if d then pdev else reg.slot k) ≡ true
          → h ≡ k
      go true true e f p q r = ground (arith, e, f)
      go true false e f p q r =
          let x = not_same k (omega (arith, q)) (same_slot-sym pdev (reg.slot k) r) in
          ground (arith, e, x)
      go false true e f p q r = let x = not_same h (omega (arith, p)) r in ground (arith, f, x)
      go false false e f p q r = s.differ h k (omega (arith, p)) (omega (arith, q)) r

  enter_list-NoneTwice : (o : Option Ctrlr) → NoneTwice (enter_list n pdev reg o).1
  unfolding enter_list
  enter_list-NoneTwice none = s
  enter_list-NoneTwice (some c) = record { once = entered_once; differ = entered_differ }

-- nvme_ctrlr_open keeps the list of open controllers free of two for one device, whether it succeeds
-- or not; the address of the new handle is not that of an open controller.
pub ctrlr_open-NoneTwice :
    (e : Env) (fuel : ℕ) (complete : ℕ → Bool) (looks : List Look) (opts : Option Opts) (n : ℕ)
    (new : Ctrlr) (found : Option PciSlot) (reg : Registry) (handle : Option ℕ) (reg' : Registry)
    → NoneTwice reg
    → count n reg.ctrlr_head ≡ 0
    → ctrlr_open e fuel complete looks opts n new found reg ≡ some (handle, reg')
    → NoneTwice reg'
unfolding ctrlr_open AllSome
ctrlr_open-NoneTwice e fuel complete looks opts n new none reg handle reg' s fresh p =
    subst (λ (x : Option ℕ × Registry). NoneTwice (x.1)) (some_inj p) s
ctrlr_open-NoneTwice e fuel complete looks opts n new (some pdev) reg handle reg' s fresh p =
    AllSome-some (λ (x : Option ℕ × Registry). NoneTwice (x.1)) p
      (split-AllSome (λ (x : Option ℕ × Registry). NoneTwice (x.1))
        (already_open reg.slot pdev reg.ctrlr_head) (some (none, reg))
        (attach e fuel complete looks opts new >>= λ c. some (enter_list n pdev reg c)) (λ q. s)
        (λ q.
          then-AllSome (λ (x : Option ℕ × Registry). NoneTwice (x.1))
            (attach e fuel complete looks opts new) (λ c. some (enter_list n pdev reg c))
            (λ c. enter_list-NoneTwice reg s n pdev fresh q c)))

count-remove-le : (h x : ℕ) (l : List ℕ) → count x (remove h l) ≤ count x l
unfolding remove
count-remove-le h x [] = omega arith
count-remove-le h x (y ∷ ys) = ground (arith, count-remove-le h x ys)

removed-NoneTwice :
    (h : ℕ) (reg : Registry)
    → NoneTwice reg
    → NoneTwice (record reg { ctrlr_head = remove h reg.ctrlr_head })
removed-NoneTwice h reg s = record {
  once = λ x. omega (arith, s.once x, count-remove-le h x reg.ctrlr_head);
  differ = λ x y p q r.
      s.differ x y (omega (arith, p, count-remove-le h x reg.ctrlr_head))
        (omega (arith, q, count-remove-le h y reg.ctrlr_head)) r;
}

is_open-count : (h : ℕ) (l : List ℕ) → is_open h l ≡ false → count h l ≡ 0
is_open-count h [] p = refl
is_open-count h (x ∷ xs) p = ground (arith, p, is_open-count h xs)

count-is_open : (h : ℕ) (l : List ℕ) → count h l ≡ 0 → is_open h l ≡ false
count-is_open h [] p = refl
count-is_open h (x ∷ xs) p = ground (arith, p, count-is_open h xs)

removed-count : (h : ℕ) (l : List ℕ) → count h l ≤ 1 → count h (remove h l) ≡ 0
unfolding remove
removed-count h [] p = refl
removed-count h (x ∷ xs) p = ground (arith, p, removed-count h xs)

module _ (e : Env) (releases fuel : ℕ) (complete : ℕ → Bool) (h : ℕ) where
  -- A handle that is not open cannot be closed.
  close_unknown :
      (reg : Registry)
      → count h reg.ctrlr_head ≡ 0
      → ctrlr_close e releases fuel complete h reg ≡ some (einval, reg)
  unfolding ctrlr_close
  close_unknown reg p = rw (ctrlr_get, count-is_open h reg.ctrlr_head p) refl

  abbrev Closed : Registry → Type 0
  Closed reg = NoneTwice reg × (count h reg.ctrlr_head ≡ 0)

  close_found-Closed :
      (b : Bool) (reg : Registry) (ret : Ret) (reg' : Registry)
      → NoneTwice reg
      → is_open h reg.ctrlr_head ≡ b
      → close_found e releases fuel complete
          (if b then (some h, record reg { ctrlr_head = remove h reg.ctrlr_head }) else (none, reg))
        ≡ some (ret, reg')
      → Closed reg'
  unfolding close_found
  close_found-Closed true reg ret reg' s q p =
      let (_, _, r) = >>=-eq-some (detach e releases fuel complete (reg.ctrlr h)) _ p in
      subst (λ (x : Ret × Registry). Closed (x.1)) (some_inj r)
        (removed-NoneTwice h reg s, removed-count h reg.ctrlr_head (s.once h))
  close_found-Closed false reg ret reg' s q p =
      subst (λ (x : Ret × Registry). Closed (x.1)) (some_inj p)
        (s, is_open-count h reg.ctrlr_head q)

  -- A handle that nvme_ctrlr_close has closed, or refused, is not open afterwards: closing it again
  -- returns -EINVAL and changes nothing. The list stays free of two controllers for one device.
  pub ctrlr_close-ctrlr_close :
      (reg : Registry) (ret : Ret) (reg' : Registry)
      → NoneTwice reg
      → ctrlr_close e releases fuel complete h reg ≡ some (ret, reg')
      → NoneTwice reg' × (ctrlr_close e releases fuel complete h reg' ≡ some (einval, reg'))
  ctrlr_close-ctrlr_close reg ret reg' s p =
      let (t, z) =
        close_found-Closed (is_open h reg.ctrlr_head) reg ret reg' s refl
          (unfold ctrlr_close ctrlr_get in p) in
      (t, close_unknown reg' z)
