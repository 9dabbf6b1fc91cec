-- ===== src/Ctrlr/Namespaces/Handles.antt =====
-- Opening and closing namespaces count the handles.
use libnvme.Prelude.{
  ℕ, ◌+◌, ◌-◌, ◌%◌, ◌^◌, ◌≤◌, ◌<◌, ◌≡◌, refl, Bool, true, false, ◌&&◌, ◌||◌, Option, none, some,
  ltb, ◌==◌, if◌then◌else◌, update, arith,
}
use libnvme.Types.{Ret, success}
use libnvme.Ctrlr.Namespaces.{ns_open, ns_close, ns_ctrlr_lock}
use libnvme.Ctrlr.State.{Ctrlr}

-- The number of open handles of a namespace.
abbrev pub opened : Ctrlr → ℕ → ℕ
opened c x = (c.ns x).open_count

abbrev incremented : Ctrlr → ℕ → Ctrlr
incremented c id = record c {
  ns = update c.ns id (record (c.ns id) { open_count = ((c.ns id).open_count + 1) % 2 ^ 32 });
}

abbrev decremented : Ctrlr → ℕ → Ctrlr
decremented c id = record c {
  ns = update c.ns id (record (c.ns id) { open_count = (c.ns id).open_count - 1 });
}

when_true {ℓ} : {A : Type ℓ} (b : Bool) (x y : A) → b ≡ true → (if b then x else y) ≡ x
when_true true x y p = refl
when_true false x y p = cc

when_false {ℓ} : {A : Type ℓ} (b : Bool) (x y : A) → b ≡ false → (if b then x else y) ≡ y
when_false true x y p = cc
when_false false x y p = refl

abbrev with_handle : Option ℕ → Ctrlr → Option ℕ × Ctrlr
with_handle o c = (o, c)

ns_open-known :
    (id : ℕ) (c : Ctrlr)
    → 0 < id
    → id ≤ c.nr_ns
    → ns_open id c ≡ with_handle (some id) (incremented c id)
unfolding ns_open
ns_open-known id c h k =
    when_true (ltb 0 id && ltb id (c.nr_ns + 1)) (with_handle (some id) (incremented c id))
      (with_handle none c) (ground (arith, h, k))

lock-opened :
    (id : ℕ) (c : Ctrlr)
    → 0 < id
    → id ≤ c.nr_ns
    → 0 < opened c id
    → ns_ctrlr_lock (some id) c ≡ some id
unfolding ns_ctrlr_lock
lock-opened id c h k o =
    when_false (ltb id 1 || ltb c.nr_ns id || opened c id == 0) none (some id)
      (ground (arith, h, k, o))

abbrev with_ret : Ret → Ctrlr → Ret × Ctrlr
with_ret r c = (r, c)

ns_close-opened :
    (id : ℕ) (c : Ctrlr)
    → 0 < id
    → id ≤ c.nr_ns
    → 0 < opened c id
    → ns_close (some id) c ≡ with_ret success (decremented c id)
unfolding ns_close
ns_close-opened id c h k o = rw (ns_close, lock-opened id c h k o) refl

-- Opening a namespace that the controller has gives its handle, closing that handle succeeds, and
-- afterwards every namespace has as many open handles as before; fewer than 2 ^ 32 - 1 were open.
pub ns_open-ns_close :
    (id : ℕ) (c : Ctrlr)
    → 0 < id
    → id ≤ c.nr_ns
    → opened c id + 1 < 2 ^ 32
    → let (handle, c1) = ns_open id c in
      let (ret, c2) = ns_close handle c1 in
      (handle ≡ some id) × (ret ≡ success) × ((x : ℕ) → opened c2 x ≡ opened c x)
ns_open-ns_close id c h k n =
    rw (ns_open-known id c h k)
      (rw (ns_close-opened id (incremented c id) h k more) (refl, refl, λ x. counted x))
  where
    more : 0 < opened (incremented c id) id
    more = ground (arith, n)

    counted : (x : ℕ) → opened (decremented (incremented c id) id) x ≡ opened c x
    counted x = ground (arith, n)
