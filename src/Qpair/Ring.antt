-- ===== src/Qpair/Ring.antt =====
-- The phase tags of a completion ring: how the controller marks what it posts, and how the driver
-- knows a new completion from the one that stood in the slot before (NVMe's protocol, which the
-- comments of nvme_qpair_reset and nvme_qpair_poll describe).
use libnvme.Prelude.{
  ℕ, zero, suc, ◌+◌, ◌-◌, ◌/◌, ◌%◌, ◌<◌, ◌≤◌, ◌≡◌, ◌≢◌, refl, ◌==◌, if◌then◌else◌, update, arith,
  Bool-cases, inl, inr, ==_iff, subst, sym, ◌∙◌, ap, ◌⊎◌, update_self, update_ne,
}
use native.Mathlib.Nat.{
  div-eq_of_lt-le, div-add-mod', mod-lt, mod_self, div-eq_of_lt, div-eq-sub-div, mod-eq_of_lt,
  mod-eq-sub-mod, mod-add-mod,
}
use native.Mathlib.Decide.{dec_lt}
use libnvme.Qpair.{next_index}

module _ (entries : ℕ) where
  -- The phase tag of completion number `n`: 1 on the first pass through the ring, then 0, and so on.
  abbrev pub tag : ℕ → ℕ
  tag n = 1 - n / entries % 2

  -- The tags in the ring, zeroed at first, after the controller has posted `m` completions.
  abbrev pub posted : ℕ → ℕ → ℕ
  posted zero = λ _. 0
  posted (suc m) = update (posted m) (m % entries) (tag m)

  -- Going on by one: round the end of the ring, or within a pass.
  wrap_cases :
      (n : ℕ)
      → 0 < entries
      → ((n % entries + 1 ≡ entries)
          × ((n + 1) / entries ≡ n / entries + 1)
          × ((n + 1) % entries ≡ 0))
        ⊎ ((n % entries + 1 < entries)
            × ((n + 1) / entries ≡ n / entries)
            × ((n + 1) % entries ≡ n % entries + 1))
  wrap_cases n h = elim (Bool-cases (n % entries + 1 == entries)) [
    | inl e ↦
        let q : n % entries + 1 ≡ entries = (==_iff _ _).0 e in
        inl (
          q,
          div-eq_of_lt-le entries (omega (arith, div-add-mod' n entries))
              (omega (arith, div-add-mod' n entries)),
          sym (mod-add-mod n entries 1) ∙ ap (λ t. t % entries) q ∙ mod_self entries,
        )
    | inr e ↦
        let q : n % entries + 1 < entries = ground (arith, mod-lt n h) in
        inr (
          q,
          div-eq_of_lt-le entries (omega (arith, div-add-mod' n entries))
              (omega (arith, div-add-mod' n entries)),
          sym (mod-add-mod n entries 1) ∙ mod-eq_of_lt q,
        )
  ]

  -- The driver's head follows the count of completions taken.
  pub next_index-mod : (n : ℕ) → 0 < entries → next_index entries (n % entries) ≡ (n + 1) % entries
  next_index-mod n h = ground (arith, wrap_cases n h)

  -- Its phase follows the tag: toggled where the head wraps.
  pub tag-next :
      (n : ℕ) → 0 < entries → (if (n + 1) % entries == 0 then 1 - tag n else tag n) ≡ tag (n + 1)
  tag-next n h = ground (arith, wrap_cases n h)

  -- Completions less than a ring apart stand in different slots.
  slots_differ : (n m : ℕ) → n < m → m < n + entries → m % entries ≢ n % entries
  slots_differ n m h l e = elim (dec_lt (n / entries) (m / entries)) [
    | yes p ↦ grind (arith, div-add-mod' n entries, div-add-mod' m entries)
    | no p ↦ grind (arith, div-add-mod' n entries, div-add-mod' m entries)
  ]

  -- The tag of a slot whose last completion was number `n`, until the ring has gone round again.
  pub posted-tag : (m n : ℕ) → n < m → m ≤ n + entries → posted m (n % entries) ≡ tag n
  posted-tag zero n h l = absurd (omega arith)
  posted-tag (suc m) n h l = elim (Bool-cases (m == n)) [
    | inl e ↦
        let q : m ≡ n = (==_iff m n).0 e in rw q (update_self (posted n) (n % entries) (tag n))
    | inr e ↦
        update_ne (posted m) (m % entries) (n % entries) (tag m)
          (slots_differ n m (ground arith) (ground arith))
        ∙ posted-tag m n (ground arith) (omega arith)
  ]

  posted-untouched : (m n : ℕ) → m ≤ n → n < entries → posted m n ≡ 0
  posted-untouched zero n h l = refl
  posted-untouched (suc m) n h l =
      update_ne (posted m) (m % entries) n (tag m)
        (λ e. omega (arith, mod-eq_of_lt {n = m} {m = entries} (omega arith)))
      ∙ posted-untouched m n (omega arith) l

  -- A slot that waits for completion number `n` holds the other tag.
  pub posted-stale : (n : ℕ) → 0 < entries → posted n (n % entries) ≡ 1 - tag n
  posted-stale n h = elim (dec_lt n entries) [
    | yes p ↦ rw (mod-eq_of_lt p, div-eq_of_lt p) (posted-untouched n n (omega arith) p)
    | no p ↦
        subst (λ r. posted n r ≡ 1 - tag n) {x = (n - entries) % entries}
          (sym (mod-eq-sub-mod (omega arith)))
          (posted-tag n (n - entries) (omega arith) (omega arith)
            ∙ omega (arith, div-eq-sub-div {m = entries} {n = n} h (omega arith)))
  ]
