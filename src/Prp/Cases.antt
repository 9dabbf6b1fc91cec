-- ===== src/Prp/Cases.antt =====
-- How the data pointers of a contiguous buffer are built, and what the entries of the list hold.
use libnvme.Prelude.{
  ℕ, zero, suc, ◌+◌, ◌-◌, ◌/◌, ◌%◌, ◌≤◌, ◌<◌, ◌≡◌, refl, Bool-cases, ==_iff, inl, inr, Option, some,
  ◌==◌, ltb, if◌then◌else◌, update, arith, ap, subst, sym, ◌∙◌, ltb→lt, Option-cases, some_inj,
  none-ne-some, ◌≢◌, none, false, true,
}
use native.Mathlib.Decide.{ℕ_discrete}
use libnvme.Types.{Cmd}
use libnvme.Prp.{segments, seg_addr, fill_prps, build_dptr, vtophys_error}

-- The segments are the pages that a transfer touches.
pub segments_lem :
    (size unaligned : ℕ)
    → 0 < size
    → unaligned < 4096
    → segments size unaligned ≡ (unaligned + size + 4095) / 4096
unfolding segments
segments_lem size u h v = ground arith

module _ (vtophys : ℕ → ℕ) (payload unaligned : ℕ) where
  -- What a fill of `n` entries from segment `cur` on leaves: entry `i` is the page of segment
  -- `i + 1`, and no other entry changes.
  abbrev fill_value : ℕ → ℕ → (ℕ → ℕ) → ℕ → ℕ
  fill_value n cur prp i =
      if ltb (i + 1) cur
      then prp i
      else if ltb (i + 1) (cur + n)
      then vtophys (seg_addr payload unaligned (i + 1))
      else prp i

  fill_prps_lem :
      (n cur : ℕ) (prp : ℕ → ℕ) {prp' : ℕ → ℕ} (i : ℕ)
      → 0 < cur
      → fill_prps vtophys payload unaligned n cur prp ≡ some prp'
      → prp' i ≡ fill_value n cur prp i
  unfolding fill_prps
  fill_prps_lem zero cur prp {prp'} i h e =
      let q : prp ≡ prp' = some_inj e in ground (arith, ap (λ f. f i) q)
  fill_prps_lem (suc n) cur prp i h e =
      elim (Bool-cases (vtophys (seg_addr payload unaligned cur) == vtophys_error)) [
        | inl bad ↦ absurd (none-ne-some (rw bad at e))
        | inr good ↦ ground (
          arith,
          fill_prps_lem n (cur + 1)
              (update prp (cur - 1) (vtophys (seg_addr payload unaligned cur))) i (omega arith)
              (rw good at e),
        )
      ]

-- The entries of the list hold translations that did not fail.
fill_prps-found :
    (vtophys : ℕ → ℕ) (payload unaligned n cur : ℕ) (prp : ℕ → ℕ) {prp' : ℕ → ℕ} (i : ℕ)
    → fill_prps vtophys payload unaligned n cur prp ≡ some prp'
    → cur ≤ i
    → i < cur + n
    → vtophys (seg_addr payload unaligned i) ≢ vtophys_error
unfolding fill_prps
fill_prps-found vtophys payload unaligned zero cur prp i e from to =
    absurd (omega (arith, from, to))
fill_prps-found vtophys payload unaligned (suc n) cur prp i e from to =
    elim (Bool-cases (vtophys (seg_addr payload unaligned cur) == vtophys_error)) [
      | inl bad ↦ absurd (none-ne-some (rw bad at e))
      | inr good ↦ elim (ℕ_discrete cur i) [
        | yes p ↦
            subst (λ j. vtophys (seg_addr payload unaligned j) ≢ vtophys_error) p
              (λ q. ground (arith, good, q))
        | no p ↦
            fill_prps-found vtophys payload unaligned n (cur + 1) _ i (rw good at e)
              (omega (arith, from, p)) (omega (arith, to))
      ]
    ]

-- How a controller reads the `i`-th page of a transfer of `nseg` pages: the first entry, then the
-- second, which is the page itself if there are two pages and otherwise points to the list. `none`
-- is an entry that the tracker's list of 506 does not have; the list stands 40 bytes into a page of
-- 4096, so none of its entries is the last of the page, which would point to a further list.
abbrev pub device_page : ℕ → Cmd → (ℕ → ℕ) → ℕ → Option ℕ
device_page nseg cmd prp i =
    if i == 0
    then some cmd.prp1
    else if nseg == 2
    then some cmd.prp2
    else if ltb (i - 1) 506
    then some (prp (i - 1))
    else none

-- The translation of the `i`-th page of the buffer.
abbrev pub page_addr : (ℕ → ℕ) → ℕ → ℕ → ℕ
page_addr vtophys payload i =
    if i == 0 then vtophys payload else vtophys (seg_addr payload (vtophys payload % 4096) i)

abbrev pub pages : ℕ → ℕ → ℕ
pages size unaligned = (unaligned + size + 4095) / 4096

module _ (vtophys : ℕ → ℕ) where
  -- The three ways in which the data pointers are built.
  pub data DptrCase (payload unaligned nseg bus : ℕ) (cmd : Cmd) (prp : ℕ → ℕ) (cmd' : Cmd)
      (prp' : ℕ → ℕ) : Type 0 where
    one : nseg < 2 → cmd' ≡ cmd → prp' ≡ prp → DptrCase payload unaligned nseg bus cmd prp cmd' prp'
    two :
        nseg ≡ 2
        → cmd' ≡ record cmd { prp2 = vtophys (seg_addr payload unaligned 1) }
        → prp' ≡ prp
        → DptrCase payload unaligned nseg bus cmd prp cmd' prp'
    list :
        2 < nseg
        → cmd' ≡ record cmd { prp2 = bus }
        → fill_prps vtophys payload unaligned (nseg - 1) 1 prp ≡ some prp'
        → DptrCase payload unaligned nseg bus cmd prp cmd' prp'

  pub build_dptr-DptrCase :
      (payload size unaligned bus : ℕ) (cmd : Cmd) (prp : ℕ → ℕ) {cmd' : Cmd} {prp' : ℕ → ℕ}
      → build_dptr vtophys payload size unaligned bus cmd prp ≡ some (cmd', prp')
      → DptrCase payload unaligned (segments size unaligned) bus cmd prp cmd' prp'
  unfolding build_dptr
  build_dptr-DptrCase payload size unaligned bus cmd prp e = elim (Bool-cases (nseg == 2)) [
    | inl p ↦
        let q = some_inj (rw p at e) in
        two ((==_iff nseg 2).0 p) (sym (ap (λ t. t.0) q)) (sym (ap (λ t. t.1) q))
    | inr p ↦ elim (Bool-cases (ltb 2 nseg)) [
      | inl r ↦ elim (Option-cases (fill_prps vtophys payload unaligned (nseg - 1) 1 prp)) [
        | inl n ↦ absurd (none-ne-some (rw (p, r, n) at e))
        | inr (f, n) ↦
            let q = some_inj (rw (p, r, n) at e) in
            list (ltb→lt _ _ r) (sym (ap (λ t. t.0) q)) (n ∙ ap some (ap (λ t. t.1) q))
      ]
      | inr r ↦
          let q = some_inj (rw (p, r) at e) in
          one (ground arith) (sym (ap (λ t. t.0) q)) (sym (ap (λ t. t.1) q))
    ]
  ]
    where
      nseg : ℕ
      nseg = segments size unaligned

  -- With a list, its entries are the pages after the first.
  pub DptrCase-listed :
      (payload unaligned nseg bus : ℕ) (cmd : Cmd) (prp : ℕ → ℕ) {cmd' : Cmd} {prp' : ℕ → ℕ} (i : ℕ)
      → DptrCase payload unaligned nseg bus cmd prp cmd' prp'
      → 2 < nseg
      → i + 1 < nseg
      → prp' i ≡ vtophys (seg_addr payload unaligned (i + 1))
  DptrCase-listed payload unaligned nseg bus cmd prp i (one h c p) long lt = absurd (omega arith)
  DptrCase-listed payload unaligned nseg bus cmd prp i (two h c p) long lt = absurd (omega arith)
  DptrCase-listed payload unaligned nseg bus cmd prp i (list h c p) long lt =
      ground (arith, fill_prps_lem vtophys payload unaligned (nseg - 1) 1 prp i (omega arith) p)

  pub DptrCase-covers :
      (payload unaligned nseg bus : ℕ) (cmd : Cmd) (prp : ℕ → ℕ) {cmd' : Cmd} {prp' : ℕ → ℕ} (i : ℕ)
      → DptrCase payload unaligned nseg bus cmd prp cmd' prp'
      → i + 1 < nseg
      → i < 506
      → device_page nseg cmd' prp' (i + 1) ≡ some (vtophys (seg_addr payload unaligned (i + 1)))
  DptrCase-covers payload unaligned nseg bus cmd prp i (one h c p) lt few = absurd (omega arith)
  DptrCase-covers payload unaligned nseg bus cmd prp i (two h c p) lt few =
      let z : i ≡ 0 = omega arith in rw (c, z, h) refl
  DptrCase-covers payload unaligned nseg bus cmd prp {cmd'} {prp'} i (list h c p) lt few =
      let first : (i + 1 == 0) ≡ false = ground arith in
      let long : (nseg == 2) ≡ false = ground (arith, h) in
      let z : i + 1 - 1 ≡ i = omega arith in
      let inside : ltb i 506 ≡ true = ground (arith, few) in
      rw (first, long, z, inside)
        (ap some (DptrCase-listed payload unaligned nseg bus cmd prp i (list h c p) h lt))

  -- Only the second page of two is not checked.
  pub DptrCase-found :
      (payload unaligned nseg bus : ℕ) (cmd : Cmd) (prp : ℕ → ℕ) {cmd' : Cmd} {prp' : ℕ → ℕ} (i : ℕ)
      → DptrCase payload unaligned nseg bus cmd prp cmd' prp'
      → nseg ≢ 2
      → i + 1 < nseg
      → vtophys (seg_addr payload unaligned (i + 1)) ≢ vtophys_error
  DptrCase-found payload unaligned nseg bus cmd prp i (one h c p) more lt = absurd (omega arith)
  DptrCase-found payload unaligned nseg bus cmd prp i (two h c p) more lt = absurd (more h)
  DptrCase-found payload unaligned nseg bus cmd prp i (list h c p) more lt =
      fill_prps-found vtophys payload unaligned (nseg - 1) 1 prp (i + 1) p (omega arith)
        (omega arith)

  pub DptrCase-heads :
      {payload unaligned nseg bus : ℕ} {cmd : Cmd} {prp : ℕ → ℕ} {cmd' : Cmd} {prp' : ℕ → ℕ}
      → DptrCase payload unaligned nseg bus cmd prp cmd' prp'
      → (cmd'.prp1 ≡ cmd.prp1) × ((if ltb 2 nseg then cmd'.prp2 else bus) ≡ bus)
  DptrCase-heads (one h c p) = rw c (refl, ground arith)
  DptrCase-heads (two h c p) = rw (c, h) (refl, refl)
  DptrCase-heads (list h c p) = rw c (refl, ground arith)

  pub DptrCase-kept :
      (payload unaligned nseg bus : ℕ) (cmd : Cmd) (prp : ℕ → ℕ) {cmd' : Cmd} {prp' : ℕ → ℕ} (i : ℕ)
      → DptrCase payload unaligned nseg bus cmd prp cmd' prp'
      → nseg ≤ i + 1
      → prp' i ≡ prp i
  DptrCase-kept payload unaligned nseg bus cmd prp i (one h c p) lt = ap (λ f. f i) p
  DptrCase-kept payload unaligned nseg bus cmd prp i (two h c p) lt = ap (λ f. f i) p
  DptrCase-kept payload unaligned nseg bus cmd prp i (list h c p) lt =
      ground (arith, fill_prps_lem vtophys payload unaligned (nseg - 1) 1 prp i (omega arith) p)
