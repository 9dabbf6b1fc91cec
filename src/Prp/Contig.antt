-- ===== src/Prp/Contig.antt =====
-- The PRP entries of a contiguous buffer cover its pages, and fit the tracker's 506 entries.
use libnvme.Prelude.{
  ℕ, zero, suc, ◌+◌, ◌*◌, ◌%◌, ◌≤◌, ◌<◌, ◌≡◌, refl, Bool-cases, ==_iff, inl, inr, Option, some,
  ◌==◌, ltb, if◌then◌else◌, arith, ap, subst, sym, ◌∙◌, Option-cases, none-ne-some, ◌≢◌, ◌⊎◌, false,
}
use native.Mathlib.Decide.{ℕ_discrete}
use libnvme.Types.{Cmd}
use libnvme.Prp.Cases.{
  device_page, page_addr, pages, segments_lem, DptrCase, build_dptr-DptrCase, DptrCase-listed,
  DptrCase-covers, DptrCase-found, DptrCase-heads, DptrCase-kept,
}
use libnvme.Prp.{seg_addr, build_mptr, build_contig, vtophys_error}

module _ (vtophys : ℕ → ℕ) where
  -- The three ways of the command that build_contig ends with.
  abbrev Contig : ℕ → ℕ → ℕ → (ℕ → ℕ) → Cmd → (ℕ → ℕ) → Type 0
  Contig payload size bus prp cmd' prp' =
      (c : Cmd) × (c.prp1 ≡ vtophys payload)
      × DptrCase vtophys payload (vtophys payload % 4096) (pages size (vtophys payload % 4096)) bus
          c prp cmd' prp'

  build_contig-Contig :
      (payload : ℕ) (md : Option ℕ) (size bus : ℕ) (cmd : Cmd) (prp : ℕ → ℕ) {cmd' : Cmd}
      {prp' : ℕ → ℕ}
      → 0 < size
      → build_contig vtophys payload md size bus cmd prp ≡ some (cmd', prp')
      → Contig payload size bus prp cmd' prp'
  unfolding build_contig
  build_contig-Contig payload md size bus cmd prp {cmd'} {prp'} h e =
      elim (Bool-cases (vtophys payload == vtophys_error)) [
        | inl bad ↦ absurd (none-ne-some (rw bad at e))
        | inr good ↦ elim (Option-cases (build_mptr vtophys md cmd)) [
          | inl n ↦ absurd (none-ne-some (rw (good, n) at e))
          | inr (c, n) ↦ (
            record c { psdt = 0; prp1 = vtophys payload },
            refl,
            subst
                (λ k.
                  DptrCase vtophys payload (vtophys payload % 4096) k bus
                    (record c { psdt = 0; prp1 = vtophys payload }) prp cmd' prp')
                (segments_lem size (vtophys payload % 4096) h (omega arith))
                (build_dptr-DptrCase vtophys payload size (vtophys payload % 4096) bus _ prp
                  (rw (good, n) at e)),
          )
        ]
      ]

  build_contig-found :
      (payload : ℕ) (md : Option ℕ) (size bus : ℕ) (cmd : Cmd) (prp : ℕ → ℕ) {cmd' : Cmd}
      {prp' : ℕ → ℕ}
      → build_contig vtophys payload md size bus cmd prp ≡ some (cmd', prp')
      → vtophys payload ≢ vtophys_error
  unfolding build_contig
  build_contig-found payload md size bus cmd prp e q = none-ne-some (rw ((==_iff _ _).1 q) at e)

  -- A transfer of at most NVME_MAX_XFER_SIZE bytes whose data pointers are built: the controller
  -- finds the translation of every page of the buffer, in order, where it looks for it, within the
  -- 506 entries of the tracker's list; with more than two pages the second entry of the command
  -- points to that list; and each translation is one that did not fail, except that the second page
  -- of exactly two is not checked.
  pub build_contig-covers :
      (payload : ℕ) (md : Option ℕ) (size bus : ℕ) (cmd : Cmd) (prp : ℕ → ℕ) {cmd' : Cmd}
      {prp' : ℕ → ℕ} (i : ℕ)
      → 0 < size
      → size ≤ 506 * 4096
      → build_contig vtophys payload md size bus cmd prp ≡ some (cmd', prp')
      → i < pages size (vtophys payload % 4096)
      → (device_page (pages size (vtophys payload % 4096)) cmd' prp' i
          ≡ some (page_addr vtophys payload i))
        × ((if ltb 2 (pages size (vtophys payload % 4096)) then cmd'.prp2 else bus) ≡ bus)
        × (((pages size (vtophys payload % 4096) ≡ 2) × (i ≡ 1))
            ⊎ (page_addr vtophys payload i ≢ vtophys_error))
  build_contig-covers payload md size bus cmd prp zero h le e lt =
      let (c, f, d) = build_contig-Contig payload md size bus cmd prp h e in
      (
        ap some ((DptrCase-heads vtophys d).0 ∙ f),
        (DptrCase-heads vtophys d).1,
        inr (build_contig-found payload md size bus cmd prp e),
      )
  build_contig-covers payload md size bus cmd prp {cmd'} {prp'} (suc i) h le e lt =
      let (c, f, d) = build_contig-Contig payload md size bus cmd prp h e in
      (
        at_page (
            DptrCase-covers vtophys payload unaligned nseg bus c prp i d (omega (arith, lt))
              (omega (arith, lt, le))),
        (DptrCase-heads vtophys d).1,
        elim (ℕ_discrete nseg 2) [
          | yes p ↦ inl (p, omega (arith, lt, p))
          | no p ↦ inr (
              at_found
                (DptrCase-found vtophys payload unaligned nseg bus c prp i d p (omega (arith, lt))))
        ],
      )
    where
      unaligned : ℕ
      unaligned = vtophys payload % 4096

      nseg : ℕ
      nseg = pages size unaligned

      later : (i + 1 == 0) ≡ false
      later = ground arith

      page : page_addr vtophys payload (i + 1) ≡ vtophys (seg_addr payload unaligned (i + 1))
      page = rw later refl

      at_page :
          device_page nseg cmd' prp' (i + 1) ≡ some (vtophys (seg_addr payload unaligned (i + 1)))
          → device_page nseg cmd' prp' (suc i) ≡ some (page_addr vtophys payload (suc i))
      at_page p =
          subst (λ j. device_page nseg cmd' prp' j ≡ some (page_addr vtophys payload j)) {x = i + 1}
            (omega arith) (p ∙ ap some (sym page))

      at_found :
          vtophys (seg_addr payload unaligned (i + 1)) ≢ vtophys_error
          → page_addr vtophys payload (suc i) ≢ vtophys_error
      at_found p =
          subst (λ j. page_addr vtophys payload j ≢ vtophys_error) {x = i + 1} (omega arith)
            (rw page p)

  -- A transfer of at most NVME_MAX_XFER_SIZE bytes changes no entry past the 506 of the tracker.
  pub build_contig-fits :
      (payload : ℕ) (md : Option ℕ) (size bus : ℕ) (cmd : Cmd) (prp : ℕ → ℕ) {cmd' : Cmd}
      {prp' : ℕ → ℕ} (i : ℕ)
      → 0 < size
      → size ≤ 506 * 4096
      → build_contig vtophys payload md size bus cmd prp ≡ some (cmd', prp')
      → 506 ≤ i
      → prp' i ≡ prp i
  build_contig-fits payload md size bus cmd prp i h le e lt =
      let (c, f, d) = build_contig-Contig payload md size bus cmd prp h e in
      DptrCase-kept vtophys payload (vtophys payload % 4096) (pages size (vtophys payload % 4096))
        bus c prp i d (omega arith)

  -- There is no such limit for a buffer that a caller submits itself: with more than 507 pages the
  -- entry after the tracker's last is written too.
  pub build_contig-overflows :
      (payload : ℕ) (md : Option ℕ) (size bus : ℕ) (cmd : Cmd) (prp : ℕ → ℕ) {cmd' : Cmd}
      {prp' : ℕ → ℕ}
      → 507 * 4096 < size
      → build_contig vtophys payload md size bus cmd prp ≡ some (cmd', prp')
      → prp' 506 ≡ vtophys (seg_addr payload (vtophys payload % 4096) 507)
  build_contig-overflows payload md size bus cmd prp h e =
      let (c, f, d) = build_contig-Contig payload md size bus cmd prp (omega arith) e in
      DptrCase-listed vtophys payload (vtophys payload % 4096) (pages size (vtophys payload % 4096))
        bus c prp 506 d (omega arith) (omega arith)
