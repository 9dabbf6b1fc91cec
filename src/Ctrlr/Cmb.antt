-- ===== src/Ctrlr/Cmb.antt =====
-- The controller memory buffer: nvme_ctrlr_map_cmb of lib/nvme/nvme_ctrlr.c, and the place of a
-- submission queue in it, nvme_ctrlr_reserve_sq_in_cmb of lib/nvme/nvme_qpair.c.
use libnvme.Prelude.{
  ℕ, ◌+◌, ◌-◌, ◌*◌, ◌/◌, ◌%◌, ◌^◌, ◌≤◌, ◌<◌, ◌≡◌, refl, subst, Bool, true, false, ◌&&◌, ◌||◌, ◌⊎◌,
  inl, inr, Option, none, some, some_inj, none-ne-some, ltb, ◌==◌, if◌then◌else◌, if_inv, arith,
}
use libnvme.Ctrlr.State.{Ctrlr, CmbRegisters, Env}

-- The size and the offset in bytes that the registers give. From a unit of 13 on, which is reserved,
-- the shift of the source is by 64 bits or more and undefined in C; here the result is 0.
abbrev pub cmb_bytes : CmbRegisters → ℕ → ℕ
cmb_bytes r n = 2 ^ (12 + 4 * r.szu) * n % 2 ^ 64

-- Whether the registers describe a buffer inside its BAR of `bar_size` bytes.
unfoldable pub cmb_usable : CmbRegisters → ℕ → Bool
cmb_usable r bar_size =
    if r.sz == 0 || (ltb 5 r.bir || r.bir == 1)
    then false
    else if ltb bar_size (cmb_bytes r r.ofst)
    then false
    else if ltb (bar_size - cmb_bytes r r.ofst) (cmb_bytes r r.sz)
    then false
    else true

-- Without a buffer, submission queues are in memory.
abbrev pub no_cmb : Ctrlr → Ctrlr
no_cmb c = record c { cmb_bar_virt_addr = none; opts = record c.opts { use_cmb_sqs = false } }

abbrev pub with_cmb : Env → ℕ → Ctrlr → Ctrlr
with_cmb e addr c = record c {
  cmb_bar_virt_addr = some addr;
  cmb_bar_phys_addr = (e.bar_size e.cmb.bir).0;
  cmb_size = cmb_bytes e.cmb e.cmb.sz;
  cmb_current_offset = cmb_bytes e.cmb e.cmb.ofst;
  opts = record c.opts { use_cmb_sqs = c.opts.use_cmb_sqs && e.cmb.sqs };
}

-- nvme_ctrlr_map_cmb
unfoldable pub map_cmb : Env → Ctrlr → Ctrlr
unfolding cmb_usable
map_cmb e c =
    if cmb_usable e.cmb (e.bar_size e.cmb.bir).1
    then elim (e.map_bar e.cmb.bir) [ none ↦ no_cmb c | some addr ↦ with_cmb e addr c ]
    else no_cmb c

-- `(offset + (aligned - 1)) & ~(aligned - 1)` for a page of 4096 bytes
abbrev pub round_page : ℕ → ℕ
round_page offset = (offset + 4095) % 2 ^ 64 / 4096 * 4096

-- nvme_ctrlr_reserve_sq_in_cmb, aligned to a page: the offset of the queue.
unfoldable pub reserve_sq_in_cmb : Ctrlr → ℕ → Option (ℕ × Ctrlr)
reserve_sq_in_cmb c entries =
    let start = round_page c.cmb_current_offset in
    if ltb c.cmb_size ((start + entries * 64) % 2 ^ 64)
    then none
    else some (start, record c { cmb_current_offset = (start + entries * 64) % 2 ^ 64 })

-- Either there is no buffer, and submission queues are not placed in one, or the buffer that was
-- mapped lies inside its BAR.
unfoldable pub IsMapped : ℕ → Ctrlr → Type 0
IsMapped bar_size c =
    ((c.cmb_bar_virt_addr ≡ none) × (c.opts.use_cmb_sqs ≡ false))
    ⊎ (c.cmb_current_offset + c.cmb_size ≤ bar_size)

usable-inside :
    (r : CmbRegisters) (bar_size : ℕ)
    → cmb_usable r bar_size ≡ true
    → cmb_bytes r r.ofst + cmb_bytes r r.sz ≤ bar_size
unfolding cmb_usable
usable-inside r bar_size h = ground (arith, h)

-- After nvme_ctrlr_map_cmb, whatever the registers say and whether the BAR can be mapped or not:
-- either there is no controller memory buffer, and the option to place submission queues in one is
-- off, or the offset and the size of the buffer that was mapped stay within the size of its BAR.
pub map_cmb-IsMapped : (e : Env) (c : Ctrlr) → IsMapped (e.bar_size e.cmb.bir).1 (map_cmb e c)
unfolding map_cmb IsMapped
map_cmb-IsMapped e c = go (cmb_usable e.cmb (e.bar_size e.cmb.bir).1) refl (e.map_bar e.cmb.bir)
  where
    go :
        (b : Bool)
        → cmb_usable e.cmb (e.bar_size e.cmb.bir).1 ≡ b
        → (o : Option ℕ)
        → IsMapped
            (e.bar_size e.cmb.bir).1
            (if b then elim o [ none ↦ no_cmb c | some addr ↦ with_cmb e addr c ] else no_cmb c)
    go true h none = inl (refl, refl)
    go true h (some addr) = inr (usable-inside e.cmb (e.bar_size e.cmb.bir).1 h)
    go false h o = inl (refl, refl)

-- A place for a queue of `entries` commands in a buffer of `size` bytes, of which all from `next` on
-- are free: it starts at `start` and ends at `end`.
abbrev pub IsPlaced : ℕ → ℕ → ℕ → ℕ → ℕ → Type 0
IsPlaced next size entries start end =
    (start % 4096 ≡ 0)
    × (next ≤ start)
    × (start < next + 4096)
    × (end ≡ start + entries * 64)
    × (end ≤ size)

-- A submission queue that is placed in the controller memory buffer starts on a page, less than a
-- page after the queues placed before, and takes 64 bytes for each entry, up to the new offset, which
-- is within the size of the buffer; the old offset is below 2 ^ 62 and the entries below 2 ^ 16.
pub reserve_sq_in_cmb-IsPlaced :
    (c c' : Ctrlr) (entries start : ℕ)
    → c.cmb_current_offset < 2 ^ 62
    → entries < 2 ^ 16
    → reserve_sq_in_cmb c entries ≡ some (start, c')
    → IsPlaced c.cmb_current_offset c.cmb_size entries start c'.cmb_current_offset
unfolding reserve_sq_in_cmb
reserve_sq_in_cmb-IsPlaced c c' entries start h k p =
    elim (if_inv (ltb c.cmb_size ((round_page c.cmb_current_offset + entries * 64) % 2 ^ 64)) _ _
      p) [
        | inl (b, q) ↦ absurd (none-ne-some q)
        | inr (b, q) ↦
            subst
              (λ (x : ℕ × Ctrlr).
                IsPlaced c.cmb_current_offset c.cmb_size entries (x.0) ((x.1).cmb_current_offset))
              (some_inj q) (placed c.cmb_current_offset c.cmb_size h b)
      ]
  where
    placed :
        (next size : ℕ)
        → next < 2 ^ 62
        → ltb size ((round_page next + entries * 64) % 2 ^ 64) ≡ false
        → IsPlaced next size entries (round_page next) ((round_page next + entries * 64) % 2 ^ 64)
    placed next size h b =
        let small : next + 4095 < 2 ^ 64 = omega (arith, h) in
        (omega arith, omega (arith, h), omega (arith, h), omega (arith, h, k), ground (arith, b))
