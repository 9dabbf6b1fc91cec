-- ===== src/Pci/Serial.antt =====
-- The serial number of a device against the list of its extended capabilities.
use libnvme.Prelude.{
  ℕ, zero, suc, ◌+◌, ◌*◌, ◌%◌, ◌^◌, ◌≤◌, ◌<◌, ◌≡◌, ◌≢◌, refl, sym, subst, ◌∙◌, false, Bool-cases,
  Option-cases, inl, inr, ==_iff, ltb, Option, none, some, some_inj, List, ◌==◌, length-append,
  arith,
}
use libnvme.Pci.{hex, cap_id, next_cap, read_serial, walk, get_serial_number}
use libnvme.Pci.Listed.{
  From, here, next, From-next, no_such, no_header, no_word, IsResult, Ascending,
}
use libnvme.Pci.Text.{length-hex, words_value}

read_serial-IsSerial :
    (cfg : ℕ → Option ℕ) (p header : ℕ)
    → ((q w : ℕ) → cfg q ≡ some w → w < 2 ^ 32)
    → cfg p ≡ some header
    → cap_id header ≡ 3
    → IsResult cfg p (read_serial cfg p)
unfolding read_serial
read_serial-IsSerial cfg p header words at id = elim (Option-cases (cfg (p + 4))) [
  | inl e ↦ rw e (no_word p header here at id (inl e))
  | inr (low, e) ↦ elim (Option-cases (cfg (p + 8))) [
    | inl f ↦ rw (e, f) (no_word p header here at id (inr f))
    | inr (high, f) ↦
        rw (e, f)
          (record {
            pos = p;
            listed = here;
            header = header;
            at = at;
            id = id;
            low = low;
            low_at = e;
            high = high;
            high_at = f;
            value = words_value high low (words (p + 8) high f) (words (p + 4) low e);
            digits = omega (
              arith,
              length-append (hex 8 high) (hex 8 low),
              length-hex 8 high,
              length-hex 8 low,
            );
          })
  ]
]

none_listed :
    (cfg : ℕ → Option ℕ) (p header : ℕ)
    → cfg p ≡ some header
    → cap_id header ≢ 3
    → (256 ≤ next_cap header
        → (q h : ℕ) → From cfg (next_cap header) q
        → cfg q ≡ some h
        → cap_id h ≢ 3)
    → (q h : ℕ) → From cfg p q
    → cfg q ≡ some h
    → cap_id h ≢ 3
none_listed cfg p header at id rest q h here e i =
    id (subst (λ x. cap_id x ≡ 3) (some_inj (sym e ∙ at)) i)
none_listed cfg p header at id rest q h (next {header = x} e' _ far f) e i =
    let same : x ≡ header = some_inj (sym e' ∙ at) in
    rest (subst (λ y. 256 ≤ next_cap y) same far) q h (subst (λ y. From cfg (next_cap y) q) same f)
      e i

-- What is found from the next capability on is found from this one on.
later :
    (cfg : ℕ → Option ℕ) (p header : ℕ) (r : Option (List ℕ))
    → cfg p ≡ some header
    → cap_id header ≢ 3
    → 256 ≤ next_cap header
    → IsResult cfg (next_cap header) r
    → IsResult cfg p r
later cfg p header none at id far (no_such none_there) =
    no_such (none_listed cfg p header at id (λ _. none_there))
later cfg p header none at id far (no_header q f e) = no_header q (next at id far f) e
later cfg p header none at id far (no_word q h f e i w) = no_word q h (next at id far f) e i w
later cfg p header (some text) at id far found = record {
  pos = found.pos;
  listed = next at id far found.listed;
  header = found.header;
  at = found.at;
  id = found.id;
  low = found.low;
  low_at = found.low_at;
  high = found.high;
  high_at = found.high_at;
  value = found.value;
  digits = found.digits;
}

module _ (cfg : ℕ → Option ℕ) (words : (q w : ℕ) → cfg q ≡ some w → w < 2 ^ 32)
    (up : Ascending cfg) where
  walk-IsResult :
      (fuel p header : ℕ)
      → From cfg 256 p
      → cfg p ≡ some header
      → 256 ≤ p
      → p ≤ 4092
      → p % 4 ≡ 0
      → 4096 ≤ 4 * fuel + p
      → (r : Option (List ℕ)) × (walk fuel cfg p header ≡ some r) × IsResult cfg p r
  unfolding walk read_serial
  walk-IsResult zero p header reached at low high four enough = absurd (omega (arith, high, enough))
  walk-IsResult (suc fuel) p header reached at low high four enough =
      let inside : (p == 0) ≡ false = ground (arith, low) in
      elim (Bool-cases (cap_id header == 3)) [
        | inl e ↦ (
          read_serial cfg p,
          rw (walk, e, inside) refl,
          read_serial-IsSerial cfg p header words at ((==_iff (cap_id header) 3).0 e),
        )
        | inr e ↦
            let other : cap_id header ≢ 3 = λ q. ground (arith, e, q) in
            elim (Bool-cases (ltb (next_cap header) 256)) [
              | inl l ↦ (
                none,
                rw (walk, e, l) refl,
                no_such (none_listed cfg p header at other (λ far. ground (arith, far, l))),
              )
              | inr l ↦
                  let far : 256 ≤ next_cap header = ground (arith, l) in
                  elim (Option-cases (cfg (next_cap header))) [
                    | inl f ↦ (
                      none,
                      rw (walk, e, l, f) refl,
                      no_header (next_cap header) (next at other far here) f,
                    )
                    | inr (h, f) ↦
                        let above = up p header reached at other far in
                        let (r, run, found) =
                          walk-IsResult fuel (next_cap header) h
                            (From-next cfg 256 p header reached at other far) f far (omega arith)
                            (omega arith) (omega (arith, above, four, enough)) in
                        (r, rw (walk, e, l, f) run, later cfg p header r at other far found)
                  ]
            ]
      ]

-- nvme_pci_device_get_serial_number for a buffer of 17 bytes or more, where each capability of the
-- list, up to the first with id 3, that names a next one names one above itself: the walk ends within
-- 960 capabilities. A text that it returns has 16 digits and is the number in the two words after the
-- header of the first capability of the list with id 3. If it returns none, no capability of the list
-- has that id, or the list reaches a header that cannot be read, or one of the two words after the
-- header of the first capability with that id cannot be read.
pub get_serial_number-IsResult :
    (cfg : ℕ → Option ℕ) (len : ℕ)
    → ((q w : ℕ) → cfg q ≡ some w → w < 2 ^ 32)
    → Ascending cfg
    → 17 ≤ len
    → (r : Option (List ℕ)) × (get_serial_number 960 cfg len ≡ some r) × IsResult cfg 256 r
unfolding get_serial_number
get_serial_number-IsResult cfg len words up long =
    let fits : ltb len 17 ≡ false = ground (arith, long) in
    elim (Option-cases (cfg 256)) [
      | inl e ↦ (none, rw (fits, e) refl, no_header 256 here e)
      | inr (header, e) ↦ elim (Bool-cases (header == 0)) [
        | inl z ↦ (
          none,
          rw (fits, e, z) refl,
          no_such (
              none_listed cfg 256 header e (ground (arith, z))
                (λ far. absurd (ground (arith, z, far)))),
        )
        | inr z ↦
            let (r, run, found) =
              walk-IsResult cfg words up 960 256 header here e (omega arith) (omega arith) refl
                (omega arith) in
            (r, rw (fits, e, z) run, found)
      ]
    ]

-- A capability that names itself is read for ever.
walk_cycle :
    (fuel header : ℕ) (cfg : ℕ → Option ℕ)
    → cfg (next_cap header) ≡ some header
    → 256 ≤ next_cap header
    → cap_id header ≢ 3
    → walk fuel cfg (next_cap header) header ≡ none
unfolding walk
walk_cycle zero header cfg at far other = refl
walk_cycle (suc fuel) header cfg at far other =
    let e : (cap_id header == 3) ≡ false = ground (arith, other) in
    let l : ltb (next_cap header) 256 ≡ false = ground (arith, far) in
    rw (walk, e, l, at) (walk_cycle fuel header cfg at far other)
