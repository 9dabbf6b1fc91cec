-- ===== src/Qpair/Submit/Poll.antt =====
-- Polling takes exactly the completions that the controller has posted, up to its limit.
use Prim.Native.Nat.{min}
use libnvme.Prelude.{
  ℕ, zero, suc, ◌+◌, ◌-◌, ◌%◌, ◌<◌, ◌≤◌, ◌≡◌, refl, ◌∙◌, sym, ap, subst, Bool, true, false,
  Bool-cases, inl, inr, Option, none, some, List, ltb, ◌==◌, if◌then◌else◌, ◌>>=◌, some_inj,
  none-ne-some, if_inv, ltb→lt, arith,
}
use libnvme.Types.{Qpair}
use libnvme.Request.Frame.{>>=-eq-some}
use libnvme.Qpair.{Submit, next_index, complete_tracker, ensure_enabled}
use libnvme.Qpair.Ring.{tag, posted, next_index-mod, tag-next, posted-tag, posted-stale}
use libnvme.Qpair.Steady.{Consumer, consumer_of, Steady, Keeps, complete_tracker-Steady}
use libnvme.Qpair.Submit.{
  advance, poll_limit, ring_cq, poll_one, poll_loop, poll_ready, poll, submit_request,
}
use libnvme.Qpair.Submit.Invariant.{ensure_enabled-Steady, submit_request-Steady}

abbrev advanced : Consumer → Consumer
advanced k =
    let head = next_index k.entries k.cq_head in
    record k { cq_head = head; phase = if head == 0 then 1 - k.phase else k.phase }

-- The invariant, whatever polling has read so far.
abbrev pub IsSteady : Qpair → Type 0
IsSteady q = Steady (consumer_of q) q

-- The queue pair has taken `c` completions of the `m` that the controller has posted to its ring.
abbrev pub Tracks : ℕ → ℕ → Consumer → Type 0
Tracks m c k =
    (k.cq_head ≡ c % k.entries)
    × (k.phase ≡ tag k.entries c)
    × ((i : ℕ) → (k.cpl i).p ≡ posted k.entries m i)

advance-Steady : {k : Consumer} {q : Qpair} → Steady k q → Steady (advanced k) (advance q)
unfolding advance
advance-Steady s = record {
  on = s.on;
  consumer = ap advanced s.consumer;
  tracked = s.tracked;
  owned = s.owned;
  named = s.named;
  tail_in = s.tail_in;
  head_in = ground (arith, s.head_in);
}

advanced-Tracks :
    (m c : ℕ) (k : Consumer) → 0 < k.entries → Tracks m c k → Tracks m (c + 1) (advanced k)
advanced-Tracks m c k pos t = (head, rw (head, t.1) (tag-next k.entries c pos), t.2)
  where
    head : next_index k.entries k.cq_head ≡ (c + 1) % k.entries
    head = rw t.0 (next_index-mod k.entries c pos)

-- The test of the loop tells whether a completion is there to be taken.
fresh-test :
    (m c : ℕ) (k : Consumer)
    → 0 < k.entries
    → Tracks m c k
    → c ≤ m
    → m ≤ c + k.entries
    → ((k.cpl k.cq_head).p == k.phase) ≡ ltb c m
fresh-test m c k pos t lo hi =
    rw (t.0, t.1, t.2 (c % k.entries))
      (elim (Bool-cases (ltb c m)) [
        | inl p ↦ ground (arith, posted-tag k.entries m c)
        | inr p ↦
            let same : m ≡ c = ground arith in
            rw same (ground (arith, posted-stale k.entries c pos))
      ])

ring_if :
    {k : Consumer} {q : Qpair} (b : Bool)
    → Steady k q
    → Steady k (if b then q else record q { cq_hdbl = q.cq_head })
ring_if true s = s
ring_if false s = record {
  on = s.on;
  consumer = s.consumer;
  tracked = s.tracked;
  owned = s.owned;
  named = s.named;
  tail_in = s.tail_in;
  head_in = s.head_in;
}

ring_cq-Steady : {k : Consumer} (n : ℕ) {q : Qpair} → Steady k q → Steady k (ring_cq n q)
unfolding ring_cq
ring_cq-Steady n s = ring_if (n == 0) s

true-ne-false : true ≡ false → ⊥
true-ne-false e = cc

module _ (vtophys : ℕ → ℕ) (sges : ℕ → ℕ → List (ℕ × ℕ)) where
  poll_one-Steady :
      (submit : Submit) (k : Consumer)
      → Keeps k submit
      → (q q' : Qpair) → Steady k q
      → poll_one vtophys sges submit q ≡ some q'
      → Steady (advanced k) q'
  unfolding poll_one
  poll_one-Steady submit k kp q q' s e =
      elim (if_inv (q.tr (q.cpl q.cq_head).cid).active
        (complete_tracker submit q (q.cpl q.cq_head).cid (q.cpl q.cq_head) >>= λ q1.
          some (advance q1))
        none e) [
          | inl (a, p) ↦
              let (q1, e1, p1) =
                >>=-eq-some (complete_tracker submit q (q.cpl q.cq_head).cid (q.cpl q.cq_head)) _
                  p in
              subst (Steady (advanced k)) (some_inj p1) (
                advance-Steady (
                  complete_tracker-Steady k submit kp q (q.cpl q.cq_head).cid (q.cpl q.cq_head) q1 s
                    (s.owned _ a) refl e1))
          | inr (_, p) ↦ absurd (none-ne-some p)
        ]

  -- What a loop leaves that has taken `taken` completions of the `m` posted.
  abbrev Taken : Consumer → ℕ → ℕ → ℕ → Qpair → Type 0
  Taken k m taken num' q' =
      (k' : Consumer) × Steady k' q' × (k'.entries ≡ k.entries) × Tracks m taken k'

  stopped :
      (k : Consumer) (q : Qpair) (num m c c' num' : ℕ) (q' : Qpair)
      → Steady k q
      → Tracks m c k
      → c' ≡ c
      → ◌≡◌ {A = Option (ℕ × Qpair)} (some (num, q)) (some (num', q'))
      → Taken k m c' num' q' × (num' ≡ num)
  stopped k q num m c c' num' q' s t same e = (
    (
      k,
      subst (Steady k) (ap (λ w. w.1) (some_inj e)) s,
      refl,
      subst (λ x. Tracks m x k) (sym same) t,
    ),
    sym (ap (λ w. w.0) (some_inj e)),
  )

  poll_loop-Taken :
      (submit : Submit)
      → ((k : Consumer) → Keeps k submit)
      → (n : ℕ) (q : Qpair) (num num' m c : ℕ) (q' : Qpair) (k : Consumer) → Steady k q
      → Tracks m c k
      → 0 < k.entries
      → c ≤ m
      → m ≤ c + k.entries
      → poll_loop vtophys sges submit n q num ≡ some (num', q')
      → Taken k m (c + min n (m - c)) num' q' × (num' ≡ num + min n (m - c))
  unfolding poll_loop
  poll_loop-Taken submit kp zero q num num' m c q' k s t pos lo hi e =
      let (w, r) = stopped k q num m c (c + min 0 (m - c)) num' q' s t (omega arith) e in
      (w, omega (arith, r))
  poll_loop-Taken submit kp (suc n) q num num' m c q' k s t pos lo hi e =
      elim (if_inv ((q.cpl q.cq_head).p == q.phase)
        (poll_one vtophys sges submit q >>= λ q1. poll_loop vtophys sges submit n q1 (num + 1))
        (some (num, q)) e) [
          | inl (b, p) ↦
              let (q1, e1, p1) = >>=-eq-some (poll_one vtophys sges submit q) _ p in
              let less = ltb→lt c m (sym (test) ∙ b) in
              let ((k', s', en, t'), r) =
                poll_loop-Taken submit kp n q1 (num + 1) num' m (c + 1) q' (advanced k)
                  (poll_one-Steady submit k (kp k) q q1 s e1) (advanced-Tracks m c k pos t) pos
                  (omega arith) (omega arith) p1 in
              (
                (
                  k',
                  s',
                  en,
                  subst (λ x. Tracks m x k') {x = c + 1 + min n (m - (c + 1))} (omega arith) t',
                ),
                omega (arith, r),
              )
          | inr (b, p) ↦
              let none_left : m ≡ c = all_taken (sym test ∙ b) in
              let (w, r) =
                stopped k q num m c (c + min (suc n) (m - c)) num' q' s t (omega arith) p in
              (w, omega (arith, r))
        ]
    where
      test : ((q.cpl q.cq_head).p == q.phase) ≡ ltb c m
      test =
          subst (λ (x : Consumer). ((x.cpl x.cq_head).p == x.phase) ≡ ltb c m) (sym s.consumer)
            (fresh-test m c k pos t lo hi)

      all_taken : ltb c m ≡ false → m ≡ c
      all_taken b = ground arith

  -- nvme_qpair_poll on an enabled queue pair that has taken `c` of the `m` completions posted, at
  -- most a ring more: if it returns, it has taken what was there, up to the limit, and it keeps the
  -- invariant and goes on tracking the ring.
  pub poll-takes :
      (fuel : ℕ) (q : Qpair) (max_completions num m c : ℕ) (q' : Qpair)
      → IsSteady q
      → Tracks m c (consumer_of q)
      → c ≤ m
      → m ≤ c + q.entries
      → poll vtophys sges (submit_request vtophys sges fuel) q max_completions ≡ some (num, q')
      → (num ≡ min (poll_limit q max_completions) (m - c))
        × IsSteady q'
        × (q'.entries ≡ q.entries)
        × Tracks m (c + num) (consumer_of q')
  unfolding poll poll_ready
  poll-takes fuel q max num m c q' s t lo hi e =
      let (q1, e1, p1) = >>=-eq-some (ensure_enabled submit q) _ e in
      polled (
        subst (λ x. poll_ready vtophys sges submit max x ≡ some (num, q'))
          (sym (ensure_enabled-Steady (consumer_of q) submit q q1 s e1)) p1)
    where
      submit : Submit
      submit = submit_request vtophys sges fuel

      polled :
          poll_ready vtophys sges submit max q ≡ some (num, q')
          → (num ≡ min (poll_limit q max) (m - c))
            × IsSteady q'
            × (q'.entries ≡ q.entries)
            × Tracks m (c + num) (consumer_of q')
      polled p =
          elim (if_inv q.enabled
            (poll_loop vtophys sges submit (poll_limit q max) q 0 >>= λ res.
              some (res.0, ring_cq res.0 res.1))
            (some (0, q)) p) [
              | inl (_, p1) ↦
                  let ((n, q2), e2, p2) =
                    >>=-eq-some (poll_loop vtophys sges submit (poll_limit q max) q 0) _ p1 in
                  let ((k', s', en, t'), r) =
                    poll_loop-Taken submit (λ k. submit_request-Steady k vtophys sges fuel)
                      (poll_limit q max) q 0 n m c q2 (consumer_of q) s t (omega (arith, s.head_in))
                      lo hi e2 in
                  let same : n ≡ num = ap (λ w. w.0) (some_inj p2) in
                  let last =
                    subst (Steady k') (ap (λ w. w.1) (some_inj p2)) (ring_cq-Steady n s') in
                  (
                    omega (arith, r, same),
                    subst (λ x. Steady x q') (sym last.consumer) last,
                    ap (λ (x : Consumer). x.entries) last.consumer ∙ en,
                    subst (Tracks m (c + num)) (sym last.consumer) (
                        subst (λ x. Tracks m x k') {x = c + min (poll_limit q max) (m - c)}
                          (omega (arith, r, same)) t'),
                  )
              | inr (off, _) ↦ absurd (true-ne-false (sym s.on ∙ off))
            ]
