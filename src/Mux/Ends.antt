-- ===== src/Mux/Ends.antt =====
-- The forwarding of src/Multiplexer.cc comes to an end, and each multiplexer counts what it did.
use aiengine_rewritten_clean.Prelude.{
  ℕ, zero, suc, ◌≤◌, ◌<◌, ◌≡◌, ◌≢◌, refl, ap, ◌∙◌, true, false, Bool, if◌then◌else◌, inl, inr,
  Option, none, some, arith, Option-cases,
}
use aiengine_rewritten_clean.Packet.{Packet, strip}
use aiengine_rewritten_clean.Mux.{
  Counters, Cells, Muxes, Call, returns, forwards, Network, Forward, count_received, count_forward,
  count_fail, count_at, with_cells, perform, accepted, offer, with_evidence, pass_on, copy_evidence,
  forward_packet,
}

-- What a multiplexer counts for a packet: it received it, and failed to find one above, or passed
-- it on, or the one above refused it.
pub data Counts (c d : Counters) : Type 0 where
  failed : d ≡ count_fail (count_received c) → Counts c d
  passed : d ≡ count_forward (count_received c) → Counts c d
  refused : d ≡ count_received c → Counts c d

perform-forwards :
    {X : Type 0} (forward : Forward X) (mux : ℕ) (p p' : Packet) (c : Cells X)
    (next : Packet → Cells X → Call X) (s t : Muxes X)
    → forward mux p (with_cells c s) ≡ some (p', t)
    → perform forward (forwards mux p c next) s ≡ perform forward (next p' t.cells) t
unfolding perform
perform-forwards forward mux p p' c next s t e = rw (e, perform) refl

with_evidence-some :
    {X : Type 0} (packet : Packet) (r : Packet × Muxes X)
    → with_evidence packet (some r) ≡ some (copy_evidence r.0 packet, r.1)
unfolding with_evidence
with_evidence-some packet (p, s) = refl

module _ {X : Type 0} (net : Network X) (rank : ℕ → ℕ) where
  -- The links go up: the multiplexer above has a lower rank.
  abbrev pub IsLayered : Type 0
  IsLayered = (m k q : ℕ) → net.up m k ≡ some q → rank q < rank m

  -- The multiplexers that a packet function calls have a rank of at most `r`.
  abbrev pub Within : ℕ → Call X → Type 0
  Within r (returns taken p c) = Unit {0}
  Within r (forwards mux p c next) =
      (rank mux ≤ r) × ((p' : Packet) (c' : Cells X) → Within r (next p' c'))

  -- A packet function calls no multiplexer of a higher rank than that of its own.
  abbrev pub IsNested : Type 0
  IsNested = (mux : ℕ) (p : Packet) (c : Cells X) → Within (rank mux) (net.packet_func mux p c)

  -- The counters that a packet leaves: those of the multiplexer it came to, and the others that are
  -- not of a lower rank.
  pub record Counted (this : ℕ) (s t : Muxes X) : Type 0 where
    pub here : Counts (s.counters this) (t.counters this)
    pub others : (q : ℕ) → rank this ≤ rank q → q ≢ this → t.counters q ≡ s.counters q

  -- Whatever number of rounds is given, if it is enough, the result is this.
  abbrev pub Result : ℕ → Packet → Muxes X → Packet × Muxes X → Type 0
  Result this packet s r = (n : ℕ) → rank this < n → forward_packet net n this packet s ≡ some r

  abbrev Ends : ℕ → Packet → Muxes X → Type 0
  Ends this packet s = (r : Packet × Muxes X) × Result this packet s r × Counted this s r.1

  -- With rounds to go.
  abbrev rounds : ℕ → Forward X
  rounds n q p t = forward_packet net n q p t

  -- The counters of the ranks above `r` are kept.
  abbrev Kept : ℕ → Muxes X → Muxes X → Type 0
  Kept r s t = (q : ℕ) → r < rank q → t.counters q ≡ s.counters q

  -- A computation ends with enough rounds, and keeps the counters of the ranks above `r`.
  record Quiet {Y : Type 0} (r : ℕ) (s : Muxes X) (f : ℕ → Option (Y × Muxes X)) : Type 0 where
    value : Y
    after : Muxes X
    result : (n : ℕ) → r < n → f n ≡ some (value, after)
    kept : Kept r s after

  Counted-Kept : (r this : ℕ) (s t : Muxes X) → rank this ≤ r → Counted this s t → Kept r s t
  Counted-Kept r this s t h c q above =
      c.others q (omega (arith, h, above)) (λ e. omega (arith, ap rank e, above, h))

  perform-Quiet :
      (r : ℕ) (call : Call X) (s : Muxes X)
      → ((q : ℕ) (p : Packet) (t : Muxes X) → rank q ≤ r → Ends q p t)
      → Within r call
      → Quiet r s (λ n. perform (rounds n) call s)
  unfolding perform
  perform-Quiet r (returns taken p c) s ih h = record {
    value = if taken then some p else none;
    after = with_cells c s;
    result = λ n lt. refl;
    kept = λ q above. refl;
  }
  perform-Quiet r (forwards mux p c next) s ih h =
      let (o, ends, counted) = ih mux p (with_cells c s) h.0 in
      let k = Counted-Kept r mux (with_cells c s) o.1 h.0 counted in
      let rest = perform-Quiet r (next o.0 o.1.cells) o.1 ih (h.1 o.0 o.1.cells) in
      record {
        value = rest.value;
        after = rest.after;
        result = λ n lt.
            perform-forwards (rounds n) mux p o.0 c next s o.1 (ends n (omega (arith, lt, h.0)))
            ∙ rest.result n lt;
        kept = λ q above. rest.kept q above ∙ k q above;
      }

  accepted-Quiet :
      (mux : ℕ) (s : Muxes X) (answer : Bool × Packet × Cells X)
      → IsNested
      → ((q : ℕ) (p : Packet) (t : Muxes X) → rank q ≤ rank mux → Ends q p t)
      → Quiet (rank mux) s (λ n. accepted (rounds n) (net.packet_func mux) s answer)
  accepted-Quiet mux s (false, p, c) nested ih = record {
    value = none;
    after = with_cells c s;
    result = λ n lt. refl;
    kept = λ q above. refl;
  }
  accepted-Quiet mux s (true, p, c) nested ih =
      let rest =
        perform-Quiet (rank mux) (net.packet_func mux p c) (with_cells c s) ih (nested mux p c) in
      record { value = rest.value; after = rest.after; result = rest.result; kept = rest.kept }

  -- The multiplexer above is offered the packet, and passes it on if it took it.
  pass_on-Quiet :
      (this mux : ℕ) (packet : Packet) (s t : Muxes X) (taken : Option Packet)
      → rank mux < rank this
      → Kept (rank mux) (count_at count_received this s) t
      → ((q : ℕ) (p : Packet) (u : Muxes X) → rank q ≤ rank mux → Ends q p u)
      → (r : Packet × Muxes X) × ((n : ℕ)
          → rank mux < n
          → pass_on (rounds n) this mux packet (some (taken, t)) ≡ some r)
        × Counted this s r.1
  unfolding pass_on
  pass_on-Quiet this mux packet s t none lower k ih = (
    (packet, t),
    λ n lt. refl,
    record {
      here = refused (k this lower ∙ ground arith);
      others = λ q above other. k q (omega (arith, lower, above)) ∙ ground arith;
    },
  )
  pass_on-Quiet this mux packet s t (some p) lower k ih =
      let (r, ends, c) = ih mux p (count_at count_forward this t) (omega arith) in
      let after = Counted-Kept (rank mux) mux (count_at count_forward this t) r.1 (omega arith) c in
      let mine = after this lower in
      let mine' = k this lower in
      (
        (copy_evidence r.0 packet, r.1),
        λ n lt. ap (with_evidence packet) (ends n lt) ∙ with_evidence-some packet r,
        record {
          here = passed (mine ∙ ground (arith, mine'));
          others = λ q above other.
              after q (omega (arith, lower, above))
              ∙ ground (arith, k q (omega (arith, lower, above)));
        },
      )

  alone :
      (this : ℕ) (packet : Packet) (s : Muxes X)
      → net.up this (s.cells.next_protocol_id this) ≡ none
      → Ends this packet s
  unfolding forward_packet
  alone this packet s e = (
    (packet, count_at count_fail this (count_at count_received this s)),
    elim [ zero ↦ λ lt. absurd (omega (arith, lt)) | suc n ↦ λ lt. rw (e, forward_packet) refl ],
    record { here = failed (ground arith); others = λ q above other. ground arith },
  )

  forward_packet-up :
      (n this mux : ℕ) (packet : Packet) (s : Muxes X)
      → net.up this (s.cells.next_protocol_id this) ≡ some mux
      → forward_packet net (suc n) this packet s
        ≡ pass_on (rounds n) this mux packet (
            offer
              (rounds n)
              net
              mux
              (strip (s.cells.header_size this) packet)
              (count_at count_received this s))
  unfolding forward_packet
  forward_packet-up n this mux packet s e = rw (e, forward_packet) refl

  step_up :
      (this mux : ℕ) (packet : Packet) (s : Muxes X)
      → net.up this (s.cells.next_protocol_id this) ≡ some mux
      → rank mux < rank this
      → IsNested
      → ((q : ℕ) (p : Packet) (t : Muxes X) → rank q ≤ rank mux → Ends q p t)
      → Ends this packet s
  unfolding offer
  step_up this mux packet s e lower nested ih =
      let candidate = strip (s.cells.header_size this) packet in
      let o =
        accepted-Quiet mux (count_at count_received this s) (net.check_func mux candidate s.cells)
          nested ih in
      let (r, ends, c) = pass_on-Quiet this mux packet s o.after o.value lower o.kept ih in
      (
        r,
        elim [
          | zero ↦ λ lt. absurd (omega (arith, lt))
          | suc n ↦ λ lt.
              forward_packet-up n this mux packet s e
              ∙ ap (pass_on (rounds n) this mux packet) (o.result n (omega (arith, lt, lower)))
              ∙ ends n (omega (arith, lt, lower))
        ],
        c,
      )

  -- The forwarding of a packet ends if the links go up and no packet function calls a multiplexer of
  -- a higher rank than that of its own: after no more rounds than the rank of the multiplexer that
  -- it starts at and one more, and with that many rounds or any greater number the result is the
  -- same. This multiplexer has then counted the packet as received, and either as failed, or as
  -- forwarded, or as neither, and no other multiplexer of the same or a higher rank has counted
  -- anything, whatever the packet functions forwarded.
  pub forward_packet-Counted :
      IsLayered
      → IsNested
      → (bound this : ℕ) (packet : Packet) (s : Muxes X) → rank this < bound
      → (r : Packet × Muxes X) × Result this packet s r × Counted this s r.1
  forward_packet-Counted layered nested zero this packet s h = absurd (omega arith)
  forward_packet-Counted layered nested (suc bound) this packet s h =
      elim (Option-cases (net.up this (s.cells.next_protocol_id this))) [
        | inl e ↦ alone this packet s e
        | inr (mux, e) ↦
            let lower = layered this _ mux e in
            step_up this mux packet s e lower nested (λ q p t below.
              forward_packet-Counted layered nested bound q p t (omega (arith, below, lower, h)))
      ]
