-- ===== src/Mux.antt =====
-- src/Multiplexer.h and src/Multiplexer.cc: the passing of a packet up through the layers.
--
-- A multiplexer is a number. How they are linked does not change while packets are forwarded, so
-- `up` is a parameter: the multiplexer above under a key, if it was added and is still there. What
-- the protocols do is a parameter too, the checkers and packet functions that they register. These
-- set the header sizes and the next protocols of the multiplexers, and their own state, `upper`. A
-- packet function may forward further packets, from any multiplexer, before it returns: the packets
-- in a tunnel (src/protocols/gprs, vxlan and openflow), that of a flow which an analyser of the
-- function's flows passes on. So a packet function is the sequence of such calls that it makes.
pub mod Ends
pub mod Tests
use aiengine_rewritten_clean.Prelude.{
  ℕ, zero, suc, Bool, true, false, Option, none, some, ◌==◌, if◌then◌else◌, inc64,
}
use aiengine_rewritten_clean.Packet.{Packet, strip}

-- `total_received_packets_`, `total_forward_packets_` and `total_fail_packets_`.
pub record Counters : Type 0 where
  pub received : ℕ
  pub forward : ℕ
  pub fail : ℕ

-- `header_size_` and `next_protocol_id_` of each multiplexer.
pub record Cells (X : Type 0) : Type 0 where
  pub header_size : ℕ → ℕ
  pub next_protocol_id : ℕ → ℕ
  pub upper : X

pub record Muxes (X : Type 0) : Type 0 where
  pub counters : ℕ → Counters
  pub cells : Cells X

-- What a packet function does: it returns, with the packet and the cells as it leaves them, or it
-- calls `forwardPacket` of a multiplexer, and goes on with the packet and the cells after that.
pub data Call (X : Type 0) : Type 0 where
  returns : Bool → Packet → Cells X → Call X
  forwards : ℕ → Packet → Cells X → (Packet → Cells X → Call X) → Call X

-- `muxUpMap_`, and `check_func_` and `packet_func_`, of each multiplexer.
pub record Network (X : Type 0) : Type 0 where
  pub up : ℕ → ℕ → Option ℕ
  pub check_func : ℕ → Packet → Cells X → Bool × Packet × Cells X
  pub packet_func : ℕ → Packet → Cells X → Call X

abbrev pub count_received : Counters → Counters
count_received c = record c { received = inc64 c.received }

abbrev pub count_forward : Counters → Counters
count_forward c = record c { forward = inc64 c.forward }

abbrev pub count_fail : Counters → Counters
count_fail c = record c { fail = inc64 c.fail }

-- `packet.setEvidence(pkt_candidate.haveEvidence())`, if it has.
abbrev pub copy_evidence : Packet → Packet → Packet
copy_evidence candidate packet =
    if candidate.have_evidence then record packet { have_evidence = true } else packet

-- `forwardPacket` of a multiplexer; `none` is out of rounds.
abbrev pub Forward : Type 0 → Type 0
Forward X = ℕ → Packet → Muxes X → Option (Packet × Muxes X)

module _ {X : Type 0} where
  abbrev pub count_at : (Counters → Counters) → ℕ → Muxes X → Muxes X
  count_at g this s = record s {
    counters = λ q. if q == this then g (s.counters q) else s.counters q;
  }

  abbrev pub with_cells : Cells X → Muxes X → Muxes X
  with_cells c s = record s { cells = c }

  -- A packet function is carried out: `some` is the packet, if it was accepted.
  unfoldable pub perform : Forward X → Call X → Muxes X → Option (Option Packet × Muxes X)
  perform forward (returns taken p c) s = some (if taken then some p else none, with_cells c s)
  perform forward (forwards mux p c next) s = elim (forward mux p (with_cells c s)) [
    | none ↦ none
    | some (p', t) ↦ perform forward (next p' t.cells) t
  ]

  abbrev pub accepted :
      Forward X
      → (Packet → Cells X → Call X)
      → Muxes X
      → Bool × Packet × Cells X
      → Option (Option Packet × Muxes X)
  accepted forward func s (false, p, c) = some (none, with_cells c s)
  accepted forward func s (true, p, c) = perform forward (func p c) (with_cells c s)

  -- A packet is offered to the multiplexer above.
  unfoldable pub offer :
      Forward X → Network X → ℕ → Packet → Muxes X → Option (Option Packet × Muxes X)
  unfolding perform
  offer forward net mux candidate s =
      accepted forward (net.packet_func mux) s (net.check_func mux candidate s.cells)

  unfoldable pub with_evidence : Packet → Option (Packet × Muxes X) → Option (Packet × Muxes X)
  with_evidence packet none = none
  with_evidence packet (some (p, s)) = some (copy_evidence p packet, s)

  -- From the answer of the multiplexer above on.
  unfoldable pub pass_on :
      Forward X → ℕ → ℕ → Packet → Option (Option Packet × Muxes X) → Option (Packet × Muxes X)
  unfolding with_evidence
  pass_on forward this mux packet none = none
  pass_on forward this mux packet (some (none, s)) = some (packet, s)
  pass_on forward this mux packet (some (some p, s)) =
      with_evidence packet (forward mux p (count_at count_forward this s))

  -- `forwardPacket(packet)` of a multiplexer, with rounds to go; `none` is out of rounds.
  unfoldable pub forward_packet : Network X → ℕ → ℕ → Packet → Muxes X → Option (Packet × Muxes X)
  unfolding offer strip pass_on
  forward_packet net zero this packet s = none
  forward_packet net (suc n) this packet s = elim (net.up this (s.cells.next_protocol_id this)) [
    | none ↦ some (packet, count_at count_fail this (count_at count_received this s))
    | some mux ↦
        pass_on (λ q p t. forward_packet net n q p t) this mux packet
          (offer (λ q p t. forward_packet net n q p t) net mux
            (strip (s.cells.header_size this) packet) (count_at count_received this s))
  ]
