-- ===== src/Mux/Tests.antt =====
-- src/Multiplexer.cc on three layers: Ethernet, IP and TCP.
use aiengine_rewritten_clean.Prelude.{
  ℕ, Bool, false, ◌-◌, ◌≡◌, refl, true, Option, none, some, [], ◌∷◌, arith, ◌==◌, if◌then◌else◌,
  ◌+◌,
}
use aiengine_rewritten_clean.Prelude.Int.{pos}
use aiengine_rewritten_clean.Anomaly.{no_anomaly}
use aiengine_rewritten_clean.Packet.{Packet, make}
use aiengine_rewritten_clean.Mux.{Cells, Muxes, Call, returns, forwards, Network, forward_packet}
use aiengine_rewritten_clean.Mux.Ends.{
  IsLayered, IsNested, Within, Result, Counted, forward_packet-Counted,
}

-- As in src/StackMobile.cc: Ethernet (0), IP (1) and UDP (2), whose flows are analysed as GPRS, the
-- multiplexer 3, from where the packet in the tunnel goes up to a second IP layer, 4. The first
-- three are linked, and so are the last two. Each layer accepts every packet.
abbrev in_tunnel : Packet → Cells ℕ → Call ℕ
in_tunnel p c = forwards 3 p c (λ p' c'. returns true p' (record c' { upper = c'.upper + 1 }))

abbrev layers : Network ℕ
layers = record {
  up = λ m k.
      if m == 0
      then (if k == 0x800 then some 1 else none)
      else (if m == 1
          then (if k == 17 then some 2 else none)
          else (if m == 3 then (if k == 0x800 then some 4 else none) else none));
  check_func = λ m p c. (true, p, c);
  packet_func = λ m p c. if m == 2 then in_tunnel p c else returns true p c;
}

abbrev rank : ℕ → ℕ
rank m = 4 - m

layers-IsLayered : IsLayered layers rank
layers-IsLayered m k q e = ground arith

nested_at :
    (b : Bool) (m : ℕ) (p : Packet) (c : Cells ℕ)
    → (b ≡ (m == 2))
    → Within layers rank (rank m) (if b then in_tunnel p c else returns true p c)
nested_at true m p c e = (ground arith, λ p' c'. tt)
nested_at false m p c e = tt

layers-IsNested : IsNested layers rank
layers-IsNested m p c = nested_at (m == 2) m p c refl

abbrev start : Muxes ℕ
start = record {
  counters = λ m. record { received = 0; forward = 0; fail = 0 };
  cells = record {
    header_size = λ m. if m == 0 then 2 else 1;
    next_protocol_id = λ m. if m == 1 then 17 else 0x800;
    upper = 0;
  };
}

abbrev packet : Packet
packet = make (1 ∷ 2 ∷ 3 ∷ 4 ∷ 5 ∷ 6 ∷ []) (pos 6) (pos 0) no_anomaly 7

abbrev received_at : ℕ → Option (Packet × Muxes ℕ) → ℕ
received_at m none = 0
received_at m (some (p, s)) = (s.counters m).received

-- The packet comes to UDP, and to the second IP layer.
arrives :
    (received_at 2 (forward_packet layers 5 0 packet start) ≡ 1)
    × (received_at 4 (forward_packet layers 5 0 packet start) ≡ 1)
unfolding forward_packet
arrives = (refl, refl)

forward_packet-Counted_example :
    (r : Packet × Muxes ℕ) × Result layers rank 0 packet start r × Counted layers rank 0 start r.1
forward_packet-Counted_example =
    forward_packet-Counted layers rank layers-IsLayered layers-IsNested 5 0 packet start
      (omega arith)
