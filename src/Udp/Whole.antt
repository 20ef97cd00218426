-- ===== src/Udp/Whole.antt =====
-- `getFlow` and `processPacket` of src/protocols/udp/UDPProtocol.cc on any datagrams.
use aiengine_rewritten_clean.Prelude.{
  ℕ, ◌≡◌, refl, ◌∙◌, inl, inr, true, false, Option, none, some, List, [], ◌∷◌, arith, Bool-cases,
  Option-cases, if◌then◌else◌, inc64,
}
use aiengine_rewritten_clean.Cache.{Outcome, ok, ◌>>=◌}
use aiengine_rewritten_clean.Packet.{Packet}
use aiengine_rewritten_clean.Table.{FlowIndex, Store, lookup}
use aiengine_rewritten_clean.Table.Timers.{entries_of}
use aiengine_rewritten_clean.Table.Owned.{IsOwned}
use aiengine_rewritten_clean.Tcp.Info.{TcpInfo}
use aiengine_rewritten_clean.Tcp.Flows.{
  IpMux, conversation, direction_of, set_flow_direction, update_flow, open_flow,
}
use aiengine_rewritten_clean.Tcp.Serving.{find_flow-lookup}
use aiengine_rewritten_clean.Tcp.Opening.{update_flow-IsOwned, open_flow_cases}
use aiengine_rewritten_clean.Tcp.Process.{Handlers}
use aiengine_rewritten_clean.Tcp.Steps.{IsCareful}
use aiengine_rewritten_clean.Udp.{UdpHeader, UdpProtocol, get_flow}
use aiengine_rewritten_clean.Udp.Process.{World, process_packet}
use aiengine_rewritten_clean.Udp.Sound.{with_flow-IsOwned}

-- The conversation of a datagram, by which its flow is found.
abbrev key : Packet → IpMux → UdpHeader → ℕ
key packet ipmux h = conversation 17 packet ipmux.address h.source_port h.dest_port

module _ (I : FlowIndex) where
  -- A flow that is returned is in the table, under its identifier.
  abbrev InTable : Option ℕ → Store I TcpInfo → Type 0
  InTable none s = Unit {0}
  InTable (some f) s = lookup (s.flows.heap f).hash (entries_of I s) ≡ some f

  pub record Served (r : Outcome (Option ℕ × Store I TcpInfo)) : Type 0 where
    pub flow : Option ℕ
    pub store : Store I TcpInfo
    pub result : r ≡ ok (flow, store)
    pub owned : IsOwned I store
    pub there : InTable flow store

  found-InTable :
      (k f : ℕ) (s : Store I TcpInfo)
      → IsOwned I s
      → lookup k (entries_of I s) ≡ some f
      → InTable (some f) s
  found-InTable k f s o found = rw (o.named k f found) found

  module _ (u : UdpProtocol) (packet : Packet) (ipmux : IpMux) (h : UdpHeader)
      (s : Store I TcpInfo) where
    abbrev call : Outcome (Option ℕ × Store I TcpInfo)
    call = get_flow I u packet ipmux h s

    abbrev opened : Outcome (Option ℕ × Store I TcpInfo)
    opened =
        open_flow I 17 (key packet ipmux h) u.sigs u.packet_time packet ipmux.address h.source_port
          h.dest_port s

    off : u.has_table ≡ false → call ≡ ok (none, s)
    unfolding get_flow
    off e = rw e refl

    at_found :
        (f : ℕ)
        → u.has_table ≡ true
        → lookup (key packet ipmux h) (entries_of I s) ≡ some f
        → call
          ≡ ok (
            some f,
            record s {
              flows =
                  update_flow f (λ g. set_flow_direction (direction_of h.source_port g) g) s.flows;
            },
          )
    unfolding get_flow
    at_found f on found =
        ground (arith, find_flow-lookup I 17 packet ipmux.address h.source_port h.dest_port s)

    at_missing :
        u.has_table ≡ true
        → lookup (key packet ipmux h) (entries_of I s) ≡ none
        → call ≡ (if u.has_cache then opened else ok (none, s))
    unfolding get_flow
    at_missing on new =
        ground (arith, find_flow-lookup I 17 packet ipmux.address h.source_port h.dest_port s)

    get_flow-Served : IsOwned I s → Served call
    get_flow-Served o = elim (Bool-cases u.has_table) [
      | inr no_table ↦ record {
        flow = none;
        store = s;
        result = off no_table;
        owned = o;
        there = tt;
      }
      | inl on ↦ elim (Option-cases (lookup (key packet ipmux h) (entries_of I s))) [
        | inr (f, found) ↦
            let turned =
              update_flow-IsOwned I f (λ g. set_flow_direction (direction_of h.source_port g) g) s
                (λ g. refl) o in
            record {
              flow = some f;
              store = _;
              result = at_found f on found;
              owned = turned;
              there = found-InTable (key packet ipmux h) f _ turned found;
            }
        | inl new ↦ elim (Bool-cases u.has_cache) [
          | inr no_cache ↦ record {
            flow = none;
            store = s;
            result = at_missing on new ∙ rw no_cache refl;
            owned = o;
            there = tt;
          }
          | inl cached ↦
              elim (open_flow_cases I 17 (key packet ipmux h) u.sigs u.packet_time packet
                ipmux.address h.source_port h.dest_port s o new) [
                  | inl (c, e, o', _) ↦ record {
                    flow = none;
                    store = record s { flows = c };
                    result = at_missing on new ∙ rw cached e;
                    owned = o';
                    there = tt;
                  }
                  | inr (f, s', e, op) ↦ record {
                    flow = some f;
                    store = s';
                    result = at_missing on new ∙ rw cached e;
                    owned = op.owned;
                    there = found-InTable (key packet ipmux h) f s' op.owned op.found;
                  }
                ]
        ]
      ]
    ]

module _ (I : FlowIndex) {X : Type 0} where
  process_packet-IsOwned :
      (handlers : Handlers X) (ipmux : IpMux) (h : UdpHeader) (packet : Packet) (w : World I X)
      → IsCareful handlers
      → IsOwned I w.store
      → (p : Packet) × (w' : World I X) × (process_packet I handlers ipmux h packet w ≡ ok (p, w'))
        × IsOwned I w'.store
  unfolding process_packet
  process_packet-IsOwned handlers ipmux h packet w careful o =
      let r = get_flow-Served I timed packet ipmux h w.store o in
      served r.flow r.store r.result r.owned r.there
    where
      timed : UdpProtocol
      timed = let u = w.proto in record u { packet_time = packet.packet_time }

      after : Store I TcpInfo → World I X
      after s = record w {
        proto = record timed { total_packets = inc64 timed.total_packets };
        store = s;
      }

      served :
          (f : Option ℕ) (s : Store I TcpInfo)
          → get_flow I timed packet ipmux h w.store ≡ ok (f, s)
          → IsOwned I s
          → InTable I f s
          → (p : Packet) × (w' : World I X) × (process_packet I handlers ipmux h packet w
              ≡ ok (p, w'))
            × IsOwned I w'.store
      served none s e o' there = (packet, after s, rw (e, process_packet) refl, o')
      served (some f) s e o' there =
          let (p, w', e', o2) =
            with_flow-IsOwned I handlers h packet f (after s) careful
              (record { owned = o'; found = there }) in
          (p, w', rw (e, process_packet) e', o2)

  -- Datagrams one after the other, each with what the layer below says of it.
  unfoldable pub process_all :
      Handlers X → List (IpMux × UdpHeader × Packet) → World I X → Outcome (World I X)
  unfolding process_packet
  process_all handlers [] w = ok w
  process_all handlers ((ipmux, h, packet) ∷ rest) w = do
    (p, w') ← process_packet I handlers ipmux h packet w
    process_all handlers rest w'

  -- From a store whose flows are apart, with analysers that are careful, no sequence of datagrams
  -- makes processPacket of UDP meet a null pointer, and the flows are apart after it: none is in
  -- the table twice, or in the table and spare, and each is under its own identifier.
  pub process_all-IsOwned :
      (handlers : Handlers X) (datagrams : List (IpMux × UdpHeader × Packet)) (w : World I X)
      → IsCareful handlers
      → IsOwned I w.store
      → (w' : World I X) × (process_all handlers datagrams w ≡ ok w') × IsOwned I w'.store
  unfolding process_all
  process_all-IsOwned handlers [] w careful o = (w, refl, o)
  process_all-IsOwned handlers ((ipmux, h, packet) ∷ rest) w careful o =
      let (p, w1, e1, o1) = process_packet-IsOwned handlers ipmux h packet w careful o in
      let (w2, e2, o2) = process_all-IsOwned handlers rest w1 careful o1 in (w2, rw e1 e2, o2)
