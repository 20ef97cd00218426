-- ===== src/Udp/Process.antt =====
-- `processPacket` of src/protocols/udp/UDPProtocol.cc.
use aiengine_rewritten_clean.Prelude.{
  ℕ, ◌+◌, ◌-◌, ◌%◌, ◌^◌, Bool, true, false, Option, none, some, ◌==◌, if◌then◌else◌, inc32, inc64,
  u64, ltb,
}
use aiengine_rewritten_clean.Prelude.Int.{ℤ, pos, pos_part, neg_part, ◌-ℤ◌, ltb_ℤ}
use aiengine_rewritten_clean.Cache.{Outcome, ok, ◌>>=◌}
use aiengine_rewritten_clean.Anomaly.{Hits}
use aiengine_rewritten_clean.Flow.{Flow}
use aiengine_rewritten_clean.Packet.{Packet, strip}
use aiengine_rewritten_clean.Table.{
  FlowIndex, Store, update_flow_time, update_timers, set_last_packet_time,
}
use aiengine_rewritten_clean.Tcp.Info.{TcpInfo}
use aiengine_rewritten_clean.Tcp.Compute.{add_bytes}
use aiengine_rewritten_clean.Tcp.Flows.{IpMux, update_flow}
use aiengine_rewritten_clean.Tcp.Process.{Handlers, Above, attach_set}
use aiengine_rewritten_clean.Tcp.Dispatch.{with_packet, wanted}
use aiengine_rewritten_clean.Udp.{UdpHeader, UdpProtocol, get_flow, counted, anomaly_of, hits_of}

pub record World (I : FlowIndex) (X : Type 0) : Type 0 where
  pub proto : UdpProtocol
  pub store : Store I TcpInfo
  pub hits : Hits
  pub upper : X

-- `total_bytes_ += bytes` on an int64_t.
abbrev pub add_total : ℕ → ℤ → ℕ
add_total n b = u64 (n + pos_part b + (2 ^ 64 - neg_part b % 2 ^ 64))

-- What is counted for the flow.
unfoldable pub account : UdpHeader → Packet → Flow → Flow
account h packet f = record f {
  total_bytes = add_bytes f.total_bytes (counted h packet);
  total_packets = inc32 f.total_packets;
  pa = anomaly_of h packet f.pa;
}

-- The packet as the layer above sees it: the header has 8 bytes.
unfoldable pub to_upper : UdpHeader → Packet → Packet
unfolding strip
to_upper h packet =
    let p = strip 8 packet in
    record p { prev_header_size = pos 8; dest_port = h.dest_port; source_port = h.source_port }

-- A rejected flow: at first wholly, and then in part.
abbrev pub after_reject : Flow → Flow
after_reject f =
    if f.partial_reject then record f { reject = false } else record f { partial_reject = true }

-- `total_packets % flowTimeRefreshRate == 1`, on a signed counter.
abbrev pub refresh_due : ℕ → Bool
refresh_due n = if ltb n (2 ^ 31) then n % 64 == 1 else false

module _ (I : FlowIndex) {X : Type 0} where
  abbrev pub flow_at : World I X → ℕ → Flow
  flow_at w f = w.store.flows.heap f

  abbrev pub change : ℕ → (Flow → Flow) → World I X → World I X
  change f g w = record w {
    store = let s = w.store in record s { flows = update_flow f g s.flows };
  }

  -- The datagram is counted, by the protocol, the flow and the anomalies.
  unfoldable pub count_datagram : UdpHeader → Packet → ℕ → World I X → World I X
  unfolding account
  count_datagram h packet f w = change f (account h packet) (record w {
    proto =
        let u = w.proto in record u { total_bytes = add_total u.total_bytes (counted h packet) };
    hits = hits_of h packet w.hits;
  })

  -- The lookup of the destination, once for a flow.
  abbrev pub matched : ℕ → Option (ℕ × Option ℕ) × X → World I X → World I X
  matched f (none, x) w = record w { upper = x }
  matched f (some (set, m), x) w = change f (attach_set set m) (record w { upper = x })

  abbrev pub looked_up : Option (Flow → X → Option (ℕ × Option ℕ) × X) → ℕ → World I X → World I X
  looked_up none f w = w
  looked_up (some lookup) f w = matched f (lookup (flow_at w f) w.upper) w

  unfoldable pub check_ip_set : Handlers X → ℕ → World I X → World I X
  check_ip_set handlers f w =
      if (flow_at w f).total_packets == 1 then looked_up handlers.ipset_mng f w else w

  -- `ff->forwardFlow(flow)`.
  unfoldable pub forward_flow :
      (ℕ → Packet → Above X → Outcome (Above X)) → ℕ → Packet → World I X → Outcome (World I X)
  forward_flow analyse f packet w = do
    a ← analyse f packet (record {
      heap = w.store.flows.heap;
      pools = w.store.pools;
      hits = w.hits;
      upper = w.upper;
    })
    ok (record w {
      store =
          let s = w.store in
          record s { flows = let c = s.flows in record c { heap = a.heap }; pools = a.pools };
      hits = a.hits;
      upper = a.upper;
    })

  -- A datagram with data goes to an analyser, if there is one.
  unfoldable pub dispatch :
      Handlers X → UdpHeader → Packet → ℕ → World I X → Outcome (Packet × World I X)
  unfolding forward_flow to_upper
  dispatch handlers h packet f w = elim (wanted handlers (counted h packet)) [
    | none ↦ ok (packet, w)
    | some analyse ↦ do
      w' ← forward_flow analyse f (to_upper h packet) (change f with_packet w)
      ok (to_upper h packet, w')
  ]

  abbrev pub note_evidence : ℕ → World I X → Packet → Packet
  note_evidence f w packet =
      if (flow_at w f).have_evidence then record packet { have_evidence = true } else packet

  unfoldable pub check_reject : Handlers X → ℕ → World I X → World I X
  check_reject handlers f w =
      if (flow_at w f).reject
      then change f after_reject (record w { upper = handlers.reject_func (flow_at w f) w.upper })
      else w

  -- The timers, or the time of the flow; every 64 datagrams with its place in the index.
  unfoldable pub check_timers : ℕ → World I X → Outcome (World I X)
  unfolding update_timers update_flow_time
  check_timers f w =
      if ltb_ℤ (pos u.last_timeout) (pos u.packet_time -ℤ s.manager.timeout)
      then ok (record w {
        proto = record u { last_timeout = u.packet_time };
        store = update_timers I (pos u.packet_time) s;
      })
      else (if refresh_due (flow_at w f).total_packets
          then moved (update_flow_time I f u.packet_time s)
          else ok (record w {
            store = record s { flows = set_last_packet_time f u.packet_time s.flows };
          }))
    where
      open w use {proto as u, store as s}

      moved : Outcome (Store I TcpInfo) → Outcome (World I X)
      moved r = do s' ← r; ok (record w { store = s' })

  -- The branch `if (flow)`.
  unfoldable pub with_flow :
      Handlers X → UdpHeader → Packet → ℕ → World I X → Outcome (Packet × World I X)
  unfolding count_datagram check_ip_set dispatch check_reject check_timers
  with_flow handlers h packet f w = do
    (p, w1) ← dispatch handlers h packet f (check_ip_set handlers f (count_datagram h packet f w))
    w2 ← check_timers f (check_reject handlers f w1)
    ok (note_evidence f w1 p, w2)

  -- `processPacket(packet)`, which returns true.
  unfoldable pub process_packet :
      Handlers X → IpMux → UdpHeader → Packet → World I X → Outcome (Packet × World I X)
  unfolding with_flow get_flow
  process_packet handlers ipmux h packet w = do
    (o, s) ← get_flow I timed packet ipmux h w.store
    let w' = record w {
      proto = record timed { total_packets = inc64 timed.total_packets };
      store = s;
    }
    elim o [ none ↦ ok (packet, w') | some f ↦ with_flow handlers h packet f w' ]
    where
      timed : UdpProtocol
      timed = let u = w.proto in record u { packet_time = packet.packet_time }
