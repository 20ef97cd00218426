-- ===== src/Tcp/Dispatch.antt =====
-- The end of `processPacket` of src/protocols/tcp/TCPProtocol.cc: the segment goes to an analyser, or
-- its flow is closed; then come evidence, rejection and timers.
use aiengine_rewritten_clean.Prelude.{
  ℕ, true, false, ◌&&◌, Option, none, some, ◌==◌, if◌then◌else◌, inc64, bit_and,
}
use aiengine_rewritten_clean.Prelude.Int.{ℤ, pos, ◌-ℤ◌, ltb_ℤ, ◌==ℤ◌}
use aiengine_rewritten_clean.Cache.{Cache, Outcome, ok, fault, ◌>>=◌, lock}
use aiengine_rewritten_clean.Flow.{Flow}
use aiengine_rewritten_clean.Packet.{Packet, strip}
use aiengine_rewritten_clean.Release.{tcp, live_flow, release_flow}
use aiengine_rewritten_clean.Table.{
  FlowIndex, Store, remove_flow, update_flow_time, update_timers, release_to_cache,
  set_last_packet_time,
}
use aiengine_rewritten_clean.Tcp.States.{closed}
use aiengine_rewritten_clean.Tcp.Info.{TcpInfo}
use aiengine_rewritten_clean.Tcp.Flows.{IpMux, TcpHeader, TcpProtocol, get_flow}
use aiengine_rewritten_clean.Tcp.Process.{
  World, Handlers, Above, hdr_length, flow_at, change, account, compute, check_ip_set,
}

-- The packet as the layer above sees it.
unfoldable pub to_upper : TcpHeader → Packet → Packet
unfolding strip
to_upper h packet =
    let p = strip (hdr_length h) packet in
    record p {
      prev_header_size = pos (hdr_length h);
      dest_port = h.dest_port;
      source_port = h.source_port;
    }

-- The bytes of data of a segment.
abbrev pub bytes_of : IpMux → TcpHeader → ℤ
bytes_of ipmux h = pos ipmux.total_length -ℤ pos ipmux.header_size -ℤ pos (hdr_length h)

-- `flow->packet = &packet`: there is one packet at a time.
abbrev pub with_packet : Flow → Flow
with_packet g = record g { links = let l = g.links in record l { packet = some 0 } }

-- The segment has data for an analyser.
abbrev pub wanted :
    {X : Type 0} → Handlers X → ℤ → Option (ℕ → Packet → Above X → Outcome (Above X))
wanted handlers bytes = if ltb_ℤ (pos 0) bytes then handlers.flow_forwarder else none

module _ (I : FlowIndex) {X : Type 0} where
  -- `ff->forwardFlow(flow)`.
  unfoldable pub forward_flow :
      (ℕ → Packet → Above X → Outcome (Above X)) → ℕ → Packet → World I X → Outcome (World I X)
  forward_flow analyse f packet w = do
    a ← analyse f packet (record {
      heap = w.store.flows.heap;
      pools = w.store.pools;
      hits = w.hits;
      upper = w.upper;
    })
    ok (record w {
      store =
          let s = w.store in
          record s { flows = let c = s.flows in record c { heap = a.heap }; pools = a.pools };
      hits = a.hits;
      upper = a.upper;
    })

  -- A closed flow leaves: its records go to their pools, and it leaves the table for its own. With
  -- no pool of flows there is a null pointer.
  unfoldable pub retrieve : ℕ → World I X → Outcome (World I X)
  unfolding remove_flow
  retrieve f w = do
    s' ←
        remove_flow I f
          (record s { pools = release_flow (live_flow s.pools (flow_at I w f)) s.pools })
    if w.proto.has_cache
        then ok (record w { store = record s' { flows = release_to_cache f s'.flows } })
        else fault
    where
      open w use {store as s}

  -- The timers: when more than a timeout has passed since they were run, they are run again; else
  -- the time of the flow is set, once in a while with its place in the index.
  unfoldable pub check_timers : ℕ → World I X → Outcome (World I X)
  unfolding update_timers update_flow_time
  check_timers f w =
      if ltb_ℤ (pos t.last_timeout) (pos t.packet_time -ℤ s.manager.timeout)
      then ok (record w {
        proto = record t { last_timeout = t.packet_time };
        store = update_timers I (pos t.packet_time) s;
      })
      else (if bit_and (flow_at I w f).total_packets 64 == 1
          then moved (update_flow_time I f t.packet_time s)
          else ok (record w {
            store = record s { flows = set_last_packet_time f t.packet_time s.flows };
          }))
    where
      open w use {proto as t, store as s}

      moved : Outcome (Store I TcpInfo) → Outcome (World I X)
      moved r = do s' ← r; ok (record w { store = s' })

  -- `if (flow->haveEvidence())`, and `if (flow->isReject())`.
  abbrev pub note_evidence : ℕ → World I X → Packet → Packet
  note_evidence f w packet =
      if (flow_at I w f).have_evidence then record packet { have_evidence = true } else packet

  unfoldable pub check_reject : Handlers X → ℕ → World I X → World I X
  check_reject handlers f w =
      if (flow_at I w f).reject
      then change I f (λ g. record g { reject = false; partial_reject = true })
          (record w { upper = handlers.reject_func (flow_at I w f) w.upper })
      else w

  -- The end of the method.
  unfoldable pub finish : Handlers X → ℕ → Packet → World I X → Outcome (Packet × World I X)
  unfolding check_timers check_reject
  finish handlers f packet w = do
    w' ← check_timers f (check_reject handlers f w)
    ok (note_evidence f w packet, w')

  -- From the branch on `flow_forwarder_` on.
  unfoldable pub dispatch :
      Handlers X → ℕ → TcpHeader → Packet → ℤ → TcpInfo → World I X → Outcome (Packet × World I X)
  unfolding finish forward_flow retrieve to_upper
  dispatch handlers f h packet bytes info w = elim (wanted handlers bytes) [
    | some analyse ↦ do
      w' ← forward_flow analyse f (to_upper h packet) (change I f with_packet w)
      finish handlers f (to_upper h packet) w'
    | none ↦
        if info.state_prev ==ℤ closed && info.state_curr ==ℤ closed
        then (do w' ← retrieve f w; ok (packet, w'))
        else finish handlers f packet w
  ]

  -- A flow with its `TCPInfo`.
  unfoldable pub inspect :
      Handlers X
      → IpMux
      → TcpHeader
      → Packet
      → ℕ
      → ℕ
      → Cache TcpInfo
      → World I X
      → Outcome (Packet × World I X)
  unfolding dispatch
  inspect handlers ipmux h packet f i c w = do
    w1 ← compute I f i c h bytes (change I f (account packet bytes) w)
    elim (w1.store.pools tcp) [
      | none ↦ fault
      | some c1 ↦ dispatch handlers f h packet bytes (c1.heap i) (check_ip_set I handlers f w1)
    ]
    where
      bytes : ℤ
      bytes = bytes_of ipmux h

  -- From the branch on `flow->tcp_info.expired()` on.
  unfoldable pub with_flow :
      Handlers X → IpMux → TcpHeader → Packet → ℕ → World I X → Outcome (Packet × World I X)
  unfolding inspect
  with_flow handlers ipmux h packet f w = elim (w.store.pools tcp) [
    | none ↦ fault
    | some c ↦ elim (lock c (flow_at I w f).links.tcp_info) [
      | none ↦ ok (packet, w)
      | some i ↦ inspect handlers ipmux h packet f i c w
    ]
  ]

  -- `processPacket(packet)`, which returns true.
  unfoldable pub process_packet :
      Handlers X → IpMux → TcpHeader → Packet → World I X → Outcome (Packet × World I X)
  unfolding with_flow get_flow
  process_packet handlers ipmux h packet w = do
    (o, s) ← get_flow I timed packet ipmux h w.store
    let w' = record w { proto = counted; store = s }
    elim o [ none ↦ ok (packet, w') | some f ↦ with_flow handlers ipmux h packet f w' ]
    where
      timed : TcpProtocol
      timed = let t = w.proto in record t { packet_time = packet.packet_time }

      counted : TcpProtocol
      counted = record timed { total_packets = inc64 timed.total_packets }
