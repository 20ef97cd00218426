-- ===== src/Tcp/Process.antt =====
-- `tcpChecker` and `processPacket` of src/protocols/tcp/TCPProtocol.h and TCPProtocol.cc.
--
-- What other components do with the flow is a parameter: the manager of sets of addresses, the
-- forwarder of flows with the analysers above it, and the function for rejected flows. They get the
-- flow, not the table of flows. `upper` is their state.
use aiengine_rewritten_clean.Prelude.{
  ℕ, ◌+◌, ◌*◌, Bool, true, false, Option, none, some, ◌==◌, if◌then◌else◌, inc32, inc64, u16, u64,
}
use aiengine_rewritten_clean.Prelude.Int.{ℤ, pos, pos_part, ltb_ℤ}
use aiengine_rewritten_clean.Cache.{Cache, Outcome, ok, fault, update}
use aiengine_rewritten_clean.Anomaly.{Hits, mark, tcp_bogus_header}
use aiengine_rewritten_clean.Flow.{Flow, FlowDirection, forward, backward, no_direction}
use aiengine_rewritten_clean.Packet.{Packet, set_packet_anomaly}
use aiengine_rewritten_clean.Release.{CacheManager, tcp, number}
use aiengine_rewritten_clean.Table.{FlowIndex, Store}
use aiengine_rewritten_clean.Tcp.Info.{TcpInfo}
use aiengine_rewritten_clean.Tcp.Compute.{FlowState, compute_state, add_bytes}
use aiengine_rewritten_clean.Tcp.Flows.{TcpHeader, TcpProtocol, update_flow}

-- `getTcpHdrLength()`.
abbrev pub hdr_length : TcpHeader → ℕ
hdr_length h = u16 (h.doff * 4)

-- `tcpChecker(packet)`: the header that starts the payload is read when the packet is as long.
unfoldable pub tcp_checker :
    TcpHeader → Packet × Hits × TcpProtocol → Bool × (Packet × Hits × TcpProtocol)
unfolding set_packet_anomaly
tcp_checker h (packet, hits, t) =
    let len = packet.curr_packet.length in
    if ltb_ℤ len (pos 20)
    then (
      false,
      (packet, hits, record t { total_malformed_packets = inc64 t.total_malformed_packets }),
    )
    else (
      true,
      (
        marked.0,
        marked.1,
        record t {
          total_validated_packets = inc64 t.total_validated_packets;
          total_bytes = u64 (t.total_bytes + pos_part len);
        },
      ),
    )
  where
    marked : Packet × Hits
    marked =
        if ltb_ℤ packet.curr_packet.length (pos (hdr_length h))
        then set_packet_anomaly tcp_bogus_header (packet, hits)
        else (packet, hits)

-- The value of an enumerator, as the state tables are indexed.
abbrev pub direction_index : FlowDirection → ℕ
direction_index forward = 0
direction_index backward = 1
direction_index no_direction = 2

-- What the analysers of a flow can change.
pub record Above (X : Type 0) : Type 0 where
  pub heap : ℕ → Flow
  pub pools : CacheManager TcpInfo
  pub hits : Hits
  pub upper : X

-- `ipset_mng_`, `flow_forwarder_` and `reject_func_`; the first two may not be there. The lookup
-- gives the set that matched and that set's manager of expressions.
pub record Handlers (X : Type 0) : Type 0 where
  pub ipset_mng : Option (Flow → X → Option (ℕ × Option ℕ) × X)
  pub flow_forwarder : Option (ℕ → Packet → Above X → Outcome (Above X))
  pub reject_func : Flow → X → X

pub record World (I : FlowIndex) (X : Type 0) : Type 0 where
  pub proto : TcpProtocol
  pub store : Store I TcpInfo
  pub hits : Hits
  pub upper : X

-- The bytes and the packet are counted, and the packet's anomaly becomes that of a flow with none.
unfoldable pub account : Packet → ℤ → Flow → Flow
account packet bytes f = record f {
  total_bytes = add_bytes f.total_bytes bytes;
  total_packets = inc32 f.total_packets;
  pa = mark packet.pa f.pa;
}

abbrev pub attach_set : ℕ → Option ℕ → Flow → Flow
attach_set set none g = record g { links = let l = g.links in record l { ipset = some set } }
attach_set set (some m) g = record g {
  links = let l = g.links in record l { ipset = some set; regex_mng = some m };
}

module _ (I : FlowIndex) {X : Type 0} where
  -- The flow as it is in the store, and a change of it.
  abbrev pub flow_at : World I X → ℕ → Flow
  flow_at w f = w.store.flows.heap f

  abbrev pub change : ℕ → (Flow → Flow) → World I X → World I X
  change f g w = record w {
    store = let s = w.store in record s { flows = update_flow f g s.flows };
  }

  -- `computeState(flow, tcp_info, bytes)` on the objects in their pools.
  unfoldable pub compute : ℕ → ℕ → Cache TcpInfo → TcpHeader → ℤ → World I X → Outcome (World I X)
  compute f i c h bytes w =
      elim (compute_state h.segment (direction_index flow.direction) bytes before) [
        | none ↦ fault
        | some after ↦ ok (record w {
          proto = let t = w.proto in record t { totals = after.totals };
          hits = after.hits;
          store = record s {
            flows = update_flow f (λ g. record g { pa = after.pa }) s.flows;
            pools = λ k.
                if number k == number tcp
                then some (record c { heap = update c.heap i after.info })
                else s.pools k;
          };
        })
      ]
    where
      open w use {store as s}

      flow : Flow
      flow = flow_at w f

      before : FlowState
      before = record { info = c.heap i; pa = flow.pa; hits = w.hits; totals = w.proto.totals }

  -- The lookup of the destination, once for a flow: a set that matches is linked with the flow, and
  -- so is its manager of expressions, if it has one.
  abbrev pub matched : ℕ → Option (ℕ × Option ℕ) × X → World I X → World I X
  matched f (none, x) w = record w { upper = x }
  matched f (some (set, m), x) w = change f (attach_set set m) (record w { upper = x })

  abbrev pub looked_up : Option (Flow → X → Option (ℕ × Option ℕ) × X) → ℕ → World I X → World I X
  looked_up none f w = w
  looked_up (some lookup) f w = matched f (lookup (flow_at w f) w.upper) w

  unfoldable pub check_ip_set : Handlers X → ℕ → World I X → World I X
  check_ip_set handlers f w =
      if (flow_at w f).total_packets == 1 then looked_up handlers.ipset_mng f w else w
