-- ===== src/Udp.antt =====
-- src/protocols/udp/UDPProtocol.h and UDPProtocol.cc: the datagrams of a flow. The flows, the table
-- and the other components are as for Tcp, whose opening of a flow getFlow repeats.
pub mod Process
pub mod Sound
pub mod Whole
pub mod Tests
use aiengine_rewritten_clean.Prelude.{
  ℕ, ◌+◌, Bool, true, false, Option, none, some, if◌then◌else◌, inc64, u64,
}
use aiengine_rewritten_clean.Prelude.Int.{ℤ, pos, ◌-ℤ◌, ltb_ℤ}
use aiengine_rewritten_clean.Cache.{Outcome, ok}
use aiengine_rewritten_clean.Anomaly.{PacketAnomalyType, udp_bogus_header, Hits, inc_anomaly, mark}
use aiengine_rewritten_clean.Flow.{Flow}
use aiengine_rewritten_clean.Packet.{Packet}
use aiengine_rewritten_clean.Table.{FlowIndex, Store, find_flow}
use aiengine_rewritten_clean.Tcp.Info.{TcpInfo}
use aiengine_rewritten_clean.Tcp.Flows.{
  IpMux, conversation, direction_of, set_flow_direction, update_flow, open_flow,
}

-- The header `udphdr`.
pub record UdpHeader : Type 0 where
  pub source_port : ℕ
  pub dest_port : ℕ
  pub length : ℕ

-- The fields of the protocol.
pub record UdpProtocol : Type 0 where
  pub has_table : Bool
  pub has_cache : Bool
  pub sigs : Option ℕ
  pub total_packets : ℕ
  pub total_bytes : ℕ
  pub total_validated_packets : ℕ
  pub total_malformed_packets : ℕ
  pub packet_time : ℕ
  pub last_timeout : ℕ

-- `udpChecker(packet)`.
unfoldable pub udp_checker : Packet → UdpProtocol → Bool × UdpProtocol
udp_checker packet u =
    if ltb_ℤ packet.curr_packet.length (pos 8)
    then (false, record u { total_malformed_packets = inc64 u.total_malformed_packets })
    else (true, record u { total_validated_packets = inc64 u.total_validated_packets })

-- `getFlow(packet)`: no record of the protocol is attached.
unfoldable pub get_flow :
    (I : FlowIndex)
    → UdpProtocol
    → Packet
    → IpMux
    → UdpHeader
    → Store I TcpInfo
    → Outcome (Option ℕ × Store I TcpInfo)
unfolding conversation open_flow find_flow
get_flow I u packet ipmux h s =
    if u.has_table
    then elim (find_flow I h1 h2 s) [
      | some f ↦ ok (
        some f,
        record s {
          flows = update_flow f (λ g. set_flow_direction (direction_of h.source_port g) g) s.flows;
        },
      )
      | none ↦
          if u.has_cache
          then open_flow I 17 h1 u.sigs u.packet_time packet ipmux.address h.source_port h.dest_port
              s
          else ok (none, s)
    ]
    else ok (none, s)
  where
    h1 : ℕ
    h1 = conversation 17 packet ipmux.address h.source_port h.dest_port

    h2 : ℕ
    h2 = conversation 17 packet ipmux.address h.dest_port h.source_port

-- The bytes that the header tells.
abbrev pub told : UdpHeader → ℤ
told h = pos h.length -ℤ pos 8

-- The header tells more than the packet has.
abbrev pub is_bogus : UdpHeader → Packet → Bool
is_bogus h packet = ltb_ℤ packet.curr_packet.length (told h)

-- The bytes that are counted, and the anomalies of the flow and of the engine.
abbrev pub counted : UdpHeader → Packet → ℤ
counted h packet = if is_bogus h packet then packet.curr_packet.length else told h

abbrev pub anomaly_of : UdpHeader → Packet → PacketAnomalyType → PacketAnomalyType
anomaly_of h packet pa =
    if is_bogus h packet then mark udp_bogus_header (mark packet.pa pa) else mark packet.pa pa

abbrev pub hits_of : UdpHeader → Packet → Hits → Hits
hits_of h packet hits = if is_bogus h packet then inc_anomaly udp_bogus_header hits else hits
