-- ===== src/Anomaly.antt =====
-- src/AnomalyManager.h and src/AnomalyManager.cc: the kinds of packet anomaly and their counters.
use aiengine_rewritten_clean.Prelude.{ℕ, Bool, true, false, ◌==◌, inc32, if◌then◌else◌}

-- `PacketAnomalyType`.
pub data PacketAnomalyType : Type 0 where
  no_anomaly ipv4_fragmentation ipv6_fragmentation ipv6_loop_extension_headers : PacketAnomalyType
  tcp_bad_flags tcp_bogus_header udp_bogus_header dns_bogus_header : PacketAnomalyType
  dns_long_name smtp_bogus_header imap_bogus_header pop_bogus_header : PacketAnomalyType
  snmp_bogus_header : PacketAnomalyType

-- The enumerator's value, which indexes `anomalies_`.
abbrev pub index : PacketAnomalyType → ℕ
index no_anomaly = 0
index ipv4_fragmentation = 1
index ipv6_fragmentation = 2
index ipv6_loop_extension_headers = 3
index tcp_bad_flags = 4
index tcp_bogus_header = 5
index udp_bogus_header = 6
index dns_bogus_header = 7
index dns_long_name = 8
index smtp_bogus_header = 9
index imap_bogus_header = 10
index pop_bogus_header = 11
index snmp_bogus_header = 12

-- The `hits` of `anomalies_`, by index; a signed 32-bit counter, kept as its bit pattern.
abbrev pub Hits : Type 0
Hits = ℕ → ℕ

abbrev pub is_none : PacketAnomalyType → Bool
is_none no_anomaly = true
is_none _ = false

unfoldable pub inc_anomaly : PacketAnomalyType → Hits → Hits
inc_anomaly t hits i = if i == index t then inc32 (hits i) else hits i

-- `if (flow->getPacketAnomaly() == NONE) flow->setPacketAnomaly(t)`: the first anomaly stays.
abbrev pub mark : PacketAnomalyType → PacketAnomalyType → PacketAnomalyType
mark t pa = if is_none pa then t else pa
