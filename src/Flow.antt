-- ===== src/Flow.antt =====
-- src/Flow.h and src/Flow.cc: what is kept for a flow, and `reset`, by which a pool clears a flow
-- that it hands out again.
--
-- A weak pointer is `some` identity or `none`. Counters are 32-bit, kept as bit patterns, as are
-- the identifier and the times.
pub mod Reuse
pub mod Tests
use aiengine_rewritten_clean.Prelude.{ℕ, ◌-◌, ◌^◌, Bool, true, false, Option, none, some, List, []}
use aiengine_rewritten_clean.Anomaly.{PacketAnomalyType, no_anomaly}

-- `FlowDirection`.
pub data FlowDirection : Type 0 where
  forward backward no_direction : FlowDirection

-- The objects that are linked with a flow.
pub record Links : Type 0 where
  pub ipset : Option ℕ
  pub tcp_info : Option ℕ
  pub gprs_info : Option ℕ
  pub dns_info : Option ℕ
  pub ssdp_info : Option ℕ
  pub regex : Option ℕ
  pub http_info : Option ℕ
  pub ssl_info : Option ℕ
  pub sip_info : Option ℕ
  pub smtp_info : Option ℕ
  pub imap_info : Option ℕ
  pub pop_info : Option ℕ
  pub frequencies : Option ℕ
  pub packet_frequencies : Option ℕ
  pub forwarder : Option ℕ
  pub regex_mng : Option ℕ
  pub packet : Option ℕ

-- `IPAddress`: the kind of address, and the addresses as lists of 32-bit words.
pub record IpAddress : Type 0 where
  pub type : ℕ
  pub ip4_src : ℕ
  pub ip4_dst : ℕ
  pub ip6_src : ℕ → ℕ
  pub ip6_dst : ℕ → ℕ

pub record Flow : Type 0 where
  pub total_bytes : ℕ
  pub total_packets_l7 : ℕ
  pub total_packets : ℕ
  pub links : Links
  pub frequency_engine_inspected : Bool
  pub hash : ℕ
  pub address : IpAddress
  pub source_port : ℕ
  pub dest_port : ℕ
  pub protocol : ℕ
  pub tag : ℕ
  pub have_tag : Bool
  pub reject : Bool
  pub partial_reject : Bool
  pub have_evidence : Bool
  pub direction : FlowDirection
  pub prev_direction : FlowDirection
  pub pa : PacketAnomalyType
  pub arrive_time : ℕ
  pub current_time : ℕ

-- `IPAddress::reset()`.
abbrev pub reset_address : IpAddress → IpAddress
reset_address a = record { type = 4; ip4_src = 0; ip4_dst = 0; ip6_src = λ i. 0; ip6_dst = λ i. 0 }

-- The links that `Flow::reset()` clears.
abbrev pub reset_links : Links → Links
reset_links l = record l {
  ipset = none;
  forwarder = none;
  frequencies = none;
  http_info = none;
  ssl_info = none;
  sip_info = none;
  smtp_info = none;
  imap_info = none;
  pop_info = none;
  ssdp_info = none;
  regex = none;
  dns_info = none;
  tcp_info = none;
  gprs_info = none;
  regex_mng = none;
  packet = none;
}

-- `Flow::reset()`.
unfoldable pub reset : Flow → Flow
reset f = record f {
  hash = 0;
  total_bytes = 0;
  total_packets = 0;
  total_packets_l7 = 0;
  address = reset_address f.address;
  source_port = 0;
  dest_port = 0;
  protocol = 0;
  have_tag = false;
  reject = false;
  partial_reject = false;
  have_evidence = false;
  tag = 2 ^ 32 - 1;
  links = reset_links f.links;
  frequency_engine_inspected = false;
  prev_direction = forward;
  direction = forward;
  pa = no_anomaly;
  arrive_time = 0;
  current_time = 0;
}
