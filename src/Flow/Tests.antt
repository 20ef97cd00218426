-- ===== src/Flow/Tests.antt =====
-- src/Flow.cc on concrete flows.
use aiengine_rewritten_clean.Prelude.{ℕ, ◌≡◌, true, false, Option, none, some}
use aiengine_rewritten_clean.Anomaly.{tcp_bad_flags}
use aiengine_rewritten_clean.Flow.{Flow, backward, forward, reset}
use aiengine_rewritten_clean.Flow.Reuse.{reset_past}

-- A flow that has been used, with a link to packet frequencies.
abbrev used : Option ℕ → Flow
used p = record {
  total_bytes = 100;
  total_packets_l7 = 2;
  total_packets = 3;
  links = record {
    ipset = some 1;
    tcp_info = some 1;
    gprs_info = none;
    dns_info = none;
    ssdp_info = none;
    regex = some 4;
    http_info = some 2;
    ssl_info = none;
    sip_info = none;
    smtp_info = none;
    imap_info = none;
    pop_info = none;
    frequencies = some 5;
    packet_frequencies = p;
    forwarder = some 6;
    regex_mng = none;
    packet = some 7;
  };
  frequency_engine_inspected = true;
  hash = 17;
  address = record { type = 4; ip4_src = 1; ip4_dst = 2; ip6_src = λ i. 0; ip6_dst = λ i. 0 };
  source_port = 1024;
  dest_port = 80;
  protocol = 6;
  tag = 3;
  have_tag = true;
  reject = false;
  partial_reject = false;
  have_evidence = true;
  direction = backward;
  prev_direction = forward;
  pa = tcp_bad_flags;
  arrive_time = 5;
  current_time = 6;
}

reset_past_example :
    ((reset (used (some 3))).links.packet_frequencies ≡ some 3)
    × ((used (some 3)).links.packet_frequencies ≡ (used none).links.packet_frequencies
        → reset (used (some 3)) ≡ reset (used none))
    × (reset (used (some 3)) ≡ reset (used none)
        → (used (some 3)).links.packet_frequencies ≡ (used none).links.packet_frequencies)
reset_past_example = reset_past (used (some 3)) (used none)
