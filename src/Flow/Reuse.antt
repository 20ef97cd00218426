-- ===== src/Flow/Reuse.antt =====
-- What is left of a flow of src/Flow.cc after `reset`.
use aiengine_rewritten_clean.Prelude.{ℕ, ◌-◌, ◌^◌, false, ◌≡◌, refl, ap, Option, none}
use aiengine_rewritten_clean.Anomaly.{no_anomaly}
use aiengine_rewritten_clean.Flow.{Flow, forward, reset}

-- A flow with nothing set but one link.
abbrev blank : Option ℕ → Flow
blank p = record {
  total_bytes = 0;
  total_packets_l7 = 0;
  total_packets = 0;
  links = record {
    ipset = none;
    tcp_info = none;
    gprs_info = none;
    dns_info = none;
    ssdp_info = none;
    regex = none;
    http_info = none;
    ssl_info = none;
    sip_info = none;
    smtp_info = none;
    imap_info = none;
    pop_info = none;
    frequencies = none;
    packet_frequencies = p;
    forwarder = none;
    regex_mng = none;
    packet = none;
  };
  frequency_engine_inspected = false;
  hash = 0;
  address = record { type = 4; ip4_src = 0; ip4_dst = 0; ip6_src = λ i. 0; ip6_dst = λ i. 0 };
  source_port = 0;
  dest_port = 0;
  protocol = 0;
  tag = 2 ^ 32 - 1;
  have_tag = false;
  reject = false;
  partial_reject = false;
  have_evidence = false;
  direction = forward;
  prev_direction = forward;
  pa = no_anomaly;
  arrive_time = 0;
  current_time = 0;
}

reset-blank : (f : Flow) → reset f ≡ blank f.links.packet_frequencies
unfolding reset
reset-blank f = refl

-- The one thing that a flow's past decides after `reset` is its link to packet frequencies: two
-- flows are the same after it exactly if these links are, and the link is as it was before.
pub reset_past :
    (f g : Flow)
    → ((reset f).links.packet_frequencies ≡ f.links.packet_frequencies)
      × (f.links.packet_frequencies ≡ g.links.packet_frequencies → reset f ≡ reset g)
      × (reset f ≡ reset g → f.links.packet_frequencies ≡ g.links.packet_frequencies)
unfolding reset
reset_past f g = (refl, λ e. ap blank e, λ e. ap (λ h. h.links.packet_frequencies) e)
