-- ===== src/Release/Tests.antt =====
-- src/CacheManager.cc on a concrete flow and pools.
use aiengine_rewritten_clean.Prelude.{
  ℕ, ◌≡◌, refl, false, none, some, [], ◌∷◌, arith, if◌then◌else◌,
}
use aiengine_rewritten_clean.Anomaly.{no_anomaly}
use aiengine_rewritten_clean.Cache.{Cache}
use aiengine_rewritten_clean.Cache.Inv.{IsValid}
use aiengine_rewritten_clean.Flow.{Flow, forward}
use aiengine_rewritten_clean.Release.{http, ssl, CacheManager, link, give_back, release_flow}
use aiengine_rewritten_clean.Release.Pools.{
  ValidPool, returned, release_flow-at, release_flow-ValidPool,
}

-- A TCP flow with records of HTTP and of SSL.
abbrev flow : Flow
flow = record {
  total_bytes = 100;
  total_packets_l7 = 2;
  total_packets = 3;
  links = record {
    ipset = none;
    tcp_info = some 1;
    gprs_info = none;
    dns_info = none;
    ssdp_info = none;
    regex = none;
    http_info = some 0;
    ssl_info = some 0;
    sip_info = none;
    smtp_info = none;
    imap_info = none;
    pop_info = none;
    frequencies = none;
    packet_frequencies = none;
    forwarder = none;
    regex_mng = none;
    packet = none;
  };
  frequency_engine_inspected = false;
  hash = 17;
  address = record { type = 4; ip4_src = 1; ip4_dst = 2; ip6_src = λ i. 0; ip6_dst = λ i. 0 };
  source_port = 1024;
  dest_port = 80;
  protocol = 6;
  tag = 3;
  have_tag = false;
  reject = false;
  partial_reject = false;
  have_evidence = false;
  direction = forward;
  prev_direction = forward;
  pa = no_anomaly;
  arrive_time = 5;
  current_time = 6;
}

-- A pool whose objects are handed out.
abbrev empty_pool : Cache ℕ
empty_pool = record {
  items = some 0 ∷ some 1 ∷ [];
  total = 0;
  total_acquires = 2;
  total_releases = 0;
  total_fails = 0;
  heap = λ p. 0;
  fresh = 2;
}

abbrev pools : CacheManager ℕ
pools k = some empty_pool

pool-IsValid : IsValid empty_pool
pool-IsValid = record { bounded = omega arith; no_null = tt }

-- The record of SSL is not given back.
ssl_kept : release_flow flow pools ssl ≡ some empty_pool
unfolding release_flow
ssl_kept = refl

release_flow-at_example :
    release_flow flow pools http
    ≡ (if returned flow http then give_back (link http flow.links) (pools http) else pools http)
release_flow-at_example = release_flow-at flow pools http

release_flow-ValidPool_example : ValidPool (release_flow flow pools http)
release_flow-ValidPool_example = release_flow-ValidPool flow pools (λ k. pool-IsValid) http
