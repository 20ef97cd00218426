-- ===== src/Table/Tests.antt =====
-- The table of flows on concrete flows.
use aiengine_rewritten_clean.Table.Refresh.{update_flow_time-IsOrdered}
use aiengine_rewritten_clean.Table.Owned.{IsOwned}
use aiengine_rewritten_clean.Prelude.{
  ℕ, ◌+◌, ◌≡◌, refl, true, false, none, some, List, [], ◌∷◌, ◌++◌, arith, length, u32, ◌*◌,
}
use aiengine_rewritten_clean.Prelude.Int.{pos, to_int, ◌+ℤ◌}
use aiengine_rewritten_clean.Anomaly.{no_anomaly}
use aiengine_rewritten_clean.Cache.{Cache, release, ok}
use aiengine_rewritten_clean.Flow.{Flow, forward}
use aiengine_rewritten_clean.Table.{
  Entry, Store, find_flow, update_timers, AllTimes, update_flow_time, IsOrdered, times,
}
use aiengine_rewritten_clean.Table.Order.{failing}
use aiengine_rewritten_clean.Table.Timers.{
  entries_of, is_over, update_timers-failing, update_timers-leading,
}
use aiengine_rewritten_clean.Table.Sorted.{sorted_index}

-- A flow that was last seen at a time.
abbrev pub seen_at : ℕ → ℕ → Flow
seen_at id time = record {
  total_bytes = 100;
  total_packets_l7 = 2;
  total_packets = 3;
  links = record {
    ipset = none;
    tcp_info = none;
    gprs_info = none;
    dns_info = none;
    ssdp_info = none;
    regex = none;
    http_info = none;
    ssl_info = none;
    sip_info = none;
    smtp_info = none;
    imap_info = none;
    pop_info = none;
    frequencies = none;
    packet_frequencies = none;
    forwarder = none;
    regex_mng = none;
    packet = none;
  };
  frequency_engine_inspected = false;
  hash = id;
  address = record { type = 4; ip4_src = 1; ip4_dst = 2; ip6_src = λ i. 0; ip6_dst = λ i. 0 };
  source_port = 1024;
  dest_port = 80;
  protocol = 6;
  tag = 3;
  have_tag = false;
  reject = false;
  partial_reject = false;
  have_evidence = false;
  direction = forward;
  prev_direction = forward;
  pa = no_anomaly;
  arrive_time = 5;
  current_time = time;
}

-- Flow p has the identifier p + 10 and was seen at 100 * p.
abbrev flows : Cache Flow
flows = record {
  items = some 0 ∷ some 1 ∷ some 2 ∷ [];
  total = 0;
  total_acquires = 3;
  total_releases = 0;
  total_fails = 0;
  heap = λ p. seen_at (p + 10) (p * 100);
  fresh = 3;
}

abbrev store : Store sorted_index ℕ
store = record {
  manager = record {
    table = record {
      list = (10, 0) ∷ (11, 1) ∷ (12, 2) ∷ [];
      distinct = (refl, (refl, (refl, tt)));
    };
    total_process_flows = 3;
    total_timeout_flows = 0;
    timeout = pos 180;
    has_cache = true;
  };
  flows = flows;
  pools = λ k. none;
}

-- At 290 the time of the first two flows is over.
two_expired : entries_of sorted_index (update_timers sorted_index (pos 290) store) ≡ (12, 2) ∷ []
unfolding update_timers to_int ◌+ℤ◌ release
two_expired = refl

found : find_flow sorted_index 99 11 store ≡ some 1
unfolding find_flow
found = refl

update_timers-failing_example :
    entries_of sorted_index (update_timers sorted_index (pos 290) store)
    ≡ failing (is_over sorted_index (pos 290) store) (entries_of sorted_index store)
unfolding to_int ◌+ℤ◌
update_timers-failing_example =
    update_timers-failing sorted_index (pos 290) store
      ((omega arith, (omega arith, tt)), ((omega arith, tt), (tt, tt)))
      ((omega arith, omega arith), ((omega arith, omega arith), ((omega arith, omega arith), tt)))

update_timers-leading_example :
    (gone : List Entry) × (entries_of sorted_index store
      ≡ gone ++ entries_of sorted_index (update_timers sorted_index (pos 290) store))
    × AllTimes (λ p. is_over sorted_index (pos 290) store p ≡ true) gone
    × ((update_timers sorted_index (pos 290) store).manager.total_timeout_flows
        ≡ u32 (0 + length gone))
update_timers-leading_example = update_timers-leading sorted_index (pos 290) store (omega arith)

store-IsOwned : IsOwned sorted_index store
store-IsOwned = record {
  pool = record { bounded = omega arith; no_null = tt };
  named = λ h p e. ground arith;
  apart = λ q. grind arith;
}

-- The oldest flow is seen again.
update_flow_time-IsOrdered_example :
    (s : Store sorted_index ℕ) × (update_flow_time sorted_index 0 290 store ≡ ok s)
    × ((s.flows.heap 0).current_time ≡ 290)
    × IsOrdered (times s.flows) (entries_of sorted_index s)
unfolding to_int
update_flow_time-IsOrdered_example =
    update_flow_time-IsOrdered sorted_index 0 290 store store-IsOwned refl
      ((omega arith, (omega arith, tt)), ((omega arith, tt), (tt, tt)))
