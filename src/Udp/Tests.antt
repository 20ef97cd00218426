-- ===== src/Udp/Tests.antt =====
-- src/protocols/udp/UDPProtocol.cc on a datagram and its answer.
use aiengine_rewritten_clean.Prelude.{ℕ, ◌≡◌, true, none, [], ◌∷◌}
use aiengine_rewritten_clean.Cache.{ok}
use aiengine_rewritten_clean.Table.Owned.{IsOwned}
use aiengine_rewritten_clean.Table.Sorted.{sorted_index}
use aiengine_rewritten_clean.Tcp.FlowTests.{
  client, server, packet, store, store-IsOwned, counting, counting-IsCareful,
}
use aiengine_rewritten_clean.Udp.{UdpHeader}
use aiengine_rewritten_clean.Udp.Process.{World}
use aiengine_rewritten_clean.Udp.Whole.{process_all, process_all-IsOwned}

abbrev world : World sorted_index ℕ
world = record {
  proto = record {
    has_table = true;
    has_cache = true;
    sigs = none;
    total_packets = 0;
    total_bytes = 0;
    total_validated_packets = 0;
    total_malformed_packets = 0;
    packet_time = 0;
    last_timeout = 1000;
  };
  store = store;
  hits = λ i. 0;
  upper = 0;
}

abbrev question : UdpHeader
question = record { source_port = 1024; dest_port = 53; length = 20 }

abbrev reply : UdpHeader
reply = record { source_port = 53; dest_port = 1024; length = 20 }

process_all-IsOwned_example :
    (w : World sorted_index ℕ) × (process_all sorted_index counting
        ((client, question, packet) ∷ (server, reply, packet) ∷ [])
        world
      ≡ ok w)
    × IsOwned sorted_index w.store
process_all-IsOwned_example =
    process_all-IsOwned sorted_index counting
      ((client, question, packet) ∷ (server, reply, packet) ∷ []) world counting-IsCareful
      store-IsOwned
