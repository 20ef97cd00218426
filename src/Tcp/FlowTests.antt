-- ===== src/Tcp/FlowTests.antt =====
-- The flows of src/protocols/tcp/TCPProtocol.cc on concrete packets.
use aiengine_rewritten_clean.Tcp.Dispatch.{check_timers}
use aiengine_rewritten_clean.Tcp.Closing.{check_timers-in_place}
use aiengine_rewritten_clean.Prelude.{
  ℕ, ◌≡◌, refl, Bool, true, false, Option, none, some, [], ◌∷◌, arith, ◌==◌, if◌then◌else◌, ◌+◌, ap,
  sym,
}
use aiengine_rewritten_clean.Prelude.Int.{pos, ◌-ℤ◌}
use aiengine_rewritten_clean.Anomaly.{no_anomaly}
use aiengine_rewritten_clean.Cache.{Cache, Outcome, ok, fault, acquire, lock}
use aiengine_rewritten_clean.Flow.{backward}
use aiengine_rewritten_clean.Address.Symmetry.{answer}
use aiengine_rewritten_clean.Packet.{Packet, make}
use aiengine_rewritten_clean.Release.{tcp, number}
use aiengine_rewritten_clean.Table.{Store}
use aiengine_rewritten_clean.Table.Owned.{IsOwned}
use aiengine_rewritten_clean.Table.Sorted.{sorted_index}
use aiengine_rewritten_clean.Table.Tests.{seen_at}
use aiengine_rewritten_clean.Tcp.Machine
use aiengine_rewritten_clean.Tcp.Info.{TcpInfo}
use aiengine_rewritten_clean.Tcp.Compute.{Segment}
use aiengine_rewritten_clean.Tcp.Flows.{IpMux, TcpHeader, TcpProtocol, get_flow}
use aiengine_rewritten_clean.Tcp.Process.{World, Handlers, Above, change}
use aiengine_rewritten_clean.Tcp.Ready.{IsReady}
use aiengine_rewritten_clean.Tcp.Sessions.{get_flow-answer}
use aiengine_rewritten_clean.Tcp.Steps.{IsSound, IsCareful}
use aiengine_rewritten_clean.Tcp.Whole.{process_all, process_all-IsSound}

-- A client at 1 and a server at 2; a SYN from port 1024 to port 80, and its answer.
abbrev pub client : IpMux
client = record {
  address = record { type = 4; ip4_src = 1; ip4_dst = 2; ip6_src = λ i. 0; ip6_dst = λ i. 0 };
  total_length = 40;
  header_size = 20;
}

abbrev pub server : IpMux
server = record { address = answer client.address; total_length = 40; header_size = 20 }

abbrev segment : Bool → Segment
segment ack = record { syn = true; ack = ack; fin = false; rst = false; psh = false; sequence = 7 }

abbrev syn : TcpHeader
syn = record { source_port = 1024; dest_port = 80; doff = 5; segment = segment false }

abbrev syn_ack : TcpHeader
syn_ack = record { source_port = 80; dest_port = 1024; doff = 5; segment = segment true }

abbrev pub packet : Packet
packet = make [] (pos 20) (pos 20) no_anomaly 1000

-- Two flows and a TCP record are in their pools, and the table is empty.
abbrev pub infos : Cache TcpInfo
infos = record {
  items = some 0 ∷ [];
  total = 1;
  total_acquires = 0;
  total_releases = 0;
  total_fails = 0;
  heap = λ p. record {
    state_prev = pos 0;
    state_curr = pos 0;
    syn = 0;
    syn_ack = 0;
    ack = 0;
    fin = 0;
    rst = 0;
    push = 0;
    seq_num = λ d. 0;
  };
  fresh = 1;
}

abbrev pub store : Store sorted_index TcpInfo
store = record {
  manager = record {
    table = record { list = []; distinct = tt };
    total_process_flows = 0;
    total_timeout_flows = 0;
    timeout = pos 180;
    has_cache = true;
  };
  flows = record {
    items = some 0 ∷ some 1 ∷ [];
    total = 2;
    total_acquires = 0;
    total_releases = 0;
    total_fails = 0;
    heap = λ p. seen_at 0 0;
    fresh = 2;
  };
  pools = λ k. if number k == number tcp then some infos else none;
}

abbrev proto : TcpProtocol
proto = record {
  has_table = true;
  has_cache = true;
  sigs = none;
  totals = record { syn = 0; synack = 0; ack = 0; fin = 0; rst = 0 };
  total_packets = 0;
  total_bytes = 0;
  total_validated_packets = 0;
  total_malformed_packets = 0;
  packet_time = 1000;
  last_timeout = 0;
}

pub store-IsOwned : IsOwned sorted_index store
store-IsOwned = record {
  pool = record { bounded = omega arith; no_null = tt };
  named = λ h p e. absurd (ground arith);
  apart = λ q. grind arith;
}

store-IsReady : IsReady store
store-IsReady = record {
  pool = (
    infos,
    refl,
    record {
      valid = record { bounded = omega arith; no_null = tt };
      states = λ i. (Machine.closed, refl);
    },
  );
  directed = λ q. (Machine.forward, refl);
}

-- The store when the SYN has been seen.
abbrev store_of : Outcome (Option ℕ × Store sorted_index TcpInfo) → Store sorted_index TcpInfo
store_of (ok (o, s)) = s
store_of fault = store

abbrev opened : Store sorted_index TcpInfo
unfolding get_flow
opened = store_of (get_flow sorted_index proto packet client syn store)

get_flow-answer_example :
    (s : Store sorted_index TcpInfo) × (get_flow sorted_index proto packet server syn_ack opened
      ≡ ok (some 1, s))
    × ((s.flows.heap 1).direction ≡ backward)
unfolding opened get_flow acquire lock
get_flow-answer_example =
    get_flow-answer sorted_index proto proto packet packet client server syn syn_ack store opened 1
      store-IsOwned store-IsReady refl refl refl refl refl
      (record { address_eq = refl; ports = (refl, refl); tags = (refl, refl) })

-- Analysers that count what they see.
abbrev pub count_one : ℕ → Packet → Above ℕ → Outcome (Above ℕ)
count_one f p a = ok (record a { upper = a.upper + 1 })

abbrev pub counting : Handlers ℕ
counting = record { ipset_mng = none; flow_forwarder = some count_one; reject_func = λ f x. x }

abbrev chosen :
    Option (ℕ → Packet → Above ℕ → Outcome (Above ℕ)) → ℕ → Packet → Above ℕ → Outcome (Above ℕ)
chosen none = count_one
chosen (some g) = g

pub counting-IsCareful : IsCareful counting
counting-IsCareful = record {
  returns = λ analyse e f p a. (
    record a { upper = a.upper + 1 },
    ap (λ o. chosen o f p a) (sym e),
    (λ q. (refl, refl)),
    refl,
  );
}

abbrev world : World sorted_index ℕ
world = record { proto = proto; store = store; hits = λ i. 0; upper = 0 }

process_all-IsSound_example :
    (w : World sorted_index ℕ) × (process_all sorted_index counting
        ((client, syn, packet) ∷ (server, syn_ack, packet) ∷ [])
        world
      ≡ ok w)
    × IsSound w
process_all-IsSound_example =
    process_all-IsSound sorted_index counting _ world counting-IsCareful
      (record { owned = store-IsOwned; ready = store-IsReady; cached = refl })

-- A flow of which 65 packets have been seen; the timers have just been run.
abbrev busy : World sorted_index ℕ
busy = record {
  proto = record proto { last_timeout = 1000 };
  store = record store {
    flows =
        let c = store.flows in
        record c { heap = λ p. let g = seen_at 0 900 in record g { total_packets = 65 } };
  };
  hits = λ i. 0;
  upper = 0;
}

check_timers-in_place_example :
    check_timers sorted_index 0 busy
    ≡ ok (change sorted_index 0 (λ g. record g { current_time = 1000 }) busy)
unfolding ◌-ℤ◌
check_timers-in_place_example = check_timers-in_place sorted_index 0 busy refl
