-- ===== src/Tcp/Flows.antt =====
-- `TCPProtocol::getFlow` of src/protocols/tcp/TCPProtocol.cc: the flow of a segment, which is
-- opened if there is none.
--
-- The pool of flows and the table of flows belong to the store of Table; the protocol and the
-- table share one pool of flows. The pool of `TCPInfo` objects is the one that the cache manager
-- has. What the layer below knows of the packet, and the header of the segment, are records.
use aiengine_rewritten_clean.Prelude.{ℕ, Bool, true, Option, none, some, ◌==◌, if◌then◌else◌}
use aiengine_rewritten_clean.Cache.{Cache, Outcome, ok, fault, ◌>>=◌, update, acquire, lock}
use aiengine_rewritten_clean.Flow.{Flow, IpAddress, FlowDirection, forward, backward}
use aiengine_rewritten_clean.Address.{get_hash, ◌^^◌, set_five_tuple, set_five_tuple6}
use aiengine_rewritten_clean.Packet.{Packet}
use aiengine_rewritten_clean.Release.{tcp, number}
use aiengine_rewritten_clean.Table.{FlowIndex, Store, acquire_flow, add_flow, find_flow}
use aiengine_rewritten_clean.Tcp.Info.{TcpInfo, reset}
use aiengine_rewritten_clean.Tcp.Compute.{Segment, Totals}

-- What the multiplexer of the layer below holds: `address`, `total_length` and its header's size.
pub record IpMux : Type 0 where
  pub address : IpAddress
  pub total_length : ℕ
  pub header_size : ℕ

-- The header `tcphdr`: `doff` counts words of four bytes.
pub record TcpHeader : Type 0 where
  pub source_port : ℕ
  pub dest_port : ℕ
  pub doff : ℕ
  pub segment : Segment

-- The fields of the protocol. `has_table` and `has_cache` say that `flow_table_` and `flow_cache_`
-- are set.
pub record TcpProtocol : Type 0 where
  pub has_table : Bool
  pub has_cache : Bool
  pub sigs : Option ℕ
  pub totals : Totals
  pub total_packets : ℕ
  pub total_bytes : ℕ
  pub total_validated_packets : ℕ
  pub total_malformed_packets : ℕ
  pub packet_time : ℕ
  pub last_timeout : ℕ

-- The hash of the segment's conversation with the ports as given, and with the packet's tag.
unfoldable pub conversation : ℕ → Packet → IpAddress → ℕ → ℕ → ℕ
conversation proto packet address p q =
    if packet.have_tag then get_hash address p proto q ^^ packet.tag else get_hash address p proto q

-- `setFlowDirection(dir)`.
abbrev pub set_flow_direction : FlowDirection → Flow → Flow
set_flow_direction dir f = record f { prev_direction = f.direction; direction = dir }

-- The direction of a segment of a flow, by the source port.
abbrev pub direction_of : ℕ → Flow → FlowDirection
direction_of port f = if port == f.source_port then forward else backward

abbrev pub update_flow : ℕ → (Flow → Flow) → Cache Flow → Cache Flow
update_flow p g c = record c { heap = update c.heap p (g (c.heap p)) }

-- The fields of a flow that is opened: from `setId` to `setFiveTuple`.
unfoldable pub start_flow : ℕ → ℕ → Option ℕ → ℕ → Packet → IpAddress → ℕ → ℕ → Flow → Flow
unfolding set_five_tuple set_five_tuple6
start_flow proto h1 sigs time packet address p q f =
    if address.type == 4
    then set_five_tuple address p proto q started
    else set_five_tuple6 address p proto q started
  where
    open f use {links}

    started : Flow
    started = record f {
      hash = h1;
      links = record links { regex_mng = sigs };
      have_tag = if packet.have_tag then true else f.have_tag;
      tag = if packet.have_tag then packet.tag else f.tag;
      arrive_time = time;
      current_time = time;
    }

module _ (I : FlowIndex) where
  -- A `TCPInfo` is attached if the pool has one left.
  unfoldable pub attach_tcp_info : ℕ → Store I TcpInfo → Outcome (Store I TcpInfo)
  attach_tcp_info p s = elim (s.pools tcp) [
    | none ↦ fault
    | some c ↦ do
      (o, c') ← acquire reset c
      ok (record s {
        pools = λ k. if number k == number tcp then some c' else s.pools k;
        flows = elim (lock c' o) [ none ↦ s.flows | some i ↦ update_flow p (link_info i) s.flows ];
      })
  ]
    where
      link_info : ℕ → Flow → Flow
      link_info i f = record f { links = let l = f.links in record l { tcp_info = some i } }

  -- The branch of `getFlow` for a conversation with no flow.
  unfoldable pub open_flow :
      ℕ
      → ℕ
      → Option ℕ
      → ℕ
      → Packet
      → IpAddress
      → ℕ
      → ℕ
      → Store I TcpInfo
      → Outcome (Option ℕ × Store I TcpInfo)
  unfolding start_flow add_flow
  open_flow proto h1 sigs time packet address p q s = do
    (o, c) ← acquire_flow s.flows
    elim (lock c o) [
      | none ↦ ok (none, record s { flows = c })
      | some f ↦ ok (
        some f,
        add_flow I f (record s {
          flows = update_flow f (start_flow proto h1 sigs time packet address p q) c;
        }),
      )
    ]

  -- `getFlow(packet)`.
  unfoldable pub get_flow :
      TcpProtocol
      → Packet
      → IpMux
      → TcpHeader
      → Store I TcpInfo
      → Outcome (Option ℕ × Store I TcpInfo)
  unfolding conversation open_flow attach_tcp_info find_flow
  get_flow t packet ipmux h s =
      if t.has_table
      then elim (find_flow I h1 h2 s) [
        | some f ↦ ok (
          some f,
          record s {
            flows =
                update_flow f (λ g. set_flow_direction (direction_of h.source_port g) g) s.flows;
          },
        )
        | none ↦ if t.has_cache then opened else ok (none, s)
      ]
      else ok (none, s)
    where
      h1 : ℕ
      h1 = conversation 6 packet ipmux.address h.source_port h.dest_port

      h2 : ℕ
      h2 = conversation 6 packet ipmux.address h.dest_port h.source_port

      opened : Outcome (Option ℕ × Store I TcpInfo)
      opened = do
        (o, s1) ←
            open_flow 6 h1 t.sigs t.packet_time packet ipmux.address h.source_port h.dest_port s
        elim o [ none ↦ ok (none, s1) | some f ↦ do s2 ← attach_tcp_info f s1; ok (some f, s2) ]
