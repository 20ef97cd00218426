-- ===== src/Tcp/Serving.antt =====
-- The branches of `TCPProtocol::getFlow`.
use aiengine_rewritten_clean.Prelude.{ℕ, ◌≡◌, refl, ◌∙◌, true, false, none, some, arith}
use aiengine_rewritten_clean.Cache.{ok}
use aiengine_rewritten_clean.Flow.{IpAddress}
use aiengine_rewritten_clean.Address.Symmetry.{get_hash_ports}
use aiengine_rewritten_clean.Packet.{Packet}
use aiengine_rewritten_clean.Table.{FlowIndex, Store, find_flow, lookup}
use aiengine_rewritten_clean.Table.Timers.{entries_of}
use aiengine_rewritten_clean.Tcp.Info.{TcpInfo}
use aiengine_rewritten_clean.Tcp.Flows.{
  IpMux, TcpHeader, TcpProtocol, conversation, set_flow_direction, direction_of, update_flow,
  attach_tcp_info, open_flow, get_flow,
}

-- The conversation of a segment, by which its flow is found.
abbrev pub key : Packet → IpMux → TcpHeader → ℕ
key packet ipmux h = conversation 6 packet ipmux.address h.source_port h.dest_port

conversation_ports :
    (proto : ℕ) (packet : Packet) (a : IpAddress) (p q : ℕ)
    → conversation proto packet a q p ≡ conversation proto packet a p q
unfolding conversation
conversation_ports proto packet a p q = rw (get_hash_ports a p proto q) refl

module _ (I : FlowIndex) where
  find_flow_same : (k : ℕ) (s : Store I TcpInfo) → find_flow I k k s ≡ I.find k s.manager.table
  unfolding find_flow
  find_flow_same k s = ground arith

  -- The second search has the key of the first one.
  pub find_flow-lookup :
      (proto : ℕ) (packet : Packet) (a : IpAddress) (p q : ℕ) (s : Store I TcpInfo)
      → find_flow I (conversation proto packet a p q) (conversation proto packet a q p) s
        ≡ lookup (conversation proto packet a p q) (entries_of I s)
  find_flow-lookup proto packet a p q s =
      let k = conversation proto packet a p q in
      rw (conversation_ports proto packet a p q) (find_flow_same k s ∙ I.find_lem k s.manager.table)

  -- A segment of a conversation that has a flow.
  pub get_flow_found :
      (t : TcpProtocol) (packet : Packet) (ipmux : IpMux) (h : TcpHeader) (s : Store I TcpInfo)
      (f : ℕ)
      → t.has_table ≡ true
      → lookup (key packet ipmux h) (entries_of I s) ≡ some f
      → get_flow I t packet ipmux h s
        ≡ ok (
          some f,
          record s {
            flows =
                update_flow f (λ g. set_flow_direction (direction_of h.source_port g) g) s.flows;
          },
        )
  unfolding get_flow
  get_flow_found t packet ipmux h s f on found =
      ground (arith, find_flow-lookup 6 packet ipmux.address h.source_port h.dest_port s)

  pub get_flow_off :
      (t : TcpProtocol) (packet : Packet) (ipmux : IpMux) (h : TcpHeader) (s : Store I TcpInfo)
      → t.has_table ≡ false
      → get_flow I t packet ipmux h s ≡ ok (none, s)
  unfolding get_flow
  get_flow_off t packet ipmux h s off = rw off refl

  pub get_flow_no_cache :
      (t : TcpProtocol) (packet : Packet) (ipmux : IpMux) (h : TcpHeader) (s : Store I TcpInfo)
      → t.has_table ≡ true
      → t.has_cache ≡ false
      → lookup (key packet ipmux h) (entries_of I s) ≡ none
      → get_flow I t packet ipmux h s ≡ ok (none, s)
  unfolding get_flow
  get_flow_no_cache t packet ipmux h s on off new =
      ground (arith, find_flow-lookup 6 packet ipmux.address h.source_port h.dest_port s)

  -- A segment of a conversation with no flow, and no flow left to open.
  pub get_flow_refused :
      (t : TcpProtocol) (packet : Packet) (ipmux : IpMux) (h : TcpHeader) (s s1 : Store I TcpInfo)
      → t.has_table ≡ true
      → t.has_cache ≡ true
      → lookup (key packet ipmux h) (entries_of I s) ≡ none
      → open_flow I 6
          (key packet ipmux h)
          t.sigs
          t.packet_time
          packet
          ipmux.address
          h.source_port
          h.dest_port
          s
        ≡ ok (none, s1)
      → get_flow I t packet ipmux h s ≡ ok (none, s1)
  unfolding get_flow
  get_flow_refused t packet ipmux h s s1 on cached new e =
      ground (arith, find_flow-lookup 6 packet ipmux.address h.source_port h.dest_port s)

  pub get_flow_opened :
      (t : TcpProtocol) (packet : Packet) (ipmux : IpMux) (h : TcpHeader)
      (s s1 s2 : Store I TcpInfo) (f : ℕ)
      → t.has_table ≡ true
      → t.has_cache ≡ true
      → lookup (key packet ipmux h) (entries_of I s) ≡ none
      → open_flow I 6
          (key packet ipmux h)
          t.sigs
          t.packet_time
          packet
          ipmux.address
          h.source_port
          h.dest_port
          s
        ≡ ok (some f, s1)
      → attach_tcp_info I f s1 ≡ ok s2
      → get_flow I t packet ipmux h s ≡ ok (some f, s2)
  unfolding get_flow
  get_flow_opened t packet ipmux h s s1 s2 f on cached new e e' =
      ground (arith, find_flow-lookup 6 packet ipmux.address h.source_port h.dest_port s)
