-- ===== src/Tcp/Sessions.antt =====
-- The flow that `TCPProtocol::getFlow` returns: it never faults, a flow that is in use is never
-- opened a second time, and the answer to a segment belongs to the segment's flow.
use aiengine_rewritten_clean.Tcp.Process.{direction_index}
use aiengine_rewritten_clean.Tcp.Machine
use aiengine_rewritten_clean.Tcp.Machine.{Side, side}
use aiengine_rewritten_clean.Tcp.Ready.{IsReady, IsDirected, update-holds}
use aiengine_rewritten_clean.Tcp.Serving.{
  key, get_flow_off, get_flow_no_cache, get_flow_refused, get_flow_opened, get_flow_found,
}
use aiengine_rewritten_clean.Prelude.{
  ℕ, ◌≡◌, refl, sym, ap, ◌∙◌, inl, inr, true, Option, none, some, arith, Bool-cases, Option-cases,
  ◌==◌, if◌then◌else◌, subst,
}
use aiengine_rewritten_clean.Cache.{Outcome, ok, fault}
use aiengine_rewritten_clean.Flow.{forward, backward, Flow}
use aiengine_rewritten_clean.Address.Symmetry.{answer, get_hash-answer}
use aiengine_rewritten_clean.Packet.{Packet}
use aiengine_rewritten_clean.Table.{FlowIndex, Store, lookup}
use aiengine_rewritten_clean.Table.Timers.{entries_of}
use aiengine_rewritten_clean.Table.Owned.{IsOwned}
use aiengine_rewritten_clean.Tcp.Info.{TcpInfo}
use aiengine_rewritten_clean.Tcp.Flows.{
  IpMux, TcpHeader, TcpProtocol, conversation, set_flow_direction, direction_of, get_flow,
  update_flow,
}
use aiengine_rewritten_clean.Tcp.Opening.{update_flow-IsOwned, open_flow_cases, attach-Attached}

-- A segment that goes the other way, under the same tag.
pub record Answers (packet : Packet) (ipmux : IpMux) (h : TcpHeader) (packet' : Packet)
    (ipmux' : IpMux) (h' : TcpHeader) : Type 0 where
  pub address_eq : ipmux'.address ≡ answer ipmux.address
  pub ports : (h'.source_port ≡ h.dest_port) × (h'.dest_port ≡ h.source_port)
  pub tags : (packet'.have_tag ≡ packet.have_tag) × (packet'.tag ≡ packet.tag)

key-Answers :
    (packet : Packet) (ipmux : IpMux) (h : TcpHeader) (packet' : Packet) (ipmux' : IpMux)
    (h' : TcpHeader)
    → Answers packet ipmux h packet' ipmux' h'
    → key packet' ipmux' h' ≡ key packet ipmux h
unfolding conversation
key-Answers packet ipmux h packet' ipmux' h' a =
    rw
      (
        a.address_eq,
        a.ports.0,
        a.ports.1,
        a.tags.0,
        a.tags.1,
        get_hash-answer ipmux.address h.source_port 6 h.dest_port,
      )
      refl

direction_of-side :
    (port : ℕ) (g : Flow) → (d : Side) × (direction_index (direction_of port g) ≡ side d)
direction_of-side port g = elim (Bool-cases (port == g.source_port)) [
  | inl h ↦ rw h (Machine.forward, refl)
  | inr h ↦ rw h (Machine.backward, refl)
]

module _ (I : FlowIndex) where
  -- A flow that is returned is in the table, under its identifier.
  abbrev pub InTable : Option ℕ → Store I TcpInfo → Type 0
  InTable none s = Unit {0}
  InTable (some f) s = lookup (s.flows.heap f).hash (entries_of I s) ≡ some f

  once :
      (h f : ℕ) (s : Store I TcpInfo)
      → IsOwned I s
      → lookup h (entries_of I s) ≡ some f
      → InTable (some f) s
  once h f s o found = rw (o.named h f found) found

  -- From a store whose flows are apart, and whose pool of TCP records is there and valid, in
  -- which each record is in a state of the diagram and each flow has a direction, getFlow meets no
  -- fault and leaves such a store, and the flow that it returns, if any, stands in the table under
  -- its identifier.
  pub get_flow-IsOwned :
      (t : TcpProtocol) (packet : Packet) (ipmux : IpMux) (h : TcpHeader) (s : Store I TcpInfo)
      → IsOwned I s
      → IsReady s
      → (o : Option ℕ) × (s' : Store I TcpInfo) × (get_flow I t packet ipmux h s ≡ ok (o, s'))
        × IsOwned I s'
        × IsReady s'
        × InTable o s'
  get_flow-IsOwned t packet ipmux h s owned pool = elim (Bool-cases t.has_table) [
    | inr off ↦ (none, s, get_flow_off I t packet ipmux h s off, owned, pool, tt)
    | inl on ↦ elim (Option-cases (lookup (key packet ipmux h) (entries_of I s))) [
      | inr (f, found) ↦
          let o =
            update_flow-IsOwned I f (λ g. set_flow_direction (direction_of h.source_port g) g) s
              (λ g. refl) owned in
          (
            some f,
            _,
            get_flow_found I t packet ipmux h s f on found,
            o,
            directed f,
            once (key packet ipmux h) f _ o found,
          )
      | inl new ↦ elim (Bool-cases t.has_cache) [
        | inr off ↦ (none, s, get_flow_no_cache I t packet ipmux h s on off new, owned, pool, tt)
        | inl cached ↦ opened on cached new
      ]
    ]
  ]
    where
      directed :
          (f : ℕ)
          → IsReady {I = I} (record s {
            flows =
                update_flow f (λ g. set_flow_direction (direction_of h.source_port g) g) s.flows;
          })
      directed f = record {
        pool = pool.pool;
        directed =
            update-holds IsDirected s.flows.heap f
              (set_flow_direction (direction_of h.source_port (s.flows.heap f)) (s.flows.heap f))
              (direction_of-side h.source_port (s.flows.heap f)) pool.directed;
      }

      opened :
          t.has_table ≡ true
          → t.has_cache ≡ true
          → lookup (key packet ipmux h) (entries_of I s) ≡ none
          → (o : Option ℕ) × (s' : Store I TcpInfo) × (get_flow I t packet ipmux h s ≡ ok (o, s'))
            × IsOwned I s'
            × IsReady s'
            × InTable o s'
      opened on cached new =
          elim (open_flow_cases I 6 (key packet ipmux h) t.sigs t.packet_time packet ipmux.address
            h.source_port h.dest_port s owned new) [
              | inl (c, e, o, kept) ↦ (
                none,
                _,
                get_flow_refused I t packet ipmux h s _ on cached new e,
                o,
                kept pool,
                tt,
              )
              | inr (f, s1, e, op) ↦
                  let (s2, e2, at) = attach-Attached I f s1 op.owned (op.ready pool) in
                  (
                    some f,
                    s2,
                    get_flow_opened I t packet ipmux h s s1 s2 f on cached new e e2,
                    at.owned,
                    at.ready,
                    once (key packet ipmux h) f s2 at.owned (
                        ap (λ m. lookup (key packet ipmux h) (I.entries m.table)) at.manager_eq
                        ∙ op.found),
                  )
            ]

  same_result : (a b : Option ℕ × Store I TcpInfo) → ok a ≡ ok b → (a.0 ≡ b.0) × (a.1 ≡ b.1)
  same_result a b e = (ap (λ r. (value r).0) e, ap (λ r. (value r).1) e)
    where
      value : Outcome (Option ℕ × Store I TcpInfo) → Option ℕ × Store I TcpInfo
      value (ok r) = r
      value fault = a

  opened_by :
      (t : TcpProtocol) (packet : Packet) (ipmux : IpMux) (h : TcpHeader) (s s' : Store I TcpInfo)
      (f : ℕ)
      → IsOwned I s
      → IsReady s
      → t.has_table ≡ true
      → t.has_cache ≡ true
      → lookup (key packet ipmux h) (entries_of I s) ≡ none
      → get_flow I t packet ipmux h s ≡ ok (some f, s')
      → (lookup (key packet ipmux h) (entries_of I s') ≡ some f)
        × ((s'.flows.heap f).source_port ≡ h.source_port)
  opened_by t packet ipmux h s s' f owned pool on cached new got =
      elim (open_flow_cases I 6 (key packet ipmux h) t.sigs t.packet_time packet ipmux.address
        h.source_port h.dest_port s owned new) [
          | inl (c, e, _, _) ↦
              let (no_flow, _) =
                same_result _ _
                  (sym (get_flow_refused I t packet ipmux h s _ on cached new e) ∙ got) in
              absurd (ground arith)
          | inr (g, s1, e, op) ↦
              let (s2, e2, at) = attach-Attached I g s1 op.owned (op.ready pool) in
              let (ef, es) =
                same_result _ _
                  (sym (get_flow_opened I t packet ipmux h s s1 s2 g on cached new e e2) ∙ got) in
              (
                ap (λ x. lookup (key packet ipmux h) (entries_of I x)) (sym es)
                    ∙ ap (λ m. lookup (key packet ipmux h) (I.entries m.table)) at.manager_eq
                    ∙ op.found
                    ∙ ef,
                (let eg : g ≡ f = ground arith in
                    ap (λ x. (x.flows.heap f).source_port) (sym es)
                    ∙ subst (λ x. (s2.flows.heap x).source_port ≡ (s1.flows.heap x).source_port) eg
                        at.port_eq
                    ∙ subst (λ x. (s1.flows.heap x).source_port ≡ h.source_port) eg op.port_eq),
              )
        ]

  -- When a segment opens a flow, the answer to it, with the addresses and the ports the other way
  -- round and under the same tag, gets this flow, and is taken for one of the other direction, unless
  -- the two ports are the same.
  pub get_flow-answer :
      (t t' : TcpProtocol) (packet packet' : Packet) (ipmux ipmux' : IpMux) (h h' : TcpHeader)
      (s s' : Store I TcpInfo) (f : ℕ)
      → IsOwned I s
      → IsReady s
      → t.has_table ≡ true
      → t.has_cache ≡ true
      → t'.has_table ≡ true
      → lookup (key packet ipmux h) (entries_of I s) ≡ none
      → get_flow I t packet ipmux h s ≡ ok (some f, s')
      → Answers packet ipmux h packet' ipmux' h'
      → (s'' : Store I TcpInfo) × (get_flow I t' packet' ipmux' h' s' ≡ ok (some f, s''))
        × ((s''.flows.heap f).direction
            ≡ (if h.dest_port == h.source_port then forward else backward))
  get_flow-answer t t' packet packet' ipmux ipmux' h h' s s' f owned pool on cached on' new got
        back =
      let k : key packet' ipmux' h' ≡ key packet ipmux h =
        key-Answers packet ipmux h packet' ipmux' h' back in
      let (found, port) = opened_by t packet ipmux h s s' f owned pool on cached new got in
      (
        _,
        get_flow_found I t' packet' ipmux' h' s' f on'
            (subst (λ x. lookup x (entries_of I s') ≡ some f) (sym k) found),
        ground (arith, port, back.ports.0),
      )
