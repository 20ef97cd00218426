-- ===== src/Tcp/Whole.antt =====
-- `processPacket` of src/protocols/tcp/TCPProtocol.cc as a whole, on one packet and on any number.
use aiengine_rewritten_clean.Flow.{Flow}
use aiengine_rewritten_clean.Prelude.{
  ℕ, ◌≡◌, refl, ◌∙◌, inl, inr, ◌&&◌, Option, none, some, List, [], ◌∷◌, arith, Bool-cases,
  Option-cases, inc64,
}
use aiengine_rewritten_clean.Prelude.Int.{ℤ, ◌==ℤ◌}
use aiengine_rewritten_clean.Cache.{Cache, Outcome, ok, ◌>>=◌, lock}
use aiengine_rewritten_clean.Packet.{Packet}
use aiengine_rewritten_clean.Release.{tcp}
use aiengine_rewritten_clean.Table.{FlowIndex, Store}
use aiengine_rewritten_clean.Tcp.States.{closed}
use aiengine_rewritten_clean.Tcp.Info.{TcpInfo}
use aiengine_rewritten_clean.Tcp.Flows.{IpMux, TcpHeader, TcpProtocol, get_flow}
use aiengine_rewritten_clean.Tcp.Process.{
  World, Handlers, flow_at, change, account, compute, check_ip_set,
}
use aiengine_rewritten_clean.Tcp.Dispatch.{
  with_packet, to_upper, finish, wanted, dispatch, inspect, with_flow, process_packet,
  note_evidence, check_reject, bytes_of,
}
use aiengine_rewritten_clean.Tcp.Ready.{ReadyPool}
use aiengine_rewritten_clean.Tcp.Sessions.{InTable, get_flow-IsOwned}
use aiengine_rewritten_clean.Tcp.Steps.{
  IsSound, IsIn, IsCareful, change-IsSound, change-IsIn, compute-IsSound, check_ip_set-IsSound,
  check_reject-IsSound,
}
use aiengine_rewritten_clean.Tcp.Closing.{
  forward_flow-IsSound, retrieve-IsSound, check_timers-IsSound,
}

account-same :
    (packet : Packet) (bytes : ℤ) (g : Flow)
    → ((account packet bytes g).hash ≡ g.hash) × ((account packet bytes g).direction ≡ g.direction)
unfolding account
account-same packet bytes g = (refl, refl)

module _ (I : FlowIndex) {X : Type 0} where
  -- A call returns, and what it leaves is sound.
  abbrev pub Returns : Outcome (Packet × World I X) → Type 0
  Returns r = (p : Packet) × (w : World I X) × (r ≡ ok (p, w)) × IsSound w

  finish-Returns :
      (handlers : Handlers X) (f : ℕ) (packet : Packet) (w : World I X)
      → IsSound w
      → IsIn f w
      → Returns (finish I handlers f packet w)
  unfolding finish
  finish-Returns handlers f packet w s at =
      let r = check_reject-IsSound I handlers f w s at in
      let (w', e, s') = check_timers-IsSound I f (check_reject I handlers f w) r.0 in
      (note_evidence I f w packet, w', rw e refl, s')

  dispatch-Returns :
      (handlers : Handlers X) (f : ℕ) (h : TcpHeader) (packet : Packet) (bytes : ℤ) (info : TcpInfo)
      (w : World I X)
      → IsCareful handlers
      → IsSound w
      → IsIn f w
      → Returns (dispatch I handlers f h packet bytes info w)
  unfolding dispatch
  dispatch-Returns handlers f h packet bytes info w careful s at =
      elim (Option-cases (wanted handlers bytes)) [
        | inr (analyse, e) ↦
            let (w1, e1, s1, at1) =
              forward_flow-IsSound I handlers analyse f (to_upper h packet)
                (change I f with_packet w) careful (ground arith)
                (change-IsSound I f with_packet w (λ g. (refl, refl)) s)
                (change-IsIn I f with_packet w (λ g. refl) at) in
            let (p, w2, e2, s2) = finish-Returns handlers f (to_upper h packet) w1 s1 at1 in
            (p, w2, ground (arith, e, e1, e2), s2)
        | inl e ↦ elim (Bool-cases (info.state_prev ==ℤ closed && info.state_curr ==ℤ closed)) [
          | inl over ↦
              let (w1, e1, s1) = retrieve-IsSound I f w s at in
              (packet, w1, rw (e, dispatch) (rw over (rw e1 refl)), s1)
          | inr open' ↦
              let (p, w2, e2, s2) = finish-Returns handlers f packet w s at in
              (p, w2, rw (e, dispatch) (rw open' e2), s2)
        ]
      ]

  inspect_steps :
      (handlers : Handlers X) (ipmux : IpMux) (h : TcpHeader) (packet : Packet) (f i : ℕ)
      (c : Cache TcpInfo) (w w1 : World I X) (c1 : Cache TcpInfo)
      → compute I f i c h (bytes_of ipmux h) (change I f (account packet (bytes_of ipmux h)) w)
        ≡ ok w1
      → w1.store.pools tcp ≡ some c1
      → inspect I handlers ipmux h packet f i c w
        ≡ dispatch I handlers f h packet
            (bytes_of ipmux h)
            (c1.heap i)
            (check_ip_set I handlers f w1)
  unfolding inspect
  inspect_steps handlers ipmux h packet f i c w w1 c1 e there = rw e (rw there refl)

  inspect-Returns :
      (handlers : Handlers X) (ipmux : IpMux) (h : TcpHeader) (packet : Packet) (f i : ℕ)
      (c : Cache TcpInfo) (w : World I X)
      → IsCareful handlers
      → ReadyPool c
      → IsSound w
      → IsIn f w
      → Returns (inspect I handlers ipmux h packet f i c w)
  inspect-Returns handlers ipmux h packet f i c w careful ready s at =
      let bytes = bytes_of ipmux h in
      let counted = account packet bytes in
      let (w1, e1, s1, at1) =
        compute-IsSound I f i c h bytes (change I f counted w) ready
          (change-IsSound I f counted w (account-same packet bytes) s)
          (change-IsIn I f counted w (λ g. (account-same packet bytes g).0) at) in
      let (c1, there, _) = s1.ready.pool in
      let (s2, at2) = check_ip_set-IsSound I handlers f w1 s1 at1 in
      let (p, w2, e2, s3) =
        dispatch-Returns handlers f h packet bytes (c1.heap i) (check_ip_set I handlers f w1)
          careful s2 at2 in
      (p, w2, inspect_steps handlers ipmux h packet f i c w w1 c1 e1 there ∙ e2, s3)

  with_flow-Returns :
      (handlers : Handlers X) (ipmux : IpMux) (h : TcpHeader) (packet : Packet) (f : ℕ)
      (w : World I X)
      → IsCareful handlers
      → IsSound w
      → IsIn f w
      → Returns (with_flow I handlers ipmux h packet f w)
  unfolding with_flow
  with_flow-Returns handlers ipmux h packet f w careful s at =
      let (c, there, ready) = s.ready.pool in
      elim (Option-cases (lock c (flow_at I w f).links.tcp_info)) [
        | inl gone ↦ (packet, w, rw (there, with_flow) (rw gone refl), s)
        | inr (i, alive) ↦
            let (p, w1, e, s1) =
              inspect-Returns handlers ipmux h packet f i c w careful ready s at in
            (p, w1, rw (there, with_flow) (rw alive e), s1)
      ]

  -- From a sound state, with analysers that are careful, processPacket meets no null pointer and no
  -- read outside the tables of states, whatever the packet, and leaves a sound state.
  pub process_packet-IsSound :
      (handlers : Handlers X) (ipmux : IpMux) (h : TcpHeader) (packet : Packet) (w : World I X)
      → IsCareful handlers
      → IsSound w
      → (p : Packet) × (w' : World I X) × (process_packet I handlers ipmux h packet w ≡ ok (p, w'))
        × IsSound w'
  unfolding process_packet
  process_packet-IsSound handlers ipmux h packet w careful s =
      let timed = let t = w.proto in record t { packet_time = packet.packet_time } in
      let (o, st, e, owned, ready, there) =
        get_flow-IsOwned I timed packet ipmux h w.store s.owned s.ready in
      served o st e (record { owned = owned; ready = ready; cached = s.cached }) there
    where
      after_flow : Store I TcpInfo → World I X
      after_flow st = record w {
        proto =
            let t = w.proto in
            record t { packet_time = packet.packet_time; total_packets = inc64 t.total_packets };
        store = st;
      }

      timed : TcpProtocol
      timed = let t = w.proto in record t { packet_time = packet.packet_time }

      served :
          (o : Option ℕ) (st : Store I TcpInfo)
          → get_flow I timed packet ipmux h w.store ≡ ok (o, st)
          → IsSound (after_flow st)
          → InTable I o st
          → Returns (process_packet I handlers ipmux h packet w)
      served none st e s' there = (packet, after_flow st, rw (e, process_packet) refl, s')
      served (some f) st e s' there =
          let (p, w2, e2, s2) =
            with_flow-Returns handlers ipmux h packet f (after_flow st) careful s' there in
          (p, w2, rw (e, process_packet) e2, s2)

  -- Packets one after the other, each with what the layer below says of it.
  unfoldable pub process_all :
      Handlers X → List (IpMux × TcpHeader × Packet) → World I X → Outcome (World I X)
  unfolding process_packet
  process_all handlers [] w = ok w
  process_all handlers ((ipmux, h, packet) ∷ rest) w = do
    (p, w') ← process_packet I handlers ipmux h packet w
    process_all handlers rest w'

  -- From a sound state, with analysers that are careful, no sequence of packets makes processPacket
  -- meet a null pointer or read outside the tables of states, and the state after it is sound: no
  -- flow is in the table twice, or in the table and spare, each flow of the table is under its
  -- own identifier, and each TCP record is in a state of the diagram.
  pub process_all-IsSound :
      (handlers : Handlers X) (packets : List (IpMux × TcpHeader × Packet)) (w : World I X)
      → IsCareful handlers
      → IsSound w
      → (w' : World I X) × (process_all handlers packets w ≡ ok w') × IsSound w'
  unfolding process_all
  process_all-IsSound handlers [] w careful s = (w, refl, s)
  process_all-IsSound handlers ((ipmux, h, packet) ∷ rest) w careful s =
      let (p, w1, e1, s1) = process_packet-IsSound handlers ipmux h packet w careful s in
      let (w2, e2, s2) = process_all-IsSound handlers rest w1 careful s1 in (w2, rw e1 e2, s2)
