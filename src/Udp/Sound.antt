-- ===== src/Udp/Sound.antt =====
-- Datagrams keep the flows of the table apart from each other and from the spare ones.
use aiengine_rewritten_clean.Prelude.{
  ℕ, ◌≡◌, refl, ap, ◌∙◌, inl, inr, Bool, true, false, Option, none, some, arith, Bool-cases,
  Option-cases, ◌==◌, if◌then◌else◌,
}
use aiengine_rewritten_clean.Prelude.Int.{pos, ◌-ℤ◌, ltb_ℤ}
use aiengine_rewritten_clean.Cache.{ok}
use aiengine_rewritten_clean.Flow.{Flow}
use aiengine_rewritten_clean.Packet.{Packet}
use aiengine_rewritten_clean.Table.{FlowIndex, lookup, update_timers}
use aiengine_rewritten_clean.Table.Timers.{entries_of}
use aiengine_rewritten_clean.Table.Owned.{IsOwned}
use aiengine_rewritten_clean.Table.Kept.{update_timers-IsOwned}
use aiengine_rewritten_clean.Table.Refresh.{update_flow_time-IsOwned}
use aiengine_rewritten_clean.Tcp.Opening.{update_flow-IsOwned}
use aiengine_rewritten_clean.Tcp.Process.{Handlers, Above, attach_set}
use aiengine_rewritten_clean.Tcp.Dispatch.{with_packet, wanted}
use aiengine_rewritten_clean.Tcp.Steps.{IsCareful, attach_set-same}
use aiengine_rewritten_clean.Udp.{UdpHeader, counted}
use aiengine_rewritten_clean.Udp.Process.{
  World, account, to_upper, after_reject, refresh_due, flow_at, change, count_datagram, matched,
  looked_up, check_ip_set, forward_flow, dispatch, note_evidence, check_reject, check_timers,
  with_flow,
}

after_reject-hash : (g : Flow) → (after_reject g).hash ≡ g.hash
after_reject-hash g = elim (Bool-cases g.partial_reject) [
  | inl part ↦
      ap (λ b. (if b then record g { reject = false } else record g { partial_reject = true }).hash)
        part
  | inr whole ↦
      ap (λ b. (if b then record g { reject = false } else record g { partial_reject = true }).hash)
        whole
]

module _ (I : FlowIndex) {X : Type 0} where
  -- The flows are apart, and the flow at hand is in the table, under its identifier.
  pub record Holds (f : ℕ) (w : World I X) : Type 0 where
    pub owned : IsOwned I w.store
    pub found : lookup (w.store.flows.heap f).hash (entries_of I w.store) ≡ some f

  change-Holds :
      (f : ℕ) (g : Flow → Flow) (w : World I X)
      → ((x : Flow) → (g x).hash ≡ x.hash)
      → Holds f w
      → Holds f (change I f g w)
  change-Holds f g w same h = record {
    owned = update_flow-IsOwned I f g w.store same h.owned;
    found = ground (arith, same (w.store.flows.heap f), h.found);
  }

  matched-Holds :
      (f : ℕ) (r : Option (ℕ × Option ℕ) × X) (w : World I X)
      → Holds f w
      → Holds f (matched I f r w)
  matched-Holds f (none, x) w h = record { owned = h.owned; found = h.found }
  matched-Holds f (some (set, m), x) w h =
      change-Holds f (attach_set set m) (record w { upper = x }) (λ g. (attach_set-same set m g).0)
        (record { owned = h.owned; found = h.found })

  looked_up-Holds :
      (lookup : Option (Flow → X → Option (ℕ × Option ℕ) × X)) (f : ℕ) (w : World I X)
      → Holds f w
      → Holds f (looked_up I lookup f w)
  looked_up-Holds none f w h = h
  looked_up-Holds (some g) f w h = matched-Holds f (g (flow_at I w f) w.upper) w h

  check_ip_set-Holds :
      (handlers : Handlers X) (f : ℕ) (w : World I X)
      → Holds f w
      → Holds f (check_ip_set I handlers f w)
  unfolding check_ip_set
  check_ip_set-Holds handlers f w h = elim (Bool-cases ((flow_at I w f).total_packets == 1)) [
    | inl first ↦ rw first (looked_up-Holds handlers.ipset_mng f w h)
    | inr later ↦ rw later h
  ]

  count_datagram-Holds :
      (h : UdpHeader) (packet : Packet) (f : ℕ) (w : World I X)
      → Holds f w
      → Holds f (count_datagram I h packet f w)
  unfolding count_datagram account
  count_datagram-Holds h packet f w s =
      change-Holds f (account h packet) _ (λ x. refl) (record { owned = s.owned; found = s.found })

  either-Holds :
      (f : ℕ) (b : Bool) (w1 w2 : World I X)
      → Holds f w1
      → Holds f w2
      → Holds f (if b then w1 else w2)
  either-Holds f true w1 w2 h1 h2 = h1
  either-Holds f false w1 w2 h1 h2 = h2

  check_reject-Holds :
      (handlers : Handlers X) (f : ℕ) (w : World I X)
      → Holds f w
      → Holds f (check_reject I handlers f w)
  unfolding check_reject
  check_reject-Holds handlers f w h =
      either-Holds f (flow_at I w f).reject _ w
        (change-Holds f after_reject
          (record w { upper = handlers.reject_func (flow_at I w f) w.upper }) after_reject-hash
          (record { owned = h.owned; found = h.found }))
        h

  dispatch-Holds :
      (handlers : Handlers X) (h : UdpHeader) (packet : Packet) (f : ℕ) (w : World I X)
      → IsCareful handlers
      → Holds f w
      → (p : Packet) × (w' : World I X) × (dispatch I handlers h packet f w ≡ ok (p, w'))
        × Holds f w'
  unfolding dispatch forward_flow
  dispatch-Holds handlers h packet f w careful s =
      elim (Option-cases (wanted handlers (counted h packet))) [
        | inl e ↦ (packet, w, rw (e, dispatch) refl, s)
        | inr (analyse, e) ↦
            let at = change-Holds f with_packet w (λ x. refl) s in
            let w0 = change I f with_packet w in
            let a : Above X = record {
              heap = w0.store.flows.heap;
              pools = w0.store.pools;
              hits = w0.hits;
              upper = w0.upper;
            } in
            let (b, returned, same, _) =
              careful.returns analyse (ground (arith, e)) f (to_upper h packet) a in
            (
              to_upper h packet,
              record w0 {
                store =
                    let st = w0.store in
                    record st {
                      flows = let k = st.flows in record k { heap = b.heap };
                      pools = b.pools;
                    };
                hits = b.hits;
                upper = b.upper;
              },
              rw (e, dispatch) (rw returned refl),
              record {
                owned = record {
                  pool = record {
                    bounded = at.owned.pool.bounded;
                    no_null = at.owned.pool.no_null;
                  };
                  named = λ k q there. (same q).0 ∙ at.owned.named k q there;
                  apart = at.owned.apart;
                };
                found = rw (same f).0 at.found;
              },
            )
      ]

  check_timers-IsOwned :
      (f : ℕ) (w : World I X)
      → Holds f w
      → (w' : World I X) × (check_timers I f w ≡ ok w') × IsOwned I w'.store
  unfolding check_timers
  check_timers-IsOwned f w h = elim (Bool-cases overdue) [
    | inl late ↦ (
      record w {
        proto = let u = w.proto in record u { last_timeout = u.packet_time };
        store = update_timers I (pos w.proto.packet_time) w.store;
      },
      rw late refl,
      update_timers-IsOwned I (pos w.proto.packet_time) w.store h.owned,
    )
    | inr early ↦ elim (Bool-cases (refresh_due (flow_at I w f).total_packets)) [
      | inl due ↦
          let (s', e, o) =
            update_flow_time-IsOwned I f w.proto.packet_time w.store h.owned h.found in
          (record w { store = s' }, rw (early, due) (rw e refl), o)
      | inr not_due ↦ (
        change I f (λ g. record g { current_time = w.proto.packet_time }) w,
        rw (early, not_due) refl,
        (change-Holds f (λ g. record g { current_time = w.proto.packet_time }) w (λ x. refl)
            h).owned,
      )
    ]
  ]
    where
      overdue : Bool
      overdue =
          ltb_ℤ (pos w.proto.last_timeout) (pos w.proto.packet_time -ℤ w.store.manager.timeout)

  -- A datagram of a flow.
  pub with_flow-IsOwned :
      (handlers : Handlers X) (h : UdpHeader) (packet : Packet) (f : ℕ) (w : World I X)
      → IsCareful handlers
      → Holds f w
      → (p : Packet) × (w' : World I X) × (with_flow I handlers h packet f w ≡ ok (p, w'))
        × IsOwned I w'.store
  unfolding with_flow
  with_flow-IsOwned handlers h packet f w careful s =
      let s1 =
        check_ip_set-Holds handlers f (count_datagram I h packet f w)
          (count_datagram-Holds h packet f w s) in
      let (p, w1, e1, s2) =
        dispatch-Holds handlers h packet f
          (check_ip_set I handlers f (count_datagram I h packet f w)) careful s1 in
      let (w2, e2, o) =
        check_timers-IsOwned f (check_reject I handlers f w1)
          (check_reject-Holds handlers f w1 s2) in
      (note_evidence I f w1 p, w2, rw e1 (rw e2 refl), o)
