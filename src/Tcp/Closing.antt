-- ===== src/Tcp/Closing.antt =====
-- The end of `processPacket` of src/protocols/tcp/TCPProtocol.cc keeps the state sound: the analysers,
-- the closing of a flow, and the timers.
use aiengine_rewritten_clean.Prelude.{
  ℕ, ◌≡◌, refl, ◌∙◌, inl, inr, Bool, false, Option, none, some, List, [], ◌∷◌, arith, Bool-cases,
  ◌==◌, bit_and, bit_and-mask_64,
}
use aiengine_rewritten_clean.Prelude.Int.{ℤ, pos, ltb_ℤ, ◌-ℤ◌}
use aiengine_rewritten_clean.Cache.{Cache, Outcome, ok, release}
use aiengine_rewritten_clean.Cache.Inv.{release-IsValid}
use aiengine_rewritten_clean.Flow.{Flow}
use aiengine_rewritten_clean.Packet.{Packet}
use aiengine_rewritten_clean.Release.{CacheManager, tcp, link, live_flow, release_flow, give_back}
use aiengine_rewritten_clean.Release.Pools.{returned, release_flow-at}
use aiengine_rewritten_clean.Table.{Entry, FlowIndex, Store, expire, update_timers}
use aiengine_rewritten_clean.Table.Order.{leading}
use aiengine_rewritten_clean.Table.Timers.{
  entries_of, is_over, expire_all, update_timers-expire_all, release-heap, expire-heap,
}
use aiengine_rewritten_clean.Table.Kept.{update_timers-IsOwned}
use aiengine_rewritten_clean.Table.Removed.{remove_flow-found, taken_out, taken_out-IsOwned}
use aiengine_rewritten_clean.Tcp.Info.{TcpInfo}
use aiengine_rewritten_clean.Tcp.Process.{World, Handlers, Above, flow_at, change}
use aiengine_rewritten_clean.Tcp.Dispatch.{forward_flow, retrieve, check_timers}
use aiengine_rewritten_clean.Tcp.Ready.{ReadyPool, IsReady}
use aiengine_rewritten_clean.Tcp.Steps.{IsSound, IsIn, IsCareful, change-IsSound}

-- The release of a flow's records keeps the pool of TCP records ready.
release_flow-ReadyPool :
    (f : Flow) (m : CacheManager TcpInfo) (c : Cache TcpInfo)
    → m tcp ≡ some c
    → ReadyPool c
    → (c' : Cache TcpInfo) × (release_flow f m tcp ≡ some c') × ReadyPool c'
release_flow-ReadyPool f m c there r = elim (Bool-cases (returned f tcp)) [
  | inr kept ↦ (c, release_flow-at f m tcp ∙ rw (kept, there) refl, r)
  | inl back ↦
      let (c', e, r') = given (link tcp f.links) in
      (c', release_flow-at f m tcp ∙ rw (back, there) e, r')
]
  where
    given : (p : Option ℕ) → (c' : Cache TcpInfo) × (give_back p (some c) ≡ some c') × ReadyPool c'
    given none = (c, refl, r)
    given (some p) = (
      release (some p) c,
      refl,
      record {
        valid = release-IsValid p c r.valid;
        states = λ i. rw (release-heap p c) (r.states i);
      },
    )

module _ (I : FlowIndex) where
  expire-IsReady : (e : Entry) (s : Store I TcpInfo) → IsReady s → IsReady (expire I e s)
  unfolding expire
  expire-IsReady (id, p) s r =
      let (c, there, ready) = r.pool in
      record {
        pool = release_flow-ReadyPool (live_flow s.pools (s.flows.heap p)) s.pools c there ready;
        directed = λ q. rw (expire-heap I (id, p) s) (r.directed q);
      }

  expire_all-IsReady :
      (gone : List Entry) (s : Store I TcpInfo) → IsReady s → IsReady (expire_all I gone s)
  unfolding expire_all
  expire_all-IsReady [] s r = r
  expire_all-IsReady (e ∷ gone) s r = expire_all-IsReady gone (expire I e s) (expire-IsReady e s r)

  update_timers-IsReady :
      (now : ℤ) (s : Store I TcpInfo) → IsReady s → IsReady (update_timers I now s)
  update_timers-IsReady now s r =
      rw (update_timers-expire_all I now s)
        (expire_all-IsReady (leading (is_over I now s) (entries_of I s)) s r)

-- The place of a flow in the index is never brought up to date: the test of the bit fails.
never_moved : (n : ℕ) → (bit_and n 64 == 1) ≡ false
never_moved n = ground (arith, bit_and-mask_64 n)

module _ (I : FlowIndex) {X : Type 0} where
  pub forward_flow-IsSound :
      (handlers : Handlers X) (analyse : ℕ → Packet → Above X → Outcome (Above X)) (f : ℕ)
      (packet : Packet) (w : World I X)
      → IsCareful handlers
      → handlers.flow_forwarder ≡ some analyse
      → IsSound w
      → IsIn f w
      → (w' : World I X) × (forward_flow I analyse f packet w ≡ ok w') × IsSound w' × IsIn f w'
  unfolding forward_flow
  forward_flow-IsSound handlers analyse f packet w careful there s at =
      let a : Above X = record {
        heap = w.store.flows.heap;
        pools = w.store.pools;
        hits = w.hits;
        upper = w.upper;
      } in
      let (b, e, same, pools) = careful.returns analyse there f packet a in
      let (c, there_c, r) = s.ready.pool in
      (
        record w {
          store =
              let st = w.store in
              record st { flows = let k = st.flows in record k { heap = b.heap }; pools = b.pools };
          hits = b.hits;
          upper = b.upper;
        },
        rw e refl,
        record {
          owned = record {
            pool = record { bounded = s.owned.pool.bounded; no_null = s.owned.pool.no_null };
            named = λ h q found. (same q).0 ∙ s.owned.named h q found;
            apart = s.owned.apart;
          };
          ready = record {
            pool = (c, pools ∙ there_c, r);
            directed = λ q. rw (same q).1 (s.ready.directed q);
          };
          cached = s.cached;
        },
        rw (same f).0 at,
      )

  -- A closed flow.
  pub retrieve-IsSound :
      (f : ℕ) (w : World I X)
      → IsSound w
      → IsIn f w
      → (w' : World I X) × (retrieve I f w ≡ ok w') × IsSound w'
  unfolding retrieve
  retrieve-IsSound f w s at =
      let (c, there, r) = s.ready.pool in
      let (c', there', r') =
        release_flow-ReadyPool (live_flow w.store.pools (flow_at I w f)) w.store.pools c there r in
      let mid =
        let st = w.store in
        record st { pools = release_flow (live_flow st.pools (flow_at I w f)) st.pools } in
      let o =
        taken_out-IsOwned I f mid at
          (record { pool = s.owned.pool; named = s.owned.named; apart = s.owned.apart }) in
      (
        record w { store = taken_out I f mid },
        rw (remove_flow-found I f mid at) (rw s.cached refl),
        record {
          owned = o;
          ready = record {
            pool = (c', there', r');
            directed = λ q. rw (release-heap f w.store.flows) (s.ready.directed q);
          };
          cached = s.cached;
        },
      )

  -- More than a timeout has passed since the timers were run.
  abbrev pub overdue : World I X → Bool
  overdue w = ltb_ℤ (pos w.proto.last_timeout) (pos w.proto.packet_time -ℤ w.store.manager.timeout)

  -- Unless the timers are run, whatever the number of the flow's packets, the flow gets the time of
  -- the packet where it stands: the table and the order of its index stay as they were.
  pub check_timers-in_place :
      (f : ℕ) (w : World I X)
      → overdue w ≡ false
      → check_timers I f w
        ≡ ok (change I f (λ g. record g { current_time = w.proto.packet_time }) w)
  unfolding check_timers
  check_timers-in_place f w early = rw (early, never_moved (flow_at I w f).total_packets) refl

  pub check_timers-IsSound :
      (f : ℕ) (w : World I X)
      → IsSound w
      → (w' : World I X) × (check_timers I f w ≡ ok w') × IsSound w'
  unfolding check_timers
  check_timers-IsSound f w s = elim (Bool-cases (overdue w)) [
    | inl late ↦ (
      record w {
        proto = let t = w.proto in record t { last_timeout = t.packet_time };
        store = update_timers I (pos w.proto.packet_time) w.store;
      },
      rw late refl,
      record {
        owned = update_timers-IsOwned I (pos w.proto.packet_time) w.store s.owned;
        ready = update_timers-IsReady I (pos w.proto.packet_time) w.store s.ready;
        cached = s.cached;
      },
    )
    | inr early ↦ (
      change I f (λ g. record g { current_time = w.proto.packet_time }) w,
      check_timers-in_place f w early,
      change-IsSound I f (λ g. record g { current_time = w.proto.packet_time }) w
          (λ g. (refl, refl)) s,
    )
  ]
