-- ===== src/Tcp/Steps.antt =====
-- The steps of `processPacket` of src/protocols/tcp/TCPProtocol.cc keep the state sound.
use aiengine_rewritten_clean.Prelude.{
  ℕ, ◌≡◌, refl, inl, inr, true, false, Option, none, some, arith, Bool-cases, ◌==◌, if◌then◌else◌,
}
use aiengine_rewritten_clean.Prelude.Int.{ℤ}
use aiengine_rewritten_clean.Cache.{Cache, Outcome, ok, update}
use aiengine_rewritten_clean.Flow.{Flow}
use aiengine_rewritten_clean.Packet.{Packet}
use aiengine_rewritten_clean.Release.{tcp, number}
use aiengine_rewritten_clean.Table.{FlowIndex, lookup}
use aiengine_rewritten_clean.Table.Timers.{entries_of}
use aiengine_rewritten_clean.Table.Owned.{IsOwned}
use aiengine_rewritten_clean.Tcp.Info.{TcpInfo}
use aiengine_rewritten_clean.Tcp.Compute.{compute_state, FlowState}
use aiengine_rewritten_clean.Tcp.Machine.{compute_state-next}
use aiengine_rewritten_clean.Tcp.Flows.{TcpHeader, update_flow}
use aiengine_rewritten_clean.Tcp.Process.{
  World, Handlers, Above, direction_index, flow_at, change, compute, check_ip_set, matched,
  looked_up, attach_set,
}
use aiengine_rewritten_clean.Tcp.Dispatch.{check_reject}
use aiengine_rewritten_clean.Tcp.Ready.{InDiagram, IsDirected, ReadyPool, IsReady, update-holds}
use aiengine_rewritten_clean.Tcp.Opening.{update_flow-IsOwned}

-- The flows are apart, the records and the flows are as the segments need them, and there is a pool of
-- flows to go back to.
pub record IsSound {I : FlowIndex} {X : Type 0} (w : World I X) : Type 0 where
  pub owned : IsOwned I w.store
  pub ready : IsReady w.store
  pub cached : w.proto.has_cache ≡ true

-- The flow is in the table, under its identifier.
abbrev pub IsIn : {I : FlowIndex} {X : Type 0} → ℕ → World I X → Type 0
IsIn {I} f w = lookup (w.store.flows.heap f).hash (entries_of I w.store) ≡ some f

-- What is relied on of the analysers: they return, and leave the identifier and the direction of
-- each flow and the pool of TCP records as they were.
pub record IsCareful {X : Type 0} (handlers : Handlers X) : Type 0 where
  pub returns :
      (analyse : ℕ → Packet → Above X → Outcome (Above X))
      → handlers.flow_forwarder ≡ some analyse
      → (f : ℕ) (packet : Packet) (a : Above X)
      → (b : Above X) × (analyse f packet a ≡ ok b)
        × ((q : ℕ)
            → ((b.heap q).hash ≡ (a.heap q).hash) × ((b.heap q).direction ≡ (a.heap q).direction))
        × (b.pools tcp ≡ a.pools tcp)

pub attach_set-same :
    (set : ℕ) (m : Option ℕ) (g : Flow)
    → ((attach_set set m g).hash ≡ g.hash) × ((attach_set set m g).direction ≡ g.direction)
attach_set-same set none g = (refl, refl)
attach_set-same set (some m) g = (refl, refl)

module _ (I : FlowIndex) {X : Type 0} where
  -- A flow is changed, but not its identifier or its direction.
  pub change-IsSound :
      (f : ℕ) (g : Flow → Flow) (w : World I X)
      → ((x : Flow) → ((g x).hash ≡ x.hash) × ((g x).direction ≡ x.direction))
      → IsSound w
      → IsSound (change I f g w)
  change-IsSound f g w same s = record {
    owned = update_flow-IsOwned I f g w.store (λ x. (same x).0) s.owned;
    ready = record {
      pool = s.ready.pool;
      directed =
          update-holds IsDirected w.store.flows.heap f (g (w.store.flows.heap f))
            (rw (same (w.store.flows.heap f)).1 (s.ready.directed f)) s.ready.directed;
    };
    cached = s.cached;
  }

  pub change-IsIn :
      (f : ℕ) (g : Flow → Flow) (w : World I X)
      → ((x : Flow) → (g x).hash ≡ x.hash)
      → IsIn f w
      → IsIn f (change I f g w)
  change-IsIn f g w same i = ground (arith, same (w.store.flows.heap f))

  -- What `compute` leaves, by what `computeState` gives.
  abbrev computed : ℕ → ℕ → Cache TcpInfo → FlowState → World I X → World I X
  computed f i c t w = record w {
    proto = let p = w.proto in record p { totals = t.totals };
    hits = t.hits;
    store =
        let s = w.store in
        record s {
          flows = update_flow f (λ g. record g { pa = t.pa }) s.flows;
          pools = λ k.
              if number k == number tcp
              then some (record c { heap = update c.heap i t.info })
              else s.pools k;
        };
  }

  abbrev before : ℕ → ℕ → Cache TcpInfo → World I X → FlowState
  before f i c w = record {
    info = c.heap i;
    pa = (flow_at I w f).pa;
    hits = w.hits;
    totals = w.proto.totals;
  }

  compute-computed :
      (f i : ℕ) (c : Cache TcpInfo) (h : TcpHeader) (bytes : ℤ) (w : World I X) (t : FlowState)
      → compute_state h.segment (direction_index (flow_at I w f).direction) bytes (before f i c w)
        ≡ some t
      → compute I f i c h bytes w ≡ ok (computed f i c t w)
  unfolding compute
  compute-computed f i c h bytes w t e = rw (e, compute) refl

  computed-IsSound :
      (f i : ℕ) (c : Cache TcpInfo) (t : FlowState) (w : World I X)
      → InDiagram t.info
      → ReadyPool c
      → IsSound w
      → IsSound (computed f i c t w)
  computed-IsSound f i c t w d r s =
      let changed = change-IsSound f (λ g. record g { pa = t.pa }) w (λ x. (refl, refl)) s in
      record {
        owned = record {
          pool = changed.owned.pool;
          named = changed.owned.named;
          apart = changed.owned.apart;
        };
        ready = record {
          pool = (
            record c { heap = update c.heap i t.info },
            refl,
            record {
              valid = record { bounded = r.valid.bounded; no_null = r.valid.no_null };
              states = update-holds InDiagram c.heap i t.info d r.states;
            },
          );
          directed = changed.ready.directed;
        };
        cached = s.cached;
      }

  -- `computeState` finds its entry in the tables.
  pub compute-IsSound :
      (f i : ℕ) (c : Cache TcpInfo) (h : TcpHeader) (bytes : ℤ) (w : World I X)
      → ReadyPool c
      → IsSound w
      → IsIn f w
      → (w' : World I X) × (compute I f i c h bytes w ≡ ok w') × IsSound w' × IsIn f w'
  compute-IsSound f i c h bytes w r s at =
      let (d, side_eq) = s.ready.directed f in
      let (q, now) = r.states i in
      let (t, e, curr, _) = compute_state-next h.segment d bytes q (before f i c w) now in
      (
        computed f i c t w,
        compute-computed f i c h bytes w t (rw side_eq e),
        computed-IsSound f i c t w (_, curr) r s,
        change-IsIn f (λ g. record g { pa = t.pa }) w (λ x. refl) at,
      )

  -- Only the state of the other components is changed.
  upper-IsSound : (x : X) (w : World I X) → IsSound w → IsSound (record w { upper = x })
  upper-IsSound x w s = record { owned = s.owned; ready = s.ready; cached = s.cached }

  matched-IsSound :
      (f : ℕ) (r : Option (ℕ × Option ℕ) × X) (w : World I X)
      → IsSound w
      → IsIn f w
      → IsSound (matched I f r w) × IsIn f (matched I f r w)
  matched-IsSound f (none, x) w s at = (upper-IsSound x w s, at)
  matched-IsSound f (some (set, m), x) w s at = (
    change-IsSound f (attach_set set m) _ (attach_set-same set m) (upper-IsSound x w s),
    change-IsIn f (attach_set set m) (record w { upper = x }) (λ g. (attach_set-same set m g).0) at,
  )

  looked_up-IsSound :
      (lookup : Option (Flow → X → Option (ℕ × Option ℕ) × X)) (f : ℕ) (w : World I X)
      → IsSound w
      → IsIn f w
      → IsSound (looked_up I lookup f w) × IsIn f (looked_up I lookup f w)
  looked_up-IsSound none f w s at = (s, at)
  looked_up-IsSound (some g) f w s at = matched-IsSound f (g (flow_at I w f) w.upper) w s at

  pub check_ip_set-IsSound :
      (handlers : Handlers X) (f : ℕ) (w : World I X)
      → IsSound w
      → IsIn f w
      → IsSound (check_ip_set I handlers f w) × IsIn f (check_ip_set I handlers f w)
  unfolding check_ip_set
  check_ip_set-IsSound handlers f w s at = elim (Bool-cases ((flow_at I w f).total_packets == 1)) [
    | inl first ↦ rw first (looked_up-IsSound handlers.ipset_mng f w s at)
    | inr later ↦ rw later (s, at)
  ]

  pub check_reject-IsSound :
      (handlers : Handlers X) (f : ℕ) (w : World I X)
      → IsSound w
      → IsIn f w
      → IsSound (check_reject I handlers f w) × IsIn f (check_reject I handlers f w)
  unfolding check_reject
  check_reject-IsSound handlers f w s at = elim (Bool-cases (flow_at I w f).reject) [
    | inr kept ↦ rw kept (s, at)
    | inl rejected ↦ rw rejected (
      change-IsSound f (λ g. record g { reject = false; partial_reject = true }) _
          (λ g. (refl, refl)) (upper-IsSound (handlers.reject_func (flow_at I w f) w.upper) w s),
      change-IsIn f (λ g. record g { reject = false; partial_reject = true }) w (λ g. refl) at,
    )
  ]
