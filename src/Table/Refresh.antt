-- ===== src/Table/Refresh.antt =====
-- `updateFlowTime` of src/flow/FlowManager.cc keeps the index by time in order.
use aiengine_rewritten_clean.Table.Removed.{lookup-remove}
use aiengine_rewritten_clean.Prelude.{
  ℕ, ◌≡◌, ◌≢◌, refl, ◌∙◌, inl, inr, some, List, [], ◌∷◌, arith, Bool-cases, ◌==◌, none,
}
use aiengine_rewritten_clean.Prelude.Int.{ℤ, ◌≤ℤ◌}
use aiengine_rewritten_clean.Cache.{ok}
use aiengine_rewritten_clean.Table.{
  Entry, FlowIndex, Store, AllTimes, IsOrdered, lookup, remove, times, set_last_packet_time,
  update_flow_time,
}
use aiengine_rewritten_clean.Table.Timers.{entries_of}
use aiengine_rewritten_clean.Table.Owned.{
  IsOwned, held, held-remove, lookup-Inserted, held-Inserted,
}

AllTimes-remove :
    (P : ℕ → Type 0) (h : ℕ) (es : List Entry) → AllTimes P es → AllTimes P (remove h es)
AllTimes-remove P h [] a = tt
AllTimes-remove P h ((id, p) ∷ es) (a, as') = elim (Bool-cases (id == h)) [
  | inl same ↦ rw same (AllTimes-remove P h es as')
  | inr other ↦ rw other (a, AllTimes-remove P h es as')
]

IsOrdered-remove :
    (time : ℕ → ℤ) (h : ℕ) (es : List Entry) → IsOrdered time es → IsOrdered time (remove h es)
IsOrdered-remove time h [] o = tt
IsOrdered-remove time h ((id, p) ∷ es) (le, o) = elim (Bool-cases (id == h)) [
  | inl same ↦ rw same (IsOrdered-remove time h es o)
  | inr other ↦ rw other (AllTimes-remove _ h es le, IsOrdered-remove time h es o)
]

-- Times that agree on the flows of a list give it the same order.
AllTimes-agree :
    (time time' : ℕ → ℤ) (f r : ℕ) (es : List Entry)
    → ((q : ℕ) → q ≢ f → time q ≡ time' q)
    → r ≢ f
    → held f es ≡ 0
    → AllTimes (λ q. time r ≤ℤ time q) es
    → AllTimes (λ q. time' r ≤ℤ time' q) es
AllTimes-agree time time' f r [] agree other gone a = tt
AllTimes-agree time time' f r ((id, p) ∷ es) agree other gone (a, as') =
    let other' : p ≢ f = λ e. ground arith in
    (
      rw (← agree r other, ← agree p other') a,
      AllTimes-agree time time' f r es agree other (omega arith) as',
    )

IsOrdered-agree :
    (time time' : ℕ → ℤ) (f : ℕ) (es : List Entry)
    → ((q : ℕ) → q ≢ f → time q ≡ time' q)
    → held f es ≡ 0
    → IsOrdered time es
    → IsOrdered time' es
IsOrdered-agree time time' f [] agree gone o = tt
IsOrdered-agree time time' f ((id, p) ∷ es) agree gone (le, o) =
    let other : p ≢ f = λ e. ground arith in
    (
      AllTimes-agree time time' f p es agree other (omega arith) le,
      IsOrdered-agree time time' f es agree (omega arith) o,
    )

module _ (I : FlowIndex) {A : Type 0} where
  -- For a flow of the table, whose flows are apart and in order of their times, updateFlowTime meets
  -- no fault, the flow has the new time after it, and the entries are in order of the new times.
  pub update_flow_time-IsOrdered :
      (f time : ℕ) (s : Store I A)
      → IsOwned I s
      → lookup (s.flows.heap f).hash (entries_of I s) ≡ some f
      → IsOrdered (times s.flows) (entries_of I s)
      → (s' : Store I A) × (update_flow_time I f time s ≡ ok s')
        × ((s'.flows.heap f).current_time ≡ time)
        × IsOrdered (times s'.flows) (entries_of I s')
  unfolding update_flow_time
  update_flow_time-IsOrdered f time s o found ordered =
      let k = (s.flows.heap f).hash in
      let c = set_last_packet_time f time s.flows in
      let gone : held f (remove k (entries_of I s)) ≡ 0 =
        grind (
          arith,
          held-remove f k f (entries_of I s) (I.distinct s.manager.table) found,
          o.apart f,
        ) in
      let agree : (q : ℕ) → q ≢ f → times s.flows q ≡ times c q = λ q other. ground arith in
      let rest =
        IsOrdered-agree (times s.flows) (times c) f (remove k (entries_of I s)) agree gone
          (IsOrdered-remove (times s.flows) k (entries_of I s) ordered) in
      (
        record s {
          flows = c;
          manager = let m = s.manager in record m { table = I.modify (times c) (k, f) m.table };
        },
        rw (I.find_lem k s.manager.table ∙ found, update_flow_time) refl,
        ground arith,
        (I.modify_lem (times c) (k, f) s.manager.table found).ordered rest,
      )

  -- It keeps the flows of the table apart, and under their own identifiers.
  pub update_flow_time-IsOwned :
      (f time : ℕ) (s : Store I A)
      → IsOwned I s
      → lookup (s.flows.heap f).hash (entries_of I s) ≡ some f
      → (s' : Store I A) × (update_flow_time I f time s ≡ ok s') × IsOwned I s'
  unfolding update_flow_time
  update_flow_time-IsOwned f time s o found =
      let k = (s.flows.heap f).hash in
      let c = set_last_packet_time f time s.flows in
      let i = I.modify_lem (times c) (k, f) s.manager.table found in
      let distinct = I.distinct s.manager.table in
      let fresh : lookup k (remove k (entries_of I s)) ≡ none =
        ground (arith, lookup-remove k k (entries_of I s)) in
      (
        record s {
          flows = c;
          manager = let m = s.manager in record m { table = I.modify (times c) (k, f) m.table };
        },
        rw (I.find_lem k s.manager.table ∙ found, update_flow_time) refl,
        record {
          pool = record { bounded = o.pool.bounded; no_null = o.pool.no_null };
          named = λ h q there.
              let old : lookup h (entries_of I s) ≡ some q =
                ground (arith, lookup-Inserted h i fresh, lookup-remove h k (entries_of I s)) in
              ground (arith, o.named h q old);
          apart = λ q. omega (
            arith,
            held-Inserted q i,
            held-remove q k f (entries_of I s) distinct found,
            o.apart q,
          );
        },
      )
