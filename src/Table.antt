-- ===== src/Table.antt =====
-- src/flow/FlowManager.h and src/flow/FlowManager.cc, with src/flow/FlowCache.h: the table of the
-- flows that are followed, and the timers that take the idle ones out.
--
-- A flow is an identity in the pool of flows, whose `heap` has its fields. The table is a
-- multi_index container of Boost, a parameter: FlowIndex says what is relied on. It is seen as the
-- list of its entries in the order of the index by time, each an identifier and a flow. The
-- identifier of a flow does not change while the flow is in the table.
pub mod Order
-- pub mod Lookup
pub mod Timers
pub mod Sorted
pub mod Owned
pub mod Kept
pub mod Removed
pub mod Refresh
pub mod Tests
use aiengine_rewritten_clean.Prelude.{
  ℕ, ◌≡◌, refl, Bool, true, false, Option, none, some, List, [], ◌∷◌, ◌++◌, ◌==◌, if◌then◌else◌,
  inc32, not,
}
use aiengine_rewritten_clean.Prelude.Int.{ℤ, pos, ◌+ℤ◌, ltb_ℤ, to_int, ◌≤ℤ◌}
use aiengine_rewritten_clean.Cache.{Cache, Outcome, ok, fault, update, acquire, release}
use aiengine_rewritten_clean.Flow.{Flow, reset}
use aiengine_rewritten_clean.Release.{CacheManager, live_flow, release_flow}

-- An identifier and the flow that is entered under it.
abbrev pub Entry : Type 0
Entry = ℕ × ℕ

-- The flow under an identifier, and the entries without those under it.
abbrev pub lookup : ℕ → List Entry → Option ℕ
lookup h [] = none
lookup h ((id, p) ∷ es) = if id == h then some p else lookup h es

abbrev pub remove : ℕ → List Entry → List Entry
remove h [] = []
remove h ((id, p) ∷ es) = let rest = remove h es in if id == h then rest else (id, p) ∷ rest

abbrev pub AllTimes : (ℕ → Type 0) → List Entry → Type 0
AllTimes P [] = Unit {0}
AllTimes P ((id, p) ∷ es) = P p × AllTimes P es

-- The entries stand by time, the least first.
abbrev pub IsOrdered : (ℕ → ℤ) → List Entry → Type 0
IsOrdered time [] = Unit {0}
IsOrdered time ((id, p) ∷ es) = AllTimes (λ q. time p ≤ℤ time q) es × IsOrdered time es

-- An identifier occurs once.
abbrev pub IsDistinct : List Entry → Type 0
IsDistinct [] = Unit {0}
IsDistinct ((id, p) ∷ es) = (lookup id es ≡ none) × IsDistinct es

-- Where an entry is put: somewhere, and in order if the others stand in order.
pub record Inserted (time : ℕ → ℤ) (e : Entry) (old new : List Entry) : Type 0 where
  pub before : List Entry
  pub after : List Entry
  pub old_eq : old ≡ before ++ after
  pub new_eq : new ≡ before ++ (e ∷ after)
  pub ordered : IsOrdered time old → IsOrdered time new

-- The container: an index by identifier, each of which occurs once, and one ordered by time.
pub record FlowIndex : Type 1 where
  pub Table : Type 0
  pub entries : Table → List Entry
  pub find : ℕ → Table → Option ℕ
  pub insert : (ℕ → ℤ) → Entry → Table → Table
  pub erase : ℕ → Table → Table
  pub modify : (ℕ → ℤ) → Entry → Table → Table
  pub distinct : (t : Table) → IsDistinct (entries t)
  pub find_lem : (h : ℕ) (t : Table) → find h t ≡ lookup h (entries t)
  pub insert_old :
      (time : ℕ → ℤ) (e : Entry) (t : Table) (p : ℕ)
      → lookup e.0 (entries t) ≡ some p
      → entries (insert time e t) ≡ entries t
  pub insert_new :
      (time : ℕ → ℤ) (e : Entry) (t : Table)
      → lookup e.0 (entries t) ≡ none
      → Inserted time e (entries t) (entries (insert time e t))
  pub erase_lem : (h : ℕ) (t : Table) → entries (erase h t) ≡ remove h (entries t)
  pub modify_lem :
      (time : ℕ → ℤ) (e : Entry) (t : Table)
      → lookup e.0 (entries t) ≡ some e.1
      → Inserted time e (remove e.0 (entries t)) (entries (modify time e t))

-- `getLastPacketTime()`, an int.
abbrev pub last_packet_time : Flow → ℤ
last_packet_time f = to_int (pos f.current_time)

-- `flow->getLastPacketTime() + timeout_ <= current_time`.
abbrev pub expires : ℤ → ℤ → Flow → Bool
expires timeout current_time f = not (ltb_ℤ current_time (to_int (last_packet_time f +ℤ timeout)))

-- `FlowCache` passes its calls on to a pool.
abbrev pub release_to_cache : ℕ → Cache Flow → Cache Flow
release_to_cache p c = release (some p) c

abbrev pub acquire_flow : Cache Flow → Outcome (Option ℕ × Cache Flow)
acquire_flow c = acquire reset c

abbrev pub times : Cache Flow → ℕ → ℤ
times c p = last_packet_time (c.heap p)

-- `setLastPacketTime(time)` on a flow.
abbrev pub set_last_packet_time : ℕ → ℕ → Cache Flow → Cache Flow
set_last_packet_time p time c = record c {
  heap = update c.heap p (record f { current_time = time });
}
  where
    f : Flow
    f = c.heap p

module _ (I : FlowIndex) where
  open I use {Table}

  -- `has_cache` says that `flow_cache_` is set.
  pub record FlowManager : Type 0 where
    pub table : Table
    pub total_process_flows : ℕ
    pub total_timeout_flows : ℕ
    pub timeout : ℤ
    pub has_cache : Bool

  -- The flows with the pools that their records go back to.
  pub record Store (A : Type 0) : Type 0 where
    pub manager : FlowManager
    pub flows : Cache Flow
    pub pools : CacheManager A

  module _ {A : Type 0} where
    -- `addFlow(flow)`: counted also when another flow has its identifier and it does not go in.
    unfoldable pub add_flow : ℕ → Store A → Store A
    add_flow p s = record s {
      manager = record m {
        total_process_flows = inc32 m.total_process_flows;
        table = I.insert (times s.flows) ((s.flows.heap p).hash, p) m.table;
      };
    }
      where
        open s use {manager as m}

    -- `removeFlow(flow)`: to erase the end of the index is a fault.
    unfoldable pub remove_flow : ℕ → Store A → Outcome (Store A)
    remove_flow p s = elim (I.find (s.flows.heap p).hash s.manager.table) [
      | none ↦ fault
      | some q ↦ ok (record s {
        manager = let m = s.manager in record m { table = I.erase (s.flows.heap p).hash m.table };
      })
    ]

    -- `findFlow(hash1, hash2)`.
    unfoldable pub find_flow : ℕ → ℕ → Store A → Option ℕ
    find_flow hash1 hash2 s = elim (I.find hash1 s.manager.table) [
      | some p ↦ some p
      | none ↦ I.find hash2 s.manager.table
    ]

    -- `updateFlowTime(flow, time)`: the container moves the entry to where its new time belongs.
    unfoldable pub update_flow_time : ℕ → ℕ → Store A → Outcome (Store A)
    update_flow_time p time s = elim (I.find id s.manager.table) [
      | none ↦ fault
      | some q ↦ ok (record s {
        flows = set_last_packet_time q time s.flows;
        manager =
            let m = s.manager in
            record m {
              table = I.modify (times (set_last_packet_time q time s.flows)) (id, q) m.table;
            };
      })
    ]
      where
        id : ℕ
        id = (s.flows.heap p).hash

    -- A round of the loop of `updateTimers` on a flow whose time is over: it leaves the table, its
    -- records go to their pools and it goes to its own.
    unfoldable pub expire : Entry → Store A → Store A
    expire (id, p) s = record s {
      manager = record m {
        total_timeout_flows = inc32 m.total_timeout_flows;
        table = I.erase id m.table;
      };
      pools = release_flow (live_flow s.pools (s.flows.heap p)) s.pools;
      flows = if m.has_cache then release_to_cache p s.flows else s.flows;
    }
      where
        open s use {manager as m}

    -- The loop over the index by time, which ends at the first flow whose time is not over.
    unfoldable pub timers_loop : ℤ → List Entry → Store A → Store A
    unfolding expire
    timers_loop now [] s = s
    timers_loop now (e ∷ es) s = elim (expires s.manager.timeout now (s.flows.heap e.1)) [
      | true ↦ timers_loop now es (expire e s)
      | false ↦ s
    ]

    -- `updateTimers(current_time)`.
    unfoldable pub update_timers : ℤ → Store A → Store A
    unfolding timers_loop
    update_timers now s = timers_loop now (I.entries s.manager.table) s
