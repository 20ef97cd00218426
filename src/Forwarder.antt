-- ===== src/Forwarder.antt =====
-- src/FlowForwarder.h and src/FlowForwarder.cc: which analyser gets a flow.
--
-- Forwarders are identities, numbers. The checkers and the analysers that are plugged in are
-- parameters, over some state `S` of theirs: `accept f p` is the checker of forwarder `f` on a
-- packet, `analyse f` its analyser on a flow. The packet of a flow is part of it. The vector of the
-- forwarders above holds weak pointers: `none` is one whose forwarder is gone, and the call of its
-- checker is a fault.
pub mod Attach
pub mod Tests
use aiengine_rewritten_clean.Cache.{Outcome, ok, fault}
use aiengine_rewritten_clean.Prelude.{
  ℕ, ◌+◌, Bool, true, false, Option, none, some, List, [], ◌∷◌, ◌++◌, ◌==◌, if◌then◌else◌, inc64,
}

-- The counters of a `FlowForwarder`, 64-bit.
pub record Counters : Type 0 where
  pub total_received_flows : ℕ
  pub total_forward_flows : ℕ
  pub total_fail_flows : ℕ

-- The part of a `Flow` that is read and written: the forwarder it is attached to, and its packet.
pub record Flow (P : Type 0) : Type 0 where
  pub forwarder : Option ℕ
  pub packet : P

-- The counters of all forwarders, and the analysers' state.
pub record World (S : Type 0) : Type 0 where
  pub counters : ℕ → Counters
  pub state : S

abbrev pub count_at : ℕ → (Counters → Counters) → (ℕ → Counters) → ℕ → Counters
count_at f g c k = if k == f then g (c k) else c k

abbrev pub received : Counters → Counters
received c = record c { total_received_flows = inc64 c.total_received_flows }

abbrev pub forwarded : Counters → Counters
forwarded c = record c { total_forward_flows = inc64 c.total_forward_flows }

abbrev pub failed : Counters → Counters
failed c = record c { total_fail_flows = inc64 c.total_fail_flows }

-- `insertUpFlowForwarder` and `addUpFlowForwarder`.
abbrev pub insert_up : ℕ → List (Option ℕ) → List (Option ℕ)
insert_up f ups = some f ∷ ups

abbrev pub add_up : ℕ → List (Option ℕ) → List (Option ℕ)
add_up f ups = ups ++ some f ∷ []

module _ {P S : Type 0} (accept : ℕ → P → S → Bool × S)
    (analyse : ℕ → Flow P → S → Flow P × S) where
  -- `ff->flow_func_(flow)`.
  abbrev pub call : ℕ → Flow P → World S → Flow P × World S
  call f flow w = ((analyse f flow w.state).0, record w { state = (analyse f flow w.state).1 })

  -- A forwarder that accepted the packet: the flow is attached to it and analysed.
  unfoldable pub attach : ℕ → ℕ → Flow P → World S → Flow P × World S
  attach self f flow w =
      let (g, v) =
        call f (record flow { forwarder = some f })
          (record w { counters = count_at f received w.counters }) in
      (g, record v { counters = count_at self forwarded v.counters })

  -- The loop over `flowForwarderVector_`.
  unfoldable pub try_forwarders :
      ℕ → List (Option ℕ) → Flow P → World S → Outcome (Flow P × World S)
  unfolding attach
  try_forwarders self [] flow w = ok (flow, record w { counters = count_at self failed w.counters })
  try_forwarders self (none ∷ rest) flow w = fault
  try_forwarders self (some f ∷ rest) flow w =
      let v = record w { state = (accept f flow.packet w.state).1 } in
      let others = try_forwarders self rest flow v in
      if (accept f flow.packet w.state).0 then ok (attach self f flow v) else others

  -- To the forwarder that the flow is attached to, or to those above.
  unfoldable pub dispatch :
      ℕ → List (Option ℕ) → Option ℕ → Flow P → World S → Outcome (Flow P × World S)
  unfolding try_forwarders
  dispatch self ups (some f) flow w = ok (call f flow w)
  dispatch self ups none flow w = try_forwarders self ups flow w

  -- `forwardFlow(flow)` of forwarder `self`, above which the forwarders `ups` are.
  unfoldable pub forward_flow : ℕ → List (Option ℕ) → Flow P → World S → Outcome (Flow P × World S)
  unfolding dispatch
  forward_flow self ups flow w =
      dispatch self ups flow.forwarder flow
        (record w { counters = count_at self received w.counters })
