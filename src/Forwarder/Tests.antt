-- ===== src/Forwarder/Tests.antt =====
-- src/FlowForwarder.cc with two analysers: the second one accepts.
use aiengine_rewritten_clean.Cache.{ok, ◌>>=◌}
use aiengine_rewritten_clean.Prelude.{
  ℕ, ◌+◌, ◌≡◌, refl, Bool, Option, some, List, none, [], ◌∷◌, ◌==◌,
}
use aiengine_rewritten_clean.Forwarder.{Flow, World, forward_flow}
use aiengine_rewritten_clean.Forwarder.Attach.{first_accepting, analysed, seen, forward_flow-first}

-- The state counts the checks, and the analyser adds ten times the packet.
abbrev accept : ℕ → ℕ → ℕ → Bool × ℕ
accept f p s = (f == 2, s + 1)

abbrev analyse : ℕ → Flow ℕ → ℕ → Flow ℕ × ℕ
analyse f flow s = (flow, s + 10)

abbrev flow : Flow ℕ
flow = record { forwarder = none; packet = 5 }

abbrev world : World ℕ
world = record {
  counters =
      λ f. record { total_received_flows = 0; total_forward_flows = 0; total_fail_flows = 0 };
  state = 0;
}

abbrev ups : List (Option ℕ)
ups = some 1 ∷ some 2 ∷ none ∷ []

forward_flow-first_example :
    (forward_flow accept analyse 0 ups flow world >>= seen accept analyse)
    ≡ (first_accepting accept analyse ups 5 0 >>= analysed accept analyse flow)
forward_flow-first_example = forward_flow-first accept analyse 0 ups flow world refl

-- The second one gets the flow, after two checks.
goes_to_second :
    (forward_flow accept analyse 0 ups flow world >>= seen accept analyse)
    ≡ ok (record flow { forwarder = some 2 }, 12)
unfolding forward_flow
goes_to_second = refl
