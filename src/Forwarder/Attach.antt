-- ===== src/Forwarder/Attach.antt =====
-- How src/FlowForwarder.cc attaches flows.
use aiengine_rewritten_clean.Cache.{Outcome, ok, fault, ◌>>=◌}
use aiengine_rewritten_clean.Prelude.{
  ℕ, ◌+◌, ◌≡◌, refl, sym, subst, ap, ◌∙◌, inl, inr, Bool, false, Option, none, some, List, [], ◌∷◌,
  arith, Bool-cases, ◌==◌, if◌then◌else◌, u64,
}
use aiengine_rewritten_clean.Forwarder.{
  Counters, Flow, World, count_at, received, attach, try_forwarders, dispatch, forward_flow,
}

-- No forwarder of the list is the one given.
abbrev pub NotIn : ℕ → List (Option ℕ) → Type 0
NotIn self [] = Unit {0}
NotIn self (none ∷ fs) = NotIn self fs
NotIn self (some f ∷ fs) = ((self == f) ≡ false) × NotIn self fs

module _ {P S : Type 0} (accept : ℕ → P → S → Bool × S)
    (analyse : ℕ → Flow P → S → Flow P × S) where
  -- The checkers of the forwarders in turn: the first that accepts, and the state after it. A fault
  -- if one that is gone comes before it.
  unfoldable pub first_accepting : List (Option ℕ) → P → S → Outcome (Option ℕ × S)
  first_accepting [] p s = ok (none, s)
  first_accepting (none ∷ rest) p s = fault
  first_accepting (some f ∷ rest) p s =
      let others = first_accepting rest p (accept f p s).1 in
      if (accept f p s).0 then ok (some f, (accept f p s).1) else others

  -- What the analyser of a forwarder makes of a new flow.
  unfoldable pub analysed : Flow P → Option ℕ × S → Outcome (Flow P × S)
  analysed flow (none, s) = ok (flow, s)
  analysed flow (some f, s) = ok (analyse f (record flow { forwarder = some f }) s)

  -- The flow and the analysers' state, without the counters.
  abbrev pub seen : Flow P × World S → Outcome (Flow P × S)
  seen (flow, w) = ok (flow, w.state)

  try-first :
      (self : ℕ) (ups : List (Option ℕ)) (flow : Flow P) (w : World S)
      → (try_forwarders accept analyse self ups flow w >>= seen)
        ≡ (first_accepting ups flow.packet w.state >>= analysed flow)
  unfolding try_forwarders first_accepting analysed attach
  try-first self [] flow w = refl
  try-first self (none ∷ rest) flow w = refl
  try-first self (some f ∷ rest) flow w = elim (Bool-cases (accept f flow.packet w.state).0) [
    | inl takes ↦ rw takes refl
    | inr refuses ↦
        rw refuses
          (try-first self rest flow (record w { state = (accept f flow.packet w.state).1 }))
  ]

  -- What a forwarder has counted if there is a result: it received as many flows as before, and
  -- forwarded one or failed for one.
  unfoldable Settled : ℕ → Counters → Outcome (Flow P × World S) → Type 0
  Settled self c fault = Unit {0}
  Settled self c (ok r) =
      ((r.1.counters self).total_received_flows ≡ c.total_received_flows)
      × (u64 ((r.1.counters self).total_forward_flows + (r.1.counters self).total_fail_flows)
          ≡ u64 (c.total_forward_flows + c.total_fail_flows + 1))

  try-Settled :
      (self : ℕ) (ups : List (Option ℕ)) (flow : Flow P) (w : World S)
      → NotIn self ups
      → Settled self (w.counters self) (try_forwarders accept analyse self ups flow w)
  unfolding try_forwarders attach Settled
  try-Settled self [] flow w h = (ground arith, ground arith)
  try-Settled self (none ∷ rest) flow w h = tt
  try-Settled self (some f ∷ rest) flow w h = elim (Bool-cases (accept f flow.packet w.state).0) [
    | inl takes ↦ rw takes (ground (arith, h.0), ground (arith, h.0))
    | inr refuses ↦
        rw refuses
          (try-Settled self rest flow (record w { state = (accept f flow.packet w.state).1 }) h.1)
  ]

  forward_flow-new :
      (self : ℕ) (ups : List (Option ℕ)) (flow : Flow P) (w : World S)
      → flow.forwarder ≡ none
      → forward_flow accept analyse self ups flow w
        ≡ try_forwarders accept analyse self ups flow
            (record w { counters = count_at self received w.counters })
  unfolding forward_flow dispatch
  forward_flow-new self ups flow w new =
      ap
        (λ o.
          dispatch accept analyse self ups o flow
            (record w { counters = count_at self received w.counters }))
        new

  -- A new flow goes to the first of the forwarders above whose checker accepts its packet, is
  -- attached to it and analysed by it, and no later checker is asked; if there is none the flow
  -- stays as it is; and it is a fault exactly if a forwarder that is gone comes before the first
  -- that accepts.
  pub forward_flow-first :
      (self : ℕ) (ups : List (Option ℕ)) (flow : Flow P) (w : World S)
      → flow.forwarder ≡ none
      → (forward_flow accept analyse self ups flow w >>= seen)
        ≡ (first_accepting ups flow.packet w.state >>= analysed flow)
  forward_flow-first self ups flow w new =
      ap (λ r. r >>= seen) (forward_flow-new self ups flow w new)
      ∙ try-first self ups flow (record w { counters = count_at self received w.counters })

  -- The counters of a forwarder that is not among those above it: if there is a result for a new
  -- flow it has counted one received, and one forwarded or failed, modulo 2⁶⁴.
  forward_flow-Settled :
      (self : ℕ) (ups : List (Option ℕ)) (flow : Flow P) (w : World S)
      → flow.forwarder ≡ none
      → NotIn self ups
      → Settled self (received (w.counters self)) (forward_flow accept analyse self ups flow w)
  forward_flow-Settled self ups flow w new h =
      let v = record w { counters = count_at self received w.counters } in
      let mine : v.counters self ≡ received (w.counters self) = ground arith in
      subst (λ c. Settled self c (forward_flow accept analyse self ups flow w)) mine
        (subst (Settled self (v.counters self)) (sym (forward_flow-new self ups flow w new))
          (try-Settled self ups flow v h))
