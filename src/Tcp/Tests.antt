-- ===== src/Tcp/Tests.antt =====
-- Segments of src/protocols/tcp on concrete inputs.
use aiengine_rewritten_clean.Prelude.{
  ◌+◌, ◌≤◌, ◌≡◌, refl, ◌⊎◌, ◌++◌, true, false, some, List, [], ◌∷◌, u32,
}
use aiengine_rewritten_clean.Prelude.Int.{pos}
use aiengine_rewritten_clean.Anomaly.{no_anomaly, tcp_bad_flags, index}
use aiengine_rewritten_clean.Tcp.States.{entry}
use aiengine_rewritten_clean.Tcp.Compute.{Segment, FlowState, compute_state, bad_flags}
use aiengine_rewritten_clean.Tcp.Machine.{
  closed, syn_sent, established, last_ack, time_wait, Side, forward, backward, number, next, side,
  compute_state-next, State, outcome,
}
use aiengine_rewritten_clean.Tcp.Trace.{
  Arrival, run, compute_state_order, opens, answers, confirms, in_order, established-in_order,
  count, run_counts,
}
use aiengine_rewritten_clean.Tcp.Connection.{Connected, whole_connection}

abbrev plain : Segment
plain = record { syn = false; ack = true; fin = false; rst = false; psh = false; sequence = 1 }

abbrev by : Side → Segment → Arrival
by d h = record { segment = h; from = d; bytes = pos 0 }

abbrev syn1 : Arrival
syn1 = by forward (record plain { syn = true; ack = false })

abbrev syn2 : Arrival
syn2 = by backward (record plain { syn = true })

abbrev ack_by : Side → Arrival
ack_by d = by d plain

abbrev fin_by : Side → Arrival
fin_by d = by d (record plain { fin = true })

abbrev bad : Arrival
bad = by forward (record plain { syn = true; rst = true })

abbrev blank : FlowState
blank = record {
  info = record {
    state_prev = pos 0;
    state_curr = pos 0;
    syn = 0;
    syn_ack = 0;
    ack = 0;
    fin = 0;
    rst = 0;
    push = 0;
    seq_num = λ d. 0;
  };
  pa = no_anomaly;
  hits = λ i. 0;
  totals = record { syn = 0; synack = 0; ack = 0; fin = 0; rst = 0 };
}

compute_state-next_example :
    (t : FlowState) × (compute_state syn1.segment (side forward) (pos 0) blank ≡ some t)
    × (t.info.state_curr ≡ pos (number syn_sent))
    × (t.info.state_prev ≡ pos (number closed))
unfolding next
compute_state-next_example = compute_state-next syn1.segment forward (pos 0) closed blank refl

abbrev opened : FlowState
opened = record blank { info = let i = blank.info in record i { state_curr = pos 4 } }

-- A SYN on an open connection closes it.
abbrev reopened : FlowState
reopened = outcome syn1.segment 0 (pos 0) (pos 0) opened

compute_state_order_example :
    (reopened.info.state_curr ≡ pos (number closed))
    ⊎ ((established ≡ time_wait) × (reopened.info.state_curr ≡ pos (number syn_sent)))
    ⊎ ((u : State) × (reopened.info.state_curr ≡ pos (number u)) × (number established ≤ number u))
unfolding compute_state entry
compute_state_order_example = compute_state_order syn1 established opened reopened refl refl

established-in_order_example :
    in_order (opens ∷ answers ∷ confirms ∷ []) (syn1 ∷ syn2 ∷ ack_by forward ∷ []) ≡ true
unfolding run compute_state entry
established-in_order_example =
    established-in_order blank _ (syn1 ∷ syn2 ∷ ack_by forward ∷ []) refl refl refl

abbrev talk : List Arrival
talk = ack_by backward ∷ ack_by forward ∷ []

talk_start : Connected syn1 syn2 (ack_by forward) talk
talk_start = record {
  first = refl;
  second = (refl, refl);
  third = refl;
  data_only = (refl, (refl, tt));
}

whole_connection_example :
    ((t : FlowState) × (run blank (
          syn1
          ∷ syn2
          ∷ ack_by forward
          ∷ (talk
              ++ fin_by forward
                ∷ ack_by backward
                ∷ (talk ++ fin_by backward ∷ ack_by forward ∷ [])))
        ≡ some t)
      × (t.info.state_curr ≡ pos (number time_wait)))
    × ((t : FlowState) × (run blank (
            syn1
            ∷ syn2
            ∷ ack_by forward
            ∷ (talk ++ fin_by forward ∷ fin_by backward ∷ ack_by forward ∷ []))
          ≡ some t)
        × (t.info.state_curr ≡ pos (number last_ack)))
whole_connection_example =
    whole_connection blank syn1 syn2 (ack_by forward) (fin_by forward) (ack_by backward)
      (fin_by backward) (ack_by forward) talk talk refl talk_start (refl, (refl, tt)) refl refl refl
      refl

abbrev struck : FlowState
struck = outcome bad.segment 0 (pos 0) (pos 1) blank

run_counts_example :
    (u32 struck.totals.rst ≡ u32 (0 + count (λ h. h.rst) (bad ∷ [])))
    × (u32 (struck.hits (index tcp_bad_flags)) ≡ u32 (0 + count bad_flags (bad ∷ [])))
unfolding run compute_state entry
run_counts_example = run_counts blank struck (bad ∷ []) refl
