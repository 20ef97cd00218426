-- ===== src/Tcp/Connection.antt =====
-- Whole connections, as `computeState` of src/protocols/tcp/TCPProtocol.cc follows them.
use aiengine_rewritten_clean.Prelude.{
  ◌≡◌, refl, ap, ◌∙◌, Bool, true, false, some, List, [], ◌∷◌, ◌++◌, arith,
}
use aiengine_rewritten_clean.Prelude.Int.{pos}
use aiengine_rewritten_clean.Tcp.Compute.{FlowState}
use aiengine_rewritten_clean.Tcp.Machine.{
  State, closed, established, close_wait, fin_wait, last_ack, time_wait, ack, fin, number, next,
}
use aiengine_rewritten_clean.Tcp.Trace.{
  Arrival, run, states, run-states, is_kind, is_forward, opens, answers, confirms,
}

-- Segments of an open connection: ACKs with no RST, from either side, with any data.
abbrev pub is_data : Arrival → Bool
is_data a = is_kind ack a.segment

abbrev pub AllData : List Arrival → Type 0
AllData [] = Unit {0}
AllData (a ∷ rest) = (is_data a ≡ true) × AllData rest

states-data :
    (trace rest : List Arrival)
    → AllData trace
    → states established (trace ++ rest) ≡ states established rest
unfolding states next
states-data [] rest h = refl
states-data (a ∷ trace) rest h = ground (arith, states-data trace rest h.1)

states_opening :
    (a b c : Arrival) (rest : List Arrival)
    → opens a ≡ true
    → (answers b ≡ true) × (is_forward b.from ≡ false)
    → confirms c ≡ true
    → states closed (a ∷ b ∷ c ∷ rest) ≡ states established rest
unfolding states next
states_opening a b c rest h1 h2 h3 = ground arith

-- One side has sent its FIN, and the other one a segment since.
states_half :
    (half : List Arrival) (c d : Arrival)
    → AllData half
    → is_kind fin c.segment ≡ true
    → is_kind ack d.segment ≡ true
    → (states close_wait (half ++ c ∷ d ∷ []) ≡ time_wait)
      × (states fin_wait (half ++ c ∷ d ∷ []) ≡ time_wait)
unfolding states next
states_half [] c d h h1 h2 = (ground arith, ground arith)
states_half (a ∷ half) c d h h1 h2 =
    let (x, y) = states_half half c d h.1 h1 h2 in (ground (arith, h.0, x), ground (arith, h.0, y))

states_closing :
    (half : List Arrival) (a b c d : Arrival)
    → AllData half
    → is_kind fin a.segment ≡ true
    → is_kind ack b.segment ≡ true
    → is_kind fin c.segment ≡ true
    → is_kind ack d.segment ≡ true
    → states established (a ∷ b ∷ (half ++ c ∷ d ∷ [])) ≡ time_wait
unfolding states next
states_closing half a b c d h h1 h2 h3 h4 =
    let (x, y) = states_half half c d h h3 h4 in ground (arith, x, y)

states_closing_at_once :
    (a c d : Arrival)
    → is_kind fin a.segment ≡ true
    → is_kind fin c.segment ≡ true
    → is_kind ack d.segment ≡ true
    → states established (a ∷ c ∷ d ∷ []) ≡ last_ack
unfolding states next
states_closing_at_once a c d h1 h2 h3 = ground arith

-- The handshake of a connection, and some data segments of either side.
pub record Connected (syn1 syn2 ack1 : Arrival) (exchange : List Arrival) : Type 0 where
  pub first : opens syn1 ≡ true
  pub second : (answers syn2 ≡ true) × (is_forward syn2.from ≡ false)
  pub third : confirms ack1 ≡ true
  pub data_only : AllData exchange

run-Connected :
    (st : FlowState) (syn1 syn2 ack1 : Arrival) (exchange close : List Arrival) (s : State)
    → st.info.state_curr ≡ pos (number closed)
    → Connected syn1 syn2 ack1 exchange
    → states established close ≡ s
    → (t : FlowState) × (run st (syn1 ∷ syn2 ∷ ack1 ∷ (exchange ++ close)) ≡ some t)
      × (t.info.state_curr ≡ pos (number s))
run-Connected st syn1 syn2 ack1 exchange close s start h e =
    let (t, ran, curr) = run-states closed st (syn1 ∷ syn2 ∷ ack1 ∷ (exchange ++ close)) start in
    let opened = states_opening syn1 syn2 ack1 (exchange ++ close) h.first h.second h.third in
    let data_kept = states-data exchange close h.data_only in
    (t, ran, curr ∙ ap (λ x. pos (number x)) (opened ∙ data_kept ∙ e))

-- A whole connection: a flow in CLOSED sees the three segments of the handshake, and then any number
-- of data segments of either side. If it then sees a FIN, a segment with neither SYN, FIN nor RST,
-- any number of such segments more, a second FIN and one such segment, each of either side, it is
-- in TIME_WAIT. But if the second FIN comes directly behind the first, and one such segment behind
-- that, the flow is in LAST_ACK.
pub whole_connection :
    (st : FlowState) (syn1 syn2 ack1 fin1 ack2 fin2 ack3 : Arrival) (exchange half : List Arrival)
    → st.info.state_curr ≡ pos (number closed)
    → Connected syn1 syn2 ack1 exchange
    → AllData half
    → is_kind fin fin1.segment ≡ true
    → is_kind ack ack2.segment ≡ true
    → is_kind fin fin2.segment ≡ true
    → is_kind ack ack3.segment ≡ true
    → ((t : FlowState) × (run st
            (syn1 ∷ syn2 ∷ ack1 ∷ (exchange ++ fin1 ∷ ack2 ∷ (half ++ fin2 ∷ ack3 ∷ [])))
          ≡ some t)
        × (t.info.state_curr ≡ pos (number time_wait)))
      × ((t : FlowState) × (run st (syn1 ∷ syn2 ∷ ack1 ∷ (exchange ++ fin1 ∷ fin2 ∷ ack3 ∷ []))
            ≡ some t)
          × (t.info.state_curr ≡ pos (number last_ack)))
whole_connection st syn1 syn2 ack1 fin1 ack2 fin2 ack3 exchange half start h k h1 h2 h3 h4 = (
  run-Connected st syn1 syn2 ack1 exchange (fin1 ∷ ack2 ∷ (half ++ fin2 ∷ ack3 ∷ [])) time_wait
      start h (states_closing half fin1 ack2 fin2 ack3 k h1 h2 h3 h4),
  run-Connected st syn1 syn2 ack1 exchange (fin1 ∷ fin2 ∷ ack3 ∷ []) last_ack start h
      (states_closing_at_once fin1 fin2 ack3 h1 h3 h4),
)
