-- ===== src/Tcp/Trace.antt =====
-- Sequences of segments of one flow, each given to `computeState` of
-- src/protocols/tcp/TCPProtocol.cc.
use aiengine_rewritten_clean.Prelude.{
  ℕ, suc, ◌+◌, ◌≤◌, ◌≡◌, refl, ◌⊎◌, Bool, true, false, not, ◌&&◌, Option, some, List, [], ◌∷◌,
  arith, if◌then◌else◌, inc32, u32, Bool-cases, inl, inr,
}
use aiengine_rewritten_clean.Prelude.Int.{ℤ, pos}
use aiengine_rewritten_clean.Anomaly.{tcp_bad_flags, index, inc_anomaly}
use aiengine_rewritten_clean.Tcp.States.{◌>>=◌, >>=-eq-some}
use aiengine_rewritten_clean.Tcp.Compute.{Segment, FlowState, compute_state, bad_flags}
use aiengine_rewritten_clean.Tcp.Machine.{
  State, closed, syn_sent, simsyn_sent, syn_received, established, time_wait, Side, forward,
  backward, Kind, syn, synack, ack, fin, number, side, next, after, compute_state-next, kind_of,
}

-- A segment with the side that sent it and the bytes that it carries.
pub record Arrival : Type 0 where
  pub segment : Segment
  pub from : Side
  pub bytes : ℤ

unfoldable pub run : FlowState → List Arrival → Option FlowState
run s [] = some s
run s (a ∷ rest) = do t ← compute_state a.segment (side a.from) a.bytes s; run t rest

unfoldable pub states : State → List Arrival → State
states s [] = s
states s (a ∷ rest) = states (after s a.segment a.from) rest

-- No sequence of segments makes `computeState` read outside the table, and the flow is always in
-- the state that the diagram gives.
pub run-states :
    (s : State) (st : FlowState) (trace : List Arrival)
    → st.info.state_curr ≡ pos (number s)
    → (t : FlowState) × (run st trace ≡ some t)
      × (t.info.state_curr ≡ pos (number (states s trace)))
unfolding run states
run-states s st [] e = (st, refl, e)
run-states s st (a ∷ rest) e =
    let (t, found, curr, _) = compute_state-next a.segment a.from a.bytes s st e in
    let (u, rest_ok, last) = run-states (after s a.segment a.from) t rest curr in
    (u, rw (found, run) rest_ok, last)

next-grows :
    (s : State) (d : Side) (k : Kind)
    → (next s d k ≡ closed)
      ⊎ ((s ≡ time_wait) × (next s d k ≡ syn_sent))
      ⊎ (number s ≤ number (next s d k))
unfolding next
next-grows s d k = ground arith

-- The states are numbered in the order of a connection's life: a segment leaves a flow in a state
-- that is no earlier, or in CLOSED, or reopens it from TIME_WAIT to SYN_SENT.
pub compute_state_order :
    (a : Arrival) (s : State) (st t : FlowState)
    → st.info.state_curr ≡ pos (number s)
    → compute_state a.segment (side a.from) a.bytes st ≡ some t
    → (t.info.state_curr ≡ pos (number closed))
      ⊎ ((s ≡ time_wait) × (t.info.state_curr ≡ pos (number syn_sent)))
      ⊎ ((u : State) × (t.info.state_curr ≡ pos (number u)) × (number s ≤ number u))
compute_state_order a s st t e found =
    let (u, found', curr, _) = compute_state-next a.segment a.from a.bytes s st e in
    let same : u ≡ t = cc in
    let curr' : t.info.state_curr ≡ pos (number (after s a.segment a.from)) = rw same at curr in
    elim (Bool-cases a.segment.rst) [
      | inl hard ↦ inl (ground arith)
      | inr soft ↦ elim (next-grows s a.from (kind_of a.segment)) [
        | inl shut ↦ inl (ground arith)
        | inr (inl again) ↦ inr (inl (again.0, ground arith))
        | inr (inr grown) ↦ inr (inr (next s a.from (kind_of a.segment), ground arith, grown))
      ]
    ]

-- The tests for the three segments of the handshake; none carries RST.
abbrev pub is_kind : Kind → Segment → Bool
is_kind syn h = not h.rst && (h.syn && not h.ack)
is_kind synack h = not h.rst && (h.syn && h.ack)
is_kind ack h = not h.rst && (not h.syn && not h.fin)
is_kind fin h = not h.rst && (not h.syn && h.fin)

abbrev pub is_forward : Side → Bool
is_forward forward = true
is_forward backward = false

abbrev pub opens : Arrival → Bool
opens a = is_forward a.from && is_kind syn a.segment

abbrev pub answers : Arrival → Bool
answers a = is_kind synack a.segment

abbrev pub confirms : Arrival → Bool
confirms a = is_forward a.from && is_kind ack a.segment

-- The tests hold of segments of the sequence, in this order.
pub in_order : List (Arrival → Bool) → List Arrival → Bool
in_order [] trace = true
in_order (p ∷ ps) [] = false
in_order (p ∷ ps) (a ∷ rest) = in_order (if p a then ps else p ∷ ps) rest

in_order-tail :
    (p : Arrival → Bool) (ps : List (Arrival → Bool)) (trace : List Arrival)
    → in_order (p ∷ ps) trace ≡ true
    → in_order ps trace ≡ true
unfolding in_order
in_order-tail p [] trace h = refl
in_order-tail p (q ∷ qs) [] h = cc
in_order-tail p (q ∷ qs) (a ∷ rest) h =
    ground (arith, in_order-tail p (q ∷ qs) rest, in_order-tail q qs rest)

-- What a flow has yet to see before it is ESTABLISHED.
abbrev needs : State → List (Arrival → Bool)
needs established = []
needs syn_received = confirms ∷ []
needs syn_sent = answers ∷ confirms ∷ []
needs simsyn_sent = answers ∷ confirms ∷ []
needs _ = opens ∷ answers ∷ confirms ∷ []

needs-after :
    (s : State) (a : Arrival) (rest : List Arrival)
    → in_order (needs (after s a.segment a.from)) rest ≡ true
    → in_order (needs s) (a ∷ rest) ≡ true
unfolding next in_order
needs-after closed a rest = ground (
  arith,
  in_order-tail opens (answers ∷ confirms ∷ []) rest,
  in_order-tail answers (confirms ∷ []) rest,
  in_order-tail confirms [] rest,
)
needs-after _ a rest = ground (
  arith,
  in_order-tail opens (answers ∷ confirms ∷ []) rest,
  in_order-tail answers (confirms ∷ []) rest,
  in_order-tail confirms [] rest,
)

needs-states :
    (s : State) (trace : List Arrival)
    → states s trace ≡ established
    → in_order (needs s) trace ≡ true
unfolding states in_order
needs-states s [] e = ground arith
needs-states s (a ∷ rest) e = needs-after s a rest (needs-states (after s a.segment a.from) rest e)

number-established : (s : State) → pos (number s) ≡ pos (number established) → s ≡ established
number-established s e = ground arith

-- A new flow is ESTABLISHED only if the segments had a SYN of the side that opened it, then a SYN
-- with ACK, then an ACK of the side that opened it, in this order and none of them with RST.
pub established-in_order :
    (st t : FlowState) (trace : List Arrival)
    → st.info.state_curr ≡ pos (number closed)
    → run st trace ≡ some t
    → t.info.state_curr ≡ pos (number established)
    → in_order (opens ∷ answers ∷ confirms ∷ []) trace ≡ true
established-in_order st t trace start e last =
    let (u, e', curr) = run-states closed st trace start in
    let same : u ≡ t = cc in
    needs-states closed trace (number-established (states closed trace) (cc))

-- How many segments of the sequence pass a test.
unfoldable pub count : (Segment → Bool) → List Arrival → ℕ
count p [] = 0
count p (a ∷ rest) = if p a.segment then suc (count p rest) else count p rest

compute_state-counts :
    (a : Arrival) (st t : FlowState)
    → compute_state a.segment (side a.from) a.bytes st ≡ some t
    → (t.totals.rst ≡ (if a.segment.rst then inc32 st.totals.rst else st.totals.rst))
      × (t.hits (index tcp_bad_flags) ≡ (
          if bad_flags a.segment
          then inc32 (st.hits (index tcp_bad_flags))
          else st.hits (index tcp_bad_flags)))
unfolding compute_state inc_anomaly
compute_state-counts a st t e = ground arith

-- The counters are exact modulo 2³²: the total of RST segments, and the counter of the anomaly for
-- bad flags, grow over any sequence by the number of segments with RST, and with SYN together with
-- FIN or RST.
pub run_counts :
    (st t : FlowState) (trace : List Arrival)
    → run st trace ≡ some t
    → (u32 t.totals.rst ≡ u32 (st.totals.rst + count (λ h. h.rst) trace))
      × (u32 (t.hits (index tcp_bad_flags))
          ≡ u32 (st.hits (index tcp_bad_flags) + count bad_flags trace))
unfolding run count
run_counts st t [] e = ground arith
run_counts st t (a ∷ rest) e =
    let (u, first, later) = >>=-eq-some (compute_state a.segment (side a.from) a.bytes st) _ e in
    ground (arith, compute_state-counts a st u first, run_counts u t rest later)
