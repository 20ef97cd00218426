-- ===== src/Tcp/Machine.antt =====
-- The state machine of src/protocols/tcp, by named states, and what it says of `computeState`.
use aiengine_rewritten_clean.Prelude.{ℕ, ◌≡◌, refl, some, arith, if◌then◌else◌}
use aiengine_rewritten_clean.Prelude.Int.{ℤ, pos}
use aiengine_rewritten_clean.Tcp.States.{entry}
use aiengine_rewritten_clean.Tcp.Compute.{
  Segment, FlowState, compute_state, settle, flag_of, note_bad_flags, count_flags, apply_rst,
  advance, add_bytes, local_seq,
}

-- The states that a flow can be in.
pub data State : Type 0 where
  closed syn_sent simsyn_sent syn_received established fin_seen : State
  close_wait fin_wait closing last_ack time_wait : State

-- Which end sent the segment, and what its flags make of it.
pub data Side : Type 0 where
  forward backward : Side

pub data Kind : Type 0 where
  syn synack ack fin : Kind

abbrev pub number : State → ℕ
number closed = 0
number syn_sent = 1
number simsyn_sent = 2
number syn_received = 3
number established = 4
number fin_seen = 5
number close_wait = 6
number fin_wait = 7
number closing = 8
number last_ack = 9
number time_wait = 10

abbrev pub side : Side → ℕ
side forward = 0
side backward = 1

abbrev pub kind : Kind → ℕ
kind syn = 1
kind synack = 2
kind ack = 3
kind fin = 4

-- What a segment makes of a state, told by the exchange that it belongs to. What is not listed
-- closes the flow.
unfoldable pub next : State → Side → Kind → State
-- The opening: SYN, SYN and ACK, ACK; with retransmissions, and with both ends starting at once.
next closed forward syn = syn_sent
next time_wait forward syn = syn_sent
next syn_sent forward syn = syn_sent
next syn_sent backward syn = simsyn_sent
next syn_sent backward synack = syn_received
next simsyn_sent forward syn = simsyn_sent
next simsyn_sent backward syn = simsyn_sent
next simsyn_sent _ synack = syn_received
next syn_received backward synack = syn_received
next syn_received backward ack = syn_received
next syn_received forward ack = established
-- Data.
next established _ ack = established
next established backward synack = established
-- The first FIN, by either end; also one that comes early.
next simsyn_sent backward fin = fin_seen
next syn_received _ fin = fin_seen
next established _ fin = fin_seen
-- The end that did not send it answers, or sends its own FIN at once.
next fin_seen forward ack = close_wait
next fin_seen backward ack = fin_wait
next fin_seen _ fin = closing
next close_wait _ ack = close_wait
next close_wait _ fin = last_ack
next fin_wait _ ack = fin_wait
next fin_wait _ fin = last_ack
next closing _ ack = last_ack
next last_ack _ ack = time_wait
next _ _ _ = closed

-- The table has an entry for every state, direction and flag, and it is the one of `next`.
entry-next :
    (s : State) (d : Side) (k : Kind)
    → (z : ℤ) × (entry (pos (number s)) (side d) (kind k) ≡ some z)
      × (settle (pos (number s)) z ≡ pos (number (next s d k)))
unfolding entry next
entry-next closed forward syn = (_, refl, refl)
entry-next _ forward syn = (_, refl, refl)
entry-next closed forward synack = (_, refl, refl)
entry-next _ forward synack = (_, refl, refl)
entry-next closed forward ack = (_, refl, refl)
entry-next _ forward ack = (_, refl, refl)
entry-next closed forward fin = (_, refl, refl)
entry-next _ forward fin = (_, refl, refl)
entry-next closed backward syn = (_, refl, refl)
entry-next _ backward syn = (_, refl, refl)
entry-next closed backward synack = (_, refl, refl)
entry-next _ backward synack = (_, refl, refl)
entry-next closed backward ack = (_, refl, refl)
entry-next _ backward ack = (_, refl, refl)
entry-next closed backward fin = (_, refl, refl)
entry-next _ backward fin = (_, refl, refl)

abbrev pub kind_of : Segment → Kind
kind_of h = if h.syn then (if h.ack then synack else syn) else (if h.fin then fin else ack)

flag_of-kind : (h : Segment) → flag_of h ≡ kind (kind_of h)
unfolding flag_of
flag_of-kind h = ground arith

-- The state after a segment; RST closes the flow.
abbrev pub after : State → Segment → Side → State
after s h d = if h.rst then closed else next s d (kind_of h)

-- What `computeState` leaves, given the table's entry.
abbrev pub outcome : Segment → ℕ → ℤ → ℤ → FlowState → FlowState
outcome h flowdir bytes z st =
    let t = note_bad_flags h (count_flags h flowdir st) in
    apply_rst h (record t { info = advance flowdir (add_bytes (local_seq h) bytes) z t.info })

outcome-state :
    (h : Segment) (flowdir : ℕ) (bytes z : ℤ) (st : FlowState)
    → ((outcome h flowdir bytes z st).info.state_curr
        ≡ (if h.rst then pos 0 else settle st.info.state_curr z))
      × ((outcome h flowdir bytes z st).info.state_prev
          ≡ (if h.rst then pos 0 else st.info.state_curr))
unfolding count_flags note_bad_flags apply_rst
outcome-state h flowdir bytes z st = ground arith

-- `computeState` follows the diagram: in every state, for every segment of either side, it finds an
-- entry in the table, its new state is the one that the diagram gives, and its previous state is
-- the one it was in, unless the segment is a RST, which leaves both CLOSED.
pub compute_state-next :
    (h : Segment) (d : Side) (bytes : ℤ) (s : State) (st : FlowState)
    → st.info.state_curr ≡ pos (number s)
    → (t : FlowState) × (compute_state h (side d) bytes st ≡ some t)
      × (t.info.state_curr ≡ pos (number (after s h d)))
      × (t.info.state_prev ≡ pos (number (if h.rst then closed else s)))
unfolding compute_state
compute_state-next h d bytes s st e =
    let (z, found, settled) = entry-next s d (kind_of h) in
    let found' : entry st.info.state_curr (side d) (flag_of h) ≡ some z =
      rw (e, flag_of-kind h) found in
    let (curr, prev) = outcome-state h (side d) bytes z st in
    (
      outcome h (side d) bytes z st,
      rw found' refl,
      rw (curr, e) (ground (arith, settled)),
      rw (prev, e) (ground arith),
    )
