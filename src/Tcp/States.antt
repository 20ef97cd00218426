-- ===== src/Tcp/States.antt =====
-- src/protocols/tcp/TCPStates.h: the table of the TCP state machine, as integers.
use aiengine_rewritten_clean.Prelude.{ℕ, Option, none, some, List, [], ◌∷◌, ◌≡◌, refl, get_elem?}
use aiengine_rewritten_clean.Prelude.Int.{ℤ, pos, negsuc}

-- `TcpState`. An entry `ok` of the table means that the state stays as it is.
abbrev pub ok : ℤ
ok = negsuc 0

abbrev pub closed : ℤ
closed = pos 0

abbrev pub syn_sent : ℤ
syn_sent = pos 1

abbrev pub simsyn_sent : ℤ
simsyn_sent = pos 2

abbrev pub syn_received : ℤ
syn_received = pos 3

abbrev pub established : ℤ
established = pos 4

abbrev pub fin_seen : ℤ
fin_seen = pos 5

abbrev pub close_wait : ℤ
close_wait = pos 6

abbrev pub fin_wait : ℤ
fin_wait = pos 7

abbrev pub closing : ℤ
closing = pos 8

abbrev pub last_ack : ℤ
last_ack = pos 9

abbrev pub time_wait : ℤ
time_wait = pos 10

-- `TcpFlags`: the places of INVALID, SYN, SYNACK, ACK and FIN in a row.
abbrev pub flag_invalid : ℕ
flag_invalid = 0

abbrev pub flag_syn : ℕ
flag_syn = 1

abbrev pub flag_synack : ℕ
flag_synack = 2

abbrev pub flag_ack : ℕ
flag_ack = 3

abbrev pub flag_fin : ℕ
flag_fin = 4

-- `TCPState::dir`: the row for FORWARD, then that for BACKWARD. The name is for debugging only.
abbrev pub TcpState : Type 0
TcpState = List (List ℤ)

abbrev pub row : ℤ → ℤ → ℤ → ℤ → ℤ → List ℤ
row invalid syn synack ack fin = invalid ∷ syn ∷ synack ∷ ack ∷ fin ∷ []

abbrev pub directions : List ℤ → List ℤ → TcpState
directions forward backward = forward ∷ backward ∷ []

abbrev st_closed : TcpState
st_closed =
    directions (row (pos 0) syn_sent (pos 0) (pos 0) (pos 0))
      (row (pos 0) (pos 0) (pos 0) (pos 0) (pos 0))

abbrev st_syn_sent : TcpState
st_syn_sent =
    directions (row (pos 0) ok (pos 0) (pos 0) (pos 0))
      (row (pos 0) simsyn_sent syn_received (pos 0) (pos 0))

abbrev st_simsyn_sent : TcpState
st_simsyn_sent =
    directions (row (pos 0) ok syn_received (pos 0) (pos 0))
      (row (pos 0) ok syn_received (pos 0) fin_seen)

abbrev st_syn_received : TcpState
st_syn_received =
    directions (row (pos 0) (pos 0) (pos 0) established fin_seen)
      (row (pos 0) (pos 0) ok ok fin_seen)

abbrev st_established : TcpState
st_established =
    directions (row (pos 0) (pos 0) (pos 0) ok fin_seen) (row (pos 0) (pos 0) ok ok fin_seen)

abbrev st_fin_seen : TcpState
st_fin_seen =
    directions (row (pos 0) (pos 0) (pos 0) close_wait closing)
      (row (pos 0) (pos 0) (pos 0) fin_wait closing)

abbrev st_close_wait : TcpState
st_close_wait =
    directions (row (pos 0) (pos 0) (pos 0) ok last_ack) (row (pos 0) (pos 0) (pos 0) ok last_ack)

abbrev st_fin_wait : TcpState
st_fin_wait =
    directions (row (pos 0) (pos 0) (pos 0) ok last_ack) (row (pos 0) (pos 0) (pos 0) ok last_ack)

abbrev st_closing : TcpState
st_closing =
    directions (row (pos 0) (pos 0) (pos 0) last_ack (pos 0))
      (row (pos 0) (pos 0) (pos 0) last_ack (pos 0))

abbrev st_last_ack : TcpState
st_last_ack =
    directions (row (pos 0) (pos 0) (pos 0) time_wait (pos 0))
      (row (pos 0) (pos 0) (pos 0) time_wait (pos 0))

abbrev st_time_wait : TcpState
st_time_wait =
    directions (row (pos 0) syn_sent (pos 0) (pos 0) (pos 0))
      (row (pos 0) (pos 0) (pos 0) (pos 0) (pos 0))

unfoldable pub tcp_states : List TcpState
tcp_states =
    st_closed ∷ st_syn_sent ∷ st_simsyn_sent ∷ st_syn_received ∷ st_established ∷ st_fin_seen
    ∷ st_close_wait ∷ st_fin_wait ∷ st_closing ∷ st_last_ack ∷ st_time_wait ∷ []

-- An array indexed by an int; `none` is a read outside it.
abbrev pub at {ℓ} : {A : Type ℓ} → List A → ℤ → Option A
at xs (pos n) = get_elem? xs n
at xs (negsuc n) = none

infixl 5 ◌>>=◌
abbrev pub ◌>>=◌ {ℓ κ} : {A : Type ℓ} {B : Type κ} → Option A → (A → Option B) → Option B
none >>= f = none
some a >>= f = f a

pub >>=-eq-some {ℓ κ} :
    {A : Type ℓ} {B : Type κ} (m : Option A) (f : A → Option B) {b : B}
    → (m >>= f) ≡ some b
    → (a : A) × (m ≡ some a) × (f a ≡ some b)
>>=-eq-some none f h = cc
>>=-eq-some (some a) f h = (a, refl, h)

-- `tcp_states[state].state->dir[flowdir].flags[flags]`.
unfoldable pub entry : ℤ → ℕ → ℕ → Option ℤ
unfolding tcp_states
entry state flowdir flags = do
  dir ← at tcp_states state
  line ← get_elem? dir flowdir
  get_elem? line flags
