-- ===== src/Tcp/Compute.antt =====
-- `TCPProtocol::computeState` of src/protocols/tcp/TCPProtocol.cc: what a segment does to the
-- record of its flow, to the flow's anomaly and to the protocol's counters.
use aiengine_rewritten_clean.Prelude.{
  ℕ, zero, suc, ◌+◌, ◌-◌, ◌%◌, ◌^◌, Bool, true, false, ◌&&◌, ◌||◌, Option, some, if◌then◌else◌, u32,
  inc16, inc32,
}
use aiengine_rewritten_clean.Prelude.Int.{ℤ, pos, negsuc, pos_part, neg_part}
use aiengine_rewritten_clean.Anomaly.{PacketAnomalyType, tcp_bad_flags, Hits, inc_anomaly, mark}
use aiengine_rewritten_clean.Tcp.States.{
  closed, flag_syn, flag_synack, flag_ack, flag_fin, entry, ◌>>=◌,
}
use aiengine_rewritten_clean.Tcp.Info.{TcpInfo, set_seq}

-- The fields of the header that `computeState` reads.
pub record Segment : Type 0 where
  pub syn : Bool
  pub ack : Bool
  pub fin : Bool
  pub rst : Bool
  pub psh : Bool
  pub sequence : ℕ

-- The counters `total_flags_…_`.
pub record Totals : Type 0 where
  pub syn : ℕ
  pub synack : ℕ
  pub ack : ℕ
  pub fin : ℕ
  pub rst : ℕ

-- What the method reads and writes: the flow's `TCPInfo` and anomaly, the anomaly counters and the
-- protocol's own.
pub record FlowState : Type 0 where
  pub info : TcpInfo
  pub pa : PacketAnomalyType
  pub hits : Hits
  pub totals : Totals

-- `seq_num + bytes` on uint32_t, with a signed number of bytes.
abbrev pub add_bytes : ℕ → ℤ → ℕ
add_bytes seq bytes = u32 (seq + pos_part bytes + (2 ^ 32 - neg_part bytes % 2 ^ 32))

-- `++ info->fin; ++ total_flags_fin_;`
abbrev count_fin : FlowState → FlowState
count_fin s = record s {
  info = let i = s.info in record i { fin = inc16 i.fin };
  totals = let t = s.totals in record t { fin = inc32 t.fin };
}

-- The part of the branch `if (syn)` that counts the flag and notes the sequence number.
abbrev count_syn : Segment → ℕ → FlowState → FlowState
count_syn h flowdir s =
    if h.ack
    then record s {
      info = record i { syn_ack = inc16 i.syn_ack; seq_num = set_seq i.seq_num flowdir h.sequence };
      totals = record t { synack = inc32 t.synack };
    }
    else record s {
      info = record i {
        syn = inc16 i.syn;
        seq_num = set_seq i.seq_num flowdir (u32 (h.sequence + 1));
      };
      totals = record t { syn = inc32 t.syn };
    }
  where
    open s use {info as i, totals as t}

-- The branch without SYN: a FIN, with ACK or without it, or an ACK; and the PUSH flag.
abbrev count_ack : FlowState → FlowState
count_ack s = record s {
  info = let i = s.info in record i { ack = inc16 i.ack };
  totals = let t = s.totals in record t { ack = inc32 t.ack };
}

abbrev count_push : Bool → FlowState → FlowState
count_push psh s =
    if psh then record s { info = let i = s.info in record i { push = inc16 i.push } } else s

unfoldable pub count_flags : Segment → ℕ → FlowState → FlowState
count_flags h flowdir s =
    if h.syn
    then (if h.fin then count_fin (count_syn h flowdir s) else count_syn h flowdir s)
    else count_push h.psh (if h.fin then count_fin s else count_ack s)

-- The flag that the table is asked about.
unfoldable pub flag_of : Segment → ℕ
flag_of h =
    if h.syn
    then (if h.ack then flag_synack else flag_syn)
    else (if h.fin then flag_fin else flag_ack)

-- SYN together with FIN or RST.
abbrev pub bad_flags : Segment → Bool
bad_flags h = h.syn && (h.fin || h.rst)

unfoldable pub note_bad_flags : Segment → FlowState → FlowState
note_bad_flags h s =
    if bad_flags h
    then record s { pa = mark tcp_bad_flags s.pa; hits = inc_anomaly tcp_bad_flags s.hits }
    else s

-- The local `seq_num` after the flags are read: a SYN without ACK takes one number.
abbrev pub local_seq : Segment → ℕ
local_seq h = if h.syn && (if h.ack then false else true) then u32 (h.sequence + 1) else h.sequence

-- `newstate == -1` keeps the state.
abbrev pub settle : ℤ → ℤ → ℤ
settle prev (pos n) = pos n
settle prev (negsuc zero) = prev
settle prev (negsuc (suc n)) = negsuc (suc n)

-- From `next_seq_num = …` to `info->state_curr = newstate`.
abbrev pub advance : ℕ → ℕ → ℤ → TcpInfo → TcpInfo
advance flowdir next_seq_num newstate info = record info {
  seq_num = set_seq info.seq_num flowdir next_seq_num;
  state_prev = info.state_curr;
  state_curr = settle info.state_curr newstate;
}

-- `if (rst)`: a hard reset closes the flow.
unfoldable pub apply_rst : Segment → FlowState → FlowState
apply_rst h s =
    if h.rst
    then record s {
      info = record i { state_prev = closed; state_curr = closed; rst = inc16 i.rst };
      totals = let t = s.totals in record t { rst = inc32 t.rst };
    }
    else s
  where
    open s use {info as i}

-- `computeState(flow, info, bytes)`; `none` is a read outside the table.
unfoldable pub compute_state : Segment → ℕ → ℤ → FlowState → Option FlowState
unfolding count_flags flag_of note_bad_flags apply_rst
compute_state h flowdir bytes s = do
  let t = note_bad_flags h (count_flags h flowdir s)
  newstate ← entry s.info.state_curr flowdir (flag_of h)
  some (
      apply_rst h
        (record t { info = advance flowdir (add_bytes (local_seq h) bytes) newstate t.info }))
