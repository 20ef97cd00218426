-- ===== src/Tcp/Info.antt =====
-- src/protocols/tcp/TCPInfo.h: what is kept for each TCP flow. The metrics that the build option
-- HAVE_TCP_QOS_METRICS adds are left out.
use aiengine_rewritten_clean.Prelude.{ℕ, ◌==◌, if◌then◌else◌}
use aiengine_rewritten_clean.Prelude.Int.{ℤ}
use aiengine_rewritten_clean.Tcp.States.{closed}

-- The flag counters are 16-bit, kept as bit patterns; the two sequence numbers are 32-bit.
pub record TcpInfo : Type 0 where
  pub state_prev : ℤ
  pub state_curr : ℤ
  pub syn : ℕ
  pub syn_ack : ℕ
  pub ack : ℕ
  pub fin : ℕ
  pub rst : ℕ
  pub push : ℕ
  pub seq_num : ℕ → ℕ

-- `reset()`: every field anew.
abbrev pub reset : TcpInfo → TcpInfo
reset info = record {
  state_prev = closed;
  state_curr = closed;
  syn = 0;
  syn_ack = 0;
  ack = 0;
  fin = 0;
  rst = 0;
  push = 0;
  seq_num = λ d. 0;
}

-- `seq_num[flowdir] = n`.
abbrev pub set_seq : (ℕ → ℕ) → ℕ → ℕ → ℕ → ℕ
set_seq seq flowdir n d = if d == flowdir then n else seq d
