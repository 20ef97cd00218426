-- ===== src/Frequency.antt =====
-- src/protocols/frequency/PacketFrequencies.h: the first bytes of a flow, as the learner reads them.
pub mod Payload
pub mod Tests
use aiengine_rewritten_clean.Prelude.{
  ℕ, zero, suc, ◌+◌, ◌-◌, ◌^◌, List, [], ◌∷◌, ltb, leb, ◌==◌, if◌then◌else◌, Bytes, u8, u16, length,
  take,
}

-- `freqs_` has 4096 places, each an int kept as its bit pattern; `length_` counts those in use.
pub record PacketFrequencies : Type 0 where
  pub freqs : ℕ → ℕ
  pub used : ℕ

-- `MAX_PACKET_FREQUENCIES_VALUES`.
abbrev pub max_values : ℕ
max_values = 4096

-- `reset()`, whatever was there.
abbrev pub reset : PacketFrequencies → PacketFrequencies
reset p = record { freqs = λ i. 0; used = 0 }

-- A `char` as an int: bytes from 128 on are negative.
abbrev pub of_char : ℕ → ℕ
of_char b = if ltb b 128 then b else b + (2 ^ 32 - 256)

-- The loop of `addPayload`.
unfoldable pub store : ℕ → Bytes → (ℕ → ℕ) → ℕ → ℕ
store i [] freqs = freqs
store i (b ∷ bs) freqs = store (i + 1) bs (λ j. if j == i then of_char b else freqs j)

-- How many bytes of a payload of `n` there is room for: `limit`, for a `length_` below the maximum.
abbrev pub limit : ℕ → ℕ → ℕ
limit used n = if ltb max_values (used + n) then max_values - used else n

-- `addPayload(data)`.
unfoldable pub add_payload : Bytes → PacketFrequencies → PacketFrequencies
unfolding store
add_payload text p = if leb max_values p.used then p else record {
  freqs = store p.used (take (limit p.used (length text)) text) p.freqs;
  used = p.used + limit p.used (length text);
}

-- `index(i)`, an unsigned short.
unfoldable pub index : PacketFrequencies → ℕ → ℕ
index p i = u16 (p.freqs i)
