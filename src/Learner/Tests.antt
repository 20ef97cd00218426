-- ===== src/Learner/Tests.antt =====
-- src/learner on concrete flows.
use mathlib.Core.List.{reverse_perm}
use aiengine_rewritten_clean.Prelude.Int.{pos, ◌-ℤ◌}
use aiengine_rewritten_clean.Prelude.{
  ℕ, ◌+◌, ◌/◌, ◌%◌, ◌≡◌, refl, ◌==◌, if◌then◌else◌, List, [], ◌∷◌, map, reverse, some, Bytes,
  length, u32,
}
use aiengine_rewritten_clean.Frequency.{PacketFrequencies, index}
use aiengine_rewritten_clean.Learner.{
  Table, LearnerEngine, compute, aggregate, ascii, quality_byte, tokens, token,
}
use aiengine_rewritten_clean.Learner.Choice.{IsOrder}
use aiengine_rewritten_clean.Learner.Aggregate.{
  aggregate_all, count_of, occurrences, aggregate_all-count,
}
use aiengine_rewritten_clean.Learner.Ascii.{digit, values, shown}
use aiengine_rewritten_clean.Learner.Regex.{render}
use aiengine_rewritten_clean.Learner.Learned.{learned, found, regex_learned, ascii-learned}

abbrev hex : ℕ → Bytes
hex v = digit (v / 16) ∷ digit (v % 16) ∷ []

abbrev decimal : ℕ → Bytes
decimal n = (48 + n) ∷ []

abbrev blank : LearnerEngine
blank = record {
  size = 0;
  items = 0;
  max_raw_expression = 64;
  raw_expression = [];
  regex_expression = [];
  q_array = λ i. [];
}

-- Three bytes, the last of them `z`.
abbrev flow : ℕ → PacketFrequencies
flow v = record { freqs = λ i. if i == 2 then b'z' else v; used = 3 }

abbrev flows : List PacketFrequencies
flows = flow 1 ∷ flow 2 ∷ flow 1 ∷ []

aggregate_all-count_example :
    (u32 (count_of 1 ((aggregate_all flows blank).q_array 0)) ≡ u32 (0 + occurrences 0 1 flows))
    × (u32 (aggregate_all flows blank).items ≡ u32 (0 + length flows))
unfolding count_of
aggregate_all-count_example = aggregate_all-count flows blank 0 1

-- The newest value first, as the map of libstdc++ does for a few values.
abbrev newest_first : ℕ → Table → Table
newest_first i t = reverse t

newest_first-IsOrder : IsOrder newest_first
newest_first-IsOrder i t = reverse_perm t

regex_learned_example :
    (compute newest_first hex decimal (learned flows blank)).regex_expression
    ≡ b'^'
      ∷ render hex decimal 0
          (found newest_first hex decimal newest_first-IsOrder (λ v h. refl) flows blank)
regex_learned_example =
    regex_learned newest_first hex decimal newest_first-IsOrder (λ v h. refl) flows blank

ascii-learned_example :
    ascii (compute newest_first hex decimal (learned flows blank)).raw_expression
    ≡ map shown
        (values (found newest_first hex decimal newest_first-IsOrder (λ v h. refl) flows blank))
ascii-learned_example =
    ascii-learned newest_first hex decimal newest_first-IsOrder (λ v h. refl) flows blank

-- What is learned from the three flows: `^.{2}\x7a`.
learned_three :
    (compute newest_first hex decimal (learned flows blank)).regex_expression
    ≡ b'^' ∷ b'.' ∷ b'{' ∷ b'2' ∷ b'}' ∷ 92 ∷ b'x' ∷ b'7' ∷ b'a' ∷ []
unfolding compute aggregate_all aggregate index ◌-ℤ◌
learned_three = refl

-- `test1_learner` of src/learner/test_learner.cc: ten flows 16 02 aa aa, then ten 16 02 aa 00.
abbrev of_bytes : ℕ → PacketFrequencies
of_bytes last = record {
  freqs = λ i. if i == 0 then 0x16 else (if i == 1 then 2 else (if i == 2 then 0xaa else last));
  used = 4;
}

abbrev ten : PacketFrequencies → List PacketFrequencies → List PacketFrequencies
ten p rest = p ∷ p ∷ p ∷ p ∷ p ∷ p ∷ p ∷ p ∷ p ∷ p ∷ rest

abbrev twenty : LearnerEngine
twenty = aggregate_all (ten (of_bytes 0xaa) (ten (of_bytes 0) [])) blank

quality_twenty : (quality_byte twenty 2 ≡ pos 100) × (quality_byte twenty 3 ≡ pos 95)
unfolding aggregate_all aggregate index quality_byte ◌-ℤ◌
quality_twenty = (refl, refl)

tokens-twenty : tokens newest_first twenty 0 4 ≡ some 0x16 ∷ some 2 ∷ some 0xaa ∷ some 0 ∷ []
unfolding tokens token aggregate_all aggregate index ◌-ℤ◌
tokens-twenty = refl
