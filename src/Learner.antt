-- ===== src/Learner.antt =====
-- src/learner/LearnerEngine.h and LearnerEngine.cc: from the first bytes of flows to a regular
-- expression.
--
-- `q_array_` has for each place a map from values to counts, here the list of its pairs in the
-- order in which they came in. The counts are ints, kept as bit patterns. The map is an
-- unordered_map: the order in which `compute` meets the pairs of a place's map is the parameter
-- `iterate`. `boost::format("%02x")` is the parameter `hex`.
pub mod Aggregate
pub mod Choice
pub mod Regex
pub mod Ascii
pub mod Learned
pub mod Tests
use aiengine_rewritten_clean.Prelude.{
  ℕ, zero, suc, ◌+◌, ◌-◌, ◌*◌, ◌/◌, ◌^◌, Bool, true, false, ◌&&◌, Option, none, some, List, [], ◌∷◌,
  ◌++◌, ltb, leb, ◌==◌, if◌then◌else◌, Bytes, u8, inc32, length, drop,
}
use aiengine_rewritten_clean.Prelude.Int.{ℤ, pos, ◌-ℤ◌, ltb_ℤ}
use aiengine_rewritten_clean.Frequency.{PacketFrequencies, index, max_values}

abbrev pub Table : Type 0
Table = List (ℕ × ℕ)

pub record LearnerEngine : Type 0 where
  pub size : ℕ
  pub items : ℕ
  pub max_raw_expression : ℕ
  pub raw_expression : Bytes
  pub regex_expression : Bytes
  pub q_array : ℕ → Table

-- `reset()`.
abbrev pub reset : LearnerEngine → LearnerEngine
reset e = record e {
  items = 0;
  size = 0;
  raw_expression = [];
  regex_expression = [];
  q_array = λ i. [];
}

-- `find`, and then `insert` of a pair with the count 1 or `++` on the count that is there.
unfoldable pub bump : ℕ → Table → Table
bump v [] = (v, 1) ∷ []
bump v ((w, n) ∷ t) = let rest = bump v t in if w == v then (w, inc32 n) ∷ t else (w, n) ∷ rest

-- The loop of `agregatePacketFlow`, for `n` places from `i` on.
unfoldable pub aggregate_loop : ℕ → ℕ → PacketFrequencies → (ℕ → Table) → ℕ → Table
unfolding bump
aggregate_loop zero i p q = q
aggregate_loop (suc n) i p q =
    aggregate_loop n (i + 1) p (λ j. if j == i then bump (u8 (index p i)) (q j) else q j)

-- `agregatePacketFlow(pkt_freq)`.
unfoldable pub aggregate : PacketFrequencies → LearnerEngine → LearnerEngine
unfolding aggregate_loop
aggregate p e = record e {
  items = inc32 e.items;
  q_array = aggregate_loop p.used 0 p e.q_array;
  size = if ltb e.size p.used then p.used else e.size;
}

-- `100 - (n - 1) * 100 / items`, for a map of `n` pairs and a positive number of items: the division
-- of ints is towards 0.
abbrev pub quality_of : ℕ → ℕ → ℤ
quality_of zero items = pos (100 + 100 / items)
quality_of (suc n) items = pos 100 -ℤ pos (n * 100 / items)

-- `getQualityByte(offset)`, for an offset that is not negative.
unfoldable pub quality_byte : LearnerEngine → ℕ → ℤ
quality_byte e offset =
    if ltb offset max_values && (ltb 0 e.items && ltb e.items (2 ^ 31))
    then quality_of (length (e.q_array offset)) e.items
    else pos 0

-- The loop over a table's pairs: the first value with the largest count.
unfoldable pub best : Table → ℕ → ℕ → ℕ
best [] quality candidate = candidate
best ((v, n) ∷ t) quality candidate = if ltb quality n then best t n v else best t quality candidate

-- The token of a place that is good enough: the first of the most frequent values.
unfoldable pub from_table : Table → Option ℕ
unfolding best
from_table [] = none
from_table ((v, n) ∷ t) = some (best ((v, n) ∷ t) 0 v)

-- The token of a place: a value, or `none` for `.?`.
unfoldable pub token : (ℕ → Table → Table) → LearnerEngine → ℕ → Option ℕ
unfolding quality_byte from_table
token iterate e i =
    if ltb_ℤ (pos 80) (quality_byte e i) && ltb 0 (length (e.q_array i))
    then from_table (iterate i (e.q_array i))
    else none

unfoldable pub tokens : (ℕ → Table → Table) → LearnerEngine → ℕ → ℕ → List (Option ℕ)
tokens iterate e i zero = []
tokens iterate e i (suc n) = token iterate e i ∷ tokens iterate e (i + 1) n

-- The text of a token: a backslash, an `x` and the value as `hex` prints it, or `.?`.
abbrev pub token_text : (ℕ → Bytes) → Option ℕ → Bytes
token_text hex none = b'.' ∷ b'?' ∷ []
token_text hex (some v) = 92 ∷ b'x' ∷ hex v

abbrev pub raw_token : (ℕ → Bytes) → Option ℕ → Bytes
raw_token hex none = []
raw_token hex (some v) = hex v

abbrev pub concat_texts : (Option ℕ → Bytes) → List (Option ℕ) → Bytes
concat_texts f [] = []
concat_texts f (t ∷ ts) = f t ++ concat_texts f ts

-- `memcmp(".?", …, 2) == 0`, where the text goes on with its NUL.
abbrev pub any_here : Bytes → Bool
any_here (a ∷ b ∷ text) = a == b'.' && b == b'?'
any_here _ = false

-- The inner loop: how many times `.?` stands here, one after the other.
unfoldable pub run_of : Bytes → ℕ
run_of [] = 0
run_of (a ∷ []) = 0
run_of (a ∷ b ∷ text) = let more = run_of text in if any_here (a ∷ b ∷ text) then suc more else 0

-- A number in decimal, as `<<` prints it, is the parameter `decimal`.
-- The outer loop: a run of two or more `.?` becomes `.{n}`. The loop moves on by at least one place
-- in each round, so the text's length is enough as fuel.
unfoldable pub compress : (ℕ → Bytes) → ℕ → Bytes → Bytes
unfolding run_of
compress decimal zero text = []
compress decimal (suc fuel) [] = []
compress decimal (suc fuel) (a ∷ text) =
    let skip = compress decimal fuel (drop (2 * run_of (a ∷ text)) (a ∷ text)) in
    let next = compress decimal fuel text in
    if any_here (a ∷ text)
    then (if ltb 1 (run_of (a ∷ text))
        then b'.' ∷ b'{' ∷ decimal (run_of (a ∷ text)) ++ b'}' ∷ skip
        else b'.' ∷ b'?' ∷ skip)
    else a ∷ next

-- How many places are looked at.
abbrev pub used_places : LearnerEngine → ℕ
used_places e = if ltb e.max_raw_expression e.size then e.max_raw_expression else e.size

-- `compute()`.
unfoldable pub compute :
    (ℕ → Table → Table) → (ℕ → Bytes) → (ℕ → Bytes) → LearnerEngine → LearnerEngine
unfolding compress token tokens
compute iterate hex decimal e =
    let found = tokens iterate e 0 (used_places e) in
    let expr = b'^' ∷ concat_texts (token_text hex) found in
    record e {
      regex_expression = compress decimal (length expr) expr;
      raw_expression = concat_texts (raw_token hex) found;
    }

-- `getAsciiExpression()`: two digits at a time, on ints; `char(…)` keeps the low eight bits, and
-- 208 is -48 in them, 201 is -55.
unfoldable pub ascii : Bytes → Bytes
ascii [] = []
ascii (a ∷ []) = []
ascii (a ∷ b ∷ text) =
    let rest = ascii text in
    let high = (a + 208) * 16 in
    let low = if leb 97 b && leb b 102 then b - 32 else b in
    u8 (if ltb low 65 then high + low + 208 else high + low + 201) ∷ rest
