-- ===== src/Learner/Learned.antt =====
-- What src/learner/LearnerEngine.cc makes of the flows that it is given, from a reset to `compute`.
use mathlib.Core.Logic.{∥∥₁_elim}
use native.Mathlib.Bridge.{le_prop}
use aiengine_rewritten_clean.Prelude.{
  ℕ, zero, suc, ◌+◌, ◌<◌, ◌≡◌, inl, inr, Bool, true, false, Option, List, [], ◌∷◌, map, arith, u8,
  Bool-cases, ◌==◌, if◌then◌else◌, Bytes, Option-cases,
}
use aiengine_rewritten_clean.Frequency.{PacketFrequencies, index}
use aiengine_rewritten_clean.Learner.{
  Table, LearnerEngine, reset, bump, aggregate_loop, aggregate, token, tokens, compute, used_places,
  ascii,
}
use aiengine_rewritten_clean.Learner.Aggregate.{aggregate_all}
use aiengine_rewritten_clean.Learner.Choice.{In, IsOrder, token_lem}
use aiengine_rewritten_clean.Learner.Ascii.{PrintsHex, AllBytes, values, shown, ascii_raw}
use aiengine_rewritten_clean.Learner.Regex.{render, compute-regex}

-- The values of a table are bytes.
abbrev pub ByteKeys : Table → Type 0
ByteKeys [] = Unit {0}
ByteKeys ((v, n) ∷ t) = (v < 256) × ByteKeys t

bump-ByteKeys : (v : ℕ) (t : Table) → v < 256 → ByteKeys t → ByteKeys (bump v t)
unfolding bump
bump-ByteKeys v [] h k = (h, tt)
bump-ByteKeys v ((w, n) ∷ t) h k = elim (Bool-cases (w == v)) [
  | inl e ↦ rw e (k.0, k.1)
  | inr ne ↦ rw ne (k.0, bump-ByteKeys v t h k.1)
]

u8-lt : (n : ℕ) → u8 n < 256
u8-lt n = omega arith

place-ByteKeys :
    (b : Bool) (v : ℕ) (t : Table) → v < 256 → ByteKeys t → ByteKeys (if b then bump v t else t)
place-ByteKeys true v t h k = bump-ByteKeys v t h k
place-ByteKeys false v t h k = k

loop-ByteKeys :
    (n i : ℕ) (p : PacketFrequencies) (q : ℕ → Table)
    → ((j : ℕ) → ByteKeys (q j))
    → (j : ℕ) → ByteKeys (aggregate_loop n i p q j)
unfolding aggregate_loop
loop-ByteKeys zero i p q h j = h j
loop-ByteKeys (suc n) i p q h j =
    loop-ByteKeys n (i + 1) p _
      (λ k. place-ByteKeys (k == i) (u8 (index p i)) (q k) (u8-lt (index p i)) (h k)) j

aggregate_all-ByteKeys :
    (ps : List PacketFrequencies) (e : LearnerEngine)
    → ((j : ℕ) → ByteKeys (e.q_array j))
    → (j : ℕ) → ByteKeys ((aggregate_all ps e).q_array j)
unfolding aggregate_all aggregate
aggregate_all-ByteKeys [] e h j = h j
aggregate_all-ByteKeys (p ∷ ps) e h j =
    aggregate_all-ByteKeys ps (aggregate p e) (loop-ByteKeys p.used 0 p e.q_array h) j

In-ByteKeys : (v n : ℕ) (t : Table) → In v n t → ByteKeys t → v < 256
In-ByteKeys v n [] h k = absurd h
In-ByteKeys v n ((w, m) ∷ t) (inl (e, f)) k = omega (arith, e, k.0)
In-ByteKeys v n ((w, m) ∷ t) (inr h) k = In-ByteKeys v n t h k.1

tokens-AllBytes :
    (iterate : ℕ → Table → Table) (e : LearnerEngine) (i n : ℕ)
    → IsOrder iterate
    → ((j : ℕ) → ByteKeys (e.q_array j))
    → AllBytes (tokens iterate e i n)
unfolding tokens
tokens-AllBytes iterate e i zero o h = tt
tokens-AllBytes iterate e i (suc n) o h = elim (Option-cases (token iterate e i)) [
  | inl gone ↦ rw gone (tokens-AllBytes iterate e (i + 1) n o h)
  | inr (v, found) ↦
      let (most, _) = token_lem iterate e i v o found in
      let byte : v < 256 =
        ∥∥₁_elim most (hlevel le_prop)
          (λ (m, inside, _). In-ByteKeys v m (e.q_array i) inside (h i)) in
      rw found (byte, tokens-AllBytes iterate e (i + 1) n o h)
]

-- The engine after a reset and some flows.
abbrev pub learned : List PacketFrequencies → LearnerEngine → LearnerEngine
learned ps e = aggregate_all ps (reset e)

module _ (iterate : ℕ → Table → Table) (hex decimal : ℕ → Bytes) (o : IsOrder iterate)
    (p : PrintsHex hex) (ps : List PacketFrequencies) (e : LearnerEngine) where
  abbrev pub found : List (Option ℕ)
  found = tokens iterate (learned ps e) 0 (used_places (learned ps e))

  found-AllBytes : AllBytes found
  found-AllBytes =
      tokens-AllBytes iterate (learned ps e) 0 _ o (aggregate_all-ByteKeys ps (reset e) (λ j. tt))

  -- In whatever order the maps of the places give their pairs, each pair once, and if `hex` prints two
  -- hexadecimal digits in lower case: the regular expression learned from any flows is `^` and the
  -- text of the tokens of the places, `\xhh` for a value, where each run of two or more places with
  -- no value is one `.{n}` and a single one is `.?`.
  pub regex_learned :
      (compute iterate hex decimal (learned ps e)).regex_expression
      ≡ b'^' ∷ render hex decimal 0 found
  regex_learned = compute-regex iterate hex decimal (learned ps e) p found-AllBytes

  -- Under the same conditions, the text shown for what is learned from any flows: the values of the
  -- places in order, each below 160 as it is, and each other one 144 too low.
  pub ascii-learned :
      ascii (compute iterate hex decimal (learned ps e)).raw_expression ≡ map shown (values found)
  unfolding compute
  ascii-learned = ascii_raw hex found p found-AllBytes
