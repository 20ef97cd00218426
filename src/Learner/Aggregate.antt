-- ===== src/Learner/Aggregate.antt =====
-- The tables of src/learner/LearnerEngine.cc count the values of the flows.
use aiengine_rewritten_clean.Prelude.{
  ℕ, zero, suc, ◌+◌, ◌≡◌, refl, ◌∙◌, inl, inr, Bool, ◌&&◌, List, [], ◌∷◌, arith, Bool-cases, ltb,
  leb, ◌==◌, if◌then◌else◌, u8, u32, inc32, length,
}
use aiengine_rewritten_clean.Frequency.{PacketFrequencies, index}
use aiengine_rewritten_clean.Learner.{Table, LearnerEngine, bump, aggregate_loop, aggregate}

-- The count of a value, 0 where there is none.
unfoldable pub count_of : ℕ → Table → ℕ
count_of v [] = 0
count_of v ((w, n) ∷ t) = if w == v then n else count_of v t

count_of-bump :
    (v w : ℕ) (t : Table)
    → count_of v (bump w t) ≡ (if w == v then inc32 (count_of v t) else count_of v t)
unfolding count_of bump
count_of-bump v w [] = ground arith
count_of-bump v w ((x, n) ∷ t) = ground (arith, count_of-bump v w t)

aggregate_loop-place :
    (n i : ℕ) (p : PacketFrequencies) (q : ℕ → Table) (j : ℕ)
    → aggregate_loop n i p q j
      ≡ (if leb i j && ltb j (i + n) then bump (u8 (index p j)) (q j) else q j)
unfolding aggregate_loop
aggregate_loop-place zero i p q j = ground arith
aggregate_loop-place (suc n) i p q j = aggregate_loop-place n (i + 1) p _ j ∙ ground arith

unfoldable pub aggregate_all : List PacketFrequencies → LearnerEngine → LearnerEngine
aggregate_all [] e = e
aggregate_all (p ∷ ps) e = aggregate_all ps (aggregate p e)

-- The flow has the value at the place.
abbrev pub has : ℕ → ℕ → PacketFrequencies → Bool
has j v p = ltb j p.used && u8 (index p j) == v

unfoldable pub occurrences : ℕ → ℕ → List PacketFrequencies → ℕ
occurrences j v [] = 0
occurrences j v (p ∷ ps) = if has j v p then suc (occurrences j v ps) else occurrences j v ps

aggregate-count :
    (p : PacketFrequencies) (e : LearnerEngine) (j v : ℕ)
    → count_of v ((aggregate p e).q_array j)
      ≡ (if has j v p then inc32 (count_of v (e.q_array j)) else count_of v (e.q_array j))
unfolding aggregate
aggregate-count p e j v =
    let place = aggregate_loop-place p.used 0 p e.q_array j in
    let bumped = count_of-bump v (u8 (index p j)) (e.q_array j) in
    elim (Bool-cases (ltb j p.used)) [
      | inl inside ↦
          let here : aggregate_loop p.used 0 p e.q_array j ≡ bump (u8 (index p j)) (e.q_array j) =
            place ∙ ground arith in
          rw (inside, here) bumped
      | inr outside ↦
          let here : aggregate_loop p.used 0 p e.q_array j ≡ e.q_array j = place ∙ ground arith in
          rw (outside, here) refl
    ]

aggregate-items :
    (p : PacketFrequencies) (e : LearnerEngine) → (aggregate p e).items ≡ inc32 e.items
unfolding aggregate
aggregate-items p e = refl

-- After any flows the count of a value at a place has grown, modulo 2³², by the number of the flows
-- that have the value there, and the number of items by the number of the flows.
pub aggregate_all-count :
    (ps : List PacketFrequencies) (e : LearnerEngine) (j v : ℕ)
    → (u32 (count_of v ((aggregate_all ps e).q_array j))
        ≡ u32 (count_of v (e.q_array j) + occurrences j v ps))
      × (u32 (aggregate_all ps e).items ≡ u32 (e.items + length ps))
unfolding aggregate_all occurrences
aggregate_all-count [] e j v = (ground arith, ground arith)
aggregate_all-count (p ∷ ps) e j v =
    let (counted, items) = aggregate_all-count ps (aggregate p e) j v in
    let first = aggregate-count p e j v in
    (counted ∙ ground (arith, first), items ∙ ground (arith, aggregate-items p e))
