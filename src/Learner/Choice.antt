-- ===== src/Learner/Choice.antt =====
-- The choice of a value for a place by `compute` of src/learner/LearnerEngine.cc.
use aiengine_rewritten_clean.Prelude.{
  ℕ, ◌≤◌, ◌<◌, ◌≡◌, ◌⊎◌, refl, sym, subst, ap, ◌∙◌, true, ◌&&◌, length, inl, inr, some, [], ◌∷◌,
  arith, Bool-cases, ltb, ltb→lt,
}
use mathlib.Core.Logic.{∥∥₁_map}
use mathlib.Core.List.{Perm, Permᴰ}
use mathlib.Core.List.Permᴰ.{nil, cons, swap, trans}
use aiengine_rewritten_clean.Prelude.Int.{pos, ltb_ℤ}
use aiengine_rewritten_clean.Learner.{Table, LearnerEngine, best, token, from_table, quality_byte}

-- The pair is in the table.
abbrev pub In : ℕ → ℕ → Table → Type 0
In v n [] = ⊥
In v n ((w, m) ∷ t) = ((v ≡ w) × (n ≡ m)) ⊎ In v n t

-- No count of the table is larger.
abbrev pub AtMost : ℕ → Table → Type 0
AtMost n [] = Unit {0}
AtMost n ((w, m) ∷ t) = (m ≤ n) × AtMost n t

AtMost-trans : (m n : ℕ) (t : Table) → m ≤ n → AtMost m t → AtMost n t
AtMost-trans m n [] h k = tt
AtMost-trans m n ((w, l) ∷ t) h k = (omega (arith, h, k.0), AtMost-trans m n t h k.1)

some-inj : {a b : ℕ} → some a ≡ some b → a ≡ b
some-inj h = cc

best_lem :
    (t : Table) (q c r : ℕ)
    → best t q c ≡ r
    → ((r ≡ c) × AtMost q t) ⊎ ((n : ℕ) × In r n t × AtMost n t × (q < n))
unfolding best
best_lem [] q c r h = inl (sym h, tt)
best_lem ((v, m) ∷ t) q c r h = elim (Bool-cases (ltb q m)) [
  | inl more ↦
      let gt = ltb→lt q m more in
      elim (best_lem t m v r (rw more at h)) [
        | inl (same, most) ↦ inr (m, inl (same, refl), (omega arith, most), gt)
        | inr (n, found, most, larger) ↦
            inr (n, inr found, (omega (arith, larger), most), omega (arith, gt, larger))
      ]
  | inr less ↦ elim (best_lem t q c r (rw less at h)) [
    | inl (same, most) ↦ inl (same, (ground arith, most))
    | inr (n, found, most, larger) ↦ inr (n, inr found, (ground arith, most), larger)
  ]
]

from_table_lem : (t : Table) (v : ℕ) → from_table t ≡ some v → (n : ℕ) × In v n t × AtMost n t
unfolding from_table
from_table_lem [] v h = cc
from_table_lem ((w, m) ∷ t) v h = elim (best_lem ((w, m) ∷ t) 0 w v (some-inj h)) [
  | inl (same, most) ↦ (m, inl (same, refl), (omega arith, AtMost-trans 0 m t (omega arith) most.1))
  | inr (n, found, most, _) ↦ (n, found, most)
]

-- What is known of the order in which the pairs of a place's map are met: each is met once.
abbrev pub IsOrder : (ℕ → Table → Table) → Type 0
IsOrder iterate = (i : ℕ) (t : Table) → Perm (iterate i t) t

In-Permᴰ : {t u : Table} (v n : ℕ) → Permᴰ t u → In v n t → In v n u
In-Permᴰ v n nil h = h
In-Permᴰ v n (cons {b = (w, m)} e p) (inl (f, g)) = inl (f ∙ ap (λ x. x.0) e, g ∙ ap (λ x. x.1) e)
In-Permᴰ v n (cons e p) (inr h) = inr (In-Permᴰ v n p h)
In-Permᴰ v n (swap e f) (inl (g, h)) = inr (inl (g ∙ ap (λ x. x.0) e, h ∙ ap (λ x. x.1) e))
In-Permᴰ v n (swap e f) (inr (inl (g, h))) = inl (g ∙ ap (λ x. x.0) f, h ∙ ap (λ x. x.1) f)
In-Permᴰ v n (swap e f) (inr (inr h)) = inr (inr h)
In-Permᴰ v n (trans p q) h = In-Permᴰ v n q (In-Permᴰ v n p h)

AtMost-Permᴰ : {t u : Table} (n : ℕ) → Permᴰ t u → AtMost n t → AtMost n u
AtMost-Permᴰ n nil h = h
AtMost-Permᴰ n (cons e p) h = (subst (λ x. x.1 ≤ n) e h.0, AtMost-Permᴰ n p h.1)
AtMost-Permᴰ n (swap e f) h = (subst (λ x. x.1 ≤ n) f h.1.0, (subst (λ x. x.1 ≤ n) e h.0, h.1.1))
AtMost-Permᴰ n (trans p q) h = AtMost-Permᴰ n q (AtMost-Permᴰ n p h)

-- The value is one of the table, with some count, and none of the table has been seen more often.
abbrev pub IsMostSeen : ℕ → Table → Type 0
IsMostSeen v t = ∥ ((n : ℕ) × In v n t × AtMost n t) ∥₁

-- The value that a place gets, whatever the order of its map, is one of its table, none of the table
-- has been seen more often, and the quality of the place is more than 80.
pub token_lem :
    (iterate : ℕ → Table → Table) (e : LearnerEngine) (i v : ℕ)
    → IsOrder iterate
    → token iterate e i ≡ some v
    → IsMostSeen v (e.q_array i) × (ltb_ℤ (pos 80) (quality_byte e i) ≡ true)
unfolding token
token_lem iterate e i v o h =
    elim (Bool-cases (ltb_ℤ (pos 80) (quality_byte e i) && ltb 0 (length (e.q_array i)))) [
      | inl good ↦
          let (n, found, most) = from_table_lem (iterate i (e.q_array i)) v (rw good at h) in
          (
            ∥∥₁_map (o i (e.q_array i)) (λ p. (n, In-Permᴰ v n p found, AtMost-Permᴰ n p most)),
            ground (arith, good),
          )
      | inr poor ↦ absurd (ground (arith, poor))
    ]
