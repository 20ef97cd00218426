-- ===== src/Release/Pools.antt =====
-- What `releaseFlow` of src/CacheManager.cc does to the pools.
use aiengine_rewritten_clean.Prelude.{
  ℕ, ◌≡◌, refl, sym, ap, ◌∙◌, inl, inr, Bool, true, false, ◌||◌, Option, none, some, List, [], ◌∷◌,
  arith, Bool-cases, Option-cases, ◌==◌, if◌then◌else◌, ==_iff,
}
use aiengine_rewritten_clean.Cache.{Cache}
use aiengine_rewritten_clean.Cache.Inv.{IsValid, release-IsValid}
use aiengine_rewritten_clean.Flow.{Flow, Links}
use aiengine_rewritten_clean.Release.{
  Kind, gprs, tcp, number, CacheManager, link, over_tcp, over_udp, give_back, give_back_to,
  release_first, release_flow,
}

-- The pool is valid, if there is one.
abbrev pub ValidPool : {A : Type 0} → Option (Cache A) → Type 0
ValidPool none = Unit {0}
ValidPool (some c) = IsValid c

-- The kind is in the chain, and there is no record of a kind before it.
unfoldable pub turn : List Kind → Links → Kind → Bool
turn [] l j = false
turn (k ∷ ks) l j =
    let later = turn ks l j in
    if number j == number k then true else elim (link k l) [ some p ↦ false | none ↦ later ]

-- The record of the kind goes back.
unfoldable pub returned : Flow → Kind → Bool
unfolding turn
returned f j =
    if f.protocol == 6
    then (number j == number tcp || turn over_tcp f.links j)
    else (number j == number gprs || turn over_udp f.links j)

number-inj : (j k : Kind) → number j ≡ number k → j ≡ k
number-inj j k h = ground arith

turn-tcp : (l : Links) → turn over_tcp l tcp ≡ false
unfolding turn
turn-tcp l = ground arith

turn-gprs : (l : Links) → turn over_udp l gprs ≡ false
unfolding turn
turn-gprs l = ground arith

module _ {A : Type 0} where
  release_first-some :
      (k : Kind) (ks : List Kind) (l : Links) (m : CacheManager A) (p : ℕ)
      → link k l ≡ some p
      → release_first (k ∷ ks) l m ≡ give_back_to k (some p) m
  unfolding release_first
  release_first-some k ks l m p there = rw (there, release_first) refl

  release_first-none :
      (k : Kind) (ks : List Kind) (l : Links) (m : CacheManager A)
      → link k l ≡ none
      → release_first (k ∷ ks) l m ≡ release_first ks l m
  unfolding release_first
  release_first-none k ks l m gone = rw (gone, release_first) refl

  if_same : (b : Bool) (x : Option (Cache A)) → (if b then x else x) ≡ x
  if_same true x = refl
  if_same false x = refl

  give_back_to-at :
      (k j : Kind) (p : Option ℕ) (m : CacheManager A)
      → give_back_to k p m j ≡ (if number j == number k then give_back p (m j) else m j)
  unfolding give_back_to
  give_back_to-at k j p m = refl

  -- A pool of a chain gets the flow's record back when it is its turn, and else stays as it is.
  release_first-at :
      (ks : List Kind) (l : Links) (m : CacheManager A) (j : Kind)
      → release_first ks l m j ≡ (if turn ks l j then give_back (link j l) (m j) else m j)
  unfolding release_first turn
  release_first-at [] l m j = refl
  release_first-at (k ∷ ks) l m j = elim (Bool-cases (number j == number k)) [
    | inl here ↦
        let same : link j l ≡ link k l =
          ap (λ x. link x l) (number-inj j k ((==_iff _ _).0 here)) in
        elim (Option-cases (link k l)) [
          | inl gone ↦
              ap (λ r. r j) (release_first-none k ks l m gone)
              ∙ release_first-at ks l m j
              ∙ ap (λ o. if turn ks l j then give_back o (m j) else m j) (same ∙ gone)
              ∙ if_same (turn ks l j) (m j)
              ∙ rw here (ap (λ o. give_back o (m j)) (sym (same ∙ gone)))
          | inr (p, there) ↦
              ap (λ r. r j) (release_first-some k ks l m p there)
              ∙ give_back_to-at k j (some p) m
              ∙ rw here (ap (λ o. give_back o (m j)) (sym (same ∙ there)))
        ]
    | inr other ↦ elim (Option-cases (link k l)) [
      | inl gone ↦
          ap (λ r. r j) (release_first-none k ks l m gone)
          ∙ release_first-at ks l m j
          ∙ rw (other, gone) refl
      | inr (p, there) ↦
          ap (λ r. r j) (release_first-some k ks l m p there)
          ∙ give_back_to-at k j (some p) m
          ∙ rw (other, there) refl
    ]
  ]

  head-at :
      (g : Kind) (ks : List Kind) (l : Links) (m : CacheManager A) (j : Kind)
      → turn ks l g ≡ false
      → release_first ks l (give_back_to g (link g l) m) j
        ≡ (if number j == number g || turn ks l j then give_back (link j l) (m j) else m j)
  head-at g ks l m j h =
      let first = release_first-at ks l (give_back_to g (link g l) m) j in
      let at = give_back_to-at g j (link g l) m in
      elim (Bool-cases (number j == number g)) [
        | inl here ↦
            let same = number-inj j g ((==_iff _ _).0 here) in
            let no_turn : turn ks l j ≡ false = ap (turn ks l) same ∙ h in
            first ∙ rw no_turn (at ∙ rw here (ap (λ x. give_back (link x l) (m j)) (sym same)))
        | inr other ↦
            let kept : give_back_to g (link g l) m j ≡ m j = at ∙ rw other refl in
            first ∙ rw (kept, other) refl
      ]

  -- What happens to each pool: over TCP that of the TCP records, and else that of the GPRS records,
  -- gets its record back, and so does the first pool of the chain of the other protocols whose
  -- record is there. Every other pool stays as it is.
  pub release_flow-at :
      (f : Flow) (m : CacheManager A) (j : Kind)
      → release_flow f m j ≡ (if returned f j then give_back (link j f.links) (m j) else m j)
  unfolding release_flow returned
  release_flow-at f m j = elim (Bool-cases (f.protocol == 6)) [
    | inl over ↦ rw over (head-at tcp over_tcp f.links m j (turn-tcp f.links))
    | inr other ↦ rw other (head-at gprs over_udp f.links m j (turn-gprs f.links))
  ]

  give_back-ValidPool :
      (l : Option ℕ) (c : Option (Cache A)) → ValidPool c → ValidPool (give_back l c)
  give_back-ValidPool none c v = v
  give_back-ValidPool (some p) none v = v
  give_back-ValidPool (some p) (some c) v = release-IsValid p c v

  if-ValidPool :
      (b : Bool) (x y : Option (Cache A))
      → ValidPool x
      → ValidPool y
      → ValidPool (if b then x else y)
  if-ValidPool true x y v w = v
  if-ValidPool false x y v w = w

  -- The release of any flow keeps all pools valid.
  pub release_flow-ValidPool :
      (f : Flow) (m : CacheManager A)
      → ((j : Kind) → ValidPool (m j))
      → (j : Kind) → ValidPool (release_flow f m j)
  release_flow-ValidPool f m v j = rw (release_flow-at f m j) (
      if-ValidPool (returned f j) (give_back (link j f.links) (m j)) (m j)
        (give_back-ValidPool (link j f.links) (m j) (v j)) (v j))
