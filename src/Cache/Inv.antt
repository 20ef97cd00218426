-- ===== src/Cache/Inv.antt =====
-- What every operation of src/Cache.h keeps, and when `acquire` is safe.
use aiengine_rewritten_clean.Prelude.{
  ℕ, zero, suc, ◌+◌, ◌-◌, ◌≤◌, ◌<◌, ◌≡◌, refl, inl, inr, Option, none, some, List, [], ◌∷◌, ◌++◌,
  arith, ltb, true, if◌then◌else◌, length, get_elem?, set, take, drop, length-append, length-set,
  length-take, length-drop, Bool-cases, lt→ltb, inc32,
}
use aiengine_rewritten_clean.Prelude.Int.{ℤ, pos, negsuc}
use aiengine_rewritten_clean.Cache.{
  Cache, Outcome, update, ok, holds, fault, release, acquire, hand_out, create, create_loop,
  destroy, destroy_loop,
}

-- No pointer of the vector is null.
abbrev pub NoNull : List (Option ℕ) → Type 0
NoNull [] = Unit {0}
NoNull (none ∷ xs) = ⊥
NoNull (some p ∷ xs) = NoNull xs

pub record IsValid {ℓ} {A : Type ℓ} (c : Cache A) : Type 0 where
  pub bounded : c.total ≤ length c.items
  pub no_null : NoNull c.items

-- The pool that a call of `acquire` leaves.
abbrev pub After {ℓ} : {A : Type ℓ} → (Cache A → Type 0) → Outcome (Option ℕ × Cache A) → Type 0
After P (ok (p, c)) = P c
After P fault = ⊥

-- A call of a public method, where the pointer given back is to an object.
pub data Call : Type 0 where
  acquires : Call
  releases : ℕ → Call
  creates destroys : ℤ → Call

NoNull-append : (xs ys : List (Option ℕ)) → NoNull xs → NoNull ys → NoNull (xs ++ ys)
NoNull-append [] ys h k = k
NoNull-append (none ∷ xs) ys h k = absurd h
NoNull-append (some p ∷ xs) ys h k = NoNull-append xs ys h k

NoNull-take : (n : ℕ) (xs : List (Option ℕ)) → NoNull xs → NoNull (take n xs)
NoNull-take zero xs h = tt
NoNull-take (suc n) [] h = tt
NoNull-take (suc n) (none ∷ xs) h = absurd h
NoNull-take (suc n) (some p ∷ xs) h = NoNull-take n xs h

NoNull-drop : (n : ℕ) (xs : List (Option ℕ)) → NoNull xs → NoNull (drop n xs)
NoNull-drop zero xs h = h
NoNull-drop (suc n) [] h = tt
NoNull-drop (suc n) (none ∷ xs) h = absurd h
NoNull-drop (suc n) (some p ∷ xs) h = NoNull-drop n xs h

NoNull-set : (xs : List (Option ℕ)) (i p : ℕ) → NoNull xs → NoNull (set xs i (some p))
NoNull-set [] i p h = tt
NoNull-set (none ∷ xs) i p h = absurd h
NoNull-set (some q ∷ xs) zero p h = h
NoNull-set (some q ∷ xs) (suc i) p h = NoNull-set xs i p h

-- A position within a vector with no null pointer holds an object.
pub get_elem?-NoNull :
    (xs : List (Option ℕ)) (i : ℕ)
    → NoNull xs
    → i < length xs
    → (p : ℕ) × (get_elem? xs i ≡ some (some p))
get_elem?-NoNull [] i h b = elim b [ ]
get_elem?-NoNull (none ∷ xs) i h b = absurd h
get_elem?-NoNull (some p ∷ xs) zero h b = (p, refl)
get_elem?-NoNull (some p ∷ xs) (suc i) h b = get_elem?-NoNull xs i h (omega arith)

pub get_elem?-holds :
    (xs : List (Option ℕ)) (i p : ℕ) → get_elem? xs i ≡ some (some p) → holds xs p ≡ true
unfolding holds
get_elem?-holds [] i p h = cc
get_elem?-holds (none ∷ xs) zero p h = cc
get_elem?-holds (none ∷ xs) (suc i) p h = get_elem?-holds xs i p h
get_elem?-holds (some q ∷ xs) zero p h = ground arith
get_elem?-holds (some q ∷ xs) (suc i) p h = ground (arith, get_elem?-holds xs i p h)

abbrev forget {ℓ} : {A : Type ℓ} → Outcome (Option ℕ × Cache A) → Outcome (Cache A)
forget (ok (p, c)) = ok c
forget fault = fault

forget-IsValid {ℓ} :
    {A : Type ℓ} (r : Outcome (Option ℕ × Cache A))
    → After IsValid r
    → (c : Cache A) × (forget r ≡ ok c) × IsValid c
forget-IsValid (ok (p, c)) v = (c, refl, v)
forget-IsValid fault v = absurd v

module _ {ℓ} {A : Type ℓ} where
  pub release-IsValid : (p : ℕ) (c : Cache A) → IsValid c → IsValid (release (some p) c)
  unfolding release
  release-IsValid p c v =
      ground (arith, length-set c.items c.total (some p), NoNull-set c.items c.total p v.no_null)

  -- `acquire` on a pool with nothing left.
  pub acquire_empty :
      (reset : A → A) (c : Cache A)
      → c.total ≡ 0
      → acquire reset c ≡ ok (none, record c { total_fails = inc32 c.total_fails })
  unfolding acquire
  acquire_empty reset c e = rw (e, acquire) refl

  -- `acquire` hands out the object at the top, reset.
  pub acquire_top :
      (reset : A → A) (c : Cache A) (p : ℕ)
      → 0 < c.total
      → get_elem? c.items (c.total - 1) ≡ some (some p)
      → acquire reset c
        ≡ ok (
          some p,
          record c {
            heap = update c.heap p (reset (c.heap p));
            total_acquires = inc32 c.total_acquires;
            total = c.total - 1;
          },
        )
  unfolding acquire
  acquire_top reset c p h e = rw (lt→ltb 0 c.total h, e, hand_out) refl

  -- On a valid pool `acquire` returns, and what it leaves is valid.
  pub acquire-IsValid : (reset : A → A) (c : Cache A) → IsValid c → After IsValid (acquire reset c)
  unfolding acquire
  acquire-IsValid reset c v = elim (Bool-cases (ltb 0 c.total)) [
    | inl some_left ↦
        let (p, e) = get_elem?-NoNull c.items (c.total - 1) v.no_null (ground arith) in
        rw (some_left, e, hand_out) (record { bounded = omega arith; no_null = v.no_null })
    | inr empty ↦ rw empty (record { bounded = v.bounded; no_null = v.no_null })
  ]

  create_loop-IsValid :
      (blank : A) (n : ℕ) (c : Cache A)
      → IsValid c
      → IsValid (create_loop blank n c)
        × ((create_loop blank n c).total ≡ c.total + n)
        × (length (create_loop blank n c).items ≡ length c.items + n)
  unfolding create_loop
  create_loop-IsValid blank zero c v = (v, omega arith, omega arith)
  create_loop-IsValid blank (suc n) c v =
      let grown = length-append c.items (some c.fresh ∷ []) in
      let r = create_loop-IsValid blank n _ (record {
        bounded = omega (arith, grown);
        no_null = NoNull-append c.items (some c.fresh ∷ []) v.no_null tt;
      }) in
      (r.0, omega (arith, r.1), omega (arith, grown, r.2))

  destroy_loop-IsValid :
      (n : ℕ) (c : Cache A)
      → IsValid c
      → n ≤ c.total
      → IsValid (destroy_loop n c)
        × ((destroy_loop n c).total + n ≡ c.total)
        × (length (destroy_loop n c).items + n ≡ length c.items)
  unfolding destroy_loop
  destroy_loop-IsValid zero c v h = (v, omega arith, omega arith)
  destroy_loop-IsValid (suc n) c v h =
      let kept = take (c.total - 1) c.items ++ drop c.total c.items in
      let shrunk : length kept + 1 ≡ length c.items = omega (
        arith,
        length-append (take (c.total - 1) c.items) (drop c.total c.items),
        length-take (c.total - 1) c.items,
        length-drop c.total c.items,
        v.bounded,
      ) in
      let r =
        destroy_loop-IsValid n _
          (record {
            bounded = omega (arith, v.bounded);
            no_null =
                NoNull-append (take (c.total - 1) c.items) _
                  (NoNull-take (c.total - 1) c.items v.no_null)
                  (NoNull-drop c.total c.items v.no_null);
          })
          (omega arith) in
      (r.0, omega (arith, r.1), omega (arith, r.2, shrunk))

  pub create-IsValid : (blank : A) (n : ℤ) (c : Cache A) → IsValid c → IsValid (create blank n c)
  unfolding create
  create-IsValid blank (pos n) c v = (create_loop-IsValid blank n c v).0
  create-IsValid blank (negsuc n) c v = v

  pub destroy-IsValid : (n : ℤ) (c : Cache A) → IsValid c → IsValid (destroy n c)
  unfolding destroy
  destroy-IsValid (pos n) c v =
      (destroy_loop-IsValid (if ltb c.total n then c.total else n) c v (ground arith)).0
  destroy-IsValid (negsuc n) c v = (destroy_loop-IsValid c.total c v (omega arith)).0

  -- How many objects `destroy` takes out: as many as asked for, if the pool has them left. It
  -- never touches an object that is handed out.
  destroy_counts :
      (n : ℕ) (c : Cache A)
      → IsValid c
      → (n ≤ c.total → (destroy (pos n) c).total + n ≡ c.total)
        × (c.total ≤ n → (destroy (pos n) c).total ≡ 0)
        × (length (destroy (pos n) c).items + c.total ≡ length c.items + (destroy (pos n) c).total)
  unfolding destroy
  destroy_counts n c v = elim (Bool-cases (ltb c.total n)) [
    | inl few ↦
        let r = destroy_loop-IsValid c.total c v (omega arith) in
        rw few (λ h. ground arith, λ h. omega (arith, r.1), omega (arith, r.1, r.2))
    | inr enough ↦
        let r = destroy_loop-IsValid n c v (ground arith) in
        rw enough (λ h. omega (arith, r.1), λ h. ground (arith, r.1), omega (arith, r.1, r.2))
  ]

  -- What a call leaves, its result put aside.
  pub step : A → (A → A) → Cache A → Call → Outcome (Cache A)
  step blank reset c acquires = forget (acquire reset c)
  step blank reset c (releases p) = ok (release (some p) c)
  step blank reset c (creates n) = ok (create blank n c)
  step blank reset c (destroys n) = ok (destroy n c)

  pub run : A → (A → A) → Cache A → List Call → Outcome (Cache A)
  run blank reset c [] = ok c
  run blank reset c (call ∷ calls) = elim (step blank reset c call) [
    | ok c' ↦ run blank reset c' calls
    | fault ↦ fault
  ]

  step-IsValid :
      (blank : A) (reset : A → A) (c : Cache A) (call : Call)
      → IsValid c
      → (c' : Cache A) × (step blank reset c call ≡ ok c') × IsValid c'
  unfolding step
  step-IsValid blank reset c acquires v =
      forget-IsValid (acquire reset c) (acquire-IsValid reset c v)
  step-IsValid blank reset c (releases p) v = (_, refl, release-IsValid p c v)
  step-IsValid blank reset c (creates n) v = (_, refl, create-IsValid blank n c v)
  step-IsValid blank reset c (destroys n) v = (_, refl, destroy-IsValid n c v)

  -- From a valid pool no sequence of calls faults, as long as no null pointer is given back, and
  -- the pool it leaves is valid: `total_` stays within the vector, and no item is null.
  pub run-IsValid :
      (blank : A) (reset : A → A) (c : Cache A) (calls : List Call)
      → IsValid c
      → (c' : Cache A) × (run blank reset c calls ≡ ok c') × IsValid c'
  unfolding run
  run-IsValid blank reset c [] v = (c, refl, v)
  run-IsValid blank reset c (call ∷ calls) v =
      let (c1, e, v1) = step-IsValid blank reset c call v in
      let (c2, e2, v2) = run-IsValid blank reset c1 calls v1 in (c2, rw (e, run) e2, v2)
