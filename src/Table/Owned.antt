-- ===== src/Table/Owned.antt =====
-- A flow is in the table of src/flow/FlowManager.cc, or free in its pool, or neither, but never in
-- two of these places: what that means, and that the operations keep it.
use aiengine_rewritten_clean.Prelude.{
  ℕ, zero, suc, ◌+◌, ◌-◌, ◌≤◌, ◌<◌, ◌≡◌, refl, ap, inl, inr, Bool, Option, none, some, List, [],
  ◌∷◌, ◌++◌, arith, Bool-cases, ◌==◌, if◌then◌else◌, length, get_elem?, get_elem?-set_self, set,
  take, subst, ltb,
}
use aiengine_rewritten_clean.Prelude.Int.{ℤ}
use aiengine_rewritten_clean.Cache.{Cache, release, lock, ok, acquire, update}
use aiengine_rewritten_clean.Cache.Inv.{IsValid, get_elem?-NoNull, get_elem?-holds, acquire_top}
use aiengine_rewritten_clean.Table.{Entry, FlowIndex, Store, Inserted, IsDistinct, lookup, remove}
use aiengine_rewritten_clean.Table.Order.{remove_absent}
use aiengine_rewritten_clean.Table.Timers.{entries_of}

abbrev pub one_if : Bool → ℕ
one_if b = if b then 1 else 0

-- How often a flow stands in a list of entries, and among objects of a pool.
abbrev pub held : ℕ → List Entry → ℕ
held q [] = 0
held q ((id, p) ∷ es) = one_if (p == q) + held q es

abbrev pub among : ℕ → List (Option ℕ) → ℕ
among q [] = 0
among q (none ∷ xs) = among q xs
among q (some p ∷ xs) = one_if (p == q) + among q xs

-- How often it stands among the objects that the pool can hand out.
abbrev pub spare {ℓ} : {A : Type ℓ} → ℕ → Cache A → ℕ
spare q c = among q (take c.total c.items)

held-append : (q : ℕ) (xs ys : List Entry) → held q (xs ++ ys) ≡ held q xs + held q ys
held-append q [] ys = omega arith
held-append q ((id, p) ∷ xs) ys = omega (arith, held-append q xs ys)

pub held-Inserted :
    (q : ℕ) {time : ℕ → ℤ} {e : Entry} {old new : List Entry}
    → Inserted time e old new
    → held q new ≡ one_if (e.1 == q) + held q old
held-Inserted q {e = (id, p)} i =
    rw (i.old_eq, i.new_eq)
      (omega (arith, held-append q i.before ((id, p) ∷ i.after), held-append q i.before i.after))

pub held-remove :
    (q h p : ℕ) (es : List Entry)
    → IsDistinct es
    → lookup h es ≡ some p
    → held q (remove h es) + one_if (p == q) ≡ held q es
held-remove q h p [] d e = absurd (ground arith)
held-remove q h p ((id, r) ∷ es) (new, d) e = elim (Bool-cases (id == h)) [
  | inl same ↦ ground (arith, remove_absent id es new)
  | inr other ↦ ground (arith, held-remove q h p es d)
]

-- The list without its last place, and with one more.
count_one_more :
    (q p n : ℕ) (xs : List (Option ℕ))
    → get_elem? xs n ≡ some (some p)
    → among q (take (suc n) xs) ≡ among q (take n xs) + one_if (p == q)
count_one_more q p n [] e = absurd (ground arith)
count_one_more q p zero (none ∷ xs) e = absurd (ground arith)
count_one_more q p zero (some r ∷ xs) e = ground arith
count_one_more q p (suc n) (none ∷ xs) e = count_one_more q p n xs e
count_one_more q p (suc n) (some r ∷ xs) e = omega (arith, count_one_more q p n xs e)

count_next :
    (q p n m : ℕ) (xs : List (Option ℕ))
    → suc n ≡ m
    → get_elem? xs n ≡ some (some p)
    → among q (take m xs) ≡ among q (take n xs) + one_if (p == q)
count_next q p n m xs h e =
    subst (λ k. among q (take k xs) ≡ among q (take n xs) + one_if (p == q)) h
      (count_one_more q p n xs e)

take-set : (n : ℕ) (xs : List (Option ℕ)) (v : Option ℕ) → take n (set xs n v) ≡ take n xs
take-set zero xs v = refl
take-set (suc n) [] v = refl
take-set (suc n) (x ∷ xs) v = ap (◌∷◌ x) (take-set n xs v)

pub lookup-held : (h p : ℕ) (es : List Entry) → lookup h es ≡ some p → 1 ≤ held p es
lookup-held h p [] e = absurd (ground arith)
lookup-held h p ((id, r) ∷ es) e = elim (Bool-cases (id == h)) [
  | inl same ↦ ground arith
  | inr other ↦ ground (arith, lookup-held h p es)
]

-- An entry that is found still is when an entry with another identifier comes before it.
pub lookup_later :
    (h p : ℕ) (e : Entry) (es : List Entry)
    → IsDistinct (e ∷ es)
    → lookup h es ≡ some p
    → lookup h (e ∷ es) ≡ some p
lookup_later h p (id, r) es (new, d) found = elim (Bool-cases (id == h)) [
  | inl same ↦ absurd (ground arith)
  | inr other ↦ rw other found
]

-- What is found after an entry is put in: the new one under its identifier, and the old ones.
lookup_inserted :
    (h : ℕ) (e : Entry) (xs ys : List Entry)
    → lookup e.0 (xs ++ ys) ≡ none
    → lookup h (xs ++ (e ∷ ys)) ≡ (if e.0 == h then some e.1 else lookup h (xs ++ ys))
lookup_inserted h (id, p) [] ys new = refl
lookup_inserted h (id, p) ((k, r) ∷ xs) ys new = ground (arith, lookup_inserted h (id, p) xs ys)

pub lookup-Inserted :
    (h : ℕ) {time : ℕ → ℤ} {e : Entry} {old new : List Entry}
    → Inserted time e old new
    → lookup e.0 old ≡ none
    → lookup h new ≡ (if e.0 == h then some e.1 else lookup h old)
lookup-Inserted h {e} i fresh =
    rw (i.old_eq, i.new_eq)
      (lookup_inserted h e i.before i.after (subst (λ es. lookup e.0 es ≡ none) i.old_eq fresh))

module _ {ℓ} {A : Type ℓ} where
  pub spare-release :
      (q p : ℕ) (c : Cache A)
      → IsValid c
      → spare q (release (some p) c) ≤ spare q c + one_if (p == q)
  unfolding release
  spare-release q p c v = elim (Bool-cases (ltb c.total (length c.items))) [
    | inl room ↦ rw room (
        omega (
          arith,
          count_next q p c.total (c.total + 1) (set c.items c.total (some p)) (omega arith)
              (get_elem?-set_self c.items c.total (some p) (ground arith)),
          ap (among q) (take-set c.total c.items (some p)),
        ))
    | inr full ↦ rw full (omega arith)
  ]

  -- `acquire` on a valid pool with something left.
  pub record Handed (reset : A → A) (c : Cache A) (p : ℕ) (c' : Cache A) : Type ℓ where
    pub result : acquire reset c ≡ ok (some p, c')
    pub alive : lock c' (some p) ≡ some p
    pub valid : IsValid c'
    pub content : c'.heap ≡ update c.heap p (reset (c.heap p))
    pub counted : (q : ℕ) → spare q c ≡ spare q c' + one_if (p == q)

  pub acquire-Handed :
      (reset : A → A) (c : Cache A)
      → IsValid c
      → 0 < c.total
      → (p : ℕ) × (c' : Cache A) × Handed reset c p c'
  unfolding lock
  acquire-Handed reset c v h =
      let (p, e) = get_elem?-NoNull c.items (c.total - 1) v.no_null (omega arith) in
      (
        p,
        _,
        record {
          result = acquire_top reset c p h e;
          alive = rw (get_elem?-holds c.items (c.total - 1) p e) refl;
          valid = record { bounded = omega arith; no_null = v.no_null };
          content = refl;
          counted = λ q. count_next q p (c.total - 1) c.total c.items (omega arith) e;
        },
      )

-- The flows of the table and the spare ones of the pool are distinct, and the flows of the table
-- are entered under their own identifiers.
pub record IsOwned (I : FlowIndex) {A : Type 0} (s : Store I A) : Type 0 where
  pub pool : IsValid s.flows
  pub named : (h p : ℕ) → lookup h (entries_of I s) ≡ some p → (s.flows.heap p).hash ≡ h
  pub apart : (q : ℕ) → held q (entries_of I s) + spare q s.flows ≤ 1
