-- ===== src/Cache/Faults.antt =====
-- What goes wrong with src/Cache.h when objects come back out of order, or as null pointers.
use aiengine_rewritten_clean.Prelude.{
  ℕ, zero, suc, ◌+◌, ◌-◌, ◌<◌, ◌≡◌, ◌≢◌, refl, Option, none, some, List, [], ◌∷◌, false, arith,
  length, set, get_elem?-set_self, lt→ltb,
}
use aiengine_rewritten_clean.Cache.{Cache, fault, release, acquire, holds}

module _ {ℓ} {A : Type ℓ} where
  -- A null pointer that is given back to a pool with room makes the next `acquire` dereference it.
  pub acquire-release_null :
      (reset : A → A) (c : Cache A)
      → c.total < length c.items
      → acquire reset (release none c) ≡ fault
  unfolding acquire release
  acquire-release_null reset c h =
      let put = get_elem?-set_self c.items c.total none h in
      let same : c.total + 1 - 1 ≡ c.total = omega arith in
      rw (lt→ltb c.total (length c.items) h, acquire) (ground (arith, put))

-- No object stands twice in the vector.
abbrev pub Distinct : List (Option ℕ) → Type 0
Distinct [] = Unit {0}
Distinct (none ∷ xs) = Distinct xs
Distinct (some p ∷ xs) = (holds xs p ≡ false) × Distinct xs

holds-set :
    (xs : List (Option ℕ)) (i p q : ℕ)
    → holds xs q ≡ false
    → p ≢ q
    → holds (set xs i (some p)) q ≡ false
unfolding holds
holds-set [] i p q h ne = refl
holds-set (none ∷ xs) zero p q h ne = ground arith
holds-set (none ∷ xs) (suc i) p q h ne = holds-set xs i p q h ne
holds-set (some r ∷ xs) zero p q h ne = ground arith
holds-set (some r ∷ xs) (suc i) p q h ne = ground (arith, holds-set xs i p q)
