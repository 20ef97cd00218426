-- ===== src/IpSet/Lookup.antt =====
-- What the manager of src/ipset/IPSetManager.cc finds.
use aiengine_rewritten_clean.Prelude.{
  ℕ, ◌+◌, ◌≡◌, refl, ap, inl, inr, true, false, Option, none, some, List, [], ◌∷◌, arith,
  Bool-cases, if◌then◌else◌, Bytes, same, same_refl,
}
use aiengine_rewritten_clean.IpSet.{
  IpSet, member, add_ip_address, lookup_ip_address, IpSetManager, lookup_sets, is_some,
  lookup_manager,
}

-- The place of the first set, from the place `i` on, that has the address.
unfoldable pub first_place : Bytes → ℕ → List IpSet → Option ℕ
first_place ip i [] = none
first_place ip i (s ∷ rest) =
    let later = first_place ip (i + 1) rest in if member ip s.map then some i else later

-- The addresses of the sets.
abbrev pub contents : List IpSet → List (List Bytes)
contents [] = []
contents (s ∷ rest) = s.map ∷ contents rest

lookup_sets-first :
    (ip : Bytes) (i : ℕ) (sets : List IpSet)
    → ((lookup_sets ip i sets).0 ≡ first_place ip i sets)
      × (contents (lookup_sets ip i sets).1 ≡ contents sets)
unfolding lookup_sets lookup_ip_address first_place
lookup_sets-first ip i [] = (refl, refl)
lookup_sets-first ip i (s ∷ rest) =
    let (found, others) = lookup_sets-first ip (i + 1) rest in
    elim (Bool-cases (member ip s.map)) [
      | inl here ↦ rw here (refl, refl)
      | inr gone ↦ rw gone (found, ap (◌∷◌ s.map) others)
    ]

-- The lookup of a manager notes the first of its sets that has the address, says whether there is
-- one, whatever lookups came before, and changes no set's addresses.
pub lookup_manager-first :
    (ip : Bytes) (m : IpSetManager)
    → let r = lookup_manager ip m in
      (r.1.matched_set ≡ first_place ip 0 m.sets)
      × (r.0 ≡ is_some (first_place ip 0 m.sets))
      × (contents r.1.sets ≡ contents m.sets)
unfolding lookup_manager
lookup_manager-first ip m =
    let (found, same_sets) = lookup_sets-first ip 0 m.sets in (found, ap is_some found, same_sets)

-- An address that has been added to a set is found in it, and every other address is found as
-- before.
pub member-add_ip_address :
    (ip other : Bytes) (s : IpSet)
    → (member ip (add_ip_address ip s).map ≡ true)
      × (same ip other ≡ false → member other (add_ip_address ip s).map ≡ member other s.map)
unfolding add_ip_address member
member-add_ip_address ip other s = elim (Bool-cases (member ip s.map)) [
  | inl there ↦ rw there (there, λ ne. refl)
  | inr gone ↦ rw gone (ground (arith, same_refl ip), λ ne. ground (arith, ne))
]
