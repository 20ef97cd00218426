-- ===== src/IpSet/Tests.antt =====
-- src/ipset on concrete sets.
use aiengine_rewritten_clean.Prelude.{◌≡◌, some, [], ◌∷◌, Bytes}
use aiengine_rewritten_clean.IpSet.{IpSet, IpSetManager, is_some, lookup_manager}
use aiengine_rewritten_clean.IpSet.Lookup.{first_place, contents, lookup_manager-first}

abbrev one : Bytes
one = b'1' ∷ []

abbrev two : Bytes
two = b'2' ∷ []

abbrev with_one : IpSet
with_one = record { map = one ∷ []; total_ips = 1; total_ips_on_set = 0; total_ips_not_on_set = 0 }

abbrev with_both : IpSet
with_both = record {
  map = two ∷ one ∷ [];
  total_ips = 2;
  total_ips_on_set = 0;
  total_ips_not_on_set = 0;
}

abbrev manager : IpSetManager
manager = record { sets = with_one ∷ with_both ∷ []; matched_set = some 0 }

lookup_manager-first_example :
    let r = lookup_manager two manager in
    (r.1.matched_set ≡ first_place two 0 manager.sets)
    × (r.0 ≡ is_some (first_place two 0 manager.sets))
    × (contents r.1.sets ≡ contents manager.sets)
lookup_manager-first_example = lookup_manager-first two manager
