-- ===== src/IpSet.antt =====
-- src/ipset: IPAbstractSet.h, IPSet.cc and IPSetManager.cc, the sets of addresses.
--
-- An address is its text. A set is the list of its texts; the manager holds its sets by value, each
-- of them at one place, and notes the place of the set that matched. Counters are 32-bit.
pub mod Lookup
pub mod Tests
use aiengine_rewritten_clean.Prelude.{
  ℕ, zero, suc, ◌+◌, Bool, true, false, ◌||◌, Option, none, some, List, [], ◌∷◌, ◌++◌,
  if◌then◌else◌, Bytes, same, inc32,
}

pub record IpSet : Type 0 where
  pub map : List Bytes
  pub total_ips : ℕ
  pub total_ips_on_set : ℕ
  pub total_ips_not_on_set : ℕ

-- `map_.find(ip) != map_.end()`.
unfoldable pub member : Bytes → List Bytes → Bool
member ip [] = false
member ip (x ∷ xs) = same x ip || member ip xs

-- `addIPAddress(ip)`.
unfoldable pub add_ip_address : Bytes → IpSet → IpSet
unfolding member
add_ip_address ip s = record s {
  map = if member ip s.map then s.map else ip ∷ s.map;
  total_ips = inc32 s.total_ips;
}

-- `lookupIPAddress(ip)` of a set: the counter that it changes.
unfoldable pub lookup_ip_address : Bytes → IpSet → Bool × IpSet
unfolding member
lookup_ip_address ip s =
    if member ip s.map
    then (true, record s { total_ips_on_set = inc32 s.total_ips_on_set })
    else (false, record s { total_ips_not_on_set = inc32 s.total_ips_not_on_set })

pub record IpSetManager : Type 0 where
  pub sets : List IpSet
  pub matched_set : Option ℕ

-- `addIPSet(ipset)`.
abbrev pub add_ip_set : IpSet → IpSetManager → IpSetManager
add_ip_set s m = record m { sets = m.sets ++ s ∷ [] }

-- The loop of `lookupIPAddress`, from the set at place `i` on: the place of the set that matched,
-- and the sets after it.
unfoldable pub lookup_sets : Bytes → ℕ → List IpSet → Option ℕ × List IpSet
unfolding lookup_ip_address
lookup_sets ip i [] = (none, [])
lookup_sets ip i (s ∷ rest) =
    let (found, others) = lookup_sets ip (i + 1) rest in
    let (value, t) = lookup_ip_address ip s in
    if value then (some i, t ∷ rest) else (found, t ∷ others)

abbrev pub is_some : Option ℕ → Bool
is_some none = false
is_some (some i) = true

-- `lookupIPAddress(ip)` of the manager.
unfoldable pub lookup_manager : Bytes → IpSetManager → Bool × IpSetManager
unfolding lookup_sets
lookup_manager ip m = (
  is_some (lookup_sets ip 0 m.sets).0,
  record { matched_set = (lookup_sets ip 0 m.sets).0; sets = (lookup_sets ip 0 m.sets).1 },
)
