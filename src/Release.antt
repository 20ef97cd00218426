-- ===== src/Release.antt =====
-- src/CacheManager.h and src/CacheManager.cc: the records of a flow go back to their pools.
--
-- A link of the flow is `some` object while the object is there, as `lock` and `expired` see it,
-- and `none` after that. A pool that has not been set is `none`. What the records hold plays no
-- part, so all have one type `A`.
pub mod Pools
pub mod Tests
use aiengine_rewritten_clean.Prelude.{
  ℕ, Bool, true, false, Option, none, some, List, [], ◌∷◌, ◌==◌, if◌then◌else◌,
}
use aiengine_rewritten_clean.Cache.{Cache, release, lock}
use aiengine_rewritten_clean.Flow.{Flow, Links}

-- The kinds of records.
pub data Kind : Type 0 where
  http ssl sip gprs tcp smtp imap pop dns ssdp : Kind

abbrev pub number : Kind → ℕ
number http = 0
number ssl = 1
number sip = 2
number gprs = 3
number tcp = 4
number smtp = 5
number imap = 6
number pop = 7
number dns = 8
number ssdp = 9

-- The pools that `setCache` registers: `http_info_cache_` and the others.
abbrev pub CacheManager : Type 0 → Type 0
CacheManager A = Kind → Option (Cache A)

-- The flow's link to its record of a kind.
abbrev pub link : Kind → Links → Option ℕ
link http l = l.http_info
link ssl l = l.ssl_info
link sip l = l.sip_info
link gprs l = l.gprs_info
link tcp l = l.tcp_info
link smtp l = l.smtp_info
link imap l = l.imap_info
link pop l = l.pop_info
link dns l = l.dns_info
link ssdp l = l.ssdp_info

-- The chains of `else` branches, over TCP and over UDP.
abbrev pub over_tcp : List Kind
over_tcp = http ∷ ssl ∷ smtp ∷ pop ∷ imap ∷ []

abbrev pub over_udp : List Kind
over_udp = dns ∷ sip ∷ ssdp ∷ []

module _ {A : Type 0} where
  -- `if (cache) cache->release(info)`, for a record that is there.
  abbrev pub give_back : Option ℕ → Option (Cache A) → Option (Cache A)
  give_back none cache = cache
  give_back (some p) none = none
  give_back (some p) (some c) = some (release (some p) c)

  unfoldable pub give_back_to : Kind → Option ℕ → CacheManager A → CacheManager A
  give_back_to k p m j = if number j == number k then give_back p (m j) else m j

  -- A chain: the first record that is there goes back, and no other.
  unfoldable pub release_first : List Kind → Links → CacheManager A → CacheManager A
  unfolding give_back_to
  release_first [] l m = m
  release_first (k ∷ ks) l m =
      let others = release_first ks l m in
      elim (link k l) [ some p ↦ give_back_to k (some p) m | none ↦ others ]

  -- `releaseFlow(flow)`; the number of TCP is 6.
  unfoldable pub release_flow : Flow → CacheManager A → CacheManager A
  unfolding release_first
  release_flow f m =
      if f.protocol == 6
      then release_first over_tcp f.links (give_back_to tcp f.links.tcp_info m)
      else release_first over_udp f.links (give_back_to gprs f.links.gprs_info m)

  -- The link as `lock` and `expired` see it: an object that its pool does not hold any more is gone.
  abbrev pub lock_link : CacheManager A → Kind → Links → Option ℕ
  lock_link m k l = elim (m k) [ some c ↦ lock c (link k l) | none ↦ link k l ]

  -- The flow whose links are what they point to when the flow is released.
  unfoldable pub live_flow : CacheManager A → Flow → Flow
  live_flow m f = record f {
    links =
        let l = f.links in
        record l {
          http_info = lock_link m http l;
          ssl_info = lock_link m ssl l;
          sip_info = lock_link m sip l;
          gprs_info = lock_link m gprs l;
          tcp_info = lock_link m tcp l;
          smtp_info = lock_link m smtp l;
          imap_info = lock_link m imap l;
          pop_info = lock_link m pop l;
          dns_info = lock_link m dns l;
          ssdp_info = lock_link m ssdp l;
        };
  }
