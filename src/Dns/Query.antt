-- ===== src/Dns/Query.antt =====
-- Queries: `attach_dns_to_flow` and `handle_standard_query` of src/protocols/dns/DNSProtocol.cc.
use aiengine_rewritten_clean.Prelude.{
  ℕ, ◌+◌, Option, none, some, [], ◌∷◌, ltb, if◌then◌else◌, Bytes, same, inc32, length,
}
use aiengine_rewritten_clean.Anomaly.{dns_bogus_header}
use aiengine_rewritten_clean.Cache.{
  Cache, Outcome, ok, fault, update, acquire, set_name, reset_string,
}
use aiengine_rewritten_clean.Names.{get_domain_name}
use aiengine_rewritten_clean.Dns.Message.{
  DnsInfo, DomainMap, DnsProtocol, Flow, header_size, Memory, note, extract_domain_name, domain_at,
  type_offset, word, update_query_types, lock_name,
}

-- `domain_map_.find(domain)`: the object of the name.
unfoldable pub find_name : Bytes → DomainMap → Option ℕ
find_name key [] = none
find_name key ((k, p, n) ∷ rest) = if same k key then some p else find_name key rest

-- `++(*counter)` at the place that was found.
unfoldable pub count_hit : Bytes → DomainMap → DomainMap
count_hit key [] = []
count_hit key ((k, p, n) ∷ rest) =
    if same k key then (k, p, inc32 n) ∷ rest else (k, p, n) ∷ count_hit key rest

-- A write to the `DNSInfo` object.
abbrev pub set_info : ℕ → (DnsInfo → DnsInfo) → DnsProtocol → DnsProtocol
set_info i f s = record s {
  info_cache = let c = s.info_cache in record c { heap = update c.heap i (f (c.heap i)) };
}

-- The branch with no name attached and no entry in the map.
unfoldable pub attach_new :
    ℕ → Bytes → ℕ → DnsProtocol → Outcome (Option ℕ × Cache Bytes) → Outcome DnsProtocol
attach_new i domain qtype s fault = fault
attach_new i domain qtype s (ok (none, c)) = ok (record s { name_cache = c })
attach_new i domain qtype s (ok (some p, c)) =
    let t = record s { name_cache = set_name c p domain } in
    let u = set_info i (λ info. record info { qtype = qtype; name = some p }) t in
    ok (record u { domain_map = (domain, p, 1) ∷ s.domain_map })

-- `attach_dns_to_flow(info, domain, qtype)`.
unfoldable pub attach_dns_to_flow : ℕ → Bytes → ℕ → DnsProtocol → Outcome DnsProtocol
unfolding attach_new
attach_dns_to_flow i domain qtype s = elim (lock_name s (s.info_cache.heap i).name) [
  | some p ↦ ok s
  | none ↦ elim (find_name domain s.domain_map) [
    | none ↦ attach_new i domain qtype s (acquire reset_string s.name_cache)
    | some p ↦ ok (
        set_info i (λ info. record info { name = some p })
          (record s { domain_map = count_hit domain s.domain_map }))
  ]
]

-- `ban_dnm->getDomainName(domain)`, if there is a manager of banned names.
unfoldable pub banned : Bytes → DnsProtocol → Option ℕ × DnsProtocol
banned domain s = elim (s.ban_domain_mng) [
  | none ↦ (none, s)
  | some m ↦ (
    (get_domain_name domain m).0,
    record s { ban_domain_mng = some (get_domain_name domain m).1 },
  )
]

-- From the test of the domain's length on.
unfoldable pub check_query : ℕ → Bytes → ℕ → DnsProtocol → Outcome DnsProtocol
unfolding banned
check_query i domain qtype s =
    if ltb 0 (length domain)
    then elim (banned domain s).0 [
      | some d ↦ ok (
          let t = (banned domain s).1 in record t { total_ban_queries = inc32 t.total_ban_queries })
      | none ↦
          let t = (banned domain s).1 in
          attach_dns_to_flow i domain qtype
            (record t { total_allow_queries = inc32 t.total_allow_queries })
    ]
    else ok s

-- The test of the message's length.
abbrev pub note_short : ℕ → ℕ → Flow × DnsProtocol → Flow × DnsProtocol
note_short offset size (f, s) =
    if ltb size (header_size + offset) then note dns_bogus_header f s else (f, s)

-- What a query leaves before its domain is looked at: the flow, the protocol, and the type.
unfoldable pub read_query : Memory → ℕ → Flow → DnsProtocol → Flow × DnsProtocol
read_query mem size f s =
    let (offset, g, t) = extract_domain_name mem f s in
    note_short (type_offset offset) size (g, record t { total_queries = inc32 t.total_queries })

abbrev pub with_flow : Flow → Outcome DnsProtocol → Outcome (Flow × DnsProtocol)
with_flow f (ok s) = ok (f, s)
with_flow f fault = fault

-- `handle_standard_query(flow, info, length)`.
unfoldable pub handle_standard_query :
    Memory → ℕ → ℕ → Flow → DnsProtocol → Outcome (Flow × DnsProtocol)
unfolding read_query check_query
handle_standard_query mem i size f s =
    let (offset, _, t) = extract_domain_name mem f s in
    let (g, u) = read_query mem size f s in
    let qtype = word mem (type_offset offset + 1) in
    with_flow g (check_query i (domain_at offset t.buffer) qtype (update_query_types qtype u))
