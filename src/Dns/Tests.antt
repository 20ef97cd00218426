-- ===== src/Dns/Tests.antt =====
-- src/protocols/dns on concrete messages.
use aiengine_rewritten_clean.Prelude.{
  ◌+◌, ◌≡◌, refl, none, some, [], ◌∷◌, arith, Bytes, length, get_or, u32, inc32,
}
use aiengine_rewritten_clean.Anomaly.{no_anomaly}
use aiengine_rewritten_clean.Cache.{Cache, ok, init}
use aiengine_rewritten_clean.Cache.Inv.{IsValid}
use aiengine_rewritten_clean.Names.Split.{join}
use aiengine_rewritten_clean.Dns.Message.{
  DnsInfo, DnsProtocol, Flow, Memory, extract_domain_name, read_buffer,
}
use aiengine_rewritten_clean.Dns.Extract.{Reads, name_bytes, extract_domain_name-Reads}
use aiengine_rewritten_clean.Dns.Wire.{extract-encode}
use aiengine_rewritten_clean.Dns.Query.{handle_standard_query}
use aiengine_rewritten_clean.Dns.Account.{handle_standard_query-counts}

-- `ab.c`, of type A and class IN.
abbrev message : Bytes
message = 2 ∷ b'a' ∷ b'b' ∷ 1 ∷ b'c' ∷ 0 ∷ 0 ∷ 1 ∷ 0 ∷ 1 ∷ []

abbrev mem : Memory
mem i = get_or message i 0

abbrev ab : Bytes
ab = b'a' ∷ b'b' ∷ []

abbrev c_label : Bytes
c_label = b'c' ∷ []

abbrev flow : Flow
flow = record { dns_info = some 0; pa = no_anomaly }

abbrev blank_info : DnsInfo
blank_info = record { name = none; qtype = 0; ips = [] }

-- A pool with one name.
abbrev names : Cache Bytes
names = record {
  items = some 0 ∷ [];
  total = 1;
  total_acquires = 0;
  total_releases = 0;
  total_fails = 0;
  heap = λ p. [];
  fresh = 1;
}

abbrev blank : DnsProtocol
blank = record {
  total_bytes = 0;
  total_packets = 0;
  total_allow_queries = 0;
  total_ban_queries = 0;
  total_queries = 0;
  total_responses = 0;
  total_dns_type = λ t. 0;
  info_cache = init blank_info;
  name_cache = names;
  domain_map = [];
  domain_mng = none;
  ban_domain_mng = none;
  buffer = λ i. 0;
  hits = λ a. 0;
}

names-IsValid : IsValid names
names-IsValid = record { bounded = omega arith; no_null = tt }

extract_domain_name-Reads_example :
    Reads 127 1 (name_bytes 127 1 mem) flow blank (extract_domain_name mem flow blank)
extract_domain_name-Reads_example = extract_domain_name-Reads mem flow blank

extract-encode_example :
    let r = extract_domain_name mem flow blank in
    (read_buffer 0 (length (join (ab ∷ c_label ∷ []))) r.2.buffer ≡ join (ab ∷ c_label ∷ []))
    × (r.0 ≡ 1 + length (join (ab ∷ c_label ∷ [])))
    × (r.1.pa ≡ flow.pa)
extract-encode_example =
    extract-encode ab (c_label ∷ []) mem flow blank
      (
        omega arith,
        omega arith,
        (omega arith, (omega arith, tt)),
        (omega arith, omega arith, (omega arith, tt), tt),
      )
      (refl, (refl, (refl, (refl, (refl, tt))))) (omega arith)

handle_standard_query-counts_example :
    (g : Flow) × (t : DnsProtocol) × (handle_standard_query mem 0 22 flow blank ≡ ok (g, t))
    × (t.total_queries ≡ inc32 0)
    × (u32 (t.total_allow_queries + t.total_ban_queries) ≡ u32 (0 + 0 + 1))
    × IsValid t.name_cache
handle_standard_query-counts_example =
    handle_standard_query-counts mem 0 22 flow blank names-IsValid
