-- ===== src/Dns/Account.antt =====
-- How `handle_standard_query` of src/protocols/dns/DNSProtocol.cc counts queries.
use aiengine_rewritten_clean.Prelude.{
  ℕ, zero, suc, ◌+◌, ◌-◌, ◌≤◌, ◌≡◌, ◌≢◌, false, leb, lt→ltb, refl, ap, ◌∙◌, inl, inr, true, Option,
  none, some, arith, Bool-cases, Option-cases, ltb, ◌==◌, Bytes, u32, inc32, length,
}
use aiengine_rewritten_clean.Cache.{Cache, Outcome, ok, fault, acquire, set_name, reset_string}
use aiengine_rewritten_clean.Cache.Inv.{IsValid, After, acquire-IsValid}
use aiengine_rewritten_clean.Dns.Message.{
  DnsProtocol, Flow, Memory, extract_loop, extract_domain_name, domain_at, type_offset, word,
  read_buffer, update_query_types, put, clean, max_buffer, lock_name, header_size,
}
use aiengine_rewritten_clean.Dns.Query.{
  find_name, attach_new, attach_dns_to_flow, banned, check_query, note_short, read_query,
  handle_standard_query,
}
use aiengine_rewritten_clean.Dns.Extract.{extract_domain_name-Reads}

-- The counters of queries are as they were, and the pool of names is still valid.
pub record Kept (s t : DnsProtocol) : Type 0 where
  pub queries : t.total_queries ≡ s.total_queries
  pub allow : t.total_allow_queries ≡ s.total_allow_queries
  pub ban : t.total_ban_queries ≡ s.total_ban_queries
  pub pool : IsValid t.name_cache

abbrev pub OkWith : (DnsProtocol → Type 0) → Outcome DnsProtocol → Type 0
OkWith P (ok s) = P s
OkWith P fault = ⊥

attach_new-Kept :
    (i : ℕ) (domain : Bytes) (qtype : ℕ) (s : DnsProtocol) (r : Outcome (Option ℕ × Cache Bytes))
    → After IsValid r
    → OkWith (Kept s) (attach_new i domain qtype s r)
unfolding attach_new set_name
attach_new-Kept i domain qtype s fault h = absurd h
attach_new-Kept i domain qtype s (ok (none, c)) h = record {
  queries = refl;
  allow = refl;
  ban = refl;
  pool = h;
}
attach_new-Kept i domain qtype s (ok (some p, c)) h = record {
  queries = refl;
  allow = refl;
  ban = refl;
  pool = record { bounded = h.bounded; no_null = h.no_null };
}

attach-Kept :
    (i : ℕ) (domain : Bytes) (qtype : ℕ) (s : DnsProtocol)
    → IsValid s.name_cache
    → OkWith (Kept s) (attach_dns_to_flow i domain qtype s)
unfolding attach_dns_to_flow
attach-Kept i domain qtype s v = elim (Option-cases (lock_name s (s.info_cache.heap i).name)) [
  | inr (p, there) ↦
      rw (there, attach_dns_to_flow) (record { queries = refl; allow = refl; ban = refl; pool = v })
  | inl gone ↦ elim (Option-cases (find_name domain s.domain_map)) [
    | inr (p, known) ↦
        rw (gone, attach_dns_to_flow, known)
          (record { queries = refl; allow = refl; ban = refl; pool = v })
    | inl unknown ↦
        rw (gone, attach_dns_to_flow, unknown)
          (attach_new-Kept i domain qtype s (acquire reset_string s.name_cache)
            (acquire-IsValid reset_string s.name_cache v))
  ]
]

-- The state that a query's checks begin from and the one they leave: one query is counted, as
-- allowed or as banned.
pub record Counted (s t : DnsProtocol) : Type 0 where
  pub queries : t.total_queries ≡ s.total_queries
  pub once :
      u32 (t.total_allow_queries + t.total_ban_queries)
      ≡ u32 (s.total_allow_queries + s.total_ban_queries + 1)
  pub pool : IsValid t.name_cache

banned-Kept : (domain : Bytes) (s : DnsProtocol) → IsValid s.name_cache → Kept s (banned domain s).1
unfolding banned
banned-Kept domain s v = elim (Option-cases s.ban_domain_mng) [
  | inl gone ↦ rw (gone, banned) (record { queries = refl; allow = refl; ban = refl; pool = v })
  | inr (m, there) ↦
      rw (there, banned) (record { queries = refl; allow = refl; ban = refl; pool = v })
]

OkWith-map :
    {P Q : DnsProtocol → Type 0} (r : Outcome DnsProtocol)
    → ((t : DnsProtocol) → P t → Q t)
    → OkWith P r
    → OkWith Q r
OkWith-map (ok t) f h = f t h
OkWith-map fault f h = absurd h

OkWith-inv :
    {P : DnsProtocol → Type 0} (r : Outcome DnsProtocol)
    → OkWith P r
    → (t : DnsProtocol) × (r ≡ ok t) × P t
OkWith-inv (ok t) h = (t, refl, h)
OkWith-inv fault h = absurd h

check_query-Counted :
    (i : ℕ) (domain : Bytes) (qtype : ℕ) (s : DnsProtocol)
    → ltb 0 (length domain) ≡ true
    → IsValid s.name_cache
    → OkWith (Counted s) (check_query i domain qtype s)
unfolding check_query
check_query-Counted i domain qtype s full v =
    let k = banned-Kept domain s v in
    elim (Option-cases (banned domain s).0) [
      | inr (d, hit) ↦
          rw (full, hit)
            (record { queries = k.queries; once = ground (arith, k.allow, k.ban); pool = k.pool })
      | inl free ↦
          let t = (banned domain s).1 in
          let start = record t { total_allow_queries = inc32 t.total_allow_queries } in
          rw (full, free)
            (OkWith-map (attach_dns_to_flow i domain qtype start)
              (λ u a. record {
                queries = a.queries ∙ k.queries;
                once = ground (arith, a.allow, a.ban, k.allow, k.ban);
                pool = a.pool;
              })
              (attach-Kept i domain qtype start k.pool))
    ]

-- What reading a name leaves alone.
abbrev SameCounters : DnsProtocol → DnsProtocol → Type 0
SameCounters s t =
    (t.total_queries ≡ s.total_queries)
    × (t.total_allow_queries ≡ s.total_allow_queries)
    × (t.total_ban_queries ≡ s.total_ban_queries)
    × (t.name_cache ≡ s.name_cache)

extract_loop-SameCounters :
    (n offset : ℕ) (mem : Memory) (f : Flow) (s : DnsProtocol)
    → SameCounters s (extract_loop n offset mem f s).2
unfolding extract_loop
extract_loop-SameCounters zero offset mem f s = (refl, refl, refl, refl)
extract_loop-SameCounters (suc n) offset mem f s =
    let ih =
      extract_loop-SameCounters n (offset + 1) mem f (put (offset - 1) (clean (mem offset)) s) in
    elim (Bool-cases (mem offset == 0)) [
      | inl ended ↦ rw ended (refl, refl, refl, refl)
      | inr more ↦ elim (Bool-cases (leb max_buffer (offset + 1))) [
        | inl long ↦ rw (more, long) (refl, refl, refl, refl)
        | inr short ↦ rw (more, short) ih
      ]
    ]

length-read_buffer : (i n : ℕ) (buffer : ℕ → ℕ) → length (read_buffer i n buffer) ≡ n
unfolding read_buffer
length-read_buffer i zero buffer = refl
length-read_buffer i (suc n) buffer = ap suc (length-read_buffer (i + 1) n buffer)

domain_at-some :
    (offset : ℕ) (buffer : ℕ → ℕ) → 1 ≤ offset → ltb 0 (length (domain_at offset buffer)) ≡ true
domain_at-some offset buffer h = elim (Bool-cases (offset == 1)) [
  | inl root ↦ rw root refl
  | inr other ↦
      rw other
        (lt→ltb 0 _ (omega (arith, length-read_buffer 0 (offset - 1) buffer, ne_one offset other)))
]
  where
    ne_one : (k : ℕ) → (k == 1) ≡ false → k ≢ 1
    ne_one k e = ground arith

extract-SameCounters :
    (mem : Memory) (f : Flow) (s : DnsProtocol) → SameCounters s (extract_domain_name mem f s).2
unfolding extract_domain_name
extract-SameCounters mem f s = extract_loop-SameCounters 127 1 mem f s

note_short-SameCounters :
    (offset size : ℕ) (g : Flow) (t : DnsProtocol)
    → SameCounters t (note_short offset size (g, t)).1
note_short-SameCounters offset size g t = elim (Bool-cases (ltb size (header_size + offset))) [
  | inl short ↦ rw short (refl, refl, refl, refl)
  | inr enough ↦ rw enough (refl, refl, refl, refl)
]

read_query-counts :
    (mem : Memory) (size : ℕ) (f : Flow) (s : DnsProtocol)
    → let t = (read_query mem size f s).1 in
      (t.total_queries ≡ inc32 s.total_queries)
      × (t.total_allow_queries ≡ s.total_allow_queries)
      × (t.total_ban_queries ≡ s.total_ban_queries)
      × (t.name_cache ≡ s.name_cache)
unfolding read_query
read_query-counts mem size f s =
    let x = extract_domain_name mem f s in
    let same = extract-SameCounters mem f s in
    let u = x.2 in
    let kept =
      note_short-SameCounters (type_offset x.0) size x.1
        (record u { total_queries = inc32 u.total_queries }) in
    (kept.0 ∙ ap inc32 same.0, kept.1 ∙ same.1, kept.2 ∙ same.2, kept.3 ∙ same.3)

-- Every query is counted once: for a valid pool of names, whatever the message holds, the handler
-- meets no fault, the number of queries grows by one, the sum of the allowed and the banned ones
-- too, modulo 2³², and the pool of names is still valid.
pub handle_standard_query-counts :
    (mem : Memory) (i size : ℕ) (f : Flow) (s : DnsProtocol)
    → IsValid s.name_cache
    → (g : Flow) × (t : DnsProtocol) × (handle_standard_query mem i size f s ≡ ok (g, t))
      × (t.total_queries ≡ inc32 s.total_queries)
      × (u32 (t.total_allow_queries + t.total_ban_queries)
          ≡ u32 (s.total_allow_queries + s.total_ban_queries + 1))
      × IsValid t.name_cache
unfolding handle_standard_query update_query_types
handle_standard_query-counts mem i size f s v =
    let x = extract_domain_name mem f s in
    let read = read_query-counts mem size f s in
    let u = (read_query mem size f s).1 in
    let qtype = word mem (type_offset x.0 + 1) in
    let stop = (extract_domain_name-Reads mem f s).stop in
    let (t, e, c) =
      OkWith-inv (check_query i (domain_at x.0 x.2.buffer) qtype (update_query_types qtype u)) (
        check_query-Counted i (domain_at x.0 x.2.buffer) qtype (update_query_types qtype u)
          (domain_at-some x.0 x.2.buffer (omega (arith, stop))) (rw read.3 v)) in
    (
      (read_query mem size f s).0,
      t,
      rw e refl,
      c.queries ∙ read.0,
      c.once ∙ ground (arith, read.1, read.2),
      c.pool,
    )
