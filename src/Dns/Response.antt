-- ===== src/Dns/Response.antt =====
-- Responses: `handle_standard_response` of src/protocols/dns/DNSProtocol.cc, and `processFlow`.
--
-- `inet_ntoa` and `inet_ntop` are the parameters `ntoa` and `ntop`, on the bytes of an address.
use aiengine_rewritten_clean.Prelude.{
  ℕ, zero, suc, ◌+◌, ◌/◌, ◌%◌, ◌^◌, Bool, ◌&&◌, ◌||◌, Option, none, some, List, [], ◌∷◌, ◌++◌, ltb,
  leb, ◌==◌, if◌then◌else◌, Bytes, inc32, u64, length, arith, refl, ◌≡◌,
}
use aiengine_rewritten_clean.Anomaly.{dns_bogus_header, dns_long_name}
use aiengine_rewritten_clean.Cache.{Cache, Outcome, ok, fault, acquire, lock}
use aiengine_rewritten_clean.Names.{get_domain_name}
use aiengine_rewritten_clean.Dns.Message.{
  DnsInfo, DnsProtocol, Flow, reset, header_size, max_buffer, Memory, note, extract_domain_name,
  domain_at, type_offset, word, update_query_types, lock_name,
}
use aiengine_rewritten_clean.Dns.Query.{attach_dns_to_flow, handle_standard_query, set_info}

-- The bytes of an address.
unfoldable pub bytes_at : Memory → ℕ → ℕ → Bytes
bytes_at mem ptr zero = []
bytes_at mem ptr (suc n) = mem ptr ∷ bytes_at mem (ptr + 1) n

pub length-bytes_at : (mem : Memory) (ptr n : ℕ) → length (bytes_at mem ptr n) ≡ n
unfolding bytes_at
length-bytes_at mem ptr zero = refl
length-bytes_at mem ptr (suc n) = omega (arith, length-bytes_at mem (ptr + 1) n)

-- The payload's length, the fields of the header, and the memory behind it.
pub record Packet : Type 0 where
  pub size : ℕ
  pub flags : ℕ
  pub questions : ℕ
  pub answers : ℕ
  pub mem : Memory

-- `(flags & 0x8180) == 0x8180`.
abbrev pub is_response : ℕ → Bool
is_response flags =
    (flags / 2 ^ 15 % 2 == 1) && ((flags / 2 ^ 8 % 2 == 1) && (flags / 2 ^ 7 % 2 == 1))

module _ (ntoa ntop : Bytes → Bytes) where
  -- One answer: the text of its address, if it is of class IN and has one.
  unfoldable pub address_of : Memory → ℕ → List Bytes
  unfolding bytes_at
  address_of mem ptr =
      if word mem (ptr + 4) == 1
      then (if (word mem (ptr + 2) == 1) && (word mem (ptr + 10) == 4)
          then ntoa (bytes_at mem (ptr + 12) 4) ∷ []
          else (if (word mem (ptr + 2) == 28) && (word mem (ptr + 10) == 16)
              then ntop (bytes_at mem (ptr + 12) 16) ∷ []
              else []))
      else []

  -- The loop over the answers.
  unfoldable pub addresses : ℕ → Memory → ℕ → List Bytes
  unfolding address_of
  addresses zero mem ptr = []
  addresses (suc n) mem ptr =
      address_of mem ptr ++ addresses n mem (ptr + (12 + word mem (ptr + 10)))

  -- The loop that passes over the query; `none` when it gives up at 128.
  unfoldable pub skip_query : ℕ → ℕ → Memory → Option ℕ
  skip_query zero offset mem = some offset
  skip_query (suc fuel) offset mem =
      let rest = skip_query fuel (offset + 1) mem in
      if mem offset == 0 then some offset else (if leb max_buffer (offset + 1) then none else rest)

  -- The answers of a response whose domain a manager knows.
  unfoldable pub store_answers : Memory → ℕ → ℕ → Flow → DnsProtocol → Flow × DnsProtocol
  unfolding addresses skip_query
  store_answers mem i answers f s = elim (skip_query 127 1 mem) [
    | none ↦ note dns_long_name f s
    | some offset ↦ (
      f,
      set_info i (λ info. record info { ips = info.ips ++ addresses answers mem (offset + 5) }) s,
    )
  ]

  unfoldable pub match_response : Memory → ℕ → ℕ → Bytes → Flow → DnsProtocol → Flow × DnsProtocol
  unfolding store_answers
  match_response mem i answers domain f s = elim (s.domain_mng) [
    | none ↦ (f, s)
    | some m ↦
        let t = record s { domain_mng = some (get_domain_name domain m).1 } in
        elim (get_domain_name domain m).0 [
          | none ↦ (f, t)
          | some d ↦ store_answers mem i answers f t
        ]
  ]

  abbrev then_match :
      Memory → ℕ → ℕ → Bytes → Flow → Outcome DnsProtocol → Outcome (Flow × DnsProtocol)
  then_match mem i answers domain f fault = fault
  then_match mem i answers domain f (ok s) = ok (match_response mem i answers domain f s)

  -- `handle_standard_response(flow, info, length)`, for a message with `answers` answers.
  unfoldable pub handle_standard_response :
      Memory → ℕ → ℕ → Flow → DnsProtocol → Outcome (Flow × DnsProtocol)
  unfolding match_response
  handle_standard_response mem i answers f s =
      let counted = record s { total_responses = inc32 s.total_responses } in
      elim (lock_name s (s.info_cache.heap i).name) [
        | some p ↦ ok (match_response mem i answers (s.name_cache.heap p) f counted)
        | none ↦
            let (offset, g, t) = extract_domain_name mem f counted in
            let qtype = word mem (type_offset offset + 1) in
            let domain = domain_at offset t.buffer in
            then_match mem i answers domain g
              (attach_dns_to_flow i domain qtype (update_query_types qtype t))
      ]

  -- The branches on the flags.
  unfoldable pub handle : Packet → ℕ → Flow → DnsProtocol → Outcome (Flow × DnsProtocol)
  handle p i f s =
      if (p.flags == 256) || (p.flags == 10240)
      then (if ltb 0 p.questions then handle_standard_query p.mem i p.size f s else ok (f, s))
      else (if is_response p.flags && ltb 0 p.answers
          then handle_standard_response p.mem i p.answers f s
          else ok (f, s))

  -- `info_cache_->acquire().lock()`, and the rest if there is an object.
  unfoldable pub with_new_info :
      Packet
      → Flow
      → DnsProtocol
      → Outcome (Option ℕ × Cache DnsInfo)
      → Outcome (Flow × DnsProtocol)
  unfolding handle
  with_new_info p f s fault = fault
  with_new_info p f s (ok (none, c)) = ok (f, record s { info_cache = c })
  with_new_info p f s (ok (some i, c)) =
      handle p i (record f { dns_info = some i }) (record s { info_cache = c })

  -- `processFlow(flow)`.
  unfoldable pub process_flow : Packet → Flow → DnsProtocol → Outcome (Flow × DnsProtocol)
  unfolding with_new_info
  process_flow p f s =
      let t = record s {
        total_bytes = u64 (s.total_bytes + p.size);
        total_packets = u64 (s.total_packets + 1);
      } in
      if ltb header_size p.size
      then elim (lock s.info_cache f.dns_info) [
        | some i ↦ handle p i f t
        | none ↦ with_new_info p f t (acquire reset s.info_cache)
      ]
      else ok (note dns_bogus_header f t)
