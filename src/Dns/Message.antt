-- ===== src/Dns/Message.antt =====
-- What src/protocols/dns keeps (DNSInfo.h, DNSProtocol.h), and the reading of a name and of a type.
--
-- A message is its memory from `dns_header_->data` on, as a function of the offset: the payload's
-- bytes, and what lies behind them, since the code does not look where the payload ends. Counters
-- are 32-bit, kept as bit patterns.
use aiengine_rewritten_clean.Prelude.{
  ℕ, zero, suc, ◌+◌, ◌-◌, ◌*◌, Bool, false, ◌||◌, Option, none, some, List, [], ◌∷◌, ltb, leb, ◌==◌,
  if◌then◌else◌, Bytes, inc32,
}
use aiengine_rewritten_clean.Anomaly.{PacketAnomalyType, dns_long_name, Hits, inc_anomaly, mark}
use aiengine_rewritten_clean.Cache.{Cache, holds}
use aiengine_rewritten_clean.Names.{DomainNameManager}

-- `DNSInfo`: the name is a weak pointer to an object of the pool of names.
pub record DnsInfo : Type 0 where
  pub name : Option ℕ
  pub qtype : ℕ
  pub ips : List Bytes

abbrev pub reset : DnsInfo → DnsInfo
reset i = record { name = none; qtype = 0; ips = [] }

-- `domain_map_`: from names to the object that holds the name, and its hits. The map keeps strong
-- references to the objects.
abbrev pub DomainMap : Type 0
DomainMap = List (Bytes × ℕ × ℕ)

pub record DnsProtocol : Type 0 where
  pub total_bytes : ℕ
  pub total_packets : ℕ
  pub total_allow_queries : ℕ
  pub total_ban_queries : ℕ
  pub total_queries : ℕ
  pub total_responses : ℕ
  pub total_dns_type : ℕ → ℕ
  pub info_cache : Cache DnsInfo
  pub name_cache : Cache Bytes
  pub domain_map : DomainMap
  pub domain_mng : Option DomainNameManager
  pub ban_domain_mng : Option DomainNameManager
  pub buffer : ℕ → ℕ
  pub hits : Hits

-- The part of a `Flow` that the protocol reads and writes.
pub record Flow : Type 0 where
  pub dns_info : Option ℕ
  pub pa : PacketAnomalyType

-- `MAX_DNS_BUFFER_NAME` and `header_size`.
abbrev pub max_buffer : ℕ
max_buffer = 128

abbrev pub header_size : ℕ
header_size = 12

abbrev pub Memory : Type 0
Memory = ℕ → ℕ

-- The flow's anomaly if it has none yet, and the anomaly's counter.
abbrev pub note : PacketAnomalyType → Flow → DnsProtocol → Flow × DnsProtocol
note t f s = (record f { pa = mark t f.pa }, record s { hits = inc_anomaly t s.hits })

-- The byte that is copied for one of the message.
abbrev pub clean : ℕ → ℕ
clean b = if ltb b 32 then b'.' else b

abbrev pub put : ℕ → ℕ → DnsProtocol → DnsProtocol
put i b s = record s { buffer = λ j. if j == i then b else s.buffer j }

abbrev pub reached : ℕ → Flow × DnsProtocol → ℕ × Flow × DnsProtocol
reached offset (f, s) = (offset, f, s)

-- The loop of `extract_domain_name`, from some offset on. It ends when the offset is 128, so that
-- 127 rounds are enough.
unfoldable pub extract_loop : ℕ → ℕ → Memory → Flow → DnsProtocol → ℕ × Flow × DnsProtocol
extract_loop zero offset mem f s = (offset, f, s)
extract_loop (suc fuel) offset mem f s =
    let next = put (offset - 1) (clean (mem offset)) s in
    let rest = extract_loop fuel (offset + 1) mem f next in
    if mem offset == 0
    then (offset, f, s)
    else (if leb max_buffer (offset + 1)
        then reached (offset + 1) (note dns_long_name f next)
        else rest)

unfoldable pub extract_domain_name : Memory → Flow → DnsProtocol → ℕ × Flow × DnsProtocol
unfolding extract_loop
extract_domain_name mem f s = extract_loop 127 1 mem f s

-- The first bytes of the buffer.
unfoldable pub read_buffer : ℕ → ℕ → (ℕ → ℕ) → Bytes
read_buffer i zero buffer = []
read_buffer i (suc n) buffer = buffer i ∷ read_buffer (i + 1) n buffer

-- `<Root>`.
abbrev pub root_name : Bytes
root_name = b'<' ∷ b'R' ∷ b'o' ∷ b'o' ∷ b't' ∷ b'>' ∷ []

-- The domain for the offset that `extract_domain_name` returns, and the offset used after that.
abbrev pub domain_at : ℕ → (ℕ → ℕ) → Bytes
domain_at offset buffer = if offset == 1 then root_name else read_buffer 0 (offset - 1) buffer

abbrev pub type_offset : ℕ → ℕ
type_offset offset = if offset == 1 then 0 else offset

-- Two bytes of the message, the higher one first: what `ntohs` makes of them on a little-endian
-- machine.
abbrev pub word : Memory → ℕ → ℕ
word mem i = mem i * 256 + mem (i + 1)

-- `update_query_types(type)`: the counters in the order of the tests.
abbrev pub slot : ℕ → ℕ
slot t =
    if t == 1
    then 0
    else (if t == 2
        then 1
        else (if t == 5
            then 2
            else (if t == 6
                then 3
                else (if t == 12
                    then 4
                    else (if t == 15
                        then 5
                        else (if t == 16
                            then 6
                            else (if t == 28
                                then 7
                                else (if t == 29
                                    then 8
                                    else (if t == 33
                                        then 9
                                        else (if t == 43
                                            then 10
                                            else (if t == 48 then 11 else 12)))))))))))

unfoldable pub update_query_types : ℕ → DnsProtocol → DnsProtocol
update_query_types t s = record s {
  total_dns_type = λ i. if i == slot t then inc32 (s.total_dns_type i) else s.total_dns_type i;
}

-- A name object is there as long as its pool or the map holds it.
abbrev pub in_map : DomainMap → ℕ → Bool
in_map [] p = false
in_map ((key, q, n) ∷ rest) p = q == p || in_map rest p

unfoldable pub lock_name : DnsProtocol → Option ℕ → Option ℕ
lock_name s none = none
lock_name s (some p) = if holds s.name_cache.items p || in_map s.domain_map p then some p else none
