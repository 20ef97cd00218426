-- ===== src/Smtp/Commands.antt =====
-- `attach_from`, `handle_cmd_mail`, `handle_cmd_rcpt` and `processFlow` of
-- src/protocols/smtp/SMTPProtocol.cc.
use aiengine_rewritten_clean.Prelude.{
  ℕ, Bool, true, false, ◌||◌, Option, none, some, ◌∷◌, if◌then◌else◌, Bytes, inc32,
}
use aiengine_rewritten_clean.Anomaly.{PacketAnomalyType, smtp_bogus_header, Hits, inc_anomaly, mark}
use aiengine_rewritten_clean.Cache.{
  Cache, Outcome, ok, fault, update, acquire, holds, set_name, reset_string,
}
use aiengine_rewritten_clean.Names.{DomainNameManager, get_domain_name}
use aiengine_rewritten_clean.Dns.Message.{DomainMap, in_map}
use aiengine_rewritten_clean.Dns.Query.{find_name, count_hit}
use aiengine_rewritten_clean.Smtp.Address.{mail_address, domain_of, rcpt_address}

-- `SMTPInfo`.
pub record SmtpInfo : Type 0 where
  pub from : Option ℕ
  pub to : Option ℕ
  pub command : ℕ
  pub is_banned : Bool

abbrev pub reset : SmtpInfo → SmtpInfo
reset i = record { from = none; to = none; command = 0; is_banned = false }

-- The maps are those of src/protocols/dns: from texts to objects and hits. `hits` counts the
-- commands by their place in the table, `anomalies` the anomalies.
pub record SmtpProtocol : Type 0 where
  pub total_bytes : ℕ
  pub total_packets : ℕ
  pub total_allow_domains : ℕ
  pub total_ban_domains : ℕ
  pub total_smtp_client_commands : ℕ
  pub total_smtp_server_responses : ℕ
  pub hits : ℕ → ℕ
  pub domain_mng : Option DomainNameManager
  pub ban_domain_mng : Option DomainNameManager
  pub info_cache : Cache SmtpInfo
  pub from_cache : Cache Bytes
  pub to_cache : Cache Bytes
  pub from_map : DomainMap
  pub to_map : DomainMap
  pub anomalies : Hits

-- The part of a `Flow` that the protocol reads and writes.
pub record Flow : Type 0 where
  pub smtp_info : Option ℕ
  pub pa : PacketAnomalyType
  pub forward : Bool

abbrev pub set_info : ℕ → (SmtpInfo → SmtpInfo) → SmtpProtocol → SmtpProtocol
set_info i f s = record s {
  info_cache = let c = s.info_cache in record c { heap = update c.heap i (f (c.heap i)) };
}

-- An object is there as long as its pool or its map holds it.
unfoldable pub alive : Cache Bytes → DomainMap → Option ℕ → Bool
alive c map none = false
alive c map (some p) = holds c.items p || in_map map p

unfoldable pub attach_new_from :
    ℕ → Bytes → SmtpProtocol → Outcome (Option ℕ × Cache Bytes) → Outcome SmtpProtocol
attach_new_from i from s fault = fault
attach_new_from i from s (ok (none, c)) = ok (record s { from_cache = c })
attach_new_from i from s (ok (some p, c)) =
    let t = record s { from_cache = set_name c p from; from_map = (from, p, 1) ∷ s.from_map } in
    ok (set_info i (λ info. record info { from = some p }) t)

-- `attach_from(info, from)`.
unfoldable pub attach_from : ℕ → Bytes → SmtpProtocol → Outcome SmtpProtocol
unfolding attach_new_from
attach_from i from s =
    if alive s.from_cache s.from_map (s.info_cache.heap i).from
    then ok s
    else elim (find_name from s.from_map) [
      | none ↦ attach_new_from i from s (acquire reset_string s.from_cache)
      | some p ↦ ok (
          set_info i (λ info. record info { from = some p })
            (record s { from_map = count_hit from s.from_map }))
    ]

-- `getDomainName` of a manager, if there is one: what is found, and the manager after it.
unfoldable pub ask : Bytes → Option DomainNameManager → Option ℕ × Option DomainNameManager
ask domain none = (none, none)
ask domain (some m) = ((get_domain_name domain m).0, some (get_domain_name domain m).1)

-- What follows on `attach_from`: the other manager counts a match, the callbacks are left out.
abbrev pub then_match : Bytes → Outcome SmtpProtocol → Outcome SmtpProtocol
then_match domain fault = fault
then_match domain (ok s) = ok (record s { domain_mng = (ask domain s.domain_mng).1 })

-- From the test of the banned names on.
unfoldable pub check_mail : ℕ → Bytes → Bytes → SmtpProtocol → Outcome SmtpProtocol
check_mail i from domain s =
    let t = record s { ban_domain_mng = (ask domain s.ban_domain_mng).1 } in
    elim (ask domain s.ban_domain_mng).0 [
      | some d ↦ ok (
          set_info i (λ info. record info { is_banned = true })
            (record t { total_ban_domains = inc32 t.total_ban_domains }))
      | none ↦
          then_match domain
            (attach_from i from (record t { total_allow_domains = inc32 t.total_allow_domains }))
    ]

abbrev pub bogus : Flow → SmtpProtocol → Outcome (Flow × SmtpProtocol)
bogus f s = ok (
  record f { pa = mark smtp_bogus_header f.pa },
  record s { anomalies = inc_anomaly smtp_bogus_header s.anomalies },
)

abbrev pub with_flow : Flow → Outcome SmtpProtocol → Outcome (Flow × SmtpProtocol)
with_flow f (ok s) = ok (f, s)
with_flow f fault = fault

-- `handle_cmd_mail(flow, info, header)`.
unfoldable pub handle_cmd_mail : ℕ → Bytes → Flow → SmtpProtocol → Outcome (Flow × SmtpProtocol)
unfolding check_mail
handle_cmd_mail i header f s = elim (mail_address header) [
  | none ↦ bogus f s
  | some from ↦ elim (domain_of from) [
    | none ↦ bogus f s
    | some domain ↦ with_flow f (check_mail i from domain s)
  ]
]

unfoldable pub attach_new_to :
    ℕ → Bytes → SmtpProtocol → Outcome (Option ℕ × Cache Bytes) → Outcome SmtpProtocol
attach_new_to i to s fault = fault
attach_new_to i to s (ok (none, c)) = ok (record s { to_cache = c })
attach_new_to i to s (ok (some p, c)) =
    let t = record s { to_cache = set_name c p to; to_map = (to, p, 1) ∷ s.to_map } in
    ok (set_info i (λ info. record info { to = some p }) t)

-- `handle_cmd_rcpt(info, header)`.
unfoldable pub handle_cmd_rcpt : ℕ → Bytes → SmtpProtocol → Outcome SmtpProtocol
unfolding attach_new_to
handle_cmd_rcpt i header s =
    if alive s.to_cache s.to_map (s.info_cache.heap i).to
    then ok s
    else elim (find_name (rcpt_address header) s.to_map) [
      | none ↦ attach_new_to i (rcpt_address header) s (acquire reset_string s.to_cache)
      | some p ↦ ok (
          set_info i (λ info. record info { to = some p })
            (record s { to_map = count_hit (rcpt_address header) s.to_map }))
    ]
