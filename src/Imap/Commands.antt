-- ===== src/Imap/Commands.antt =====
-- `attach_user_name` and `handle_cmd_login` of src/protocols/imap/IMAPProtocol.cc.
use aiengine_rewritten_clean.Prelude.{
  ℕ, Bool, true, false, Option, none, some, ◌∷◌, if◌then◌else◌, Bytes, inc32,
}
use aiengine_rewritten_clean.Anomaly.{PacketAnomalyType, imap_bogus_header, Hits, inc_anomaly, mark}
use aiengine_rewritten_clean.Cache.{
  Cache, Outcome, ok, fault, ◌>>=◌, update, acquire, set_name, reset_string,
}
use aiengine_rewritten_clean.Names.{DomainNameManager}
use aiengine_rewritten_clean.Dns.Message.{DomainMap}
use aiengine_rewritten_clean.Dns.Query.{find_name, count_hit}
use aiengine_rewritten_clean.Smtp.Commands.{alive, ask}
use aiengine_rewritten_clean.Imap.Login.{has_end, user_name, login_domain}

-- `IMAPInfo`. The two counters are int16_t.
pub record ImapInfo : Type 0 where
  pub client_commands : ℕ
  pub server_commands : ℕ
  pub user_name : Option ℕ
  pub is_banned : Bool

abbrev pub reset : ImapInfo → ImapInfo
reset i = record { client_commands = 0; server_commands = 0; user_name = none; is_banned = false }

-- The map goes from the users' names to objects and hits. `hits` counts the commands by their
-- place in the table, `anomalies` the anomalies.
pub record ImapProtocol : Type 0 where
  pub total_bytes : ℕ
  pub total_packets : ℕ
  pub total_allow_domains : ℕ
  pub total_ban_domains : ℕ
  pub total_imap_client_commands : ℕ
  pub total_imap_server_responses : ℕ
  pub hits : ℕ → ℕ
  pub domain_mng : Option DomainNameManager
  pub ban_domain_mng : Option DomainNameManager
  pub info_cache : Cache ImapInfo
  pub user_cache : Cache Bytes
  pub user_map : DomainMap
  pub anomalies : Hits

-- The part of a `Flow` that the protocol reads and writes.
pub record Flow : Type 0 where
  pub imap_info : Option ℕ
  pub pa : PacketAnomalyType
  pub forward : Bool

abbrev pub set_info : ℕ → (ImapInfo → ImapInfo) → ImapProtocol → ImapProtocol
set_info i f s = record s {
  info_cache = let c = s.info_cache in record c { heap = update c.heap i (f (c.heap i)) };
}

abbrev pub set_user : ℕ → ℕ → ImapProtocol → ImapProtocol
set_user i p s = set_info i (λ info. record info { user_name = some p }) s

unfoldable pub attach_new :
    ℕ → Bytes → ImapProtocol → Outcome (Option ℕ × Cache Bytes) → Outcome ImapProtocol
attach_new i name s fault = fault
attach_new i name s (ok (none, c)) = ok (record s { user_cache = c })
attach_new i name s (ok (some p, c)) =
    let t = record s { user_cache = set_name c p name; user_map = (name, p, 1) ∷ s.user_map } in
    ok (set_user i p t)

-- `attach_user_name(info, name)`.
unfoldable pub attach_user_name : ℕ → Bytes → ImapProtocol → Outcome ImapProtocol
unfolding attach_new
attach_user_name i name s =
    if alive s.user_cache s.user_map (s.info_cache.heap i).user_name
    then ok s
    else elim (find_name name s.user_map) [
      | none ↦ attach_new i name s (acquire reset_string s.user_cache)
      | some p ↦ ok (set_user i p (record s { user_map = count_hit name s.user_map }))
    ]

-- After the name is attached the other manager counts a match; the callbacks are left out.
abbrev pub then_match : Bytes → ImapProtocol → Outcome ImapProtocol
then_match domain s = ok (record s { domain_mng = (ask domain s.domain_mng).1 })

-- From the test of the banned names on.
unfoldable pub check_login : ℕ → Bytes → Bytes → ImapProtocol → Outcome ImapProtocol
check_login i name domain s =
    let t = record s { ban_domain_mng = (ask domain s.ban_domain_mng).1 } in
    elim (ask domain s.ban_domain_mng).0 [
      | some d ↦ ok (
          set_info i (λ info. record info { is_banned = true })
            (record t { total_ban_domains = inc32 t.total_ban_domains }))
      | none ↦
          attach_user_name i name (record t { total_allow_domains = inc32 t.total_allow_domains })
          >>= then_match domain
    ]

-- A bogus command is marked and counted, and goes on.
unfoldable pub note_bogus : Bool → Flow → ImapProtocol → Flow × ImapProtocol
note_bogus true f s = (f, s)
note_bogus false f s = (
  record f { pa = mark imap_bogus_header f.pa },
  record s { anomalies = inc_anomaly imap_bogus_header s.anomalies },
)

-- The flow is as it was.
abbrev pub beside : Flow → ImapProtocol → Outcome (Flow × ImapProtocol)
beside f s = ok (f, s)

-- `handle_cmd_login(flow, info, header)`.
unfoldable pub handle_cmd_login : ℕ → Bytes → Flow → ImapProtocol → Outcome (Flow × ImapProtocol)
unfolding note_bogus check_login user_name login_domain
handle_cmd_login i header f s =
    let noted = note_bogus (has_end header) f s in
    user_name header >>= λ name.
    login_domain header >>= λ domain. check_login i name domain noted.1 >>= beside noted.0
