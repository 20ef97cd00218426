-- ===== src/Pop/Commands.antt =====
-- `attach_user_name` and `handle_cmd_user` of src/protocols/pop/POPProtocol.cc.
use aiengine_rewritten_clean.Prelude.{
  ℕ, Bool, true, false, Option, none, some, ◌∷◌, if◌then◌else◌, Bytes, inc32,
}
use aiengine_rewritten_clean.Anomaly.{PacketAnomalyType, pop_bogus_header, Hits, inc_anomaly, mark}
use aiengine_rewritten_clean.Cache.{
  Cache, Outcome, ok, fault, ◌>>=◌, update, acquire, set_name, reset_string,
}
use aiengine_rewritten_clean.Names.{DomainNameManager}
use aiengine_rewritten_clean.Dns.Message.{DomainMap}
use aiengine_rewritten_clean.Dns.Query.{find_name, count_hit}
use aiengine_rewritten_clean.Smtp.Commands.{alive, ask}
use aiengine_rewritten_clean.Pop.Line.{is_bogus, user_name, user_domain}

-- `POPInfo`. The two counters are int16_t.
pub record PopInfo : Type 0 where
  pub client_commands : ℕ
  pub server_commands : ℕ
  pub user_name : Option ℕ
  pub is_banned : Bool

abbrev pub reset : PopInfo → PopInfo
reset i = record { client_commands = 0; server_commands = 0; user_name = none; is_banned = false }

-- The map goes from the users' names to objects and hits. `hits` counts the commands by their
-- place in the table, `anomalies` the anomalies.
pub record PopProtocol : Type 0 where
  pub total_bytes : ℕ
  pub total_packets : ℕ
  pub total_allow_domains : ℕ
  pub total_ban_domains : ℕ
  pub total_pop_client_commands : ℕ
  pub total_pop_server_responses : ℕ
  pub hits : ℕ → ℕ
  pub domain_mng : Option DomainNameManager
  pub ban_domain_mng : Option DomainNameManager
  pub info_cache : Cache PopInfo
  pub user_cache : Cache Bytes
  pub user_map : DomainMap
  pub anomalies : Hits

-- The part of a `Flow` that the protocol reads and writes.
pub record Flow : Type 0 where
  pub pop_info : Option ℕ
  pub pa : PacketAnomalyType
  pub forward : Bool

abbrev pub set_info : ℕ → (PopInfo → PopInfo) → PopProtocol → PopProtocol
set_info i f s = record s {
  info_cache = let c = s.info_cache in record c { heap = update c.heap i (f (c.heap i)) };
}

abbrev pub set_user : ℕ → ℕ → PopProtocol → PopProtocol
set_user i p s = set_info i (λ info. record info { user_name = some p }) s

unfoldable pub attach_new :
    ℕ → Bytes → PopProtocol → Outcome (Option ℕ × Cache Bytes) → Outcome PopProtocol
attach_new i name s fault = fault
attach_new i name s (ok (none, c)) = ok (record s { user_cache = c })
attach_new i name s (ok (some p, c)) =
    let t = record s { user_cache = set_name c p name; user_map = (name, p, 1) ∷ s.user_map } in
    ok (set_user i p t)

-- `attach_user_name(info, name)`.
unfoldable pub attach_user_name : ℕ → Bytes → PopProtocol → Outcome PopProtocol
unfolding attach_new
attach_user_name i name s =
    if alive s.user_cache s.user_map (s.info_cache.heap i).user_name
    then ok s
    else elim (find_name name s.user_map) [
      | none ↦ attach_new i name s (acquire reset_string s.user_cache)
      | some p ↦ ok (set_user i p (record s { user_map = count_hit name s.user_map }))
    ]

-- After the name is attached the other manager counts a match; the callbacks are left out.
abbrev pub then_match : Bytes → PopProtocol → Outcome PopProtocol
then_match domain s = ok (record s { domain_mng = (ask domain s.domain_mng).1 })

-- From the test of the banned names on.
unfoldable pub check_user : ℕ → Bytes → Bytes → PopProtocol → Outcome PopProtocol
check_user i name domain s =
    let t = record s { ban_domain_mng = (ask domain s.ban_domain_mng).1 } in
    elim (ask domain s.ban_domain_mng).0 [
      | some d ↦ ok (
          set_info i (λ info. record info { is_banned = true })
            (record t { total_ban_domains = inc32 t.total_ban_domains }))
      | none ↦
          attach_user_name i name (record t { total_allow_domains = inc32 t.total_allow_domains })
          >>= then_match domain
    ]

abbrev pub bogus : Flow → PopProtocol → Flow × PopProtocol
bogus f s = (
  record f { pa = mark pop_bogus_header f.pa },
  record s { anomalies = inc_anomaly pop_bogus_header s.anomalies },
)

-- The flow is as it was.
abbrev pub beside : Flow → PopProtocol → Outcome (Flow × PopProtocol)
beside f s = ok (f, s)

-- `handle_cmd_user(flow, info, header)`.
unfoldable pub handle_cmd_user : ℕ → Bytes → Flow → PopProtocol → Outcome (Flow × PopProtocol)
unfolding check_user is_bogus user_name user_domain
handle_cmd_user i header f s =
    if is_bogus header
    then ok (bogus f s)
    else user_name header >>= λ name.
        user_domain header >>= λ domain. check_user i name domain s >>= beside f
