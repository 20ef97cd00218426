-- ===== src/Imap/Tests.antt =====
-- src/protocols/imap on concrete commands.
use aiengine_rewritten_clean.Dns.Response.{bytes_at}
use aiengine_rewritten_clean.Smtp.Address.{find_from}
use aiengine_rewritten_clean.Prelude.{
  ◌≡◌, refl, true, false, none, some, [], ◌∷◌, ◌++◌, arith, Bytes, ◌==◌, if◌then◌else◌,
}
use aiengine_rewritten_clean.Anomaly.{no_anomaly}
use aiengine_rewritten_clean.Cache.{Cache, ok, fault, lock}
use aiengine_rewritten_clean.Dns.Message.{Memory}
use aiengine_rewritten_clean.Imap.Login.{user_name, login_domain}
use aiengine_rewritten_clean.Imap.Commands.{ImapInfo, ImapProtocol, Flow}
use aiengine_rewritten_clean.Imap.Session.{process_flow, command_at}
use aiengine_rewritten_clean.Imap.Extract.{login, IsLogin, login_lem}
use aiengine_rewritten_clean.Imap.Short.{process_flow_short}

abbrev name : Bytes
name = b'a' ∷ []

abbrev domain : Bytes
domain = b'b' ∷ b'.' ∷ b'c' ∷ []

IsLogin-example : IsLogin name domain (b'p' ∷ [])
IsLogin-example = record {
  name_at = (refl, tt);
  blank = (refl, (refl, (refl, (refl, (refl, tt)))));
  short = omega arith;
}

login_lem_example :
    (user_name (login name domain (b'p' ∷ [])) ≡ ok (name ++ (b'@' ∷ domain)))
    × (login_domain (login name domain (b'p' ∷ [])) ≡ ok (domain ++ (b' ' ∷ [])))
login_lem_example = login_lem name domain (b'p' ∷ []) IsLogin-example

-- `a LOGIN`.
abbrev memory : Memory
memory i =
    if i == 0
    then b'a'
    else (if i == 2
        then b'L'
        else (if i == 3
            then b'O'
            else (if i == 4
                then b'G'
                else (if i == 5 then b'I' else (if i == 6 then b'N' else b' ')))))

abbrev flow : Flow
flow = record { imap_info = some 0; pa = no_anomaly; forward = true }

abbrev infos : Cache ImapInfo
infos = record {
  items = some 0 ∷ [];
  total = 0;
  total_acquires = 1;
  total_releases = 0;
  total_fails = 0;
  heap =
      λ p. record { client_commands = 0; server_commands = 0; user_name = none; is_banned = false };
  fresh = 1;
}

abbrev names : Cache Bytes
names = record {
  items = some 0 ∷ [];
  total = 1;
  total_acquires = 0;
  total_releases = 0;
  total_fails = 0;
  heap = λ p. [];
  fresh = 1;
}

abbrev blank_state : ImapProtocol
blank_state = record {
  total_bytes = 0;
  total_packets = 0;
  total_allow_domains = 0;
  total_ban_domains = 0;
  total_imap_client_commands = 0;
  total_imap_server_responses = 0;
  hits = λ c. 0;
  domain_mng = none;
  ban_domain_mng = none;
  info_cache = infos;
  user_cache = names;
  user_map = [];
  anomalies = λ a. 0;
}

process_flow_short_example : process_flow memory 7 flow blank_state ≡ fault
unfolding lock command_at find_from bytes_at
process_flow_short_example =
    process_flow_short memory 7 0 flow blank_state refl refl refl refl (omega arith)
