-- ===== src/Pop/Tests.antt =====
-- src/protocols/pop on concrete commands.
use aiengine_rewritten_clean.Prelude.{
  ◌+◌, ◌≡◌, refl, true, false, none, some, List, [], ◌∷◌, ◌++◌, arith, Bytes, u64,
}
use aiengine_rewritten_clean.Anomaly.{no_anomaly}
use aiengine_rewritten_clean.Cache.{Cache, ok}
use aiengine_rewritten_clean.Cache.Inv.{IsValid}
use aiengine_rewritten_clean.Pop.Line.{is_bogus, user_name, user_domain}
use aiengine_rewritten_clean.Pop.Commands.{PopInfo, PopProtocol, Flow, handle_cmd_user}
use aiengine_rewritten_clean.Pop.Extract.{user_line, IsLine, user_line_lem}
use aiengine_rewritten_clean.Pop.Account.{Counted, handle_cmd_user-Counted}
use aiengine_rewritten_clean.Pop.Whole.{
  IsSound, Payload, process_payloads, count, process_payloads-IsSound,
}

-- `USER `, `a` and `b.c`.
abbrev front : Bytes
front = b'U' ∷ b'S' ∷ b'E' ∷ b'R' ∷ b' ' ∷ []

abbrev name : Bytes
name = b'a' ∷ []

abbrev domain : Bytes
domain = b'b' ∷ b'.' ∷ b'c' ∷ []

abbrev line : Bytes
line = user_line front name domain []

abbrev flow : Flow
flow = record { pop_info = none; pa = no_anomaly; forward = true }

abbrev infos : Cache PopInfo
infos = record {
  items = some 0 ∷ [];
  total = 1;
  total_acquires = 0;
  total_releases = 0;
  total_fails = 0;
  heap =
      λ p. record { client_commands = 0; server_commands = 0; user_name = none; is_banned = false };
  fresh = 1;
}

abbrev names : Cache Bytes
names = record {
  items = some 0 ∷ [];
  total = 1;
  total_acquires = 0;
  total_releases = 0;
  total_fails = 0;
  heap = λ p. [];
  fresh = 1;
}

abbrev blank : PopProtocol
blank = record {
  total_bytes = 0;
  total_packets = 0;
  total_allow_domains = 0;
  total_ban_domains = 0;
  total_pop_client_commands = 0;
  total_pop_server_responses = 0;
  hits = λ c. 0;
  domain_mng = none;
  ban_domain_mng = none;
  info_cache = infos;
  user_cache = names;
  user_map = [];
  anomalies = λ a. 0;
}

names-IsValid : IsValid names
names-IsValid = record { bounded = omega arith; no_null = tt }

blank-IsSound : IsSound blank
blank-IsSound = record {
  infos = record { bounded = omega arith; no_null = tt };
  users = names-IsValid;
}

IsLine-example : IsLine front name domain []
IsLine-example = record {
  five = refl;
  front_at = (refl, (refl, (refl, (refl, (refl, tt)))));
  name_at = (refl, tt);
  cr = (refl, (refl, (refl, (refl, (refl, (refl, (refl, (refl, (refl, (refl, tt))))))))));
  short = omega arith;
}

user_line_lem_example :
    (is_bogus line ≡ false)
    × (user_name line ≡ ok (name ++ (b'@' ∷ domain)))
    × (user_domain line ≡ ok (domain ++ (13 ∷ 10 ∷ [])))
user_line_lem_example = user_line_lem front name domain [] IsLine-example

handle_cmd_user-Counted_example :
    (g : Flow) × (t : PopProtocol) × (handle_cmd_user 0 line flow blank ≡ ok (g, t))
    × Counted blank t
handle_cmd_user-Counted_example =
    handle_cmd_user-Counted 0 line flow blank (omega arith) names-IsValid

abbrev payloads : List Payload
payloads =
    record { memory = λ i. b'Q'; size = 6; flow = flow }
    ∷ record { memory = λ i. b'+'; size = 9; flow = record flow { forward = false } }
    ∷ []

process_payloads-IsSound_example :
    (t : PopProtocol) × (process_payloads payloads blank ≡ ok t)
    × (u64 t.total_packets ≡ u64 (blank.total_packets + count payloads))
    × IsSound t
process_payloads-IsSound_example =
    process_payloads-IsSound payloads blank (omega arith, (omega arith, tt)) blank-IsSound
