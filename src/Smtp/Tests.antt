-- ===== src/Smtp/Tests.antt =====
-- src/protocols/smtp on concrete commands.
use aiengine_rewritten_clean.Prelude.{◌≡◌, refl, true, none, some, [], ◌∷◌, arith, Bytes}
use aiengine_rewritten_clean.Anomaly.{no_anomaly}
use aiengine_rewritten_clean.Cache.{Cache, ok}
use aiengine_rewritten_clean.Cache.Inv.{IsValid}
use aiengine_rewritten_clean.Smtp.Address.{mail_address}
use aiengine_rewritten_clean.Smtp.Commands.{SmtpInfo, SmtpProtocol, Flow, handle_cmd_mail}
use aiengine_rewritten_clean.Smtp.Extract.{bracketed, mail_address-bracketed}
use aiengine_rewritten_clean.Smtp.Account.{Counted, handle_cmd_mail-Counted}

-- `MAIL FROM:`, `<a@b>` and the end of the line.
abbrev front : Bytes
front = b'M' ∷ b'A' ∷ b'I' ∷ b'L' ∷ b' ' ∷ b'F' ∷ b'R' ∷ b'O' ∷ b'M' ∷ b':' ∷ []

abbrev address : Bytes
address = b'a' ∷ b'@' ∷ b'b' ∷ []

abbrev flow : Flow
flow = record { smtp_info = some 0; pa = no_anomaly; forward = true }

abbrev infos : Cache SmtpInfo
infos = record {
  items = some 0 ∷ [];
  total = 0;
  total_acquires = 1;
  total_releases = 0;
  total_fails = 0;
  heap = λ p. record { from = none; to = none; command = 0; is_banned = true };
  fresh = 1;
}

abbrev names : Cache Bytes
names = record {
  items = some 0 ∷ [];
  total = 1;
  total_acquires = 0;
  total_releases = 0;
  total_fails = 0;
  heap = λ p. [];
  fresh = 1;
}

abbrev blank : SmtpProtocol
blank = record {
  total_bytes = 0;
  total_packets = 0;
  total_allow_domains = 0;
  total_ban_domains = 0;
  total_smtp_client_commands = 0;
  total_smtp_server_responses = 0;
  hits = λ c. 0;
  domain_mng = none;
  ban_domain_mng = none;
  info_cache = infos;
  from_cache = names;
  to_cache = names;
  from_map = [];
  to_map = [];
  anomalies = λ a. 0;
}

names-IsValid : IsValid names
names-IsValid = record { bounded = omega arith; no_null = tt }

mail_address-bracketed_example :
    mail_address (bracketed front address (13 ∷ 10 ∷ [])) ≡ some address
mail_address-bracketed_example =
    mail_address-bracketed front address (13 ∷ 10 ∷ [])
      (refl, (refl, (refl, (refl, (refl, (refl, (refl, (refl, (refl, (refl, tt))))))))))
      (refl, (refl, tt)) (omega arith)

handle_cmd_mail-Counted_example :
    (g : Flow) × (t : SmtpProtocol) × (handle_cmd_mail 0 (bracketed front address []) flow blank
      ≡ ok (g, t))
    × Counted blank t
handle_cmd_mail-Counted_example =
    handle_cmd_mail-Counted 0 (bracketed front address []) flow blank names-IsValid
