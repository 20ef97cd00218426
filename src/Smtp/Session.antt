-- ===== src/Smtp/Session.antt =====
-- `processFlow` of src/protocols/smtp/SMTPProtocol.cc, and the table of commands.
use aiengine_rewritten_clean.Prelude.{
  ℕ, ◌+◌, Bool, true, false, ◌&&◌, ◌||◌, Option, none, some, List, [], ◌∷◌, leb, ◌==◌,
  if◌then◌else◌, Bytes, inc32, u64,
}
use aiengine_rewritten_clean.Cache.{Cache, Outcome, ok, fault, acquire, lock}
use aiengine_rewritten_clean.Dns.Message.{Memory}
use aiengine_rewritten_clean.Dns.Response.{bytes_at}
use aiengine_rewritten_clean.Smtp.Commands.{
  SmtpInfo, SmtpProtocol, Flow, reset, set_info, handle_cmd_mail, handle_cmd_rcpt, with_flow,
}

-- `commands_`: the text that is compared and the command, which is its place in the table.
abbrev pub commands : List (Bytes × ℕ)
commands =
    (b'E' ∷ b'H' ∷ b'L' ∷ b'O' ∷ [], 0)
    ∷ (b'A' ∷ b'U' ∷ b'T' ∷ b'H' ∷ b' ' ∷ b'L' ∷ b'O' ∷ b'G' ∷ b'I' ∷ b'N' ∷ [], 1)
    ∷ (b'M' ∷ b'A' ∷ b'I' ∷ b'L' ∷ b' ' ∷ b'F' ∷ b'R' ∷ b'O' ∷ b'M' ∷ b':' ∷ [], 2)
    ∷ (b'R' ∷ b'C' ∷ b'P' ∷ b'T' ∷ b' ' ∷ b'T' ∷ b'O' ∷ b':' ∷ [], 3)
    ∷ (b'D' ∷ b'A' ∷ b'T' ∷ b'A' ∷ [], 4)
    ∷ (b'E' ∷ b'X' ∷ b'P' ∷ b'N' ∷ [], 5)
    ∷ (b'V' ∷ b'R' ∷ b'F' ∷ b'Y' ∷ [], 6)
    ∷ (b'R' ∷ b'S' ∷ b'E' ∷ b'T' ∷ [], 7)
    ∷ (b'H' ∷ b'E' ∷ b'L' ∷ b'P' ∷ [], 8)
    ∷ (b'N' ∷ b'O' ∷ b'O' ∷ b'P' ∷ [], 9)
    ∷ (b'Q' ∷ b'U' ∷ b'I' ∷ b'T' ∷ [], 10)
    ∷ []

-- `memcmp(c, &smtp_header_[0], offset) == 0`.
unfoldable pub begins : Bytes → Memory → ℕ → Bool
begins [] mem i = true
begins (b ∷ text) mem i = mem i == b && begins text mem (i + 1)

-- The first command of a table that the payload begins with.
unfoldable pub command_of : List (Bytes × ℕ) → Memory → Option ℕ
unfolding begins
command_of [] mem = none
command_of ((text, cmd) ∷ rest) mem = if begins text mem 0 then some cmd else command_of rest mem

abbrev then_command : ℕ → ℕ → Outcome (Flow × SmtpProtocol) → Outcome (Flow × SmtpProtocol)
then_command i cmd fault = fault
then_command i cmd (ok (f, s)) = ok (f, set_info i (λ info. record info { command = cmd }) s)

-- The body of the loop over the commands for the one that was found.
unfoldable pub run_command :
    Memory → ℕ → ℕ → ℕ → Flow → SmtpProtocol → Outcome (Flow × SmtpProtocol)
run_command mem size i cmd f s =
    let t = record s {
      hits = λ c. if c == cmd then inc32 (s.hits c) else s.hits c;
      total_smtp_client_commands = inc32 s.total_smtp_client_commands;
    } in
    let header = bytes_at mem 0 size in
    then_command i cmd (
      if cmd == 2
      then handle_cmd_mail i header f t
      else (if cmd == 3 then with_flow f (handle_cmd_rcpt i header t) else ok (f, t)))

abbrev pub is_digit : ℕ → Bool
is_digit b = leb b'0' b && leb b b'9'

abbrev pub is_space : ℕ → Bool
is_space b = b == 32 || (leb 9 b && leb b 13)

-- `std::stoi` finds a number: after white space and a sign, a digit.
unfoldable pub after_sign : Bytes → Bool
after_sign [] = false
after_sign (b ∷ text) = is_digit b

unfoldable pub is_number : Bytes → Bool
unfolding after_sign
is_number [] = false
is_number (b ∷ text) =
    let rest = is_number text in
    if is_space b
    then rest
    else (if (b == b'+') || (b == b'-') then after_sign text else is_digit b)

-- The branch for responses of the server.
unfoldable pub response : Memory → SmtpProtocol → SmtpProtocol
unfolding is_number
response mem s =
    if is_number (bytes_at mem 0 3)
    then record s { total_smtp_server_responses = inc32 s.total_smtp_server_responses }
    else s

-- From the test for a banned flow on.
unfoldable pub session : Memory → ℕ → ℕ → Flow → SmtpProtocol → Outcome (Flow × SmtpProtocol)
unfolding command_of run_command
session mem size i f s =
    if (s.info_cache.heap i).is_banned
    then ok (f, s)
    else (if f.forward
        then elim (command_of commands mem) [
          | some cmd ↦ run_command mem size i cmd f s
          | none ↦ ok (f, s)
        ]
        else ok (f, response mem s))

unfoldable pub with_new_info :
    Memory
    → ℕ
    → Flow
    → SmtpProtocol
    → Outcome (Option ℕ × Cache SmtpInfo)
    → Outcome (Flow × SmtpProtocol)
with_new_info mem size f s fault = fault
with_new_info mem size f s (ok (none, c)) = ok (f, record s { info_cache = c })
with_new_info mem size f s (ok (some i, c)) =
    session mem size i (record f { smtp_info = some i }) (record s { info_cache = c })

-- `processFlow(flow)`, for a payload of `size` bytes.
unfoldable pub process_flow : Memory → ℕ → Flow → SmtpProtocol → Outcome (Flow × SmtpProtocol)
unfolding session with_new_info
process_flow mem size f s =
    let t = record s {
      total_bytes = u64 (s.total_bytes + size);
      total_packets = u64 (s.total_packets + 1);
    } in
    elim (lock s.info_cache f.smtp_info) [
      | some i ↦ session mem size i f t
      | none ↦ with_new_info mem size f t (acquire reset s.info_cache)
    ]
