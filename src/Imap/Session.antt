-- ===== src/Imap/Session.antt =====
-- `processFlow` of src/protocols/imap/IMAPProtocol.cc and the table of commands.
use aiengine_rewritten_clean.Prelude.{
  ℕ, ◌+◌, ◌-◌, ◌%◌, ◌^◌, length, Option, none, some, List, [], ◌∷◌, ◌==◌, if◌then◌else◌, Bytes,
  inc16, inc32, u64,
}
use aiengine_rewritten_clean.Cache.{Cache, Outcome, ok, fault, ◌>>=◌, acquire, lock}
use aiengine_rewritten_clean.Dns.Message.{Memory}
use aiengine_rewritten_clean.Dns.Response.{bytes_at}
use aiengine_rewritten_clean.Smtp.Session.{begins}
use aiengine_rewritten_clean.Smtp.Address.{find}
use aiengine_rewritten_clean.Pop.Line.{substr}
use aiengine_rewritten_clean.Imap.Commands.{
  ImapInfo, ImapProtocol, Flow, reset, set_info, handle_cmd_login,
}

-- `commands_`: the text that is compared and the command, which is its place in the table.
abbrev pub commands : List (Bytes × ℕ)
commands =
    (b'C' ∷ b'A' ∷ b'P' ∷ b'A' ∷ b'B' ∷ b'I' ∷ b'L' ∷ b'I' ∷ b'T' ∷ b'Y' ∷ [], 0)
    ∷ (b'S' ∷ b'T' ∷ b'A' ∷ b'R' ∷ b'T' ∷ b'T' ∷ b'L' ∷ b'S' ∷ [], 1)
    ∷ (b'A' ∷ b'U' ∷ b'T' ∷ b'H' ∷ b'E' ∷ b'N' ∷ b'T' ∷ b'I' ∷ b'C' ∷ b'A' ∷ b'T' ∷ b'E' ∷ [], 2)
    ∷ (b'U' ∷ b'I' ∷ b'D' ∷ [], 3)
    ∷ (b'L' ∷ b'O' ∷ b'G' ∷ b'I' ∷ b'N' ∷ [], 4)
    ∷ (b'S' ∷ b'E' ∷ b'L' ∷ b'E' ∷ b'C' ∷ b'T' ∷ [], 5)
    ∷ (b'E' ∷ b'X' ∷ b'A' ∷ b'M' ∷ b'I' ∷ b'N' ∷ b'E' ∷ [], 6)
    ∷ (b'C' ∷ b'R' ∷ b'E' ∷ b'A' ∷ b'T' ∷ b'E' ∷ [], 7)
    ∷ (b'D' ∷ b'E' ∷ b'L' ∷ b'E' ∷ b'T' ∷ b'E' ∷ [], 8)
    ∷ (b'R' ∷ b'E' ∷ b'N' ∷ b'A' ∷ b'M' ∷ b'E' ∷ [], 9)
    ∷ (b'S' ∷ b'U' ∷ b'B' ∷ b'S' ∷ b'C' ∷ b'R' ∷ b'I' ∷ b'B' ∷ b'E' ∷ [], 10)
    ∷ (b'U' ∷ b'N' ∷ b'S' ∷ b'U' ∷ b'B' ∷ b'S' ∷ b'C' ∷ b'R' ∷ b'I' ∷ b'B' ∷ b'E' ∷ [], 11)
    ∷ (b'L' ∷ b'I' ∷ b'S' ∷ b'T' ∷ [], 12)
    ∷ (b'L' ∷ b'S' ∷ b'U' ∷ b'B' ∷ [], 13)
    ∷ (b'S' ∷ b'T' ∷ b'A' ∷ b'T' ∷ b'U' ∷ b'S' ∷ [], 14)
    ∷ (b'A' ∷ b'P' ∷ b'P' ∷ b'E' ∷ b'N' ∷ b'D' ∷ [], 15)
    ∷ (b'C' ∷ b'H' ∷ b'E' ∷ b'C' ∷ b'K' ∷ [], 16)
    ∷ (b'C' ∷ b'L' ∷ b'O' ∷ b'S' ∷ b'E' ∷ [], 17)
    ∷ (b'E' ∷ b'X' ∷ b'P' ∷ b'U' ∷ b'N' ∷ b'G' ∷ b'E' ∷ [], 18)
    ∷ (b'S' ∷ b'E' ∷ b'A' ∷ b'R' ∷ b'C' ∷ b'H' ∷ [], 19)
    ∷ (b'F' ∷ b'E' ∷ b'T' ∷ b'C' ∷ b'H' ∷ [], 20)
    ∷ (b'S' ∷ b'T' ∷ b'O' ∷ b'R' ∷ b'E' ∷ [], 21)
    ∷ (b'C' ∷ b'O' ∷ b'P' ∷ b'Y' ∷ [], 22)
    ∷ (b'N' ∷ b'O' ∷ b'O' ∷ b'P' ∷ [], 23)
    ∷ (b'L' ∷ b'O' ∷ b'G' ∷ b'O' ∷ b'U' ∷ b'T' ∷ [], 24)
    ∷ []

-- The first command of a table that stands at a place of the payload, with the text's length.
unfoldable pub command_at : List (Bytes × ℕ) → Memory → ℕ → Option (ℕ × ℕ)
unfolding begins
command_at [] mem place = none
command_at ((text, cmd) ∷ rest) mem place =
    if begins text mem place then some (cmd, length text) else command_at rest mem place

abbrev pub count_command : ℕ → ImapProtocol → ImapProtocol
count_command cmd s = record s {
  hits = λ c. if c == cmd then inc32 (s.hits c) else s.hits c;
  total_imap_client_commands = inc32 s.total_imap_client_commands;
}

abbrev pub inc_client : ℕ → Flow × ImapProtocol → Outcome (Flow × ImapProtocol)
inc_client i (f, s) =
    ok (f, set_info i (λ info. record info { client_commands = inc16 info.client_commands }) s)

-- `endtag + 1`, which is 0 where there is no blank.
abbrev pub after_tag : Bytes → ℕ
after_tag header = (find b' ' header + 1) % 2 ^ 64

-- The branch for LOGIN: `cmdoff` is taken as the number that it is for payloads of less than 2³¹
-- bytes.
unfoldable pub run_login : Bytes → ℕ → ℕ → Flow → ImapProtocol → Outcome (Flow × ImapProtocol)
unfolding substr
run_login header i cmdoff f s =
    substr cmdoff ((length header + (2 ^ 64 - cmdoff)) % 2 ^ 64) header >>= λ header_cmd.
    handle_cmd_login i header_cmd f s >>= inc_client i

-- The body of the loop for the command that was found, whose text has `offset` bytes.
unfoldable pub run_command : Bytes → ℕ → ℕ → ℕ → Flow → ImapProtocol → Outcome (Flow × ImapProtocol)
unfolding run_login
run_command header i cmd offset f s =
    if cmd == 4
    then run_login header i (offset + after_tag header + 1) f (count_command cmd s)
    else inc_client i (f, count_command cmd s)

-- The branch for responses of the server.
abbrev pub response : ℕ → ImapProtocol → ImapProtocol
response i s =
    set_info i (λ info. record info { server_commands = inc16 info.server_commands })
      (record s { total_imap_server_responses = inc32 s.total_imap_server_responses })

-- From the test for a banned flow on.
unfoldable pub session : Memory → ℕ → ℕ → Flow → ImapProtocol → Outcome (Flow × ImapProtocol)
unfolding command_at run_command
session mem size i f s =
    if (s.info_cache.heap i).is_banned
    then ok (f, s)
    else (if f.forward
        then elim (command_at commands mem (after_tag (bytes_at mem 0 size))) [
          | some (cmd, offset) ↦ run_command (bytes_at mem 0 size) i cmd offset f s
          | none ↦ ok (f, s)
        ]
        else ok (f, response i s))

unfoldable pub with_new_info :
    Memory
    → ℕ
    → Flow
    → ImapProtocol
    → Outcome (Option ℕ × Cache ImapInfo)
    → Outcome (Flow × ImapProtocol)
with_new_info mem size f s fault = fault
with_new_info mem size f s (ok (none, c)) = ok (f, record s { info_cache = c })
with_new_info mem size f s (ok (some i, c)) =
    session mem size i (record f { imap_info = some i }) (record s { info_cache = c })

abbrev pub count_packet : ℕ → ImapProtocol → ImapProtocol
count_packet size s = record s {
  total_bytes = u64 (s.total_bytes + size);
  total_packets = u64 (s.total_packets + 1);
}

-- `processFlow(flow)`, for a payload of `size` bytes.
unfoldable pub process_flow : Memory → ℕ → Flow → ImapProtocol → Outcome (Flow × ImapProtocol)
unfolding session with_new_info
process_flow mem size f s =
    let t = count_packet size s in
    elim (lock s.info_cache f.imap_info) [
      | some i ↦ session mem size i f t
      | none ↦ with_new_info mem size f t (acquire reset s.info_cache)
    ]
