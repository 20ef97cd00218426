-- ===== src/Pop/Session.antt =====
-- `processFlow` of src/protocols/pop/POPProtocol.cc and the table of commands, and `popChecker` of
-- src/protocols/pop/POPProtocol.h.
use aiengine_rewritten_clean.Prelude.{
  ℕ, ◌+◌, Bool, ◌&&◌, Option, none, some, List, [], ◌∷◌, ◌==◌, if◌then◌else◌, Bytes, inc16, inc32,
  u64,
}
use aiengine_rewritten_clean.Cache.{Cache, Outcome, ok, fault, acquire, lock}
use aiengine_rewritten_clean.Dns.Message.{Memory}
use aiengine_rewritten_clean.Dns.Response.{bytes_at}
use aiengine_rewritten_clean.Smtp.Session.{begins, command_of}
use aiengine_rewritten_clean.Pop.Commands.{
  PopInfo, PopProtocol, Flow, reset, set_info, handle_cmd_user,
}

-- `commands_`: the text that is compared and the command, which is its place in the table.
abbrev pub commands : List (Bytes × ℕ)
commands =
    (b'S' ∷ b'T' ∷ b'A' ∷ b'T' ∷ [], 0)
    ∷ (b'L' ∷ b'I' ∷ b'S' ∷ b'T' ∷ [], 1)
    ∷ (b'R' ∷ b'E' ∷ b'T' ∷ b'R' ∷ [], 2)
    ∷ (b'D' ∷ b'E' ∷ b'L' ∷ b'E' ∷ [], 3)
    ∷ (b'N' ∷ b'O' ∷ b'O' ∷ b'P' ∷ [], 4)
    ∷ (b'R' ∷ b'S' ∷ b'E' ∷ b'T' ∷ [], 5)
    ∷ (b'T' ∷ b'O' ∷ b'P' ∷ [], 6)
    ∷ (b'U' ∷ b'I' ∷ b'D' ∷ b'L' ∷ [], 7)
    ∷ (b'U' ∷ b'S' ∷ b'E' ∷ b'R' ∷ [], 8)
    ∷ (b'P' ∷ b'A' ∷ b'S' ∷ b'S' ∷ [], 9)
    ∷ (b'A' ∷ b'P' ∷ b'O' ∷ b'P' ∷ [], 10)
    ∷ (b'Q' ∷ b'U' ∷ b'I' ∷ b'T' ∷ [], 11)
    ∷ []

-- The counters for a command that was found.
abbrev pub count_command : ℕ → ℕ → PopProtocol → PopProtocol
count_command i cmd s =
    set_info i (λ info. record info { client_commands = inc16 info.client_commands })
      (record s {
        hits = λ c. if c == cmd then inc32 (s.hits c) else s.hits c;
        total_pop_client_commands = inc32 s.total_pop_client_commands;
      })

-- The body of the loop over the commands for the one that was found.
unfoldable pub run_command : Memory → ℕ → ℕ → ℕ → Flow → PopProtocol → Outcome (Flow × PopProtocol)
run_command mem size i cmd f s =
    if cmd == 8
    then handle_cmd_user i (bytes_at mem 0 size) f (count_command i cmd s)
    else ok (f, count_command i cmd s)

-- The branch for responses of the server.
abbrev pub response : ℕ → PopProtocol → PopProtocol
response i s =
    set_info i (λ info. record info { server_commands = inc16 info.server_commands })
      (record s { total_pop_server_responses = inc32 s.total_pop_server_responses })

-- From the test for a banned flow on.
unfoldable pub session : Memory → ℕ → ℕ → Flow → PopProtocol → Outcome (Flow × PopProtocol)
unfolding command_of run_command
session mem size i f s =
    if (s.info_cache.heap i).is_banned
    then ok (f, s)
    else (if f.forward
        then elim (command_of commands mem) [
          | some cmd ↦ run_command mem size i cmd f s
          | none ↦ ok (f, s)
        ]
        else ok (f, response i s))

unfoldable pub with_new_info :
    Memory
    → ℕ
    → Flow
    → PopProtocol
    → Outcome (Option ℕ × Cache PopInfo)
    → Outcome (Flow × PopProtocol)
with_new_info mem size f s fault = fault
with_new_info mem size f s (ok (none, c)) = ok (f, record s { info_cache = c })
with_new_info mem size f s (ok (some i, c)) =
    session mem size i (record f { pop_info = some i }) (record s { info_cache = c })

abbrev pub count_packet : ℕ → PopProtocol → PopProtocol
count_packet size s = record s {
  total_bytes = u64 (s.total_bytes + size);
  total_packets = u64 (s.total_packets + 1);
}

-- `processFlow(flow)`, for a payload of `size` bytes.
unfoldable pub process_flow : Memory → ℕ → Flow → PopProtocol → Outcome (Flow × PopProtocol)
unfolding session with_new_info
process_flow mem size f s =
    let t = count_packet size s in
    elim (lock s.info_cache f.pop_info) [
      | some i ↦ session mem size i f t
      | none ↦ with_new_info mem size f t (acquire reset s.info_cache)
    ]

-- The condition of `popChecker(packet)`; its two counters are those of any checker.
unfoldable pub is_greeting : Memory → ℕ → Bool
unfolding begins
is_greeting mem source = begins (b'+' ∷ b'O' ∷ b'K' ∷ b' ' ∷ []) mem 0 && source == 110
