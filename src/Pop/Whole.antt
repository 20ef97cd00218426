-- ===== src/Pop/Whole.antt =====
-- `processFlow` of src/protocols/pop/POPProtocol.cc over any sequence of payloads.
use aiengine_rewritten_clean.Prelude.{
  ℕ, ◌+◌, ◌^◌, ◌<◌, ◌≡◌, refl, ◌∙◌, inl, inr, Option, none, some, List, [], ◌∷◌, arith, ◌==◌,
  Bool-cases, Option-cases, u64,
}
use aiengine_rewritten_clean.Cache.{Cache, Outcome, ok, fault, ◌>>=◌, acquire, lock}
use aiengine_rewritten_clean.Cache.Inv.{IsValid, After, acquire-IsValid}
use aiengine_rewritten_clean.Dns.Message.{Memory}
use aiengine_rewritten_clean.Dns.Response.{bytes_at, length-bytes_at}
use aiengine_rewritten_clean.Smtp.Session.{command_of}
use aiengine_rewritten_clean.Pop.Commands.{PopInfo, PopProtocol, Flow, reset}
use aiengine_rewritten_clean.Pop.Session.{
  commands, count_command, run_command, count_packet, session, with_new_info, process_flow,
}
use aiengine_rewritten_clean.Pop.Account.{handle_cmd_user-Counted}

-- The two pools are valid.
pub record IsSound (s : PopProtocol) : Type 0 where
  pub infos : IsValid s.info_cache
  pub users : IsValid s.user_cache

-- There is a result, with valid pools and `n` packets.
pub record Gives (n : ℕ) (r : Outcome (Flow × PopProtocol)) : Type 0 where
  pub flow : Flow
  pub after : PopProtocol
  pub result : r ≡ ok (flow, after)
  pub packets : after.total_packets ≡ n
  pub sound : IsSound after

count_command-IsSound : (i cmd : ℕ) (s : PopProtocol) → IsSound s → IsSound (count_command i cmd s)
count_command-IsSound i cmd s v = record {
  infos = record { bounded = v.infos.bounded; no_null = v.infos.no_null };
  users = v.users;
}

run_command-Gives :
    (mem : Memory) (size i cmd : ℕ) (f : Flow) (s : PopProtocol)
    → size < 2 ^ 63
    → IsSound s
    → Gives s.total_packets (run_command mem size i cmd f s)
unfolding run_command
run_command-Gives mem size i cmd f s lt v =
    let w = count_command-IsSound i cmd s v in
    elim (Bool-cases (cmd == 8)) [
      | inr other ↦
          rw (other, run_command)
            (record { flow = f; after = _; result = refl; packets = refl; sound = w })
      | inl user ↦
          let (g, t, e, c) =
            handle_cmd_user-Counted i (bytes_at mem 0 size) f (count_command i cmd s)
              (omega (arith, lt, length-bytes_at mem 0 size)) w.users in
          rw (user, run_command)
            (record {
              flow = g;
              after = t;
              result = e;
              packets = c.rest.packets;
              sound = record { infos = c.rest.infos w.infos; users = c.pool };
            })
    ]

session-Gives :
    (mem : Memory) (size i : ℕ) (f : Flow) (s : PopProtocol)
    → size < 2 ^ 63
    → IsSound s
    → Gives s.total_packets (session mem size i f s)
unfolding session
session-Gives mem size i f s lt v =
    let still : Gives s.total_packets (ok (f, s)) = record {
      flow = f;
      after = s;
      result = refl;
      packets = refl;
      sound = v;
    } in
    elim (Bool-cases (s.info_cache.heap i).is_banned) [
      | inl banned ↦ rw (banned, session) still
      | inr free ↦ elim (Bool-cases f.forward) [
        | inr back ↦
            rw (free, session, back)
              (record {
                flow = _;
                after = _;
                result = refl;
                packets = refl;
                sound = record {
                  infos = record { bounded = v.infos.bounded; no_null = v.infos.no_null };
                  users = v.users;
                };
              })
        | inl forth ↦ elim (Option-cases (command_of commands mem)) [
          | inl missing ↦ rw (free, session, forth, missing) still
          | inr (cmd, found) ↦
              rw (free, session, forth, found) (run_command-Gives mem size i cmd f s lt v)
        ]
      ]
    ]

with_new_info-Gives :
    (mem : Memory) (size : ℕ) (f : Flow) (s : PopProtocol) (r : Outcome (Option ℕ × Cache PopInfo))
    → size < 2 ^ 63
    → After IsValid r
    → IsValid s.user_cache
    → Gives s.total_packets (with_new_info mem size f s r)
unfolding with_new_info
with_new_info-Gives mem size f s fault lt h v = absurd h
with_new_info-Gives mem size f s (ok (none, c)) lt h v = record {
  flow = f;
  after = _;
  result = refl;
  packets = refl;
  sound = record { infos = h; users = v };
}
with_new_info-Gives mem size f s (ok (some i, c)) lt h v =
    session-Gives mem size i (record f { pop_info = some i }) (record s { info_cache = c }) lt
      (record { infos = h; users = v })

process_flow-Gives :
    (mem : Memory) (size : ℕ) (f : Flow) (s : PopProtocol)
    → size < 2 ^ 63
    → IsSound s
    → Gives (u64 (s.total_packets + 1)) (process_flow mem size f s)
unfolding process_flow
process_flow-Gives mem size f s lt v = elim (Option-cases (lock s.info_cache f.pop_info)) [
  | inr (i, there) ↦
      rw (there, process_flow)
        (session-Gives mem size i f _ lt (record { infos = v.infos; users = v.users }))
  | inl missing ↦
      rw (missing, process_flow)
        (with_new_info-Gives mem size f (count_packet size s) (acquire reset s.info_cache) lt
          (acquire-IsValid reset s.info_cache v.infos) v.users)
]

-- A payload with the flow as it then is.
pub record Payload : Type 0 where
  pub memory : Memory
  pub size : ℕ
  pub flow : Flow

-- Each payload of a sequence is given to `processFlow`.
unfoldable pub process_payloads : List Payload → PopProtocol → Outcome PopProtocol
process_payloads [] s = ok s
process_payloads (p ∷ rest) s =
    process_flow p.memory p.size p.flow s >>= λ (f, t). process_payloads rest t

abbrev pub AllShort : List Payload → Type 0
AllShort [] = Unit {0}
AllShort (p ∷ rest) = (p.size < 2 ^ 63) × AllShort rest

abbrev pub count : List Payload → ℕ
count [] = 0
count (p ∷ rest) = count rest + 1

-- Any payloads of any flows are processed to the end: from valid pools, with payloads of less than
-- 2⁶³ bytes, no call reads through a null pointer or cuts a text out beyond the payload's end, the
-- number of packets grows by that of the payloads, modulo 2⁶⁴, and both pools are valid again.
pub process_payloads-IsSound :
    (ps : List Payload) (s : PopProtocol)
    → AllShort ps
    → IsSound s
    → (t : PopProtocol) × (process_payloads ps s ≡ ok t)
      × (u64 t.total_packets ≡ u64 (s.total_packets + count ps))
      × IsSound t
unfolding process_payloads
process_payloads-IsSound [] s h v = (s, refl, omega arith, v)
process_payloads-IsSound (p ∷ rest) s h v =
    let g = process_flow-Gives p.memory p.size p.flow s h.0 v in
    let (t, e, n, w) = process_payloads-IsSound rest g.after h.1 g.sound in
    (t, rw g.result e, n ∙ omega (arith, g.packets), w)
