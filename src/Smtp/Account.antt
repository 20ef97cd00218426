-- ===== src/Smtp/Account.antt =====
-- How `handle_cmd_mail` and `processFlow` of src/protocols/smtp/SMTPProtocol.cc treat a flow.
use aiengine_rewritten_clean.Prelude.{
  ℕ, ◌+◌, ◌≡◌, refl, inl, inr, true, Option, none, some, arith, Bool-cases, Option-cases, Bytes,
  u32, u64,
}
use aiengine_rewritten_clean.Cache.{
  Cache, Outcome, ok, fault, acquire, lock, reset_string, set_name,
}
use aiengine_rewritten_clean.Cache.Inv.{IsValid, After, acquire-IsValid}
use aiengine_rewritten_clean.Anomaly.{smtp_bogus_header, index, inc_anomaly}
use aiengine_rewritten_clean.Dns.Message.{Memory}
use aiengine_rewritten_clean.Dns.Query.{find_name}
use aiengine_rewritten_clean.Smtp.Address.{mail_address, domain_of}
use aiengine_rewritten_clean.Smtp.Commands.{
  SmtpProtocol, Flow, alive, attach_new_from, attach_from, ask, then_match, check_mail, bogus,
  with_flow, handle_cmd_mail,
}
use aiengine_rewritten_clean.Smtp.Session.{session, process_flow}

-- A banned flow is left alone: of a payload only its bytes and the packet are counted, and nothing
-- else of the protocol or the flow changes.
process_flow_banned :
    (mem : Memory) (size i : ℕ) (f : Flow) (s : SmtpProtocol)
    → lock s.info_cache f.smtp_info ≡ some i
    → (s.info_cache.heap i).is_banned ≡ true
    → process_flow mem size f s
      ≡ ok (
        f,
        record s {
          total_bytes = u64 (s.total_bytes + size);
          total_packets = u64 (s.total_packets + 1);
        },
      )
unfolding process_flow session
process_flow_banned mem size i f s there banned = rw (there, process_flow, banned, session) refl

abbrev pub OkWith : (SmtpProtocol → Type 0) → Outcome SmtpProtocol → Type 0
OkWith P (ok s) = P s
OkWith P fault = ⊥

abbrev bogus_hits : SmtpProtocol → ℕ
bogus_hits s = s.anomalies (index smtp_bogus_header)

-- What attaching a sender leaves.
record Kept (s t : SmtpProtocol) : Type 0 where
  allow : t.total_allow_domains ≡ s.total_allow_domains
  ban : t.total_ban_domains ≡ s.total_ban_domains
  bad : bogus_hits t ≡ bogus_hits s
  pool : IsValid t.from_cache

attach_new_from-Kept :
    (i : ℕ) (from : Bytes) (s : SmtpProtocol) (r : Outcome (Option ℕ × Cache Bytes))
    → After IsValid r
    → OkWith (Kept s) (attach_new_from i from s r)
unfolding attach_new_from set_name
attach_new_from-Kept i from s fault h = absurd h
attach_new_from-Kept i from s (ok (none, c)) h = record {
  allow = refl;
  ban = refl;
  bad = refl;
  pool = h;
}
attach_new_from-Kept i from s (ok (some p, c)) h = record {
  allow = refl;
  ban = refl;
  bad = refl;
  pool = record { bounded = h.bounded; no_null = h.no_null };
}

attach_from-Kept :
    (i : ℕ) (from : Bytes) (s : SmtpProtocol)
    → IsValid s.from_cache
    → OkWith (Kept s) (attach_from i from s)
unfolding attach_from
attach_from-Kept i from s v =
    elim (Bool-cases (alive s.from_cache s.from_map (s.info_cache.heap i).from)) [
      | inl there ↦
          rw (there, attach_from) (record { allow = refl; ban = refl; bad = refl; pool = v })
      | inr gone ↦ elim (Option-cases (find_name from s.from_map)) [
        | inr (p, known) ↦
            rw (gone, attach_from, known)
              (record { allow = refl; ban = refl; bad = refl; pool = v })
        | inl unknown ↦
            rw (gone, attach_from, unknown)
              (attach_new_from-Kept i from s (acquire reset_string s.from_cache)
                (acquire-IsValid reset_string s.from_cache v))
      ]
    ]

-- A command is counted once: as allowed, as banned, or as an anomaly.
pub record Counted (s t : SmtpProtocol) : Type 0 where
  pub once :
      u32 (t.total_allow_domains + t.total_ban_domains + bogus_hits t)
      ≡ u32 (s.total_allow_domains + s.total_ban_domains + bogus_hits s + 1)
  pub pool : IsValid t.from_cache

then_match-Counted :
    (domain : Bytes) (s u : SmtpProtocol) (r : Outcome SmtpProtocol)
    → u32 (u.total_allow_domains + u.total_ban_domains + bogus_hits u)
      ≡ u32 (s.total_allow_domains + s.total_ban_domains + bogus_hits s + 1)
    → OkWith (Kept u) r
    → OkWith (Counted s) (then_match domain r)
then_match-Counted domain s u fault e h = absurd h
then_match-Counted domain s u (ok t) e h = record {
  once = ground (arith, h.allow, h.ban, h.bad, e);
  pool = h.pool;
}

check_mail-Counted :
    (i : ℕ) (from domain : Bytes) (s : SmtpProtocol)
    → IsValid s.from_cache
    → OkWith (Counted s) (check_mail i from domain s)
unfolding check_mail
check_mail-Counted i from domain s v = elim (Option-cases (ask domain s.ban_domain_mng).0) [
  | inr (d, hit) ↦ rw (hit, check_mail) (record { once = ground arith; pool = v })
  | inl free ↦
      rw (free, check_mail)
        (then_match-Counted domain s _ (attach_from i from _) (ground arith)
          (attach_from-Kept i from _ v))
]

with_flow-inv :
    (f : Flow) (s : SmtpProtocol) (r : Outcome SmtpProtocol)
    → OkWith (Counted s) r
    → (g : Flow) × (t : SmtpProtocol) × (with_flow f r ≡ ok (g, t)) × Counted s t
with_flow-inv f s (ok t) h = (f, t, refl, h)
with_flow-inv f s fault h = absurd h

bogus-Counted :
    (f : Flow) (s : SmtpProtocol)
    → IsValid s.from_cache
    → (g : Flow) × (t : SmtpProtocol) × (bogus f s ≡ ok (g, t)) × Counted s t
unfolding inc_anomaly
bogus-Counted f s v = (_, _, refl, record { once = ground arith; pool = v })

-- Every MAIL command is counted once: for a valid pool of senders the handler meets no fault
-- whatever the command holds, the sum of the allowed and the banned domains and of the anomalies
-- for bogus headers grows by one, modulo 2³², and the pool is still valid.
pub handle_cmd_mail-Counted :
    (i : ℕ) (header : Bytes) (f : Flow) (s : SmtpProtocol)
    → IsValid s.from_cache
    → (g : Flow) × (t : SmtpProtocol) × (handle_cmd_mail i header f s ≡ ok (g, t)) × Counted s t
unfolding handle_cmd_mail
handle_cmd_mail-Counted i header f s v = elim (Option-cases (mail_address header)) [
  | inl missing ↦ rw (missing, handle_cmd_mail) (bogus-Counted f s v)
  | inr (from, found) ↦ elim (Option-cases (domain_of from)) [
    | inl missing ↦ rw (found, handle_cmd_mail, missing) (bogus-Counted f s v)
    | inr (domain, found') ↦
        rw (found, handle_cmd_mail, found')
          (with_flow-inv f s (check_mail i from domain s) (check_mail-Counted i from domain s v))
  ]
]
