-- ===== src/Pop/Account.antt =====
-- How `handle_cmd_user` of src/protocols/pop/POPProtocol.cc counts the commands.
use aiengine_rewritten_clean.Prelude.{
  ℕ, ◌+◌, ◌^◌, ◌<◌, ◌≡◌, ◌∙◌, refl, inl, inr, Option, none, some, arith, Bool-cases, Option-cases,
  Bytes, length, u32,
}
use aiengine_rewritten_clean.Cache.{
  Cache, Outcome, ok, fault, ◌>>=◌, acquire, reset_string, set_name,
}
use aiengine_rewritten_clean.Cache.Inv.{IsValid, After, acquire-IsValid}
use aiengine_rewritten_clean.Anomaly.{pop_bogus_header, index, inc_anomaly}
use aiengine_rewritten_clean.Dns.Query.{find_name}
use aiengine_rewritten_clean.Smtp.Commands.{alive, ask}
use aiengine_rewritten_clean.Pop.Line.{is_bogus}
use aiengine_rewritten_clean.Pop.Commands.{
  PopProtocol, Flow, attach_new, attach_user_name, then_match, check_user, beside, handle_cmd_user,
}
use aiengine_rewritten_clean.Pop.Within.{texts}

abbrev pub OkWith : (PopProtocol → Type 0) → Outcome PopProtocol → Type 0
OkWith P (ok s) = P s
OkWith P fault = ⊥

abbrev bogus_hits : PopProtocol → ℕ
bogus_hits s = s.anomalies (index pop_bogus_header)

-- What a handler leaves of the rest.
pub record Rest (s t : PopProtocol) : Type 0 where
  pub packets : t.total_packets ≡ s.total_packets
  pub infos : IsValid s.info_cache → IsValid t.info_cache

-- What attaching a name leaves.
record Kept (s t : PopProtocol) : Type 0 where
  allow : t.total_allow_domains ≡ s.total_allow_domains
  ban : t.total_ban_domains ≡ s.total_ban_domains
  bad : bogus_hits t ≡ bogus_hits s
  pool : IsValid t.user_cache
  rest : Rest s t

attach_new-Kept :
    (i : ℕ) (name : Bytes) (s : PopProtocol) (r : Outcome (Option ℕ × Cache Bytes))
    → After IsValid r
    → OkWith (Kept s) (attach_new i name s r)
unfolding attach_new set_name
attach_new-Kept i name s fault h = absurd h
attach_new-Kept i name s (ok (none, c)) h = record {
  allow = refl;
  ban = refl;
  bad = refl;
  pool = h;
  rest = record { packets = refl; infos = λ w. w };
}
attach_new-Kept i name s (ok (some p, c)) h = record {
  allow = refl;
  ban = refl;
  bad = refl;
  pool = record { bounded = h.bounded; no_null = h.no_null };
  rest = record {
    packets = refl;
    infos = λ w. record { bounded = w.bounded; no_null = w.no_null };
  };
}

attach_user_name-Kept :
    (i : ℕ) (name : Bytes) (s : PopProtocol)
    → IsValid s.user_cache
    → OkWith (Kept s) (attach_user_name i name s)
unfolding attach_user_name
attach_user_name-Kept i name s v =
    elim (Bool-cases (alive s.user_cache s.user_map (s.info_cache.heap i).user_name)) [
      | inl there ↦
          rw (there, attach_user_name)
            (record {
              allow = refl;
              ban = refl;
              bad = refl;
              pool = v;
              rest = record { packets = refl; infos = λ w. w };
            })
      | inr gone ↦ elim (Option-cases (find_name name s.user_map)) [
        | inr (p, known) ↦
            rw (gone, attach_user_name, known)
              (record {
                allow = refl;
                ban = refl;
                bad = refl;
                pool = v;
                rest = record {
                  packets = refl;
                  infos = λ w. record { bounded = w.bounded; no_null = w.no_null };
                };
              })
        | inl unknown ↦
            rw (gone, attach_user_name, unknown)
              (attach_new-Kept i name s (acquire reset_string s.user_cache)
                (acquire-IsValid reset_string s.user_cache v))
      ]
    ]

-- A command is counted once: as allowed, as banned, or as an anomaly.
pub record Counted (s t : PopProtocol) : Type 0 where
  pub once :
      u32 (t.total_allow_domains + t.total_ban_domains + bogus_hits t)
      ≡ u32 (s.total_allow_domains + s.total_ban_domains + bogus_hits s + 1)
  pub pool : IsValid t.user_cache
  pub rest : Rest s t

then_match-Counted :
    (domain : Bytes) (s u : PopProtocol) (r : Outcome PopProtocol)
    → u32 (u.total_allow_domains + u.total_ban_domains + bogus_hits u)
      ≡ u32 (s.total_allow_domains + s.total_ban_domains + bogus_hits s + 1)
    → Rest s u
    → OkWith (Kept u) r
    → OkWith (Counted s) (r >>= then_match domain)
then_match-Counted domain s u fault e q h = absurd h
then_match-Counted domain s u (ok t) e q h = record {
  once = ground (arith, h.allow, h.ban, h.bad, e);
  pool = h.pool;
  rest = record { packets = h.rest.packets ∙ q.packets; infos = λ w. h.rest.infos (q.infos w) };
}

check_user-Counted :
    (i : ℕ) (name domain : Bytes) (s : PopProtocol)
    → IsValid s.user_cache
    → OkWith (Counted s) (check_user i name domain s)
unfolding check_user
check_user-Counted i name domain s v = elim (Option-cases (ask domain s.ban_domain_mng).0) [
  | inr (d, hit) ↦
      rw (hit, check_user)
        (record {
          once = ground arith;
          pool = v;
          rest = record {
            packets = refl;
            infos = λ w. record { bounded = w.bounded; no_null = w.no_null };
          };
        })
  | inl free ↦
      rw (free, check_user)
        (then_match-Counted domain s _ (attach_user_name i name _) (ground arith)
          (record { packets = refl; infos = λ w. w }) (attach_user_name-Kept i name _ v))
]

beside_lem :
    (f : Flow) (s : PopProtocol) (r : Outcome PopProtocol)
    → OkWith (Counted s) r
    → (g : Flow) × (t : PopProtocol) × ((r >>= beside f) ≡ ok (g, t)) × Counted s t
beside_lem f s (ok t) h = (f, t, refl, h)
beside_lem f s fault h = absurd h

-- Every USER command of less than 2⁶³ bytes is counted once: for a valid pool of names the handler
-- meets no fault whatever the command holds, so it cuts no text out beyond the command's end; the
-- sum of the allowed and the banned domains and of the anomalies for bogus headers grows by one,
-- modulo 2³², the pool is still valid, the number of packets is the same, and the pool of infos is
-- valid if it was.
pub handle_cmd_user-Counted :
    (i : ℕ) (header : Bytes) (f : Flow) (s : PopProtocol)
    → length header < 2 ^ 63
    → IsValid s.user_cache
    → (g : Flow) × (t : PopProtocol) × (handle_cmd_user i header f s ≡ ok (g, t)) × Counted s t
unfolding handle_cmd_user inc_anomaly
handle_cmd_user-Counted i header f s lt v = elim (Bool-cases (is_bogus header)) [
  | inl bad ↦
      rw (bad, handle_cmd_user)
        (
          _,
          _,
          refl,
          record {
            once = ground arith;
            pool = v;
            rest = record { packets = refl; infos = λ w. w };
          },
        )
  | inr fine ↦
      let (name, domain, e, e') = texts header lt fine in
      rw (fine, handle_cmd_user)
        (rw e (
          rw e'
            (beside_lem f s (check_user i name domain s) (check_user-Counted i name domain s v))))
]
