-- ===== src/Tcp/Opening.antt =====
-- What `TCPProtocol::getFlow` does for a conversation with no flow: how a flow is opened, and how a
-- `TCPInfo` is attached to it.
use aiengine_rewritten_clean.Tcp.Ready.{IsReady, IsDirected, acquire-ReadyPool, update-holds}
use aiengine_rewritten_clean.Address.{set_five_tuple, set_five_tuple6}
use aiengine_rewritten_clean.Prelude.{
  ℕ, ◌+◌, ◌<◌, ◌≡◌, refl, inl, inr, ◌⊎◌, Option, none, some, arith, Bool-cases, Option-cases, ◌==◌,
  if◌then◌else◌, inc32,
}
use aiengine_rewritten_clean.Cache.{Cache, ok, lock}
use aiengine_rewritten_clean.Cache.Inv.{acquire_empty}
use aiengine_rewritten_clean.Flow.{Flow, IpAddress, reset}
use aiengine_rewritten_clean.Packet.{Packet}
use aiengine_rewritten_clean.Release.{CacheManager, tcp, number}
use aiengine_rewritten_clean.Table.{FlowIndex, Store, add_flow, lookup, times}
use aiengine_rewritten_clean.Table.Timers.{entries_of}
use aiengine_rewritten_clean.Table.Owned.{
  IsOwned, Handed, acquire-Handed, held, spare, lookup-held, lookup-Inserted,
}
use aiengine_rewritten_clean.Table.Kept.{add_flow-IsOwned}
use aiengine_rewritten_clean.Tcp.Info.{TcpInfo}
use aiengine_rewritten_clean.Tcp.Machine.{forward}
use aiengine_rewritten_clean.Tcp.Flows.{update_flow, start_flow, attach_tcp_info, open_flow}

module _ (I : FlowIndex) where
  -- To change a flow, but not its identifier, keeps the flows apart.
  pub update_flow-IsOwned :
      (p : ℕ) (g : Flow → Flow) (s : Store I TcpInfo)
      → ((f : Flow) → (g f).hash ≡ f.hash)
      → IsOwned I s
      → IsOwned I (record s { flows = update_flow p g s.flows })
  update_flow-IsOwned p g s same o = record {
    pool = record { bounded = o.pool.bounded; no_null = o.pool.no_null };
    named = λ h q found. elim (Bool-cases (p == q)) [
      | inl here ↦ grind (arith, same (s.flows.heap p), o.named h q found)
      | inr there ↦ rw there (o.named h q found)
    ];
    apart = o.apart;
  }

  start_flow-hash :
      (proto h1 : ℕ) (sigs : Option ℕ) (time : ℕ) (packet : Packet) (a : IpAddress) (p q : ℕ)
      (f : Flow)
      → ((start_flow proto h1 sigs time packet a p q f).hash ≡ h1)
        × ((start_flow proto h1 sigs time packet a p q f).source_port ≡ p)
        × ((start_flow proto h1 sigs time packet a p q f).direction ≡ f.direction)
  unfolding start_flow set_five_tuple set_five_tuple6
  start_flow-hash proto h1 sigs time packet a p q f = elim (Bool-cases (a.type == 4)) [
    | inl h ↦ rw h (refl, refl, refl)
    | inr h ↦ rw h (refl, refl, refl)
  ]

  -- A flow that is handed out by the pool of flows, and changed, is not in the table.
  taken_flow-IsOwned :
      (s : Store I TcpInfo) (f : ℕ) (c : Cache Flow) (g : Flow → Flow)
      → Handed reset s.flows f c
      → IsOwned I s
      → IsOwned I (record s { flows = update_flow f g c })
        × (held f (entries_of I s) ≡ 0)
        × (spare f c ≡ 0)
  taken_flow-IsOwned s f c g d o =
      let gone : held f (entries_of I s) + spare f c ≡ 0 = grind (arith, d.counted f, o.apart f) in
      (
        record {
          pool = record { bounded = d.valid.bounded; no_null = d.valid.no_null };
          named = λ h q found. elim (Bool-cases (f == q)) [
            | inl here ↦ absurd (grind (arith, lookup-held h q (entries_of I s) found))
            | inr there ↦ rw (d.content, there) (o.named h q found)
          ];
          apart = λ q. omega (arith, d.counted q, o.apart q);
        },
        omega arith,
        omega arith,
      )

  -- The flow that is handed out is directed, as it was reset.
  taken_flow-IsReady :
      (s : Store I TcpInfo) (f : ℕ) (c : Cache Flow) (g : Flow → Flow)
      → ((x : Flow) → (g x).direction ≡ x.direction)
      → Handed reset s.flows f c
      → IsReady s
      → IsReady (record s { flows = update_flow f g c })
  unfolding reset
  taken_flow-IsReady s f c g same d r = record {
    pool = r.pool;
    directed =
        update-holds IsDirected c.heap f (g (c.heap f))
          (rw (same (c.heap f), d.content) (forward, ground arith))
          (λ q. rw d.content (
            update-holds IsDirected s.flows.heap f (reset (s.flows.heap f)) (forward, refl)
              r.directed q));
  }

  pub record Opened (h1 port f : ℕ) (s s' : Store I TcpInfo) : Type 0 where
    pub owned : IsOwned I s'
    pub found : lookup h1 (entries_of I s') ≡ some f
    pub port_eq : (s'.flows.heap f).source_port ≡ port
    pub fresh : held f (entries_of I s) ≡ 0
    pub ready : IsReady s → IsReady s'

  add_flow-Opened :
      (h1 port f : ℕ) (s mid : Store I TcpInfo)
      → entries_of I mid ≡ entries_of I s
      → (IsReady s → IsReady mid)
      → IsOwned I mid
      → lookup h1 (entries_of I s) ≡ none
      → (held f (entries_of I s) ≡ 0) × (spare f mid.flows ≡ 0)
      → ((mid.flows.heap f).hash ≡ h1) × ((mid.flows.heap f).source_port ≡ port)
      → Opened h1 port f s (add_flow I f mid)
  unfolding add_flow
  add_flow-Opened h1 port f s mid same kept o new (unheld, unspare) (hash, src) =
      let absent : lookup (mid.flows.heap f).hash (entries_of I mid) ≡ none = rw (hash, same) new in
      let i =
        I.insert_new (times mid.flows) ((mid.flows.heap f).hash, f) mid.manager.table absent in
      record {
        owned = add_flow-IsOwned I f mid absent (rw (same, unheld, unspare) refl) o;
        found = grind (arith, lookup-Inserted h1 i absent);
        port_eq = src;
        fresh = unheld;
        ready = λ r. record { pool = (kept r).pool; directed = (kept r).directed };
      }

  open_flow-some :
      (proto h1 : ℕ) (sigs : Option ℕ) (time : ℕ) (packet : Packet) (a : IpAddress) (p q : ℕ)
      (s : Store I TcpInfo) (f : ℕ) (c : Cache Flow)
      → Handed reset s.flows f c
      → open_flow I proto h1 sigs time packet a p q s
        ≡ ok (
          some f,
          add_flow I f
              (record s { flows = update_flow f (start_flow proto h1 sigs time packet a p q) c }),
        )
  unfolding open_flow
  open_flow-some proto h1 sigs time packet a p q s f c d = ground (arith, d.result, d.alive)

  pub open_flow_cases :
      (proto h1 : ℕ) (sigs : Option ℕ) (time : ℕ) (packet : Packet) (a : IpAddress) (p q : ℕ)
      (s : Store I TcpInfo)
      → IsOwned I s
      → lookup h1 (entries_of I s) ≡ none
      → ((c : Cache Flow) × (open_flow I proto h1 sigs time packet a p q s
            ≡ ok (none, record s { flows = c }))
          × IsOwned I (record s { flows = c })
          × (IsReady s → IsReady (record s { flows = c })))
        ⊎ ((f : ℕ) × (s' : Store I TcpInfo) × (open_flow I proto h1 sigs time packet a p q s
              ≡ ok (some f, s'))
            × Opened h1 p f s s')
  unfolding open_flow lock
  open_flow_cases proto h1 sigs time packet a p q s o new = elim (zero_or_more s.flows.total) [
    | inl none_left ↦ inl (
      (let c = s.flows in record c { total_fails = inc32 c.total_fails }),
      rw (acquire_empty reset s.flows none_left) refl,
      record {
        pool = record { bounded = o.pool.bounded; no_null = o.pool.no_null };
        named = o.named;
        apart = o.apart;
      },
      λ r. record { pool = r.pool; directed = r.directed },
    )
    | inr some_left ↦
        let (f, c, d) = acquire-Handed reset s.flows o.pool some_left in
        let start = start_flow proto h1 sigs time packet a p q in
        let (mid, unheld, unspare) = taken_flow-IsOwned s f c start d o in
        inr (
          f,
          add_flow I f (record s { flows = update_flow f start c }),
          open_flow-some proto h1 sigs time packet a p q s f c d,
          add_flow-Opened h1 p f s (record s { flows = update_flow f start c }) refl
              (taken_flow-IsReady s f c start
                (λ g. (start_flow-hash proto h1 sigs time packet a p q g).2) d)
              mid new (unheld, unspare)
              (ground (arith, start_flow-hash proto h1 sigs time packet a p q (c.heap f))),
        )
  ]
    where
      zero_or_more : (n : ℕ) → (n ≡ 0) ⊎ (0 < n)
      zero_or_more n = omega arith

  -- What the attaching of a `TCPInfo` leaves.
  pub record Attached (f : ℕ) (s s' : Store I TcpInfo) : Type 0 where
    pub owned : IsOwned I s'
    pub ready : IsReady s'
    pub manager_eq : s'.manager ≡ s.manager
    pub port_eq : (s'.flows.heap f).source_port ≡ (s.flows.heap f).source_port

  pub attach-Attached :
      (f : ℕ) (s : Store I TcpInfo)
      → IsOwned I s
      → IsReady s
      → (s' : Store I TcpInfo) × (attach_tcp_info I f s ≡ ok s') × Attached f s s'
  unfolding attach_tcp_info
  attach-Attached f s o ready =
      let (c, there, p) = ready.pool in
      let (r, c', e, p') = acquire-ReadyPool c p in
      elim (Option-cases (lock c' r)) [
        | inl gone ↦ (
          record s { pools = with_pool c' },
          ground (arith, there, e, gone),
          record {
            owned = record { pool = o.pool; named = o.named; apart = o.apart };
            ready = record { pool = (c', refl, p'); directed = ready.directed };
            manager_eq = refl;
            port_eq = refl;
          },
        )
        | inr (i, there') ↦ (
          record s { pools = with_pool c'; flows = update_flow f (link_info i) s.flows },
          ground (arith, there, e, there'),
          record {
            owned =
                update_flow-IsOwned f (link_info i) (record s { pools = with_pool c' }) (λ g. refl)
                  (record { pool = o.pool; named = o.named; apart = o.apart });
            ready = record {
              pool = (c', refl, p');
              directed =
                  update-holds IsDirected s.flows.heap f (link_info i (s.flows.heap f))
                    (ready.directed f) ready.directed;
            };
            manager_eq = refl;
            port_eq = ground arith;
          },
        )
      ]
    where
      with_pool : Cache TcpInfo → CacheManager TcpInfo
      with_pool c' k = if number k == number tcp then some c' else s.pools k

      link_info : ℕ → Flow → Flow
      link_info i g = record g { links = let l = g.links in record l { tcp_info = some i } }
