-- ===== src/Tcp/Ready.antt =====
-- What the segments of src/protocols/tcp need of the store: a valid pool of `TCPInfo` objects, each
-- in a state of the diagram, and flows with a direction.
use aiengine_rewritten_clean.Prelude.{
  ℕ, ◌<◌, ◌≡◌, refl, ◌⊎◌, inl, inr, Bool-cases, Option, none, some, arith, inc32, ◌==◌,
}
use aiengine_rewritten_clean.Prelude.Int.{pos}
use aiengine_rewritten_clean.Cache.{Cache, ok, acquire, update}
use aiengine_rewritten_clean.Cache.Inv.{IsValid, acquire_empty}
use aiengine_rewritten_clean.Flow.{Flow}
use aiengine_rewritten_clean.Release.{tcp}
use aiengine_rewritten_clean.Table.{FlowIndex, Store}
use aiengine_rewritten_clean.Table.Owned.{acquire-Handed}
use aiengine_rewritten_clean.Tcp.Info.{TcpInfo, reset}
use aiengine_rewritten_clean.Tcp.Machine.{State, closed, number, Side, side}
use aiengine_rewritten_clean.Tcp.Process.{direction_index}

-- The record is in a state of the diagram; the flow has a direction.
abbrev pub InDiagram : TcpInfo → Type 0
InDiagram info = (s : State) × (info.state_curr ≡ pos (number s))

abbrev pub IsDirected : Flow → Type 0
IsDirected f = (d : Side) × (direction_index f.direction ≡ side d)

pub record ReadyPool (c : Cache TcpInfo) : Type 0 where
  pub valid : IsValid c
  pub states : (i : ℕ) → InDiagram (c.heap i)

pub record IsReady {I : FlowIndex} (s : Store I TcpInfo) : Type 0 where
  pub pool : (c : Cache TcpInfo) × (s.pools tcp ≡ some c) × ReadyPool c
  pub directed : (q : ℕ) → IsDirected (s.flows.heap q)

-- One object is changed, to one that has the property.
pub update-holds {ℓ κ} :
    {A : Type ℓ} (P : A → Type κ) (h : ℕ → A) (p : ℕ) (a : A)
    → P a
    → ((q : ℕ) → P (h q))
    → (q : ℕ) → P (update h p a q)
update-holds P h p a new old q = elim (Bool-cases (p == q)) [
  | inl here ↦ rw here new
  | inr there ↦ rw there (old q)
]

pub acquire-ReadyPool :
    (c : Cache TcpInfo)
    → ReadyPool c
    → (o : Option ℕ) × (c' : Cache TcpInfo) × (acquire reset c ≡ ok (o, c')) × ReadyPool c'
acquire-ReadyPool c r = elim (zero_or_more c.total) [
  | inl none_left ↦ (
    none,
    record c { total_fails = inc32 c.total_fails },
    acquire_empty reset c none_left,
    record {
      valid = record { bounded = r.valid.bounded; no_null = r.valid.no_null };
      states = r.states;
    },
  )
  | inr some_left ↦
      let (p, c', d) = acquire-Handed reset c r.valid some_left in
      (
        some p,
        c',
        d.result,
        record {
          valid = d.valid;
          states = λ i.
              rw d.content
                (update-holds InDiagram c.heap p (reset (c.heap p)) (closed, refl) r.states i);
        },
      )
]
  where
    zero_or_more : (n : ℕ) → (n ≡ 0) ⊎ (0 < n)
    zero_or_more n = omega arith
