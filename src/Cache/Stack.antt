-- ===== src/Cache/Stack.antt =====
-- Clients of src/Cache.h that give objects back in the reverse order in which they got them.
use aiengine_rewritten_clean.Prelude.{
  ℕ, zero, suc, ◌+◌, ◌-◌, ◌<◌, ◌≡◌, refl, ap, ◌∙◌, inl, inr, Option, none, some, List, [], ◌∷◌,
  arith, ltb, length, get_elem?, set, Bool-cases, lt→ltb, ltb→lt,
}
use aiengine_rewritten_clean.Cache.{Cache, Outcome, ok, fault, release, acquire, lock}
use aiengine_rewritten_clean.Cache.Inv.{
  get_elem?-holds, IsValid, get_elem?-NoNull, acquire_empty, acquire_top, release-IsValid,
}

-- The client's state: the pool, and the objects it has, the latest first.
pub record Client {ℓ} (A : Type ℓ) : Type ℓ where
  pub pool : Cache A
  pub held : List ℕ

-- What the client does: it asks for an object, or gives the latest one back.
pub data Action : Type 0 where
  take_one give_back : Action

module _ {ℓ} {A : Type ℓ} where
  abbrev receive : List ℕ → Outcome (Option ℕ × Cache A) → Outcome (Client A)
  receive held fault = fault
  receive held (ok (none, c)) = ok (record { pool = c; held = held })
  receive held (ok (some p, c)) = ok (record { pool = c; held = p ∷ held })

  abbrev hand_back : Cache A → List ℕ → Client A
  hand_back c [] = record { pool = c; held = [] }
  hand_back c (p ∷ held) = record { pool = release (some p) c; held = held }

  pub act : (A → A) → Client A → Action → Outcome (Client A)
  act reset s take_one = receive s.held (acquire reset s.pool)
  act reset s give_back = ok (hand_back s.pool s.held)

  pub act_all : (A → A) → Client A → List Action → Outcome (Client A)
  act_all reset s [] = ok s
  act_all reset s (a ∷ as') = elim (act reset s a) [ ok t ↦ act_all reset t as' | fault ↦ fault ]

-- The objects held are those at the positions from `n` on, in order.
abbrev pub Above : List (Option ℕ) → ℕ → List ℕ → Type 0
Above items n [] = n ≡ length items
Above items n (p ∷ ps) = (get_elem? items n ≡ some (some p)) × Above items (n + 1) ps

Above-length :
    (items : List (Option ℕ)) (n : ℕ) (ps : List ℕ)
    → Above items n ps
    → n + length ps ≡ length items
Above-length items n [] h = omega arith
Above-length items n (p ∷ ps) h = omega (arith, Above-length items (n + 1) ps h.1)

-- Writing what a position holds already changes nothing.
set_same : (xs : List (Option ℕ)) (i : ℕ) (a : Option ℕ) → get_elem? xs i ≡ some a → set xs i a ≡ xs
set_same [] i a h = refl
set_same (x ∷ xs) zero a h = cc
set_same (x ∷ xs) (suc i) a h = ap (◌∷◌ x) (set_same xs i a h)

pub record Balanced {ℓ} {A : Type ℓ} (items : List (Option ℕ)) (s : Client A) : Type ℓ where
  pub valid : IsValid s.pool
  pub kept : s.pool.items ≡ items
  pub above : Above items s.pool.total s.held

module _ {ℓ} {A : Type ℓ} where
  take_one-Balanced :
      (reset : A → A) (items : List (Option ℕ)) (s : Client A)
      → Balanced items s
      → (t : Client A) × (act reset s take_one ≡ ok t) × Balanced items t
  unfolding act
  take_one-Balanced reset items s b = elim (Bool-cases (ltb 0 s.pool.total)) [
    | inl some_left ↦
        let (p, e) =
          get_elem?-NoNull s.pool.items (s.pool.total - 1) b.valid.no_null (ground arith) in
        let back : s.pool.total - 1 + 1 ≡ s.pool.total = ground arith in
        (
          _,
          ap (receive s.held) (acquire_top reset s.pool p (ltb→lt 0 s.pool.total some_left) e),
          record {
            valid = record { bounded = omega (arith, b.valid.bounded); no_null = b.valid.no_null };
            kept = b.kept;
            above = (rw b.kept at e, rw back b.above);
          },
        )
    | inr empty ↦ (
      _,
      ap (receive s.held) (acquire_empty reset s.pool (ground arith)),
      record {
        valid = record { bounded = b.valid.bounded; no_null = b.valid.no_null };
        kept = b.kept;
        above = b.above;
      },
    )
  ]

  release-same :
      (c : Cache A) (p : ℕ)
      → c.total < length c.items
      → get_elem? c.items c.total ≡ some (some p)
      → ((release (some p) c).items ≡ c.items) × ((release (some p) c).total ≡ c.total + 1)
  unfolding release
  release-same c p h e =
      rw (lt→ltb c.total (length c.items) h) (set_same c.items c.total (some p) e, refl)

  give_back-Balanced :
      (c : Cache A) (items : List (Option ℕ)) (held : List ℕ)
      → Balanced items (record { pool = c; held = held })
      → Balanced items (hand_back c held)
  give_back-Balanced c items [] b = b
  give_back-Balanced c items (p ∷ held) b =
      let count = Above-length items c.total (p ∷ held) b.above in
      let room : c.total < length c.items = omega (arith, count, ap length b.kept) in
      let same = release-same c p room (rw b.kept b.above.0) in
      record {
        valid = release-IsValid p c b.valid;
        kept = same.0 ∙ b.kept;
        above = rw same.1 b.above.1;
      }

  -- For a client that gives objects back in reverse order of getting them, every sequence of
  -- requests and returns runs with no fault and leaves the vector as it was, and the objects that
  -- the client has are those at the positions from `total_` on.
  pub act_all-Balanced :
      (reset : A → A) (items : List (Option ℕ)) (s : Client A) (actions : List Action)
      → Balanced items s
      → (t : Client A) × (act_all reset s actions ≡ ok t) × Balanced items t
  unfolding act_all act
  act_all-Balanced reset items s [] b = (s, refl, b)
  act_all-Balanced reset items s (take_one ∷ rest) b =
      let (t, e, bt) = take_one-Balanced reset items s b in
      let (u, e2, bu) = act_all-Balanced reset items t rest bt in (u, rw (e, act_all) e2, bu)
  act_all-Balanced reset items s (give_back ∷ rest) b =
      act_all-Balanced reset items (hand_back s.pool s.held) rest
        (give_back-Balanced s.pool items s.held b)

-- Each object of the list is still there when its weak pointer is locked.
abbrev pub AllAlive {ℓ} : {A : Type ℓ} → Cache A → List ℕ → Type 0
AllAlive c [] = Unit {0}
AllAlive c (p ∷ ps) = (lock c (some p) ≡ some p) × AllAlive c ps

Above-AllAlive {ℓ} :
    {A : Type ℓ} (c : Cache A) (n : ℕ) (ps : List ℕ) → Above c.items n ps → AllAlive c ps
unfolding lock
Above-AllAlive c n [] h = tt
Above-AllAlive c n (p ∷ ps) h =
    (rw (get_elem?-holds c.items n p h.0) refl, Above-AllAlive c (n + 1) ps h.1)

-- No object that such a client has is lost: a client that starts with an untouched pool, and gives
-- objects back in reverse order, finds each object that it has alive after any actions.
pub act_all-AllAlive {ℓ} :
    {A : Type ℓ} (reset : A → A) (c : Cache A) (actions : List Action)
    → IsValid c
    → c.total ≡ length c.items
    → (t : Client A) × (act_all reset (record { pool = c; held = [] }) actions ≡ ok t)
      × AllAlive t.pool t.held
      × (t.pool.items ≡ c.items)
act_all-AllAlive reset c actions v full =
    let (t, e, b) =
      act_all-Balanced reset c.items (record { pool = c; held = [] }) actions
        (record { valid = v; kept = refl; above = full }) in
    (t, e, Above-AllAlive t.pool t.pool.total t.held (rw (← b.kept) at b.above), b.kept)
