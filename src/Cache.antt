-- ===== src/Cache.antt =====
-- src/Cache.h: the object pool `Cache<A_Type>`, and `StringCache` of src/StringCache.h.
--
-- An object is an identity, a number; a shared pointer to it is `some p`, a null one `none`.
-- `items_` keeps strong references, also of the objects that are handed out: those lie at the
-- positions from `total_` on, and the client gets a weak pointer only. `heap` holds the objects'
-- contents and `fresh` the identity that the next `new A_Type()` gets. `total_` is a size_t that
-- stays below the size of `items_`; the three event counters are 32-bit and wrap.
pub mod Inv
pub mod Stack
pub mod Faults
pub mod Tests
use aiengine_rewritten_clean.Prelude.{
  ℕ, zero, suc, ◌+◌, ◌-◌, ◌≤◌, Option, none, some, List, [], ◌∷◌, ◌++◌, Bool, true, false, ◌||◌,
  inc32, ltb, ◌==◌, if◌then◌else◌, length, get_elem?, set, take, drop,
}
use aiengine_rewritten_clean.Prelude.Int.{ℤ, pos, negsuc}

pub record Cache {ℓ} (A : Type ℓ) : Type ℓ where
  pub items : List (Option ℕ)
  pub total : ℕ
  pub total_acquires : ℕ
  pub total_releases : ℕ
  pub total_fails : ℕ
  pub heap : ℕ → A
  pub fresh : ℕ

-- What a call does: it returns, or it reads through a null pointer or past the vector's end.
pub data Outcome {ℓ} (B : Type ℓ) : Type ℓ where
  ok : B → Outcome B
  fault : Outcome B

infixl 5 ◌>>=◌
abbrev pub ◌>>=◌ {ℓ κ} : {B : Type ℓ} {C : Type κ} → Outcome B → (B → Outcome C) → Outcome C
ok b >>= f = f b
fault >>= f = fault

abbrev pub update {ℓ} : {A : Type ℓ} → (ℕ → A) → ℕ → A → ℕ → A
update h p a q = if p == q then a else h q

-- The constructor: an empty pool. No object exists, so the contents given are never read.
abbrev pub init {ℓ} : {A : Type ℓ} → A → Cache A
init a = record {
  items = [];
  total = 0;
  total_acquires = 0;
  total_releases = 0;
  total_fails = 0;
  heap = λ p. a;
  fresh = 0;
}

-- `items_` holds a strong reference to the object.
unfoldable pub holds : List (Option ℕ) → ℕ → Bool
holds [] p = false
holds (none ∷ xs) p = holds xs p
holds (some q ∷ xs) p = q == p || holds xs p

module _ {ℓ} {A : Type ℓ} where
  -- `release(a)`: nothing happens to a pool that is full.
  unfoldable pub release : Option ℕ → Cache A → Cache A
  release a c =
      if ltb c.total (length c.items)
      then record c {
        total_releases = inc32 c.total_releases;
        total = c.total + 1;
        items = set c.items c.total a;
      }
      else c

  -- `lock()` of a weak pointer to an object that nothing but the pool keeps.
  unfoldable pub lock : Cache A → Option ℕ → Option ℕ
  unfolding holds
  lock c none = none
  lock c (some p) = if holds c.items p then some p else none

  -- The branch of `acquire()` with an item left: `items_[total_-1]`, which `a.lock()->reset()`
  -- dereferences. `reset` is the object's own method.
  unfoldable pub hand_out : (A → A) → Cache A → Option (Option ℕ) → Outcome (Option ℕ × Cache A)
  hand_out reset c none = fault
  hand_out reset c (some none) = fault
  hand_out reset c (some (some p)) = ok (
    some p,
    record c {
      heap = update c.heap p (reset (c.heap p));
      total_acquires = inc32 c.total_acquires;
      total = c.total - 1;
    },
  )

  -- `acquire()`. `none` is the empty weak pointer of a pool with nothing left.
  unfoldable pub acquire : (A → A) → Cache A → Outcome (Option ℕ × Cache A)
  unfolding hand_out
  acquire reset c =
      if ltb 0 c.total
      then hand_out reset c (get_elem? c.items (c.total - 1))
      else ok (none, record c { total_fails = inc32 c.total_fails })

  -- The loop of `create(number)`: the new item goes to the end of the vector, `total_` counts it.
  unfoldable pub create_loop : A → ℕ → Cache A → Cache A
  create_loop blank zero c = c
  create_loop blank (suc n) c = create_loop blank n (record c {
    items = c.items ++ some c.fresh ∷ [];
    total = c.total + 1;
    heap = update c.heap c.fresh blank;
    fresh = suc c.fresh;
  })

  -- `create(int number)`; `blank` is the object that the constructor makes.
  unfoldable pub create : A → ℤ → Cache A → Cache A
  unfolding create_loop
  create blank (pos n) c = create_loop blank n c
  create blank (negsuc n) c = c

  -- The loop of `destroy(number)`: `erase` takes out the item at `total_ - 1`.
  unfoldable pub destroy_loop : ℕ → Cache A → Cache A
  destroy_loop zero c = c
  destroy_loop (suc n) c =
      destroy_loop n (record c {
        items = take (c.total - 1) c.items ++ drop c.total c.items;
        total = c.total - 1;
      })

  -- `destroy(int number)`: a negative number is a large size_t, so it takes all that are left.
  unfoldable pub destroy : ℤ → Cache A → Cache A
  unfolding destroy_loop
  destroy (pos n) c = destroy_loop (if ltb c.total n then c.total else n) c
  destroy (negsuc n) c = destroy_loop c.total c

-- The content of a `StringCache`, as bytes: `reset()` empties it.
abbrev pub StringCache : Type 0
StringCache = List ℕ

abbrev pub reset_string : StringCache → StringCache
reset_string s = []

-- `setName(name, length)` copies the bytes in.
unfoldable pub set_name : Cache StringCache → ℕ → StringCache → Cache StringCache
set_name c p name = record c { heap = update c.heap p name }
