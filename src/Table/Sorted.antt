-- ===== src/Table/Sorted.antt =====
-- A container with the laws of FlowIndex: a list of entries, where a new one goes after those
-- whose time is not later.
use aiengine_rewritten_clean.Prelude.{
  ℕ, ◌≡◌, refl, ap, inl, inr, false, Option, none, some, List, [], ◌∷◌, ◌++◌, arith, Bool-cases,
  ◌==◌, if◌then◌else◌,
}
use aiengine_rewritten_clean.Prelude.Int.{ℤ, ltb_ℤ, ◌≤ℤ◌}
use aiengine_rewritten_clean.Table.{
  Entry, FlowIndex, Inserted, IsOrdered, IsDistinct, AllTimes, lookup, remove,
}
use aiengine_rewritten_clean.Table.Order.{AllTimes-imp}

abbrev pub place : (ℕ → ℤ) → Entry → List Entry → List Entry
place time e [] = e ∷ []
place time e (f ∷ es) =
    let rest = place time e es in if ltb_ℤ (time e.1) (time f.1) then e ∷ f ∷ es else f ∷ rest

pub record Sorted : Type 0 where
  pub list : List Entry
  pub distinct : IsDistinct list

lookup-place :
    (time : ℕ → ℤ) (e : Entry) (es : List Entry) (h : ℕ)
    → lookup h es ≡ none
    → (e.0 == h) ≡ false
    → lookup h (place time e es) ≡ none
lookup-place time (id, p) [] h miss other = ground arith
lookup-place time (id, p) ((id', q) ∷ es) h miss other =
    ground (arith, lookup-place time (id, p) es h)

pub place-IsDistinct :
    (time : ℕ → ℤ) (e : Entry) (es : List Entry)
    → lookup e.0 es ≡ none
    → IsDistinct es
    → IsDistinct (place time e es)
place-IsDistinct time e [] new d = (refl, tt)
place-IsDistinct time (id, p) ((id', q) ∷ es) new (fresh, d) =
    elim (Bool-cases (ltb_ℤ (time p) (time q))) [
      | inl h ↦ rw h (new, (fresh, d))
      | inr h ↦ rw h (
        lookup-place time (id, p) es id' fresh (ground arith),
        place-IsDistinct time (id, p) es (ground arith) d,
      )
    ]

lookup-remove : (h k : ℕ) (es : List Entry) → lookup k es ≡ none → lookup k (remove h es) ≡ none
lookup-remove h k [] miss = refl
lookup-remove h k ((id, p) ∷ es) miss = ground (arith, lookup-remove h k es)

pub lookup-remove_self : (h : ℕ) (es : List Entry) → lookup h (remove h es) ≡ none
lookup-remove_self h [] = refl
lookup-remove_self h ((id, p) ∷ es) = ground (arith, lookup-remove_self h es)

pub remove-IsDistinct : (h : ℕ) (es : List Entry) → IsDistinct es → IsDistinct (remove h es)
remove-IsDistinct h [] d = tt
remove-IsDistinct h ((id, p) ∷ es) (fresh, d) = elim (Bool-cases (id == h)) [
  | inl e ↦ rw e (remove-IsDistinct h es d)
  | inr e ↦ rw e (lookup-remove h id es fresh, remove-IsDistinct h es d)
]

place-AllTimes :
    (P : ℕ → Type 0) (time : ℕ → ℤ) (e : Entry) (es : List Entry)
    → P e.1
    → AllTimes P es
    → AllTimes P (place time e es)
place-AllTimes P time e [] p ps = (p, tt)
place-AllTimes P time e (f ∷ es) p (q, ps) = elim (Bool-cases (ltb_ℤ (time e.1) (time f.1))) [
  | inl h ↦ rw h (p, (q, ps))
  | inr h ↦ rw h (q, place-AllTimes P time e es p ps)
]

place-IsOrdered :
    (time : ℕ → ℤ) (e : Entry) (es : List Entry)
    → IsOrdered time es
    → IsOrdered time (place time e es)
place-IsOrdered time e [] o = (tt, tt)
place-IsOrdered time e (f ∷ es) (le, o) = elim (Bool-cases (ltb_ℤ (time e.1) (time f.1))) [
  | inl h ↦ rw h (
    (
      ground arith,
      AllTimes-imp (λ q. time f.1 ≤ℤ time q) (λ q. time e.1 ≤ℤ time q) es (λ q k. ground arith) le,
    ),
    (le, o),
  )
  | inr h ↦ rw h (place-AllTimes _ time e es (ground arith) le, place-IsOrdered time e es o)
]

place-split :
    (time : ℕ → ℤ) (e : Entry) (es : List Entry)
    → (before : List Entry) × (after : List Entry) × (es ≡ before ++ after)
      × (place time e es ≡ before ++ (e ∷ after))
place-split time e [] = ([], [], refl, refl)
place-split time e (f ∷ es) = elim (Bool-cases (ltb_ℤ (time e.1) (time f.1))) [
  | inl h ↦ ([], f ∷ es, refl, rw h refl)
  | inr h ↦
      let (before, after, old, new) = place-split time e es in
      (f ∷ before, after, ap (◌∷◌ f) old, rw h (ap (◌∷◌ f) new))
]

pub place-Inserted :
    (time : ℕ → ℤ) (e : Entry) (es : List Entry) → Inserted time e es (place time e es)
place-Inserted time e es =
    let (before, after, old, new) = place-split time e es in
    record {
      before = before;
      after = after;
      old_eq = old;
      new_eq = new;
      ordered = place-IsOrdered time e es;
    }

abbrev insert_if :
    (ℕ → ℤ) → (e : Entry) → (t : Sorted) → (o : Option ℕ) → lookup e.0 t.list ≡ o → Sorted
insert_if time e t (some p) h = t
insert_if time e t none h = record {
  list = place time e t.list;
  distinct = place-IsDistinct time e t.list h t.distinct;
}

pub insert_if-old :
    (time : ℕ → ℤ) (e : Entry) (t : Sorted) (o : Option ℕ) (h : lookup e.0 t.list ≡ o) (p : ℕ)
    → o ≡ some p
    → (insert_if time e t o h).list ≡ t.list
insert_if-old time e t (some q) h p k = refl
insert_if-old time e t none h p k = absurd (ground arith)

pub insert_if-new :
    (time : ℕ → ℤ) (e : Entry) (t : Sorted) (o : Option ℕ) (h : lookup e.0 t.list ≡ o)
    → o ≡ none
    → Inserted time e t.list (insert_if time e t o h).list
insert_if-new time e t (some q) h k = absurd (ground arith)
insert_if-new time e t none h k = place-Inserted time e t.list

abbrev pub sorted_index : FlowIndex
sorted_index = record {
  Table = Sorted;
  entries = λ t. t.list;
  find = λ h t. lookup h t.list;
  insert = λ time e t. insert_if time e t (lookup e.0 t.list) refl;
  erase =
      λ h t. record { list = remove h t.list; distinct = remove-IsDistinct h t.list t.distinct };
  modify = λ time e t. record {
    list = place time e (remove e.0 t.list);
    distinct =
        place-IsDistinct time e (remove e.0 t.list) (lookup-remove_self e.0 t.list)
          (remove-IsDistinct e.0 t.list t.distinct);
  };
  distinct = λ t. t.distinct;
  find_lem = λ h t. refl;
  insert_old = λ time e t p h. insert_if-old time e t _ refl p h;
  insert_new = λ time e t h. insert_if-new time e t _ refl h;
  erase_lem = λ h t. refl;
  modify_lem = λ time e t h. place-Inserted time e (remove e.0 t.list);
}
