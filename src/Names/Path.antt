-- ===== src/Names/Path.antt =====
-- The tree of src/names as a map from paths, lists of labels from the root, to nodes.
use mathlib.Core.Path.{subst}
use aiengine_rewritten_clean.Prelude.{
  ℕ, ◌≡◌, refl, ap, inl, inr, Bool, true, false, ◌&&◌, Option, none, some, List, [], ◌∷◌, ◌++◌,
  if◌then◌else◌, arith, Bool-cases, Option-cases, Bytes, same, same-eq, same_refl,
}
use aiengine_rewritten_clean.Names.{
  Node, node, Kids, nil, child, empty_node, domain, kids, have_key, under, add_path,
}

-- The node under a key, made if it is not there.
abbrev pub or_empty : Option Node → Node
or_empty none = empty_node
or_empty (some n) = n

have_key-under_self :
    (key : Bytes) (walk : Node → Node) (ks : Kids)
    → have_key key (under key walk ks) ≡ some (walk (or_empty (have_key key ks)))
unfolding have_key under
have_key-under_self key walk nil = rw same_refl refl
have_key-under_self key walk (child k n rest) = elim (Bool-cases (same k key)) [
  | inl e ↦ ground (arith, e)
  | inr ne ↦ ground (arith, ne, have_key-under_self key walk rest)
]

have_key-under_eq :
    (j key : Bytes) (walk : Node → Node) (ks : Kids)
    → same key j ≡ true
    → have_key j (under key walk ks) ≡ some (walk (or_empty (have_key j ks)))
have_key-under_eq j key walk ks h =
    subst (λ x. have_key x (under key walk ks) ≡ some (walk (or_empty (have_key x ks))))
      (same-eq key j h) (have_key-under_self key walk ks)

have_key-under_ne :
    (j key : Bytes) (walk : Node → Node) (ks : Kids)
    → same key j ≡ false
    → have_key j (under key walk ks) ≡ have_key j ks
unfolding have_key under
have_key-under_ne j key walk nil h = rw h refl
have_key-under_ne j key walk (child k n rest) h = elim (Bool-cases (same k key)) [
  | inl e ↦ let e' = same-eq k key e in ground (arith, e, e', h)
  | inr ne ↦ ground (arith, ne, have_key-under_ne j key walk rest h)
]

-- The node at a path, empty where there is none.
unfoldable pub reach : List Bytes → Node → Node
reach [] n = n
reach (k ∷ path) n = reach path (or_empty (have_key k (kids n)))

-- The node at a path, if there is one.
unfoldable pub descend : List Bytes → Node → Option Node
descend [] n = some n
descend (k ∷ path) n = elim (have_key k (kids n)) [ some m ↦ descend path m | none ↦ none ]

pub same_path : List Bytes → List Bytes → Bool
same_path [] [] = true
same_path [] (k ∷ ks) = false
same_path (j ∷ js) [] = false
same_path (j ∷ js) (k ∷ ks) = same k j && same_path js ks

-- The labels of an expression's tokens: those that are not empty.
unfoldable pub labels_of : List Bytes → List Bytes
labels_of [] = []
labels_of ([] ∷ tokens) = labels_of tokens
labels_of ((b ∷ bs) ∷ tokens) = (b ∷ bs) ∷ labels_of tokens

reach-empty : (path : List Bytes) → reach path empty_node ≡ empty_node
unfolding reach have_key
reach-empty [] = refl
reach-empty (k ∷ path) = reach-empty path

-- Adding a domain sets the domain at the path of its labels, and leaves every other path as it was.
pub domain-add_path :
    (path tokens : List Bytes) (dom : ℕ) (n : Node)
    → domain (reach path (add_path tokens dom n))
      ≡ (if same_path path (labels_of tokens) then some dom else domain (reach path n))
unfolding add_path reach same_path labels_of
domain-add_path [] [] dom (node d ks) = refl
domain-add_path (j ∷ path) [] dom (node d ks) = refl
domain-add_path path ([] ∷ tokens) dom n = domain-add_path path tokens dom n
domain-add_path [] ((b ∷ bs) ∷ tokens) dom (node d ks) = refl
domain-add_path (j ∷ path) ((b ∷ bs) ∷ tokens) dom (node d ks) =
    elim (Bool-cases (same (b ∷ bs) j)) [
      | inl e ↦
          rw (have_key-under_eq j (b ∷ bs) (add_path tokens dom) ks e, e)
            (domain-add_path path tokens dom (or_empty (have_key j ks)))
      | inr ne ↦ rw (have_key-under_ne j (b ∷ bs) (add_path tokens dom) ks ne, ne) refl
    ]

pub descend-append :
    (p q : List Bytes) (n m : Node) → descend p n ≡ some m → descend (p ++ q) n ≡ descend q m
unfolding descend
descend-append [] q n m h = ground arith
descend-append (k ∷ p) q n m h = elim (Option-cases (have_key k (kids n))) [
  | inl e ↦ absurd (ground (arith, e))
  | inr (c, e) ↦ rw (e, descend) (descend-append p q c m (rw (e, descend) at h))
]

-- No label is empty.
abbrev pub Full : List Bytes → Type 0
Full [] = Unit {0}
Full ([] ∷ path) = ⊥
Full ((b ∷ bs) ∷ path) = Full path

pub labels_of-Full : (path : List Bytes) → Full path → labels_of path ≡ path
unfolding labels_of
labels_of-Full [] h = refl
labels_of-Full ([] ∷ path) h = absurd h
labels_of-Full ((b ∷ bs) ∷ path) h = ap (◌∷◌ (b ∷ bs)) (labels_of-Full path h)

-- A part of an added path is there, and under it the rest of the path is added.
pub descend-add_path :
    (path rest : List Bytes) (dom : ℕ) (n : Node)
    → Full path
    → descend path (add_path (path ++ rest) dom n) ≡ some (add_path rest dom (reach path n))
unfolding descend add_path reach
descend-add_path [] rest dom n h = refl
descend-add_path ([] ∷ path) rest dom n h = absurd h
descend-add_path ((b ∷ bs) ∷ path) rest dom (node d ks) h =
    rw (have_key-under_self (b ∷ bs) (add_path (path ++ rest) dom) ks, descend)
      (descend-add_path path rest dom (or_empty (have_key (b ∷ bs) ks)) h)
