-- ===== src/Names/Lookup.antt =====
-- What `getDomainName` of src/names/DomainNameManager.cc returns: the domain of the deepest node on
-- the path of the name's labels.
use aiengine_rewritten_clean.Prelude.{
  ℕ, ◌≡◌, ◌≢◌, refl, inl, inr, true, Option, none, some, List, [], ◌∷◌, ◌++◌, reverse,
  if◌then◌else◌, ◌==◌, arith, Bool-cases, Option-cases, Bytes, inc32,
}
use aiengine_rewritten_clean.Names.{
  Node, domain, kids, have_key, DomainNameManager, search_name, last_label, get_domain_name,
  increment_matchs,
}
use aiengine_rewritten_clean.Names.Path.{descend, Full}

-- Cut a text that is given backwards at the dots: `key` is the label that is being read.
unfoldable pub cut : Bytes → Bytes → List Bytes
cut [] key = key ∷ []
cut (c ∷ rest) key =
    let done = key ∷ cut rest [] in let on = cut rest (c ∷ key) in if c == b'.' then done else on

-- The labels of a name, the last one first.
unfoldable pub labels : Bytes → List Bytes
unfolding cut
labels name = cut (reverse name) []

-- Follow the labels as far as there are nodes, and take the domain of the last one. An empty first
-- label of the name is not looked up.
unfoldable pub deepest : List Bytes → Node → Option ℕ → Option ℕ
deepest [] n candidate = candidate
deepest ([] ∷ []) n candidate = candidate
deepest (k ∷ path) n candidate = elim (have_key k (kids n)) [
  | some m ↦ deepest path m (domain m)
  | none ↦ candidate
]

deepest-more :
    (k h : Bytes) (path : List Bytes) (n : Node) (candidate : Option ℕ)
    → deepest (k ∷ h ∷ path) n candidate
      ≡ elim (have_key k (kids n)) [ some m ↦ deepest (h ∷ path) m (domain m) | none ↦ candidate ]
unfolding deepest
deepest-more [] h path n candidate = refl
deepest-more (b ∷ bs) h path n candidate = refl

pub cut-cons :
    (backwards key : Bytes) → (h : Bytes) × (path : List Bytes) × (cut backwards key ≡ h ∷ path)
unfolding cut
cut-cons [] key = (key, [], refl)
cut-cons (c ∷ rest) key = elim (Bool-cases (c == b'.')) [
  | inl dot ↦ (key, cut rest [], rw dot refl)
  | inr other ↦ let (h, path, e) = cut-cons rest (c ∷ key) in (h, path, rw other e)
]

search_name-dot :
    (rest key : Bytes) (c : ℕ) (n : Node) (candidate : Option ℕ)
    → (c == b'.') ≡ true
    → ((m : Node)
        → (search_name rest [] m (domain m)).candidate ≡ deepest (cut rest []) m (domain m))
    → (search_name (c ∷ rest) key n candidate).candidate ≡ deepest (cut (c ∷ rest) key) n candidate
unfolding search_name cut
search_name-dot rest key c n candidate dot ih =
    let (h, path, e) = cut-cons rest [] in
    let spec = deepest-more key h path n candidate in
    elim (Option-cases (have_key key (kids n))) [
      | inl missing ↦ rw (dot, e, spec, missing) refl
      | inr (m, found) ↦ rw (dot, e, spec, found) (rw e at (ih m))
    ]

search_name-deepest :
    (backwards key : Bytes) (n : Node) (candidate : Option ℕ)
    → (search_name backwards key n candidate).candidate ≡ deepest (cut backwards key) n candidate
unfolding search_name cut deepest last_label
search_name-deepest [] [] n candidate = refl
search_name-deepest [] (b ∷ bs) n candidate = ground arith
search_name-deepest (c ∷ rest) key n candidate = elim (Bool-cases (c == b'.')) [
  | inl dot ↦
      search_name-dot rest key c n candidate dot (λ m. search_name-deepest rest [] m (domain m))
  | inr other ↦ rw other (search_name-deepest rest (c ∷ key) n candidate)
]

-- The search is the walk over the labels: it returns the domain of the deepest node that they lead
-- to, which is none if that node has no domain, whatever the nodes above it have.
pub get_domain_name-deepest :
    (name : Bytes) (m : DomainNameManager)
    → (get_domain_name name m).0 ≡ deepest (labels name) m.root none
unfolding get_domain_name labels
get_domain_name-deepest name m = search_name-deepest (reverse name) [] m.root none

-- The node has no child for the first of the labels.
abbrev pub Stops : Node → List Bytes → Type 0
Stops m [] = Unit {0}
Stops m (k ∷ rest) = have_key k (kids m) ≡ none

deepest-Stops :
    (m : Node) (rest : List Bytes) (candidate : Option ℕ)
    → Stops m rest
    → deepest rest m candidate ≡ candidate
unfolding deepest
deepest-Stops m [] candidate h = refl
deepest-Stops m ([] ∷ []) candidate h = refl
deepest-Stops m ([] ∷ k ∷ rest) candidate h = rw (h, deepest) refl
deepest-Stops m ((b ∷ bs) ∷ rest) candidate h = rw (h, deepest) refl

-- The walk along a path that is there and then ends returns the domain of the path's node.
pub deepest-descend :
    (path rest : List Bytes) (n m : Node)
    → Full path
    → descend path n ≡ some m
    → Stops m rest
    → deepest (path ++ rest) n (domain n) ≡ domain m
unfolding deepest descend
deepest-descend [] rest n m f e h =
    let same : n ≡ m = cc in rw same (deepest-Stops m rest (domain m) h)
deepest-descend ([] ∷ path) rest n m f e h = absurd f
deepest-descend ((b ∷ bs) ∷ path) rest n m f e h =
    elim (Option-cases (have_key (b ∷ bs) (kids n))) [
      | inl missing ↦ absurd (ground (arith, missing))
      | inr (c, found) ↦
          rw (found, deepest) (deepest-descend path rest c m f (rw (found, descend) at e) h)
    ]

pub deepest-descend_from :
    (k : Bytes) (path rest : List Bytes) (n m : Node) (candidate : Option ℕ)
    → Full (k ∷ path)
    → descend (k ∷ path) n ≡ some m
    → Stops m rest
    → deepest (k ∷ (path ++ rest)) n candidate ≡ domain m
unfolding deepest descend
deepest-descend_from [] path rest n m candidate f e h = absurd f
deepest-descend_from (b ∷ bs) path rest n m candidate f e h =
    elim (Option-cases (have_key (b ∷ bs) (kids n))) [
      | inl missing ↦ absurd (ground (arith, missing))
      | inr (c, found) ↦
          rw (found, deepest) (deepest-descend path rest c m f (rw (found, descend) at e) h)
    ]

-- What a search leaves: the tree is as it was, and one match is counted for the domain that is
-- returned, unless the name is empty or begins with a dot and the search comes to its end.
get_domain_name-matchs :
    (name : Bytes) (m : DomainNameManager) (e : ℕ)
    → ((get_domain_name name m).1.root ≡ m.root)
      × ((get_domain_name name m).0 ≢ some e → (get_domain_name name m).1.matchs e ≡ m.matchs e)
      × ((get_domain_name name m).0 ≡ some e
          → (search_name (reverse name) [] m.root none).counted ≡ true
          → (get_domain_name name m).1.matchs e ≡ inc32 (m.matchs e))
unfolding get_domain_name increment_matchs
get_domain_name-matchs name m e = (ground arith, λ h. ground arith, λ h c. ground arith)
