-- ===== src/Names.antt =====
-- src/names: the tree of domain names (DomainNode.h) and its manager (DomainNameManager.h and .cc).
--
-- A name is its bytes. A `DomainName` object is an identity, a number; the tree's nodes hold
-- pointers to such objects, `none` for a null one, and the manager holds the objects' counters of
-- matches (`total_matchs_` of src/Signature.h). Each node is reached from its parent alone, so the
-- shared nodes are a tree by value.
pub mod Path
pub mod Lookup
pub mod Split
pub mod Shadow
pub mod Tests
use aiengine_rewritten_clean.Prelude.{
  ℕ, zero, suc, ◌+◌, Bool, true, false, Option, none, some, List, [], ◌∷◌, reverse, ◌==◌, inc32,
  if◌then◌else◌, Bytes, same,
}

-- A `DomainNode`: its domain, and its map from keys to nodes.
mutual
  pub data Node : Type 0 where
    node : Option ℕ → Kids → Node

  pub data Kids : Type 0 where
    nil : Kids
    child : Bytes → Node → Kids → Kids

abbrev pub empty_node : Node
empty_node = node none nil

abbrev pub domain : Node → Option ℕ
domain (node d kids) = d

abbrev pub kids : Node → Kids
kids (node d ks) = ks

-- `haveKey(key)`.
unfoldable pub have_key : Bytes → Kids → Option Node
have_key key nil = none
have_key key (child k n rest) = if same k key then some n else have_key key rest

-- One round of the loop of `addDomainName`: go to the node under the key, which is made if it is
-- not there, and go on from it by `walk`.
unfoldable pub under : Bytes → (Node → Node) → Kids → Kids
under key walk nil = child key (walk empty_node) nil
under key walk (child k n rest) =
    if same k key then child k (walk n) rest else child k n (under key walk rest)

-- The loop over the tokens, the last one first; empty tokens are passed over. At the end the node
-- gets the domain.
unfoldable pub add_path : List Bytes → ℕ → Node → Node
unfolding under
add_path [] dom (node d ks) = node (some dom) ks
add_path ([] ∷ tokens) dom n = add_path tokens dom n
add_path ((b ∷ bs) ∷ tokens) dom (node d ks) = node d (under (b ∷ bs) (add_path tokens dom) ks)

pub record DomainNameManager : Type 0 where
  pub root : Node
  pub total_domains : ℕ
  pub matchs : ℕ → ℕ

-- `addDomainName(domain)` for a domain with the given expression. `split` is `boost::split` at the
-- dots.
unfoldable pub add_domain_name :
    (Bytes → List Bytes) → ℕ → Bytes → DomainNameManager → DomainNameManager
add_domain_name split dom expression m = record m {
  root = add_path (reverse (split expression)) dom m.root;
  total_domains = inc32 m.total_domains;
}

-- `incrementMatchs()` on the candidate, if there is one.
unfoldable pub increment_matchs : Option ℕ → DomainNameManager → DomainNameManager
increment_matchs none m = m
increment_matchs (some d) m = record m {
  matchs = λ e. if e == d then inc32 (m.matchs e) else m.matchs e;
}

-- What the search returns, and whether it counts a match.
pub record Found : Type 0 where
  pub candidate : Option ℕ
  pub counted : Bool

-- After the loop: the first label of the name.
unfoldable pub last_label : Bytes → Node → Option ℕ → Found
last_label [] curr candidate = record { candidate = candidate; counted = false }
last_label (b ∷ bs) curr candidate = elim (have_key (b ∷ bs) (kids curr)) [
  | some n ↦ record { candidate = domain n; counted = true }
  | none ↦ record { candidate = candidate; counted = true }
]

-- The loop of `getDomainName` over the name's bytes from the last one: `key` is the text between
-- `idx` and the dot behind it.
unfoldable pub search_name : Bytes → Bytes → Node → Option ℕ → Found
unfolding last_label
search_name [] key curr candidate = last_label key curr candidate
search_name (c ∷ rest) key curr candidate =
    let skip = search_name rest (c ∷ key) curr candidate in
    if c == b'.'
    then elim (have_key key (kids curr)) [
      | some n ↦ search_name rest [] n (domain n)
      | none ↦ record { candidate = candidate; counted = true }
    ]
    else skip

-- `getDomainName(name)`.
unfoldable pub get_domain_name : Bytes → DomainNameManager → Option ℕ × DomainNameManager
get_domain_name name m =
    let found = search_name (reverse name) [] m.root none in
    (found.candidate, if found.counted then increment_matchs found.candidate m else m)
