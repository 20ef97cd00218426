-- ===== src/Names/Tests.antt =====
-- The theorems on src/names at concrete managers, with a concrete function for `boost::split`.
use aiengine_rewritten_clean.Prelude.{
  ℕ, ◌≡◌, ◌≢◌, refl, ap, ◌∙◌, inl, inr, false, none, some, List, [], ◌∷◌, reverse, if◌then◌else◌,
  ◌==◌, arith, Bytes, same, Bool-cases,
}
use aiengine_rewritten_clean.Names.{
  empty_node, domain, have_key, add_path, DomainNameManager, get_domain_name, add_domain_name,
}
use aiengine_rewritten_clean.Names.Path.{reach, same_path, labels_of, domain-add_path}
use aiengine_rewritten_clean.Names.Lookup.{labels, deepest, get_domain_name-deepest}
use aiengine_rewritten_clean.Names.Split.{NoDots, join, Splits, labels-split}
use aiengine_rewritten_clean.Names.Shadow.{get-add_domain_name, add_domain_name_hides}

abbrev on_first : ℕ → List Bytes → List Bytes
on_first c [] = (c ∷ []) ∷ []
on_first c (t ∷ tokens) = (c ∷ t) ∷ tokens

-- The texts between the dots.
unfoldable split_dots : Bytes → List Bytes
split_dots [] = [] ∷ []
split_dots (c ∷ text) =
    let rest = split_dots text in if c == b'.' then [] ∷ rest else on_first c rest

split_dots-ne_nil : (text : Bytes) → split_dots text ≢ []
unfolding split_dots
split_dots-ne_nil [] e = cc
split_dots-ne_nil (c ∷ text) e = elim (Bool-cases (c == b'.')) [
  | inl dot ↦ absurd (ground (arith, dot))
  | inr other ↦ absurd (on_first-ne_nil (split_dots text) (rw other at e))
]
  where
    on_first-ne_nil : (tokens : List Bytes) → on_first c tokens ≢ []
    on_first-ne_nil [] h = cc
    on_first-ne_nil (t ∷ tokens) h = cc

join-dot : (tokens : List Bytes) → tokens ≢ [] → join ([] ∷ tokens) ≡ b'.' ∷ join tokens
join-dot [] ne = absurd (ne refl)
join-dot (t ∷ tokens) ne = refl

join-on_first :
    (c : ℕ) (tokens : List Bytes) → tokens ≢ [] → join (on_first c tokens) ≡ c ∷ join tokens
join-on_first c [] ne = absurd (ne refl)
join-on_first c (t ∷ []) ne = refl
join-on_first c (t ∷ u ∷ tokens) ne = refl

join-split_dots : (text : Bytes) → join (split_dots text) ≡ text
unfolding split_dots
join-split_dots [] = refl
join-split_dots (c ∷ text) = elim (Bool-cases (c == b'.')) [
  | inl dot ↦ rw dot (
      join-dot (split_dots text) (split_dots-ne_nil text)
      ∙ rw (join-split_dots text) (ground (arith, dot)))
  | inr other ↦ rw other (
      join-on_first c (split_dots text) (split_dots-ne_nil text)
      ∙ ap (◌∷◌ c) (join-split_dots text))
]

NoDots-on_first :
    (c : ℕ) (tokens : List Bytes) → (c == b'.') ≡ false → NoDots tokens → NoDots (on_first c tokens)
NoDots-on_first c [] other h = ((other, tt), tt)
NoDots-on_first c (t ∷ tokens) other h = ((other, h.0), h.1)

NoDots-split_dots : (text : Bytes) → NoDots (split_dots text)
unfolding split_dots
NoDots-split_dots [] = (tt, tt)
NoDots-split_dots (c ∷ text) = elim (Bool-cases (c == b'.')) [
  | inl dot ↦ rw dot (tt, NoDots-split_dots text)
  | inr other ↦ rw other (NoDots-on_first c (split_dots text) other (NoDots-split_dots text))
]

abbrev dots : Splits split_dots
dots = record {
  joined = join-split_dots;
  no_dots = NoDots-split_dots;
  some_token = split_dots-ne_nil;
}

abbrev no_names : DomainNameManager
no_names = record { root = empty_node; total_domains = 0; matchs = λ d. 0 }

-- `a.b`, `x.a.b`, `x.y.b` and `z.x.b`.
abbrev a_b : Bytes
a_b = b'a' ∷ b'.' ∷ b'b' ∷ []

abbrev x_a_b : Bytes
x_a_b = b'x' ∷ b'.' ∷ a_b

abbrev one_name : DomainNameManager
one_name = add_domain_name split_dots 7 a_b no_names

domain-add_path_example :
    domain (reach ((b'b' ∷ []) ∷ []) (add_path ((b'b' ∷ []) ∷ [] ∷ []) 3 empty_node)) ≡ (
      if same_path ((b'b' ∷ []) ∷ []) (labels_of ((b'b' ∷ []) ∷ [] ∷ []))
      then some 3
      else domain (reach ((b'b' ∷ []) ∷ []) empty_node))
domain-add_path_example = domain-add_path ((b'b' ∷ []) ∷ []) ((b'b' ∷ []) ∷ [] ∷ []) 3 empty_node

get_domain_name-deepest_example :
    (get_domain_name x_a_b one_name).0 ≡ deepest (labels x_a_b) one_name.root none
get_domain_name-deepest_example = get_domain_name-deepest x_a_b one_name

labels-split_example : labels x_a_b ≡ reverse (split_dots x_a_b)
labels-split_example = labels-split split_dots dots x_a_b

get-add_domain_name_example :
    (get_domain_name x_a_b (add_domain_name split_dots 7 a_b no_names)).0 ≡ some 7
unfolding labels reach have_key
get-add_domain_name_example =
    get-add_domain_name split_dots dots no_names 7 a_b x_a_b ((b'x' ∷ []) ∷ []) tt refl refl

-- `b` and then `x.a.b`: `z.a.b` is hidden.
add_domain_name_hides_example :
    let before = add_domain_name split_dots 1 (b'b' ∷ []) no_names in
    ((get_domain_name (b'z' ∷ b'.' ∷ a_b) before).0 ≡ some 1)
    × ((get_domain_name (b'z' ∷ b'.' ∷ a_b) (add_domain_name split_dots 2 x_a_b before)).0 ≡ none)
unfolding labels reach have_key same
add_domain_name_hides_example =
    add_domain_name_hides split_dots dots no_names 1 2 (b'b' ∷ []) x_a_b (b'z' ∷ b'.' ∷ a_b)
      (b'a' ∷ []) (b'x' ∷ []) (b'z' ∷ []) [] [] tt tt refl refl refl refl
