-- ===== src/Names/Shadow.antt =====
-- Adding domains and looking names up: src/names/DomainNameManager.cc.
use mathlib.Core.List.{append-nil, append_assoc}
use aiengine_rewritten_clean.Prelude.{
  ℕ, ◌≡◌, ◌≢◌, inl, inr, refl, sym, ap, ◌∙◌, false, none, some, List, [], ◌∷◌, ◌++◌, reverse, arith,
  Bytes, same, Option-cases,
}
use aiengine_rewritten_clean.Names.{
  Node, node, empty_node, domain, kids, have_key, add_path, DomainNameManager, get_domain_name,
  add_domain_name,
}
use aiengine_rewritten_clean.Names.Path.{or_empty, reach, descend, Full, descend-add_path}
use aiengine_rewritten_clean.Names.Lookup.{
  labels, deepest, cut-cons, Stops, deepest-descend_from, get_domain_name-deepest,
}
use aiengine_rewritten_clean.Names.Split.{Splits, labels-split}

add_path-nil :
    (dom : ℕ) (n : Node)
    → (domain (add_path [] dom n) ≡ some dom) × (kids (add_path [] dom n) ≡ kids n)
unfolding add_path
add_path-nil dom (node d ks) = (refl, refl)

root-add :
    (split : Bytes → List Bytes) (s : Splits split) (dom : ℕ) (expression : Bytes)
    (m : DomainNameManager)
    → (add_domain_name split dom expression m).root ≡ add_path (labels expression) dom m.root
unfolding add_domain_name
root-add split s dom expression m =
    ap (λ t. add_path t dom m.root) (sym (labels-split split s expression))

Full-append : (p q : List Bytes) → Full (p ++ q) → Full p
Full-append [] q h = tt
Full-append ([] ∷ p) q h = absurd h
Full-append ((b ∷ bs) ∷ p) q h = Full-append p q h

-- A name whose labels lead to a node of a manager, and stop there, is found with the domain of the node.
found_at :
    (m : DomainNameManager) (name : Bytes) (path rest : List Bytes) (n : Node)
    → labels name ≡ path ++ rest
    → path ≢ []
    → Full path
    → descend path m.root ≡ some n
    → Stops n rest
    → (get_domain_name name m).0 ≡ domain n
found_at m name [] rest n e ne f d h = absurd (ne refl)
found_at m name (k ∷ path) rest n e ne f d h =
    get_domain_name-deepest name m
    ∙ ap (λ l. deepest l m.root none) e
    ∙ deepest-descend_from k path rest m.root n none f d h

Stops-kids : (a b : Node) (rest : List Bytes) → kids a ≡ kids b → Stops b rest → Stops a rest
Stops-kids a b [] e h = tt
Stops-kids a b (k ∷ rest) e h = ap (have_key k) e ∙ h

labels-ne_nil : (name : Bytes) → labels name ≢ []
unfolding labels
labels-ne_nil name e = let (h, path, e') = cut-cons (reverse name) [] in cc

reach-append : (p q : List Bytes) (n m : Node) → descend p n ≡ some m → reach (p ++ q) n ≡ reach q m
unfolding reach descend
reach-append [] q n m e = ap (reach q) (ground arith)
reach-append (k ∷ p) q n m e = elim (Option-cases (have_key k (kids n))) [
  | inl missing ↦ absurd (ground (arith, missing))
  | inr (c, found) ↦ rw (found, reach) (reach-append p q c m (rw (found, descend) at e))
]

Full-suffix : (p q : List Bytes) → Full (p ++ q) → Full q
Full-suffix [] q h = h
Full-suffix ([] ∷ p) q h = absurd h
Full-suffix ((b ∷ bs) ∷ p) q h = Full-suffix p q h

add_path-empty :
    (j h : Bytes) (ks : List Bytes) (dom : ℕ)
    → Full (j ∷ ks)
    → same j h ≡ false
    → (domain (add_path (j ∷ ks) dom empty_node) ≡ none)
      × (have_key h (kids (add_path (j ∷ ks) dom empty_node)) ≡ none)
unfolding add_path have_key
add_path-empty [] h ks dom f ne = absurd f
add_path-empty (b ∷ bs) h ks dom f ne = (refl, rw ne refl)

reach-free :
    (k : Bytes) (a b : Node)
    → kids a ≡ kids b
    → have_key k (kids b) ≡ none
    → reach (k ∷ []) a ≡ empty_node
unfolding reach
reach-free k a b same_kids free = ap or_empty (ap (have_key k) same_kids ∙ free)

append-ne_nil : (p : List Bytes) (k : Bytes) → p ++ k ∷ [] ≢ []
append-ne_nil [] k e = cc
append-ne_nil (j ∷ p) k e = cc

module _ (split : Bytes → List Bytes) (s : Splits split) where
  descend-add :
      (m : DomainNameManager) (dom : ℕ) (expression : Bytes)
      → Full (labels expression)
      → descend (labels expression) (add_domain_name split dom expression m).root
        ≡ some (add_path [] dom (reach (labels expression) m.root))
  descend-add m dom expression f =
      ap (descend (labels expression)) (
        root-add split s dom expression m
        ∙ ap (λ t. add_path t dom m.root) (sym (append-nil (labels expression))))
      ∙ descend-add_path (labels expression) [] dom m.root f

  -- After a domain is added, a name finds it whose last labels are those of the domain's expression
  -- and for whose next label the domain's node has no child: so the expression itself, and every
  -- name under it as long as nothing was added below the domain that shares one more label.
  pub get-add_domain_name :
      (m : DomainNameManager) (dom : ℕ) (expression name : Bytes) (rest : List Bytes)
      → Full (labels expression)
      → labels name ≡ labels expression ++ rest
      → Stops (reach (labels expression) m.root) rest
      → (get_domain_name name (add_domain_name split dom expression m)).0 ≡ some dom
  get-add_domain_name m dom expression name rest f e h =
      let old = reach (labels expression) m.root in
      let new = add_path-nil dom old in
      found_at (add_domain_name split dom expression m) name (labels expression) rest
        (add_path [] dom old) e (labels-ne_nil expression) f (descend-add m dom expression f)
        (Stops-kids (add_path [] dom old) old rest new.1 h)
      ∙ new.0

  -- Neither expression has an empty label, and when the upper domain is added its node has no child
  -- for the label that comes next in the lower expression. Then the lower domain, which is added two
  -- or more labels below the upper one, hides it: a name that shares this label with the lower
  -- expression, and has another label next, was found before, with the upper domain, and is found
  -- no longer, although its last labels are still those of the upper domain.
  pub add_domain_name_hides :
      (m : DomainNameManager) (upper lower : ℕ) (expression below name : Bytes) (k j h : Bytes)
      (ks rest : List Bytes)
      → Full (labels expression)
      → Full (labels below)
      → labels below ≡ labels expression ++ k ∷ j ∷ ks
      → labels name ≡ labels expression ++ k ∷ h ∷ rest
      → have_key k (kids (reach (labels expression) m.root)) ≡ none
      → same j h ≡ false
      → let before = add_domain_name split upper expression m in
        ((get_domain_name name before).0 ≡ some upper)
        × ((get_domain_name name (add_domain_name split lower below before)).0 ≡ none)
  add_domain_name_hides m upper lower expression below name k j h ks rest f fb eb en free ne =
      let q = labels expression in
      let before = add_domain_name split upper expression m in
      let path = q ++ k ∷ [] in
      let n1 = add_path [] upper (reach q m.root) in
      let whole : labels below ≡ path ++ j ∷ ks = eb ∙ sym (append_assoc q (k ∷ []) (j ∷ ks)) in
      let full : Full (path ++ j ∷ ks) = rw whole at fb in
      let fresh : reach path before.root ≡ empty_node =
        reach-append q (k ∷ []) before.root n1 (descend-add m upper expression f)
        ∙ reach-free k n1 (reach q m.root) (add_path-nil upper (reach q m.root)).1 free in
      let there : descend path (add_domain_name split lower below before).root
          ≡ some (add_path (j ∷ ks) lower empty_node) =
        ap (descend path)
          (root-add split s lower below before ∙ ap (λ t. add_path t lower before.root) whole)
        ∙ descend-add_path path (j ∷ ks) lower before.root (Full-append path (j ∷ ks) full)
        ∙ ap (λ n. some (add_path (j ∷ ks) lower n)) fresh in
      let new = add_path-empty j h ks lower (Full-suffix path (j ∷ ks) full) ne in
      (
        get-add_domain_name m upper expression name (k ∷ h ∷ rest) f en free,
        found_at (add_domain_name split lower below before) name path (h ∷ rest) _
              (en ∙ sym (append_assoc q (k ∷ []) (h ∷ rest))) (append-ne_nil q k)
              (Full-append path (j ∷ ks) full) there new.1
            ∙ new.0,
      )
