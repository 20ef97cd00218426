-- ===== src/Names/Split.antt =====
-- `boost::split` at the dots, which `addDomainName` of src/names/DomainNameManager.cc calls: what it
-- is taken to do, and that its tokens are the labels that the search reads.
use mathlib.Core.Path.{ap₂}
use mathlib.Core.List.{reverse-cons, reverse-append, append-nil, append_assoc}
use aiengine_rewritten_clean.Prelude.{
  ◌≡◌, ◌≢◌, refl, sym, ap, ◌∙◌, false, List, [], ◌∷◌, ◌++◌, reverse, ◌==◌, arith, Bytes,
}
use aiengine_rewritten_clean.Names.Lookup.{cut, labels}

abbrev pub NoDot : Bytes → Type 0
NoDot [] = Unit {0}
NoDot (c ∷ text) = ((c == b'.') ≡ false) × NoDot text

abbrev pub NoDots : List Bytes → Type 0
NoDots [] = Unit {0}
NoDots (t ∷ tokens) = NoDot t × NoDots tokens

-- The tokens with a dot between each two.
abbrev pub join : List Bytes → Bytes
join [] = []
join (t ∷ []) = t
join (t ∷ u ∷ tokens) = t ++ (b'.' ∷ join (u ∷ tokens))

-- The tokens are what stands between the dots, empty texts included; there is at least one.
pub record Splits (split : Bytes → List Bytes) : Type 0 where
  pub joined : (text : Bytes) → join (split text) ≡ text
  pub no_dots : (text : Bytes) → NoDots (split text)
  pub some_token : (text : Bytes) → split text ≢ []

cut-NoDot : (t r key : Bytes) → NoDot t → cut (reverse t ++ r) key ≡ cut r (t ++ key)
unfolding cut
cut-NoDot [] r key h = refl
cut-NoDot (c ∷ t) r key h =
    rw (reverse-cons c t, append_assoc (reverse t) (c ∷ []) r)
      (cut-NoDot t (c ∷ r) key h.1 ∙ rw h.0 refl)

cut-dot : (a b key : Bytes) → cut (a ++ (b'.' ∷ b)) key ≡ cut a key ++ cut b []
unfolding cut
cut-dot [] b key = refl
cut-dot (c ∷ a) b key = ground (arith, cut-dot a b [], cut-dot a b (c ∷ key))

labels-join :
    (tokens : List Bytes) → NoDots tokens → tokens ≢ [] → labels (join tokens) ≡ reverse tokens
unfolding labels cut
labels-join [] h ne = absurd (ne refl)
labels-join (t ∷ []) h ne =
    ap (λ x. cut x []) (sym (append-nil (reverse t)))
    ∙ (cut-NoDot t [] [] h.0 ∙ ap (λ x. x ∷ []) (append-nil t))
labels-join (t ∷ u ∷ tokens) h ne =
    let rest = join (u ∷ tokens) in
    let backwards : reverse (t ++ (b'.' ∷ rest)) ≡ reverse rest ++ (b'.' ∷ reverse t) =
      reverse-append t (b'.' ∷ rest)
      ∙ ap (λ x. x ++ reverse t) (reverse-cons b'.' rest)
      ∙ append_assoc (reverse rest) (b'.' ∷ []) (reverse t) in
    let first : cut (reverse t) [] ≡ t ∷ [] =
      ap (λ x. cut x []) (sym (append-nil (reverse t)))
      ∙ cut-NoDot t [] [] h.0
      ∙ ap (λ x. x ∷ []) (append-nil t) in
    ap (λ x. cut x []) backwards
    ∙ cut-dot (reverse rest) (reverse t) []
    ∙ ap₂ ◌++◌ (labels-join (u ∷ tokens) h.1 (λ e. cc)) first
    ∙ sym (reverse-cons t (u ∷ tokens))

-- The labels that the search reads are the tokens, the last one first.
pub labels-split :
    (split : Bytes → List Bytes)
    → Splits split
    → (text : Bytes) → labels text ≡ reverse (split text)
labels-split split s text =
    ap labels (sym (s.joined text)) ∙ labels-join (split text) (s.no_dots text) (s.some_token text)
