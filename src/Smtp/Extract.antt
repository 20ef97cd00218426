-- ===== src/Smtp/Extract.antt =====
-- The address of a MAIL command, as src/protocols/smtp/SMTPProtocol.cc cuts it out.
use mathlib.Core.List.{append_assoc}
use aiengine_rewritten_clean.Prelude.{
  ℕ, suc, ◌+◌, ◌-◌, ◌%◌, ◌^◌, ◌≤◌, ◌<◌, ◌≡◌, refl, sym, ap, ◌∙◌, false, some, [], ◌∷◌, ◌++◌, arith,
  ◌==◌, if◌then◌else◌, ltb, Bytes, length, length-append, take, drop,
}
use aiengine_rewritten_clean.Smtp.Address.{
  npos, find_from, rfind_from, find, rfind, between, mail_address,
}

-- The byte does not occur.
abbrev pub Without : ℕ → Bytes → Type 0
Without c [] = Unit {0}
Without c (b ∷ text) = ((b == c) ≡ false) × Without c text

pub find_from-here :
    (i c : ℕ) (p rest : Bytes) → Without c p → find_from i c (p ++ (c ∷ rest)) ≡ i + length p
unfolding find_from
find_from-here i c [] rest h = ground arith
find_from-here i c (b ∷ p) rest h = rw h.0 (find_from-here (i + 1) c p rest h.1 ∙ omega arith)

rfind_from-Without :
    (last i c : ℕ) (text : Bytes) → Without c text → rfind_from last i c text ≡ last
unfolding rfind_from
rfind_from-Without last i c [] h = refl
rfind_from-Without last i c (b ∷ text) h = rw h.0 (rfind_from-Without last (i + 1) c text h.1)

rfind_from-here :
    (c : ℕ) (p rest : Bytes) (last i : ℕ)
    → Without c rest
    → rfind_from last i c (p ++ (c ∷ rest)) ≡ i + length p
unfolding rfind_from
rfind_from-here c [] rest last i h =
    let hit : (if c == c then i else last) ≡ i = ground arith in
    ap (λ l. rfind_from l (i + 1) c rest) hit ∙ rfind_from-Without i (i + 1) c rest h ∙ omega arith
rfind_from-here c (b ∷ p) rest last i h = rfind_from-here c p rest _ (i + 1) h ∙ omega arith

pub take-length : (xs ys : Bytes) → take (length xs) (xs ++ ys) ≡ xs
take-length [] ys = refl
take-length (x ∷ xs) ys = ap (◌∷◌ x) (take-length xs ys)

drop-length : (xs : Bytes) (y : ℕ) (ys : Bytes) → drop (suc (length xs)) (xs ++ (y ∷ ys)) ≡ ys
drop-length [] y ys = refl
drop-length (x ∷ xs) y ys = drop-length xs y ys

-- A command with an address in brackets.
abbrev pub bracketed : Bytes → Bytes → Bytes → Bytes
bracketed front address behind = front ++ (b'<' ∷ (address ++ (b'>' ∷ behind)))

rfind-bracketed :
    (front address behind : Bytes)
    → Without b'>' behind
    → rfind b'>' (bracketed front address behind) ≡ length front + 1 + length address
rfind-bracketed front address behind k =
    ap (rfind b'>') (sym (append_assoc front (b'<' ∷ address) (b'>' ∷ behind)))
    ∙ rfind_from-here b'>' (front ++ (b'<' ∷ address)) behind npos 0 k
    ∙ omega (arith, length-append front (b'<' ∷ address))

between-bracketed :
    (front address behind : Bytes)
    → length front + length address + length behind + 2 < 2 ^ 64
    → between (length front) (length front + 1 + length address) (bracketed front address behind)
      ≡ address
unfolding between
between-bracketed front address behind lt =
    let pos_eq : (length front + 1) % 2 ^ 64 ≡ suc (length front) = omega (arith, lt) in
    let count_eq : (length front + 1 + length address + (2 ^ 64 - suc (length front))) % 2 ^ 64
        ≡ length address =
      omega (arith, lt) in
    rw (pos_eq, count_eq, drop-length front b'<' (address ++ (b'>' ∷ behind)))
      (take-length address (b'>' ∷ behind))

ltb-no : (m n : ℕ) → n ≤ m → ltb m n ≡ false
ltb-no m n h = ground arith

length-bracketed :
    (front address behind : Bytes)
    → length (bracketed front address behind) ≡ length front + length address + length behind + 2
length-bracketed front address behind = omega (
  arith,
  length-append front (b'<' ∷ (address ++ (b'>' ∷ behind))),
  length-append address (b'>' ∷ behind),
)

-- Of a command `…<address>…` with no `<` before the first one and no `>` behind the last one the
-- address is cut out exactly, if the command is shorter than 2⁶⁴ bytes.
pub mail_address-bracketed :
    (front address behind : Bytes)
    → Without b'<' front
    → Without b'>' behind
    → length front + length address + length behind + 2 < 2 ^ 64
    → mail_address (bracketed front address behind) ≡ some address
unfolding mail_address
mail_address-bracketed front address behind h k lt =
    let len = length-bracketed front address behind in
    let start = find_from-here 0 b'<' front (address ++ (b'>' ∷ behind)) h in
    let stop = rfind-bracketed front address behind k in
    let start_eq : find b'<' (bracketed front address behind) ≡ length front =
      start ∙ omega arith in
    rw
      (
        start_eq,
        stop,
        ltb-no (length (bracketed front address behind)) (length front) (omega (arith, len)),
        ltb-no (length (bracketed front address behind)) (length front + 1 + length address)
            (omega (arith, len)),
      )
      (ap some (between-bracketed front address behind lt))
