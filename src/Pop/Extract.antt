-- ===== src/Pop/Extract.antt =====
-- The name and the domain that src/protocols/pop/POPProtocol.cc cuts out of a USER command.
use aiengine_rewritten_clean.Prelude.{
  ℕ, zero, suc, ◌+◌, ◌^◌, ◌≤◌, ◌<◌, ◌≡◌, refl, sym, ap, ◌∙◌, false, [], ◌∷◌, ◌++◌, arith, ltb,
  Bytes, length, length-append, take, drop,
}
use mathlib.Core.List.{append_assoc}
use aiengine_rewritten_clean.Cache.{ok}
use aiengine_rewritten_clean.Smtp.Address.{find}
use aiengine_rewritten_clean.Smtp.Extract.{Without, find_from-here, take-length}
use aiengine_rewritten_clean.Pop.Line.{
  starts_with, find_crlf, name_size, is_bogus, substr, user_name, user_domain,
}

find_crlf-here :
    (i : ℕ) (p rest : Bytes) → Without 13 p → find_crlf i (p ++ (13 ∷ 10 ∷ rest)) ≡ i + length p
unfolding find_crlf starts_with
find_crlf-here i [] rest h = omega arith
find_crlf-here i (b ∷ p) rest h = rw h.0 (find_crlf-here (i + 1) p rest h.1 ∙ omega arith)

Without-append : (c : ℕ) (p q : Bytes) → Without c p → Without c q → Without c (p ++ q)
Without-append c [] q h k = k
Without-append c (b ∷ p) q h k = (h.0, Without-append c p q h.1 k)

drop_append : (n : ℕ) (xs ys : Bytes) → length xs ≡ n → drop n (xs ++ ys) ≡ ys
drop_append n xs ys h = rw (sym h) (go xs ys)
  where
    go : (xs ys : Bytes) → drop (length xs) (xs ++ ys) ≡ ys
    go [] ys = refl
    go (x ∷ xs) ys = go xs ys

take_append : (n : ℕ) (xs ys : Bytes) → length xs ≡ n → take n (xs ++ ys) ≡ xs
take_append n xs ys h = rw (sym h) (take-length xs ys)

take_all : (n : ℕ) (xs : Bytes) → length xs ≤ n → take n xs ≡ xs
take_all zero [] h = refl
take_all (suc n) [] h = refl
take_all zero (x ∷ xs) h = absurd (omega (arith, h))
take_all (suc n) (x ∷ xs) h = ap (◌∷◌ x) (take_all n xs (omega (arith, h)))

-- A command of five bytes, a name, `@`, a domain and the end of the line.
abbrev pub user_line : Bytes → Bytes → Bytes → Bytes → Bytes
user_line front name domain rest = front ++ (name ++ (b'@' ∷ (domain ++ (13 ∷ 10 ∷ rest))))

length-user_line :
    (front name domain rest : Bytes)
    → length (user_line front name domain rest)
      ≡ length front + length name + length domain + length rest + 3
length-user_line front name domain rest = omega (
  arith,
  length-append front (name ++ (b'@' ∷ (domain ++ (13 ∷ 10 ∷ rest)))),
  length-append name (b'@' ∷ (domain ++ (13 ∷ 10 ∷ rest))),
  length-append domain (13 ∷ 10 ∷ rest),
)

find-user_line :
    (front name domain rest : Bytes)
    → Without b'@' front
    → Without b'@' name
    → find b'@' (user_line front name domain rest) ≡ length front + length name
find-user_line front name domain rest h k =
    ap (find b'@') (sym (append_assoc front name (b'@' ∷ (domain ++ (13 ∷ 10 ∷ rest)))))
    ∙ find_from-here 0 b'@' (front ++ name) (domain ++ (13 ∷ 10 ∷ rest))
        (Without-append b'@' front name h k)
    ∙ omega (arith, length-append front name)

-- The line up to its end, and what is behind it.
line_split :
    (front name domain rest : Bytes)
    → user_line front name domain rest ≡ (front ++ (name ++ (b'@' ∷ domain))) ++ (13 ∷ 10 ∷ rest)
line_split front name domain rest = sym (
    append_assoc front (name ++ (b'@' ∷ domain)) (13 ∷ 10 ∷ rest)
    ∙ ap (λ t. front ++ t) (append_assoc name (b'@' ∷ domain) (13 ∷ 10 ∷ rest)))

find_crlf-user_line :
    (front name domain rest : Bytes)
    → Without 13 (front ++ (name ++ (b'@' ∷ domain)))
    → find_crlf 0 (user_line front name domain rest)
      ≡ length front + length name + length domain + 1
find_crlf-user_line front name domain rest h =
    ap (find_crlf 0) (line_split front name domain rest)
    ∙ find_crlf-here 0 (front ++ (name ++ (b'@' ∷ domain))) rest h
    ∙ omega
        (arith, length-append front (name ++ (b'@' ∷ domain)), length-append name (b'@' ∷ domain))

name_size-user_line :
    (front name domain rest : Bytes)
    → length front ≡ 5
    → Without 13 (front ++ (name ++ (b'@' ∷ domain)))
    → length (user_line front name domain rest) < 2 ^ 64
    → name_size (user_line front name domain rest) ≡ length name + length domain + 1
unfolding name_size
name_size-user_line front name domain rest five h lt =
    let stop = find_crlf-user_line front name domain rest h in
    let len = length-user_line front name domain rest in omega (arith, five, stop, len, lt)

-- The bytes are those of a USER command: five, a name with no `@`, `@` and a domain, before the end
-- of the line, in less than 2⁶⁴ bytes.
pub record IsLine (front name domain rest : Bytes) : Type 0 where
  pub five : length front ≡ 5
  pub front_at : Without b'@' front
  pub name_at : Without b'@' name
  pub cr : Without 13 (front ++ (name ++ (b'@' ∷ domain)))
  pub short : length (user_line front name domain rest) < 2 ^ 64

ltb-no : (m n : ℕ) → n ≤ m → ltb m n ≡ false
ltb-no m n h = ground arith

is_bogus-user_line :
    (front name domain rest : Bytes)
    → IsLine front name domain rest
    → is_bogus (user_line front name domain rest) ≡ false
unfolding is_bogus
is_bogus-user_line front name domain rest l =
    let token = find-user_line front name domain rest l.front_at l.name_at in
    let size = name_size-user_line front name domain rest l.five l.cr l.short in
    let len = length-user_line front name domain rest in
    rw
      (
        token,
        size,
        ltb-no (length (user_line front name domain rest)) (length front + length name)
            (omega (arith, len)),
        ltb-no (length (user_line front name domain rest)) (length name + length domain + 1)
            (omega (arith, len, l.five)),
      )
      refl

pub substr-within :
    (pos n : ℕ) (text : Bytes) → pos ≤ length text → substr pos n text ≡ ok (take n (drop pos text))
unfolding substr
substr-within pos n text h = rw (ltb-no (length text) pos h) refl

pub substr-middle :
    (pos n : ℕ) (before middle behind : Bytes)
    → length before ≡ pos
    → length middle ≡ n
    → substr pos n (before ++ (middle ++ behind)) ≡ ok middle
substr-middle pos n before middle behind h k =
    substr-within pos n (before ++ (middle ++ behind))
      (omega (arith, h, length-append before (middle ++ behind)))
    ∙ ap (λ t. ok (take n t)) (drop_append pos before (middle ++ behind) h)
    ∙ ap ok (take_append n middle behind k)

substr-rest :
    (pos n : ℕ) (before behind : Bytes)
    → length before ≡ pos
    → length behind ≤ n
    → substr pos n (before ++ behind) ≡ ok behind
substr-rest pos n before behind h k =
    substr-within pos n (before ++ behind) (omega (arith, h, length-append before behind))
    ∙ ap (λ t. ok (take n t)) (drop_append pos before behind h)
    ∙ ap ok (take_all n behind k)

user_name-user_line :
    (front name domain rest : Bytes)
    → IsLine front name domain rest
    → user_name (user_line front name domain rest) ≡ ok (name ++ (b'@' ∷ domain))
unfolding user_name
user_name-user_line front name domain rest l =
    let size = name_size-user_line front name domain rest l.five l.cr l.short in
    rw size (
      ap (λ t. substr 5 (length name + length domain + 1) (front ++ t))
        (sym (append_assoc name (b'@' ∷ domain) (13 ∷ 10 ∷ rest)))
      ∙ substr-middle 5 (length name + length domain + 1) front (name ++ (b'@' ∷ domain))
          (13 ∷ 10 ∷ rest) l.five (omega (arith, length-append name (b'@' ∷ domain))))

-- The text up to the `@`, and what is behind it.
at_split :
    (front name text : Bytes)
    → front ++ (name ++ (b'@' ∷ text)) ≡ (front ++ (name ++ (b'@' ∷ []))) ++ text
at_split front name text = sym (
    append_assoc front (name ++ (b'@' ∷ [])) text
    ∙ ap (λ t. front ++ t) (append_assoc name (b'@' ∷ []) text))

user_domain-user_line :
    (front name domain rest : Bytes)
    → IsLine front name domain rest
    → user_domain (user_line front name domain rest) ≡ ok (domain ++ (13 ∷ 10 ∷ rest))
unfolding user_domain
user_domain-user_line front name domain rest l =
    let token = find-user_line front name domain rest l.front_at l.name_at in
    let len = length-user_line front name domain rest in
    let behind = length-append domain (13 ∷ 10 ∷ rest) in
    rw token (
      ap (substr (length front + length name + 1) _)
        (at_split front name (domain ++ (13 ∷ 10 ∷ rest)))
      ∙ substr-rest (length front + length name + 1) _ (front ++ (name ++ (b'@' ∷ [])))
          (domain ++ (13 ∷ 10 ∷ rest))
          (omega (arith, length-append front (name ++ (b'@' ∷ [])), length-append name (b'@' ∷ [])))
          (omega (arith, len, behind, l.five, l.short)))

-- What is cut out of a USER command, `name@domain` between its first five bytes, with no `@` before
-- the first one and no carriage return but that of the line's end, in less than 2⁶⁴ bytes: the
-- command is accepted, the user is `name@domain`, and the domain that is looked up is `domain` with
-- the end of the line and all that is behind it.
pub user_line_lem :
    (front name domain rest : Bytes)
    → IsLine front name domain rest
    → (is_bogus (user_line front name domain rest) ≡ false)
      × (user_name (user_line front name domain rest) ≡ ok (name ++ (b'@' ∷ domain)))
      × (user_domain (user_line front name domain rest) ≡ ok (domain ++ (13 ∷ 10 ∷ rest)))
user_line_lem front name domain rest l = (
  is_bogus-user_line front name domain rest l,
  user_name-user_line front name domain rest l,
  user_domain-user_line front name domain rest l,
)
