-- ===== src/Imap/Extract.antt =====
-- The name and the domain that src/protocols/imap/IMAPProtocol.cc cuts out of a LOGIN command.
use mathlib.Core.List.{append_assoc}
use aiengine_rewritten_clean.Prelude.{
  ℕ, ◌+◌, ◌-◌, ◌%◌, ◌^◌, ◌<◌, ◌≡◌, true, sym, ap, ◌∙◌, [], ◌∷◌, ◌++◌, arith, ltb, Bytes, length,
  length-append,
}
use aiengine_rewritten_clean.Cache.{ok}
use aiengine_rewritten_clean.Smtp.Address.{find}
use aiengine_rewritten_clean.Smtp.Extract.{Without, find_from-here}
use aiengine_rewritten_clean.Pop.Line.{substr}
use aiengine_rewritten_clean.Pop.Extract.{substr-middle}
use aiengine_rewritten_clean.Imap.Login.{user_name, login_domain}

-- What stands behind `LOGIN` and a byte: a name, `@`, a domain, a blank and the rest.
abbrev pub login : Bytes → Bytes → Bytes → Bytes
login name domain rest = name ++ (b'@' ∷ (domain ++ (b' ' ∷ rest)))

-- The name has no `@`, there is no blank before the one behind the domain, and the bytes are fewer
-- than 2⁶⁴.
pub record IsLogin (name domain rest : Bytes) : Type 0 where
  pub name_at : Without b'@' name
  pub blank : Without b' ' (name ++ (b'@' ∷ domain))
  pub short : length (login name domain rest) < 2 ^ 64

length-login :
    (name domain rest : Bytes)
    → length (login name domain rest) ≡ length name + length domain + length rest + 2
length-login name domain rest = omega (
  arith,
  length-append name (b'@' ∷ (domain ++ (b' ' ∷ rest))),
  length-append domain (b' ' ∷ rest),
)

blank_split :
    (name domain rest : Bytes) → login name domain rest ≡ (name ++ (b'@' ∷ domain)) ++ (b' ' ∷ rest)
blank_split name domain rest = sym (append_assoc name (b'@' ∷ domain) (b' ' ∷ rest))

at_split :
    (name domain rest : Bytes)
    → login name domain rest ≡ (name ++ (b'@' ∷ [])) ++ ((domain ++ (b' ' ∷ [])) ++ rest)
at_split name domain rest = sym (
    append_assoc name (b'@' ∷ []) ((domain ++ (b' ' ∷ [])) ++ rest)
    ∙ ap (λ t. name ++ (b'@' ∷ t)) (append_assoc domain (b' ' ∷ []) rest))

find-at :
    (name domain rest : Bytes)
    → IsLogin name domain rest
    → find b'@' (login name domain rest) ≡ length name
find-at name domain rest l =
    find_from-here 0 b'@' name (domain ++ (b' ' ∷ rest)) l.name_at ∙ omega arith

find-blank :
    (name domain rest : Bytes)
    → IsLogin name domain rest
    → find b' ' (login name domain rest) ≡ length name + length domain + 1
find-blank name domain rest l =
    ap (find b' ') (blank_split name domain rest)
    ∙ find_from-here 0 b' ' (name ++ (b'@' ∷ domain)) rest l.blank
    ∙ omega (arith, length-append name (b'@' ∷ domain))

ltb-yes : (m n : ℕ) → m < n → ltb m n ≡ true
ltb-yes m n h = ground arith

user_name-login :
    (name domain rest : Bytes)
    → IsLogin name domain rest
    → user_name (login name domain rest) ≡ ok (name ++ (b'@' ∷ domain))
unfolding user_name
user_name-login name domain rest l =
    let stop = find-blank name domain rest l in
    let len = length-login name domain rest in
    rw
      (
        stop,
        ltb-yes (length name + length domain + 1) (length (login name domain rest))
            (omega (arith, len)),
      )
      (ap (λ t. substr 0 (length name + length domain + 1) t) (blank_split name domain rest)
        ∙ substr-middle 0 (length name + length domain + 1) [] (name ++ (b'@' ∷ domain))
            (b' ' ∷ rest) (omega arith) (omega (arith, length-append name (b'@' ∷ domain))))

login_domain-login :
    (name domain rest : Bytes)
    → IsLogin name domain rest
    → login_domain (login name domain rest) ≡ ok (domain ++ (b' ' ∷ []))
unfolding login_domain
login_domain-login name domain rest l =
    let token = find-at name domain rest l in
    let stop = find-blank name domain rest l in
    let len = length-login name domain rest in
    let size : (length name + length domain + 1 + (2 ^ 64 - length name)) % 2 ^ 64
        ≡ length domain + 1 =
      omega (arith, len, l.short) in
    rw
      (
        stop,
        token,
        ltb-yes (length name + length domain + 1) (length (login name domain rest))
            (omega (arith, len)),
        ltb-yes (length name) (length (login name domain rest)) (omega (arith, len)),
        size,
      )
      (ap (λ t. substr (length name + 1) (length domain + 1) t) (at_split name domain rest)
        ∙ substr-middle (length name + 1) (length domain + 1) (name ++ (b'@' ∷ []))
            (domain ++ (b' ' ∷ [])) rest (omega (arith, length-append name (b'@' ∷ [])))
            (omega (arith, length-append domain (b' ' ∷ []))))

-- What is cut out of a LOGIN command `name@domain rest`, with no `@` in the name, no blank before
-- the one behind the domain, and less than 2⁶⁴ bytes: the user is `name@domain`, and the domain
-- that is looked up is `domain` with the blank behind it.
pub login_lem :
    (name domain rest : Bytes)
    → IsLogin name domain rest
    → (user_name (login name domain rest) ≡ ok (name ++ (b'@' ∷ domain)))
      × (login_domain (login name domain rest) ≡ ok (domain ++ (b' ' ∷ [])))
login_lem name domain rest l =
    (user_name-login name domain rest l, login_domain-login name domain rest l)
