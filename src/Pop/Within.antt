-- ===== src/Pop/Within.antt =====
-- `handle_cmd_user` of src/protocols/pop/POPProtocol.cc cuts no text out beyond the command's end.
use aiengine_rewritten_clean.Prelude.{
  ℕ, ◌+◌, ◌^◌, ◌≤◌, ◌<◌, ◌≡◌, ◌⊎◌, refl, inl, inr, true, false, [], ◌∷◌, ◌&&◌, ◌==◌, arith,
  Bool-cases, Bytes, length,
}
use aiengine_rewritten_clean.Cache.{ok}
use aiengine_rewritten_clean.Smtp.Address.{npos, find_from, find}
use aiengine_rewritten_clean.Pop.Line.{
  starts_with, find_crlf, name_size, is_bogus, user_name, user_domain,
}
use aiengine_rewritten_clean.Pop.Extract.{substr-within}

find_from-bound :
    (i c : ℕ) (text : Bytes) → (find_from i c text ≡ npos) ⊎ (find_from i c text < i + length text)
unfolding find_from
find_from-bound i c [] = inl refl
find_from-bound i c (b ∷ text) = elim (Bool-cases (b == c)) [
  | inl here ↦ inr (rw (here, find_from) (omega arith))
  | inr other ↦ elim (find_from-bound (i + 1) c text) [
    | inl gone ↦ inl (rw (other, find_from) gone)
    | inr lt ↦ inr (rw (other, find_from) (omega (arith, lt)))
  ]
]

find_crlf-here_bound :
    (i : ℕ) (text : Bytes) → starts_with 10 text ≡ true → i + 2 ≤ i + (length text + 1)
unfolding starts_with
find_crlf-here_bound i [] h = ground arith
find_crlf-here_bound i (c ∷ text) h = omega arith

find_crlf-bound :
    (i : ℕ) (text : Bytes) → (find_crlf i text ≡ npos) ⊎ (find_crlf i text + 2 ≤ i + length text)
unfolding find_crlf
find_crlf-bound i [] = inl refl
find_crlf-bound i (b ∷ text) = elim (Bool-cases ((b == 13) && starts_with 10 text)) [
  | inl here ↦ inr (rw (here, find_crlf) (ground (arith, find_crlf-here_bound i text)))
  | inr other ↦ elim (find_crlf-bound (i + 1) text) [
    | inl gone ↦ inl (rw (other, find_crlf) gone)
    | inr lt ↦ inr (rw (other, find_crlf) (omega (arith, lt)))
  ]
]

-- A command that is not bogus has an `@` in it, and five bytes before the end of its line.
positions :
    (header : Bytes)
    → length header < 2 ^ 63
    → is_bogus header ≡ false
    → (5 ≤ length header) × (find b'@' header < length header)
unfolding is_bogus name_size
positions header lt fine =
    let token : find b'@' header ≤ length header = ground (arith, fine) in
    let size : name_size header ≤ length header = ground (arith, fine) in
    elim (find_from-bound 0 b'@' header) [
      | inl gone ↦ absurd (omega (arith, gone, token, lt))
      | inr at ↦ elim (find_crlf-bound 0 header) [
        | inl gone ↦ absurd (omega (arith, gone, size, lt))
        | inr stop ↦ (omega (arith, size, stop, lt), omega (arith, at))
      ]
    ]

-- The two texts of a command that is not bogus are there.
pub texts :
    (header : Bytes)
    → length header < 2 ^ 63
    → is_bogus header ≡ false
    → (name : Bytes) × (domain : Bytes) × (user_name header ≡ ok name)
      × (user_domain header ≡ ok domain)
unfolding user_name user_domain
texts header lt fine =
    let (five, at) = positions header lt fine in
    (
      _,
      _,
      substr-within 5 (name_size header) header five,
      substr-within (find b'@' header + 1) _ header (omega (arith, at)),
    )
