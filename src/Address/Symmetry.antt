-- ===== src/Address/Symmetry.antt =====
-- The hash of src/IPAddress.h is that of a conversation: both of its directions have the same.
use aiengine_rewritten_clean.Prelude.{
  ℕ, ◌≡◌, refl, sym, ap, ◌∙◌, inl, inr, List, [], ◌∷◌, ◌++◌, Bool-cases, ◌==◌, if◌then◌else◌,
  bit_xor_comm, bit_xor_assoc, bit_xor-zero,
}
use aiengine_rewritten_clean.Flow.{IpAddress}
use aiengine_rewritten_clean.Address.{◌^^◌, get_hash}

-- The addresses of a packet that goes the other way.
abbrev pub answer : IpAddress → IpAddress
answer a = record a {
  ip4_src = a.ip4_dst;
  ip4_dst = a.ip4_src;
  ip6_src = a.ip6_dst;
  ip6_dst = a.ip6_src;
}

abbrev from : ℕ → List ℕ → ℕ
from x [] = x
from x (y ∷ ys) = from (x ^^ y) ys

abbrev sum : List ℕ → ℕ
sum [] = 0
sum (x ∷ xs) = x ^^ sum xs

from-sum : (x : ℕ) (ys : List ℕ) → from x ys ≡ x ^^ sum ys
from-sum x [] = sym (bit_xor-zero x)
from-sum x (y ∷ ys) = from-sum (x ^^ y) ys ∙ bit_xor_assoc x y (sum ys)

sum-append : (xs ys : List ℕ) → sum (xs ++ ys) ≡ sum xs ^^ sum ys
sum-append [] ys = sym (bit_xor_comm 0 (sum ys) ∙ bit_xor-zero (sum ys))
sum-append (x ∷ xs) ys = ap (◌^^◌ x) (sum-append xs ys) ∙ sym (bit_xor_assoc x (sum xs) (sum ys))

-- Two values on the sides of a third change places.
swap : (x y z : ℕ) → x ^^ (y ^^ z) ≡ z ^^ (y ^^ x)
swap x y z = ap (◌^^◌ x) (bit_xor_comm y z) ∙ bit_xor_comm x (z ^^ y) ∙ bit_xor_assoc z y x

blocks : (xs : List ℕ) (p : ℕ) (ys : List ℕ) → sum (xs ++ (p ∷ ys)) ≡ sum (ys ++ (p ∷ xs))
blocks xs p ys = sum-append xs (p ∷ ys) ∙ swap (sum xs) p (sum ys) ∙ sym (sum-append ys (p ∷ xs))

-- The words of the addresses.
abbrev source : IpAddress → List ℕ
source a =
    if a.type == 4
    then a.ip4_src ∷ []
    else a.ip6_src 0 ∷ a.ip6_src 1 ∷ a.ip6_src 2 ∷ a.ip6_src 3 ∷ []

abbrev destination : IpAddress → List ℕ
destination a =
    if a.type == 4
    then a.ip4_dst ∷ []
    else a.ip6_dst 0 ∷ a.ip6_dst 1 ∷ a.ip6_dst 2 ∷ a.ip6_dst 3 ∷ []

-- The hash as the sum of two blocks, that of the source and that of the destination.
get_hash-sum :
    (a : IpAddress) (s p d : ℕ)
    → get_hash a s p d ≡ sum ((source a ++ s ∷ []) ++ (p ∷ (destination a ++ d ∷ [])))
unfolding get_hash
get_hash-sum a s p d = elim (Bool-cases (a.type == 4)) [
  | inl h ↦ rw h (from-sum a.ip4_src (s ∷ p ∷ a.ip4_dst ∷ d ∷ []))
  | inr h ↦ rw h (
      from-sum (a.ip6_src 0) (
        a.ip6_src 1
        ∷ a.ip6_src 2
        ∷ a.ip6_src 3
        ∷ s
        ∷ p
        ∷ a.ip6_dst 0
        ∷ a.ip6_dst 1
        ∷ a.ip6_dst 2
        ∷ a.ip6_dst 3
        ∷ d
        ∷ []))
]

-- The last values of two sums change places.
swap_last : (u s p v d : ℕ) → (u ^^ s) ^^ (p ^^ (v ^^ d)) ≡ (u ^^ d) ^^ (p ^^ (v ^^ s))
swap_last u s p v d =
    bit_xor_assoc u s _
    ∙ ap (λ x. u ^^ (s ^^ x)) (sym (bit_xor_assoc p v d))
    ∙ ap (◌^^◌ u) (swap s (p ^^ v) d)
    ∙ ap (λ x. u ^^ (d ^^ x)) (bit_xor_assoc p v s)
    ∙ sym (bit_xor_assoc u d _)

sum-two :
    (xs : List ℕ) (s p : ℕ) (ys : List ℕ) (d : ℕ)
    → sum ((xs ++ s ∷ []) ++ (p ∷ (ys ++ d ∷ []))) ≡ (sum xs ^^ s) ^^ (p ^^ (sum ys ^^ d))
sum-two xs s p ys d =
    sum-append (xs ++ s ∷ []) _
    ∙ rw (sum-append xs (s ∷ []), sum-append ys (d ∷ []), bit_xor-zero s, bit_xor-zero d) refl

-- A packet and the answer to it, with the addresses and the ports the other way round, have the
-- same hash.
pub get_hash-answer : (a : IpAddress) (s p d : ℕ) → get_hash (answer a) d p s ≡ get_hash a s p d
get_hash-answer a s p d =
    get_hash-sum (answer a) d p s
    ∙ blocks (destination a ++ d ∷ []) p (source a ++ s ∷ [])
    ∙ sym (get_hash-sum a s p d)

-- So have the ports alone the other way round.
pub get_hash_ports : (a : IpAddress) (s p d : ℕ) → get_hash a d p s ≡ get_hash a s p d
get_hash_ports a s p d =
    get_hash-sum a d p s
    ∙ sum-two (source a) d p (destination a) s
    ∙ swap_last (sum (source a)) d p (sum (destination a)) s
    ∙ sym (sum-two (source a) s p (destination a) d)
    ∙ sym (get_hash-sum a s p d)
