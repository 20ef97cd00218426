-- ===== src/Frequency/Payload.antt =====
-- What the record of src/protocols/frequency/PacketFrequencies.h holds after any payloads.
use mathlib.Core.List.{append_assoc, append-nil}
use aiengine_rewritten_clean.Prelude.{
  ℕ, zero, suc, ◌+◌, ◌-◌, ◌≤◌, ◌<◌, ◌≡◌, refl, sym, ap, ◌∙◌, inl, inr, some, List, [], ◌∷◌, ◌++◌,
  arith, Bytes, u8, length, take, get_elem?, length-append, length-take, ◌⊎◌, ◌%◌, ◌^◌, Bool-cases,
  ltb, leb, leb→le, leb→gt,
}
use aiengine_rewritten_clean.Frequency.{
  PacketFrequencies, max_values, reset, limit, of_char, store, add_payload, index,
}

unfoldable pub add_all : List Bytes → PacketFrequencies → PacketFrequencies
add_all [] p = p
add_all (d ∷ ds) p = add_all ds (add_payload d p)

abbrev pub all_bytes : List Bytes → Bytes
all_bytes [] = []
all_bytes (d ∷ ds) = d ++ all_bytes ds

abbrev pub AllSmall : Bytes → Type 0
AllSmall [] = Unit {0}
AllSmall (b ∷ bs) = (b < 256) × AllSmall bs

abbrev pub AllPayloads : List Bytes → Type 0
AllPayloads [] = Unit {0}
AllPayloads (d ∷ ds) = AllSmall d × AllPayloads ds

-- The record's first places are the bytes of the list, and no others are in use.
pub record Holds (p : PacketFrequencies) (bytes : Bytes) : Type 0 where
  pub size : p.used ≡ length bytes
  pub values : (i b : ℕ) → get_elem? bytes i ≡ some b → u8 (index p i) ≡ b

of_char-u8 : (b : ℕ) → b < 256 → u8 (of_char b % 2 ^ 16) ≡ b
of_char-u8 b h = ground arith

store-old : (i : ℕ) (text : Bytes) (freqs : ℕ → ℕ) (j : ℕ) → j < i → store i text freqs j ≡ freqs j
unfolding store
store-old i [] freqs j h = refl
store-old i (b ∷ bs) freqs j h = store-old (i + 1) bs _ j (omega arith) ∙ ground arith

store-new :
    (i : ℕ) (text : Bytes) (freqs : ℕ → ℕ) (k b : ℕ)
    → get_elem? text k ≡ some b
    → store i text freqs (i + k) ≡ of_char b
unfolding store
store-new i [] freqs k b h = cc
store-new i (a ∷ text) freqs zero b h =
    store-old (i + 1) text _ (i + 0) (omega arith) ∙ ground arith
store-new i (a ∷ text) freqs (suc k) b h =
    ap (store (i + 1) text _) (omega arith) ∙ store-new (i + 1) text _ k b h

-- A position of an appended list is one of the first, or one of the second.
get_elem?-append :
    (xs ys : Bytes) (i b : ℕ)
    → get_elem? (xs ++ ys) i ≡ some b
    → ((i < length xs) × (get_elem? xs i ≡ some b))
      ⊎ ((k : ℕ) × (i ≡ length xs + k) × (get_elem? ys k ≡ some b))
get_elem?-append [] ys i b h = inr (i, omega arith, h)
get_elem?-append (x ∷ xs) ys zero b h = inl (omega arith, h)
get_elem?-append (x ∷ xs) ys (suc i) b h = elim (get_elem?-append xs ys i b h) [
  | inl (lt, e) ↦ inl (omega arith, e)
  | inr (k, e, f) ↦ inr (k, omega (arith, e), f)
]

get_elem?-AllSmall : (bs : Bytes) (i b : ℕ) → AllSmall bs → get_elem? bs i ≡ some b → b < 256
get_elem?-AllSmall [] i b h e = cc
get_elem?-AllSmall (x ∷ bs) zero b h e = ground (arith, h.0)
get_elem?-AllSmall (x ∷ bs) (suc i) b h e = get_elem?-AllSmall bs i b h.1 e

AllSmall-take : (n : ℕ) (bs : Bytes) → AllSmall bs → AllSmall (take n bs)
AllSmall-take zero bs h = tt
AllSmall-take (suc n) [] h = tt
AllSmall-take (suc n) (b ∷ bs) h = (h.0, AllSmall-take n bs h.1)

store-Holds :
    (p : PacketFrequencies) (bytes more : Bytes)
    → AllSmall more
    → Holds p bytes
    → Holds
        (record { freqs = store p.used more p.freqs; used = p.used + length more })
        (bytes ++ more)
unfolding index
store-Holds p bytes more small h = record {
  size = omega (arith, h.size, length-append bytes more);
  values = λ i b e. elim (get_elem?-append bytes more i b e) [
    | inl (lt, e1) ↦
        let kept = store-old p.used more p.freqs i (omega (arith, h.size)) in
        rw kept (h.values i b e1)
    | inr (k, e1, e2) ↦
        let here : i ≡ p.used + k = omega (arith, e1, h.size) in
        let put = store-new p.used more p.freqs k b e2 in
        rw (here, put) (of_char-u8 b (get_elem?-AllSmall more k b small e2))
  ];
}

take-all : (n : ℕ) (xs : Bytes) → length xs ≤ n → take n xs ≡ xs
take-all zero [] h = refl
take-all zero (x ∷ xs) h = absurd (omega (arith, h))
take-all (suc n) [] h = refl
take-all (suc n) (x ∷ xs) h = ap (◌∷◌ x) (take-all n xs (omega arith))

take-append : (n : ℕ) (xs ys : Bytes) → take n (xs ++ ys) ≡ take n xs ++ take (n - length xs) ys
take-append zero [] ys = refl
take-append (suc n) [] ys = let same : suc n ≡ suc n - 0 = omega arith in ap (λ k. take k ys) same
take-append zero (x ∷ xs) ys =
    let same : 0 ≡ 0 - suc (length xs) = omega arith in ap (λ k. take k ys) same
take-append (suc n) (x ∷ xs) ys =
    ap (◌∷◌ x) (take-append n xs ys ∙ ap (λ k. take n xs ++ take k ys) (omega arith))

take-limit :
    (used : ℕ) (d : Bytes)
    → used < max_values
    → take (limit used (length d)) d ≡ take (max_values - used) d
take-limit used d h = elim (Bool-cases (ltb max_values (used + length d))) [
  | inl over ↦ rw over refl
  | inr fits ↦
      rw fits
        (take-all (length d) d (omega arith) ∙ sym (take-all (max_values - used) d (ground arith)))
]

length-limit :
    (used : ℕ) (d : Bytes)
    → used < max_values
    → length (take (limit used (length d)) d) ≡ limit used (length d)
length-limit used d h = length-take (limit used (length d)) d ∙ ground arith

add_payload-Holds :
    (p : PacketFrequencies) (bytes d : Bytes)
    → AllSmall d
    → Holds p (take max_values bytes)
    → Holds (add_payload d p) (take max_values (bytes ++ d))
unfolding add_payload
add_payload-Holds p bytes d small h =
    let n = length-take max_values bytes in
    elim (Bool-cases (leb max_values p.used)) [
      | inl full ↦
          let cut : take max_values (bytes ++ d) ≡ take max_values bytes =
            take-append max_values bytes d
            ∙ (let many = leb→le max_values p.used full in
                let none_left : max_values - length bytes ≡ 0 = omega (arith, n, h.size, many) in
                ap (λ k. take max_values bytes ++ take k d) none_left
                ∙ append-nil (take max_values bytes)) in
          rw (full, cut) h
      | inr room ↦
          let lt : p.used < max_values = leb→gt max_values p.used room in
          let same : take max_values (bytes ++ d)
              ≡ take max_values bytes ++ take (limit p.used (length d)) d =
            take-append max_values bytes d
            ∙ ap (λ k. take max_values bytes ++ k)
                (ap (λ k. take (max_values - k) d) (omega (arith, n, h.size, lt))
                  ∙ sym (take-limit p.used d lt)) in
          rw (room, same)
            (rw (length-limit p.used d lt) at (
              store-Holds p (take max_values bytes) (take (limit p.used (length d)) d)
                (AllSmall-take (limit p.used (length d)) d small) h))
    ]

add_all-grow :
    (q : PacketFrequencies) (bytes : Bytes) (ds : List Bytes)
    → AllPayloads ds
    → Holds q (take max_values bytes)
    → Holds (add_all ds q) (take max_values (bytes ++ all_bytes ds))
unfolding add_all
add_all-grow q bytes [] h k = rw (append-nil bytes) k
add_all-grow q bytes (d ∷ ds) h k =
    rw (← append_assoc bytes d (all_bytes ds))
      (add_all-grow (add_payload d q) (bytes ++ d) ds h.1 (add_payload-Holds q bytes d h.0 k))

-- After a record is reset and given any payloads it holds their bytes in order, those from the
-- 4096th on left out, and counts no others.
pub add_all-Holds :
    (p : PacketFrequencies) (payloads : List Bytes)
    → AllPayloads payloads
    → Holds (add_all payloads (reset p)) (take max_values (all_bytes payloads))
add_all-Holds p payloads h =
    add_all-grow (reset p) [] payloads h (record { size = refl; values = λ i b e. cc })
