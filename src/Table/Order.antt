-- ===== src/Table/Order.antt =====
-- Lists of entries: prefixes, what a test keeps, order by time, and distinct identifiers.
use aiengine_rewritten_clean.Prelude.{
  ℕ, ◌≤◌, ◌<◌, ◌^◌, ◌≡◌, refl, sym, ap, inl, inr, Bool, true, false, none, List, [], ◌∷◌, ◌++◌,
  arith, Bool-cases, ◌==◌, if◌then◌else◌,
}
use aiengine_rewritten_clean.Prelude.Int.{ℤ, pos_part, neg_part, ◌+ℤ◌, ◌≤ℤ◌, +ℤ_parts, to_int_id}
use aiengine_rewritten_clean.Flow.{Flow}
use aiengine_rewritten_clean.Table.{
  Entry, lookup, remove, AllTimes, IsOrdered, IsDistinct, last_packet_time, expires,
}

-- The entries up to the first that fails the test, and the entries from there on.
abbrev pub leading : (ℕ → Bool) → List Entry → List Entry
leading test [] = []
leading test (e ∷ es) = let rest = leading test es in if test e.1 then e ∷ rest else []

abbrev pub from_first_not : (ℕ → Bool) → List Entry → List Entry
from_first_not test [] = []
from_first_not test (e ∷ es) =
    let rest = from_first_not test es in if test e.1 then rest else e ∷ es

-- All entries that fail the test, in their order.
abbrev pub failing : (ℕ → Bool) → List Entry → List Entry
failing test [] = []
failing test (e ∷ es) = let rest = failing test es in if test e.1 then rest else e ∷ rest

pub leading-append :
    (test : ℕ → Bool) (es : List Entry) → leading test es ++ from_first_not test es ≡ es
leading-append test [] = refl
leading-append test (e ∷ es) = elim (Bool-cases (test e.1)) [
  | inl h ↦ rw h (ap (◌∷◌ e) (leading-append test es))
  | inr h ↦ rw h refl
]

pub leading-AllTimes :
    (test : ℕ → Bool) (es : List Entry) → AllTimes (λ p. test p ≡ true) (leading test es)
leading-AllTimes test [] = tt
leading-AllTimes test (e ∷ es) = elim (Bool-cases (test e.1)) [
  | inl h ↦ rw h (h, leading-AllTimes test es)
  | inr h ↦ rw h tt
]

failing_none :
    (test : ℕ → Bool) (es : List Entry) → AllTimes (λ p. test p ≡ false) es → failing test es ≡ es
failing_none test [] h = refl
failing_none test (e ∷ es) (h, hs) = rw h (ap (◌∷◌ e) (failing_none test es hs))

pub AllTimes-imp :
    (P Q : ℕ → Type 0) (es : List Entry) → ((p : ℕ) → P p → Q p) → AllTimes P es → AllTimes Q es
AllTimes-imp P Q [] f h = tt
AllTimes-imp P Q (e ∷ es) f (h, hs) = (f e.1 h, AllTimes-imp P Q es f hs)

pub AllTimes-both :
    (P Q R : ℕ → Type 0) (es : List Entry)
    → ((p : ℕ) → P p → Q p → R p)
    → AllTimes P es
    → AllTimes Q es
    → AllTimes R es
AllTimes-both P Q R [] f h k = tt
AllTimes-both P Q R (e ∷ es) f (h, hs) (k, ks) = (f e.1 h k, AllTimes-both P Q R es f hs ks)

-- With the entries in order, a test that once it fails fails at every later time fails on all
-- that follow.
pub from_first_not-failing :
    (time : ℕ → ℤ) (test : ℕ → Bool) (Fits : ℕ → Type 0)
    → ((p q : ℕ) → Fits p → Fits q → time p ≤ℤ time q → test p ≡ false → test q ≡ false)
    → (es : List Entry) → AllTimes Fits es
    → IsOrdered time es
    → from_first_not test es ≡ failing test es
from_first_not-failing time test Fits later [] fits o = refl
from_first_not-failing time test Fits later (e ∷ es) (fit, fits) (o, os) =
    elim (Bool-cases (test e.1)) [
      | inl h ↦ rw h (from_first_not-failing time test Fits later es fits os)
      | inr h ↦ rw h (
          ap (◌∷◌ e) (
            sym (
              failing_none test es
                (AllTimes-both Fits _ _ es (λ q f g. later e.1 q fit f g h) fits o))))
    ]

-- The sum of the last packet's time and the timeout is an int.
abbrev pub Fits : ℤ → Flow → Type 0
Fits timeout f =
    (pos_part (last_packet_time f +ℤ timeout) < 2 ^ 31)
    × (neg_part (last_packet_time f +ℤ timeout) ≤ 2 ^ 31)

pub expires_later :
    (timeout now : ℤ) (f g : Flow)
    → Fits timeout f
    → Fits timeout g
    → last_packet_time f ≤ℤ last_packet_time g
    → expires timeout now f ≡ false
    → expires timeout now g ≡ false
expires_later timeout now f g (a, b) (c, d) le h =
    let ef = to_int_id _ a b in
    let eg = to_int_id _ c d in
    rw eg (
      ground (
        arith,
        +ℤ_parts (last_packet_time f) timeout,
        +ℤ_parts (last_packet_time g) timeout,
        ap pos_part ef,
        ap neg_part ef,
      ))

pub remove_absent : (h : ℕ) (es : List Entry) → lookup h es ≡ none → remove h es ≡ es
remove_absent h [] e = refl
remove_absent h ((id, p) ∷ es) e = elim (Bool-cases (id == h)) [
  | inl same ↦ absurd (ground arith)
  | inr other ↦ rw other (ap (◌∷◌ (id, p)) (remove_absent h es (ground arith)))
]

pub remove_first : (e : Entry) (es : List Entry) → IsDistinct (e ∷ es) → remove e.0 (e ∷ es) ≡ es
remove_first (id, p) es (new, _) = ground (arith, remove_absent id es new)
