-- ===== src/Learner/Ascii.antt =====
-- `getAsciiExpression` of src/learner/LearnerEngine.cc on the raw expression that `compute` makes.
use aiengine_rewritten_clean.Prelude.{
  ℕ, ◌+◌, ◌-◌, ◌*◌, u8, leb, ◌&&◌, ◌/◌, ◌%◌, ◌<◌, ◌≡◌, refl, ap, ◌∙◌, List, [], ◌∷◌, map, arith,
  ltb, if◌then◌else◌, Bytes, Option, none, some,
}
use aiengine_rewritten_clean.Learner.{ascii, raw_token, concat_texts}

-- A digit of a hexadecimal number, in lower case.
abbrev pub digit : ℕ → ℕ
digit d = if ltb d 10 then 48 + d else 87 + d

-- What `boost::format("%02x")` prints for a byte.
abbrev pub PrintsHex : (ℕ → Bytes) → Type 0
PrintsHex hex = (v : ℕ) → v < 256 → hex v ≡ digit (v / 16) ∷ digit (v % 16) ∷ []

abbrev pub AllBytes : List (Option ℕ) → Type 0
AllBytes [] = Unit {0}
AllBytes (none ∷ ts) = AllBytes ts
AllBytes (some v ∷ ts) = (v < 256) × AllBytes ts

-- The values of the tokens that have one.
abbrev pub values : List (Option ℕ) → Bytes
values [] = []
values (none ∷ ts) = values ts
values (some v ∷ ts) = v ∷ values ts

-- What comes out for a byte: the letters for the upper half are taken 144 too low.
abbrev pub shown : ℕ → ℕ
shown v = if ltb v 160 then v else v - 144

low_digit : ℕ → ℕ
low_digit b = if leb 97 b && leb b 102 then b - 32 else b

char_of : ℕ → ℕ → ℕ
char_of high low = u8 (if ltb low 65 then high + low + 208 else high + low + 201)

-- A digit in upper case has the value that is read back.
low_digit_value : (r high : ℕ) → r < 16 → char_of high (low_digit (digit r)) ≡ u8 (high + r)
unfolding low_digit char_of
low_digit_value r high h = ground arith

high_digit_value :
    (q r v : ℕ) → q < 16 → r < 16 → v ≡ q * 16 + r → u8 ((digit q + 208) * 16 + r) ≡ shown v
high_digit_value q r v h k e = ground arith

ascii_pair :
    (v : ℕ) (text : Bytes)
    → v < 256
    → ascii (digit (v / 16) ∷ digit (v % 16) ∷ text) ≡ shown v ∷ ascii text
unfolding ascii low_digit char_of
ascii_pair v text h =
    ap (λ b. b ∷ ascii text)
      (low_digit_value (v % 16) ((digit (v / 16) + 208) * 16) (omega arith)
        ∙ high_digit_value (v / 16) (v % 16) v (omega arith) (omega arith) (omega arith))

-- The text that is made of the raw expression of some tokens: their values, each byte below 160 as
-- it is and each other byte 144 too low.
pub ascii_raw :
    (hex : ℕ → Bytes) (ts : List (Option ℕ))
    → PrintsHex hex
    → AllBytes ts
    → ascii (concat_texts (raw_token hex) ts) ≡ map shown (values ts)
unfolding ascii
ascii_raw hex [] p h = refl
ascii_raw hex (none ∷ ts) p h = ascii_raw hex ts p h
ascii_raw hex (some v ∷ ts) p h = rw (p v h.0) (
    ascii_pair v (concat_texts (raw_token hex) ts) h.0
    ∙ ap (◌∷◌ (shown v)) (ascii_raw hex ts p h.1))
