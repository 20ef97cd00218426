-- ===== src/Smtp/Address.antt =====
-- The texts that src/protocols/smtp/SMTPProtocol.cc cuts out of a command, by positions that are
-- 64-bit numbers: `find` and `rfind` give 2⁶⁴ - 1 where there is nothing to find.
use aiengine_rewritten_clean.Prelude.{
  ℕ, ◌+◌, ◌-◌, ◌%◌, ◌^◌, Option, none, some, [], ◌∷◌, ◌==◌, if◌then◌else◌, ltb, ◌||◌, Bytes, length,
  take, drop,
}

abbrev pub npos : ℕ
npos = 2 ^ 64 - 1

-- Positions are counted from `i`.
unfoldable pub find_from : ℕ → ℕ → Bytes → ℕ
find_from i c [] = npos
find_from i c (b ∷ text) = let rest = find_from (i + 1) c text in if b == c then i else rest

unfoldable pub rfind_from : ℕ → ℕ → ℕ → Bytes → ℕ
rfind_from last i c [] = last
rfind_from last i c (b ∷ text) = rfind_from (if b == c then i else last) (i + 1) c text

-- `find(c)` and `rfind(c)`.
abbrev pub find : ℕ → Bytes → ℕ
find c text = find_from 0 c text

abbrev pub rfind : ℕ → Bytes → ℕ
rfind c text = rfind_from npos 0 c text

-- `substr(pos, n)`, for a position within the text.
abbrev pub substr : ℕ → ℕ → Bytes → Bytes
substr pos n text = take n (drop pos text)

-- `substr(start + 1, end - start - 1)` on 64-bit numbers.
unfoldable pub between : ℕ → ℕ → Bytes → Bytes
between start end text =
    substr ((start + 1) % 2 ^ 64) ((end + (2 ^ 64 - (start + 1) % 2 ^ 64)) % 2 ^ 64) text

-- The address of a MAIL command, or `none` if a bracket is missing: `start > length or end > length`.
unfoldable pub mail_address : Bytes → Option Bytes
unfolding between
mail_address header =
    if ltb (length header) (find b'<' header) || ltb (length header) (rfind b'>' header)
    then none
    else some (between (find b'<' header) (rfind b'>' header) header)

-- The domain of an address, or `none` if there is no `@`.
unfoldable pub domain_of : Bytes → Option Bytes
domain_of from =
    if ltb (length from) (find b'@' from)
    then none
    else some (substr (find b'@' from + 1) (length from) from)

-- The address of a RCPT command, which is not checked.
unfoldable pub rcpt_address : Bytes → Bytes
unfolding between
rcpt_address header = between (find b'<' header) (rfind b'>' header) header
