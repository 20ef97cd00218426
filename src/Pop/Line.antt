-- ===== src/Pop/Line.antt =====
-- The texts that `handle_cmd_user` of src/protocols/pop/POPProtocol.cc cuts out of a command.
-- Positions are 64-bit numbers, and `find` gives 2⁶⁴ - 1 where there is nothing to find.
use aiengine_rewritten_clean.Prelude.{
  ℕ, ◌+◌, ◌-◌, ◌%◌, ◌^◌, Bool, false, [], ◌∷◌, ◌==◌, if◌then◌else◌, ltb, ◌&&◌, ◌||◌, Bytes, length,
  take, drop,
}
use aiengine_rewritten_clean.Cache.{Outcome, ok, fault}
use aiengine_rewritten_clean.Smtp.Address.{npos, find}

unfoldable pub starts_with : ℕ → Bytes → Bool
starts_with c [] = false
starts_with c (b ∷ text) = b == c

-- `find("\x0d\x0a")`, with positions counted from `i`.
unfoldable pub find_crlf : ℕ → Bytes → ℕ
unfolding starts_with
find_crlf i [] = npos
find_crlf i (b ∷ text) =
    let rest = find_crlf (i + 1) text in if (b == 13) && starts_with 10 text then i else rest

-- `end`: the position of the end of the line less 5.
unfoldable pub name_size : Bytes → ℕ
unfolding find_crlf
name_size header = (find_crlf 0 header + (2 ^ 64 - 5)) % 2 ^ 64

-- `token > length or end > length`.
unfoldable pub is_bogus : Bytes → Bool
unfolding name_size
is_bogus header = ltb (length header) (find b'@' header) || ltb (length header) (name_size header)

-- `substr(pos, n)`, which throws for a position behind the text's end.
unfoldable pub substr : ℕ → ℕ → Bytes → Outcome Bytes
substr pos n text = if ltb (length text) pos then fault else ok (take n (drop pos text))

unfoldable pub user_name : Bytes → Outcome Bytes
unfolding substr name_size
user_name header = substr 5 (name_size header) header

unfoldable pub user_domain : Bytes → Outcome Bytes
unfolding substr
user_domain header = substr (find b'@' header + 1) ((length header + (2 ^ 64 - 2)) % 2 ^ 64) header
