-- ===== src/Imap/Login.antt =====
-- The texts that `handle_cmd_login` of src/protocols/imap/IMAPProtocol.cc cuts out of a command.
use aiengine_rewritten_clean.Prelude.{
  ◌+◌, ◌-◌, ◌%◌, ◌^◌, Bool, [], if◌then◌else◌, ltb, Bytes, length,
}
use aiengine_rewritten_clean.Cache.{Outcome, ok}
use aiengine_rewritten_clean.Smtp.Address.{find}
use aiengine_rewritten_clean.Pop.Line.{substr}

-- `end < header.length()`; if not, the command is bogus.
abbrev pub has_end : Bytes → Bool
has_end header = ltb (find b' ' header) (length header)

unfoldable pub user_name : Bytes → Outcome Bytes
unfolding substr
user_name header = if has_end header then substr 0 (find b' ' header) header else ok []

-- `substr(token + 1, end - token)` on 64-bit numbers, if there is an `@`.
unfoldable pub login_domain : Bytes → Outcome Bytes
unfolding substr
login_domain header =
    if has_end header
    then (if ltb (find b'@' header) (length header)
        then substr (find b'@' header + 1)
            ((find b' ' header + (2 ^ 64 - find b'@' header)) % 2 ^ 64) header
        else substr 0 (find b' ' header) header)
    else ok []
