-- ===== src/Imap/Short.antt =====
-- A LOGIN command that ends too early, in `processFlow` of src/protocols/imap/IMAPProtocol.cc.
use aiengine_rewritten_clean.Prelude.{
  ℕ, ◌+◌, ◌<◌, ◌≡◌, refl, true, false, some, arith, ltb, length, Bytes,
}
use aiengine_rewritten_clean.Cache.{fault, lock}
use aiengine_rewritten_clean.Dns.Message.{Memory}
use aiengine_rewritten_clean.Dns.Response.{bytes_at, length-bytes_at}
use aiengine_rewritten_clean.Pop.Line.{substr}
use aiengine_rewritten_clean.Imap.Commands.{ImapProtocol, Flow}
use aiengine_rewritten_clean.Imap.Session.{
  commands, command_at, after_tag, count_packet, run_login, run_command, session, process_flow,
}

run_command-short :
    (header : Bytes) (i : ℕ) (f : Flow) (s : ImapProtocol)
    → length header < after_tag header + 6
    → run_command header i 4 5 f s ≡ fault
unfolding run_command run_login substr
run_command-short header i f s h =
    let behind : ltb (length header) (5 + after_tag header + 1) ≡ true = ground arith in
    rw behind refl

session-short :
    (mem : Memory) (size i : ℕ) (f : Flow) (s : ImapProtocol)
    → (s.info_cache.heap i).is_banned ≡ false
    → f.forward ≡ true
    → command_at commands mem (after_tag (bytes_at mem 0 size)) ≡ some (4, 5)
    → size < after_tag (bytes_at mem 0 size) + 6
    → session mem size i f s ≡ fault
unfolding session
session-short mem size i f s free forth found h =
    rw (free, session)
      (rw forth (
        rw found (
          run_command-short (bytes_at mem 0 size) i _ _
            (omega (arith, h, length-bytes_at mem 0 size)))))

-- A LOGIN command of the client that ends with the word, or is cut off within it, makes
-- `processFlow` throw: its text would begin behind the end of the payload. The flow has an info and
-- is not banned, and the payload's memory has `LOGIN` behind the tag.
pub process_flow_short :
    (mem : Memory) (size i : ℕ) (f : Flow) (s : ImapProtocol)
    → lock s.info_cache f.imap_info ≡ some i
    → (s.info_cache.heap i).is_banned ≡ false
    → f.forward ≡ true
    → command_at commands mem (after_tag (bytes_at mem 0 size)) ≡ some (4, 5)
    → size < after_tag (bytes_at mem 0 size) + 6
    → process_flow mem size f s ≡ fault
unfolding process_flow
process_flow_short mem size i f s there free forth found h =
    rw (there, process_flow) (session-short mem size i f (count_packet size s) free forth found h)
