-- ===== src/Dns/Extract.antt =====
-- What `extract_domain_name` of src/protocols/dns/DNSProtocol.cc leaves, for any message.
use mathlib.Core.Path.{ap₂}
use aiengine_rewritten_clean.Prelude.{
  ℕ, zero, suc, ◌+◌, ◌-◌, ◌≤◌, ◌<◌, ◌≡◌, refl, ap, ◌∙◌, inl, inr, true, false, [], ◌∷◌, arith,
  Bool-cases, leb, ◌==◌, if◌then◌else◌, Bytes, length,
}
use aiengine_rewritten_clean.Anomaly.{dns_long_name, mark}
use aiengine_rewritten_clean.Dns.Message.{
  DnsProtocol, Flow, Memory, max_buffer, note, clean, put, extract_loop, extract_domain_name,
  read_buffer, reached,
}

-- The name at an offset: the bytes up to a NUL, `n` at most, control bytes read as dots.
unfoldable pub name_bytes : ℕ → ℕ → Memory → Bytes
name_bytes zero offset mem = []
name_bytes (suc n) offset mem =
    let rest = name_bytes n (offset + 1) mem in
    if mem offset == 0 then [] else clean (mem offset) ∷ rest

-- What the loop leaves, when it is at some offset with `n` rounds to go, and reads a name.
pub record Reads (n offset : ℕ) (name : Bytes) (f : Flow) (s : DnsProtocol)
    (r : ℕ × Flow × DnsProtocol) : Type 0 where
  pub stop : r.0 ≡ offset + length name
  pub text : read_buffer (offset - 1) (length name) r.2.buffer ≡ name
  pub before : (j : ℕ) → j < offset - 1 → r.2.buffer j ≡ s.buffer j
  pub behind : (j : ℕ) → 127 ≤ j → r.2.buffer j ≡ s.buffer j
  pub anomaly : r.1.pa ≡ (if length name == n then mark dns_long_name f.pa else f.pa)

pub name_end :
    (n offset : ℕ) (mem : Memory) → (mem offset == 0) ≡ true → name_bytes (suc n) offset mem ≡ []
unfolding name_bytes
name_end n offset mem h = rw h refl

pub name_more :
    (n offset : ℕ) (mem : Memory)
    → (mem offset == 0) ≡ false
    → name_bytes (suc n) offset mem ≡ clean (mem offset) ∷ name_bytes n (offset + 1) mem
unfolding name_bytes
name_more n offset mem h = rw h refl

abbrev next_state : ℕ → Memory → DnsProtocol → DnsProtocol
next_state offset mem s = put (offset - 1) (clean (mem offset)) s

loop_end :
    (n offset : ℕ) (mem : Memory) (f : Flow) (s : DnsProtocol)
    → (mem offset == 0) ≡ true
    → extract_loop (suc n) offset mem f s ≡ (offset, f, s)
unfolding extract_loop
loop_end n offset mem f s h = rw h refl

loop_more :
    (n offset : ℕ) (mem : Memory) (f : Flow) (s : DnsProtocol)
    → (mem offset == 0) ≡ false
    → leb max_buffer (offset + 1) ≡ false
    → extract_loop (suc n) offset mem f s
      ≡ extract_loop n (offset + 1) mem f (next_state offset mem s)
unfolding extract_loop
loop_more n offset mem f s h k = rw (h, k) refl

loop_long :
    (n offset : ℕ) (mem : Memory) (f : Flow) (s : DnsProtocol)
    → (mem offset == 0) ≡ false
    → leb max_buffer (offset + 1) ≡ true
    → extract_loop (suc n) offset mem f s
      ≡ reached (offset + 1) (note dns_long_name f (next_state offset mem s))
unfolding extract_loop
loop_long n offset mem f s h k = rw (h, k) refl

-- One more byte in front.
Reads-more :
    (n offset : ℕ) (name : Bytes) (mem : Memory) (f : Flow) (s : DnsProtocol)
    (r : ℕ × Flow × DnsProtocol)
    → 1 ≤ offset
    → offset < 128
    → Reads n (offset + 1) name f (next_state offset mem s) r
    → Reads (suc n) offset (clean (mem offset) ∷ name) f s r
unfolding read_buffer
Reads-more n offset name mem f s r h k d = record {
  stop = omega (arith, d.stop);
  text =
      let first : r.2.buffer (offset - 1) ≡ clean (mem offset) =
        d.before (offset - 1) (omega arith) ∙ ground arith in
      let same : offset - 1 + 1 ≡ offset + 1 - 1 = omega arith in
      ap₂ ◌∷◌ first (ap (λ i. read_buffer i (length name) r.2.buffer) same ∙ d.text);
  before = λ j lt. d.before j (omega arith) ∙ ground arith;
  behind = λ j le. d.behind j le ∙ ground arith;
  anomaly = d.anomaly ∙ ground arith;
}

Reads-end :
    (n offset : ℕ) (mem : Memory) (f : Flow) (s : DnsProtocol)
    → (mem offset == 0) ≡ true
    → Reads (suc n) offset (name_bytes (suc n) offset mem) f s (extract_loop (suc n) offset mem f s)
unfolding read_buffer
Reads-end n offset mem f s ended =
    rw (name_end n offset mem ended, loop_end n offset mem f s ended)
      (record {
        stop = omega arith;
        text = refl;
        before = λ j lt. refl;
        behind = λ j le. refl;
        anomaly = ground arith;
      })

Reads-long :
    (offset : ℕ) (mem : Memory) (f : Flow) (s : DnsProtocol)
    → offset ≡ 127
    → (mem offset == 0) ≡ false
    → Reads 1 offset (name_bytes 1 offset mem) f s (extract_loop 1 offset mem f s)
unfolding read_buffer name_bytes
Reads-long offset mem f s e more =
    rw (name_more 0 offset mem more, loop_long zero offset mem f s more (ground arith))
      (Reads-more 0 offset [] mem f s _ (omega arith) (omega arith) (record {
        stop = omega arith;
        text = refl;
        before = λ j lt. refl;
        behind = λ j le. refl;
        anomaly = refl;
      }))

-- The loop reads the name at its offset: it stops behind it, the buffer has it and is as it was
-- before and behind it, and the anomaly for long names is noted if the rounds run out.
extract_loop-Reads :
    (n offset : ℕ) (mem : Memory) (f : Flow) (s : DnsProtocol)
    → 1 ≤ offset
    → offset + suc n ≡ 128
    → Reads (suc n) offset (name_bytes (suc n) offset mem) f s (extract_loop (suc n) offset mem f s)
extract_loop-Reads zero offset mem f s k e = elim (Bool-cases (mem offset == 0)) [
  | inl ended ↦ Reads-end 0 offset mem f s ended
  | inr more ↦ Reads-long offset mem f s (omega arith) more
]
extract_loop-Reads (suc m) offset mem f s k e = elim (Bool-cases (mem offset == 0)) [
  | inl ended ↦ Reads-end (suc m) offset mem f s ended
  | inr more ↦
      rw (name_more (suc m) offset mem more, loop_more (suc m) offset mem f s more (ground arith))
        (Reads-more (suc m) offset _ mem f s _ k (omega arith) (
          extract_loop-Reads m (offset + 1) mem f (next_state offset mem s) (omega arith)
            (omega arith)))
]

-- `extract_domain_name` always comes to an end, at an offset of at most 128. It leaves in the
-- buffer the bytes of the message from offset 1 up to the first NUL, 127 at most, control bytes as
-- dots, writes nothing else there and nothing from its 127th place on, and marks the flow with the
-- anomaly for long names if there are 127.
pub extract_domain_name-Reads :
    (mem : Memory) (f : Flow) (s : DnsProtocol)
    → Reads 127 1 (name_bytes 127 1 mem) f s (extract_domain_name mem f s)
unfolding extract_domain_name
extract_domain_name-Reads mem f s = extract_loop-Reads 126 1 mem f s (omega arith) refl
