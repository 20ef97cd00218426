-- ===== src/Dns/Wire.antt =====
-- Names as src/protocols/dns/DNSProtocol.cc finds them on the wire: labels, each behind its length.
use aiengine_rewritten_clean.Prelude.{
  ℕ, zero, suc, ◌+◌, ◌≤◌, ◌<◌, ◌≡◌, ap, ◌∙◌, List, [], ◌∷◌, ◌++◌, arith, Bytes, length,
}
use aiengine_rewritten_clean.Names.Split.{join}
use aiengine_rewritten_clean.Dns.Message.{
  DnsProtocol, Flow, Memory, clean, extract_domain_name, read_buffer,
}
use aiengine_rewritten_clean.Dns.Extract.{
  name_bytes, name_end, name_more, Reads, extract_domain_name-Reads,
}

-- The bytes stand in the memory, one after the other.
abbrev pub Here : Memory → ℕ → Bytes → Type 0
Here mem offset [] = Unit {0}
Here mem offset (b ∷ bs) = (mem offset ≡ b) × Here mem (offset + 1) bs

-- A label of a name: not empty, shorter than 32 bytes, of printable bytes.
abbrev pub Printable : Bytes → Type 0
Printable [] = Unit {0}
Printable (b ∷ bs) = (32 ≤ b) × Printable bs

abbrev pub Labels : List Bytes → Type 0
Labels [] = Unit {0}
Labels (l ∷ ls) = (1 ≤ length l) × (length l < 32) × Printable l × Labels ls

-- A name on the wire, from behind its first length byte.
abbrev pub encode : Bytes → List Bytes → Bytes
encode l [] = l ++ 0 ∷ []
encode l (m ∷ ls) = l ++ (length m ∷ encode m ls)

name_bytes-suc :
    (n offset b : ℕ) (mem : Memory)
    → mem offset ≡ suc b
    → name_bytes (suc n) offset mem ≡ clean (suc b) ∷ name_bytes n (offset + 1) mem
name_bytes-suc n offset b mem h =
    name_more n offset mem (ground arith) ∙ ap (λ x. clean x ∷ name_bytes n (offset + 1) mem) h

clean-printable : (b : ℕ) → 32 ≤ b → clean b ≡ b
clean-printable b h = ground arith

name_bytes-byte :
    (n offset b : ℕ) (mem : Memory)
    → mem offset ≡ b
    → 32 ≤ b
    → name_bytes (suc n) offset mem ≡ b ∷ name_bytes n (offset + 1) mem
name_bytes-byte n offset b mem h k =
    name_more n offset mem (ground arith)
    ∙ ap (λ x. x ∷ name_bytes n (offset + 1) mem) (ap clean h ∙ clean-printable b k)

name_bytes-dot :
    (n offset b : ℕ) (mem : Memory)
    → mem offset ≡ b
    → 1 ≤ b
    → b < 32
    → name_bytes (suc n) offset mem ≡ b'.' ∷ name_bytes n (offset + 1) mem
name_bytes-dot n offset b mem h k lt =
    name_more n offset mem (ground arith)
    ∙ ap (λ x. x ∷ name_bytes n (offset + 1) mem) (ground arith)

name_bytes-encode :
    (l : Bytes) (ls : List Bytes) (n offset : ℕ) (mem : Memory)
    → Printable l
    → Labels ls
    → Here mem offset (encode l ls)
    → length (join (l ∷ ls)) < n
    → name_bytes n offset mem ≡ join (l ∷ ls)
name_bytes-encode l ls zero offset mem p q h lt = absurd (omega arith)
name_bytes-encode [] [] (suc n) offset mem p q h lt = name_end n offset mem (ground (arith, h.0))
name_bytes-encode [] (m ∷ ls) (suc n) offset mem p q h lt =
    name_bytes-dot n offset (length m) mem h.0 q.0 q.1
    ∙ ap (◌∷◌ b'.') (name_bytes-encode m ls n (offset + 1) mem q.2 q.3 h.1 (omega arith))
name_bytes-encode (b ∷ l) [] (suc n) offset mem p q h lt =
    name_bytes-byte n offset b mem h.0 p.0
    ∙ ap (◌∷◌ b) (name_bytes-encode l [] n (offset + 1) mem p.1 q h.1 (omega arith))
name_bytes-encode (b ∷ l) (m ∷ ls) (suc n) offset mem p q h lt =
    name_bytes-byte n offset b mem h.0 p.0
    ∙ ap (◌∷◌ b) (name_bytes-encode l (m ∷ ls) n (offset + 1) mem p.1 q h.1 (omega arith))

-- A name of labels that are not empty, have fewer than 32 bytes each and printable bytes only, and
-- fewer than 127 bytes with the dots, is read as the labels with a dot between each two: the buffer
-- has it, the offset is that of the NUL behind it, and no anomaly is noted.
pub extract-encode :
    (l : Bytes) (ls : List Bytes) (mem : Memory) (f : Flow) (s : DnsProtocol)
    → Labels (l ∷ ls)
    → Here mem 1 (encode l ls)
    → length (join (l ∷ ls)) < 127
    → let r = extract_domain_name mem f s in
      (read_buffer 0 (length (join (l ∷ ls))) r.2.buffer ≡ join (l ∷ ls))
      × (r.0 ≡ 1 + length (join (l ∷ ls)))
      × (r.1.pa ≡ f.pa)
extract-encode l ls mem f s q h lt =
    let name = name_bytes-encode l ls 127 1 mem q.2 q.3 h lt in
    let d = extract_domain_name-Reads mem f s in
    let reads : Reads 127 1 (join (l ∷ ls)) f s (extract_domain_name mem f s) = rw name at d in
    (reads.text, reads.stop, reads.anomaly ∙ ground arith)
