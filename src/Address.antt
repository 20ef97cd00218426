-- ===== src/Address.antt =====
-- src/IPAddress.h: the addresses of a packet or a flow, and the hash that identifies a flow.
pub mod Symmetry
use aiengine_rewritten_clean.Prelude.{ℕ, Bool, ◌==◌, if◌then◌else◌, ltb, bit_xor}
use aiengine_rewritten_clean.Flow.{IpAddress, Flow}

-- `^` of C.
infixl 60 ◌^^◌
abbrev pub ◌^^◌ : ℕ → ℕ → ℕ
x ^^ y = bit_xor x y

-- `getHash(srcport, protocol, dstport)`.
unfoldable pub get_hash : IpAddress → ℕ → ℕ → ℕ → ℕ
get_hash a srcport protocol dstport =
    if a.type == 4
    then a.ip4_src ^^ srcport ^^ protocol ^^ a.ip4_dst ^^ dstport
    else a.ip6_src 0
      ^^ a.ip6_src 1
      ^^ a.ip6_src 2
      ^^ a.ip6_src 3
      ^^ srcport
      ^^ protocol
      ^^ a.ip6_dst 0
      ^^ a.ip6_dst 1
      ^^ a.ip6_dst 2
      ^^ a.ip6_dst 3
      ^^ dstport

-- `setSourceAddress(address)` and `setDestinationAddress(address)`.
abbrev pub set_source_address : ℕ → IpAddress → IpAddress
set_source_address address a = record a { ip4_src = address; type = 4 }

abbrev pub set_destination_address : ℕ → IpAddress → IpAddress
set_destination_address address a = record a { ip4_dst = address; type = 4 }

-- The four words of `s6_addr32` are copied.
abbrev pub copy_words : (ℕ → ℕ) → (ℕ → ℕ) → ℕ → ℕ
copy_words new old i = if ltb i 4 then new i else old i

-- `setSourceAddress6(address)` and `setDestinationAddress6(address)`.
abbrev pub set_source_address6 : (ℕ → ℕ) → IpAddress → IpAddress
set_source_address6 address a = record a { ip6_src = copy_words address a.ip6_src; type = 6 }

abbrev pub set_destination_address6 : (ℕ → ℕ) → IpAddress → IpAddress
set_destination_address6 address a = record a { ip6_dst = copy_words address a.ip6_dst; type = 6 }

-- `Flow::setFiveTuple` and `Flow::setFiveTuple6`, with the addresses of a packet.
unfoldable pub set_five_tuple : IpAddress → ℕ → ℕ → ℕ → Flow → Flow
set_five_tuple a src_p proto dst_p f = record f {
  address = set_destination_address a.ip4_dst (set_source_address a.ip4_src f.address);
  source_port = src_p;
  dest_port = dst_p;
  protocol = proto;
}

unfoldable pub set_five_tuple6 : IpAddress → ℕ → ℕ → ℕ → Flow → Flow
set_five_tuple6 a src_p proto dst_p f = record f {
  address = set_destination_address6 a.ip6_dst (set_source_address6 a.ip6_src f.address);
  source_port = src_p;
  dest_port = dst_p;
  protocol = proto;
}
