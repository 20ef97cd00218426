-- ===== src/Packet.antt =====
-- src/Packet.h and src/RawPacket.h: a packet on its way through the protocols.
--
-- A pointer into the packet's bytes is the list of the bytes from there on. A length is an int,
-- and may differ from the number of those bytes. Times are 64-bit patterns. A copy of a packet has
-- the same fields.
use aiengine_rewritten_clean.Prelude.{ℕ, ◌-◌, ◌^◌, Bool, true, false, Bytes, drop}
use aiengine_rewritten_clean.Prelude.Int.{ℤ, pos, ◌-ℤ◌, to_int}
use aiengine_rewritten_clean.Anomaly.{PacketAnomalyType, Hits, inc_anomaly}

-- `RawPacket`.
pub record RawPacket : Type 0 where
  pub payload : Bytes
  pub length : ℤ

pub record Packet : Type 0 where
  pub curr_packet : RawPacket
  pub prev_packet : RawPacket
  pub link_packet : RawPacket
  pub net_packet : RawPacket
  pub trans_packet : RawPacket
  pub prev_header_size : ℤ
  pub source_port : ℕ
  pub dest_port : ℕ
  pub pa : PacketAnomalyType
  pub packet_time : ℕ
  pub have_tag : Bool
  pub have_evidence : Bool
  pub tag : ℕ

-- `Packet(packet, length, prev_header_size, pa, packet_time)`.
abbrev pub make : Bytes → ℤ → ℤ → PacketAnomalyType → ℕ → Packet
make payload len prev_header_size pa packet_time = record {
  curr_packet = raw;
  prev_packet = raw;
  link_packet = raw;
  net_packet = raw;
  trans_packet = raw;
  prev_header_size = prev_header_size;
  source_port = 0;
  dest_port = 0;
  pa = pa;
  packet_time = packet_time;
  have_tag = false;
  have_evidence = false;
  tag = 2 ^ 32 - 1;
}
  where
    raw : RawPacket
    raw = record { payload = payload; length = len }

-- `setTag(tag)`.
abbrev pub set_tag : ℕ → Packet → Packet
set_tag tag p = record p { have_tag = true; tag = tag }

-- `setPayload(packet)`: the payload until now is the one before.
unfoldable pub set_payload : Bytes → Packet → Packet
set_payload payload p = record p {
  prev_packet = let r = p.prev_packet in record r { payload = p.curr_packet.payload };
  curr_packet = let r = p.curr_packet in record r { payload = payload };
}

-- `setPayloadLength(length)`.
unfoldable pub set_payload_length : ℤ → Packet → Packet
set_payload_length n p = record p { curr_packet = let r = p.curr_packet in record r { length = n } }

-- The payload and its length without a header: `setPayload(&getPayload()[n])`, and
-- `setPayloadLength(getLength() - n)`.
unfoldable pub strip : ℕ → Packet → Packet
unfolding set_payload set_payload_length
strip n p =
    set_payload_length (to_int (p.curr_packet.length -ℤ pos n))
      (set_payload (drop n p.curr_packet.payload) p)

-- `setPacketAnomaly(pa)` counts the anomaly.
unfoldable pub set_packet_anomaly : PacketAnomalyType → Packet × Hits → Packet × Hits
set_packet_anomaly pa (p, hits) = (record p { pa = pa }, inc_anomaly pa hits)
