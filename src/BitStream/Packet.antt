-- ===== src/BitStream/Packet.antt =====
-- `PacketHeader` of Project/Network/src/net_packet/NetPacket.cpp and the constructor of
-- `RecvPacketReader` (NetPacketReader.cpp): the header's size byte, and a received datagram cut in two.
pub mod Received
pub mod Inside
use rudp_network_engine.Prelude.{
  ℕ, ◌+◌, ◌-◌, ◌*◌, ◌/◌, ◌%◌, ◌^◌, Bool, true, false, List, [], ◌∷◌, set, drop, bit_and, ltb,
  if◌then◌else◌,
}
use rudp_network_engine.BitStream.Copy.{byte}
use rudp_network_engine.BitStream.Writer.{Writer, create, serialize, num_bytes}
use rudp_network_engine.BitStream.Reader
use rudp_network_engine.BitStream.Reader.{Reader}

pub record PacketHeader : Type 0 where
  pub buffer : Writer
  pub sealed : Bool
  pub overflow : Bool

-- The constructor, with `PreSizeHold`
unfoldable pub packet_header : ℕ → PacketHeader
packet_header reserve_bits = record {
  buffer = serialize (create reserve_bits false) (0 ∷ []) 1;
  sealed = false;
  overflow = false;
}

-- `HeaderSealed`
unfoldable pub header_sealed : PacketHeader → PacketHeader
header_sealed h =
    let bytes = num_bytes (h.buffer) in
    if h.sealed then h else record {
      buffer = record (h.buffer) { buffer = set (h.buffer.buffer) 0 (bit_and bytes 0xFF) };
      sealed = true;
      overflow = if ltb 255 bytes then true else h.overflow;
    }

-- What the constructor of `RecvPacketReader` makes of the data: the reader of the header, and where
-- the payload starts in the data and its size.
pub record RecvPacketReader : Type 0 where
  pub header : Reader
  pub payload_offset : ℕ
  pub payload_size : ℕ

unfoldable pub receive : List ℕ → ℕ → RecvPacketReader
receive datagram num_of_bytes =
    let header_byte_size = byte datagram 0 in
    let header_data_byte_size = (header_byte_size + 2 ^ 8 - 1) % 2 ^ 8 in
    record {
      header = Reader.create (drop 1 datagram) (header_data_byte_size * 8);
      payload_offset = header_byte_size;
      payload_size = (num_of_bytes + 2 ^ 32 - header_byte_size) % 2 ^ 32;
    }
