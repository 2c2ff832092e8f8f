-- ===== src/Connection/Packets.antt =====
-- Project/Network/src/net_packet/NetPacket.h, NetPacket.cpp and NetPacketBuilder: a packet as it is put
-- together from bunches. A message is a type `M`. The bytes of a packet's header are a parameter where
-- they are copied, and a view is what it points at.
pub mod Views
use rudp_network_engine.Prelude.{
  ℕ, ◌+◌, ◌%◌, ◌^◌, ◌≤◌, ◌≡◌, refl, ◌∙◌, ap, Bool, true, false, not, ◌||◌, List, [], ◌∷◌, ◌++◌, map,
  length, drop, replicate, ltb, if◌then◌else◌, arith,
}
use rudp_network_engine.Channel.Building.{OutReadyBunch}

-- `PacketHeaderSize`
abbrev pub packet_header_size : ℕ
packet_header_size = 10

-- `PacketMaxSize`
abbrev pub packet_max_size : ℕ
packet_max_size = 1024

module _ (M : Type 0) where
  -- `PacketBufferView`: the header of the packet, that of a bunch or a message, each with its size.
  pub data PacketBufferView : Type 0 where
    packet_header : ℕ → PacketBufferView
    bunch_header : OutReadyBunch M → PacketBufferView
    message : M → PacketBufferView

  pub record OutReadyPacket : Type 0 where
    pub buffer_views : List PacketBufferView
    pub header : List ℕ
    pub bunchs : List (OutReadyBunch M)
    pub header_size : ℕ
    pub total_size : ℕ
    pub send_time_us : ℕ
    pub dirty_flag : Bool
    pub b_processor_packet : Bool
    pub out_packet_id : ℕ

module _ {M : Type 0} where
  -- `OutReadyPacket::BuildBegin`
  unfoldable pub build_begin : ℕ → Bool → OutReadyPacket M
  build_begin header_size processor_packet = record {
    buffer_views = [];
    header = replicate header_size 0;
    bunchs = [];
    header_size = header_size;
    total_size = header_size;
    send_time_us = 0;
    dirty_flag = true;
    b_processor_packet = processor_packet;
    out_packet_id = 0;
  }

  -- `OutReadyPacket::BuildEnd` with the bytes that it copies.
  unfoldable pub build_end : OutReadyPacket M → List ℕ → ℕ → OutReadyPacket M
  build_end p bytes now = record p {
    header = bytes ++ drop (length bytes) p.header;
    send_time_us = now;
  }

  -- `OutReadyPacket::Push`
  unfoldable pub push : OutReadyPacket M → OutReadyBunch M → OutReadyPacket M
  push p b = if p.b_processor_packet then p else record p {
    total_size = (p.total_size + b.total_size) % 2 ^ 32;
    bunchs = p.bunchs ++ (b ∷ []);
    dirty_flag = true;
  }

  unfoldable pub bunch_views : List (OutReadyBunch M) → List (PacketBufferView M)
  bunch_views [] = []
  bunch_views (b ∷ rest) = bunch_header b ∷ map message b.messages ++ bunch_views rest

  -- `OutReadyPacket::PacketSealed`, but for its assertion.
  unfoldable pub packet_sealed : OutReadyPacket M → OutReadyPacket M
  packet_sealed p = if not p.dirty_flag then p else record p {
    buffer_views =
        packet_header p.header_size ∷ (if p.b_processor_packet then [] else bunch_views p.bunchs);
    dirty_flag = false;
  }

  -- `ConnectionPacketBuilder::BuildStart`
  unfoldable pub build_start : OutReadyPacket M
  build_start = build_begin packet_header_size false

  -- `ConnectionPacketBuilder::Append`
  unfoldable pub append : OutReadyPacket M → OutReadyBunch M → Bool × OutReadyPacket M
  append p b =
      if ltb packet_max_size b.total_size
        || ltb packet_max_size ((p.total_size + b.total_size) % 2 ^ 32)
      then (false, p)
      else (true, push p b)

module _ {M : Type 0} (size : M → ℕ) where
  unfoldable pub view_size : PacketBufferView M → ℕ
  view_size (packet_header n) = n
  view_size (bunch_header b) = b.header_size
  view_size (message m) = size m

  -- `TestTotalMessageSize` of the assertion in `PacketSealed`.
  unfoldable pub views_size : List (PacketBufferView M) → ℕ
  views_size [] = 0
  views_size (v ∷ rest) = view_size v + views_size rest
