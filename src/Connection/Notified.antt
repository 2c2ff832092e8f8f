-- ===== src/Connection/Notified.antt =====
-- `ReceivedPacket`, `RecivedAck` and `RecivedNack` of Project/Network/src/connection/NetConnection.cpp.
-- The clock's reading is an argument.
pub mod Told
pub mod InStep
pub mod Received
pub mod Replayed
use rudp_network_engine.Prelude.{
  ℕ, zero, suc, ◌+◌, Bool, true, false, List, [], ◌∷◌, ◌++◌, Option, none, some, get_elem?, set,
  ◌==◌, not, if◌then◌else◌, ◌>>=◌,
}
use rudp_network_engine.Prelude.Int.{ℤ, pos, pos_part, ◌+ℤ◌, ltb_ℤ}
use rudp_network_engine.Sequence.Stream.{WordSource}
use rudp_network_engine.Sequence.History
use rudp_network_engine.Sequence.Notify.{
  Notify, NotificationHeader, Notification, read_header, get_sequence_delta, update,
  is_waiting_for_flush,
}
use rudp_network_engine.Channel.Record.{
  ConnectionChannelRecord, to_uint32, consume_channel_records_for_packet,
}
use rudp_network_engine.Channel.Sending.{SendState, acked, nacked, force_retransmit_all_un_acked}
use rudp_network_engine.Rtt.{consume_acked, consume_nacked}
use rudp_network_engine.Connection.{Connection, NetChannel, close, seq_of}

module _ {B : Type 0} where
  -- `Channels[ChannelIndex]`, and a call on the channel.
  unfoldable pub settle_at :
      (SendState B → SendState B)
      → ℕ
      → List (Option (NetChannel B))
      → Option (Option (NetChannel B))
      → Option (List (Option (NetChannel B)))
  settle_at f index channels none = none
  settle_at f index channels (some none) = none
  settle_at f index channels (some (some ch)) =
      some (set channels index (some (record ch { sending = f ch.sending })))

  -- What the functor of `ConsumeChannelRecordsForPacket` does, for each channel in turn.
  unfoldable pub settle_channels :
      (SendState B → SendState B)
      → List ℕ
      → List (Option (NetChannel B))
      → Option (List (Option (NetChannel B)))
  settle_channels f [] channels = some channels
  settle_channels f (index ∷ rest) channels =
      settle_at f index channels (get_elem? channels index) >>= settle_channels f rest

  -- `ForceRetransmitAllUnAcked` on every channel that is there.
  unfoldable pub force_all : List (Option (NetChannel B)) → List (Option (NetChannel B))
  force_all [] = []
  force_all (none ∷ rest) = none ∷ force_all rest
  force_all (some ch ∷ rest) =
      some (record ch { sending = force_retransmit_all_un_acked ch.sending }) ∷ force_all rest

module _ {B R : Type 0} where
  -- The part of `RecivedAck` and `RecivedNack` after the tracker.
  unfoldable pub settle_packet :
      (SendState B → SendState B) → ℤ → Connection B R → Option (Connection B R)
  settle_packet f packet_id c = do
    let (found, called, rest) = consume_channel_records_for_packet c.channel_record packet_id
    channels ← settle_channels f called c.channels
    let c₁ = record c { channels = channels; channel_record = rest }
    some (if found then c₁ else close c₁)

  -- `RecivedAck`. The tracker compares packet ids that are not negative.
  unfoldable pub received_ack : ℕ → Connection B R → ℤ → Option (Connection B R)
  received_ack now_us c packet_id =
      settle_packet (λ s. acked s (to_uint32 packet_id)) packet_id
        (record c {
          out_ack_packet_id = packet_id;
          rtt_tracker = (consume_acked c.rtt_tracker (pos_part packet_id) now_us).1;
        })

  -- `RecivedNack`
  unfoldable pub received_nack : Connection B R → ℤ → Option (Connection B R)
  received_nack c packet_id =
      settle_packet (λ s. nacked s (to_uint32 packet_id)) packet_id
        (record c { rtt_tracker = consume_nacked c.rtt_tracker (pos_part packet_id) })

  -- `HandlePacketNotification`, the functor that `ReceivedPacket` gives to `Update`.
  unfoldable pub handle_packet_notification :
      ℕ → Connection B R → Notification → Option (Connection B R)
  handle_packet_notification now_us c (acked_sequence, delivered) =
      let packet_id = c.last_notified_send_packet_id +ℤ pos 1 in
      let c₁ = record c { last_notified_send_packet_id = packet_id } in
      if not (seq_of packet_id == acked_sequence)
      then some c₁
      else (if delivered then received_ack now_us c₁ packet_id else received_nack c₁ packet_id)

  -- The calls of the functor, in order.
  unfoldable pub handle_all : ℕ → Connection B R → List Notification → Option (Connection B R)
  handle_all now_us c [] = some c
  handle_all now_us c (n ∷ rest) = do
    c₁ ← handle_packet_notification now_us c n
    handle_all now_us c₁ rest

  -- The last two statements of `ReceivedPacket`.
  unfoldable pub push_reader : Connection B R → ℤ → R → Connection B R
  push_reader c delta reader = record c {
    in_packet_id = c.in_packet_id +ℤ delta;
    pending_readers = c.pending_readers ++ (reader ∷ []);
  }

  -- `ReceivedPacket` where the header is newer; the functor runs inside of `Update` and does not touch
  -- what `Update` works on.
  unfoldable pub received_newer :
      ℕ → Connection B R → NotificationHeader → R → ℤ → Option (Connection B R)
  received_newer now_us c header reader delta = do
    (notes, updated_delta, notify) ← update c.packet_notify header
    c₁ ← handle_all now_us c notes
    let c₂ = record c₁ { packet_notify = notify }
    some (
        if is_waiting_for_flush notify
        then record c₂ {
          has_dirty_acks = c₂.has_dirty_acks + 1;
          channels = force_all c₂.channels;
          in_packet_id = c₂.in_packet_id +ℤ updated_delta;
        }
        else push_reader c₂ delta reader)

  -- `ReceivedPacket` on a header that was read.
  unfoldable pub received_header :
      ℕ → Connection B R → NotificationHeader → R → Option (Connection B R)
  received_header now_us c header reader =
      let delta = get_sequence_delta c.packet_notify header in
      if ltb_ℤ (pos 0) delta
      then received_newer now_us c header reader delta
      else some (push_reader c delta reader)

  -- `ReceivedPacket`, from the stream of the packet's header.
  unfoldable pub received_packet :
      (source : WordSource) → source.Stream → ℕ → Connection B R → R → Option (Connection B R)
  received_packet source words now_us c reader =
      let (ok, header, rest) = read_header source History.reset words in
      if ok then received_header now_us c header reader else some c
