-- ===== src/Connection.antt =====
-- Project/Network/src/connection/NetConnection.h and NetConnection.cpp: a connection with its channels,
-- its record of packets and its packet notification. A bunch is a type `B` and a packet that waits to
-- be read a type `R`: the connection only moves them, but where a child module says what they are.
-- `none` stands for what C++ leaves undefined: a fault of the packet notification, or a channel that
-- is not there.
pub mod Relative
pub mod Notified
pub mod Packets
pub mod Assembling
pub mod Dispatching
mod Examples
use rudp_network_engine.Prelude.{
  ℕ, ◌+◌, ◌-◌, ◌%◌, ◌^◌, Bool, true, false, List, [], ◌∷◌, Option, none, some, map, if◌then◌else◌,
}
use rudp_network_engine.Prelude.Int.{ℤ, pos, negsuc, ◌+ℤ◌, ◌-ℤ◌, eq_ℤ}
use rudp_network_engine.Sequence.Notify
use rudp_network_engine.Sequence.Notify.{Notify}
use rudp_network_engine.Sequence.Number.{make_seq}
use rudp_network_engine.Channel.Record.{ConnectionChannelRecord, to_uint32}
use rudp_network_engine.Channel.Sending.{SendState}
use rudp_network_engine.Channel.Receiving.{RecvState}
use rudp_network_engine.Rtt.{Tracker}

-- `MAX_CHSEQUENCE`
abbrev pub max_ch_sequence : ℕ
max_ch_sequence = 1024

module _ (B : Type 0) where
  -- `NetChannel`: the two halves of Channel/Sending and Channel/Receiving, and `OutReliable`.
  pub record NetChannel : Type 0 where
    pub b_open : Bool
    pub out_reliable : ℕ
    pub sending : SendState B
    pub receiving : RecvState

module _ (B R : Type 0) where
  -- The members of `NetConnection` that its logic changes; a null channel is `none`.
  pub record Connection : Type 0 where
    pub is_closed : Bool
    pub packet_notify : Notify
    pub channel_record : ConnectionChannelRecord
    pub rtt_tracker : Tracker
    pub channels : List (Option (NetChannel B))
    pub in_packet_id : ℤ
    pub out_packet_id : ℤ
    pub out_ack_packet_id : ℤ
    pub last_notified_send_packet_id : ℤ
    pub init_in_reliable : ℕ
    pub init_out_reliable : ℕ
    pub pending_readers : List R
    pub has_dirty_acks : ℕ

-- The sequence number that `SequenceNumberT` makes of an `int32_t`.
unfoldable pub seq_of : ℤ → ℕ
seq_of i = make_seq (to_uint32 i)

module _ {B : Type 0} where
  -- `UpdateChannelSeq` on a channel that is there.
  unfoldable pub update_channel_seq : ℕ → ℕ → NetChannel B → NetChannel B
  update_channel_seq in_reliable out_reliable ch = record ch {
    out_reliable = out_reliable;
    sending = record ch.sending { out_bunch_queue = []; out_un_acked_bunches = [] };
    receiving = record ch.receiving { in_reliable = in_reliable; in_unread_bunch_map = [] };
  }

  unfoldable pub update_all : ℕ → ℕ → List (Option (NetChannel B)) → List (Option (NetChannel B))
  update_all in_reliable out_reliable [] = []
  update_all in_reliable out_reliable (none ∷ rest) =
      none ∷ update_all in_reliable out_reliable rest
  update_all in_reliable out_reliable (some ch ∷ rest) =
      some (update_channel_seq in_reliable out_reliable ch)
      ∷ update_all in_reliable out_reliable rest

module _ {B R : Type 0} where
  -- `Close`, but for telling the driver, which forgets the connection.
  unfoldable pub close : Connection B R → Connection B R
  close c = record c { is_closed = true }

  -- `InitSequence` where no sequence was set before.
  unfoldable pub first_sequence : Connection B R → ℤ → ℤ → Connection B R
  first_sequence c incoming outgoing =
      let in_reliable = to_uint32 incoming % max_ch_sequence in
      let out_reliable = to_uint32 outgoing % max_ch_sequence in
      record c {
        in_packet_id = incoming -ℤ pos 1;
        out_packet_id = outgoing;
        out_ack_packet_id = outgoing -ℤ pos 1;
        last_notified_send_packet_id = outgoing -ℤ pos 1;
        init_in_reliable = in_reliable;
        init_out_reliable = out_reliable;
        pending_readers = [];
        channel_record = record c.channel_record { entry_record = [] };
        packet_notify = Notify.init c.packet_notify (seq_of (incoming -ℤ pos 1)) (seq_of outgoing);
        channels = update_all in_reliable out_reliable c.channels;
      }

  -- `InitSequence`
  unfoldable pub init_sequence : Connection B R → ℤ → ℤ → Bool × Connection B R
  init_sequence c incoming outgoing =
      if eq_ℤ c.in_packet_id (negsuc 0)
      then (true, first_sequence c incoming outgoing)
      else (false, c)
