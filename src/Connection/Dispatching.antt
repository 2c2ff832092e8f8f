-- ===== src/Connection/Dispatching.antt =====
-- `DispatchPacket` and `DispatchPendingPacket` of Project/Network/src/connection/NetConnection.cpp, on
-- packets that are the bytes of their payload. The messages that reach `ReceivedMessage` of a channel
-- are the result, each with the index of its channel, in order.
pub mod Fuel
pub mod Pending
use rudp_network_engine.Prelude.{
  ℕ, zero, suc, ◌+◌, ◌-◌, ◌*◌, ◌%◌, ◌^◌, ◌≤◌, ◌<◌, Bool, true, false, not, ◌&&◌, ◌||◌, List, [],
  ◌∷◌, ◌++◌, Option, none, some, length, map, get_elem?, get_or, set, bit_and, ltb, leb, ◌==◌,
  if◌then◌else◌,
}
use rudp_network_engine.Sequence.Notify.{ack_seq}
use rudp_network_engine.Channel.Receiving.{
  BufferReader, Message, InBunch, can_read, read_view, next, receive_bunch,
}
use rudp_network_engine.Connection.{Connection, NetChannel, max_ch_sequence, seq_of}
use rudp_network_engine.Connection.Relative.{make_relative}

-- What the header of a bunch says.
pub record BunchHeaderFields : Type 0 where
  pub b_open : Bool
  pub b_reliable : Bool
  pub ch_index : ℕ
  pub ch_sequence : ℕ
  pub message_count : ℕ
  pub payload_size : ℕ

-- A number of `size` bytes, the lowest first, from the place `at`.
unfoldable pub little_endian : List ℕ → ℕ → ℕ → ℕ
little_endian bytes at zero = 0
little_endian bytes at (suc size) = get_or bytes at 0 + 2 ^ 8 * little_endian bytes (at + 1) size

-- The reads from `BunchHeader`. Its view has nine bytes at least, which these reads take.
unfoldable pub read_fields : List ℕ → BunchHeaderFields
read_fields bytes = record {
  b_open = not (bit_and (get_or bytes 0 0) 2 == 0);
  b_reliable = not (bit_and (get_or bytes 0 0) 8 == 0);
  ch_index = get_or bytes 1 0;
  ch_sequence = little_endian bytes 2 4;
  message_count = get_or bytes 6 0;
  payload_size = little_endian bytes 7 2;
}

-- `MIN_BUNCH_HEADER_BYTES`
abbrev pub min_bunch_header_bytes : ℕ
min_bunch_header_bytes = 10

module _ (B : Type 0) where
  -- What `DispatchPacket` builds up: the channels, the messages passed on and the error flag.
  pub record Dispatched : Type 0 where
    pub channels : List (Option (NetChannel B))
    pub passed_on : List (ℕ × Message)
    pub has_bunch_errors : Bool

module _ {B : Type 0} where
  unfoldable pub fail : Dispatched B → Dispatched B
  fail d = record d { has_bunch_errors = true }

  -- The bunch reaches its channel, where the number is the one expected or too early.
  unfoldable pub receive_in :
      Dispatched B → NetChannel B → BunchHeaderFields → ℕ → List ℕ → Dispatched B
  receive_in d ch f ch_sequence view =
      let received =
        receive_bunch ch.receiving f.b_reliable ch_sequence
          (record { buffer = view; message_count = f.message_count }) in
      record d {
        channels = set d.channels f.ch_index (some (record ch { receiving = received.1 }));
        passed_on = d.passed_on ++ map (λ m. (f.ch_index, m)) received.0;
      }

  -- The number of the bunch in the channel.
  unfoldable pub sequence_in : NetChannel B → BunchHeaderFields → ℕ
  sequence_in ch f =
      if f.b_reliable
      then make_relative f.ch_sequence ch.receiving.in_reliable max_ch_sequence
      else f.ch_sequence

  -- A round from the channel on. The kinds of channel are 0, control, and 1, actors; a bunch of
  -- another is an error, unless it comes too early, and ends the packet at a server.
  unfoldable pub round_in :
      Bool
      → Dispatched B
      → BunchHeaderFields
      → BufferReader
      → Option (NetChannel B)
      → Dispatched B × Option BufferReader
  round_in is_server d f r none = (fail d, none)
  round_in is_server d f r (some ch) =
      let ch_sequence = sequence_in ch f in
      let payload = read_view r f.payload_size in
      let early = f.b_reliable && not (ch_sequence == next ch.receiving.in_reliable) in
      let there = record d { channels = set d.channels f.ch_index (some ch) } in
      if early || leb f.ch_index 1
      then (receive_in d ch f ch_sequence payload.0, some payload.1)
      else (fail there, (if is_server then none else some payload.1))

  -- `Channels[ChIndex]`, made by `CreateChannelByName` where it is null.
  unfoldable pub channel_for :
      (ℕ → Bool → Option (NetChannel B))
      → BunchHeaderFields
      → Option (Option (NetChannel B))
      → Option (NetChannel B)
  channel_for create f none = none
  channel_for create f (some none) = create f.ch_index (f.b_reliable || f.b_open)
  channel_for create f (some (some ch)) = some ch

  -- A round of the loop: what it built up, and the reader if the loop goes on. `create` stands for the
  -- virtual `CreateChannelByName`, on the index and on whether the name was set.
  unfoldable pub dispatch_round :
      (ℕ → Bool → Option (NetChannel B))
      → Bool
      → Dispatched B
      → BufferReader
      → Dispatched B × Option BufferReader
  dispatch_round create is_server d r =
      let size = read_view r 1 in
      let header = read_view size.1 (get_or size.0 0 0 - 1) in
      let f = read_fields header.0 in
      if ltb (get_or size.0 0 0) min_bunch_header_bytes || length header.0 == 0
      then (fail d, none)
      else (if leb 128 f.ch_index || leb (length d.channels) f.ch_index
          then (fail d, none)
          else round_in is_server d f header.1
              (channel_for create f (get_elem? d.channels f.ch_index)))

  abbrev pub go_on :
      (Dispatched B → BufferReader → Dispatched B)
      → Dispatched B × Option BufferReader
      → Dispatched B
  go_on later (d, none) = d
  go_on later (d, some r) = later d r

  -- The loop, on fuel. A round takes a byte at least, so the length of the payload is enough.
  unfoldable pub dispatch_loop :
      (ℕ → Bool → Option (NetChannel B)) → Bool → ℕ → Dispatched B → BufferReader → Dispatched B
  dispatch_loop create is_server zero d r = d
  dispatch_loop create is_server (suc fuel) d r = elim (can_read r 1) [
    | true ↦ go_on (dispatch_loop create is_server fuel) (dispatch_round create is_server d r)
    | false ↦ d
  ]

  -- `DispatchPacket` on an open connection. It never asks to skip the acknowledgement.
  unfoldable pub dispatch_packet :
      (ℕ → Bool → Option (NetChannel B))
      → Bool
      → List (Option (NetChannel B))
      → List ℕ
      → Dispatched B
  dispatch_packet create is_server channels payload =
      dispatch_loop create is_server (length payload)
        (record { channels = channels; passed_on = []; has_bunch_errors = false })
        (record { view = payload; error = false })

  -- `DispatchPendingPacket` on one packet; the messages of a closed connection stay unread.
  unfoldable pub dispatch_one :
      (ℕ → Bool → Option (NetChannel B))
      → Bool
      → Connection B (List ℕ)
      → List ℕ
      → List (ℕ × Message) × Connection B (List ℕ)
  dispatch_one create is_server c payload =
      let d =
        if c.is_closed
        then record { channels = c.channels; passed_on = []; has_bunch_errors = false }
        else dispatch_packet create is_server c.channels payload in
      (
        d.passed_on,
        record c {
          channels = d.channels;
          packet_notify = ack_seq c.packet_notify (seq_of c.in_packet_id) true;
        },
      )

  unfoldable pub dispatch_all :
      (ℕ → Bool → Option (NetChannel B))
      → Bool
      → Connection B (List ℕ)
      → List (List ℕ)
      → List (ℕ × Message) × Connection B (List ℕ)
  dispatch_all create is_server c [] = ([], record c { pending_readers = [] })
  dispatch_all create is_server c (payload ∷ rest) =
      let first = dispatch_one create is_server c payload in
      let later = dispatch_all create is_server first.1 rest in (first.0 ++ later.0, later.1)

  -- `DispatchPendingPacket`
  unfoldable pub dispatch_pending_packet :
      (ℕ → Bool → Option (NetChannel B))
      → Bool
      → Connection B (List ℕ)
      → List (ℕ × Message) × Connection B (List ℕ)
  dispatch_pending_packet create is_server c = dispatch_all create is_server c c.pending_readers
