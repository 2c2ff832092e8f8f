-- ===== src/Channel/Record.antt =====
-- Project/Network/src/connection/ChannelRecord.h and ChannelRecord.cpp: which channels each packet
-- sent carried a bunch of, as a flat queue of packet entries and channel entries.
pub mod Groups
use rudp_network_engine.Prelude.{
  ℕ, ◌+◌, ◌-◌, ◌*◌, ◌%◌, ◌^◌, Bool, true, false, not, ◌||◌, List, [], ◌∷◌, ◌++◌, ◌==◌,
  if◌then◌else◌, Option, none, some,
}
use rudp_network_engine.Prelude.Int.{ℤ, pos, negsuc, eq_ℤ}

-- `ChannelRecordEntry`: `Value` has 31 bits, `IsSequence` one.
pub record ChannelRecordEntry : Type 0 where
  pub value : ℕ
  pub is_sequence : Bool

-- `ConnectionChannelRecord`
pub record ConnectionChannelRecord : Type 0 where
  pub entry_record : List ChannelRecordEntry
  pub last_packet_id : ℤ

-- `uint32_t` of an `int32_t`.
abbrev pub to_uint32 : ℤ → ℕ
to_uint32 (pos n) = n % 2 ^ 32
to_uint32 (negsuc n) = (2 ^ 32 - 1 - n % 2 ^ 32)

-- What the 31 bits of `Value` keep.
abbrev pub to_value : ℤ → ℕ
to_value i = to_uint32 i % 2 ^ 31

unfoldable pub create : ConnectionChannelRecord
create = record { entry_record = []; last_packet_id = negsuc 0 }

-- `PushPacketId`
unfoldable pub push_packet_id : ConnectionChannelRecord → ℤ → ConnectionChannelRecord
push_packet_id r packet_id = if eq_ℤ packet_id r.last_packet_id then r else record {
  entry_record = r.entry_record ++ (record { value = to_value packet_id; is_sequence = true } ∷ []);
  last_packet_id = packet_id;
}

-- `PushChannelRecord`
unfoldable pub push_channel_record : ConnectionChannelRecord → ℤ → ℤ → ConnectionChannelRecord
push_channel_record r packet_id channel_index =
    let s = push_packet_id r packet_id in
    record s {
      entry_record =
          s.entry_record ++ (record { value = to_value channel_index; is_sequence = false } ∷ []);
    }

-- The loop of `ConsumeChannelRecordsForPacket`: the channels it calls for, and what is left.
unfoldable pub take_channels : ℕ → List ChannelRecordEntry → List ℕ × List ChannelRecordEntry
take_channels previous [] = ([], [])
take_channels previous (e ∷ rest) =
    let called = take_channels e.value rest in
    if e.is_sequence
    then ([], e ∷ rest)
    else ((if e.value == previous then called.0 else e.value ∷ called.0), called.1)

-- What follows the test of the front entry: the calls of the functor, with its first argument left
-- out, since that is the packet id at each.
unfoldable pub consume_front :
    ConnectionChannelRecord → ℤ → List ChannelRecordEntry → Bool × List ℕ × ConnectionChannelRecord
consume_front r packet_id [] = (true, [], r)
consume_front r packet_id (e ∷ rest) =
    if not e.is_sequence || not (e.value == to_uint32 packet_id)
    then (false, [], r)
    else (let called = take_channels (2 ^ 32 - 1) rest in
        (true, called.0, record r { entry_record = called.1 }))

-- `ConsumeChannelRecordsForPacket`
unfoldable pub consume_channel_records_for_packet :
    ConnectionChannelRecord → ℤ → Bool × List ℕ × ConnectionChannelRecord
consume_channel_records_for_packet r packet_id = consume_front r packet_id r.entry_record
