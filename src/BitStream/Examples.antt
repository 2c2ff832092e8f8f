-- ===== src/BitStream/Examples.antt =====
-- Runs of the bit streams, and the theorems at concrete streams.
use rudp_network_engine.Prelude.{
  ℕ, ◌+◌, ◌-◌, ◌*◌, ◌^◌, ◌≤◌, ◌<◌, ◌≡◌, ◌↔◌, suc, refl, sym, ap, true, false, List, [], ◌∷◌, length,
  drop, replicate, arith,
}
use rudp_network_engine.Sequence.Number.{increment, make_seq, distance, diff, seq_ge}
use rudp_network_engine.Sequence.History
use rudp_network_engine.Sequence.History.{reset}
use rudp_network_engine.Sequence.Notify.{
  Notify, needed_word_count, current_sequence_history_length, write_with, write_header, read_header,
}
use rudp_network_engine.Sequence.Notify.Valid.{IsValid}
use rudp_network_engine.Sequence.Notify.Exchange.{header_of}
use rudp_network_engine.BitStream.Copy.{
  bit, byte, app_bits_cpy, copy_long, first_cursor, first_accu, loop_step, last_byte, refill,
  full_loop_of, short_store,
}
use rudp_network_engine.BitStream.Copy.Stored.{Moved}
use rudp_network_engine.BitStream.Copy.Copied.{app_bits_cpy-Moved}
use rudp_network_engine.BitStream.Writer
use rudp_network_engine.BitStream.Writer.{Writer}
use rudp_network_engine.BitStream.Writer.Appended.{
  IsWriter, create-IsWriter, serialize_bits-Appended, serialize-Appended,
}
use rudp_network_engine.BitStream.Reader
use rudp_network_engine.BitStream.Reader.{Reader, test_bit, clear_tail}
use rudp_network_engine.BitStream.Transfer.{
  writer_sink, reader_source, Receives, serialize_bits-written,
}
use rudp_network_engine.BitStream.Packet.{PacketHeader, packet_header, receive}
use rudp_network_engine.BitStream.Packet.Received.{
  IsSealed, create-Receives, datagram, receive-sealed,
}
use rudp_network_engine.BitStream.Packet.Inside.{receive-inside_iff}
use rudp_network_engine.BitStream.Packed.{
  packed_byte, packed_bytes, writer_serialize_int_packed, reader_serialize_int_packed,
}
use rudp_network_engine.BitStream.Packed.Transfer.{serialize_int_packed-written}
use rudp_network_engine.BitStream.Int.{
  writer_serialize_int, reader_serialize_int, ceil_log_two, read_int, count_leading_zeros,
  bit_scan_reverse,
}
use rudp_network_engine.BitStream.Int.Transfer.{serialize_int-Appended, serialize_int-written}
use rudp_network_engine.BitStream.Transfer.Header.{write_header-IsWriter, read-written_header}
use rudp_network_engine.BitStream.Transfer.Cut.{read-cut_header}

abbrev four : List ℕ
four = 0xFF ∷ 0xFF ∷ 0xFF ∷ 0xFF ∷ []

abbrev source : List ℕ
source = 0xAB ∷ 0xCD ∷ 0xEF ∷ []

-- 18 bits from bit 5 to bit 3: 0b01_1110_0110_1101_0101 (0xEFCDAB >> 5) among ones.
copy_runs : app_bits_cpy four 3 source 5 18 ≡ 0x6F ∷ 0xF3 ∷ 0xFB ∷ 0xFF ∷ []
unfolding app_bits_cpy copy_long first_cursor first_accu loop_step last_byte refill full_loop_of
copy_runs = refl

app_bits_cpy-Moved_example :
    (length (app_bits_cpy four 3 source 5 18) ≡ 4)
    × ((j : ℕ) → Moved four 3 source 5 21 (app_bits_cpy four 3 source 5 18) j)
app_bits_cpy-Moved_example = app_bits_cpy-Moved four 3 source 5 18 (omega arith)

abbrev empty : Writer
empty = Writer.create 32 false

empty-IsWriter : IsWriter empty
empty-IsWriter = create-IsWriter 32 false

empty_room : empty.pos + 10 ≤ empty.max
unfolding Writer.create
empty_room = omega arith

abbrev ten : Writer
ten = Writer.serialize_bits empty source 10

ten-IsWriter : IsWriter ten
ten-IsWriter = (serialize_bits-Appended empty empty-IsWriter source 10 empty_room).still

abbrev ten_reader : Reader
ten_reader = Reader.create (ten.buffer) (ten.max)

serialize_bits-written_example :
    ((i : ℕ) → i < 10 → bit ((Reader.serialize_bits ten_reader (0 ∷ 0 ∷ []) 10).0) i ≡ bit source i)
    × ((Reader.serialize_bits ten_reader (0 ∷ 0 ∷ []) 10).1
        ≡ record ten_reader { pos = ten_reader.pos + 10 })
unfolding Writer.create Reader.create
serialize_bits-written_example =
    serialize_bits-written 0 source (0 ∷ 0 ∷ []) 10 empty-IsWriter empty_room (omega arith)
      (create-Receives ten ten-IsWriter) refl

-- A packet header of 80 bits with 15 of them used before the sequence header.
abbrev opened : Writer
opened = Writer.serialize_bits ((packet_header 80).buffer) (0x2A ∷ []) 7

opened-IsWriter : IsWriter opened
unfolding packet_header Writer.create
opened-IsWriter =
    let size =
      serialize-Appended (Writer.create 80 false) (create-IsWriter 80 false) (0 ∷ []) 1
        (omega arith) in
    (serialize_bits-Appended (Writer.serialize (Writer.create 80 false) (0 ∷ []) 1) (size.still)
      (0x2A ∷ []) 7 (omega (arith, size.pos_after, size.max_kept))).still

-- The last packet received is `in_ack`, and the peer knows of none of those before it.
abbrev unconfirmed : ℕ → Notify
unconfirmed in_ack = record {
  ack_record = [];
  written_history_word_count = 0;
  written_in_ack_seq = 0;
  in_seq_history = replicate 8 5;
  in_seq = in_ack;
  in_ack_seq = in_ack;
  in_ack_seq_ack = 0;
  waiting_for_flush_seq_ack = 99;
  out_seq = 100;
  out_ack_seq = 99;
}

abbrev few : Notify
few = unconfirmed 20

abbrev many : Notify
many = unconfirmed 40

few-IsValid : IsValid few
unfolding increment make_seq
few-IsValid = omega arith

many-IsValid : IsValid many
unfolding increment make_seq
many-IsValid = omega arith

abbrev written_by : Notify → Writer
written_by s = (write_header writer_sink s false opened).2

abbrev reader_of : Notify → Reader
reader_of s = record (Reader.create ((written_by s).buffer) ((written_by s).max)) { pos = 15 }

reader_of-Receives : (s : Notify) → IsValid s → Receives 0 (written_by s) (reader_of s)
reader_of-Receives s v =
    let got = create-Receives (written_by s) (write_header-IsWriter s opened v opened-IsWriter) in
    record { ok = got.ok; whole = got.whole; agree = got.agree }

opened_pos : opened.pos ≡ 15
unfolding packet_header Writer.create Writer.serialize Writer.serialize_bits Writer.allow_append
opened_pos = refl

opened_max : opened.max ≡ 80
unfolding packet_header Writer.create Writer.serialize Writer.serialize_bits Writer.allow_append
opened_max = refl

few_words : needed_word_count few ≡ 1
unfolding needed_word_count current_sequence_history_length diff seq_ge distance
few_words = refl

many_words : needed_word_count many ≡ 2
unfolding needed_word_count current_sequence_history_length diff seq_ge distance
many_words = refl

read-written_header_example :
    read_header reader_source reset (reader_of few)
    ≡ (true, header_of few, record (reader_of few) { pos = 15 + 32 * suc (needed_word_count few) })
read-written_header_example =
    read-written_header 0 few-IsValid opened-IsWriter
      (omega (arith, opened_pos, opened_max, few_words)) (reader_of-Receives few few-IsValid)
      (sym opened_pos)

written_max : (written_by many).max ≡ 80
unfolding write_header write_with History.write History.write_words Writer.put_word Writer.serialize
    Writer.allow_append Writer.create Writer.serialize_bits packet_header needed_word_count
    current_sequence_history_length diff seq_ge distance
written_max = refl

read-cut_header_example : (read_header reader_source reset (reader_of many)).0 ≡ false
unfolding Reader.create
read-cut_header_example =
    read-cut_header 0 many-IsValid opened-IsWriter (omega (arith, opened_pos, opened_max))
      (reader_of-Receives many many-IsValid) (sym opened_pos)
      (omega (arith, written_max, many_words))

-- A header of two bytes with a payload of three.
abbrev small_header : PacketHeader
small_header = record (packet_header 16) {
  buffer = Writer.serialize ((packet_header 16).buffer) (0xAB ∷ []) 1;
}

small_header-IsSealed : IsSealed (small_header.buffer)
unfolding packet_header Writer.create Writer.serialize Writer.allow_append Writer.num_bytes
    app_bits_cpy short_store
small_header-IsSealed =
    let size =
      serialize-Appended (Writer.create 16 false) (create-IsWriter 16 false) (0 ∷ []) 1
        (omega arith) in
    record {
      valid =
          (serialize-Appended (Writer.serialize (Writer.create 16 false) (0 ∷ []) 1) (size.still)
            (0xAB ∷ []) 1 (omega arith)).still;
      opened = omega arith;
      filled = refl;
      short = omega arith;
    }

receive-sealed_example :
    Receives 8 (small_header.buffer) (
      (receive
        (datagram small_header (7 ∷ 8 ∷ 9 ∷ []))
        (length (datagram small_header (7 ∷ 8 ∷ 9 ∷ [])))).header)
    × (drop
          ((receive
            (datagram small_header (7 ∷ 8 ∷ 9 ∷ []))
            (length (datagram small_header (7 ∷ 8 ∷ 9 ∷ [])))).payload_offset)
          (datagram small_header (7 ∷ 8 ∷ 9 ∷ []))
        ≡ 7 ∷ 8 ∷ 9 ∷ [])
    × ((receive
          (datagram small_header (7 ∷ 8 ∷ 9 ∷ []))
          (length (datagram small_header (7 ∷ 8 ∷ 9 ∷ [])))).payload_size
        ≡ 3)
unfolding packet_header
receive-sealed_example =
    receive-sealed small_header (7 ∷ 8 ∷ 9 ∷ []) small_header-IsSealed refl (omega arith)

receive-inside_iff_example :
    (((receive (200 ∷ 1 ∷ 2 ∷ []) 3).payload_offset + (receive (200 ∷ 1 ∷ 2 ∷ []) 3).payload_size
        ≤ 3)
      ↔ (byte (200 ∷ 1 ∷ 2 ∷ []) 0 ≤ 3))
    × (3 < byte (200 ∷ 1 ∷ 2 ∷ []) 0 → 2 ^ 32 - 256 < (receive (200 ∷ 1 ∷ 2 ∷ []) 3).payload_size)
receive-inside_iff_example = receive-inside_iff (200 ∷ 1 ∷ 2 ∷ []) 3 (omega arith)

-- 5 of at most 10: three bits and the one that 5 + 8 would overstep.
abbrev five : Writer
five = writer_serialize_int empty 5 11

five_reads :
    reader_serialize_int (Reader.create (5 ∷ 0 ∷ 0 ∷ 0 ∷ []) 32) 0 11
    ≡ (5, record (Reader.create (5 ∷ 0 ∷ 0 ∷ 0 ∷ []) 32) { pos = 3 })
unfolding reader_serialize_int read_int test_bit Reader.create clear_tail
five_reads = refl

five_room : empty.pos + ceil_log_two 11 ≤ empty.max
unfolding Writer.create ceil_log_two count_leading_zeros bit_scan_reverse
five_room = omega arith

five-IsWriter : IsWriter five
five-IsWriter =
    (serialize_int-Appended empty 5 11 empty-IsWriter (omega arith) (omega arith) five_room).still

abbrev five_reader : Reader
five_reader = Reader.create (five.buffer) (five.max)

serialize_int-written_example :
    IsWriter five
    × (reader_serialize_int five_reader 0 11 ≡ (5, record five_reader { pos = five.pos - 0 }))
unfolding Reader.create Writer.create
serialize_int-written_example =
    serialize_int-written 0 5 11 0 empty-IsWriter (omega arith) (omega arith) five_room
      (create-Receives five five-IsWriter) refl

abbrev packed_300 : Writer
packed_300 = writer_serialize_int_packed empty 300

-- 300 is two bytes: 44 with more to come, and 2.
packed_bytes_run : packed_bytes 5 300 ≡ 89 ∷ 4 ∷ []
unfolding packed_bytes packed_byte
packed_bytes_run = refl

packed_room : empty.pos + length (packed_bytes 5 300) * 8 ≤ empty.max
unfolding Writer.create packed_bytes packed_byte
packed_room = omega arith

abbrev packed_reader : Reader
packed_reader = record { buffer = packed_300.buffer; max = 32; pos = 0; error = false }

packed_pos : packed_300.pos ≡ 16
unfolding writer_serialize_int_packed Writer.allow_append Writer.create packed_bytes packed_byte
packed_pos = refl

packed_received : Receives 0 packed_300 packed_reader
packed_received = record {
  ok = refl;
  whole = omega (arith, packed_pos);
  agree = λ j lt. let place : j ≡ 0 + j = omega arith in ap (bit (packed_300.buffer)) place;
}

serialize_int_packed-written_example :
    IsWriter packed_300
    × (reader_serialize_int_packed packed_reader
        ≡ (300, record packed_reader { pos = packed_300.pos - 0 }))
unfolding Writer.create
serialize_int_packed-written_example =
    serialize_int_packed-written 0 300 empty-IsWriter (omega arith) packed_room packed_received refl
