-- ===== src/Sequence/Header.antt =====
-- `FPackedHeader` of Project/Network/src/sequence/NetPacketNotify.cpp: two sequence numbers and a
-- word count in one uint32_t.
pub mod Packing
use rudp_network_engine.Prelude.{ℕ, ◌*◌, ◌/◌, ◌%◌, ◌^◌, ◌-◌, bit_and, bit_or}
use rudp_network_engine.Sequence.Number.{make_seq, seq_number_bits}

-- `HistoryWordCountMask`
abbrev pub history_word_count_mask : ℕ
history_word_count_mask = 2 ^ 4 - 1

-- `SeqMask`
abbrev pub seq_mask : ℕ
seq_mask = 2 ^ seq_number_bits - 1

-- `AckSeqShift`
abbrev pub ack_seq_shift : ℕ
ack_seq_shift = 4

-- `SeqShift`
abbrev pub seq_shift : ℕ
seq_shift = 18

-- `Pack`
unfoldable pub pack : ℕ → ℕ → ℕ → ℕ
pack seq acked_seq history_word_count =
    bit_or
      (bit_or (bit_or 0 (seq * 2 ^ seq_shift % 2 ^ 32)) (acked_seq * 2 ^ ack_seq_shift % 2 ^ 32))
      (bit_and history_word_count history_word_count_mask)

unfoldable pub get_seq : ℕ → ℕ
get_seq packed = make_seq (bit_and (packed / 2 ^ seq_shift) seq_mask)

unfoldable pub get_acked_seq : ℕ → ℕ
get_acked_seq packed = make_seq (bit_and (packed / 2 ^ ack_seq_shift) seq_mask)

unfoldable pub get_history_word_count : ℕ → ℕ
get_history_word_count packed = bit_and packed history_word_count_mask
