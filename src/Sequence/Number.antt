-- ===== src/Sequence/Number.antt =====
-- Project/Network/src/sequence/SequenceNumber.h: `TSequenceNumber` as the program instantiates it,
-- 14 bits in a uint16_t (`NetPacketNotify::SequenceNumberT`). A sequence number is its `Value`; the
-- operators promote it to a 32-bit int, whose bit pattern is what `sub32` computes.
pub mod Order
pub mod Arithmetic
use rudp_network_engine.Prelude.{
  ℕ, ◌+◌, ◌-◌, ◌*◌, ◌/◌, ◌%◌, ◌^◌, ◌<◌, Bool, not, ◌&&◌, bit_and, ltb, ◌==◌, if◌then◌else◌,
}
use rudp_network_engine.Prelude.Int.{ℤ, pos, negsuc}

-- `SeqNumberBits`
abbrev pub seq_number_bits : ℕ
seq_number_bits = 14

-- `SeqNumberCount`
abbrev pub seq_number_count : ℕ
seq_number_count = 2 ^ 14

-- `SeqNumberHalf`
abbrev pub seq_number_half : ℕ
seq_number_half = 2 ^ 13

-- `SeqNumberMax`, which is `SeqNumberMask` too
abbrev pub seq_number_mask : ℕ
seq_number_mask = 2 ^ 14 - 1

-- The range that the constructor gives every `Value`.
abbrev pub IsSeq : ℕ → Type 0
IsSeq a = a < 2 ^ 14

-- `int` subtraction, as a bit pattern.
abbrev pub sub32 : ℕ → ℕ → ℕ
sub32 a b = (a + 2 ^ 32 - b) % 2 ^ 32

-- `TSequenceNumber(ValueIn)`: the argument converts to uint16_t, then the mask cuts it.
unfoldable pub make_seq : ℕ → ℕ
make_seq value_in = bit_and (value_in % 2 ^ 16) seq_number_mask

-- `(Value - Other.Value) & SeqNumberMask`
unfoldable pub distance : ℕ → ℕ → ℕ
distance a b = bit_and (sub32 a b) seq_number_mask

unfoldable pub seq_gt : ℕ → ℕ → Bool
seq_gt a b = not (a == b) && ltb (distance a b) seq_number_half

unfoldable pub seq_ge : ℕ → ℕ → Bool
seq_ge a b = ltb (distance a b) seq_number_half

unfoldable pub seq_lt : ℕ → ℕ → Bool
seq_lt a b = not (seq_ge a b)

unfoldable pub seq_le : ℕ → ℕ → Bool
seq_le a b = not (seq_gt a b)

unfoldable pub seq_eq : ℕ → ℕ → Bool
seq_eq a b = a == b

-- `operator++`
unfoldable pub increment : ℕ → ℕ
increment a = make_seq (a + 1)

-- `operator+` and `operator-`: the sum or difference goes through uint16_t.
unfoldable pub seq_add : ℕ → ℕ → ℕ
seq_add a b = make_seq (a + b)

unfoldable pub seq_sub : ℕ → ℕ → ℕ
seq_sub a b = make_seq (sub32 a b)

-- `>>` on an int32_t of bit pattern `w` keeps the sign.
abbrev pub shift_right_signed : ℕ → ℕ → ℤ
shift_right_signed w k =
    if ltb w (2 ^ 31) then pos (w / 2 ^ k) else negsuc ((2 ^ 32 - 1 - w) / 2 ^ k)

-- `Diff`: the difference is moved to the top 14 bits of an int32_t and back down with its sign.
unfoldable pub diff : ℕ → ℕ → ℤ
diff a b = shift_right_signed (sub32 a b * 2 ^ 18 % 2 ^ 32) 18
