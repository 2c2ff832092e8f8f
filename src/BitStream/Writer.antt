-- ===== src/BitStream/Writer.antt =====
-- `BitWriter` of Project/Core/src/BitWriter.cpp: bits appended to a buffer of a fixed size. The
-- lengths and positions are far below 2 ^ 31, where the source's conversions to int32_t keep them.
pub mod Appended
use rudp_network_engine.Prelude.{
  ℕ, zero, suc, ◌+◌, ◌-◌, ◌*◌, ◌/◌, ◌%◌, ◌^◌, Bool, true, false, List, get_or, replicate, length,
  take, ◌++◌, bit_and, bit_or, ltb, leb, ◌==◌, not, if◌then◌else◌,
}
use rudp_network_engine.BitStream.Copy.{byte, store, app_bits_cpy, shl32}
use rudp_network_engine.BitStream.Table.{g_shift, le_bytes}

-- The members of `BitWriter`. `bAllowOverflow` is never read.
pub record Writer : Type 0 where
  pub buffer : List ℕ
  pub pos : ℕ
  pub max : ℕ
  pub allow_resize : Bool

-- The constructor
unfoldable pub create : ℕ → Bool → Writer
create in_max_bits in_allow_resize = record {
  buffer = replicate ((in_max_bits + 7) / 2 ^ 3) 0;
  pos = 0;
  max = in_max_bits;
  allow_resize = in_allow_resize;
}

-- `Reset`
unfoldable pub reset : Writer → Writer
reset w = record w { buffer = replicate (length (w.buffer)) 0; pos = 0 }

-- `AllowAppend`
unfoldable pub allow_append : Writer → ℕ → Bool
allow_append w length_bits =
    if ltb (w.max) (w.pos + length_bits) then (if w.allow_resize then false else false) else true

-- `Buffer[Pos >> 3] |= GShift[Pos & 7]`
unfoldable pub set_bit : List ℕ → ℕ → List ℕ
set_bit m pos =
    store m (pos / 2 ^ 3) (bit_or (byte m (pos / 2 ^ 3)) (get_or g_shift (bit_and pos 7) 0))

-- `SerializeBits`
unfoldable pub serialize_bits : Writer → List ℕ → ℕ → Writer
serialize_bits w src length_bits =
    if allow_append w length_bits
    then (if length_bits == 1
        then record w {
          buffer =
              if not (bit_and (byte src 0) 1 == 0) then set_bit (w.buffer) (w.pos) else w.buffer;
          pos = w.pos + 1;
        }
        else record w {
          buffer = app_bits_cpy (w.buffer) (w.pos) src 0 length_bits;
          pos = w.pos + length_bits;
        })
    else w

-- `SerializeBitsWithOffset`
unfoldable pub serialize_bits_with_offset : Writer → List ℕ → ℕ → ℕ → Writer
serialize_bits_with_offset w src source_bit length_bits =
    if allow_append w length_bits
    then record w {
      buffer = app_bits_cpy (w.buffer) (w.pos) src source_bit length_bits;
      pos = w.pos + length_bits;
    }
    else w

-- `Serialize`
unfoldable pub serialize : Writer → List ℕ → ℕ → Writer
serialize w src length_bytes =
    let length_bits = length_bytes * 8 in
    if allow_append w length_bits
    then record w {
      buffer = app_bits_cpy (w.buffer) (w.pos) src 0 length_bits;
      pos = w.pos + length_bits;
    }
    else w

-- `WriteBit`
unfoldable pub write_bit : Writer → ℕ → Writer
write_bit w v =
    if allow_append w 1
    then record w {
      buffer = if not (v == 0) then set_bit (w.buffer) (w.pos) else w.buffer;
      pos = w.pos + 1;
    }
    else w

-- `GetNumBytes`
unfoldable pub num_bytes : Writer → ℕ
num_bytes w = (w.pos + 7) / 2 ^ 3

-- `Writer << Value` for a uint32_t: no end point sets `ArForceByteSwapping`.
unfoldable pub put_word : Writer → ℕ → Writer
put_word w v = serialize w (le_bytes 4 v) 4

-- `std::vector::resize` with zeros.
abbrev pub resize : List ℕ → ℕ → List ℕ
resize m n = take n m ++ replicate (n - length m) 0

-- `ProtobufSerialize`
unfoldable pub protobuf_serialize : Writer → ℕ → Writer
protobuf_serialize w new_pos = if length w.buffer == new_pos then record w { pos = new_pos } else w

-- `Writer << D` for a bool, a uint32_t of 0 or 1 (`SerializeBool`).
unfoldable pub put_bool : Writer → Bool → Writer
put_bool w d = put_word w (if d then 1 else 0)
