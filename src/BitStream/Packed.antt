-- ===== src/BitStream/Packed.antt =====
-- `SerializeIntPacked` of `BitWriter` and `BitReader`: a uint32_t as one to five bytes of seven bits
-- each, the lowest bit of a byte saying whether another follows.
pub mod Byte
pub mod Value
pub mod Transfer
use Prim.Native.Nat.{bit_xor}
use rudp_network_engine.Prelude.{
  ℕ, zero, suc, ◌+◌, ◌-◌, ◌*◌, ◌/◌, ◌%◌, ◌^◌, Bool, true, false, not, List, [], ◌∷◌, length,
  bit_and, bit_or, ltb, ◌==◌, if◌then◌else◌,
}
use rudp_network_engine.BitStream.Copy.{byte, store, not32, shl32}
use rudp_network_engine.BitStream.Writer.{Writer, allow_append, serialize_bits}
use rudp_network_engine.BitStream.Reader.{Reader, set_error}

-- `ByteAsWord`, with `NextByteIndicator`
unfoldable pub packed_byte : ℕ → ℕ
packed_byte value =
    bit_or (shl32 (bit_and value 0x7F) 1) (if bit_and value (not32 0x7F) == 0 then 0 else 1)

-- `BytesAsWords`, of at most `n` bytes: the first one in any case, then as long as the value is not 0.
unfoldable pub packed_bytes : ℕ → ℕ → List ℕ
packed_bytes zero value = []
packed_bytes (suc n) value =
    let rest = packed_bytes n (value / 2 ^ 7) in
    packed_byte value ∷ (if value / 2 ^ 7 == 0 then [] else rest)

-- `uint8_t((1U << n) - 1U)`
abbrev pub low_mask : ℕ → ℕ
low_mask n = (2 ^ n - 1) % 2 ^ 8

-- The body of the writer's loop, with `Dest` at the bit `at`.
unfoldable pub write_byte : List ℕ → ℕ → ℕ → List ℕ
write_byte m at word =
    let used = bit_and at 7 in
    let dest = at / 2 ^ 3 in
    let first =
      store m dest (bit_or (bit_and (byte m dest) (low_mask used)) (shl32 word used % 2 ^ 8)) in
    if used == 0
    then first
    else store first (dest + 1) (
        bit_or (bit_and (byte first (dest + 1)) (bit_xor 0xFF (low_mask used)))
          (word / 2 ^ (8 - used) % 2 ^ 8))

abbrev pub write_bytes : List ℕ → ℕ → List ℕ → List ℕ
write_bytes m at [] = m
write_bytes m at (x ∷ xs) = write_bytes (write_byte m at x) (at + 8) xs

-- `BitWriter::SerializeIntPacked`
unfoldable pub writer_serialize_int_packed : Writer → ℕ → Writer
writer_serialize_int_packed w value =
    let words = packed_bytes 5 value in
    if allow_append w (length words * 8)
    then record w { buffer = write_bytes (w.buffer) (w.pos) words; pos = w.pos + length words * 8 }
    else w

-- `Byte`, with `Src` at the bit `at`.
unfoldable pub read_byte : List ℕ → ℕ → ℕ
read_byte m at =
    let used = bit_and at 7 in
    let src = at / 2 ^ 3 in
    let next = if used == 0 then 0 else 1 in
    bit_or (bit_and (byte m src / 2 ^ used) (low_mask (8 - used)))
      (bit_and (byte m (src + next)) (low_mask used) * 2 ^ bit_and (8 - used) 7)
    % 2 ^ 8

-- The reader's loop, `n` rounds left: the value, the position and whether the bits ran out.
unfoldable pub read_packed : ℕ → List ℕ → ℕ → ℕ → ℕ → ℕ → ℕ × ℕ × Bool
read_packed zero m end at shift_count value = (value, at, false)
read_packed (suc n) m end at shift_count value =
    let b = read_byte m at in
    let value' = bit_or (shl32 (b / 2 ^ 1) shift_count) value in
    let rest = read_packed n m end (at + 8) (shift_count + 7) value' in
    if ltb end (at + 8)
    then (value, at, true)
    else (if bit_and b 1 == 0 then (value', at + 8, false) else rest)

-- `BitReader::SerializeIntPacked`
unfoldable pub reader_serialize_int_packed : Reader → ℕ × Reader
reader_serialize_int_packed r =
    if r.error
    then (0, r)
    else (let (value, at, overflow) = read_packed 5 (r.buffer) (r.max) (r.pos) 0 0 in
        (value, (if overflow then record (set_error r) { pos = at } else record r { pos = at })))

-- `Writer << Str`: the length, and the characters if there are any.
unfoldable pub put_string : Writer → List ℕ → Writer
put_string w str =
    let w' = writer_serialize_int_packed w (length str) in
    if length str == 0 then w' else serialize_bits w' str (length str * 8)
