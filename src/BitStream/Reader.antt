-- ===== src/BitStream/Reader.antt =====
-- `BitReader` of Project/Core/src/BitReader.cpp: bits taken from a buffer. A method that fills memory
-- of the caller gets the memory and returns the new contents beside the reader.
pub mod Taken
use rudp_network_engine.Prelude.{
  ℕ, zero, suc, ◌+◌, ◌-◌, ◌*◌, ◌/◌, ◌%◌, ◌^◌, Bool, true, false, ◌||◌, not, List, get_or, replicate,
  length, take, drop, ◌++◌, bit_and, bit_or, ltb, leb, ◌==◌, if◌then◌else◌,
}
use rudp_network_engine.BitStream.Copy.{byte, store, app_bits_cpy}
use rudp_network_engine.BitStream.Writer.{resize}
use rudp_network_engine.BitStream.Table.{g_mask, le_bytes, le_value}

-- The members of `BitReader`, with `ArIsError`.
pub record Reader : Type 0 where
  pub buffer : List ℕ
  pub max : ℕ
  pub pos : ℕ
  pub error : Bool

-- The bits after the last one are cleared: `Buffer[Max >> 3] &= GMask[Max & 7]`.
unfoldable pub clear_tail : List ℕ → ℕ → List ℕ
clear_tail m count =
    if bit_and count 7 == 0
    then m
    else store m (count / 2 ^ 3)
        (bit_and (byte m (count / 2 ^ 3)) (get_or g_mask (bit_and count 7) 0))

-- The constructor from a pointer that is not null, and `SetData` from one.
unfoldable pub create : List ℕ → ℕ → Reader
create src count_bits = record {
  buffer = clear_tail (take ((count_bits + 7) / 2 ^ 3) src) count_bits;
  max = count_bits;
  pos = 0;
  error = false;
}

-- `SetError`, by way of `SetOverflowed`
unfoldable pub set_error : Reader → Reader
set_error r = record r { error = true }

-- `memset(Dest, 0, n)`
unfoldable pub zero_bytes : List ℕ → ℕ → List ℕ
zero_bytes dest n = replicate n 0 ++ drop n dest

-- `Buffer[i >> 3] & Shift(i & 7)`
unfoldable pub test_bit : List ℕ → ℕ → Bool
test_bit m i = not (bit_and (byte m (i / 2 ^ 3)) (2 ^ bit_and i 7 % 2 ^ 8) == 0)

-- The branch of `SerializeBits` and of `SerializeWithPos` that reads one bit.
unfoldable pub one_bit : Reader → List ℕ → ℕ → List ℕ
one_bit r dest i =
    let cleared = store dest 0 0 in
    if test_bit (r.buffer) i then store cleared 0 (bit_or (byte cleared 0) 0x01) else cleared

-- The branch that reads more.
unfoldable pub many_bits : Reader → List ℕ → ℕ → ℕ → List ℕ
many_bits r dest i n = app_bits_cpy (store dest ((n + 7) / 2 ^ 3 - 1) 0) 0 (r.buffer) i n

-- `SerializeBits`
unfoldable pub serialize_bits : Reader → List ℕ → ℕ → List ℕ × Reader
serialize_bits r dest length_bits =
    if r.error || ltb (r.max) (r.pos + length_bits)
    then (
      (if length_bits == 1
          then store dest 0 0
          else (if length_bits == 0 then dest else zero_bytes dest ((length_bits + 7) / 2 ^ 3))),
      (if r.error then r else set_error r),
    )
    else (if length_bits == 1
        then (one_bit r dest (r.pos), record r { pos = r.pos + 1 })
        else (if length_bits == 0
            then (dest, r)
            else (many_bits r dest (r.pos) length_bits, record r { pos = r.pos + length_bits })))

-- `SerializeBitsWithOffset`
unfoldable pub serialize_bits_with_offset : Reader → List ℕ → ℕ → ℕ → List ℕ × Reader
serialize_bits_with_offset r dest dest_bit length_bits =
    if r.error || ltb (r.max) (r.pos + length_bits)
    then (dest, (if r.error then r else set_error r))
    else (if length_bits == 0 then (dest, r) else (
      app_bits_cpy dest dest_bit (r.buffer) (r.pos) length_bits,
      record r { pos = r.pos + length_bits },
    ))

-- `SerializeWithPos`
unfoldable pub serialize_with_pos : Reader → List ℕ → ℕ → ℕ → List ℕ
serialize_with_pos r dest in_pos length_bits =
    if length_bits == 1
    then one_bit r dest in_pos
    else (if length_bits == 0 then dest else many_bits r dest in_pos length_bits)

-- `Serialize`
unfoldable pub serialize : Reader → List ℕ → ℕ → List ℕ × Reader
serialize r dest length_bytes = serialize_bits r dest (length_bytes * 8)

-- `ReadBit`: no error is set at the end.
unfoldable pub read_bit : Reader → ℕ × Reader
read_bit r =
    if r.error
    then (0, r)
    else (if leb (r.max) (r.pos)
        then (0, r)
        else ((if test_bit (r.buffer) (r.pos) then 1 else 0), record r { pos = r.pos + 1 }))

-- `SetAtEnd`
unfoldable pub set_at_end : Reader → Reader
set_at_end r = record r { pos = r.max }

-- `AtEnd`
unfoldable pub at_end : Reader → Bool
at_end r = r.error || leb (r.max) (r.pos)

-- `Reader << Value` for a uint32_t that holds `old`.
unfoldable pub get_word : ℕ → Reader → ℕ × Reader
get_word old r = let (dest, r') = serialize r (le_bytes 4 old) 4 in (le_value dest, r')

-- `Reader << D` for a bool that holds `d` (`SerializeBool`): a word above 1 sets the error.
unfoldable pub get_bool : Bool → Reader → Bool × Reader
get_bool d r =
    let (v, r') = get_word (if d then 1 else 0) r in
    (not (v == 0), (if ltb 1 v then set_error r' else r'))

-- `SetData` with bytes that are moved in
unfoldable pub set_data : List ℕ → ℕ → Reader
set_data src count_bits = record {
  buffer = clear_tail src count_bits;
  max = count_bits;
  pos = 0;
  error = false;
}

-- `SetData` from another reader, which goes on
unfoldable pub set_data_from : Reader → Reader → ℕ → Reader × Reader
set_data_from r src count_bits =
    let (m, src') = serialize_bits src (resize r.buffer ((count_bits + 7) / 2 ^ 3)) count_bits in
    (record { buffer = m; max = count_bits; pos = 0; error = false }, src')

-- `ResetData`: the buffer has room for `count_bits_with_slack` bits.
unfoldable pub reset_data : Reader → ℕ → ℕ → Reader × Reader
reset_data src count_bits count_bits_with_slack =
    let (m, src') =
      serialize_bits src (replicate ((count_bits_with_slack + 7) / 2 ^ 3) 0) count_bits in
    (record { buffer = m; max = count_bits; pos = 0; error = false }, src')
