-- ===== src/BitStream/Int.antt =====
-- `SerializeInt` of `BitWriter` and `BitReader`, `WriteIntWrapped`, and `CeilLogTwo` of
-- Project/Core/include/MathUtility.h: a number below a bound that both sides know, in as few bits as
-- its value needs. The loops end when the mask wraps to 0, after 32 rounds.
pub mod Bits
pub mod Loops
pub mod Rounds
pub mod Transfer
use rudp_network_engine.Prelude.{
  ℕ, zero, suc, ◌+◌, ◌-◌, ◌*◌, ◌/◌, ◌%◌, ◌^◌, Bool, true, false, ◌&&◌, not, List, get_or, bit_and,
  bit_or, ltb, leb, ◌==◌, if◌then◌else◌,
}
use rudp_network_engine.BitStream.Copy.{byte, store}
use rudp_network_engine.BitStream.Table.{g_shift}
use rudp_network_engine.BitStream.Writer.{Writer, allow_append}
use rudp_network_engine.BitStream.Reader.{Reader, test_bit, set_error}

-- `_BitScanReverse64`: the place of the highest bit, for a number below 2 ^ fuel.
unfoldable pub bit_scan_reverse : ℕ → ℕ → ℕ
bit_scan_reverse zero x = 0
bit_scan_reverse (suc fuel) x =
    let rest = bit_scan_reverse fuel (x / 2) in if x / 2 == 0 then 0 else suc rest

-- `CountLeadingZeros`
unfoldable pub count_leading_zeros : ℕ → ℕ
count_leading_zeros value = 32 - bit_scan_reverse 64 (value * 2 + 1)

-- `CeilLogTwo`
unfoldable pub ceil_log_two : ℕ → ℕ
ceil_log_two arg = 32 - count_leading_zeros ((if arg == 0 then 1 else arg) - 1)

-- `Buffer[i >> 3] += GShift[i & 7]`
unfoldable pub add_bit : List ℕ → ℕ → List ℕ
add_bit m i = store m (i / 2 ^ 3) (byte m (i / 2 ^ 3) + get_or g_shift (bit_and i 7) 0)

-- The test of the loops: `(NewValue + Mask) < Max && Mask`.
abbrev pub goes_on : ℕ → ℕ → ℕ → Bool
goes_on new_value mask bound = ltb ((new_value + mask) % 2 ^ 32) bound && not (mask == 0)

-- The loop of the writer, `rounds` at most: the buffer and the place after the last bit.
unfoldable pub write_int : ℕ → ℕ → ℕ → List ℕ → ℕ → ℕ → ℕ → List ℕ × ℕ
write_int zero value bound m mask new_value at = (m, at)
write_int (suc rounds) value bound m mask new_value at =
    let is_set = not (bit_and value mask == 0) in
    let rest =
      write_int rounds value bound (if is_set then add_bit m at else m) (mask * 2 % 2 ^ 32)
        (if is_set then (new_value + mask) % 2 ^ 32 else new_value) (at + 1) in
    if goes_on new_value mask bound then rest else (m, at)

-- `BitWriter::SerializeInt`
unfoldable pub writer_serialize_int : Writer → ℕ → ℕ → Writer
writer_serialize_int w value bound =
    if leb 2 bound
    then (if allow_append w (ceil_log_two bound)
        then (let (m, at) =
              write_int 33 (if leb bound value then bound - 1 else value) bound (w.buffer) 1 0
                (w.pos) in
            record w { buffer = m; pos = at })
        else w)
    else w

-- `WriteIntWrapped`
unfoldable pub write_int_wrapped : Writer → ℕ → ℕ → Writer
write_int_wrapped w value bound =
    if allow_append w (ceil_log_two bound)
    then (let (m, at) = write_int 33 value bound (w.buffer) 1 0 (w.pos) in
        record w { buffer = m; pos = at })
    else w

-- The loop of the reader: the value, the place after the last bit, and whether the bits ran out.
unfoldable pub read_int : ℕ → ℕ → ℕ → List ℕ → ℕ → ℕ → ℕ → ℕ × ℕ × Bool
read_int zero bound end m mask value at = (value, at, false)
read_int (suc rounds) bound end m mask value at =
    let rest =
      read_int rounds bound end m (mask * 2 % 2 ^ 32)
        (if test_bit m at then bit_or value mask else value) (at + 1) in
    if goes_on value mask bound
    then (if leb end at then (value, at, true) else rest)
    else (value, at, false)

-- `BitReader::SerializeInt` into a variable that holds `old`
unfoldable pub reader_serialize_int : Reader → ℕ → ℕ → ℕ × Reader
reader_serialize_int r old bound =
    if r.error
    then (old, r)
    else (let (value, at, overflow) = read_int 33 bound (r.max) (r.buffer) 1 0 (r.pos) in
        (value, (if overflow then record (set_error r) { pos = at } else record r { pos = at })))

-- `ReadInt`
unfoldable pub read_int_max : Reader → ℕ → ℕ × Reader
read_int_max r bound = reader_serialize_int r 0 bound
