-- ===== src/BitStream/Copy.antt =====
-- `appBitsCpy` of Project/Core/src/BitReader.cpp: copies bits between two byte buffers, at any bit
-- of either. A buffer is the list of its bytes; a read past its end gives 0, a write nothing.
pub mod Masks
pub mod Short
pub mod Long
pub mod Stored
pub mod Copied
use rudp_network_engine.Prelude.{
  ℕ, zero, suc, ◌+◌, ◌-◌, ◌*◌, ◌/◌, ◌%◌, ◌^◌, Bool, true, false, List, get_or, set, max, bit_and,
  bit_or, ltb, leb, ◌==◌, if◌then◌else◌,
}
use rudp_network_engine.Prelude.Digit.{digit}

-- `Buffer[i]`, a uint8_t.
abbrev pub byte : List ℕ → ℕ → ℕ
byte m i = get_or m i 0 % 2 ^ 8

-- `Buffer[i] = (uint8_t)v`
abbrev pub store : List ℕ → ℕ → ℕ → List ℕ
store m i v = set m i (v % 2 ^ 8)

-- The bit `j` of a buffer, the lowest bit of each byte first.
abbrev pub bit : List ℕ → ℕ → ℕ
bit m j = digit (j % 8) (byte m (j / 8))

-- `~` and `<<` on uint32_t.
abbrev pub not32 : ℕ → ℕ
not32 x = 2 ^ 32 - 1 - x

abbrev pub shl32 : ℕ → ℕ → ℕ
shl32 x s = x * 2 ^ s % 2 ^ 32

-- At most 8 bits: `Accu`, of the one or two bytes they stand in.
unfoldable pub short_accu : List ℕ → ℕ → ℕ → ℕ
short_accu src src_bit bit_count =
    let src_index = src_bit / 8 in
    let last_src = (src_bit + bit_count - 1) / 8 in
    let shift_src = src_bit % 8 in
    if src_index == last_src
    then byte src src_index / 2 ^ shift_src
    else bit_or (byte src src_index / 2 ^ shift_src) (shl32 (byte src last_src) (8 - shift_src))

unfoldable pub short_store : List ℕ → ℕ → ℕ → ℕ → List ℕ
short_store dest dest_bit bit_count accu =
    let dest_index = dest_bit / 8 in
    let last_dest = (dest_bit + bit_count - 1) / 8 in
    let shift_dest = dest_bit % 8 in
    let first_mask = shl32 255 shift_dest in
    let last_mask = shl32 254 ((dest_bit + bit_count - 1) % 8) in
    let multi_mask = bit_and first_mask (not32 last_mask) in
    let first = store dest dest_index (
      bit_or (bit_and (byte dest dest_index) (not32 first_mask))
        (bit_and (shl32 accu shift_dest) first_mask)) in
    if dest_index == last_dest
    then store dest dest_index (
        bit_or (bit_and (byte dest dest_index) (not32 multi_mask))
          (bit_and (shl32 accu shift_dest) multi_mask))
    else store first last_dest (
        bit_or (bit_and (byte first last_dest) last_mask)
          (bit_and (accu / 2 ^ (8 - shift_dest)) (not32 last_mask)))

-- More bits: the variables of the loop.
pub record Cursor : Type 0 where
  pub dest : List ℕ
  pub bit_accu : ℕ
  pub src_index : ℕ
  pub dest_index : ℕ

-- `BitAccu = (((uint32_t)Src[SrcIndex] << ShiftCount) + BitAccu) >> 8`
unfoldable pub refill : List ℕ → ℕ → ℕ → ℕ → ℕ
refill src shift_count bit_accu src_index =
    (shl32 (byte src src_index) shift_count + bit_accu) % 2 ^ 32 / 2 ^ 8

-- `ShiftCount` in the inner loop.
abbrev pub shift_count_of : ℕ → ℕ → ℕ
shift_count_of dest_bit src_bit =
    if leb (src_bit % 8) (dest_bit % 8)
    then dest_bit % 8 - src_bit % 8 + 8
    else 8 + dest_bit % 8 - src_bit % 8 + 8

unfoldable pub full_loop_of : ℕ → ℕ → ℕ → ℕ
full_loop_of dest_bit src_bit bit_count =
    let dest_loop = (dest_bit + bit_count) / 8 - dest_bit / 8 in
    let src_loop = (src_bit + bit_count) / 8 - src_bit / 8 in
    if leb (src_bit % 8) (dest_bit % 8)
    then max dest_loop src_loop
    else max dest_loop (src_loop - 1)

-- The first byte, whose source is read from one byte or two.
unfoldable pub first_accu : List ℕ → ℕ → ℕ → ℕ
first_accu src dest_bit src_bit =
    if leb (src_bit % 8) (dest_bit % 8)
    then shl32 (byte src (src_bit / 8)) (dest_bit % 8 - src_bit % 8)
    else refill src (shift_count_of dest_bit src_bit)
        (shl32 (byte src (src_bit / 8)) (8 + dest_bit % 8 - src_bit % 8)) (src_bit / 8 + 1)

unfoldable pub first_cursor : List ℕ → ℕ → List ℕ → ℕ → Cursor
first_cursor dest dest_bit src src_bit =
    let index = dest_bit / 8 in
    let mask = shl32 255 (dest_bit % 8) in
    let accu = first_accu src dest_bit src_bit in
    record {
      dest = store dest index (bit_or (bit_and accu mask) (bit_and (byte dest index) (not32 mask)));
      bit_accu = accu;
      src_index = (if leb (src_bit % 8) (dest_bit % 8) then src_bit / 8 else src_bit / 8 + 1) + 1;
      dest_index = index + 1;
    }

-- One round of the inner loop, and `rounds` of them.
unfoldable pub loop_step : List ℕ → ℕ → Cursor → Cursor
loop_step src shift_count c =
    let accu = refill src shift_count (c.bit_accu) (c.src_index) in
    record {
      dest = store (c.dest) (c.dest_index) accu;
      bit_accu = accu;
      src_index = c.src_index + 1;
      dest_index = c.dest_index + 1;
    }

abbrev pub inner_loop : ℕ → List ℕ → ℕ → Cursor → Cursor
inner_loop zero src shift_count c = c
inner_loop (suc rounds) src shift_count c =
    inner_loop rounds src shift_count (loop_step src shift_count c)

-- The last byte, when the end is not at a byte's boundary.
unfoldable pub last_byte : List ℕ → ℕ → ℕ → ℕ → ℕ → Cursor → List ℕ
last_byte src dest_bit src_bit bit_count shift_count c =
    let last_src_mask = shl32 255 ((dest_bit + bit_count) % 8) in
    let accu =
      if (src_bit + bit_count - 1) / 8 == c.src_index
      then refill src shift_count (c.bit_accu) (c.src_index)
      else c.bit_accu / 2 ^ 8 in
    if last_src_mask == 255
    then c.dest
    else store (c.dest) (c.dest_index) (
        bit_or (bit_and (byte (c.dest) (c.dest_index)) last_src_mask)
          (bit_and accu (not32 last_src_mask)))

unfoldable pub copy_long : List ℕ → ℕ → List ℕ → ℕ → ℕ → List ℕ
copy_long dest dest_bit src src_bit bit_count =
    let shift_count = shift_count_of dest_bit src_bit in
    last_byte src dest_bit src_bit bit_count shift_count (
      inner_loop (full_loop_of dest_bit src_bit bit_count - 1) src shift_count
        (first_cursor dest dest_bit src src_bit))

unfoldable pub app_bits_cpy : List ℕ → ℕ → List ℕ → ℕ → ℕ → List ℕ
app_bits_cpy dest dest_bit src src_bit bit_count =
    if bit_count == 0
    then dest
    else if leb bit_count 8
    then short_store dest dest_bit bit_count (short_accu src src_bit bit_count)
    else copy_long dest dest_bit src src_bit bit_count
