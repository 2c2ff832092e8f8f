-- ===== src/BitStream/Copy/Stored.antt =====
-- The state of the loop that copies whole bytes.
use rudp_network_engine.Prelude.{
  ℕ, zero, suc, ◌+◌, ◌-◌, ◌*◌, ◌/◌, ◌%◌, ◌^◌, ◌<◌, ◌≡◌, sym, ap, ◌∙◌, subst, List, length,
  length-set, bit_and, bit_or, ltb, leb, if◌then◌else◌, arith, ℕ_discrete, dec_lt,
}
use rudp_network_engine.BitStream.Copy.{
  byte, store, bit, not32, shl32, refill, Cursor, loop_step, inner_loop, shift_count_of, first_accu,
  first_cursor,
}
use rudp_network_engine.BitStream.Copy.Masks.{bit-store, digit-from, replaces_first}
use rudp_network_engine.BitStream.Copy.Long.{
  Holds, refill-Holds, first_accu-Holds, shift_count-range,
}

-- The bit `j` of `dest` is the source's if it is between `db` and `limit`, and the old one if not.
abbrev pub Moved : List ℕ → ℕ → List ℕ → ℕ → ℕ → List ℕ → ℕ → Type 0
Moved old db src sb limit dest j =
    bit dest j
    ≡ (if leb db j then (if ltb j limit then bit src (sb + (j - db)) else bit old j) else bit old j)

-- The state of the loop with the byte `m` from the first one on just stored.
pub record Stored (old : List ℕ) (db : ℕ) (src : List ℕ) (sb m : ℕ) (c : Cursor) : Type 0 where
  pub accu : Holds src (shift_count_of db sb) (db % 8) sb (8 * m) (c.bit_accu) (c.src_index)
  pub index : c.dest_index ≡ db / 8 + m + 1
  pub kept : length (c.dest) ≡ length old
  pub moved : (j : ℕ) → Moved old db src sb (8 * (db / 8 + m + 1)) (c.dest) j

first-Moved :
    (old : List ℕ) (db : ℕ) (src : List ℕ) (sb accu si : ℕ)
    → Holds src (shift_count_of db sb) (db % 8) sb 0 accu si
    → db / 8 < length old
    → (j : ℕ)
    → Moved old db src sb
        (8 * (db / 8 + 0 + 1))
        (store old (db / 8) (
          bit_or
            (bit_and accu (shl32 255 (db % 8)))
            (bit_and (byte old (db / 8)) (not32 (shl32 255 (db % 8))))))
        j
first-Moved old db src sb accu si inv room j =
    let first = replaces_first old (db / 8) (shl32 255 (db % 8)) accu j room (omega arith) in
    let from = digit-from (j % 8) (db % 8) (omega arith) in
    elim (ℕ_discrete (j / 8) (db / 8)) [
      | yes e ↦ elim (dec_lt (j % 8) (db % 8)) [
        | yes k ↦ ground (arith, first, from, e, k)
        | no k ↦
            let place : sb + (0 + j % 8 - db % 8) ≡ sb + (j - db) = omega arith in
            let held = inv.held (j % 8) (omega (arith, shift_count-range db sb)) (omega arith) in
            ground (arith, first, from, e, k, held, ap (bit src) place)
      ]
      | no e ↦ ground (arith, first, e)
    ]

next-Moved :
    (old : List ℕ) (db : ℕ) (src : List ℕ) (sb m accu si : ℕ) (dest : List ℕ)
    → Holds src (shift_count_of db sb) (db % 8) sb (8 * suc m) accu si
    → ((j : ℕ) → Moved old db src sb (8 * (db / 8 + m + 1)) dest j)
    → db / 8 + m + 1 < length dest
    → (j : ℕ) → Moved old db src sb (8 * (db / 8 + suc m + 1)) (store dest (db / 8 + m + 1) accu) j
next-Moved old db src sb m accu si dest inv before room j =
    let stored = bit-store dest (db / 8 + m + 1) accu j room in
    elim (ℕ_discrete (j / 8) (db / 8 + m + 1)) [
      | yes e ↦
          let place : sb + (8 * suc m + j % 8 - db % 8) ≡ sb + (j - db) = omega arith in
          let held = inv.held (j % 8) (omega (arith, shift_count-range db sb)) (omega arith) in
          ground (arith, stored, e, held, ap (bit src) place)
      | no e ↦ ground (arith, stored, before j, e)
    ]

pub first_cursor-Stored :
    (old : List ℕ) (db : ℕ) (src : List ℕ) (sb : ℕ)
    → db / 8 < length old
    → Stored old db src sb 0 (first_cursor old db src sb)
unfolding first_cursor
first_cursor-Stored old db src sb room = record {
  accu = first_accu-Holds src db sb;
  index = omega arith;
  kept = length-set old (db / 8) (
      bit_or (bit_and (first_accu src db sb) (shl32 255 (db % 8)))
        (bit_and (byte old (db / 8)) (not32 (shl32 255 (db % 8))))
      % 2 ^ 8);
  moved =
      first-Moved old db src sb (first_accu src db sb)
        ((if leb (sb % 8) (db % 8) then sb / 8 else sb / 8 + 1) + 1) (first_accu-Holds src db sb)
        room;
}

loop_step-Stored :
    (old : List ℕ) (db : ℕ) (src : List ℕ) (sb m : ℕ) (c : Cursor)
    → db / 8 + m + 1 < length old
    → Stored old db src sb m c
    → Stored old db src sb (suc m) (loop_step src (shift_count_of db sb) c)
unfolding loop_step
loop_step-Stored old db src sb m c room inv =
    let k = shift_count_of db sb in
    let accu = refill src k (c.bit_accu) (c.src_index) in
    let range = shift_count-range db sb in
    let off : 8 * m + 8 ≡ 8 * suc m = omega arith in
    let held : Holds src k (db % 8) sb (8 * suc m) accu (c.src_index + 1) =
      subst (λ t. Holds src k (db % 8) sb t accu (c.src_index + 1)) off
        (refill-Holds src k (db % 8) sb (8 * m) (c.bit_accu) (c.src_index) (range.0) (range.1)
          (inv.accu)) in
    record {
      accu = held;
      index = omega (arith, inv.index);
      kept = length-set (c.dest) (c.dest_index) (accu % 2 ^ 8) ∙ inv.kept;
      moved = λ j.
          subst (λ t. Moved old db src sb (8 * (db / 8 + suc m + 1)) (store (c.dest) t accu) j)
            (sym (inv.index))
            (next-Moved old db src sb m accu (c.src_index + 1) (c.dest) held (inv.moved)
              (omega (arith, inv.kept)) j);
    }

pub inner_loop-Stored :
    (rounds : ℕ) (old : List ℕ) (db : ℕ) (src : List ℕ) (sb m : ℕ) (c : Cursor)
    → db / 8 + m + rounds < length old
    → Stored old db src sb m c
    → Stored old db src sb (m + rounds) (inner_loop rounds src (shift_count_of db sb) c)
inner_loop-Stored zero old db src sb m c room inv =
    let e : m ≡ m + 0 = omega arith in subst (λ t. Stored old db src sb t c) e inv
inner_loop-Stored (suc rounds) old db src sb m c room inv =
    let e : suc m + rounds ≡ m + suc rounds = omega arith in
    let k = shift_count_of db sb in
    subst (λ t. Stored old db src sb t (inner_loop rounds src k (loop_step src k c))) e
      (inner_loop-Stored rounds old db src sb (suc m) (loop_step src k c) (omega arith)
        (loop_step-Stored old db src sb m c (omega arith) inv))
