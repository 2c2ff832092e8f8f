-- ===== src/BitStream/Copy/Copied.antt =====
-- The whole copy: the bits that arrive and the ones that stay.
use rudp_network_engine.Prelude.{
  ℕ, suc, ◌+◌, ◌-◌, ◌*◌, ◌/◌, ◌%◌, ◌^◌, ◌≤◌, ◌<◌, ◌≡◌, ◌≢◌, refl, sym, ap, ◌∙◌, subst, true, false,
  List, length, length-set, bit_and, bit_or, leb, ◌==◌, if◌then◌else◌, arith, ℕ_discrete, dec_lt,
  Bool-cases, inl, inr,
}
use rudp_network_engine.Prelude.Digit.{digit, digit-shr}
use rudp_network_engine.BitStream.Copy.{
  byte, store, bit, not32, shl32, refill, Cursor, inner_loop, shift_count_of, first_cursor,
  full_loop_of, last_byte, copy_long, short_accu, app_bits_cpy,
}
use rudp_network_engine.BitStream.Copy.Masks.{digit-from, replaces_rest}
use rudp_network_engine.BitStream.Copy.Short.{digit-short_accu, length-short_store, bit-short_store}
use rudp_network_engine.BitStream.Copy.Long.{
  Holds, refill-Holds, shift_count-range, full_loop_of-dest,
}
use rudp_network_engine.BitStream.Copy.Stored.{
  Moved, Stored, first_cursor-Stored, inner_loop-Stored,
}

-- The bits for the last byte, after the whole ones.
last_accu :
    (src : List ℕ) (db sb n m accu si i : ℕ)
    → 8 < n
    → (db + n) / 8 ≡ db / 8 + m + 1
    → i < (db + n) % 8
    → Holds src (shift_count_of db sb) (db % 8) sb (8 * m) accu si
    → digit i
        (if (sb + n - 1) / 8 == si then refill src (shift_count_of db sb) accu si else accu / 2 ^ 8)
      ≡ bit src (sb + (8 * suc m + i - db % 8))
last_accu src db sb n m accu si i h e lt inv =
    let k = shift_count_of db sb in
    let range = shift_count-range db sb in
    elim (ℕ_discrete ((sb + n - 1) / 8) si) [
      | yes q ↦
          let place : sb + (8 * m + 8 + i - db % 8) ≡ sb + (8 * suc m + i - db % 8) = omega arith in
          let next = refill-Holds src k (db % 8) sb (8 * m) accu si (range.0) (range.1) inv in
          ground (arith, q, next.held i (omega (arith, range)) (omega arith), ap (bit src) place)
      | no q ↦
          let inside : i + 8 < k = omega (arith, range, inv.next) in
          let place : sb + (8 * m + (i + 8) - db % 8) ≡ sb + (8 * suc m + i - db % 8) =
            omega arith in
          ground (
            arith,
            q,
            digit-shr i 8 accu,
            inv.held (i + 8) inside (omega arith),
            ap (bit src) place,
          )
    ]

mask-whole : (r : ℕ) → shl32 255 r ≡ 255 → r ≡ 0
mask-whole r e = ground (arith, digit-from 0 r (omega arith), ap (digit 0) e)

tail-Moved :
    (old : List ℕ) (db : ℕ) (src : List ℕ) (sb n k a : ℕ) (dest : List ℕ)
    → (db + n) / 8 ≡ k
    → db / 8 < k
    → k < length dest
    → ((j : ℕ) → Moved old db src sb (8 * k) dest j)
    → ((i : ℕ) → i < (db + n) % 8 → digit i a ≡ bit src (sb + (8 * k + i - db)))
    → (j : ℕ)
    → Moved old db src sb
        (db + n)
        (store dest k (
          bit_or
            (bit_and (byte dest k) (shl32 255 ((db + n) % 8)))
            (bit_and a (not32 (shl32 255 ((db + n) % 8))))))
        j
tail-Moved old db src sb n k a dest e after room before held j =
    let rest = replaces_rest dest k (shl32 255 ((db + n) % 8)) a j room (omega arith) in
    let from = digit-from (j % 8) ((db + n) % 8) (omega arith) in
    elim (ℕ_discrete (j / 8) k) [
      | yes q ↦ elim (dec_lt (j % 8) ((db + n) % 8)) [
        | yes l ↦
            let place : sb + (8 * k + j % 8 - db) ≡ sb + (j - db) = omega arith in
            ground (arith, rest, from, q, l, held (j % 8) l, ap (bit src) place)
        | no l ↦ ground (arith, rest, from, q, l, before j)
      ]
      | no q ↦ ground (arith, rest, q, before j)
    ]

last_byte-Moved :
    (old : List ℕ) (db : ℕ) (src : List ℕ) (sb n m : ℕ) (c : Cursor)
    → 8 < n
    → db + n ≤ 8 * length old
    → (db + n) / 8 ≡ db / 8 + m + 1
    → Stored old db src sb m c
    → (length (last_byte src db sb n (shift_count_of db sb) c) ≡ length old)
      × ((j : ℕ) → Moved old db src sb (db + n) (last_byte src db sb n (shift_count_of db sb) c) j)
unfolding last_byte
last_byte-Moved old db src sb n m c h room e inv =
    let r = (db + n) % 8 in
    let mask = shl32 255 r in
    let k = shift_count_of db sb in
    let accu =
      if (sb + n - 1) / 8 == c.src_index
      then refill src k (c.bit_accu) (c.src_index)
      else c.bit_accu / 2 ^ 8 in
    elim (ℕ_discrete mask 255) [
      | yes q ↦
          let test : (mask == 255) ≡ true = ground (arith, q) in
          let limit : 8 * (db / 8 + m + 1) ≡ db + n = omega (arith, mask-whole r q) in
          rw (test)
            (inv.kept, λ j. subst (λ t. Moved old db src sb t (c.dest) j) limit (inv.moved j))
      | no q ↦
          let test : (mask == 255) ≡ false = ground (arith, q) in
          let part : r ≢ 0 = λ z. q (ap (shl32 255) z) in
          let before : (j : ℕ) → Moved old db src sb (8 * c.dest_index) (c.dest) j = λ j.
            subst (λ t. Moved old db src sb (8 * t) (c.dest) j) (sym (inv.index)) (inv.moved j) in
          let held : (i : ℕ) → i < r → digit i accu ≡ bit src (sb + (8 * c.dest_index + i - db)) =
            λ i lt.
              let place : sb + (8 * suc m + i - db % 8) ≡ sb + (8 * c.dest_index + i - db) =
                omega (arith, inv.index) in
              last_accu src db sb n m (c.bit_accu) (c.src_index) i h e lt (inv.accu)
              ∙ ap (bit src) place in
          rw (test) (
            length-set (c.dest) (c.dest_index) (
                  bit_or (bit_and (byte (c.dest) (c.dest_index)) mask) (bit_and accu (not32 mask))
                  % 2 ^ 8)
                ∙ inv.kept,
            tail-Moved old db src sb n (c.dest_index) accu (c.dest) (omega (arith, inv.index))
                (omega (arith, inv.index)) (omega (arith, inv.index, inv.kept, part)) before held,
          )
    ]

copy_long-Moved :
    (old : List ℕ) (db : ℕ) (src : List ℕ) (sb n : ℕ)
    → 8 < n
    → db + n ≤ 8 * length old
    → (length (copy_long old db src sb n) ≡ length old)
      × ((j : ℕ) → Moved old db src sb (db + n) (copy_long old db src sb n) j)
unfolding copy_long
copy_long-Moved old db src sb n h room =
    let rounds = full_loop_of db sb n - 1 in
    let count = full_loop_of-dest db sb n h in
    let start = first_cursor-Stored old db src sb (omega arith) in
    last_byte-Moved old db src sb n (0 + rounds)
      (inner_loop rounds src (shift_count_of db sb) (first_cursor old db src sb)) h room
      (omega (arith, count))
      (inner_loop-Stored rounds old db src sb 0 (first_cursor old db src sb) (omega (arith, count))
        start)

-- `app_bits_cpy` into a buffer that has room keeps the buffer's length, moves the `n` bits of the
-- source from `sb` on to `db` and the bits after it, and leaves every other bit.
pub app_bits_cpy-Moved :
    (old : List ℕ) (db : ℕ) (src : List ℕ) (sb n : ℕ)
    → db + n ≤ 8 * length old
    → (length (app_bits_cpy old db src sb n) ≡ length old)
      × ((j : ℕ) → Moved old db src sb (db + n) (app_bits_cpy old db src sb n) j)
unfolding app_bits_cpy
app_bits_cpy-Moved old db src sb n room = elim (ℕ_discrete n 0) [
  | yes z ↦
      let test : (n == 0) ≡ true = ground (arith, z) in rw (test) (refl, λ j. ground (arith, z))
  | no z ↦
      let test : (n == 0) ≡ false = ground (arith, z) in
      elim (Bool-cases (leb n 8)) [
        | inl t ↦
            let few : n ≤ 8 = ground (arith, t) in
            rw (test, t)
              (
                length-short_store old db n (short_accu src sb n),
                λ j. ground (
                  arith,
                  bit-short_store old db n (short_accu src sb n) j (omega arith) few room,
                  λ (k : j - db < n). digit-short_accu src sb n (j - db) few k,
                ),
              )
        | inr t ↦ rw (test, t) (copy_long-Moved old db src sb n (ground (arith, t)) room)
      ]
]
