-- ===== src/BitStream/Packed/Transfer.antt =====
-- A number that `SerializeIntPacked` writes, read back.
use native.Mathlib.Nat.{pow-suc}
use rudp_network_engine.Prelude.{
  ℕ, zero, suc, ◌+◌, ◌-◌, ◌*◌, ◌/◌, ◌%◌, ◌^◌, ◌≤◌, ◌<◌, ◌≡◌, refl, sym, ap, ap₂, ◌∙◌, subst, Bool,
  true, false, List, [], ◌∷◌, length, bit_and, bit_or, ltb, ◌==◌, if◌then◌else◌, arith, Bool-cases,
  inl, inr,
}
use rudp_network_engine.Prelude.Bits.{bit_and-one}
use rudp_network_engine.Prelude.Digit.{digit, digit-injective}
use rudp_network_engine.BitStream.Copy.{bit, shl32}
use rudp_network_engine.BitStream.Writer.{Writer}
use rudp_network_engine.BitStream.Writer.Appended.{IsWriter, allow_append-room}
use rudp_network_engine.BitStream.Reader.{Reader, set_error}
use rudp_network_engine.BitStream.Transfer.{Receives}
use rudp_network_engine.BitStream.Packed.{
  packed_byte, packed_bytes, write_byte, write_bytes, read_byte, read_packed,
  writer_serialize_int_packed, reader_serialize_int_packed,
}
use rudp_network_engine.BitStream.Packed.Byte.{
  length-write_byte, write_byte-Landed, digit-read_byte, read_byte-small,
}
use rudp_network_engine.BitStream.Packed.Value.{
  packed_byte-sum, two_pow-seven, seven_more, value_or, value-below,
}

-- The buffer has these bytes from the bit `at` on.
abbrev HasBytes : List ℕ → ℕ → List ℕ → Type 0
HasBytes m at [] = Unit {0}
HasBytes m at (x ∷ xs) =
    (x < 2 ^ 8) × ((i : ℕ) → i < 8 → bit m (at + i) ≡ digit i x) × HasBytes m (at + 8) xs

abbrev AreBytes : List ℕ → Type 0
AreBytes [] = Unit {0}
AreBytes (x ∷ xs) = (x < 2 ^ 8) × AreBytes xs

packed_bytes-AreBytes : (n v : ℕ) → v < 2 ^ 32 → AreBytes (packed_bytes n v)
unfolding packed_bytes
packed_bytes-AreBytes zero v h = tt
packed_bytes-AreBytes (suc n) v h =
    let small : packed_byte v < 2 ^ 8 = ground (arith, packed_byte-sum v h) in
    elim (Bool-cases (v / 2 ^ 7 == 0)) [
      | inl t ↦ rw (t) (small, tt)
      | inr t ↦ rw (t) (small, packed_bytes-AreBytes n (v / 2 ^ 7) (omega arith))
    ]

-- Bytes that stand elsewhere too.
HasBytes-moved :
    (m m' : List ℕ) (at at' : ℕ) (xs : List ℕ)
    → ((i : ℕ) → i < 8 * length xs → bit m' (at' + i) ≡ bit m (at + i))
    → HasBytes m at xs
    → HasBytes m' at' xs
HasBytes-moved m m' at at' [] same h = tt
HasBytes-moved m m' at at' (x ∷ xs) same h = (
  h.0,
  (λ i lt. same i (omega arith) ∙ h.1 i lt),
  HasBytes-moved m m' (at + 8) (at' + 8) xs
      (λ i lt.
        let place : at' + (8 + i) ≡ at' + 8 + i = omega arith in
        let place' : at + (8 + i) ≡ at + 8 + i = omega arith in
        ap (bit m') (sym place) ∙ same (8 + i) (omega arith) ∙ ap (bit m) place')
      (h.2),
)

-- What the writer's loop leaves.
record Packs (m : List ℕ) (at : ℕ) (xs : List ℕ) (m' : List ℕ) : Type 0 where
  pub length_kept : length m' ≡ length m
  pub before : (j : ℕ) → j < at → bit m' j ≡ bit m j
  pub after : (j : ℕ) → at + 8 * length xs ≤ j → bit m' j ≡ bit m j
  pub bytes : HasBytes m' at xs

write_bytes-Packs :
    (xs : List ℕ) (m : List ℕ) (at : ℕ)
    → AreBytes xs
    → at + 8 * length xs ≤ 8 * length m
    → Packs m at xs (write_bytes m at xs)
write_bytes-Packs [] m at h room = record {
  length_kept = refl;
  before = λ j lt. refl;
  after = λ j le. refl;
  bytes = tt;
}
write_bytes-Packs (x ∷ xs) m at h room =
    let one = λ (j : ℕ). write_byte-Landed m at x j (omega arith) (h.0) in
    let len = length-write_byte m at x in
    let rest = write_bytes-Packs xs (write_byte m at x) (at + 8) (h.1) (omega (arith, len)) in
    record {
      length_kept = rest.length_kept ∙ len;
      before = λ j lt. rest.before j (omega arith) ∙ one j ∙ ground arith;
      after = λ j le. rest.after j (omega arith) ∙ one j ∙ ground arith;
      bytes = (
        h.0,
        (λ i lt.
            let place : at + i - at ≡ i = omega arith in
            rest.before (at + i) (omega arith)
            ∙ one (at + i)
            ∙ ground (arith, ap (λ t. digit t x) place)),
        rest.bytes,
      );
    }

read_byte-eq :
    (m : List ℕ) (at x : ℕ)
    → x < 2 ^ 8
    → ((i : ℕ) → i < 8 → bit m (at + i) ≡ digit i x)
    → read_byte m at ≡ x
read_byte-eq m at x small same =
    digit-injective 8 (read_byte m at) x (read_byte-small m at) small
      (λ i lt. digit-read_byte m at i lt ∙ same i lt)

-- The reader's loop on the bytes of `v`, the value so far below the bits that come.
read_packed-value :
    (n : ℕ) (m : List ℕ) (end at s v acc : ℕ)
    → v < 128 ^ n
    → v < 2 ^ 32
    → v * 2 ^ s < 2 ^ 32
    → acc < 2 ^ s
    → HasBytes m at (packed_bytes n v)
    → at + 8 * length (packed_bytes n v) ≤ end
    → read_packed n m end at s acc ≡ (v * 2 ^ s + acc, at + 8 * length (packed_bytes n v), false)
unfolding packed_bytes read_packed
read_packed-value zero m end at s v acc few small fits below has room =
    let none : v ≡ 0 = omega arith in
    let value : acc ≡ v * 2 ^ s + acc = let e = ap (λ t. t * 2 ^ s) none in omega (arith, e) in
    let place : at ≡ at + 8 * 0 = omega arith in ap₂ (λ a b. (a, b, false)) value place
read_packed-value (suc n) m end at s v acc few small fits below has room =
    let q = v / 2 ^ 7 in
    let b = read_byte m at in
    let read = read_byte-eq m at (packed_byte v) (has.0) (has.1) ∙ packed_byte-sum v small in
    let inside : ltb end (at + 8) ≡ false = ground (arith, room) in
    let half : b / 2 ^ 1 ≡ v % 2 ^ 7 = ground (arith, read) in
    let value : bit_or (shl32 (b / 2 ^ 1) s) acc ≡ v % 2 ^ 7 * 2 ^ s + acc =
      ap (λ t. bit_or (shl32 t s) acc) half ∙ value_or v s acc below fits in
    elim (Bool-cases (q == 0)) [
      | inl t ↦
          let stop : (bit_and b 1 == 0) ≡ true = ground (arith, read, t, bit_and-one b) in
          let whole : v % 2 ^ 7 * 2 ^ s + acc ≡ v * 2 ^ s + acc =
            let e : v % 2 ^ 7 ≡ v = ground (arith, t) in ap (λ t. t * 2 ^ s + acc) e in
          let end_place : at + 8 ≡ at + 8 * suc (length (if q == 0 then [] else packed_bytes n q)) =
            rw (t) (omega arith) in
          rw (inside) (rw (stop) (ap₂ (λ a p. (a, p, false)) (value ∙ whole) end_place))
      | inr t ↦
          let go : (bit_and b 1 == 0) ≡ false = ground (arith, read, t, bit_and-one b) in
          let tail : (if q == 0 then [] else packed_bytes n q) ≡ packed_bytes n q = rw (t) refl in
          let wide = two_pow-seven s in
          let more = seven_more v (2 ^ s) in
          let fits' : q * 2 ^ (s + 7) < 2 ^ 32 = omega (arith, ap (λ t. q * t) wide, more, fits) in
          let rest =
            read_packed-value n m end (at + 8) (s + 7) q (v % 2 ^ 7 * 2 ^ s + acc)
              (omega (arith, pow-suc 128 n)) (omega arith) fits' (value-below v s acc below)
              (subst (HasBytes m (at + 8)) tail (has.2)) (omega (arith, room, ap length tail)) in
          let sum : q * 2 ^ (s + 7) + (v % 2 ^ 7 * 2 ^ s + acc) ≡ v * 2 ^ s + acc =
            omega (arith, ap (λ t. q * t) wide, more) in
          let end_place : at + 8 + 8 * length (packed_bytes n q)
              ≡ at + 8 * suc (length (if q == 0 then [] else packed_bytes n q)) =
            omega (arith, ap length tail) in
          rw (inside) (
            rw (go) (
              ap (read_packed n m end (at + 8) (s + 7)) value
              ∙ rest
              ∙ ap₂ (λ a p. (a, p, false)) sum end_place))
    ]

-- A uint32_t that `SerializeIntPacked` writes with room for its bytes is read back by a reader that
-- received what was written, at that place, and the reader ends behind them.
pub serialize_int_packed-written :
    {w : Writer} {r : Reader} (skipped value : ℕ)
    → IsWriter w
    → value < 2 ^ 32
    → w.pos + length (packed_bytes 5 value) * 8 ≤ w.max
    → Receives skipped (writer_serialize_int_packed w value) r
    → skipped + r.pos ≡ w.pos
    → IsWriter (writer_serialize_int_packed w value)
      × (reader_serialize_int_packed r
          ≡ (value, record r { pos = (writer_serialize_int_packed w value).pos - skipped }))
unfolding writer_serialize_int_packed reader_serialize_int_packed
serialize_int_packed-written {w} {r} skipped value v small room got at =
    let xs = packed_bytes 5 value in
    let n = length xs in
    let packs =
      write_bytes-Packs xs (w.buffer) (w.pos) (packed_bytes-AreBytes 5 value small)
        (omega (arith, v.sized, room)) in
    let w' : Writer = record w {
      buffer = write_bytes (w.buffer) (w.pos) xs;
      pos = w.pos + n * 8;
    } in
    let e : writer_serialize_int_packed w value ≡ w' = rw (allow_append-room w (n * 8) room) refl in
    let got' = subst (λ w'. Receives skipped w' r) e got in
    let still : IsWriter w' = record {
      sized = omega (arith, v.sized, packs.length_kept);
      fits = room;
      clean = λ j le. packs.after j (omega arith) ∙ v.clean j (omega arith);
    } in
    let has : HasBytes (r.buffer) (r.pos) xs =
      HasBytes-moved (w'.buffer) (r.buffer) (w.pos) (r.pos) xs
        (λ i lt.
          let place : skipped + (r.pos + i) ≡ w.pos + i = omega (arith, at) in
          got'.agree (r.pos + i) (omega (arith, at)) ∙ ap (bit (w'.buffer)) place)
        packs.bytes in
    let loop =
      read_packed-value 5 (r.buffer) (r.max) (r.pos) 0 value 0 (omega arith) small (omega arith)
        (omega arith) has (omega (arith, got'.whole, at)) in
    let result : ℕ × ℕ × Bool → ℕ × Reader =
      λ t. (t.0, (if t.2 then record (set_error r) { pos = t.1 } else record r { pos = t.1 })) in
    let value_whole : value * 2 ^ 0 + 0 ≡ value = omega arith in
    let end_place : r.pos + 8 * n ≡ w'.pos - skipped = omega (arith, at) in
    subst
      (λ u.
        IsWriter u × (reader_serialize_int_packed r ≡ (value, record r { pos = u.pos - skipped })))
      (sym e)
      (
        still,
        ap (λ b. if b then (0, r) else result (read_packed 5 (r.buffer) (r.max) (r.pos) 0 0))
              got'.ok
            ∙ ap result loop
            ∙ ap₂ (λ a p. (a, record r { pos = p })) value_whole end_place,
      )
