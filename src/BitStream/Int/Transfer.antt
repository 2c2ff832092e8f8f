-- ===== src/BitStream/Int/Transfer.antt =====
-- A number that `SerializeInt` writes, read back.
use rudp_network_engine.Prelude.{
  ℕ, ◌+◌, ◌-◌, ◌*◌, ◌%◌, ◌^◌, ◌≤◌, ◌<◌, ◌≡◌, refl, sym, ap, ap₂, ◌∙◌, subst, Bool, true, false,
  List, length, leb, if◌then◌else◌, arith,
}
use rudp_network_engine.Prelude.Digit.{digit}
use rudp_network_engine.BitStream.Copy.{bit}
use rudp_network_engine.BitStream.Writer.{Writer}
use rudp_network_engine.BitStream.Writer.Appended.{IsWriter, Appended, appended, allow_append-room}
use rudp_network_engine.BitStream.Reader.{Reader, set_error}
use rudp_network_engine.BitStream.Transfer.{Receives}
use rudp_network_engine.BitStream.Int.{
  write_int, read_int, ceil_log_two, writer_serialize_int, reader_serialize_int,
}
use rudp_network_engine.BitStream.Int.Bits.{ceil_log_two-covers}
use rudp_network_engine.BitStream.Int.Loops.{Written, int_end, write_int-Written}
use rudp_network_engine.BitStream.Int.Rounds.{read_int-Read, int_end-whole, int_end-covered}

-- The value that `SerializeInt` writes: one that is too large becomes the largest.
abbrev pub clamped : ℕ → ℕ → ℕ
clamped value bound = if leb bound value then bound - 1 else value

-- The number of bits that the loops take for `v`.
unfoldable pub int_size : ℕ → ℕ → ℕ
int_size bound v = int_end 33 0 bound v

size-fits : (bound v : ℕ) → bound < 2 ^ 32 → int_size bound v ≤ ceil_log_two bound
unfolding int_size
size-fits bound v small =
    int_end-covered 33 0 bound v (ceil_log_two bound)
      (λ i lt h. ceil_log_two-covers i bound lt h (omega arith)) (omega arith) (omega arith)

size-whole : (bound v : ℕ) → v < bound → bound < 2 ^ 32 → v % 2 ^ int_size bound v ≡ v
unfolding int_size
size-whole bound v lt small = int_end-whole 33 0 bound v (omega arith) (omega arith) lt small

loop-Written :
    (bound v at : ℕ) (m : List ℕ)
    → at + int_size bound v ≤ 8 * length m
    → ((j : ℕ) → at ≤ j → bit m j ≡ 0)
    → ((write_int 33 v bound m 1 0 at).1 ≡ at + int_size bound v)
      × Written m at 0 (int_size bound v) v ((write_int 33 v bound m 1 0 at).0)
unfolding int_size
loop-Written bound v at m room clean =
    write_int-Written 33 0 bound v at 1 0 at m (omega arith) refl (omega arith) (omega arith) room
      clean

loop_read :
    (bound v at end : ℕ) (m : List ℕ)
    → at + int_size bound v ≤ end
    → ((i : ℕ) → i < int_size bound v → bit m (at + i) ≡ digit i v)
    → read_int 33 bound end m 1 0 at ≡ (v % 2 ^ int_size bound v, at + int_size bound v, false)
unfolding int_size
loop_read bound v at end m room same =
    read_int-Read 33 0 bound v at end 1 0 at m (omega arith) refl (omega arith) (omega arith) room
      same

module _ (w : Writer) (value bound : ℕ) (v : IsWriter w) (two : 2 ≤ bound) (small : bound < 2 ^ 32)
    (room : w.pos + ceil_log_two bound ≤ w.max) where
  written_state : writer_serialize_int w value bound ≡ record w {
    buffer = (write_int 33 (clamped value bound) bound (w.buffer) 1 0 (w.pos)).0;
    pos = (write_int 33 (clamped value bound) bound (w.buffer) 1 0 (w.pos)).1;
  }
  unfolding writer_serialize_int
  written_state =
      let enough : leb 2 bound ≡ true = ground (arith, two) in
      rw (enough, allow_append-room w (ceil_log_two bound) room) refl

  -- What is appended are the digits of the value.
  pub serialize_int-Appended :
      Appended w
        (int_size bound (clamped value bound))
        (λ i. digit i (clamped value bound))
        (writer_serialize_int w value bound)
  serialize_int-Appended =
      let x = clamped value bound in
      let fits = size-fits bound x small in
      let loop =
        loop-Written bound x (w.pos) (w.buffer) (omega (arith, v.sized, room, fits)) v.clean in
      let m = (write_int 33 x bound (w.buffer) 1 0 (w.pos)).0 in
      subst (Appended w (int_size bound x) (λ i. digit i x))
        (sym (written_state ∙ ap (λ p. record w { buffer = m; pos = p }) loop.0))
        (appended w (int_size bound x) (λ i. digit i x) m v (omega (arith, room, fits)) (loop.1.0)
          (λ j.
            let place : w.pos + 0 ≡ w.pos = omega arith in ground (arith, loop.1.1 j, v.clean j)))

-- A number that `SerializeInt` writes, with a bound from 2 to 2 ^ 32 - 1 and room for `CeilLogTwo`
-- bits, is read back with the same bound by a reader that received what was written, at that place, one
-- that is too large as the largest: the reader ends behind the bits that the writer took.
pub serialize_int-written :
    {w : Writer} {r : Reader} (skipped value bound old : ℕ)
    → IsWriter w
    → 2 ≤ bound
    → bound < 2 ^ 32
    → w.pos + ceil_log_two bound ≤ w.max
    → Receives skipped (writer_serialize_int w value bound) r
    → skipped + r.pos ≡ w.pos
    → IsWriter (writer_serialize_int w value bound)
      × (reader_serialize_int r old bound ≡ (
        clamped value bound,
        record r { pos = (writer_serialize_int w value bound).pos - skipped },
      ))
unfolding reader_serialize_int
serialize_int-written {w} {r} skipped value bound old v two small room got at =
    let x = clamped value bound in
    let a = serialize_int-Appended w value bound v two small room in
    let below : x < bound = ground (arith, two) in
    let loop =
      loop_read bound x (r.pos) (r.max) (r.buffer) (omega (arith, got.whole, a.pos_after, at))
        (λ i lt.
          let place : skipped + (r.pos + i) ≡ w.pos + i = omega (arith, at) in
          got.agree (r.pos + i) (omega (arith, a.pos_after, at))
          ∙ ap (bit ((writer_serialize_int w value bound).buffer)) place
          ∙ a.new i lt) in
    let end : r.pos + int_size bound x ≡ (writer_serialize_int w value bound).pos - skipped =
      omega (arith, a.pos_after, at) in
    let result : ℕ × ℕ × Bool → ℕ × Reader =
      λ t. (t.0, (if t.2 then record (set_error r) { pos = t.1 } else record r { pos = t.1 })) in
    (
      a.still,
      ap (λ b. if b then (old, r) else result (read_int 33 bound (r.max) (r.buffer) 1 0 (r.pos)))
            got.ok
          ∙ ap result loop
          ∙ ap₂ (λ y p. (y, record r { pos = p })) (size-whole bound x below small) end,
    )
