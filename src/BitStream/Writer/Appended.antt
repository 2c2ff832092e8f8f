-- ===== src/BitStream/Writer/Appended.antt =====
-- What the calls of `BitWriter` append, and what happens without room.
use rudp_network_engine.Prelude.{
  ℕ, zero, suc, ◌+◌, ◌-◌, ◌*◌, ◌/◌, ◌%◌, ◌^◌, ◌≤◌, ◌<◌, ◌≡◌, refl, ap, ◌∙◌, subst, Bool, true,
  false, not, inl, inr, Bool-cases, List, get_or, length, replicate, length-replicate, bit_and,
  bit_or, ltb, leb, ◌==◌, if◌then◌else◌, arith, ℕ_discrete,
}
use rudp_network_engine.Prelude.Bits.{bit_and-one}
use rudp_network_engine.Prelude.Digit.{digit, digit-le, digit-zero, digit-bit_or}
use rudp_network_engine.BitStream.Copy.{byte, bit, app_bits_cpy}
use rudp_network_engine.BitStream.Copy.Masks.{bit-store, length-store, bit-at}
use rudp_network_engine.BitStream.Copy.Copied.{app_bits_cpy-Moved}
use rudp_network_engine.BitStream.Table.{g_shift, le_bytes}
use rudp_network_engine.BitStream.Table.Bytes.{digit-g_shift, bit-le_bytes}
use rudp_network_engine.BitStream.Writer.{
  Writer, create, allow_append, set_bit, serialize_bits, serialize_bits_with_offset, serialize,
  write_bit, put_word,
}

-- The buffer has room for `Max` bits, and the ones not yet written are 0.
pub record IsWriter (w : Writer) : Type 0 where
  pub sized : w.max ≤ 8 * length (w.buffer)
  pub fits : w.pos ≤ w.max
  pub clean : (j : ℕ) → w.pos ≤ j → bit (w.buffer) j ≡ 0

-- `w'` is `w` with the bits `f 0`, ..., `f (n - 1)` appended.
pub record Appended (w : Writer) (n : ℕ) (f : ℕ → ℕ) (w' : Writer) : Type 0 where
  pub still : IsWriter w'
  pub pos_after : w'.pos ≡ w.pos + n
  pub max_kept : w'.max ≡ w.max
  pub before : (j : ℕ) → j < w.pos → bit (w'.buffer) j ≡ bit (w.buffer) j
  pub new : (i : ℕ) → i < n → bit (w'.buffer) (w.pos + i) ≡ f i

zero-bit : (n j : ℕ) → bit (replicate n 0) j ≡ 0
zero-bit n j = ap (λ t. digit (j % 8) (t % 2 ^ 8)) (zero_byte n (j / 8)) ∙ digit-zero (j % 8)
  where
    zero_byte : (n k : ℕ) → get_or (replicate {A = ℕ} n 0) k 0 ≡ 0
    zero_byte zero k = refl
    zero_byte (suc n) zero = refl
    zero_byte (suc n) (suc k) = zero_byte n k

pub create-IsWriter : (bits : ℕ) (resize : Bool) → IsWriter (create bits resize)
unfolding create
create-IsWriter bits resize = record {
  sized = omega (arith, length-replicate {A = ℕ} ((bits + 7) / 2 ^ 3) 0);
  fits = omega arith;
  clean = λ j le. zero-bit ((bits + 7) / 2 ^ 3) j;
}

pub allow_append_iff : (w : Writer) (n : ℕ) → allow_append w n ≡ not (ltb (w.max) (w.pos + n))
unfolding allow_append
allow_append_iff w n = elim (Bool-cases (ltb (w.max) (w.pos + n))) [
  | inl t ↦ elim (Bool-cases (w.allow_resize)) [ inl a ↦ rw (t, a) refl | inr a ↦ rw (t, a) refl ]
  | inr t ↦ rw (t) refl
]

module _ (w : Writer) (n : ℕ) where
  pub allow_append-room : w.pos + n ≤ w.max → allow_append w n ≡ true
  allow_append-room h = allow_append_iff w n ∙ ground (arith, h)

  pub allow_append-full : w.max < w.pos + n → allow_append w n ≡ false
  allow_append-full h = allow_append_iff w n ∙ ground (arith, h)

-- Any buffer that has the bits of `f` from `w.pos` on and is the old one elsewhere.
pub appended :
    (w : Writer) (n : ℕ) (f : ℕ → ℕ) (m : List ℕ)
    → IsWriter w
    → w.pos + n ≤ w.max
    → length m ≡ length (w.buffer)
    → ((j : ℕ)
        → bit m j ≡ (
            if leb (w.pos) j
            then (if ltb j (w.pos + n) then f (j - w.pos) else bit (w.buffer) j)
            else bit (w.buffer) j))
    → Appended w n f (record w { buffer = m; pos = w.pos + n })
appended w n f m v room len bits = record {
  still = record {
    sized = omega (arith, v.sized, len);
    fits = room;
    clean = λ j le. ground (arith, bits j, v.clean j (omega arith));
  };
  pos_after = refl;
  max_kept = refl;
  before = λ j lt. ground (arith, bits j);
  new = λ i lt.
      let place : w.pos + i - w.pos ≡ i = omega arith in
      ground (arith, bits (w.pos + i), ap f place);
}

copied :
    (w : Writer) (src : List ℕ) (sb n : ℕ)
    → IsWriter w
    → w.pos + n ≤ w.max
    → Appended w n
        (λ i. bit src (sb + i))
        (record w { buffer = app_bits_cpy (w.buffer) (w.pos) src sb n; pos = w.pos + n })
copied w src sb n v room =
    let moved = app_bits_cpy-Moved (w.buffer) (w.pos) src sb n (omega (arith, v.sized)) in
    appended w n (λ i. bit src (sb + i)) (app_bits_cpy (w.buffer) (w.pos) src sb n) v room (moved.0)
      (moved.1)

length-set_bit : (m : List ℕ) (pos : ℕ) → length (set_bit m pos) ≡ length m
unfolding set_bit
length-set_bit m pos =
    length-store m (pos / 2 ^ 3) (bit_or (byte m (pos / 2 ^ 3)) (get_or g_shift (bit_and pos 7) 0))

bit-set_bit :
    (m : List ℕ) (pos j : ℕ)
    → pos < 8 * length m
    → bit (set_bit m pos) j ≡ (if j == pos then 1 else bit m j)
unfolding set_bit
bit-set_bit m pos j h =
    let b = byte m (pos / 2 ^ 3) in
    let g = get_or g_shift (bit_and pos 7) 0 in
    let stored = bit-store m (pos / 2 ^ 3) (bit_or b g) j (omega arith) in
    elim (ℕ_discrete (j / 8) (pos / 8)) [
      | yes e ↦
          let old : bit m j ≡ digit (j % 8) b =
            bit-at m j (pos / 8) (j % 8) (omega arith) (omega arith) in
          ground (
            arith,
            stored,
            e,
            old,
            digit-bit_or (j % 8) b g,
            digit-g_shift (j % 8) pos,
            digit-le (j % 8) b,
          )
      | no e ↦ ground (arith, stored, e)
    ]

-- `Buffer[Pos >> 3] |= GShift[Pos & 7]` where the bit is to be 1, and nothing where it is to be 0.
one_more :
    (w : Writer) (b : Bool)
    → IsWriter w
    → w.pos + 1 ≤ w.max
    → Appended w 1
        (λ _. if b then 1 else 0)
        (record w { buffer = if b then set_bit (w.buffer) (w.pos) else w.buffer; pos = w.pos + 1 })
one_more w true v room =
    appended w 1 (λ _. 1) (set_bit (w.buffer) (w.pos)) v room (length-set_bit (w.buffer) (w.pos))
      (λ j. ground (arith, bit-set_bit (w.buffer) (w.pos) j (omega (arith, v.sized, room))))
one_more w false v room =
    appended w 1 (λ _. 0) (w.buffer) v room refl
      (λ j. ground (arith, λ (k : w.pos ≤ j). v.clean j k))

same_bits :
    (w : Writer) (n : ℕ) (f g : ℕ → ℕ) (w' : Writer)
    → ((i : ℕ) → i < n → f i ≡ g i)
    → Appended w n f w'
    → Appended w n g w'
same_bits w n f g w' same a = record {
  still = a.still;
  pos_after = a.pos_after;
  max_kept = a.max_kept;
  before = a.before;
  new = λ i lt. a.new i lt ∙ same i lt;
}

copied_from_start :
    (w : Writer) (src : List ℕ) (n : ℕ)
    → IsWriter w
    → w.pos + n ≤ w.max
    → Appended w n
        (bit src)
        (record w { buffer = app_bits_cpy (w.buffer) (w.pos) src 0 n; pos = w.pos + n })
copied_from_start w src n v room =
    same_bits w n (λ i. bit src (0 + i)) (bit src) _
      (λ i lt. let place : 0 + i ≡ i = omega arith in ap (bit src) place) (copied w src 0 n v room)

module _ (w : Writer) (v : IsWriter w) where
  -- `SerializeBits` with room appends the first `n` bits of the source.
  pub serialize_bits-Appended :
      (src : List ℕ) (n : ℕ) → w.pos + n ≤ w.max → Appended w n (bit src) (serialize_bits w src n)
  unfolding serialize_bits
  serialize_bits-Appended src n room =
      let go = allow_append-room w n room in
      elim (Bool-cases (n == 1)) [
        | inl t ↦
            let one : 1 ≡ n = ground (arith, t) in
            let b = not (bit_and (byte src 0) 1 == 0) in
            rw (go, t)
              (subst
                (λ n. Appended w n (bit src) (record w {
                  buffer = if b then set_bit (w.buffer) (w.pos) else w.buffer;
                  pos = w.pos + 1;
                }))
                one
                (same_bits w 1 (λ _. if b then 1 else 0) (bit src)
                  (record w {
                    buffer = if b then set_bit (w.buffer) (w.pos) else w.buffer;
                    pos = w.pos + 1;
                  })
                  (λ i lt.
                    let first = bit-at src i 0 0 (omega arith) (omega arith) in
                    ground (arith, bit_and-one (byte src 0), first))
                  (one_more w b v (omega arith))))
        | inr t ↦ rw (go, t) (copied_from_start w src n v room)
      ]

  pub serialize_bits_with_offset-Appended :
      (src : List ℕ) (sb n : ℕ)
      → w.pos + n ≤ w.max
      → Appended w n (λ i. bit src (sb + i)) (serialize_bits_with_offset w src sb n)
  unfolding serialize_bits_with_offset
  serialize_bits_with_offset-Appended src sb n room =
      rw (allow_append-room w n room) (copied w src sb n v room)

  pub serialize-Appended :
      (src : List ℕ) (k : ℕ)
      → w.pos + k * 8 ≤ w.max
      → Appended w (k * 8) (bit src) (serialize w src k)
  unfolding serialize
  serialize-Appended src k room =
      rw (allow_append-room w (k * 8) room) (copied_from_start w src (k * 8) v room)

  pub write_bit-Appended :
      (b : ℕ) → w.pos + 1 ≤ w.max → Appended w 1 (λ _. if b == 0 then 0 else 1) (write_bit w b)
  unfolding write_bit
  write_bit-Appended b room = rw (allow_append-room w 1 room) (
      same_bits w 1 (λ _. if not (b == 0) then 1 else 0) (λ _. if b == 0 then 0 else 1) _
        (λ i lt. ground arith) (one_more w (not (b == 0)) v room))

  pub put_word-Appended :
      (x : ℕ) → w.pos + 32 ≤ w.max → Appended w 32 (λ i. digit i x) (put_word w x)
  unfolding put_word
  put_word-Appended x room =
      same_bits w 32 (bit (le_bytes 4 x)) (λ i. digit i x) (serialize w (le_bytes 4 x) 4)
        (λ i lt. bit-le_bytes 4 x i ∙ ground arith) (serialize-Appended (le_bytes 4 x) 4 room)

-- Without room a call changes nothing.
module _ (w : Writer) where
  pub serialize_bits-full : (src : List ℕ) (n : ℕ) → w.max < w.pos + n → serialize_bits w src n ≡ w
  unfolding serialize_bits
  serialize_bits-full src n h = rw (allow_append-full w n h) refl

  pub put_word-full : (x : ℕ) → w.max < w.pos + 32 → put_word w x ≡ w
  unfolding put_word serialize
  put_word-full x h = rw (allow_append-full w 32 h) refl
