-- ===== src/BitStream/Packet/Received.antt =====
-- A sealed header with its payload behind it, received.
use rudp_network_engine.Prelude.{
  ℕ, zero, suc, ◌+◌, ◌-◌, ◌*◌, ◌/◌, ◌%◌, ◌^◌, ◌≤◌, ◌<◌, ◌≡◌, refl, ap, ◌∙◌, subst, false, List, [],
  ◌∷◌, ◌++◌, get_or, set, take, drop, length, length-set, length-append, length-take, length-drop,
  bit_and, ◌==◌, arith, Bool-cases, inl, inr, ℕ_discrete, ◌≢◌,
}
use rudp_network_engine.Prelude.Bits.{bit_and-mask}
use rudp_network_engine.Prelude.Digit.{digit, digit-le, digit-bit_and}
use rudp_network_engine.BitStream.Copy.{byte, bit}
use rudp_network_engine.BitStream.Copy.Masks.{bit-store, bit-at, get_or-set}
use rudp_network_engine.BitStream.Table.{g_mask}
use rudp_network_engine.BitStream.Table.Bytes.{low_bits, digit-g_mask}
use rudp_network_engine.BitStream.Writer.{Writer, num_bytes}
use rudp_network_engine.BitStream.Writer.Appended.{IsWriter}
use rudp_network_engine.BitStream.Reader
use rudp_network_engine.BitStream.Reader.{Reader, clear_tail}
use rudp_network_engine.BitStream.Transfer.{Receives}
use rudp_network_engine.BitStream.Packet.{PacketHeader, header_sealed, receive}

get_or-take : (n k : ℕ) (xs : List ℕ) → k < n → get_or (take n xs) k 0 ≡ get_or xs k 0
get_or-take zero k xs h = absurd (omega arith)
get_or-take (suc n) k [] h = refl
get_or-take (suc n) zero (x ∷ xs) h = refl
get_or-take (suc n) (suc k) (x ∷ xs) h = get_or-take n k xs (omega arith)

get_or-append : (xs ys : List ℕ) (k : ℕ) → k < length xs → get_or (xs ++ ys) k 0 ≡ get_or xs k 0
get_or-append [] ys k h = absurd (omega arith)
get_or-append (x ∷ xs) ys zero h = refl
get_or-append (x ∷ xs) ys (suc k) h = get_or-append xs ys k (omega arith)

get_or-tail : (xs : List ℕ) (k : ℕ) → get_or (drop 1 xs) k 0 ≡ get_or xs (suc k) 0
get_or-tail [] k = refl
get_or-tail (x ∷ xs) k = refl

drop-append : (xs ys : List ℕ) → drop (length xs) (xs ++ ys) ≡ ys
drop-append [] ys = refl
drop-append (x ∷ xs) ys = drop-append xs ys

bit-clear_tail :
    (m : List ℕ) (count j : ℕ)
    → count ≤ 8 * length m
    → j < count
    → bit (clear_tail m count) j ≡ bit m j
unfolding clear_tail
bit-clear_tail m count j room lt =
    let low = low_bits count in
    let mask = get_or g_mask (bit_and count 7) 0 in
    let b = byte m (count / 8) in
    elim (Bool-cases (bit_and count 7 == 0)) [
      | inl t ↦ rw (t) refl
      | inr t ↦
          let part : count % 8 ≢ 0 = ground (arith, t, low) in
          let stored = bit-store m (count / 8) (bit_and b mask) j (omega (arith, part)) in
          rw (t) (
            stored ∙ elim (ℕ_discrete (j / 8) (count / 8)) [
              | yes e ↦
                  let old : bit m j ≡ digit (j % 8) b =
                    bit-at m j (count / 8) (j % 8) (omega arith) (omega arith) in
                  ground (
                    arith,
                    e,
                    old,
                    digit-bit_and (j % 8) b mask,
                    digit-g_mask (j % 8) count,
                    digit-le (j % 8) b,
                  )
              | no e ↦ ground (arith, e)
            ])
    ]

-- A reader on `count` bits has the first bits of the memory that it is made from.
pub create-bits :
    (src : List ℕ) (count j : ℕ)
    → count ≤ 8 * length src
    → j < count
    → bit ((Reader.create src count).buffer) j ≡ bit src j
unfolding Reader.create
create-bits src count j room lt =
    let n = (count + 7) / 8 in
    bit-clear_tail (take n src) count j (omega (arith, length-take n src)) lt
    ∙ ap (λ t. digit (j % 8) (t % 2 ^ 8)) (get_or-take n (j / 8) src (omega arith))

pub create-Receives : (w : Writer) → IsWriter w → Receives 0 w (Reader.create (w.buffer) (w.max))
unfolding Reader.create
create-Receives w v = record {
  ok = refl;
  whole = omega (arith, v.fits);
  agree = λ j lt.
      let place : j ≡ 0 + j = omega arith in
      create-bits (w.buffer) (w.max) j v.sized (omega (arith, v.fits)) ∙ ap (bit (w.buffer)) place;
}

-- A header of whole bytes, all of them used, and few enough for the size byte.
pub record IsSealed (w : Writer) : Type 0 where
  pub valid : IsWriter w
  pub opened : 8 ≤ w.pos
  pub filled : length (w.buffer) ≡ num_bytes w
  pub short : num_bytes w ≤ 255

num_bytes-covers : (w : Writer) → (w.pos ≤ 8 * num_bytes w) × (8 * num_bytes w < w.pos + 8)
unfolding num_bytes
num_bytes-covers w = (omega arith, omega arith)

-- The datagram, byte by byte and bit by bit.
module _ (m payload : List ℕ) (n : ℕ) (filled : length m ≡ n) (some_bytes : 0 < n)
    (short : n ≤ 255) where
  size_byte : byte (set m 0 (bit_and n 0xFF) ++ payload) 0 ≡ n
  size_byte =
      let x = bit_and n 0xFF in
      let there = get_or-append (set m 0 x) payload 0 (omega (arith, length-set m 0 x)) in
      let first = get_or-set m 0 0 x 0 (omega arith) in
      let size : x % 2 ^ 8 ≡ n = omega (arith, bit_and-mask 8 n) in
      ap (λ t. t % 2 ^ 8) (there ∙ first) ∙ size

  bit-behind :
      (j : ℕ) → 8 + j < 8 * n → bit (drop 1 (set m 0 (bit_and n 0xFF) ++ payload)) j ≡ bit m (8 + j)
  bit-behind j lt =
      let x = bit_and n 0xFF in
      let all = set m 0 x ++ payload in
      let row : suc (j / 8) ≡ (8 + j) / 8 = omega arith in
      let column : j % 8 ≡ (8 + j) % 8 = omega arith in
      let there =
        get_or-append (set m 0 x) payload (suc (j / 8)) (omega (arith, length-set m 0 x)) in
      let same = get_or-set m 0 (suc (j / 8)) x 0 (omega arith) in
      ap (λ t. digit (j % 8) (t % 2 ^ 8)) (get_or-tail all (j / 8) ∙ there ∙ same ∙ ground arith)
      ∙ ap (λ t. digit (j % 8) (byte m t)) row
      ∙ ap (λ t. digit t (byte m ((8 + j) / 8))) column

  payload-behind : drop n (set m 0 (bit_and n 0xFF) ++ payload) ≡ payload
  payload-behind =
      let len : length (set m 0 (bit_and n 0xFF)) ≡ n = length-set m 0 (bit_and n 0xFF) ∙ filled in
      subst (λ k. drop k (set m 0 (bit_and n 0xFF) ++ payload) ≡ payload) len
        (drop-append (set m 0 (bit_and n 0xFF)) payload)

module _ (h : PacketHeader) (payload : List ℕ) where
  abbrev pub datagram : List ℕ
  datagram = (header_sealed h).buffer.buffer ++ payload

  sealed_buffer :
      h.sealed ≡ false
      → (header_sealed h).buffer.buffer
        ≡ set (h.buffer.buffer) 0 (bit_and (num_bytes (h.buffer)) 0xFF)
  unfolding header_sealed
  sealed_buffer fresh = rw (fresh) refl

module _ (h : PacketHeader) (payload : List ℕ) where
  -- The datagram of a packet header of at most 255 bytes, all of them used, that is sealed now, with a
  -- payload of fewer than 2 ^ 31 bytes behind it, is received whole: the reader has the bits of the
  -- header behind the size byte, and the payload starts behind the header and has its size.
  pub receive-sealed :
      IsSealed (h.buffer)
      → h.sealed ≡ false
      → length payload < 2 ^ 31
      → Receives 8 (h.buffer) ((receive (datagram h payload) (length (datagram h payload))).header)
        × (drop
              ((receive (datagram h payload) (length (datagram h payload))).payload_offset)
              (datagram h payload)
            ≡ payload)
        × ((receive (datagram h payload) (length (datagram h payload))).payload_size
            ≡ length payload)
  unfolding receive Reader.create
  receive-sealed s fresh few =
      let m = h.buffer.buffer in
      let n = num_bytes (h.buffer) in
      let covers = num_bytes-covers (h.buffer) in
      let some_bytes : 0 < n = omega (arith, covers, s.opened) in
      let size = size_byte m payload n s.filled some_bytes s.short in
      let all = set m 0 (bit_and n 0xFF) ++ payload in
      let len : length all ≡ n + length payload = omega (
        arith,
        length-append (set m 0 (bit_and n 0xFF)) payload,
        length-set m 0 (bit_and n 0xFF),
        s.filled,
      ) in
      rw (sealed_buffer h payload fresh, size, len)
        (
          record {
            ok = refl;
            whole = omega (arith, covers, s.short, some_bytes);
            agree = λ j lt.
                create-bits (drop 1 all) ((n + 2 ^ 8 - 1) % 2 ^ 8 * 8) j
                  (omega (arith, length-drop 1 all, len, some_bytes, s.short))
                  (omega (arith, covers, some_bytes, s.short))
                ∙ bit-behind m payload n s.filled some_bytes s.short j (omega (arith, covers));
          },
          payload-behind m payload n s.filled some_bytes s.short,
          omega arith,
        )
