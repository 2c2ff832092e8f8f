-- ===== src/Channel/Receiving/Reading.antt =====
-- The messages of a bunch: what a sender lays out is read back, message by message.
use mathlib.Core.List.{append_assoc}
use rudp_network_engine.Prelude.{
  ℕ, suc, ◌+◌, ◌-◌, ◌*◌, ◌/◌, ◌%◌, ◌^◌, ◌<◌, ◌≡◌, refl, ap, ◌∙◌, true, false, List, [], ◌∷◌, ◌++◌,
  some, length, length-append, take, drop, ltb, arith,
}
use rudp_network_engine.Channel.Receiving.{
  BufferReader, Message, can_read, read_view, read_message, read_messages, then_read, header_field,
}

-- A message in memory: the two little-endian fields of `MessageHeader`, whose size counts the header,
-- and the payload.
abbrev pub message_bytes : Message → List ℕ
message_bytes m =
    let size = length m.payload + 4 in
    size % 2 ^ 8 ∷ size / 2 ^ 8 ∷ m.message_id % 2 ^ 8 ∷ m.message_id / 2 ^ 8 ∷ m.payload

abbrev pub bunch_bytes : List Message → List ℕ
bunch_bytes [] = []
bunch_bytes (m ∷ ms) = message_bytes m ++ bunch_bytes ms

-- What the 16 bits of the two fields hold.
abbrev pub AreMessages : List Message → Type 0
AreMessages [] = Unit {0}
AreMessages (m ∷ ms) = (length m.payload + 4 < 2 ^ 16) × (m.message_id < 2 ^ 16) × AreMessages ms

take-length : (xs ys : List ℕ) → take (length xs) (xs ++ ys) ≡ xs
take-length [] ys = refl
take-length (x ∷ xs) ys = ap (λ t. x ∷ t) (take-length xs ys)

drop-length : (xs ys : List ℕ) → drop (length xs) (xs ++ ys) ≡ ys
drop-length [] ys = refl
drop-length (x ∷ xs) ys = drop-length xs ys

read_view-prefix :
    (xs ys : List ℕ)
    → read_view (record { view = xs ++ ys; error = false }) (length xs)
      ≡ (xs, record { view = ys; error = false })
unfolding read_view
read_view-prefix xs ys =
    let e : ltb (length (xs ++ ys)) (length xs) ≡ false = ground (arith, length-append xs ys) in
    rw (e, take-length xs ys, drop-length xs ys)

can_read-prefix :
    (xs ys : List ℕ) → can_read (record { view = xs ++ ys; error = false }) (length xs) ≡ true
unfolding can_read
can_read-prefix xs ys = ground (arith, length-append xs ys)

read_message-bytes :
    (m : Message) (rest : List ℕ)
    → length m.payload + 4 < 2 ^ 16
    → m.message_id < 2 ^ 16
    → read_message (record { view = message_bytes m ++ rest; error = false })
      ≡ some (m, record { view = rest; error = false })
unfolding read_message header_field
read_message-bytes m rest h k =
    let size = length m.payload + 4 in
    let header = size % 2 ^ 8 ∷ size / 2 ^ 8 ∷ m.message_id % 2 ^ 8 ∷ m.message_id / 2 ^ 8 ∷ [] in
    let e : (size % 2 ^ 8 + 2 ^ 8 * (size / 2 ^ 8) + 2 ^ 16 - 4) % 2 ^ 16 ≡ length m.payload =
      omega arith in
    let e' : m.message_id % 2 ^ 8 + 2 ^ 8 * (m.message_id / 2 ^ 8) ≡ m.message_id = omega arith in
    rw (
      can_read-prefix header (m.payload ++ rest),
      read_view-prefix header (m.payload ++ rest),
      e,
      read_view-prefix m.payload rest,
      can_read-prefix m.payload rest,
      e',
    )

read_messages-found :
    (n : ℕ) (r : BufferReader) (m : Message) (r' : BufferReader) (ms : List Message)
    → read_message r ≡ some (m, r')
    → read_messages n r' ≡ (true, ms)
    → read_messages (suc n) r ≡ (true, m ∷ ms)
unfolding read_messages
read_messages-found n r m r' ms e e' =
    ap (then_read (read_messages n)) e ∙ ap (λ d. (d.0, m ∷ d.1)) e'

-- Messages whose sizes and ids have 16 bits, laid out one after the other, are all read back, in order,
-- whatever follows them.
pub read_messages-bunch_bytes :
    (ms : List Message) (rest : List ℕ)
    → AreMessages ms
    → read_messages (length ms) (record { view = bunch_bytes ms ++ rest; error = false })
      ≡ (true, ms)
unfolding read_messages
read_messages-bunch_bytes [] rest h = refl
read_messages-bunch_bytes (m ∷ ms) rest h =
    rw (append_assoc (message_bytes m) (bunch_bytes ms) rest) (
      read_messages-found (length ms) _ m (record { view = bunch_bytes ms ++ rest; error = false })
        ms (read_message-bytes m (bunch_bytes ms ++ rest) h.0 h.1)
        (read_messages-bunch_bytes ms rest h.2))
