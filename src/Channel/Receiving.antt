-- ===== src/Channel/Receiving.antt =====
-- Project/Network/src/channel/NetChannel.cpp, the receiving half, with the reader of
-- Project/Core/include/BufferReader.h and the last part of `NetConnection::DispatchPacket`. A byte is
-- a number; a message that reaches `ReceivedMessage` is an entry of the result, in order.
pub mod Reading
pub mod Ordered
pub mod Complete
pub mod Stuck
use rudp_network_engine.Prelude.{
  ℕ, zero, suc, ◌+◌, ◌-◌, ◌*◌, ◌%◌, ◌^◌, Bool, true, false, not, ◌&&◌, List, [], ◌∷◌, ◌++◌, Option,
  none, some, length, take, drop, get_or, ltb, leb, ◌==◌, if◌then◌else◌,
}

-- `BufferReader`: what is left of the view, and the error flag.
pub record BufferReader : Type 0 where
  pub view : List ℕ
  pub error : Bool

-- `CanRead`
unfoldable pub can_read : BufferReader → ℕ → Bool
can_read r size = not r.error && leb size (length r.view)

-- `ReadView`; `Read` of a value of `size` bytes is it, but for the bytes it leaves alone on an error.
unfoldable pub read_view : BufferReader → ℕ → List ℕ × BufferReader
read_view r size =
    if ltb (length r.view) size
    then ([], record r { error = true })
    else (take size r.view, record r { view = drop size r.view })

-- `sizeof(MessageHeader)`
abbrev pub message_header_size : ℕ
message_header_size = 4

-- What `RecvMessageReader` shows of a message.
pub record Message : Type 0 where
  pub message_id : ℕ
  pub payload : List ℕ

-- The two little-endian fields of `MessageHeader`.
unfoldable pub header_field : List ℕ → ℕ → ℕ
header_field bytes at = get_or bytes at 0 + 2 ^ 8 * get_or bytes (at + 1) 0

-- One round of the loop of `DispatchRawBunch_Interanl`.
unfoldable pub read_message : BufferReader → Option (Message × BufferReader)
read_message r =
    if can_read r message_header_size
    then (let (header, r₁) = read_view r message_header_size in
        let size = (header_field header 0 + 2 ^ 16 - message_header_size) % 2 ^ 16 in
        let (bytes, r₂) = read_view r₁ size in
        if can_read r₁ size
        then some (record { message_id = header_field header 2; payload = bytes }, r₂)
        else none)
    else none

-- `DispatchRawBunch_Interanl`: its result, and the messages that it passed on before it returned.
abbrev pub then_read :
    (BufferReader → Bool × List Message) → Option (Message × BufferReader) → Bool × List Message
then_read later none = (false, [])
then_read later (some found) = let rest = later found.1 in (rest.0, found.0 ∷ rest.1)

unfoldable pub read_messages : ℕ → BufferReader → Bool × List Message
read_messages zero r = (true, [])
read_messages (suc count) r = then_read (read_messages count) (read_message r)

-- `InBunchReader`, without the sequence number, which is its key in the map.
pub record InBunch : Type 0 where
  pub buffer : List ℕ
  pub message_count : ℕ

-- `DispatchRawBunch_Interanl` on a bunch.
abbrev pub dispatch : InBunch → Bool × List Message
dispatch b = read_messages b.message_count (record { view = b.buffer; error = false })

-- The members of `NetChannel` that receiving uses; the map is the list of its entries by key.
pub record RecvState : Type 0 where
  pub b_reliable : Bool
  pub in_reliable : ℕ
  pub in_unread_bunch_map : List (ℕ × InBunch)

-- `AddUnreadInCopyBunch`, on the map: a key that is there stays as it is.
unfoldable pub add_unread : ℕ → InBunch → List (ℕ × InBunch) → List (ℕ × InBunch)
add_unread key b [] = (key, b) ∷ []
add_unread key b (e ∷ rest) =
    let later = add_unread key b rest in
    if e.0 == key then e ∷ rest else (if ltb key e.0 then (key, b) ∷ e ∷ rest else e ∷ later)

-- `uint32_t` addition of one.
abbrev pub next : ℕ → ℕ
next in_reliable = (in_reliable + 1) % 2 ^ 32

-- The loop of `DispatchRawBunch`: the messages it passes on, `InReliable` and the map after it.
unfoldable pub drain : Bool → ℕ → List (ℕ × InBunch) → List Message × ℕ × List (ℕ × InBunch)
drain reliable in_reliable [] = ([], in_reliable, [])
drain reliable in_reliable (e ∷ rest) =
    let read = dispatch e.1 in
    let later = drain reliable (next in_reliable) rest in
    if reliable && e.0 == next in_reliable
    then (if read.0 then (read.1 ++ later.0, later.1, later.2) else (read.1, in_reliable, rest))
    else ([], in_reliable, e ∷ rest)

-- `DispatchRawBunch`
unfoldable pub dispatch_raw_bunch : RecvState → InBunch → List Message × RecvState
dispatch_raw_bunch s b =
    let read = dispatch b in
    let drained =
      drain s.b_reliable (if read.0 then next s.in_reliable else s.in_reliable)
        s.in_unread_bunch_map in
    (read.1 ++ drained.0, record s { in_reliable = drained.1; in_unread_bunch_map = drained.2 })

-- `DispatchPacket` from the test of the sequence number on, for the channels 0 and 1.
unfoldable pub receive_bunch : RecvState → Bool → ℕ → InBunch → List Message × RecvState
receive_bunch s reliable ch_sequence b =
    if reliable && not (ch_sequence == next s.in_reliable)
    then ([], record s { in_unread_bunch_map = add_unread ch_sequence b s.in_unread_bunch_map })
    else dispatch_raw_bunch s b
