-- ===== src/Sequence/Notify.antt =====
-- Project/Network/src/sequence/NetPacketNotify.h and NetPacketNotify.cpp: what an end point knows
-- of the packets that it sent and received. A method returns the new state beside its result.
-- `none` stands for an access that C++ leaves undefined: a read past the history's storage, or
-- `front()` of an empty `AckRecord`. The functor of `Update` is the list of its calls, in order; the
-- one that `NetConnection` passes does not touch this object.
pub mod Valid
pub mod Records
pub mod Acks
pub mod Receive
pub mod Told
pub mod Flush
pub mod Window
pub mod Exchange
pub mod Updating
use mathlib.Core.Option
use rudp_network_engine.Prelude.{
  ℕ, zero, suc, ◌+◌, ◌-◌, ◌*◌, ◌/◌, ◌%◌, ◌^◌, ◌≤◌, ◌<◌, ◌≡◌, min, max, Bool, true, false, not, ◌&&◌,
  Option, none, some, List, [], ◌∷◌, ◌++◌, length, drop, ltb, leb, ◌==◌, if◌then◌else◌, ◌>>=◌,
}
use rudp_network_engine.Prelude.Int.{ℤ, pos, negsuc, pos_part, ltb_ℤ}
use rudp_network_engine.Sequence.Number.{
  make_seq, seq_gt, seq_ge, seq_add, seq_sub, increment, diff, seq_number_half,
}
use rudp_network_engine.Sequence.Stream.{WordSink, WordSource}
use rudp_network_engine.Sequence.History
use rudp_network_engine.Sequence.History.{
  History, bits_per_word, word_count, history_size, add_delivery_status, is_delivered,
}
use rudp_network_engine.Sequence.Header.{pack, get_seq, get_acked_seq, get_history_word_count}

-- `NetPacketNotify::NotificationHeader`
pub record NotificationHeader : Type 0 where
  pub history : History
  pub history_word_count : ℕ
  pub seq : ℕ
  pub acked_seq : ℕ

-- The members of `NetPacketNotify`; an entry of `ack_record` is {OutSeq, InAckSeq}.
pub record Notify : Type 0 where
  pub ack_record : List (ℕ × ℕ)
  pub written_history_word_count : ℕ
  pub written_in_ack_seq : ℕ
  pub in_seq_history : History
  pub in_seq : ℕ
  pub in_ack_seq : ℕ
  pub in_ack_seq_ack : ℕ
  pub waiting_for_flush_seq_ack : ℕ
  pub out_seq : ℕ
  pub out_ack_seq : ℕ

-- One call of the functor: the sequence number of a packet sent, and whether it was delivered.
abbrev pub Notification : Type 0
Notification = ℕ × Bool

-- A fresh object, before `Init`.
unfoldable pub create : Notify
create = record {
  ack_record = [];
  written_history_word_count = 0;
  written_in_ack_seq = 0;
  in_seq_history = History.reset;
  in_seq = 0;
  in_ack_seq = 0;
  in_ack_seq_ack = 0;
  waiting_for_flush_seq_ack = 0;
  out_seq = 0;
  out_ack_seq = 0;
}

-- `Init`
unfoldable pub init : Notify → ℕ → ℕ → Notify
init s initial_in_seq initial_out_seq = record s {
  in_seq_history = History.reset;
  in_seq = initial_in_seq;
  in_ack_seq = initial_in_seq;
  in_ack_seq_ack = initial_in_seq;
  out_seq = initial_out_seq;
  out_ack_seq = seq_sub initial_out_seq 1;
  waiting_for_flush_seq_ack = seq_sub initial_out_seq 1;
  ack_record = [];
}

-- `CommitAndIncrementOutSeq`
unfoldable pub commit_and_increment_out_seq : Notify → ℕ × Notify
commit_and_increment_out_seq s = if s.written_history_word_count == 0 then (s.out_seq, s) else (
  increment s.out_seq,
  record s {
    ack_record = s.ack_record ++ ((s.out_seq, s.written_in_ack_seq) ∷ []);
    written_history_word_count = 0;
    out_seq = increment s.out_seq;
  },
)

-- An int32_t converted to size_t.
abbrev pub to_size : ℤ → ℕ
to_size (pos n) = n
to_size (negsuc n) = 2 ^ 64 - 1 - n

-- `GetCurrentSequenceHistoryLength`
unfoldable pub current_sequence_history_length : Notify → ℕ
current_sequence_history_length s =
    if seq_ge s.in_ack_seq s.in_ack_seq_ack
    then min (to_size (diff s.in_ack_seq s.in_ack_seq_ack)) history_size
    else history_size

-- The number of words that `WriteHeader` needs for the history: rounded up, clamped to 1 and 8.
unfoldable pub needed_word_count : Notify → ℕ
needed_word_count s =
    max 1 (min ((current_sequence_history_length s + bits_per_word - 1) / bits_per_word) word_count)

module _ (sink : WordSink) where
  -- The part of `WriteHeader` that writes, with `count` history words.
  unfoldable pub write_with : Notify → ℕ → sink.Stream → Notify × sink.Stream
  write_with s count out = (
    record s { written_history_word_count = count; written_in_ack_seq = s.in_ack_seq },
    History.write sink s.in_seq_history count
        (sink.put out (pack s.out_seq s.in_ack_seq ((count + 2 ^ 64 - 1) % 2 ^ 64))),
  )

  -- `WriteHeader`
  unfoldable pub write_header : Notify → Bool → sink.Stream → Bool × Notify × sink.Stream
  write_header s refresh out =
      if refresh && ltb s.written_history_word_count (needed_word_count s)
      then (false, s, out)
      else (let (s', out') =
            write_with s (if refresh then s.written_history_word_count else needed_word_count s)
              out in
          (true, s', out'))

module _ (source : WordSource) where
  -- `ReadHeader`, into the header `data` that the caller made.
  unfoldable pub read_header : History → source.Stream → Bool × NotificationHeader × source.Stream
  read_header history r =
      let (packed, r') = source.get r in
      let count = get_history_word_count packed + 1 in
      let (h, r'') = History.read source history count r' in
      (
        not (source.is_error r''),
        record {
          history = h;
          history_word_count = count;
          seq = get_seq packed;
          acked_seq = get_acked_seq packed;
        },
        r'',
      )

-- `GetSequenceDelta`, whose other branch only logs.
unfoldable pub get_sequence_delta : Notify → NotificationHeader → ℤ
get_sequence_delta s d =
    if seq_gt d.seq s.in_seq && (seq_ge d.acked_seq s.out_ack_seq && seq_gt s.out_seq d.acked_seq)
    then diff d.seq s.in_seq
    else pos 0

-- `IsWaitingForSequenceHistoryFlush`
unfoldable pub is_waiting_for_flush : Notify → Bool
is_waiting_for_flush s = seq_gt s.waiting_for_flush_seq_ack s.out_ack_seq

-- The entry at the front of what is left of `AckRecord`, once `AckCount - 1` entries are gone.
unfoldable pub take_record : Notify → ℕ → List (ℕ × ℕ) → Option (ℕ × Notify)
take_record s acked_seq [] = none
take_record s acked_seq ((sent, in_ack) ∷ rest) = some (
  (if sent == acked_seq then in_ack else seq_sub acked_seq history_size),
  record s { ack_record = rest },
)

-- `UpdateInAckSeqAck`
unfoldable pub update_in_ack_seq_ack : Notify → ℤ → ℕ → Option (ℕ × Notify)
update_in_ack_seq_ack s ack_count acked_seq =
    if leb (to_size ack_count) (length s.ack_record)
    then take_record s acked_seq (drop (pos_part ack_count - 1) s.ack_record)
    else some (seq_sub acked_seq history_size, s)

-- The first loop of `ProcessReceivedAcks`: what lies beyond the history counts as lost.
-- It returns its calls, the `AckCount` that is left and the `CurrentAck` it reached.
unfoldable pub nack_beyond : ℕ → ℕ → ℕ → List Notification × ℕ × ℕ
nack_beyond history_bits zero current = ([], 0, current)
nack_beyond history_bits (suc n) current =
    let rest = nack_beyond history_bits n (increment current) in
    if ltb history_bits (suc n)
    then ((current, false) ∷ rest.0, rest.1, rest.2)
    else ([], suc n, current)

-- The second loop: the history answers, oldest first.
unfoldable pub notify_from_history : History → ℕ → ℕ → Option (List Notification)
notify_from_history h zero current = some []
notify_from_history h (suc n) current = do
  delivered ← is_delivered h n
  rest ← notify_from_history h n (increment current)
  some ((current, delivered) ∷ rest)

-- `ProcessReceivedAcks` where the header acknowledges something new.
unfoldable pub process_new_acks : Notify → NotificationHeader → Option (List Notification × Notify)
process_new_acks s d = do
  let ack_count = diff d.acked_seq s.out_ack_seq
  (new_in_ack_seq_ack, s₁) ← update_in_ack_seq_ack s ack_count d.acked_seq
  let (lost, left, current) =
      nack_beyond (d.history_word_count * bits_per_word) (pos_part ack_count)
        (increment s.out_ack_seq)
  told ← notify_from_history d.history left current
  some (
    lost ++ told,
    record s₁ {
      in_ack_seq_ack =
          if seq_gt new_in_ack_seq_ack s₁.in_ack_seq_ack
          then new_in_ack_seq_ack
          else s₁.in_ack_seq_ack;
      out_ack_seq = d.acked_seq;
      waiting_for_flush_seq_ack =
          if seq_gt d.acked_seq s₁.waiting_for_flush_seq_ack
          then d.acked_seq
          else s₁.waiting_for_flush_seq_ack;
    },
  )

-- `ProcessReceivedAcks`
unfoldable pub process_received_acks :
    Notify → NotificationHeader → Option (List Notification × Notify)
process_received_acks s d =
    if seq_gt d.acked_seq s.out_ack_seq then process_new_acks s d else some ([], s)

-- The loop of `GetHasUnacknowledgedAcks`, from index `i` with `n` rounds left.
unfoldable pub any_delivered : History → ℕ → ℕ → Option Bool
any_delivered h i zero = some false
any_delivered h i (suc n) = do
  delivered ← is_delivered h i
  later ← any_delivered h (i + 1) n
  some (if delivered then true else later)

-- `GetHasUnacknowledgedAcks`
unfoldable pub has_unacknowledged_acks : Notify → Option Bool
has_unacknowledged_acks s = any_delivered s.in_seq_history 0 (current_sequence_history_length s)

-- `WillSequenceFitInSequenceHistory`
unfoldable pub will_sequence_fit : Notify → ℕ → Bool
will_sequence_fit s seq =
    if seq_ge seq s.in_ack_seq_ack
    then leb (to_size (diff seq s.in_ack_seq_ack)) history_size
    else false

-- One round of the loop of `AckSeq`.
unfoldable pub ack_step : Notify → ℕ → Bool → Notify
ack_step s acked_seq is_ack = record s {
  in_ack_seq = increment s.in_ack_seq;
  in_seq_history =
      add_delivery_status (if increment s.in_ack_seq == acked_seq then is_ack else false)
        s.in_seq_history;
}

-- The loop of `AckSeq`, on fuel. `seq_number_half` rounds are enough: the test holds for fewer.
unfoldable pub ack_loop : ℕ → Notify → ℕ → Bool → Notify
ack_loop zero s acked_seq is_ack = s
ack_loop (suc fuel) s acked_seq is_ack = elim (seq_gt acked_seq s.in_ack_seq) [
  | true ↦ ack_loop fuel (ack_step s acked_seq is_ack) acked_seq is_ack
  | false ↦ s
]

-- `AckSeq(Seq, IsAck)`; `AckSeq(Seq)` is it at `true` and `NakSeq(Seq)` at `false`.
unfoldable pub ack_seq : Notify → ℕ → Bool → Notify
ack_seq s acked_seq is_ack = ack_loop seq_number_half s acked_seq is_ack

-- The first statement of `InternalUpdate`: a sequence number that does not fit in the history
-- starts a flush if acks are outstanding, and moves the window otherwise.
unfoldable pub enter_flush : Notify → ℕ → Option Notify
enter_flush s seq =
    if not (is_waiting_for_flush s) && not (will_sequence_fit s seq)
    then Option.map
        (λ has.
          if has
          then record s { waiting_for_flush_seq_ack = s.out_seq }
          else record s { in_ack_seq_ack = seq_sub seq 1 })
        (has_unacknowledged_acks s)
    else some s

-- The sequence number up to which a packet that arrives during a flush is given up.
unfoldable pub new_in_seq_to_ack : Notify → ℕ → Option ℕ
new_in_seq_to_ack s seq =
    if will_sequence_fit s seq
    then some seq
    else Option.map
        (λ has.
          if has
          then seq_add s.in_ack_seq_ack (history_size - current_sequence_history_length s)
          else seq)
        (has_unacknowledged_acks s)

-- The last branch of `InternalUpdate`: the packet counts as lost.
unfoldable pub give_up : Notify → ℕ → ℤ × Notify
give_up s new_seq =
    if seq_ge new_seq s.in_seq
    then (diff new_seq s.in_seq, ack_seq (record s { in_seq = new_seq }) new_seq false)
    else (pos 0, s)

-- `InternalUpdate`
unfoldable pub internal_update : Notify → NotificationHeader → ℤ → Option (ℤ × Notify)
internal_update s d in_seq_delta = do
  s₁ ← enter_flush s d.seq
  if is_waiting_for_flush s₁
      then Option.map (give_up s₁) (new_in_seq_to_ack s₁ d.seq)
      else some (in_seq_delta, record s₁ { in_seq = d.seq })

-- The body of `Update` where the delta is positive.
unfoldable pub update_accepted :
    Notify → NotificationHeader → ℤ → Option (List Notification × ℤ × Notify)
update_accepted s d in_seq_delta = do
  (notes, s₁) ← process_received_acks s d
  (delta, s₂) ← internal_update s₁ d in_seq_delta
  some (notes, delta, s₂)

-- `Update`: the calls of the functor, the result and the new state.
unfoldable pub update : Notify → NotificationHeader → Option (List Notification × ℤ × Notify)
update s d =
    let delta = get_sequence_delta s d in
    if ltb_ℤ (pos 0) delta then update_accepted s d delta else some ([], pos 0, s)
