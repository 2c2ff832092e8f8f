-- ===== src/Sequence/Notify/Exchange.antt =====
-- The two end points together: a header that one writes with `WriteHeader` and the other reads with
-- `ReadHeader` and settles with `ProcessReceivedAcks`.
use rudp_network_engine.Prelude.{
  ℕ, ◌+◌, ◌-◌, ◌*◌, ◌%◌, ◌^◌, ◌≤◌, ◌<◌, ◌≡◌, refl, ap, ◌∙◌, true, false, some, List, [], ◌∷◌, take,
  get_elem?, arith, length-take, ltb, if◌then◌else◌, inl, min, subst, sym, Bool,
}
use rudp_network_engine.Sequence.Number.{seq_gt, distance}
use rudp_network_engine.Sequence.Number.Arithmetic.{seq_ge_iff, diff-pos}
use rudp_network_engine.Sequence.Stream.{WordSource, Feeds, list_sink}
use rudp_network_engine.Sequence.History.{reset}
use rudp_network_engine.Sequence.History.Transfer.{
  write-take, read-Feeds, transferred, transferred-IsHistory, is_delivered-transferred,
}
use rudp_network_engine.Sequence.Header.{pack}
use rudp_network_engine.Sequence.Header.Packing.{pack_fields}
use rudp_network_engine.Sequence.Notify.{
  Notify, NotificationHeader, needed_word_count, current_sequence_history_length, write_with,
  write_header, read_header,
}
use rudp_network_engine.Sequence.Notify.Valid.{IsValid, out_seq-IsSeq, needed_word_count_bounds}
use rudp_network_engine.Sequence.Notify.Acks.{
  AcksNew, Settled, status_at, process_received_acks-Settled,
}

-- The words of a new header.
abbrev pub header_words : Notify → List ℕ
header_words s = (write_header list_sink s false []).2

-- The header that the peer gets.
abbrev pub header_of : Notify → NotificationHeader
header_of s = record {
  history = transferred (needed_word_count s) s.in_seq_history;
  history_word_count = needed_word_count s;
  seq = s.out_seq;
  acked_seq = s.in_ack_seq;
}

pub header_words-eq :
    (s : Notify)
    → header_words s
      ≡ pack s.out_seq s.in_ack_seq (needed_word_count s - 1)
        ∷ take (needed_word_count s) s.in_seq_history
unfolding write_header write_with
header_words-eq s =
    let b = needed_word_count_bounds s in
    let e : (needed_word_count s + 2 ^ 64 - 1) % 2 ^ 64 ≡ needed_word_count s - 1 =
      omega (arith, b) in
    write-take s.in_seq_history (needed_word_count s) _ b.1
    ∙ ap (λ t. pack s.out_seq s.in_ack_seq t ∷ take (needed_word_count s) s.in_seq_history) e

-- In a valid state `WriteHeader` needs at most eight history words, and they hold the current
-- history length as well as every status after the last one that the peer has confirmed, as far as
-- the 256 of the history go.
pub needed_word_count-covers :
    {s : Notify}
    → IsValid s
    → (current_sequence_history_length s ≤ needed_word_count s * 32)
      × (needed_word_count s ≤ 8)
      × (min (distance s.in_ack_seq s.in_ack_seq_ack) 256 ≤ needed_word_count s * 32)
unfolding needed_word_count current_sequence_history_length
needed_word_count-covers {s} v =
    let e = seq_ge_iff s.in_ack_seq s.in_ack_seq_ack in
    let d = diff-pos s.in_ack_seq s.in_ack_seq_ack v.in_ack_range v.in_ack_ack_range in
    ground (arith, e.0, e.1, d)

-- A header that a valid end point writes is read back whole: a reader that the words are fed to
-- without an error gets the sequence number, the acknowledged number and the word count, and a
-- history of those words.
pub read-write_header :
    {s : Notify} (source : WordSource) (r r' : source.Stream)
    → IsValid s
    → Feeds source r (header_words s) r'
    → source.is_error r' ≡ false
    → read_header source reset r ≡ (true, header_of s, r')
unfolding read_header reset
read-write_header {s} source r r' v f ok =
    let b = needed_word_count_bounds s in
    let n = needed_word_count s in
    let fields =
      pack_fields s.out_seq s.in_ack_seq (n - 1) (out_seq-IsSeq v) v.in_ack_range
        (omega (arith, b)) in
    let f' = subst (λ ws. Feeds source r ws r') (header_words-eq s) f in
    let count : n - 1 + 1 ≡ n = omega (arith, b) in
    let body =
      read-Feeds source n (take n s.in_seq_history) reset f'.0 r'
        (omega (arith, length-take {0} n s.in_seq_history, b, v.history_valid.0)) b.1 refl f'.2 in
    rw f'.1 (rw (fields.2, fields.1, fields.3, count) (rw body (rw ok)))

-- What the words of the valid peer `s` settle at the valid end point `t`, read as `d`.
abbrev pub ToldBy : Notify → Notify → NotificationHeader → Type 0
ToldBy s t d =
    (settled : Settled t d) × ((i : ℕ)
      → i < distance s.in_ack_seq t.out_ack_seq
      → get_elem? settled.notes i
        ≡ some (
          (t.out_ack_seq + 1 + i) % 2 ^ 14,
          (if ltb (distance s.in_ack_seq t.out_ack_seq - 1 - i) (needed_word_count s * 32)
              then status_at s.in_seq_history (distance s.in_ack_seq t.out_ack_seq - 1 - i)
              else false),
        ))

header_of-ToldBy :
    {s t : Notify}
    → IsValid s
    → IsValid t
    → seq_gt s.in_ack_seq t.out_ack_seq ≡ true
    → seq_gt t.out_seq s.in_ack_seq ≡ true
    → ToldBy s t (header_of s)
header_of-ToldBy {s} {t} vs vt newer sent =
    let b = needed_word_count_bounds s in
    let new : AcksNew t (header_of s) = record {
      acked_range = vs.in_ack_range;
      history_valid =
          transferred-IsHistory (needed_word_count s) s.in_seq_history b.1 vs.history_valid;
      newer = newer;
      sent = sent;
    } in
    let settled = process_received_acks-Settled vt new (inl b.1) in
    (
      settled,
      λ i lt.
          settled.told i lt
          ∙ ap (λ d. some ((t.out_ack_seq + 1 + i) % 2 ^ 14, d))
              (same (distance s.in_ack_seq t.out_ack_seq - 1 - i)),
    )
  where
    same :
        (k : ℕ)
        → (if ltb k (needed_word_count s * 32)
            then status_at (transferred (needed_word_count s) s.in_seq_history) k
            else false)
          ≡ (if ltb k (needed_word_count s * 32) then status_at s.in_seq_history k else false)
    same k = ground (
      arith,
      is_delivered-transferred (needed_word_count s) k s.in_seq_history
          (needed_word_count_bounds s).1 vs.history_valid,
    )

-- What one end point is told of its packets is what the other recorded. Where a valid peer `s`
-- acknowledges a packet that is new to the valid end point `t`, and the words that it writes with
-- `WriteHeader` as a new header reach the reader of `t` without an error, `ReadHeader` succeeds, and
-- `ProcessReceivedAcks` on what it read settles each packet of `t` up to that one once, and says
-- "delivered" exactly if the peer's own history says so and the status is among the words that the
-- peer sent.
pub told-by_peer :
    {s t : Notify} (source : WordSource) (r r' : source.Stream)
    → IsValid s
    → IsValid t
    → Feeds source r (write_header list_sink s false []).2 r'
    → source.is_error r' ≡ false
    → seq_gt s.in_ack_seq t.out_ack_seq ≡ true
    → seq_gt t.out_seq s.in_ack_seq ≡ true
    → ((read_header source reset r).0 ≡ true) × ToldBy s t (read_header source reset r).1
told-by_peer {s} {t} source r r' vs vt fed ok newer sent =
    subst (λ (got : Bool × NotificationHeader × source.Stream). (got.0 ≡ true) × ToldBy s t got.1)
      (sym (read-write_header source r r' vs fed ok)) (refl, header_of-ToldBy vs vt newer sent)
