-- ===== src/Sequence/Notify/Acks.antt =====
-- `ProcessReceivedAcks`: which packets the functor is told of, and with which status.
use mathlib.Core.Option
use rudp_network_engine.Prelude.{
  ℕ, zero, suc, ◌+◌, ◌-◌, ◌*◌, ◌/◌, ◌%◌, ◌^◌, ◌≤◌, ◌<◌, ◌≡◌, refl, Bool, true, false, Option, none,
  some, List, [], ◌∷◌, ◌++◌, arith, length, get_elem?, ap, ◌∙◌, ltb, if◌then◌else◌, ◌⊎◌, inl, inr,
  ◌↔◌, dec_lt, Bool-cases, ◌>>=◌,
}
use rudp_network_engine.Sequence.Number.{IsSeq, increment, seq_gt, distance}
use rudp_network_engine.Sequence.Number.Arithmetic.{
  increment-mod, distance_cases, diff-pos, seq_gt-distance,
}
use rudp_network_engine.Sequence.History.{History, IsHistory, is_delivered}
use rudp_network_engine.Sequence.Notify.{
  Notify, NotificationHeader, Notification, nack_beyond, notify_from_history, process_new_acks,
  process_received_acks, is_waiting_for_flush,
}
use rudp_network_engine.Sequence.Notify.Valid.{IsValid}
use rudp_network_engine.Sequence.Notify.Records.{Found, update_in_ack_seq_ack-Found}

-- Whether the history `h` says that the packet `k` places back was delivered.
abbrev pub status_at : History → ℕ → Bool
status_at h k = Option.get_or (is_delivered h k) false

get_elem?-in-range : (ws : List ℕ) (i : ℕ) → i < length ws → (w : ℕ) × (get_elem? ws i ≡ some w)
get_elem?-in-range [] i h = absurd (omega arith)
get_elem?-in-range (w ∷ ws) zero h = (w, refl)
get_elem?-in-range (w ∷ ws) (suc i) h = get_elem?-in-range ws i (omega arith)

get_elem?-past : (ws : List ℕ) (i : ℕ) → length ws ≤ i → get_elem? ws i ≡ none
get_elem?-past [] i h = refl
get_elem?-past (w ∷ ws) zero h = absurd (omega arith)
get_elem?-past (w ∷ ws) (suc i) h = get_elem?-past ws i (omega arith)

-- The storage answers at the indices below 256 and at no other.
pub is_delivered-in-range :
    (h : History) (k : ℕ) → IsHistory h → k < 256 → is_delivered h k ≡ some (status_at h k)
unfolding is_delivered
is_delivered-in-range h k v lt =
    let (w, e) = get_elem?-in-range h (k / 32) (omega (arith, v.0)) in rw e

pub is_delivered-past : (h : History) (k : ℕ) → IsHistory h → 256 ≤ k → is_delivered h k ≡ none
unfolding is_delivered
is_delivered-past h k v le = rw (get_elem?-past h (k / 32) (omega (arith, v.0)))

-- One call for each of the `n` packets from `current` on: delivered exactly if the history has a
-- bit for the packet and the bit is set.
abbrev pub expected : History → ℕ → ℕ → ℕ → List Notification
expected h bits zero current = []
expected h bits (suc n) current =
    (current, (if ltb n bits then status_at h n else false)) ∷ expected h bits n (increment current)

notify_from_history-expected :
    (h : History) (bits n current : ℕ)
    → IsHistory h
    → n ≤ bits
    → n ≤ 256
    → notify_from_history h n current ≡ some (expected h bits n current)
unfolding notify_from_history
notify_from_history-expected h bits zero current v p q = refl
notify_from_history-expected h bits (suc n) current v p q = ground (
  arith,
  is_delivered-in-range h n v,
  notify_from_history-expected h bits n (increment current) v,
)

-- Both loops of `ProcessReceivedAcks`, one after the other.
both_loops : History → ℕ → ℕ → ℕ → Option (List Notification)
both_loops h bits n current =
    let (lost, left, reached) = nack_beyond bits n current in
    Option.map (λ told. lost ++ told) (notify_from_history h left reached)

map-cons :
    (c : Notification) (l : List Notification) (o : Option (List Notification))
    → Option.map (λ told. (c ∷ l) ++ told) o
      ≡ Option.map (λ told. c ∷ told) (Option.map (λ told. l ++ told) o)
map-cons c l none = refl
map-cons c l (some a) = refl

both_loops-expected :
    (h : History) (bits n current : ℕ)
    → IsHistory h
    → (bits ≤ 256) ⊎ (n ≤ 256)
    → both_loops h bits n current ≡ some (expected h bits n current)
unfolding both_loops nack_beyond
both_loops-expected h bits zero current v p = unfold notify_from_history in refl
both_loops-expected h bits (suc n) current v p = elim (Bool-cases (ltb bits (suc n))) [
  | inl e ↦ rw e (
      map-cons (current, false) (nack_beyond bits n (increment current)).0 _
      ∙ rw (both_loops-expected h bits n (increment current) v (ground arith)) (ground arith))
  | inr e ↦
      rw (e, notify_from_history-expected h bits (suc n) current v (ground arith) (ground arith))
]

both_loops-fault :
    (h : History) (bits n current : ℕ)
    → IsHistory h
    → 256 < bits
    → 256 < n
    → both_loops h bits n current ≡ none
unfolding both_loops nack_beyond
both_loops-fault h bits zero current v p q = absurd (omega arith)
both_loops-fault h bits (suc n) current v p q = elim (Bool-cases (ltb bits (suc n))) [
  | inl e ↦ rw e (
      map-cons (current, false) (nack_beyond bits n (increment current)).0 _
      ∙ rw (both_loops-fault h bits n (increment current) v p (ground arith)))
  | inr e ↦ rw e (unfold notify_from_history in rw (is_delivered-past h n v (omega arith)))
]

bind_loops :
    (lost : List Notification) (o : Option (List Notification)) (t : Notify)
    → ◌>>=◌ {B = List Notification × Notify} o (λ told. some (lost ++ told, t))
      ≡ Option.map (λ notes. (notes, t)) (Option.map (λ told. lost ++ told) o)
bind_loops lost none t = refl
bind_loops lost (some told) t = refl

-- What a header must say for its acknowledgement to be new: a packet sent after the last one
-- acknowledged, and before the next one to send.
pub record AcksNew (s : Notify) (d : NotificationHeader) : Type 0 where
  pub acked_range : IsSeq d.acked_seq
  pub history_valid : IsHistory d.history
  pub newer : seq_gt d.acked_seq s.out_ack_seq ≡ true
  pub sent : seq_gt s.out_seq d.acked_seq ≡ true

-- The number of packets that the header acknowledges or gives up.
abbrev pub ack_count : Notify → NotificationHeader → ℕ
ack_count s d = distance d.acked_seq s.out_ack_seq

-- The state after `ProcessReceivedAcks`.
abbrev acked_state : Notify → NotificationHeader → ℕ → List (ℕ × ℕ) → Notify
acked_state s d in_ack rest = record s {
  ack_record = rest;
  in_ack_seq_ack = if seq_gt in_ack s.in_ack_seq_ack then in_ack else s.in_ack_seq_ack;
  out_ack_seq = d.acked_seq;
  waiting_for_flush_seq_ack =
      if seq_gt d.acked_seq s.waiting_for_flush_seq_ack
      then d.acked_seq
      else s.waiting_for_flush_seq_ack;
}

module _ (s : Notify) (d : NotificationHeader) (v : IsValid s) (new : AcksNew s d) where
  count_pos : (0 < ack_count s d) × (ack_count s d < 2 ^ 13)
  count_pos = seq_gt-distance d.acked_seq s.out_ack_seq new.newer new.acked_range v.out_ack_range

  found : Found s d.acked_seq
  found = update_in_ack_seq_ack-Found d.acked_seq v new.acked_range new.newer new.sent

  process_new_acks-expected :
      (d.history_word_count ≤ 8) ⊎ (ack_count s d ≤ 256)
      → process_received_acks s d
        ≡ some (
          expected d.history (d.history_word_count * 32) (ack_count s d) (increment s.out_ack_seq),
          acked_state s d found.in_ack found.rest,
        )
  unfolding process_received_acks process_new_acks both_loops
  process_new_acks-expected h =
      let e = diff-pos d.acked_seq s.out_ack_seq new.acked_range v.out_ack_range count_pos.1 in
      let l =
        both_loops-expected d.history (d.history_word_count * 32) (ack_count s d)
          (increment s.out_ack_seq) new.history_valid (ground arith) in
      rw new.newer (
        rw found.result (
          rw e (
            bind_loops _ _ _
            ∙ ap (Option.map (λ notes. (notes, acked_state s d found.in_ack found.rest))) l)))

  -- The only way to fault: more than 256 packets to settle, by a header that claims more history
  -- words than the eight that the storage has.
  process_new_acks-fault :
      8 < d.history_word_count → 256 < ack_count s d → process_received_acks s d ≡ none
  unfolding process_received_acks process_new_acks both_loops
  process_new_acks-fault p q =
      let e = diff-pos d.acked_seq s.out_ack_seq new.acked_range v.out_ack_range count_pos.1 in
      let l =
        both_loops-fault d.history (d.history_word_count * 32) (ack_count s d)
          (increment s.out_ack_seq) new.history_valid (omega arith) q in
      rw new.newer (
        rw found.result (
          rw e (
            bind_loops _ _ _
            ∙ ap (Option.map (λ notes. (notes, acked_state s d found.in_ack found.rest))) l)))

  acked_state-IsValid : IsValid (acked_state s d found.in_ack found.rest)
  acked_state-IsValid = record {
    in_seq_range = v.in_seq_range;
    in_ack_range = v.in_ack_range;
    in_ack_ack_range = ground (arith, found.in_ack_range, v.in_ack_ack_range);
    written_range = v.written_range;
    waiting_range = ground (arith, new.acked_range, v.waiting_range);
    out_ack_range = new.acked_range;
    history_valid = v.history_valid;
    words = v.words;
    outstanding = found.outstanding;
    room = omega (arith, found.fewer, v.room);
  }

  acked_state-flush :
      is_waiting_for_flush (acked_state s d found.in_ack found.rest)
      ≡ seq_gt s.waiting_for_flush_seq_ack d.acked_seq
  unfolding is_waiting_for_flush seq_gt
  acked_state-flush = ground (
    arith,
    distance_cases d.acked_seq s.waiting_for_flush_seq_ack new.acked_range v.waiting_range,
    distance_cases s.waiting_for_flush_seq_ack d.acked_seq v.waiting_range new.acked_range,
    distance_cases d.acked_seq d.acked_seq new.acked_range new.acked_range,
  )

expected-length : (h : History) (bits n current : ℕ) → length (expected h bits n current) ≡ n
expected-length h bits zero current = refl
expected-length h bits (suc n) current = ap suc (expected-length h bits n (increment current))

expected-elem :
    (h : History) (bits n current i : ℕ)
    → IsSeq current
    → i < n
    → get_elem? (expected h bits n current) i
      ≡ some (
        (current + i) % 2 ^ 14,
        (if ltb (n - 1 - i) bits then status_at h (n - 1 - i) else false),
      )
expected-elem h bits zero current i hc lt = absurd (omega arith)
expected-elem h bits (suc n) current zero hc lt =
    let e₁ : (current + 0) % 2 ^ 14 ≡ current = omega arith in
    let e₂ : suc n - 1 - 0 ≡ n = omega arith in rw (e₁, e₂)
expected-elem h bits (suc n) current (suc i) hc lt =
    let e₁ : (current + suc i) % 2 ^ 14 ≡ (increment current + i) % 2 ^ 14 =
      omega (arith, increment-mod current) in
    let e₂ : suc n - 1 - suc i ≡ n - 1 - i = omega arith in
    rw (e₁, e₂)
      (expected-elem h bits n (increment current) i (omega (arith, increment-mod current))
        (omega arith))

-- What `ProcessReceivedAcks` does with a header that acknowledges something new.
pub record Settled (s : Notify) (d : NotificationHeader) : Type 0 where
  pub notes : List Notification
  pub next : Notify
  pub result : process_received_acks s d ≡ some (notes, next)
  pub next_valid : IsValid next
  pub acked : next.out_ack_seq ≡ d.acked_seq
  pub fewer : length next.ack_record ≤ length s.ack_record
  pub left : length next.ack_record + length notes ≡ length s.ack_record
  pub same_in_seq : next.in_seq ≡ s.in_seq
  pub flush : is_waiting_for_flush next ≡ seq_gt s.waiting_for_flush_seq_ack d.acked_seq
  pub told_once : length notes ≡ ack_count s d
  pub told :
      (i : ℕ)
      → i < ack_count s d
      → get_elem? notes i
        ≡ some (
          (s.out_ack_seq + 1 + i) % 2 ^ 14,
          (if ltb (ack_count s d - 1 - i) (d.history_word_count * 32)
              then status_at d.history (ack_count s d - 1 - i)
              else false),
        )

-- In a valid state, a header that newly acknowledges a packet sent, with at most eight history
-- words or for at most 256 packets, settles each packet after the last acknowledged one up to and
-- including the acknowledged one: the functor is called for each exactly once, in the order of
-- sending, delivered exactly if the header's history has a bit for the packet and it is set. The
-- state stays valid, the acknowledged packet is the last acknowledged one, and a flush goes on
-- exactly if the number that it waits for is greater than the acknowledged one.
pub process_received_acks-Settled :
    {s : Notify} {d : NotificationHeader}
    → IsValid s
    → AcksNew s d
    → (d.history_word_count ≤ 8) ⊎ (ack_count s d ≤ 256)
    → Settled s d
process_received_acks-Settled {s} {d} v new h =
    let bits = d.history_word_count * 32 in
    let start = increment s.out_ack_seq in
    record {
      notes = expected d.history bits (ack_count s d) start;
      next = acked_state s d (found s d v new).in_ack (found s d v new).rest;
      result = process_new_acks-expected s d v new h;
      next_valid = acked_state-IsValid s d v new;
      acked = refl;
      fewer = omega (arith, (found s d v new).fewer);
      left =
          omega
            (arith, (found s d v new).fewer, expected-length d.history bits (ack_count s d) start);
      same_in_seq = refl;
      flush = acked_state-flush s d v new;
      told_once = expected-length d.history bits (ack_count s d) start;
      told = λ i lt.
          expected-elem d.history bits (ack_count s d) start i
            (omega (arith, increment-mod s.out_ack_seq)) lt
          ∙ ap
              (λ t. some (
                t,
                (if ltb (ack_count s d - 1 - i) bits
                    then status_at d.history (ack_count s d - 1 - i)
                    else false),
              ))
              (omega (arith, increment-mod s.out_ack_seq));
    }

-- In a valid state, `ProcessReceivedAcks` on a header that newly acknowledges a packet sent reads
-- past the history's storage exactly when the header claims more than eight history words and
-- acknowledges or gives up more than 256 packets.
pub process_received_acks-fault_iff :
    {s : Notify} {d : NotificationHeader}
    → IsValid s
    → AcksNew s d
    → (process_received_acks s d ≡ none) ↔ ((8 < d.history_word_count) × (256 < ack_count s d))
process_received_acks-fault_iff {s} {d} v new =
    (there, λ h. process_new_acks-fault s d v new h.0 h.1)
  where
    there : process_received_acks s d ≡ none → (8 < d.history_word_count) × (256 < ack_count s d)
    there e = elim (dec_lt 8 d.history_word_count) [
      | yes p ↦ elim (dec_lt 256 (ack_count s d)) [
        | yes q ↦ (p, q)
        | no q ↦ cc (e, process_new_acks-expected s d v new (inr (omega arith)))
      ]
      | no p ↦ cc (e, process_new_acks-expected s d v new (inl (omega arith)))
    ]
