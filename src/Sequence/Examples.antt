-- ===== src/Sequence/Examples.antt =====
-- Runs of the sequence code on small inputs, and its theorems at those inputs.
use rudp_network_engine.Prelude.{
  ℕ, ◌+◌, ◌*◌, ◌^◌, ◌≤◌, ◌<◌, ◌≡◌, refl, true, false, some, none, [], ◌∷◌, get_or, arith, inl, min,
  ◌↔◌, replicate,
}
use rudp_network_engine.Prelude.Int.{ℤ, pos, negsuc, ◌≤ℤ◌, ltb_ℤ}
use rudp_network_engine.Sequence.Number.{
  distance, diff, seq_gt, seq_ge, seq_lt, seq_le, make_seq, increment,
}
use rudp_network_engine.Sequence.Number.Order.{seq_order-diff}
use rudp_network_engine.Sequence.Stream.{list_sink, list_source}
use rudp_network_engine.Sequence.History
use rudp_network_engine.Sequence.History.{is_delivered, IsHistory}
use rudp_network_engine.Sequence.History.Window.{recorded, is_delivered-recorded}
use rudp_network_engine.Sequence.Header.{pack}
use rudp_network_engine.Sequence.Notify.{
  Notify, NotificationHeader, init, write_header, write_with, needed_word_count,
  current_sequence_history_length, ack_seq, update_accepted, process_new_acks,
  update_in_ack_seq_ack, take_record, nack_beyond, notify_from_history, enter_flush,
  will_sequence_fit, update, process_received_acks, internal_update, is_waiting_for_flush,
  get_sequence_delta, read_header,
}
use rudp_network_engine.Sequence.Notify.Valid.{IsValid, init-IsValid, write_header-IsValid}
use rudp_network_engine.Sequence.Notify.Acks.{
  AcksNew, Settled, ack_count, process_received_acks-Settled, process_received_acks-fault_iff,
}
use rudp_network_engine.Sequence.Notify.Receive.{AckedUpTo, ack_seq-AckedUpTo, ack_seq-IsValid}
use rudp_network_engine.Sequence.Notify.Window.{
  Outcome, internal_update-Outcome, accepted-in-window, Outcome-IsValid,
}
use rudp_network_engine.Sequence.Notify.Exchange.{
  header_words, needed_word_count-covers, told-by_peer, ToldBy,
}
use rudp_network_engine.Sequence.Notify.Updating.{
  IsHeader, Passes, Accepted, update-Accepted, update-rejected, update-replayed,
}

-- Two packets are outstanding, 0 and 1, and the last packet received is 99.
abbrev sender : Notify
sender = record {
  ack_record = (0, 99) ∷ (1, 99) ∷ [];
  written_history_word_count = 0;
  written_in_ack_seq = 99;
  in_seq_history = replicate 8 0;
  in_seq = 99;
  in_ack_seq = 99;
  in_ack_seq_ack = 99;
  waiting_for_flush_seq_ack = 16383;
  out_seq = 2;
  out_ack_seq = 16383;
}

-- Its peer, which got packet 1 and lost packet 0.
abbrev peer : Notify
peer = record {
  ack_record = [];
  written_history_word_count = 0;
  written_in_ack_seq = 16383;
  in_seq_history = 1 ∷ replicate 7 0;
  in_seq = 1;
  in_ack_seq = 1;
  in_ack_seq_ack = 16383;
  waiting_for_flush_seq_ack = 99;
  out_seq = 100;
  out_ack_seq = 99;
}

abbrev reply : NotificationHeader
reply = record { history = 1 ∷ replicate 7 0; history_word_count = 1; seq = 100; acked_seq = 0 }

sender-IsValid : IsValid sender
unfolding increment make_seq
sender-IsValid = omega arith

peer-IsValid : IsValid peer
unfolding increment make_seq
peer-IsValid = omega arith

reply-IsHeader : IsHeader reply
reply-IsHeader = omega arith

reply-AcksNew : AcksNew sender reply
unfolding seq_gt distance
reply-AcksNew = record {
  acked_range = omega arith;
  history_valid = omega arith;
  newer = refl;
  sent = refl;
}

reply-Passes : Passes sender reply
unfolding seq_gt seq_ge distance
reply-Passes = (refl, refl, refl)

-- Across the wrap: 2 is three after 16383.
diff_runs : (diff 2 16383 ≡ pos 3) × (diff 16383 2 ≡ negsuc 2) × (diff 8192 0 ≡ negsuc 8191)
unfolding diff
diff_runs = (refl, refl, refl)

seq_order-diff_example :
    (seq_gt 2 16383 ≡ ltb_ℤ (pos 0) (diff 2 16383))
    × (seq_lt 2 16383 ≡ ltb_ℤ (diff 2 16383) (pos 0))
    × ((seq_ge 2 16383 ≡ true) ↔ (pos 0 ≤ℤ diff 2 16383))
    × ((seq_le 2 16383 ≡ true) ↔ (diff 2 16383 ≤ℤ pos 0))
seq_order-diff_example = seq_order-diff 2 16383 (omega arith) (omega arith)

is_delivered-recorded_example :
    is_delivered (recorded (true ∷ false ∷ true ∷ [])) 2
    ≡ some (get_or (true ∷ false ∷ true ∷ []) 2 false)
is_delivered-recorded_example = is_delivered-recorded (true ∷ false ∷ true ∷ []) 2 (omega arith)

init-IsValid_example : IsValid (init sender 16383 0)
init-IsValid_example =
    init-IsValid sender 16383 0 (omega arith) (omega arith) (omega arith) (omega arith)

write_header-IsValid_example : IsValid (write_header list_sink peer false []).1
write_header-IsValid_example = write_header-IsValid list_sink false [] peer-IsValid

ack_seq-IsValid_example : IsValid (ack_seq peer 4 true)
ack_seq-IsValid_example = ack_seq-IsValid 4 true peer-IsValid (omega arith)

process_received_acks-Settled_example : Settled sender reply
process_received_acks-Settled_example =
    process_received_acks-Settled sender-IsValid reply-AcksNew (inl (omega arith))

process_received_acks-fault_iff_example :
    (process_received_acks sender reply ≡ none)
    ↔ ((8 < reply.history_word_count) × (256 < ack_count sender reply))
process_received_acks-fault_iff_example =
    process_received_acks-fault_iff sender-IsValid reply-AcksNew

ack_seq-AckedUpTo_example : AckedUpTo peer 4 true (distance 4 1) (ack_seq peer 4 true)
unfolding distance
ack_seq-AckedUpTo_example = ack_seq-AckedUpTo 4 true peer-IsValid (omega arith) (omega arith)

internal_update-Outcome_example :
    (answer : ℤ × Notify) × (internal_update sender reply (pos 1) ≡ some answer)
    × Outcome sender 100 (pos 1) answer
internal_update-Outcome_example =
    internal_update-Outcome reply (pos 1) sender-IsValid (omega arith) (omega arith)

abbrev received : ℤ × Notify
received = (pos 1, record sender { in_seq = 100 })

received-Outcome : Outcome sender 100 (pos 1) received
unfolding is_waiting_for_flush seq_gt distance
received-Outcome = Outcome.fits refl (omega arith)

accepted-in-window_example : (pos 1 ≡ pos 1) × (◌≡◌ {A = ℕ} 100 100) × (distance 100 99 ≤ 256)
unfolding internal_update enter_flush is_waiting_for_flush seq_gt distance will_sequence_fit seq_ge
    diff
accepted-in-window_example =
    accepted-in-window reply (pos 1) (pos 1) sender-IsValid (omega arith) (omega arith) refl refl

Outcome-IsValid_example : IsValid (record sender { in_seq = 100 })
Outcome-IsValid_example = Outcome-IsValid sender-IsValid (omega arith) received-Outcome

needed_word_count-covers_example :
    (current_sequence_history_length peer ≤ needed_word_count peer * 32)
    × (needed_word_count peer ≤ 8)
    × (min (distance 1 16383) 256 ≤ needed_word_count peer * 32)
needed_word_count-covers_example = needed_word_count-covers peer-IsValid

peer_header_runs : header_words peer ≡ (100 * 2 ^ 18 + 1 * 2 ^ 4 + 0) ∷ 1 ∷ []
unfolding write_header write_with History.write_words needed_word_count
    current_sequence_history_length History.write pack diff seq_ge distance
peer_header_runs = refl

-- The stream of the two words of `peer`, for `sender` to read.
told-by_peer_example :
    let got =
      read_header list_source History.reset (false, (100 * 2 ^ 18 + 1 * 2 ^ 4 + 0) ∷ 1 ∷ []) in
    (got.0 ≡ true) × ToldBy peer sender got.1
unfolding seq_gt distance write_header write_with History.write_words needed_word_count
    current_sequence_history_length History.write pack diff seq_ge
told-by_peer_example =
    told-by_peer list_source (false, (100 * 2 ^ 18 + 1 * 2 ^ 4 + 0) ∷ 1 ∷ []) (false, [])
      peer-IsValid sender-IsValid ((false, 1 ∷ []), refl, ((false, []), refl, refl)) refl refl refl

update-Accepted_example : Accepted sender reply
update-Accepted_example =
    update-Accepted sender-IsValid reply-IsHeader (omega arith) (inl (omega arith)) reply-Passes

abbrev stale : NotificationHeader
stale = record reply { seq = 99 }

stale_fails : ¬ Passes sender stale
unfolding seq_gt distance
stale_fails p = cc (p.0)

stale-IsHeader : IsHeader stale
stale-IsHeader = omega arith

update-rejected_example : update sender stale ≡ some ([], pos 0, sender)
update-rejected_example = update-rejected sender-IsValid stale-IsHeader stale_fails

abbrev after_reply : Notify
after_reply = record sender {
  ack_record = (1, 99) ∷ [];
  waiting_for_flush_seq_ack = 0;
  out_ack_seq = 0;
  in_seq = 100;
}

after_reply-IsValid : IsValid after_reply
unfolding increment make_seq
after_reply-IsValid = omega arith

after_acks-IsValid : IsValid (record after_reply { in_seq = 99 })
unfolding increment make_seq
after_acks-IsValid = omega arith

after_reply-calm : is_waiting_for_flush after_reply ≡ false
unfolding is_waiting_for_flush seq_gt distance
after_reply-calm = refl

abbrev accepted_reply : Accepted sender reply
unfolding update update_accepted get_sequence_delta process_received_acks process_new_acks
    update_in_ack_seq_ack take_record nack_beyond notify_from_history internal_update enter_flush
    is_waiting_for_flush will_sequence_fit diff seq_gt seq_ge distance increment make_seq
    is_delivered History.word_bit
accepted_reply = record {
  notes = (0, true) ∷ [];
  settled = record after_reply { in_seq = 99 };
  delta = pos 1;
  next = after_reply;
  acks = refl;
  told_once = refl;
  sent = record { left = refl; acked = refl; each = (refl, tt) };
  window = Outcome.fits refl (omega arith);
  result = refl;
  settled_valid = after_acks-IsValid;
  next_valid = after_reply-IsValid;
}

update-replayed_example : update after_reply reply ≡ some ([], pos 0, after_reply)
unfolding accepted_reply
update-replayed_example = update-replayed reply-IsHeader accepted_reply after_reply-calm
