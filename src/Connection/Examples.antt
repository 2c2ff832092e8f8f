-- ===== src/Connection/Examples.antt =====
-- Runs of the connection's code on small inputs, and its theorems at those inputs.
use rudp_network_engine.Prelude.{
  ℕ, ◌≤◌, ◌<◌, ◌≡◌, refl, true, false, List, [], ◌∷◌, none, some, replicate, arith, inl,
}
use rudp_network_engine.Prelude.Int.{pos, negsuc, ◌+ℤ◌}
use rudp_network_engine.Sequence.Number.{distance, increment, make_seq, seq_gt, seq_ge, diff}
use rudp_network_engine.Sequence.History
use rudp_network_engine.Sequence.History.{is_delivered}
use rudp_network_engine.Sequence.Notify.{
  Notify, NotificationHeader, update, update_accepted, process_received_acks, process_new_acks,
  nack_beyond, notify_from_history, internal_update, enter_flush, get_sequence_delta,
  update_in_ack_seq_ack, take_record, is_waiting_for_flush, will_sequence_fit,
  has_unacknowledged_acks,
}
use rudp_network_engine.Sequence.Notify.Valid.{IsValid}
use rudp_network_engine.Sequence.Notify.Updating.{IsHeader}
use rudp_network_engine.Channel.Record.Groups.{entries}
use rudp_network_engine.Channel.Building.{OutReadyBunch}
use rudp_network_engine.Channel.Receiving.{BufferReader}
use rudp_network_engine.Connection.{Connection, NetChannel, seq_of}
use rudp_network_engine.Rtt.{consume_acked, drop_older, consume_front_sample}
use rudp_network_engine.Channel.Record.{
  consume_channel_records_for_packet, consume_front, take_channels,
}
use rudp_network_engine.Channel.Sending.{acked, erase}
use rudp_network_engine.Connection.Notified.{
  settle_at, settle_channels, settle_packet, received_ack, received_nack,
  handle_packet_notification, handle_all, push_reader, received_newer, received_header,
}
use rudp_network_engine.Connection.Notified.Replayed.{received_header-replayed}
use rudp_network_engine.Connection.Notified.Received.{
  IsSynced, HasReceived, received_header-HasReceived,
}
use rudp_network_engine.Connection.Dispatching.{Dispatched, dispatch_loop, dispatch_pending_packet}
use rudp_network_engine.Connection.Dispatching.Fuel.{dispatch_loop-fuel}
use rudp_network_engine.Connection.Dispatching.Pending.{pending_newest_alone}
use rudp_network_engine.Connection.Packets.{packet_sealed, build_start, views_size}
use rudp_network_engine.Connection.Packets.Views.{append_all, packet_sealed-views}

-- A message is its size. A bunch with one message of 600 bytes.
abbrev bunch : ℕ → OutReadyBunch ℕ
bunch n = record {
  ch_sequence = n;
  message_count = 1;
  payload_size = 600;
  header_size = 10;
  messages = 600 ∷ [];
  payload_bytes = 600;
  total_size = 610;
}

-- Packets 0 and 1 are outstanding, and the last packet received is 99.
abbrev notify : Notify
notify = record {
  ack_record = (0, 99) ∷ (1, 99) ∷ [];
  written_history_word_count = 0;
  written_in_ack_seq = 99;
  in_seq_history = replicate 8 0;
  in_seq = 99;
  in_ack_seq = 99;
  in_ack_seq_ack = 99;
  waiting_for_flush_seq_ack = 16383;
  out_seq = 2;
  out_ack_seq = 16383;
}

abbrev channel : List (OutReadyBunch ℕ) → NetChannel (OutReadyBunch ℕ)
channel queue = record {
  b_open = true;
  out_reliable = 4;
  sending = record {
    out_bunch_queue = queue;
    out_un_acked_bunches = (0, bunch 1 ∷ []) ∷ (1, bunch 2 ∷ []) ∷ [];
    queued_out_bunch = [];
  };
  receiving = record { in_reliable = 0; in_unread_bunch_map = []; b_reliable = false };
}

-- A connection that sent packets 0 and 1, each with a bunch of channel 0.
abbrev connection : Connection (OutReadyBunch ℕ) (List ℕ)
connection = record {
  is_closed = false;
  packet_notify = notify;
  channel_record = record {
    entry_record = entries ((0, 0 ∷ []) ∷ (1, 0 ∷ []) ∷ []);
    last_packet_id = pos 1;
  };
  rtt_tracker = record {
    pending = [];
    samples_us = [];
    sample_times_us = [];
    write_index = 0;
    sample_count = 0;
  };
  channels = some (channel (bunch 3 ∷ bunch 4 ∷ [])) ∷ none ∷ [];
  in_packet_id = pos 102;
  out_packet_id = pos 2;
  out_ack_packet_id = negsuc 0;
  last_notified_send_packet_id = negsuc 0;
  init_in_reliable = 0;
  init_out_reliable = 0;
  pending_readers = [] ∷ [] ∷ [] ∷ [];
  has_dirty_acks = 0;
}

abbrev reply : NotificationHeader
reply = record { history = 1 ∷ replicate 7 0; history_word_count = 1; seq = 100; acked_seq = 0 }

notify-IsValid : IsValid notify
unfolding increment make_seq
notify-IsValid = omega arith

reply-IsHeader : IsHeader reply
reply-IsHeader = omega arith

connection-IsSynced : IsSynced connection 0 ((0, 0 ∷ []) ∷ (1, 0 ∷ []) ∷ [])
unfolding ◌+ℤ◌
connection-IsSynced = record {
  in_step = record {
    next = refl;
    recorded = refl;
    numbered = (refl, omega arith, (refl, omega arith, tt));
    there = (
      ((channel (bunch 3 ∷ bunch 4 ∷ []), refl), tt),
      (((channel (bunch 3 ∷ bunch 4 ∷ []), refl), tt), tt),
    );
  };
  valid = notify-IsValid;
  room = omega arith;
  agrees = refl;
  sent = omega arith;
}

received_header-HasReceived_example :
    HasReceived 7 connection 0 ((0, 0 ∷ []) ∷ (1, 0 ∷ []) ∷ []) reply []
received_header-HasReceived_example =
    received_header-HasReceived 7 connection 0 ((0, 0 ∷ []) ∷ (1, 0 ∷ []) ∷ []) reply []
      connection-IsSynced reply-IsHeader (inl (omega arith))

-- Three packets wait, 100, 101 and 102.
pending_newest_alone_example :
    let history =
      (dispatch_pending_packet (λ i b. none) true connection).1.packet_notify.in_seq_history in
    (is_delivered history 0 ≡ some true)
    × ((i : ℕ) → 0 < i → i < 3 → is_delivered history i ≡ some false)
unfolding seq_of make_seq distance
pending_newest_alone_example =
    pending_newest_alone (λ i b. none) true connection [] ([] ∷ [] ∷ []) 3 refl notify-IsValid refl
      (omega arith) (omega arith)

abbrev nothing_yet : Dispatched (OutReadyBunch ℕ)
nothing_yet = record { channels = connection.channels; passed_on = []; has_bunch_errors = false }

abbrev payload : BufferReader
payload = record { view = 10 ∷ 8 ∷ 0 ∷ 1 ∷ 0 ∷ 0 ∷ 0 ∷ 0 ∷ 0 ∷ 0 ∷ []; error = false }

dispatch_loop-fuel_example :
    dispatch_loop (λ i b. none) true 10 nothing_yet payload
    ≡ dispatch_loop (λ i b. none) true 12 nothing_yet payload
dispatch_loop-fuel_example =
    dispatch_loop-fuel (λ i b. none) true 10 12 nothing_yet payload (omega arith) (omega arith)

packet_sealed-views_example :
    (views_size
        (λ n. n)
        (packet_sealed (append_all build_start (bunch 3 ∷ bunch 4 ∷ []))).buffer_views
      ≡ (append_all build_start (bunch 3 ∷ bunch 4 ∷ [])).total_size)
    × ((append_all build_start (bunch 3 ∷ bunch 4 ∷ [])).total_size ≤ 1024)
packet_sealed-views_example =
    packet_sealed-views (λ n. n) (bunch 3 ∷ bunch 4 ∷ []) (omega arith, (omega arith, tt))

-- What the reply leaves: packet 0 arrived, and its bunch is forgotten.
abbrev after_reply : Connection (OutReadyBunch ℕ) (List ℕ)
after_reply = record connection {
  packet_notify = record notify {
    ack_record = (1, 99) ∷ [];
    waiting_for_flush_seq_ack = 0;
    in_seq = 100;
    out_ack_seq = 0;
  };
  channel_record = record { entry_record = entries ((1, 0 ∷ []) ∷ []); last_packet_id = pos 1 };
  channels =
      some (record (channel (bunch 3 ∷ bunch 4 ∷ [])) {
        sending = record {
          out_bunch_queue = bunch 3 ∷ bunch 4 ∷ [];
          out_un_acked_bunches = (1, bunch 2 ∷ []) ∷ [];
          queued_out_bunch = [];
        };
      })
      ∷ none
      ∷ [];
  in_packet_id = pos 103;
  out_ack_packet_id = pos 0;
  last_notified_send_packet_id = pos 0;
  pending_readers = [] ∷ [] ∷ [] ∷ (7 ∷ []) ∷ [];
}

reply_runs : received_header 7 connection reply (7 ∷ []) ≡ some after_reply
unfolding ◌+ℤ◌ received_header received_newer update update_accepted process_received_acks
    process_new_acks nack_beyond notify_from_history internal_update enter_flush get_sequence_delta
    update_in_ack_seq_ack take_record seq_gt seq_ge distance diff increment make_seq is_delivered
    History.word_bit is_waiting_for_flush will_sequence_fit has_unacknowledged_acks handle_all
    handle_packet_notification received_ack received_nack settle_packet settle_channels settle_at
    consume_channel_records_for_packet consume_front take_channels acked erase push_reader seq_of
    consume_acked drop_older consume_front_sample
reply_runs = refl

after_reply-calm : is_waiting_for_flush after_reply.packet_notify ≡ false
unfolding is_waiting_for_flush seq_gt distance
after_reply-calm = refl

received_header-replayed_example :
    received_header 9 after_reply reply (7 ∷ []) ≡ some (push_reader after_reply (pos 0) (7 ∷ []))
received_header-replayed_example =
    received_header-replayed 7 9 connection after_reply 0 ((0, 0 ∷ []) ∷ (1, 0 ∷ []) ∷ []) reply
      (7 ∷ []) (7 ∷ []) connection-IsSynced reply-IsHeader (inl (omega arith)) reply_runs
      after_reply-calm
