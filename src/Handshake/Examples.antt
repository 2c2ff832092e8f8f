-- ===== src/Handshake/Examples.antt =====
-- The theorems on the handshake at small inputs. An address is a number, and the cookie of an address
-- at a time is the two.
use rudp_network_engine.Prelude.{ℕ, refl, true, false, some, none, List, [], ◌∷◌, arith}
use rudp_network_engine.Prelude.Int.{pos, negsuc}
use rudp_network_engine.Sequence.Notify
use rudp_network_engine.Channel.Record
use rudp_network_engine.Connection.{Connection, NetChannel}
use rudp_network_engine.Pending.{PendingRemoteConnection, Remotes, challenge, response}
use rudp_network_engine.Handshake.{
  HandshakeData, Client, initialized_on_local, answer, incoming_connectionless,
}
use rudp_network_engine.Handshake.Added.{AllAnswered, incoming_connectionless-AllAnswered}
use rudp_network_engine.Handshake.Agreed.{HasAgreed, answer-HasAgreed}

abbrev plain_cookie : ℕ → ℕ → List ℕ
plain_cookie address time = address ∷ time ∷ []

abbrev entry : PendingRemoteConnection ℕ
entry = record {
  cookie_time = 9;
  handshake_try_count = 1;
  time_id = 59;
  session_id = 0;
  client_id = 3;
  server_sequence = 0;
  client_sequence = 0;
  address = 77;
  handshake_packet_type = challenge;
  b_handshake_complete = false;
  last_activity_time = 9;
}

abbrev the_response : HandshakeData
the_response = record {
  session_id = 0;
  client_id = 0;
  handshake_packet_type = response;
  handshake_try_count = 0;
  secret_id = 0;
  time_stamp = pos 9;
  cookie_bytes = 77 ∷ 9 ∷ [];
}

-- A channel that another sequence left a bunch in.
abbrev used_channel : NetChannel ℕ
used_channel = record {
  b_open = true;
  out_reliable = 4;
  sending = record {
    out_bunch_queue = 8 ∷ [];
    out_un_acked_bunches = (0, 9 ∷ []) ∷ [];
    queued_out_bunch = [];
  };
  receiving = record { in_reliable = 2; in_unread_bunch_map = []; b_reliable = true };
}

abbrev new_connection : Connection ℕ ℕ
new_connection = record {
  is_closed = false;
  packet_notify = Notify.create;
  channel_record = Record.create;
  rtt_tracker = record {
    pending = [];
    samples_us = [];
    sample_times_us = [];
    write_index = 0;
    sample_count = 0;
  };
  channels = some used_channel ∷ none ∷ [];
  in_packet_id = negsuc 0;
  out_packet_id = pos 0;
  out_ack_packet_id = pos 0;
  last_notified_send_packet_id = negsuc 0;
  init_in_reliable = 0;
  init_out_reliable = 0;
  pending_readers = [];
  has_dirty_acks = 0;
}

abbrev waiting_client : Client ℕ ℕ ℕ
waiting_client = record {
  state = initialized_on_local;
  pending = record entry { client_id = 0; handshake_packet_type = response };
  server_connection = new_connection;
}

answer-HasAgreed_example :
    HasAgreed plain_cookie 0 5 entry
      (answer plain_cookie 0 5 100 the_response entry)
      120
      new_connection
      waiting_client
answer-HasAgreed_example =
    answer-HasAgreed plain_cookie 0 5 100 the_response entry 120 new_connection waiting_client refl
      refl (omega arith) (omega arith) refl refl refl

abbrev one_entry : Remotes ℕ
one_entry = record {
  client_cache = ((5, entry) ∷ []) ∷ [];
  pending_client_ids = record { counter = 4; free_ids = [] };
  client_time_id = 0;
}

incoming_connectionless-AllAnswered_example :
    AllAnswered plain_cookie 0 5 100 the_response
      (incoming_connectionless plain_cookie 0 5 77 0 100 the_response one_entry).0
incoming_connectionless-AllAnswered_example =
    incoming_connectionless-AllAnswered plain_cookie 0 5 77 0 100 the_response one_entry
