-- ===== src/Channel/Examples.antt =====
-- Runs of the channel code on small inputs, and its theorems at those inputs.
use rudp_network_engine.Prelude.{
  ℕ, ◌+◌, ◌%◌, ◌-◌, ◌^◌, ◌≤◌, ◌<◌, ◌≡◌, refl, Bool, true, false, [], ◌∷◌, ◌++◌, arith, inl, inr,
  ◌⊎◌, dec_lt, List, ◌==◌,
}
use rudp_network_engine.Channel.Record.{create}
use rudp_network_engine.Channel.Record.Groups.{
  Group, record_groups, settle, answers, settle-record_groups,
}
use rudp_network_engine.Channel.Building.{
  Builder, BunchPolicy, OutReadyBunch, pump, take_message, is_header_only,
}
use rudp_network_engine.Channel.Building.Pumping.{IsPolicy, bunched, contents, pump-bunched}
use rudp_network_engine.Channel.Building.Oversized.{take_message-oversized}
use rudp_network_engine.Channel.Sending.{
  SendState, tick_flush, nacked, acked, dequeue_ready_bunch, add_un_acked_out_bunch, dequeue_front,
  push_at, lookup, erase, push_front_reversed, move_ready, clear,
}
use rudp_network_engine.Channel.Sending.Ledger.{Step, Steps, held, held-Steps}
use rudp_network_engine.Channel.Receiving.{
  InBunch, RecvState, Message, receive_bunch, dispatch_raw_bunch, drain, add_unread, read_messages,
  read_message, read_view, can_read, header_field, dispatch,
}
use rudp_network_engine.Channel.Receiving.Reading.{bunch_bytes, read_messages-bunch_bytes}
use rudp_network_engine.Channel.Receiving.Ordered.{
  receive_all, receive_all-Advanced, Advanced, outcome,
}
use rudp_network_engine.Channel.Receiving.Complete.{receive_all_complete, Among, Arrived}
use rudp_network_engine.Channel.Receiving.Stuck.{receive_all-stuck}

-- Two packets: 7 has a bunch of channel 0 and two of channel 1, 8 is a packet with no bunch.
abbrev two_packets : List Group
two_packets = (7, 0 ∷ 1 ∷ 1 ∷ []) ∷ (8, []) ∷ []

settle-record_groups_example :
    settle (record_groups create two_packets) two_packets ≡ answers two_packets
unfolding create
settle-record_groups_example = settle-record_groups create two_packets refl (
  omega arith,
  (omega arith, (omega arith, (omega arith, tt))),
  cc,
  (omega arith, tt, λ e. cc, tt),
)

abbrev idle : SendState ℕ
idle = record { out_bunch_queue = []; out_un_acked_bunches = []; queued_out_bunch = [] }

abbrev is_one : ℕ → Bool
is_one n = n == 1

-- The bunches 1 and 2 are built, both sent in the packet 5, which is lost; 1 is sent again in the
-- packet 6, which arrives, and 2 is cleared.
abbrev sent_again : SendState ℕ
sent_again = record {
  out_bunch_queue = 2 ∷ [];
  out_un_acked_bunches = (6, 1 ∷ []) ∷ [];
  queued_out_bunch = [];
}

held-Steps_example :
    held is_one (clear (acked sent_again 6))
      + (0 + (0 + (0 + (0 + (0 + (0 + (0 + (1 + (0 + 0)))))))))
      + (0 + (0 + (0 + (0 + (0 + (0 + (0 + (0 + (0 + 0)))))))))
    ≡ held is_one idle + (1 + (0 + (0 + (0 + (0 + (0 + (0 + (0 + (0 + 0)))))))))
unfolding tick_flush nacked acked dequeue_ready_bunch add_un_acked_out_bunch dequeue_front push_at
    lookup erase push_front_reversed move_ready clear
held-Steps_example =
    held-Steps (λ b. false) is_one
      (Steps.next (Step.built {s = idle} 1) (
        Steps.next (Step.built 2) (
          Steps.next Step.flushed (
            Steps.next (Step.sent 5 refl) (
              Steps.next (Step.sent 5 refl) (
                Steps.next (Step.was_nacked 5) (
                  Steps.next (Step.sent 6 refl)
                    (Steps.next (Step.was_acked 6) (Steps.next Step.cleared Steps.done)))))))))

abbrev hello : List Message
hello =
    record { message_id = 300; payload = 1 ∷ 2 ∷ [] } ∷ record { message_id = 4; payload = [] } ∷ []

read_messages-bunch_bytes_example :
    read_messages 2 (record { view = bunch_bytes hello ++ (9 ∷ []); error = false }) ≡ (true, hello)
read_messages-bunch_bytes_example =
    read_messages-bunch_bytes hello (9 ∷ [])
      (omega arith, omega arith, (omega arith, omega arith, tt))

-- Every bunch holds the one message `hello` starts with.
abbrev content : ℕ → InBunch
content k = record { buffer = 5 ∷ 0 ∷ 7 ∷ 0 ∷ k ∷ []; message_count = 1 }

content-good : (k : ℕ) → (dispatch (content k)).0 ≡ true
unfolding read_messages read_message read_view can_read header_field
content-good k = refl

abbrev fresh : RecvState
fresh = record { b_reliable = true; in_reliable = 0; in_unread_bunch_map = [] }

receive_all-Advanced_example :
    Advanced content 0 (outcome content (receive_all content fresh (2 ∷ 1 ∷ 1 ∷ 3 ∷ [])))
receive_all-Advanced_example =
    receive_all-Advanced content fresh (2 ∷ 1 ∷ 1 ∷ 3 ∷ []) content-good
      record { reliable = refl; below = omega arith; holds = tt }
      (
        omega arith,
        omega arith,
        (omega arith, omega arith, (omega arith, omega arith, (omega arith, omega arith, tt))),
      )

-- The bunches 1 to 3 were passed on. 1 arrives again, and then 5 and 4: 5 stays behind.
abbrev at_3 : RecvState
at_3 = record { b_reliable = true; in_reliable = 3; in_unread_bunch_map = [] }

left_behind : (receive_all content at_3 (1 ∷ 5 ∷ 4 ∷ [])).1.in_reliable ≡ 4
unfolding receive_bunch dispatch_raw_bunch drain add_unread read_messages read_message read_view
    can_read header_field
left_behind = refl

in_order : (receive_all content at_3 (5 ∷ 4 ∷ [])).1.in_reliable ≡ 5
unfolding receive_bunch dispatch_raw_bunch drain add_unread read_messages read_message read_view
    can_read header_field
in_order = refl

receive_all-stuck_example : (receive_all content at_3 (1 ∷ 4 ∷ [])).1.in_reliable < 5
receive_all-stuck_example =
    receive_all-stuck content at_3 1 5 (4 ∷ []) (omega arith) refl (omega arith) (omega arith)
      (omega arith, tt)

arrivals : (j : ℕ) → j ≤ 5 → Among j (5 ∷ 4 ∷ []) ⊎ Arrived j 3 []
arrivals j h = elim (dec_lt 3 j) [
  | yes l ↦ elim (dec_lt 4 j) [
    | yes m ↦ inl (inl (omega arith))
    | no m ↦ inl (inr (inl (omega arith)))
  ]
  | no l ↦ inr (inl (omega arith))
]

receive_all_complete_example : 5 ≤ (receive_all content at_3 (5 ∷ 4 ∷ [])).1.in_reliable
unfolding receive_bunch dispatch_raw_bunch drain add_unread read_messages read_message read_view
    can_read header_field
receive_all_complete_example =
    receive_all_complete content at_3 (5 ∷ 4 ∷ []) 5 content-good
      record { receiving = record { reliable = refl; below = omega arith; holds = tt }; above = tt }
      (omega arith, omega arith, (omega arith, omega arith, tt)) (omega arith, (omega arith, tt))
      arrivals

-- Messages that are their sizes, under the default policy, on a clock that stands still.
abbrev own_size : ℕ → ℕ
own_size m = m

abbrev default_policy : BunchPolicy
default_policy = record {
  max_msgs_per_bunch = 255;
  max_coalesce_us = 2000;
  max_bunch_payload = 1024 - 16 - 8;
}

abbrev still : ℕ → ℕ
still n = 0

default_policy-IsPolicy : IsPolicy own_size default_policy still
default_policy-IsPolicy = record { some_message = omega arith; some_payload = omega arith }

abbrev waiting : List ℕ → Builder ℕ
waiting ms = record {
  active_msgs = [];
  active_payload = 0;
  active_has_init = false;
  queued_message = ms;
  queued_out_bunch = [];
  last_emit_us = 0;
  readings = 0;
  out_reliable = 0;
}

-- 600 and 700 do not fit into one bunch.
pump-bunched_example :
    let t = pump own_size default_policy still 256 true (waiting (600 ∷ 700 ∷ 30 ∷ [])) in
    bunched t.queued_out_bunch ≡ [] ++ (600 ∷ 700 ∷ 30 ∷ [])
    × t.active_msgs ≡ []
    × t.queued_message ≡ []
pump-bunched_example =
    pump-bunched own_size default_policy still 256 (waiting (600 ∷ 700 ∷ 30 ∷ []))
      default_policy-IsPolicy record { fits = omega arith; begun = inr refl }
      (omega arith, (omega arith, (omega arith, tt))) (omega arith)

take_message-oversized_example :
    let t = take_message own_size default_policy still (waiting []) 1001 in
    (contents t ≡ [])
    × ((b : OutReadyBunch ℕ) × (t.queued_out_bunch ≡ [] ++ (b ∷ []))
        × (b.messages ≡ [])
        × (is_header_only b ≡ true)
        × (b.ch_sequence ≡ (0 + 1) % 2 ^ 32)
        × (t.out_reliable ≡ (0 + 1) % 2 ^ 32))
take_message-oversized_example =
    take_message-oversized own_size default_policy still (waiting []) 1001 default_policy-IsPolicy
      (omega arith) (omega arith) (omega arith) (omega arith)
