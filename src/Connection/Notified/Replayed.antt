-- ===== src/Connection/Notified/Replayed.antt =====
-- `ReceivedPacket` on a datagram that arrives twice.
use rudp_network_engine.Prelude.{
  ℕ, ◌≤◌, ◌≡◌, refl, sym, ap, ◌∙◌, false, none, some, List, ◌⊎◌, inl, inr,
}
use rudp_network_engine.Prelude.Int.{pos}
use rudp_network_engine.Sequence.Notify.{
  NotificationHeader, Notify, get_sequence_delta, is_waiting_for_flush,
}
use rudp_network_engine.Sequence.Notify.Acks.{ack_count}
use rudp_network_engine.Sequence.Notify.Updating.{
  IsHeader, Accepted, get_sequence_delta_cases, replayed-fails,
}
use rudp_network_engine.Channel.Record.Groups.{Group}
use rudp_network_engine.Connection.{Connection}
use rudp_network_engine.Connection.Notified.{push_reader, received_header}
use rudp_network_engine.Connection.Notified.Received.{IsSynced, received_header-HasReceived}

some-injective : {A : Type 0} {x y : A} → some x ≡ some y → x ≡ y
some-injective {A} {x} e = ap (λ o. elim o as (λ _. A) [ none ↦ x | some z ↦ z ]) e

replayed-delta :
    {s : Notify} {d : NotificationHeader}
    → IsHeader d
    → (a : Accepted s d) → is_waiting_for_flush a.next ≡ false
    → get_sequence_delta a.next d ≡ pos 0
replayed-delta h a calm = elim (get_sequence_delta_cases a.next_valid h) [
  | inl p ↦ absurd (replayed-fails h a calm p.0)
  | inr p ↦ p.1
]

module _ {B R : Type 0} where
  rejected-queues :
      (now_us : ℕ) (c : Connection B R) (d : NotificationHeader) (reader : R)
      → get_sequence_delta c.packet_notify d ≡ pos 0
      → received_header now_us c d reader ≡ some (push_reader c (pos 0) reader)
  unfolding received_header
  rejected-queues now_us c d reader e = rw (e) refl

  -- Where a connection whose sequence numbers, packet ids and channel record are in step received a
  -- packet and waits for no flush, the same header again tells nothing and keeps the state but for the
  -- packet it came with, which is queued to be dispatched once more.
  pub received_header-replayed :
      (now_us later_us : ℕ) (c after : Connection B R) (n : ℕ) (gs : List Group)
      (d : NotificationHeader) (reader copy : R)
      → IsSynced c n gs
      → IsHeader d
      → (d.history_word_count ≤ 8) ⊎ (ack_count c.packet_notify d ≤ 256)
      → received_header now_us c d reader ≡ some after
      → is_waiting_for_flush after.packet_notify ≡ false
      → received_header later_us after d copy ≡ some (push_reader after (pos 0) copy)
  received_header-replayed now_us later_us c after n gs d reader copy v h few e calm =
      let r = received_header-HasReceived now_us c n gs d reader v h few in
      let same : r.after.packet_notify ≡ after.packet_notify =
        ap (λ t. t.packet_notify) (some-injective (sym r.result ∙ e)) in
      rejected-queues later_us after d copy (elim r.notified [
        | inl p ↦ ap (λ s. get_sequence_delta s d) (sym same ∙ p.1) ∙ p.0
        | inr p ↦
            let next = sym same ∙ p.1 in
            ap (λ s. get_sequence_delta s d) next
            ∙ replayed-delta h p.0 (ap is_waiting_for_flush (sym next) ∙ calm)
      ])
