-- ===== src/Connection/Notified/Received.antt =====
-- `ReceivedPacket` as a whole: the sequence numbers, the packet ids and the channel record of a
-- connection stay in step.
use rudp_network_engine.Prelude.{
  ℕ, zero, suc, ◌+◌, ◌%◌, ◌^◌, ◌≤◌, ◌<◌, ◌≡◌, refl, true, some, none, Option, List, [], ◌∷◌, arith,
  length, length-drop, drop, sym, ◌∙◌, ap, subst, ◌⊎◌, inl, inr, Bool-cases,
}
use rudp_network_engine.Prelude.Int.{pos, ◌+ℤ◌, ltb_ℤ}
use rudp_network_engine.Sequence.Number.{distance}
use rudp_network_engine.Sequence.Notify.{
  NotificationHeader, Notification, get_sequence_delta, is_waiting_for_flush,
}
use rudp_network_engine.Sequence.Notify.Valid.{IsValid}
use rudp_network_engine.Sequence.Notify.Acks.{ack_count}
use rudp_network_engine.Sequence.Notify.Told.{CountsUp, Outcome-SameSending}
use rudp_network_engine.Sequence.Notify.Updating.{
  IsHeader, Accepted, get_sequence_delta_cases, update-Accepted,
}
use rudp_network_engine.Channel.Record.Groups.{Group}
use rudp_network_engine.Connection.{Connection, NetChannel}
use rudp_network_engine.Connection.Notified.{
  force_all, push_reader, received_newer, received_header,
}
use rudp_network_engine.Connection.Notified.Told.{SameThere}
use rudp_network_engine.Connection.Notified.InStep.{
  IsInStep, AllThere-same, settle_groups, AllHandled, handle_all-AllHandled,
}

CountsUp-mod :
    (a b : ℕ) (notes : List Notification)
    → a % 2 ^ 14 ≡ b % 2 ^ 14
    → CountsUp a notes
    → CountsUp b notes
CountsUp-mod a b [] e h = tt
CountsUp-mod a b (x ∷ notes) e h =
    (h.0 ∙ e, CountsUp-mod (a + 1) (b + 1) notes (omega (arith, e)) h.1)

module _ {B : Type 0} where
  force_all-SameThere :
      (channels : List (Option (NetChannel B))) → SameThere channels (force_all channels)
  unfolding force_all
  force_all-SameThere [] j h = h
  force_all-SameThere (none ∷ rest) zero h = h
  force_all-SameThere (none ∷ rest) (suc j) h = force_all-SameThere rest j h
  force_all-SameThere (some ch ∷ rest) zero h = (_, refl)
  force_all-SameThere (some ch ∷ rest) (suc j) h = force_all-SameThere rest j h

module _ {B R : Type 0} where
  -- A connection whose packets `gs`, with ids from `n` on, are not settled yet; the first of them were
  -- sent, and the packet notification waits for those.
  pub record IsSynced (c : Connection B R) (n : ℕ) (gs : List Group) : Type 0 where
    pub in_step : IsInStep c n gs
    pub valid : IsValid c.packet_notify
    pub room : length c.packet_notify.ack_record + 1 < 2 ^ 13
    pub agrees : (c.packet_notify.out_ack_seq + 1) % 2 ^ 14 ≡ n % 2 ^ 14
    pub sent : length c.packet_notify.ack_record ≤ length gs

  -- A step that only touches what is not in step's concern.
  moved-IsInStep :
      (c t : Connection B R) (n : ℕ) (gs : List Group)
      → IsInStep c n gs
      → t.last_notified_send_packet_id ≡ c.last_notified_send_packet_id
      → t.channel_record ≡ c.channel_record
      → SameThere c.channels t.channels
      → IsInStep t n gs
  moved-IsInStep c t n gs v e r h = record {
    next = ap (λ i. i +ℤ pos 1) e ∙ v.next;
    recorded = ap (λ z. z.entry_record) r ∙ v.recorded;
    numbered = v.numbered;
    there = AllThere-same c.channels t.channels gs h v.there;
  }

  -- What `ReceivedPacket` leaves: the packets of the notifications are settled and all is in step again.
  pub record HasReceived (now_us : ℕ) (c : Connection B R) (n : ℕ) (gs : List Group)
      (d : NotificationHeader) (reader : R) : Type 0 where
    pub after : Connection B R
    pub result : received_header now_us c d reader ≡ some after
    pub notes : List Notification
    pub each : CountsUp n notes
    pub synced : IsSynced after (n + length notes) (drop (length notes) gs)
    pub still_open : after.is_closed ≡ c.is_closed
    pub notified :
        ((get_sequence_delta c.packet_notify d ≡ pos 0)
          × (after.packet_notify ≡ c.packet_notify)
          × (notes ≡ []))
        ⊎ ((a : Accepted c.packet_notify d) × (after.packet_notify ≡ a.next) × (notes ≡ a.notes))
    pub told_channels : List (Option (NetChannel B))
    pub told : settle_groups n notes gs c.channels ≡ some told_channels
    pub channels :
        (after.channels ≡ told_channels)
        ⊎ ((after.channels ≡ force_all told_channels)
            × (is_waiting_for_flush after.packet_notify ≡ true))

  received-stale :
      (now_us : ℕ) (c : Connection B R) (n : ℕ) (gs : List Group) (d : NotificationHeader)
      (reader : R)
      → IsSynced c n gs
      → get_sequence_delta c.packet_notify d ≡ pos 0
      → HasReceived now_us c n gs d reader
  unfolding received_header push_reader
  received-stale now_us c n gs d reader v e = record {
    after = push_reader c (pos 0) reader;
    result = rw (e);
    notes = [];
    each = tt;
    synced =
        subst (λ z. IsSynced (push_reader c (pos 0) reader) z gs) (omega arith)
          record {
            in_step =
                moved-IsInStep c (push_reader c (pos 0) reader) n gs v.in_step refl refl (λ j h. h);
            valid = v.valid;
            room = v.room;
            agrees = v.agrees;
            sent = v.sent;
          };
    still_open = refl;
    notified = inl (e, refl, refl);
    told_channels = c.channels;
    told = refl;
    channels = inl refl;
  }

  -- After the notifications, in a state `t` with the new packet notification.
  newer-IsSynced :
      (now_us : ℕ) (c t : Connection B R) (n : ℕ) (gs : List Group) (d : NotificationHeader)
      → IsSynced c n gs
      → (a : Accepted c.packet_notify d) → (all : AllHandled now_us c n a.notes gs)
      → t.packet_notify ≡ a.next
      → t.last_notified_send_packet_id ≡ all.after.last_notified_send_packet_id
      → t.channel_record ≡ all.after.channel_record
      → SameThere all.after.channels t.channels
      → IsSynced t (n + length a.notes) (drop (length a.notes) gs)
  newer-IsSynced now_us c t n gs d v a all e last rec there =
      let same = Outcome-SameSending a.window in
      let sending = ap (λ s. length s.ack_record) e ∙ ap length same.2 in
      let acked = ap (λ s. s.out_ack_seq) e ∙ same.1 in
      record {
        in_step =
            moved-IsInStep all.after t (n + length a.notes) (drop (length a.notes) gs) all.in_step
              last rec there;
        valid = subst IsValid (sym e) a.next_valid;
        room = omega (arith, sending, a.sent.left, v.room);
        agrees = omega (arith, acked, a.sent.acked, v.agrees);
        sent = omega (arith, sending, a.sent.left, v.sent, length-drop (length a.notes) gs);
      }

  received-newer :
      (now_us : ℕ) (c : Connection B R) (n : ℕ) (gs : List Group) (d : NotificationHeader)
      (reader : R)
      → IsSynced c n gs
      → (a : Accepted c.packet_notify d)
      → get_sequence_delta c.packet_notify d ≡ pos (distance d.seq c.packet_notify.in_seq)
      → 0 < distance d.seq c.packet_notify.in_seq
      → HasReceived now_us c n gs d reader
  unfolding received_header received_newer push_reader
  received-newer now_us c n gs d reader v a e k =
      let counts = CountsUp-mod (c.packet_notify.out_ack_seq + 1) n a.notes v.agrees a.sent.each in
      let all =
        handle_all-AllHandled now_us c n n a.notes gs v.in_step counts refl
          (omega (arith, a.sent.left, v.sent)) in
      let more : ltb_ℤ (pos 0) (pos (distance d.seq c.packet_notify.in_seq)) ≡ true =
        ground (arith, k) in
      let c₂ : Connection B R = record all.after { packet_notify = a.next } in
      elim (Bool-cases (is_waiting_for_flush a.next)) [
        | inl w ↦
            let t : Connection B R = record c₂ {
              has_dirty_acks = c₂.has_dirty_acks + 1;
              channels = force_all c₂.channels;
              in_packet_id = c₂.in_packet_id +ℤ a.delta;
            } in
            record {
              after = t;
              result = rw (e, more, a.result, all.result, w);
              notes = a.notes;
              each = counts;
              synced =
                  newer-IsSynced now_us c t n gs d v a all refl refl refl
                    (force_all-SameThere all.after.channels);
              still_open = all.rest.0;
              notified = inr (a, refl, refl);
              told_channels = all.after.channels;
              told = all.told;
              channels = inr (refl, w);
            }
        | inr w ↦
            let delta = pos (distance d.seq c.packet_notify.in_seq) in
            let t = push_reader c₂ delta reader in
            record {
              after = t;
              result = rw (e, more, a.result, all.result, w);
              notes = a.notes;
              each = counts;
              synced = newer-IsSynced now_us c t n gs d v a all refl refl refl (λ j h. h);
              still_open = all.rest.0;
              notified = inr (a, refl, refl);
              told_channels = all.after.channels;
              told = all.told;
              channels = inl refl;
            }
      ]

  -- A connection whose sequence numbers, packet ids and channel record are in step stays so through
  -- `ReceivedPacket`, for any header with at most eight history words or that settles at most 256
  -- packets: every notification finds its packet in front of the record and its channels, so that the
  -- record never counts as out of step and the connection is not closed, and the channels of each
  -- packet that `Update` tells of forget what that packet carried where it was delivered and queue it
  -- again where it was not. An older or repeated header tells of no packet.
  pub received_header-HasReceived :
      (now_us : ℕ) (c : Connection B R) (n : ℕ) (gs : List Group) (d : NotificationHeader)
      (reader : R)
      → IsSynced c n gs
      → IsHeader d
      → (d.history_word_count ≤ 8) ⊎ (ack_count c.packet_notify d ≤ 256)
      → HasReceived now_us c n gs d reader
  received_header-HasReceived now_us c n gs d reader v h few =
      elim (get_sequence_delta_cases v.valid h) [
        | inl p ↦
            received-newer now_us c n gs d reader v (update-Accepted v.valid h v.room few p.0) p.1
              p.2
        | inr p ↦ received-stale now_us c n gs d reader v p.1
      ]
