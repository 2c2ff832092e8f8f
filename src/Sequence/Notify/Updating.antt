-- ===== src/Sequence/Notify/Updating.antt =====
-- `GetSequenceDelta` and `Update` as a whole.
use rudp_network_engine.Prelude.{
  ℕ, ◌+◌, ◌^◌, ◌≤◌, ◌<◌, ◌≡◌, true, false, some, List, [], length, arith, ◌⊎◌, inl, inr, Bool-cases,
}
use rudp_network_engine.Prelude.Int.{ℤ, pos, ltb_ℤ}
use rudp_network_engine.Sequence.Number.{IsSeq, seq_gt, seq_ge, distance}
use rudp_network_engine.Sequence.Number.Arithmetic.{
  seq_gt_iff, seq_gt-distance, diff-pos, distance_cases, seq_ge_iff,
}
use rudp_network_engine.Sequence.History.{IsHistory}
use rudp_network_engine.Sequence.Notify.{
  Notify, NotificationHeader, Notification, get_sequence_delta, is_waiting_for_flush,
  process_received_acks, update_accepted, update,
}
use rudp_network_engine.Sequence.Notify.Valid.{IsValid}
use rudp_network_engine.Sequence.Notify.Acks.{AcksNew, ack_count, process_received_acks-Settled}
use rudp_network_engine.Sequence.Notify.Told.{Numbered, Settled-Numbered}
use rudp_network_engine.Sequence.Notify.Window.{
  Outcome, internal_update-Outcome, Outcome-IsValid, accepted-near,
}

-- A header as `ReadHeader` makes it.
pub record IsHeader (d : NotificationHeader) : Type 0 where
  pub seq_range : IsSeq d.seq
  pub acked_range : IsSeq d.acked_seq
  pub history_valid : IsHistory d.history

-- The three tests that a header passes.
abbrev pub Passes : Notify → NotificationHeader → Type 0
Passes s d =
    (seq_gt d.seq s.in_seq ≡ true)
    × (seq_ge d.acked_seq s.out_ack_seq ≡ true)
    × (seq_gt s.out_seq d.acked_seq ≡ true)

passing :
    {s : Notify} {d : NotificationHeader}
    → IsValid s
    → IsHeader d
    → Passes s d
    → (get_sequence_delta s d ≡ pos (distance d.seq s.in_seq)) × (0 < distance d.seq s.in_seq)
unfolding get_sequence_delta
passing {s} {d} v h p =
    let g = seq_gt-distance d.seq s.in_seq p.0 h.seq_range v.in_seq_range in
    (rw (p.0, p.1, p.2) (diff-pos d.seq s.in_seq h.seq_range v.in_seq_range g.1), g.0)

positive : (n : ℕ) → 0 < n → ltb_ℤ (pos 0) (pos n) ≡ true
positive n h = ground arith

failing : (s : Notify) (d : NotificationHeader) → ¬ Passes s d → get_sequence_delta s d ≡ pos 0
unfolding get_sequence_delta
failing s d p = ground arith

-- `GetSequenceDelta` in a valid state: a header that is newer than the last packet received, and
-- acknowledges no less than the last acknowledgement and nothing that was not sent, gives the
-- positive distance from the last packet received; every other header gives 0.
pub get_sequence_delta_cases :
    {s : Notify} {d : NotificationHeader}
    → IsValid s
    → IsHeader d
    → (Passes s d
        × (get_sequence_delta s d ≡ pos (distance d.seq s.in_seq))
        × (0 < distance d.seq s.in_seq))
      ⊎ ((¬ Passes s d) × (get_sequence_delta s d ≡ pos 0))
get_sequence_delta_cases {s} {d} v h = elim (passes? s d) [
  | yes p ↦ inl (p, (passing v h p).0, (passing v h p).1)
  | no p ↦ inr (p, failing s d p)
]
  where
    passes? : (s : Notify) (d : NotificationHeader) → Dec (Passes s d)
    passes? s d = elim (Bool-cases (seq_gt d.seq s.in_seq)) [
      | inl a ↦ elim (Bool-cases (seq_ge d.acked_seq s.out_ack_seq)) [
        | inl b ↦ elim (Bool-cases (seq_gt s.out_seq d.acked_seq)) [
          | inl c ↦ yes (a, b, c)
          | inr c ↦ no (λ p. cc (c, p.2))
        ]
        | inr b ↦ no (λ p. cc (b, p.1))
      ]
      | inr a ↦ no (λ p. cc (a, p.0))
    ]

-- What `Update` leaves behind for a header that passes the tests.
pub record Accepted (s : Notify) (d : NotificationHeader) : Type 0 where
  pub notes : List Notification
  pub settled : Notify
  pub delta : ℤ
  pub next : Notify
  pub acks : process_received_acks s d ≡ some (notes, settled)
  pub told_once : length notes ≡ ack_count s d
  pub sent : Numbered s settled notes
  pub window : Outcome settled d.seq (pos (distance d.seq s.in_seq)) (delta, next)
  pub result : update s d ≡ some (notes, delta, next)
  pub settled_valid : IsValid settled
  pub next_valid : IsValid next

-- `ProcessReceivedAcks` on a header that acknowledges something new, or nothing.
record Told (s : Notify) (d : NotificationHeader) : Type 0 where
  notes : List Notification
  settled : Notify
  acks : process_received_acks s d ≡ some (notes, settled)
  valid : IsValid settled
  fewer : length settled.ack_record ≤ length s.ack_record
  told_once : length notes ≡ ack_count s d
  sent : Numbered s settled notes

told :
    {s : Notify} {d : NotificationHeader}
    → IsValid s
    → IsHeader d
    → (d.history_word_count ≤ 8) ⊎ (ack_count s d ≤ 256)
    → Passes s d
    → Told s d
told {s} {d} v h few p = elim (Bool-cases (seq_gt d.acked_seq s.out_ack_seq)) [
  | inl newer ↦
      let new : AcksNew s d = record {
        acked_range = h.acked_range;
        history_valid = h.history_valid;
        newer = newer;
        sent = p.2;
      } in
      let r = process_received_acks-Settled v new few in
      record {
        notes = r.notes;
        settled = r.next;
        acks = r.result;
        valid = r.next_valid;
        fewer = r.fewer;
        told_once = r.told_once;
        sent = Settled-Numbered v new r;
      }
  | inr old ↦ record {
    notes = [];
    settled = s;
    sent = record { each = tt; acked = omega (arith, v.out_ack_range); left = omega arith };
    acks = unfold process_received_acks in rw old;
    valid = v;
    fewer = omega arith;
    told_once = ground (
      arith,
      seq_gt_iff d.acked_seq s.out_ack_seq h.acked_range v.out_ack_range,
      seq_ge_iff d.acked_seq s.out_ack_seq,
    );
  }
]

-- In a valid state with fewer than 8191 packets outstanding, `Update` on a header that passes the
-- tests of `GetSequenceDelta`, and that claims at most eight history words or settles at most 256
-- packets, always answers: each packet newly acknowledged or given up is told once, the packet is
-- treated in one of the ways of `InternalUpdate`, and the state stays valid.
pub update-Accepted :
    {s : Notify} {d : NotificationHeader}
    → IsValid s
    → IsHeader d
    → length s.ack_record + 1 < 2 ^ 13
    → (d.history_word_count ≤ 8) ⊎ (ack_count s d ≤ 256)
    → Passes s d
    → Accepted s d
update-Accepted {s} {d} v h room few p =
    let t = told v h few p in
    let l = passing v h p in
    let (answer, e, outcome) =
      internal_update-Outcome d (pos (distance d.seq s.in_seq)) t.valid h.seq_range
        (omega (arith, t.fewer)) in
    record {
      notes = t.notes;
      settled = t.settled;
      delta = answer.0;
      next = answer.1;
      acks = t.acks;
      told_once = t.told_once;
      sent = t.sent;
      window = outcome;
      result = unfold update update_accepted in rw l.0 (rw (positive _ l.1) (rw t.acks (rw e)));
      settled_valid = t.valid;
      next_valid = Outcome-IsValid t.valid h.seq_range outcome;
    }

-- A header that fails one of the tests tells nothing and changes nothing.
pub update-rejected :
    {s : Notify} {d : NotificationHeader}
    → IsValid s
    → IsHeader d
    → ¬ Passes s d
    → update s d ≡ some ([], pos 0, s)
unfolding update
update-rejected {s} {d} v h p = rw (failing s d p)

distance_self : (a : ℕ) → IsSeq a → seq_gt a a ≡ true → ⊥
distance_self a h e = omega (arith, seq_gt-distance a a e h h, distance_cases a a h h)

pub replayed-fails :
    {s : Notify} {d : NotificationHeader}
    → IsHeader d
    → (a : Accepted s d) → is_waiting_for_flush a.next ≡ false
    → ¬ Passes a.next d
replayed-fails {s} {d} h a calm p =
    let w = accepted-near h.seq_range a.window calm in
    distance_self d.seq h.seq_range (rw w.1 at p.0)

-- A datagram that arrives twice counts once: after a header was accepted and no flush is on, the
-- same header tells nothing and changes nothing.
pub update-replayed :
    {s : Notify} {d : NotificationHeader}
    → IsHeader d
    → (a : Accepted s d) → is_waiting_for_flush a.next ≡ false
    → update a.next d ≡ some ([], pos 0, a.next)
update-replayed h a calm = update-rejected a.next_valid h (replayed-fails h a calm)
