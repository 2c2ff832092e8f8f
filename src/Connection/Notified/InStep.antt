-- ===== src/Connection/Notified/InStep.antt =====
-- The packets that a connection is told of are those at the front of its channel record.
use rudp_network_engine.Prelude.{
  ℕ, suc, ◌+◌, ◌-◌, ◌%◌, ◌^◌, ◌≤◌, ◌<◌, ◌≡◌, refl, Bool, true, false, some, Option, List, [], ◌∷◌,
  arith, length, drop, sym, ◌∙◌, ap, subst, ◌>>=◌,
}
use rudp_network_engine.Prelude.Int.{ℤ, pos, ◌+ℤ◌}
use rudp_network_engine.Sequence.Number.Arithmetic.{make_seq-mod}
use rudp_network_engine.Sequence.Notify.{Notification}
use rudp_network_engine.Sequence.Notify.Told.{CountsUp}
use rudp_network_engine.Channel.Record.Groups.{Group, entries, called, consume-entries, ==_self}
use rudp_network_engine.Channel.Sending.{SendState, acked, nacked}
use rudp_network_engine.Rtt.{consume_acked, consume_nacked}
use rudp_network_engine.Connection.{Connection, NetChannel, seq_of}
use rudp_network_engine.Connection.Notified.{
  settle_channels, settle_packet, received_ack, received_nack, handle_packet_notification,
  handle_all,
}
use rudp_network_engine.Connection.Notified.Told.{
  AreThere, SameThere, AreThere-same, AreThere-called, Called, settle_channels-Called,
}

-- The ids count up from `n` and have 31 bits.
abbrev pub FromId : ℕ → List Group → Type 0
FromId n [] = Unit {0}
FromId n (g ∷ gs) = (g.0 ≡ n) × (n < 2 ^ 31) × FromId (n + 1) gs

seq_of-pos : (n : ℕ) → n < 2 ^ 31 → seq_of (pos n) ≡ n % 2 ^ 14
unfolding seq_of
seq_of-pos n h = omega (arith, make_seq-mod (n % 2 ^ 32))

next-id : (i : ℤ) (n : ℕ) → i ≡ pos n → i +ℤ pos 1 ≡ pos (n + 1)
unfolding ◌+ℤ◌
next-id i n e = rw (e) (ground arith)

-- What a channel is asked for a packet that was delivered, or was not.
abbrev pub asked : {B : Type 0} → Bool → ℕ → SendState B → SendState B
asked true packet_id s = acked s packet_id
asked false packet_id s = nacked s packet_id

module _ {B : Type 0} where
  abbrev pub AllThere : List (Option (NetChannel B)) → List Group → Type 0
  AllThere channels [] = Unit {0}
  AllThere channels (g ∷ gs) = AreThere channels g.1 × AllThere channels gs

  pub AllThere-same :
      (channels others : List (Option (NetChannel B))) (gs : List Group)
      → SameThere channels others
      → AllThere channels gs
      → AllThere others gs
  AllThere-same channels others [] h k = tt
  AllThere-same channels others (g ∷ gs) h k =
      (AreThere-same channels others g.1 h k.0, AllThere-same channels others gs h k.1)

  -- What the channels of the packets `gs` are asked, where `n` is the id of the first.
  abbrev pub settle_groups :
      ℕ
      → List Notification
      → List Group
      → List (Option (NetChannel B))
      → Option (List (Option (NetChannel B)))
  settle_groups n [] gs channels = some channels
  settle_groups n (x ∷ notes) [] channels = some channels
  settle_groups n (x ∷ notes) (g ∷ gs) channels =
      settle_channels (asked x.1 n) (called (2 ^ 32 - 1) g.1) channels
      >>= settle_groups (n + 1) notes gs

module _ {B R : Type 0} where
  -- `n` is the id of the packet that is settled next, and `gs` are the packets recorded from it on.
  pub record IsInStep (c : Connection B R) (n : ℕ) (gs : List Group) : Type 0 where
    pub next : c.last_notified_send_packet_id +ℤ pos 1 ≡ pos n
    pub recorded : c.channel_record.entry_record ≡ entries gs
    pub numbered : FromId n gs
    pub there : AllThere c.channels gs

  -- What the notifications do not change.
  abbrev pub SameRest : Connection B R → Connection B R → Type 0
  SameRest c t =
      (t.is_closed ≡ c.is_closed)
      × (t.packet_notify ≡ c.packet_notify)
      × (t.in_packet_id ≡ c.in_packet_id)
      × (t.out_packet_id ≡ c.out_packet_id)
      × (t.pending_readers ≡ c.pending_readers)

  settle_packet-found :
      (f : SendState B → SendState B) (c : Connection B R) (p : ℕ) (cs : List ℕ) (gs : List Group)
      → p < 2 ^ 31
      → c.channel_record.entry_record ≡ entries ((p, cs) ∷ gs)
      → (d : Called f (called (2 ^ 32 - 1) cs) c.channels)
      → settle_packet f (pos p) c
        ≡ some (record c {
          channels = d.channels_after;
          channel_record = record c.channel_record { entry_record = entries gs };
        })
  unfolding settle_packet
  settle_packet-found f c p cs gs h e d =
      rw (consume-entries c.channel_record (p, cs) gs p h e, ==_self p, d.result)

  -- One notification, settled.
  record Handled (now_us : ℕ) (c : Connection B R) (n : ℕ) (x : Notification) (g : Group)
      (gs : List Group) : Type 0 where
    after : Connection B R
    result : handle_packet_notification now_us c x ≡ some after
    in_step : IsInStep after (n + 1) gs
    rest : SameRest c after
    told : settle_channels (asked x.1 n) (called (2 ^ 32 - 1) g.1) c.channels ≡ some after.channels

  -- A notification comes down to a call of `settle_packet`.
  handle-ack :
      (now_us : ℕ) (c : Connection B R) (n q : ℕ)
      → c.last_notified_send_packet_id +ℤ pos 1 ≡ pos n
      → n < 2 ^ 31
      → q ≡ n % 2 ^ 14
      → handle_packet_notification now_us c (q, true)
        ≡ settle_packet (asked true n) (pos n) (record c {
          last_notified_send_packet_id = pos n;
          out_ack_packet_id = pos n;
          rtt_tracker = (consume_acked c.rtt_tracker n now_us).1;
        })
  unfolding handle_packet_notification received_ack
  handle-ack now_us c n q e h k =
      let u : n % 2 ^ 32 ≡ n = omega arith in rw (e, seq_of-pos n h, k, ==_self (n % 2 ^ 14), u)

  handle-nack :
      (now_us : ℕ) (c : Connection B R) (n q : ℕ)
      → c.last_notified_send_packet_id +ℤ pos 1 ≡ pos n
      → n < 2 ^ 31
      → q ≡ n % 2 ^ 14
      → handle_packet_notification now_us c (q, false)
        ≡ settle_packet (asked false n) (pos n) (record c {
          last_notified_send_packet_id = pos n;
          rtt_tracker = consume_nacked c.rtt_tracker n;
        })
  unfolding handle_packet_notification received_nack
  handle-nack now_us c n q e h k =
      let u : n % 2 ^ 32 ≡ n = omega arith in rw (e, seq_of-pos n h, k, ==_self (n % 2 ^ 14), u)

  handle-settled :
      (now_us : ℕ) (c c₁ : Connection B R) (n q : ℕ) (delivered : Bool) (cs : List ℕ)
      (gs : List Group)
      → IsInStep c n ((n, cs) ∷ gs)
      → handle_packet_notification now_us c (q, delivered)
        ≡ settle_packet (asked delivered n) (pos n) c₁
      → c₁.last_notified_send_packet_id ≡ pos n
      → c₁.channels ≡ c.channels
      → c₁.channel_record ≡ c.channel_record
      → SameRest c c₁
      → Handled now_us c n (q, delivered) (n, cs) gs
  handle-settled now_us c c₁ n q delivered cs gs v e last channels recorded same =
      let d = settle_channels-Called (asked delivered n) (called (2 ^ 32 - 1) cs) c₁.channels (
        subst (λ z. AreThere z (called (2 ^ 32 - 1) cs)) (sym channels)
          (AreThere-called c.channels (2 ^ 32 - 1) cs v.there.0)) in
      let found =
        settle_packet-found (asked delivered n) c₁ n cs gs v.numbered.1
          (ap (λ r. r.entry_record) recorded ∙ v.recorded) d in
      record {
        after = record c₁ {
          channels = d.channels_after;
          channel_record = record c₁.channel_record { entry_record = entries gs };
        };
        result = e ∙ found;
        in_step = record {
          next = next-id c₁.last_notified_send_packet_id n last;
          recorded = refl;
          numbered = v.numbered.2;
          there =
              AllThere-same c₁.channels d.channels_after gs d.same
                (subst (λ z. AllThere z gs) (sym channels) v.there.1);
        };
        rest = same;
        told =
            subst
              (λ z.
                settle_channels (asked delivered n) (called (2 ^ 32 - 1) cs) z
                ≡ some d.channels_after)
              channels d.result;
      }

  handled :
      (now_us : ℕ) (c : Connection B R) (n q : ℕ) (delivered : Bool) (cs : List ℕ) (gs : List Group)
      → IsInStep c n ((n, cs) ∷ gs)
      → q ≡ n % 2 ^ 14
      → Handled now_us c n (q, delivered) (n, cs) gs
  handled now_us c n q true cs gs v e =
      handle-settled now_us c _ n q true cs gs v (handle-ack now_us c n q v.next v.numbered.1 e)
        refl refl refl (refl, refl, refl, refl, refl)
  handled now_us c n q false cs gs v e =
      handle-settled now_us c _ n q false cs gs v (handle-nack now_us c n q v.next v.numbered.1 e)
        refl refl refl (refl, refl, refl, refl, refl)

  -- All the notifications of a header, settled.
  pub record AllHandled (now_us : ℕ) (c : Connection B R) (n : ℕ) (notes : List Notification)
      (gs : List Group) : Type 0 where
    pub after : Connection B R
    pub result : handle_all now_us c notes ≡ some after
    pub in_step : IsInStep after (n + length notes) (drop (length notes) gs)
    pub rest : SameRest c after
    pub told : settle_groups n notes gs c.channels ≡ some after.channels

  -- Where the numbers count up from the packet that is settled next and no more packets are told of
  -- than recorded, every notification finds its packet and its channels: the connection is not closed,
  -- and each channel of a packet is told once for each run of its bunches.
  pub handle_all-AllHandled :
      (now_us : ℕ) (c : Connection B R) (n start : ℕ) (notes : List Notification) (gs : List Group)
      → IsInStep c n gs
      → CountsUp start notes
      → start % 2 ^ 14 ≡ n % 2 ^ 14
      → length notes ≤ length gs
      → AllHandled now_us c n notes gs
  unfolding handle_all
  handle_all-AllHandled now_us c n start [] gs v h e le =
      let n' : n ≡ n + 0 = omega arith in
      record {
        after = c;
        result = refl;
        in_step = subst (λ z. IsInStep c z gs) n' v;
        rest = (refl, refl, refl, refl, refl);
        told = refl;
      }
  handle_all-AllHandled now_us c n start (x ∷ notes) [] v h e le = absurd (omega arith)
  handle_all-AllHandled now_us c n start ((q, delivered) ∷ notes) ((p, cs) ∷ gs) v h e le =
      let v' = subst (λ z. IsInStep c n ((z, cs) ∷ gs)) v.numbered.0 v in
      let one = handled now_us c n q delivered cs gs v' (h.0 ∙ e) in
      let all =
        handle_all-AllHandled now_us one.after (n + 1) (start + 1) notes gs one.in_step h.1
          (omega (arith, e)) (omega arith) in
      let n' : n + 1 + length notes ≡ n + suc (length notes) = omega arith in
      let (r0, r1, r2, r3, r4) = one.rest in
      let (s0, s1, s2, s3, s4) = all.rest in
      record {
        after = all.after;
        result = rw (one.result) all.result;
        in_step = subst (λ z. IsInStep all.after z (drop (length notes) gs)) n' all.in_step;
        rest = (s0 ∙ r0, s1 ∙ r1, s2 ∙ r2, s3 ∙ r3, s4 ∙ r4);
        told = rw (one.told) all.told;
      }
