-- ===== src/Handshake/Agreed.antt =====
-- What a handshake leaves at its two ends.
use rudp_network_engine.Prelude.{
  ℕ, zero, suc, ◌+◌, ◌-◌, ◌≤◌, ◌<◌, ◌≡◌, refl, sym, ap, subst, true, ◌&&◌, List, [], ◌∷◌, ltb, leb,
  ◌==◌, arith, Option, none, some, ◌∙◌, ◌%◌, ◌^◌,
}
use rudp_network_engine.Prelude.Int.{ℤ, pos, negsuc, ◌+ℤ◌, ◌-ℤ◌, eq_ℤ}
use rudp_network_engine.Sequence.Number.{IsSeq, make_seq}
use rudp_network_engine.Sequence.Number.Arithmetic.{make_seq-mod, make_seq-IsSeq, seq_sub-mod}
use rudp_network_engine.Sequence.Notify
use rudp_network_engine.Channel.Record.{to_uint32}
use rudp_network_engine.Connection.{
  Connection, NetChannel, seq_of, update_channel_seq, update_all, first_sequence, init_sequence,
}
use rudp_network_engine.Pending.{PendingRemoteConnection, response, ack, touch}
use rudp_network_engine.Handshake.{
  HandshakeData, Output, sent, client_added, eq_bytes, server_sequence_of, client_sequence_of,
  packet_of, initialized, send_challenge_ack, valid_cookie_lifetime, complete, answer, is_open,
  Client, add_client_sequence, acknowledged, incoming_client,
}

eq_bytes_self : (xs : List ℕ) → eq_bytes xs xs ≡ true
unfolding eq_bytes
eq_bytes_self [] = refl
eq_bytes_self (x ∷ xs) = let same : (x == x) ≡ true = ground arith in rw (same) (eq_bytes_self xs)

back : (n : ℕ) → pos n -ℤ pos 1 +ℤ pos 1 ≡ pos n
unfolding ◌+ℤ◌ ◌-ℤ◌
back zero = refl
back (suc n) = ground arith

seq_of-mod : (i : ℤ) (n : ℕ) → to_uint32 i ≡ n → seq_of i ≡ n % 2 ^ 14
unfolding seq_of
seq_of-mod i n e = ap make_seq e ∙ make_seq-mod n

pred_suc : (n : ℕ) → pos (suc n) -ℤ pos 1 ≡ pos n
unfolding ◌+ℤ◌ ◌-ℤ◌
pred_suc n = ground arith

seq_of-back : (n : ℕ) → (seq_of (pos n -ℤ pos 1) + 1) % 2 ^ 14 ≡ seq_of (pos n)
unfolding ◌+ℤ◌ ◌-ℤ◌
seq_of-back zero =
    omega (arith, seq_of-mod (pos 0 -ℤ pos 1) (2 ^ 32 - 1) refl, seq_of-mod (pos 0) 0 refl)
seq_of-back (suc n) = omega (
  arith,
  seq_of-mod (pos (suc n) -ℤ pos 1) (n % 2 ^ 32) (ap to_uint32 (pred_suc n)),
  seq_of-mod (pos (suc n)) (suc n % 2 ^ 32) refl,
)

seq_of-IsSeq : (i : ℤ) → IsSeq (seq_of i)
unfolding seq_of
seq_of-IsSeq i = make_seq-IsSeq (to_uint32 i)

subst2 :
    {X Y : Type 0} (P : X → Y → Type 0) {x x' : X} {y y' : Y} → x ≡ x' → y ≡ y' → P x y → P x' y'
subst2 P {x} {x'} {y} {y'} e f p = subst (P x') f (subst (λ t. P t y) e p)

module _ {B S R : Type 0} where
  -- The packet notification of `a` expects from `b` the number that `b` sends next, has nothing to
  -- acknowledge and waits for no packet of its own.
  pub record AreInStep (a : Connection B R) (b : Connection B S) : Type 0 where
    pub number : (a.packet_notify.in_seq + 1) % 2 ^ 14 ≡ b.packet_notify.out_seq
    pub of_id : a.packet_notify.out_seq ≡ seq_of a.out_packet_id
    pub acknowledged_all : a.packet_notify.in_ack_seq ≡ a.packet_notify.in_seq
    pub known_all : a.packet_notify.in_ack_seq_ack ≡ a.packet_notify.in_seq
    pub none_sent :
        ((a.packet_notify.out_ack_seq + 1) % 2 ^ 14 ≡ a.packet_notify.out_seq)
        × (a.packet_notify.ack_record ≡ [])
    pub no_flush : a.packet_notify.waiting_for_flush_seq_ack ≡ a.packet_notify.out_ack_seq

  -- Two ends of a connection that expect of each other what the other sends next.
  pub record IsTuned (server : Connection B R) (client : Connection B S) : Type 0 where
    pub up : server.in_packet_id +ℤ pos 1 ≡ client.out_packet_id
    pub down : client.in_packet_id +ℤ pos 1 ≡ server.out_packet_id
    pub up_reliable : server.init_in_reliable ≡ client.init_out_reliable
    pub down_reliable : client.init_in_reliable ≡ server.init_out_reliable

  init-AreInStep :
      (a : Connection B R) (b : Connection B S) (m n : ℕ)
      → AreInStep (first_sequence a (pos m) (pos n)) (first_sequence b (pos n) (pos m))
  unfolding first_sequence Notify.init
  init-AreInStep a b m n = record {
    number = seq_of-back m;
    of_id = refl;
    acknowledged_all = refl;
    known_all = refl;
    none_sent =
        (omega (arith, seq_sub-mod (seq_of (pos n)) 1 (omega arith), seq_of-IsSeq (pos n)), refl);
    no_flush = refl;
  }

  first_sequence-IsTuned :
      (server : Connection B R) (client : Connection B S) (m n : ℕ)
      → IsTuned (first_sequence server (pos m) (pos n)) (first_sequence client (pos n) (pos m))
  unfolding first_sequence
  first_sequence-IsTuned server client m n = record {
    up = back m;
    down = back n;
    up_reliable = refl;
    down_reliable = refl;
  }

module _ {B : Type 0} where
  -- The channels after the sequence was set, beside those before: each is still there, counts from the
  -- reliable numbers `in_reliable` and `out_reliable`, and holds no bunch but those of its builder.
  abbrev pub AllFresh : ℕ → ℕ → List (Option (NetChannel B)) → List (Option (NetChannel B)) → Type 0
  AllFresh in_reliable out_reliable [] [] = Unit {0}
  AllFresh in_reliable out_reliable (none ∷ before) (none ∷ after) =
      AllFresh in_reliable out_reliable before after
  AllFresh in_reliable out_reliable (some old ∷ before) (some ch ∷ after) =
      (ch.receiving.in_reliable ≡ in_reliable)
      × (ch.receiving.in_unread_bunch_map ≡ [])
      × (ch.out_reliable ≡ out_reliable)
      × (ch.sending ≡ record old.sending { out_bunch_queue = []; out_un_acked_bunches = [] })
      × AllFresh in_reliable out_reliable before after
  AllFresh in_reliable out_reliable before after = ⊥

  update_all-AllFresh :
      (in_reliable out_reliable : ℕ) (channels : List (Option (NetChannel B)))
      → AllFresh in_reliable out_reliable channels (update_all in_reliable out_reliable channels)
  unfolding update_all update_channel_seq
  update_all-AllFresh in_reliable out_reliable [] = tt
  update_all-AllFresh in_reliable out_reliable (none ∷ rest) =
      update_all-AllFresh in_reliable out_reliable rest
  update_all-AllFresh in_reliable out_reliable (some ch ∷ rest) =
      (refl, refl, refl, refl, update_all-AllFresh in_reliable out_reliable rest)

module _ {B R : Type 0} where
  -- `after` starts over from `before`: its channels are fresh, and nothing of an earlier sequence waits.
  pub record IsFresh (before after : Connection B R) : Type 0 where
    pub channels :
        AllFresh after.init_in_reliable after.init_out_reliable before.channels after.channels
    pub recorded : after.channel_record.entry_record ≡ []
    pub waiting : after.pending_readers ≡ []
    pub counted : after.init_out_reliable ≡ to_uint32 after.out_packet_id % 1024
    pub settled_next : after.last_notified_send_packet_id +ℤ pos 1 ≡ after.out_packet_id

  first_sequence-IsFresh :
      (c : Connection B R) (m n : ℕ) → IsFresh c (first_sequence c (pos m) (pos n))
  unfolding first_sequence
  first_sequence-IsFresh c m n = record {
    channels = update_all-AllFresh _ _ c.channels;
    recorded = refl;
    waiting = refl;
    counted = refl;
    settled_next = back n;
  }

module _ {A : Type 0} (cookie : A → ℕ → List ℕ) (secret_id : ℕ) where
  answer-right :
      (key now : ℕ) (d : HandshakeData) (p : PendingRemoteConnection A)
      → d.handshake_packet_type ≡ response
      → d.cookie_bytes ≡ cookie p.address p.cookie_time
      → p.cookie_time ≤ now
      → now < p.cookie_time + 40000000
      → answer cookie secret_id key now d p ≡ complete cookie secret_id key d p
  unfolding answer valid_cookie_lifetime
  answer-right key now d p r e noted fresh =
      let alive : (leb p.cookie_time now && ltb 0 (40000000 - (now - p.cookie_time))) ≡ true =
        ground (arith, noted, fresh) in
      rw (r, e, alive, eq_bytes_self (cookie p.address p.cookie_time)) refl

module _ {B R : Type 0} where
  init_sequence-first :
      (c : Connection B R) (incoming outgoing : ℤ)
      → c.in_packet_id ≡ negsuc 0
      → init_sequence c incoming outgoing ≡ (true, first_sequence c incoming outgoing)
  unfolding init_sequence
  init_sequence-first c incoming outgoing e =
      let first : eq_ℤ c.in_packet_id (negsuc 0) ≡ true = rw (e) refl in rw (first) refl

module _ {A B S : Type 0} where
  incoming_client-acknowledged :
      (later : ℕ) (d : HandshakeData) (c : Client A B S)
      → is_open c.state ≡ true
      → c.server_connection.in_packet_id ≡ negsuc 0
      → d.handshake_packet_type ≡ ack
      → d.time_stamp ≡ negsuc 999999
      → (incoming_client later d c).1
        ≡ acknowledged
            (record c { pending = touch later c.pending })
            (
              true,
              first_sequence c.server_connection
                  (pos (server_sequence_of d.cookie_bytes))
                  (pos (client_sequence_of d.cookie_bytes)),
            )
  unfolding incoming_client
  incoming_client-acknowledged later d c o e t stamp =
      let first =
        init_sequence-first c.server_connection (pos (server_sequence_of d.cookie_bytes))
          (pos (client_sequence_of d.cookie_bytes)) e in
      rw (o, t, stamp) (rw (first) refl)

module _ {A B R S : Type 0} (cookie : A → ℕ → List ℕ) (secret_id : ℕ) where
  -- What the right answer to a challenge leads to.
  pub record HasAgreed (key : ℕ) (p : PendingRemoteConnection A)
      (answered : List (Output A) × PendingRemoteConnection A) (later : ℕ) (new : Connection B R)
      (c : Client A B S) : Type 0 where
    pub acknowledgement : HandshakeData
    pub outputs : answered.0 ≡ client_added key answered.1 ∷ sent p.address acknowledgement ∷ []
    pub finished : (incoming_client later acknowledgement c).1.state ≡ initialized
    pub tuned :
        IsTuned
          (add_client_sequence new answered.1).1
          (incoming_client later acknowledgement c).1.server_connection
    pub server_in_step :
        AreInStep
          (add_client_sequence new answered.1).1
          (incoming_client later acknowledgement c).1.server_connection
    pub client_in_step :
        AreInStep
          (incoming_client later acknowledgement c).1.server_connection
          (add_client_sequence new answered.1).1
    pub server_fresh : IsFresh new (add_client_sequence new answered.1).1
    pub client_fresh :
        IsFresh c.server_connection (incoming_client later acknowledgement c).1.server_connection

  -- Where a response with the cookie of its address arrives at a server less than forty seconds after
  -- the time noted for the cookie, and the acknowledgement reaches a client that waits for it, both
  -- with connections that have no sequence yet: the server adds the client and then acknowledges, the
  -- client is initialized, and each end expects next the packet id, the sequence number and the
  -- reliable numbers that the other end starts with. Both start fresh: no packet is outstanding, to be
  -- acknowledged, recorded or waiting, no flush is on, and every channel that was there is there, counts
  -- from those reliable numbers and holds no bunch but those of its builder.
  pub answer-HasAgreed :
      (key now : ℕ) (d : HandshakeData) (p : PendingRemoteConnection A) (later : ℕ)
      (new : Connection B R) (c : Client A B S)
      → d.handshake_packet_type ≡ response
      → d.cookie_bytes ≡ cookie p.address p.cookie_time
      → p.cookie_time ≤ now
      → now < p.cookie_time + 40000000
      → new.in_packet_id ≡ negsuc 0
      → is_open c.state ≡ true
      → c.server_connection.in_packet_id ≡ negsuc 0
      → HasAgreed key p (answer cookie secret_id key now d p) later new c
  unfolding complete send_challenge_ack packet_of add_client_sequence acknowledged
  answer-HasAgreed key now d p later new c r e noted fresh none_yet waits none_there =
      let m = client_sequence_of (cookie p.address p.cookie_time) in
      let n = server_sequence_of (cookie p.address p.cookie_time) in
      let q = record p {
        handshake_packet_type = ack;
        server_sequence = n;
        client_sequence = m;
        b_handshake_complete = true;
      } in
      let a = packet_of cookie secret_id q 1 (negsuc 999999) (cookie p.address p.cookie_time) in
      let got = incoming_client-acknowledged later a c waits none_there refl refl in
      let began = init_sequence-first new (pos m) (pos n) none_yet in
      let on_server : (first_sequence new (pos m) (pos n)) ≡ (init_sequence new (pos m) (pos n)).1 =
        sym (ap (λ t. t.1) began) in
      let on_client : first_sequence c.server_connection (pos n) (pos m)
          ≡ (incoming_client later a c).1.server_connection =
        sym (ap (λ t. t.server_connection) got) in
      rw (answer-right cookie secret_id key now d p r e noted fresh, e)
        (record {
          acknowledgement = a;
          outputs = refl;
          finished = ap (λ t. t.state) got;
          tuned =
              subst2 IsTuned on_server on_client
                (first_sequence-IsTuned new c.server_connection m n);
          server_in_step =
              subst2 AreInStep on_server on_client (init-AreInStep new c.server_connection m n);
          client_in_step =
              subst2 AreInStep on_client on_server (init-AreInStep c.server_connection new n m);
          server_fresh = subst (IsFresh new) on_server (first_sequence-IsFresh new m n);
          client_fresh =
              subst (IsFresh c.server_connection) on_client
                (first_sequence-IsFresh c.server_connection n m);
        })
