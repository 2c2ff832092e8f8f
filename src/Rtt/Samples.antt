-- ===== src/Rtt/Samples.antt =====
-- What a tracker measures, and that its ring and its queue keep their bounds.
use rudp_network_engine.Prelude.{
  ℕ, ◌-◌, ◌^◌, ◌≤◌, ◌<◌, ◌≡◌, refl, ap, ◌∙◌, true, false, List, [], ◌∷◌, ◌++◌, Option, some, length,
  length-append, length-drop, length-set, get_elem?, get_elem?-set_self, min, ltb, ◌==◌, arith,
}
use rudp_network_engine.Rtt.{
  Tracker, ring_size, max_pending, record_send, drop_older, take_sample, consume_front_sample,
  consume_acked, drop_equal, consume_nacked,
}

-- The bounds of a tracker.
pub record IsTracker (t : Tracker) : Type 0 where
  pub pending : length t.pending ≤ max_pending
  pub samples : length t.samples_us ≡ ring_size
  pub times : length t.sample_times_us ≡ ring_size
  pub index : t.write_index < ring_size
  pub count : t.sample_count ≤ ring_size

-- `RecordSend` keeps the bounds of the tracker: at most 8192 packets wait, and the ring has 2048 places.
record_send-IsTracker :
    (t : Tracker) (packet_id send_time_us : ℕ)
    → IsTracker t
    → IsTracker (record_send t packet_id send_time_us)
unfolding record_send
record_send-IsTracker t packet_id send_time_us v = record {
  pending = ground (
    arith,
    v.pending,
    length-append t.pending ((packet_id, send_time_us) ∷ []),
    length-drop 1 (t.pending ++ ((packet_id, send_time_us) ∷ [])),
  );
  samples = v.samples;
  times = v.times;
  index = v.index;
  count = v.count;
}

abbrev pub AllBelow : ℕ → List (ℕ × ℕ) → Type 0
AllBelow n [] = Unit {0}
AllBelow n (e ∷ rest) = (e.0 < n) × AllBelow n rest

drop_older-append :
    (packet_id time : ℕ) (older rest : List (ℕ × ℕ))
    → AllBelow packet_id older
    → drop_older packet_id (older ++ ((packet_id, time) ∷ rest)) ≡ (packet_id, time) ∷ rest
unfolding drop_older
drop_older-append packet_id time [] rest h = ground arith
drop_older-append packet_id time (e ∷ older) rest h =
    let t : ltb e.0 packet_id ≡ true = ground (arith, h.0) in
    rw (t) (drop_older-append packet_id time older rest h.1)

-- The tracker after a sample `rtt` of the front packet.
pub record Sampled (t : Tracker) (rest : List (ℕ × ℕ)) (rtt : ℕ) (out : Option ℕ × Tracker)
    : Type 0 where
  pub measured : out.0 ≡ some rtt
  pub left : out.1.pending ≡ rest
  pub stored : get_elem? out.1.samples_us t.write_index ≡ some rtt
  pub bounds : IsTracker out.1

take_sample-Sampled :
    (t : Tracker) (now_us time : ℕ)
    → IsTracker t
    → time ≤ now_us
    → Sampled t t.pending (min (now_us - time) (2 ^ 32 - 1)) (take_sample t now_us time)
unfolding take_sample
take_sample-Sampled t now_us time v h =
    let e : ltb now_us time ≡ false = ground (arith, h) in
    let rtt = min (now_us - time) (2 ^ 32 - 1) in
    rw (e) record {
      measured = refl;
      left = refl;
      stored =
          get_elem?-set_self t.samples_us t.write_index rtt (omega (arith, v.index, v.samples));
      bounds = record {
        pending = v.pending;
        samples = length-set t.samples_us t.write_index rtt ∙ v.samples;
        times = length-set t.sample_times_us t.write_index now_us ∙ v.times;
        index = omega arith;
        count = omega arith;
      };
    }

-- In a tracker within its bounds, for a packet that is measured, in front of which only older ones
-- wait and which was not sent after now, `ConsumeAcked` gives the time since it was sent, cut to 32 bits, stores it in the
-- ring, drops the packet with all older ones, and keeps the bounds.
pub consume_acked-Sampled :
    (t : Tracker) (packet_id time now_us : ℕ) (older rest : List (ℕ × ℕ))
    → IsTracker t
    → t.pending ≡ older ++ ((packet_id, time) ∷ rest)
    → AllBelow packet_id older
    → time ≤ now_us
    → Sampled t rest (min (now_us - time) (2 ^ 32 - 1)) (consume_acked t packet_id now_us)
unfolding consume_acked consume_front_sample
consume_acked-Sampled t packet_id time now_us older rest v e h k =
    let front = drop_older-append packet_id time older rest h in
    let same : (packet_id == packet_id) ≡ true = ground arith in
    let room : length rest ≤ max_pending =
      omega
        (arith, v.pending, ap (λ z. length z) e, length-append older ((packet_id, time) ∷ rest)) in
    let t₁ : Tracker = record t { pending = rest } in
    let v₁ : IsTracker t₁ = record {
      pending = room;
      samples = v.samples;
      times = v.times;
      index = v.index;
      count = v.count;
    } in
    let s = take_sample-Sampled t₁ now_us time v₁ k in
    rw (e, front, same)
      record { measured = s.measured; left = s.left; stored = s.stored; bounds = s.bounds }

-- For a packet that is measured and in front of which only older ones wait, `ConsumeNacked` drops it
-- and the older ones, and touches nothing else.
consume_nacked_lem :
    (t : Tracker) (packet_id time : ℕ) (older rest : List (ℕ × ℕ))
    → t.pending ≡ older ++ ((packet_id, time) ∷ rest)
    → AllBelow packet_id older
    → consume_nacked t packet_id ≡ record t { pending = rest }
unfolding consume_nacked drop_equal
consume_nacked_lem t packet_id time older rest e h =
    let same : (packet_id == packet_id) ≡ true = ground arith in
    ap (λ p. record t { pending = drop_equal packet_id p })
      (ap (drop_older packet_id) e ∙ drop_older-append packet_id time older rest h)
    ∙ rw (same) refl
