-- ===== src/Connection/Dispatching/Fuel.antt =====
-- The loop of `DispatchPacket` ends: the length of the payload is enough fuel.
use rudp_network_engine.Prelude.{
  ℕ, zero, suc, ◌-◌, ◌≤◌, ◌<◌, ◌≡◌, refl, Bool, true, false, not, ◌&&◌, ◌||◌, Option, none, some,
  length, length-drop, get_elem?, get_or, set, ltb, leb, ◌==◌, if◌then◌else◌, arith, Bool-cases,
  inl, inr,
}
use rudp_network_engine.Channel.Receiving.{BufferReader, can_read, read_view, next}
use rudp_network_engine.Connection.{NetChannel}
use rudp_network_engine.Connection.Dispatching.{
  BunchHeaderFields, Dispatched, fail, round_in, read_fields, channel_for, dispatch_round, go_on,
  dispatch_loop, min_bunch_header_bytes, receive_in, sequence_in,
}

read_view-le : (r : BufferReader) (n : ℕ) → length (read_view r n).1.view ≤ length r.view
unfolding read_view
read_view-le r n = ground (arith, length-drop n r.view)

read_view-one :
    (r : BufferReader) → can_read r 1 ≡ true → length (read_view r 1).1.view < length r.view
unfolding read_view can_read
read_view-one r h = ground (arith, length-drop 1 r.view)

-- What is left, if the loop goes on, is shorter than `n`.
abbrev LeftBelow : ℕ → Option BufferReader → Type 0
LeftBelow n none = Unit {0}
LeftBelow n (some r) = length r.view < n

LeftBelow-server :
    (b : Bool) (n : ℕ) (r : BufferReader)
    → length r.view < n
    → LeftBelow n (if b then none else some r)
LeftBelow-server true n r h = tt
LeftBelow-server false n r h = h

module _ {B : Type 0} where
  LeftBelow-if :
      (b : Bool) (n : ℕ) (x y : Dispatched B × Option BufferReader)
      → LeftBelow n x.1
      → LeftBelow n y.1
      → LeftBelow n (if b then x else y).1
  LeftBelow-if true n x y h k = h
  LeftBelow-if false n x y h k = k

  round_in-LeftBelow :
      (is_server : Bool) (d : Dispatched B) (f : BunchHeaderFields) (r : BufferReader)
      (ch : Option (NetChannel B)) (n : ℕ)
      → length r.view < n
      → LeftBelow n (round_in is_server d f r ch).1
  unfolding round_in
  round_in-LeftBelow is_server d f r none n h = tt
  round_in-LeftBelow is_server d f r (some ch) n h =
      let shorter : length (read_view r f.payload_size).1.view < n =
        omega (arith, read_view-le r f.payload_size) in
      LeftBelow-if
        (f.b_reliable && not (sequence_in ch f == next ch.receiving.in_reliable)
          || leb f.ch_index 1)
        n
        (
          receive_in d ch f (sequence_in ch f) (read_view r f.payload_size).0,
          some (read_view r f.payload_size).1,
        )
        (
          fail (record d { channels = set d.channels f.ch_index (some ch) }),
          (if is_server then none else some (read_view r f.payload_size).1),
        )
        shorter (LeftBelow-server is_server n (read_view r f.payload_size).1 shorter)

  module _ (create : ℕ → Bool → Option (NetChannel B)) (is_server : Bool) where
    dispatch_round-LeftBelow :
        (d : Dispatched B) (r : BufferReader)
        → can_read r 1 ≡ true
        → LeftBelow (length r.view) (dispatch_round create is_server d r).1
    unfolding dispatch_round
    dispatch_round-LeftBelow d r h =
        let size = read_view r 1 in
        let header = read_view size.1 (get_or size.0 0 0 - 1) in
        let f = read_fields header.0 in
        let inner =
          round_in is_server d f header.1
            (channel_for create f (get_elem? d.channels f.ch_index)) in
        let n = length r.view in
        let unknown = leb 128 f.ch_index || leb (length d.channels) f.ch_index in
        LeftBelow-if (ltb (get_or size.0 0 0) min_bunch_header_bytes || length header.0 == 0) n
          (fail d, none) (if unknown then (fail d, none) else inner) tt
          (LeftBelow-if unknown n (fail d, none) inner tt
            (round_in-LeftBelow is_server d f header.1
              (channel_for create f (get_elem? d.channels f.ch_index)) n
              (omega (arith, read_view-one r h, read_view-le size.1 (get_or size.0 0 0 - 1)))))

    go_on-same :
        (n : ℕ) (later later' : Dispatched B → BufferReader → Dispatched B)
        (x : Dispatched B × Option BufferReader)
        → LeftBelow n x.1
        → ((d : Dispatched B) (r : BufferReader) → length r.view < n → later d r ≡ later' d r)
        → go_on later x ≡ go_on later' x
    go_on-same n later later' (d, none) h k = refl
    go_on-same n later later' (d, some r) h k = k d r h

    can_read-nothing : (r : BufferReader) → length r.view ≤ 0 → can_read r 1 ≡ false
    unfolding can_read
    can_read-nothing r h = ground arith

    -- More fuel than bytes changes nothing.
    pub dispatch_loop-fuel :
        (fuel fuel' : ℕ) (d : Dispatched B) (r : BufferReader)
        → length r.view ≤ fuel
        → length r.view ≤ fuel'
        → dispatch_loop create is_server fuel d r ≡ dispatch_loop create is_server fuel' d r
    unfolding dispatch_loop
    dispatch_loop-fuel zero zero d r h k = refl
    dispatch_loop-fuel zero (suc fuel') d r h k = rw (can_read-nothing r h, dispatch_loop)
    dispatch_loop-fuel (suc fuel) zero d r h k = rw (can_read-nothing r k, dispatch_loop)
    dispatch_loop-fuel (suc fuel) (suc fuel') d r h k = elim (Bool-cases (can_read r 1)) [
      | inl t ↦
          rw (t, dispatch_loop)
            (go_on-same (length r.view) (dispatch_loop create is_server fuel)
              (dispatch_loop create is_server fuel') (dispatch_round create is_server d r)
              (dispatch_round-LeftBelow d r t)
              (λ d' r' lt. dispatch_loop-fuel fuel fuel' d' r' (omega arith) (omega arith)))
      | inr f ↦ rw (f, dispatch_loop)
    ]
