-- ===== src/Connection/Assembling/Rounds.antt =====
-- A round of `AssembleOutgoingPackets` over the channels.
use mathlib.Core.List.{append_assoc, append-nil}
use mathlib.Core.Bool.{false≢true}
use native.Mathlib.Nat.{mod-eq_of_lt}
use rudp_network_engine.Prelude.{
  ℕ, suc, ◌+◌, ◌%◌, ◌≤◌, ◌<◌, ◌≡◌, refl, sym, ap, ◌∙◌, subst, Bool, true, false, List, [], ◌∷◌,
  ◌++◌, Option, none, some, length, length-append, set, get_elem?, arith,
}
use rudp_network_engine.Prelude.Int.{ℤ}
use rudp_network_engine.Channel.Building.{OutReadyBunch}
use rudp_network_engine.Connection.{NetChannel}
use rudp_network_engine.Connection.Assembling.{
  Assembly, drain, visit_channel, visit, if_round, for_channels,
}
use rudp_network_engine.Connection.Assembling.Packed.{kept, AreSmall, IsPacked}
use rudp_network_engine.Connection.Assembling.Draining.{drain-HasPlaced}

module _ {ℓ} {A : Type ℓ} where
  get_elem?-middle :
      (xs : List A) (y : A) (ys : List A) → get_elem? (xs ++ (y ∷ ys)) (length xs) ≡ some y
  get_elem?-middle [] y ys = refl
  get_elem?-middle (x ∷ xs) y ys = get_elem?-middle xs y ys

  set-middle :
      (xs : List A) (y z : A) (ys : List A) → set (xs ++ (y ∷ ys)) (length xs) z ≡ xs ++ (z ∷ ys)
  set-middle [] y z ys = refl
  set-middle (x ∷ xs) y z ys = ap (λ t. x ∷ t) (set-middle xs y z ys)

module _ {M : Type 0} where
  abbrev pub queue_of : Option (NetChannel (OutReadyBunch M)) → List (OutReadyBunch M)
  queue_of none = []
  queue_of (some ch) = ch.sending.out_bunch_queue

  abbrev pub un_acked_of : Option (NetChannel (OutReadyBunch M)) → ℕ
  un_acked_of none = 0
  un_acked_of (some ch) = length ch.sending.out_un_acked_bunches

  -- The bunches that wait in the channels and are not given up, channel by channel.
  abbrev pub all_kept : List (Option (NetChannel (OutReadyBunch M))) → List (OutReadyBunch M)
  all_kept [] = []
  all_kept (x ∷ rest) = kept (queue_of x) ++ all_kept rest

  -- Each bunch that waits has at most 1014 bytes, and the channel has room for all.
  abbrev pub IsReady : Option (NetChannel (OutReadyBunch M)) → Type 0
  IsReady x = AreSmall (queue_of x) × (un_acked_of x + length (queue_of x) ≤ 512)

  abbrev pub AreReady : List (Option (NetChannel (OutReadyBunch M))) → Type 0
  AreReady [] = Unit {0}
  AreReady (x ∷ rest) = IsReady x × AreReady rest

  abbrev pub AreEmpty : List (Option (NetChannel (OutReadyBunch M))) → Type 0
  AreEmpty [] = Unit {0}
  AreEmpty (x ∷ rest) = (queue_of x ≡ []) × AreEmpty rest

  AreEmpty-snoc :
      (xs : List (Option (NetChannel (OutReadyBunch M))))
      (y : Option (NetChannel (OutReadyBunch M)))
      → AreEmpty xs
      → queue_of y ≡ []
      → AreEmpty (xs ++ (y ∷ []))
  AreEmpty-snoc [] y h e = (e, tt)
  AreEmpty-snoc (x ∷ xs) y h e = (h.0, AreEmpty-snoc xs y h.1 e)

module _ {M R : Type 0} where
  -- What visiting the channel between `before` and `rest` leaves.
  record HasVisited (first : ℤ) (taken : List (OutReadyBunch M))
      (before rest : List (Option (NetChannel (OutReadyBunch M)))) (r : Bool × Bool × Assembly M R)
      : Type 0 where
    goes_on : r.0 ≡ true
    packed : IsPacked first taken r.2
    now : Option (NetChannel (OutReadyBunch M))
    empty : queue_of now ≡ []
    same_channels : r.2.connection.channels ≡ before ++ (now ∷ rest)

  visit_channel-HasVisited :
      (first : ℤ) (taken : List (OutReadyBunch M)) (a : Assembly M R) (progress : Bool)
      (before rest : List (Option (NetChannel (OutReadyBunch M))))
      (ch : NetChannel (OutReadyBunch M)) (queue : List (OutReadyBunch M))
      → IsPacked first taken a
      → a.connection.channels ≡ before ++ (some ch ∷ rest)
      → ch.sending.out_bunch_queue ≡ queue
      → AreSmall queue
      → length ch.sending.out_un_acked_bunches + length queue ≤ 512
      → HasVisited first
          (taken ++ kept queue)
          before
          rest
          (visit_channel a progress (length before) ch queue)
  unfolding visit_channel
  visit_channel-HasVisited first taken a progress before rest ch [] h c e small room = record {
    goes_on = refl;
    packed = subst (λ bs. IsPacked first bs a) (sym (append-nil taken)) h;
    now = some ch;
    empty = e;
    same_channels = c;
  }
  visit_channel-HasVisited first taken a progress before rest ch (b ∷ queue) h c e small room =
      let i = length before in
      let r = drain a i ch (b ∷ queue) in
      let d =
        drain-HasPlaced first taken a i ch (b ∷ queue) (length ch.sending.out_un_acked_bunches) h
          small e (omega arith) room in
      record {
        goes_on = d.goes_on;
        packed = record {
          ready = d.packed.ready;
          next_id = d.packed.next_id;
          current = d.packed.current;
          contents = d.packed.contents;
        };
        now = some r.1;
        empty = d.left;
        same_channels =
            ap (λ cs. set cs i (some r.1)) (d.same_channels ∙ c)
            ∙ set-middle before (some ch) (some r.1) rest;
      }

  visit-HasVisited :
      (first : ℤ) (taken : List (OutReadyBunch M)) (a : Assembly M R) (progress : Bool)
      (before rest : List (Option (NetChannel (OutReadyBunch M))))
      (x : Option (NetChannel (OutReadyBunch M)))
      → IsPacked first taken a
      → a.connection.channels ≡ before ++ (x ∷ rest)
      → IsReady x
      → HasVisited first
          (taken ++ kept (queue_of x))
          before
          rest
          (visit a progress (length before) (some x))
  unfolding visit
  visit-HasVisited first taken a progress before rest none h c ready = record {
    goes_on = refl;
    packed = subst (λ bs. IsPacked first bs a) (sym (append-nil taken)) h;
    now = none;
    empty = refl;
    same_channels = c;
  }
  visit-HasVisited first taken a progress before rest (some ch) h c ready =
      visit_channel-HasVisited first taken a progress before rest ch ch.sending.out_bunch_queue h c
        refl ready.0 ready.1

  -- What a round over the channels leaves.
  pub record HasGoneRound (first : ℤ) (taken : List (OutReadyBunch M))
      (r : Bool × Bool × Assembly M R) : Type 0 where
    pub goes_on : r.0 ≡ true
    pub packed : IsPacked first taken r.2
    pub empty : AreEmpty r.2.connection.channels

  if_round-goes_on :
      (later : Bool → Assembly M R → Bool × Bool × Assembly M R) (r : Bool × Bool × Assembly M R)
      → r.0 ≡ true
      → if_round later r ≡ later r.1 r.2
  if_round-goes_on later (true, progress, a) t = refl
  if_round-goes_on later (false, progress, a) t = absurd (false≢true t)

  for_channels-step :
      (left i : ℕ) (progress : Bool) (a : Assembly M R) (x : Option (NetChannel (OutReadyBunch M)))
      → i < length a.connection.channels
      → get_elem? a.connection.channels i ≡ some x
      → (visit a progress i (some x)).0 ≡ true
      → for_channels (suc left) 0 i progress a
        ≡ (let v = visit a progress i (some x) in for_channels left 0 (i + 1) v.1 v.2)
  unfolding for_channels
  for_channels-step left i progress a x lt e t =
      let cs = a.connection.channels in
      let later = for_channels {M = M} {R = R} left 0 (i + 1) in
      let k : (0 + i) % length cs ≡ i =
        mod-eq_of_lt {n = 0 + i} (omega (arith, lt)) ∙ omega arith in
      ap (λ n. if_round later (visit a progress n (get_elem? cs n))) k
      ∙ ap (λ o. if_round later (visit a progress i o)) e
      ∙ if_round-goes_on later (visit a progress i (some x)) t

  -- The channels in order, from the place where those `before` have been visited.
  pub for_channels-HasGoneRound :
      (first : ℤ) (taken : List (OutReadyBunch M)) (a : Assembly M R) (progress : Bool)
      (before rest : List (Option (NetChannel (OutReadyBunch M)))) (i : ℕ)
      → IsPacked first taken a
      → a.connection.channels ≡ before ++ rest
      → length before ≡ i
      → AreEmpty before
      → AreReady rest
      → HasGoneRound first (taken ++ all_kept rest) (for_channels (length rest) 0 i progress a)
  for_channels-HasGoneRound first taken a progress before [] i h c e empty ready =
      unfold for_channels in
      record {
        goes_on = refl;
        packed = subst (λ bs. IsPacked first bs a) (sym (append-nil taken)) h;
        empty = subst AreEmpty (sym (c ∙ append-nil before)) empty;
      }
  for_channels-HasGoneRound first taken a progress before (x ∷ rest) i h c e empty ready =
      let shape =
        subst
          (λ n.
            HasVisited first (taken ++ kept (queue_of x)) before rest (visit a progress n (some x)))
          e (visit-HasVisited first taken a progress before rest x h c ready.0) in
      let v = visit a progress i (some x) in
      let below : i < length a.connection.channels =
        omega (arith, e, ap length c, length-append before (x ∷ rest)) in
      let found : get_elem? a.connection.channels i ≡ some x =
        ap (λ cs. get_elem? cs i) c
        ∙ subst (λ n. get_elem? (before ++ (x ∷ rest)) n ≡ some x) e
            (get_elem?-middle before x rest) in
      let longer : length (before ++ (shape.now ∷ [])) ≡ i + 1 =
        omega (arith, e, length-append before (shape.now ∷ [])) in
      let later =
        for_channels-HasGoneRound first (taken ++ kept (queue_of x)) v.2 v.1
          (before ++ (shape.now ∷ [])) rest (i + 1) shape.packed
          (shape.same_channels ∙ sym (append_assoc before (shape.now ∷ []) rest)) longer
          (AreEmpty-snoc before shape.now empty shape.empty) ready.1 in
      rw
        (
          for_channels-step (length rest) i progress a x below found shape.goes_on,
          ← append_assoc taken (kept (queue_of x)) (all_kept rest),
        )
        later
