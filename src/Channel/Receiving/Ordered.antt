-- ===== src/Channel/Receiving/Ordered.antt =====
-- A reliable channel passes the messages of the bunches on in the order of the sequence numbers, each
-- bunch once, whatever the order of the arrivals and however often a bunch arrives.
use mathlib.Core.List.{append_assoc}
use rudp_network_engine.Prelude.{
  ℕ, zero, suc, ◌+◌, ◌^◌, ◌<◌, ◌≡◌, refl, sym, ap, ◌∙◌, Bool, true, false, List, [], ◌∷◌, ◌++◌, ltb,
  ◌==◌, if◌then◌else◌, arith, ==_iff, Bool-cases, inl, inr,
}
use rudp_network_engine.Channel.Receiving.{
  InBunch, RecvState, Message, dispatch, next, add_unread, drain, dispatch_raw_bunch, receive_bunch,
}

-- `content k` is the bunch that the peer sends with the sequence number `k`.
module _ (content : ℕ → InBunch) where
  -- The messages of the `count` bunches after the one with the number `i`.
  abbrev pub messages_after : ℕ → ℕ → List Message
  messages_after i zero = []
  messages_after i (suc count) = (dispatch (content (i + 1))).1 ++ messages_after (i + 1) count

  -- The bunches kept for later are the peer's.
  abbrev pub Holds : List (ℕ × InBunch) → Type 0
  Holds [] = Unit {0}
  Holds (e ∷ rest) = (e.1 ≡ content e.0) × (0 < e.0) × (e.0 < 2 ^ 32) × Holds rest

  -- What is passed on from the number `i` on: the messages of the `count` bunches after it, in order.
  pub record Advanced (i : ℕ) (out : List Message × ℕ × List (ℕ × InBunch)) : Type 0 where
    pub count : ℕ
    pub messages : out.0 ≡ messages_after i count
    pub arrives : out.1 ≡ i + count
    pub below : out.1 < 2 ^ 32
    pub holds : Holds out.2

  messages_after-add :
      (i m n : ℕ) → messages_after i (m + n) ≡ messages_after i m ++ messages_after (i + m) n
  messages_after-add i zero n =
      let e : 0 + n ≡ n = omega arith in
      let e' : i ≡ i + 0 = omega arith in ap (messages_after i) e ∙ ap (λ j. messages_after j n) e'
  messages_after-add i (suc m) n =
      let e : suc m + n ≡ suc (m + n) = omega arith in
      let e' : i + 1 + m ≡ i + suc m = omega arith in
      let first = (dispatch (content (i + 1))).1 in
      ap (messages_after i) e
      ∙ ap (λ t. first ++ t) (messages_after-add (i + 1) m n)
      ∙ ap (λ j. first ++ (messages_after (i + 1) m ++ messages_after j n)) e'
      ∙ sym (append_assoc first (messages_after (i + 1) m) (messages_after (i + suc m) n))

  Holds-if : (b : Bool) (x y : List (ℕ × InBunch)) → Holds x → Holds y → Holds (if b then x else y)
  Holds-if true x y h k = h
  Holds-if false x y h k = k

  Holds-add_unread :
      (key : ℕ) (m : List (ℕ × InBunch))
      → 0 < key
      → key < 2 ^ 32
      → Holds m
      → Holds (add_unread key (content key) m)
  unfolding add_unread
  Holds-add_unread key [] h k o = (refl, h, k, tt)
  Holds-add_unread key (e ∷ m) h k o =
      Holds-if (e.0 == key) _ _ o
        (Holds-if (ltb key e.0) _ _ (refl, h, k, o) (o.0, o.1, o.2, Holds-add_unread key m h k o.3))

  Advanced-none : (i : ℕ) (m : List (ℕ × InBunch)) → i < 2 ^ 32 → Holds m → Advanced i ([], i, m)
  Advanced-none i m h o = record {
    count = 0;
    messages = refl;
    arrives = omega arith;
    below = h;
    holds = o;
  }

  Advanced-suc :
      (i : ℕ) (d : List Message × ℕ × List (ℕ × InBunch))
      → Advanced (i + 1) d
      → Advanced i ((dispatch (content (i + 1))).1 ++ d.0, d.1, d.2)
  Advanced-suc i d a = record {
    count = suc a.count;
    messages = rw (a.messages) refl;
    arrives = omega (arith, a.arrives);
    below = a.below;
    holds = a.holds;
  }

  drain-Advanced :
      (i : ℕ) (m : List (ℕ × InBunch))
      → ((k : ℕ) → (dispatch (content k)).0 ≡ true)
      → i < 2 ^ 32
      → Holds m
      → Advanced i (drain true i m)
  unfolding drain
  drain-Advanced i [] good h o = Advanced-none i [] h o
  drain-Advanced i (e ∷ m) good h o = elim (Bool-cases (e.0 == next i)) [
    | inl t ↦
        let n : e.0 ≡ i + 1 = omega (arith, (==_iff e.0 (next i)).0 t, o.2) in
        let n' : next i ≡ i + 1 = omega (arith, (==_iff e.0 (next i)).0 t, n) in
        let c : e.1 ≡ content (i + 1) = o.0 ∙ ap content n in
        let rest = drain-Advanced (i + 1) m good (omega (arith, n, o.2)) o.3 in
        rw (t, n', c, good (i + 1)) (Advanced-suc i (drain true (i + 1) m) rest)
    | inr f ↦ rw (f) (Advanced-none i (e ∷ m) h o)
  ]

  -- A state of a reliable channel that keeps only bunches of the peer.
  pub record IsReceiving (s : RecvState) : Type 0 where
    pub reliable : s.b_reliable ≡ true
    pub below : s.in_reliable < 2 ^ 32
    pub holds : Holds s.in_unread_bunch_map

  -- The arrivals of the bunches with these numbers: the messages passed on, and the state after.
  abbrev pub receive_all : RecvState → List ℕ → List Message × RecvState
  receive_all s [] = ([], s)
  receive_all s (k ∷ ks) =
      let first = receive_bunch s true k (content k) in
      let rest = receive_all first.1 ks in (first.0 ++ rest.0, rest.1)

  abbrev pub AreNumbers : List ℕ → Type 0
  AreNumbers [] = Unit {0}
  AreNumbers (k ∷ ks) = (0 < k) × (k < 2 ^ 32) × AreNumbers ks

  abbrev pub outcome : List Message × RecvState → List Message × ℕ × List (ℕ × InBunch)
  outcome r = (r.0, r.1.in_reliable, r.1.in_unread_bunch_map)

  pub receive_bunch-Advanced :
      (s : RecvState) (k : ℕ)
      → ((k : ℕ) → (dispatch (content k)).0 ≡ true)
      → IsReceiving s
      → 0 < k
      → k < 2 ^ 32
      → Advanced s.in_reliable (outcome (receive_bunch s true k (content k)))
        × (receive_bunch s true k (content k)).1.b_reliable ≡ true
  unfolding receive_bunch dispatch_raw_bunch
  receive_bunch-Advanced s k good v h h' = elim (Bool-cases (k == next s.in_reliable)) [
    | inl t ↦
        let n : k ≡ s.in_reliable + 1 = omega (arith, (==_iff k (next s.in_reliable)).0 t, h) in
        let n' : next s.in_reliable ≡ s.in_reliable + 1 =
          omega (arith, (==_iff k (next s.in_reliable)).0 t, n) in
        let rest =
          drain-Advanced (s.in_reliable + 1) s.in_unread_bunch_map good (omega (arith, n))
            v.holds in
        rw (t, good k, n', n, v.reliable) (Advanced-suc s.in_reliable _ rest, refl)
    | inr f ↦ rw (f) (
      Advanced-none s.in_reliable _ v.below (Holds-add_unread k s.in_unread_bunch_map h h' v.holds),
      v.reliable,
    )
  ]

  Advanced-append :
      (i : ℕ) (d d' : List Message × ℕ × List (ℕ × InBunch))
      → Advanced i d
      → Advanced d.1 d'
      → Advanced i (d.0 ++ d'.0, d'.1, d'.2)
  Advanced-append i d d' a b =
      let e : b.count + a.count ≡ a.count + b.count = omega arith in
      record {
        count = a.count + b.count;
        messages =
            ap (λ t. t ++ d'.0) a.messages
            ∙ ap (λ t. messages_after i a.count ++ t) b.messages
            ∙ ap (λ j. messages_after i a.count ++ messages_after j b.count) a.arrives
            ∙ sym (messages_after-add i a.count b.count);
        arrives = omega (arith, a.arrives, b.arrives);
        below = b.below;
        holds = b.holds;
      }

  -- Where every bunch of the peer can be read, the channel holds only bunches of the peer and the
  -- numbers that arrive lie from 1 to 2 ^ 32 - 1, the messages passed on are, in order, those of the
  -- bunches from the number after `InReliable` up to the new `InReliable`, each bunch once.
  pub receive_all-Advanced :
      (s : RecvState) (ks : List ℕ)
      → ((k : ℕ) → (dispatch (content k)).0 ≡ true)
      → IsReceiving s
      → AreNumbers ks
      → Advanced s.in_reliable (outcome (receive_all s ks))
  receive_all-Advanced s [] good v h = Advanced-none s.in_reliable _ v.below v.holds
  receive_all-Advanced s (k ∷ ks) good v h =
      let first = receive_bunch-Advanced s k good v h.0 h.1 in
      let s₁ = (receive_bunch s true k (content k)).1 in
      let v₁ : IsReceiving s₁ = record {
        reliable = first.1;
        below = first.0.below;
        holds = first.0.holds;
      } in
      Advanced-append s.in_reliable (outcome (receive_bunch s true k (content k)))
        (outcome (receive_all s₁ ks)) first.0 (receive_all-Advanced s₁ ks good v₁ h.2)
