-- ===== src/Channel/Receiving/Complete.antt =====
-- A reliable channel leaves nothing behind as long as no bunch arrives that it passed on before.
use rudp_network_engine.Prelude.{
  ℕ, ◌+◌, ◌^◌, ◌≤◌, ◌<◌, ◌≡◌, ◌⊎◌, ap, ◌∙◌, subst, true, List, [], ◌∷◌, ltb, ◌==◌, arith, dec_lt,
  ==_iff, ltb→lt, Bool-cases, inl, inr,
}
use rudp_network_engine.Channel.Receiving.{
  InBunch, RecvState, Message, dispatch, next, add_unread, drain, dispatch_raw_bunch, receive_bunch,
}
use rudp_network_engine.Channel.Receiving.Ordered.{
  receive_all, Holds, IsReceiving, AreNumbers, receive_bunch-Advanced,
}

-- The keys of the map ascend, from above `n`.
abbrev pub Above : ℕ → List (ℕ × InBunch) → Type 0
Above n [] = Unit {0}
Above n (e ∷ rest) = (n < e.0) × Above e.0 rest

abbrev pub HasKey : ℕ → List (ℕ × InBunch) → Type 0
HasKey j [] = ⊥
HasKey j (e ∷ rest) = (e.0 ≡ j) ⊎ HasKey j rest

abbrev pub Among : ℕ → List ℕ → Type 0
Among j [] = ⊥
Among j (k ∷ ks) = (k ≡ j) ⊎ Among j ks

-- The bunch with the number `j` was passed on, or lies in the map.
abbrev pub Arrived : ℕ → ℕ → List (ℕ × InBunch) → Type 0
Arrived j i m = (j ≤ i) ⊎ HasKey j m

-- All of `m` has arrived after the loop, and what is left does not follow `InReliable`.
record Drained (i : ℕ) (m : List (ℕ × InBunch)) (d : List Message × ℕ × List (ℕ × InBunch))
    : Type 0 where
  above : Above (d.1 + 1) d.2
  keeps : (j : ℕ) → Arrived j i m → Arrived j d.1 d.2

module _ (content : ℕ → InBunch) where
  drain-Drained :
      (i : ℕ) (m : List (ℕ × InBunch))
      → ((k : ℕ) → (dispatch (content k)).0 ≡ true)
      → Holds content m
      → Above i m
      → Drained i m (drain true i m)
  unfolding drain
  drain-Drained i [] good o a = record { above = tt; keeps = λ j h. h }
  drain-Drained i (e ∷ m) good o a = elim (Bool-cases (e.0 == next i)) [
    | inl t ↦
        let n : e.0 ≡ i + 1 = omega (arith, (==_iff e.0 (next i)).0 t, o.2, a.0) in
        let n' : next i ≡ i + 1 = omega (arith, (==_iff e.0 (next i)).0 t, n) in
        let c : e.1 ≡ content (i + 1) = o.0 ∙ ap content n in
        let rest = drain-Drained (i + 1) m good o.3 (subst (λ x. Above x m) n a.1) in
        rw (t, n', c, good (i + 1))
          record {
            above = rest.above;
            keeps = λ j h. rest.keeps j (elim h [
              | inl l ↦ inl (omega arith)
              | inr r ↦ elim r [ inl x ↦ inl (omega (arith, x, n)) | inr x ↦ inr x ]
            ]);
          }
    | inr f ↦ rw (f) record { above = (ground (arith, f, a.0, o.2), a.1); keeps = λ j h. h }
  ]

add_unread-Above :
    (n k : ℕ) (b : InBunch) (m : List (ℕ × InBunch))
    → n < k
    → Above n m
    → Above n (add_unread k b m)
unfolding add_unread
add_unread-Above n k b [] h a = (h, tt)
add_unread-Above n k b (e ∷ m) h a = elim (Bool-cases (e.0 == k)) [
  | inl t ↦ rw (t) a
  | inr f ↦ elim (Bool-cases (ltb k e.0)) [
    | inl t' ↦ rw (f, t') (h, (ltb→lt k e.0 t', a.1))
    | inr f' ↦ rw (f, f') (a.0, add_unread-Above e.0 k b m (ground (arith, f, f')) a.1)
  ]
]

add_unread-HasKey :
    (j k : ℕ) (b : InBunch) (m : List (ℕ × InBunch))
    → (k ≡ j) ⊎ HasKey j m
    → HasKey j (add_unread k b m)
unfolding add_unread
add_unread-HasKey j k b [] h = h
add_unread-HasKey j k b (e ∷ m) h = elim (Bool-cases (e.0 == k)) [
  | inl t ↦ rw (t) (elim h [ inl x ↦ inl ((==_iff e.0 k).0 t ∙ x) | inr x ↦ x ])
  | inr f ↦ elim (Bool-cases (ltb k e.0)) [
    | inl t' ↦ rw (f, t') h
    | inr f' ↦
        rw (f, f')
          (elim h [
            | inl x ↦ inr (add_unread-HasKey j k b m (inl x))
            | inr y ↦ elim y [ inl x ↦ inl x | inr x ↦ inr (add_unread-HasKey j k b m (inr x)) ]
          ])
  ]
]

module _ (content : ℕ → InBunch) where
  -- A channel that keeps only bunches of the peer, none of which it could pass on.
  pub record IsTidy (s : RecvState) : Type 0 where
    pub receiving : IsReceiving content s
    pub above : Above (s.in_reliable + 1) s.in_unread_bunch_map

  -- No bunch arrives that was passed on before.
  abbrev pub Fresh : RecvState → List ℕ → Type 0
  Fresh s [] = Unit {0}
  Fresh s (k ∷ ks) = (s.in_reliable < k) × Fresh (receive_bunch s true k (content k)).1 ks

  -- After the arrival of `k` from the state `s`.
  record After (s : RecvState) (k : ℕ) (t : RecvState) : Type 0 where
    above : Above (t.in_reliable + 1) t.in_unread_bunch_map
    keeps :
        (j : ℕ)
        → (k ≡ j) ⊎ Arrived j s.in_reliable s.in_unread_bunch_map
        → Arrived j t.in_reliable t.in_unread_bunch_map

  receive-After :
      (s : RecvState) (k : ℕ)
      → ((k : ℕ) → (dispatch (content k)).0 ≡ true)
      → IsTidy s
      → 0 < k
      → k < 2 ^ 32
      → s.in_reliable < k
      → After s k (receive_bunch s true k (content k)).1
  unfolding receive_bunch dispatch_raw_bunch
  receive-After s k good v h h' fresh = elim (Bool-cases (k == next s.in_reliable)) [
    | inl t ↦
        let n : k ≡ s.in_reliable + 1 = omega (arith, (==_iff k (next s.in_reliable)).0 t, h) in
        let n' : next s.in_reliable ≡ s.in_reliable + 1 =
          omega (arith, (==_iff k (next s.in_reliable)).0 t, n) in
        let d =
          drain-Drained content (s.in_reliable + 1) s.in_unread_bunch_map good v.receiving.holds
            v.above in
        rw (t, good k, n', n, v.receiving.reliable)
          record {
            above = d.above;
            keeps = λ j a. d.keeps j (elim a [
              | inl x ↦ inl (omega (arith, x, n))
              | inr x ↦ elim x [ inl y ↦ inl (omega (arith, y)) | inr y ↦ inr y ]
            ]);
          }
    | inr f ↦ rw (f) record {
      above =
          add_unread-Above (s.in_reliable + 1) k (content k) s.in_unread_bunch_map
            (ground (arith, f, fresh, h')) v.above;
      keeps = λ j a. elim a [
        | inl x ↦ inr (add_unread-HasKey j k (content k) s.in_unread_bunch_map (inl x))
        | inr x ↦ elim x [
          | inl y ↦ inl y
          | inr y ↦ inr (add_unread-HasKey j k (content k) s.in_unread_bunch_map (inr y))
        ]
      ];
    }
  ]

  receive-IsTidy :
      (s : RecvState) (k : ℕ)
      → ((k : ℕ) → (dispatch (content k)).0 ≡ true)
      → IsTidy s
      → 0 < k
      → k < 2 ^ 32
      → s.in_reliable < k
      → IsTidy (receive_bunch s true k (content k)).1
  receive-IsTidy s k good v h h' fresh =
      let r = receive_bunch-Advanced content s k good v.receiving h h' in
      record {
        receiving = record { reliable = r.1; below = r.0.below; holds = r.0.holds };
        above = (receive-After s k good v h h' fresh).above;
      }

  receive_all-keeps :
      (s : RecvState) (ks : List ℕ) (j : ℕ)
      → ((k : ℕ) → (dispatch (content k)).0 ≡ true)
      → IsTidy s
      → AreNumbers content ks
      → Fresh s ks
      → Among j ks ⊎ Arrived j s.in_reliable s.in_unread_bunch_map
      → let t = (receive_all content s ks).1 in
        IsTidy t × Arrived j t.in_reliable t.in_unread_bunch_map
  receive_all-keeps s [] j good v o f (inl a) = elim a [ ]
  receive_all-keeps s [] j good v o f (inr a) = (v, a)
  receive_all-keeps s (k ∷ ks) j good v o f a =
      let one = receive-After s k good v o.0 o.1 f.0 in
      receive_all-keeps (receive_bunch s true k (content k)).1 ks j good
        (receive-IsTidy s k good v o.0 o.1 f.0) o.2 f.1
        (elim a [
          | inl x ↦ elim x [ inl y ↦ inr (one.keeps j (inl y)) | inr y ↦ inl y ]
          | inr x ↦ inr (one.keeps j (inr x))
        ])

  Above-HasKey : (n j : ℕ) (m : List (ℕ × InBunch)) → Above n m → HasKey j m → n < j
  Above-HasKey n j [] a h = elim h [ ]
  Above-HasKey n j (e ∷ m) a (inl x) = omega (arith, a.0, x)
  Above-HasKey n j (e ∷ m) a (inr x) = omega (arith, a.0, Above-HasKey e.0 j m a.1 x)

  -- Where no bunch arrives that was passed on before, and each bunch from the number after `InReliable`
  -- to `n` arrives or lies in the map of a tidy state, in whatever order, the channel gets to `n`.
  pub receive_all_complete :
      (s : RecvState) (ks : List ℕ) (n : ℕ)
      → ((k : ℕ) → (dispatch (content k)).0 ≡ true)
      → IsTidy s
      → AreNumbers content ks
      → Fresh s ks
      → ((j : ℕ) → j ≤ n → Among j ks ⊎ Arrived j s.in_reliable s.in_unread_bunch_map)
      → n ≤ (receive_all content s ks).1.in_reliable
  receive_all_complete s ks n good v o f a =
      elim (dec_lt (receive_all content s ks).1.in_reliable n) [
        | yes l ↦
            let i = (receive_all content s ks).1.in_reliable in
            let r = receive_all-keeps s ks (i + 1) good v o f (a (i + 1) (omega arith)) in
            absurd (elim r.1 [
              | inl x ↦ omega arith
              | inr x ↦ omega (arith, Above-HasKey (i + 1) (i + 1) _ r.0.above x)
            ])
        | no l ↦ omega arith
      ]
