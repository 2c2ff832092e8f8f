-- ===== src/Channel/Receiving/Stuck.antt =====
-- What an old bunch does to a reliable channel: it stays at the front of the map, where the loop of
-- `DispatchRawBunch` starts.
use rudp_network_engine.Prelude.{
  ℕ, ◌+◌, ◌-◌, ◌^◌, ◌≤◌, ◌<◌, ◌≡◌, ◌≢◌, refl, Bool, true, false, List, [], ◌∷◌, ltb, ◌==◌,
  if◌then◌else◌, arith, tests, ==_iff, Bool-cases, inl, inr,
}
use rudp_network_engine.Channel.Receiving.{
  InBunch, RecvState, dispatch, next, add_unread, drain, dispatch_raw_bunch, receive_bunch,
}
use rudp_network_engine.Channel.Receiving.Ordered.{receive_all}

-- An old bunch is at the front of the map.
abbrev pub HasOld : ℕ → List (ℕ × InBunch) → Type 0
HasOld n [] = ⊥
HasOld n (e ∷ rest) = e.0 ≤ n

abbrev pub AllNot : ℕ → List ℕ → Type 0
AllNot j [] = Unit {0}
AllNot j (k ∷ ks) = (k ≢ j) × AllNot j ks

HasOld-if :
    (n : ℕ) (b : Bool) (x y : List (ℕ × InBunch))
    → HasOld n x
    → HasOld n y
    → HasOld n (if b then x else y)
HasOld-if n true x y h k = h
HasOld-if n false x y h k = k

drain-HasOld :
    (n : ℕ) (m : List (ℕ × InBunch)) → n + 1 < 2 ^ 32 → HasOld n m → drain true n m ≡ ([], n, m)
unfolding drain
drain-HasOld n [] h o = elim o [ ]
drain-HasOld n (e ∷ m) h o = ground arith

add_unread-HasOld :
    (n k : ℕ) (b : InBunch) (m : List (ℕ × InBunch)) → HasOld n m → HasOld n (add_unread k b m)
unfolding add_unread
add_unread-HasOld n k b [] o = elim o [ ]
add_unread-HasOld n k b (e ∷ m) o = elim (Bool-cases (ltb k e.0)) [
  | inl t ↦ rw (t) (HasOld-if n (e.0 == k) (e ∷ m) ((k, b) ∷ e ∷ m) o (omega (tests, t, o)))
  | inr f ↦ rw (f) (HasOld-if n (e.0 == k) (e ∷ m) (e ∷ add_unread k b m) o o)
]

-- A number at which the channel has arrived and an old bunch at the front of the map.
pub record IsStuck (j : ℕ) (s : RecvState) : Type 0 where
  pub reliable : s.b_reliable ≡ true
  pub old : HasOld s.in_reliable s.in_unread_bunch_map
  pub waits : s.in_reliable < j

HasOld-mono : (n n' : ℕ) (m : List (ℕ × InBunch)) → n ≤ n' → HasOld n m → HasOld n' m
HasOld-mono n n' [] h o = o
HasOld-mono n n' (e ∷ m) h o = omega (arith, o)

receive-next :
    (j k : ℕ) (s : RecvState) (b : InBunch) (read : Bool)
    → (dispatch b).0 ≡ read
    → k ≡ s.in_reliable + 1
    → (k == next s.in_reliable) ≡ true
    → k ≢ j
    → IsStuck j s
    → j < 2 ^ 32 - 1
    → IsStuck j (receive_bunch s true k b).1
unfolding receive_bunch dispatch_raw_bunch
receive-next j k s b true r n t d v h =
    let n' : next s.in_reliable ≡ s.in_reliable + 1 = omega (arith, v.waits) in
    let o =
      HasOld-mono s.in_reliable (s.in_reliable + 1) s.in_unread_bunch_map (omega arith) v.old in
    rw
      (
        t,
        r,
        n',
        v.reliable,
        drain-HasOld (s.in_reliable + 1) s.in_unread_bunch_map (omega (arith, v.waits)) o,
      )
      record { reliable = refl; old = o; waits = omega (arith, n, d, v.waits) }
receive-next j k s b false r n t d v h =
    rw
      (
        t,
        r,
        v.reliable,
        drain-HasOld s.in_reliable s.in_unread_bunch_map (omega (arith, v.waits)) v.old,
      )
      record { reliable = refl; old = v.old; waits = v.waits }

receive-IsStuck :
    (j k : ℕ) (s : RecvState) (b : InBunch)
    → j < 2 ^ 32 - 1
    → k ≢ j
    → IsStuck j s
    → IsStuck j (receive_bunch s true k b).1
unfolding receive_bunch dispatch_raw_bunch
receive-IsStuck j k s b h d v = elim (Bool-cases (k == next s.in_reliable)) [
  | inl t ↦
      receive-next j k s b (dispatch b).0 refl
        (omega (arith, (==_iff k (next s.in_reliable)).0 t, v.waits)) t d v h
  | inr f ↦ rw (f) record {
    reliable = v.reliable;
    old = add_unread-HasOld s.in_reliable k b s.in_unread_bunch_map v.old;
    waits = v.waits;
  }
]

-- Where the map starts with a bunch that was passed on before, `InReliable` never gets to a later
-- number below 2 ^ 32 - 1 unless its bunch arrives again, even where that bunch is in the map.
pub receive_all-IsStuck :
    (content : ℕ → InBunch) (j : ℕ) (s : RecvState) (ks : List ℕ)
    → j < 2 ^ 32 - 1
    → IsStuck j s
    → AllNot j ks
    → IsStuck j (receive_all content s ks).1
receive_all-IsStuck content j s [] h v a = v
receive_all-IsStuck content j s (k ∷ ks) h v a =
    receive_all-IsStuck content j (receive_bunch s true k (content k)).1 ks h
      (receive-IsStuck j k s (content k) h a.0 v) a.1

add_unread-old :
    (n k : ℕ) (b : InBunch) (m : List (ℕ × InBunch)) → k ≤ n → HasOld n (add_unread k b m)
unfolding add_unread
add_unread-old n k b [] h = h
add_unread-old n k b (e ∷ m) h = elim (Bool-cases (ltb e.0 k)) [
  | inl t ↦ add_unread-HasOld n k b (e ∷ m) (omega (tests, t))
  | inr f ↦ ground arith
]

receive-old :
    (j k : ℕ) (s : RecvState) (b : InBunch)
    → j < 2 ^ 32 - 1
    → s.b_reliable ≡ true
    → k ≤ s.in_reliable
    → s.in_reliable < j
    → IsStuck j (receive_bunch s true k b).1
unfolding receive_bunch
receive-old j k s b h v o w =
    let f : (k == next s.in_reliable) ≡ false = ground arith in
    rw (f) record {
      reliable = v;
      old = add_unread-old s.in_reliable k b s.in_unread_bunch_map o;
      waits = w;
    }

-- After the arrival of a bunch that a reliable channel has passed on before, the channel never gets to
-- a later number below 2 ^ 32 - 1 unless the bunch of that number arrives from then on: one that lies
-- in the map is not passed on any more.
pub receive_all-stuck :
    (content : ℕ → InBunch) (s : RecvState) (k j : ℕ) (ks : List ℕ)
    → j < 2 ^ 32 - 1
    → s.b_reliable ≡ true
    → k ≤ s.in_reliable
    → s.in_reliable < j
    → AllNot j ks
    → (receive_all content s (k ∷ ks)).1.in_reliable < j
receive_all-stuck content s k j ks h v o w a =
    (receive_all-IsStuck content j (receive_bunch s true k (content k)).1 ks h
      (receive-old j k s (content k) h v o w) a).waits
