-- ===== src/Handshake/Added.antt =====
-- Whom a server takes for a client.
use rudp_network_engine.Prelude.{
  ℕ, ◌+◌, ◌≤◌, ◌<◌, ◌≡◌, refl, ap₂, true, ◌&&◌, List, [], ◌∷◌, Option, none, some, ◌==◌, arith,
  Bool-cases, inl, inr,
}
use rudp_network_engine.Prelude.Int.{pos, eq_ℤ}
use rudp_network_engine.Pending.{PendingRemoteConnection, Remotes, arrived, find_connection}
use rudp_network_engine.Handshake.{
  HandshakeData, Output, sent, client_added, eq_bytes, is_initial, is_response,
  send_connect_challenge, send_challenge_ack, valid_cookie_lifetime, complete, answer, answer_found,
  incoming_connectionless,
}

eq_bytes-eq : (xs ys : List ℕ) → eq_bytes xs ys ≡ true → xs ≡ ys
unfolding eq_bytes
eq_bytes-eq [] [] e = refl
eq_bytes-eq [] (y ∷ ys) e = cc e
eq_bytes-eq (x ∷ xs) [] e = cc e
eq_bytes-eq (x ∷ xs) (y ∷ ys) e = elim (Bool-cases (x == y)) [
  | inl t ↦ ap₂ (λ z zs. z ∷ zs) (ground (arith, t)) (eq_bytes-eq xs ys (rw (t) at e))
  | inr f ↦ cc (rw (f) at e)
]

module _ {A : Type 0} (cookie : A → ℕ → List ℕ) (secret_id : ℕ) where
  -- A client that is added answered a challenge: it sent a response with the cookie of its own address
  -- at the time that the server has noted, less than forty seconds ago.
  pub record HasAnswered (key now : ℕ) (d : HandshakeData) (added : ℕ)
      (p : PendingRemoteConnection A) : Type 0 where
    pub same_key : added ≡ key
    pub responded : is_response d.handshake_packet_type ≡ true
    pub right_cookie : d.cookie_bytes ≡ cookie p.address p.cookie_time
    pub noted : p.cookie_time ≤ now
    pub fresh : now < p.cookie_time + 40000000

  abbrev pub AllAnswered : ℕ → ℕ → HandshakeData → List (Output A) → Type 0
  AllAnswered key now d [] = Unit {0}
  AllAnswered key now d (sent address packet ∷ rest) = AllAnswered key now d rest
  AllAnswered key now d (client_added added p ∷ rest) =
      HasAnswered key now d added p × AllAnswered key now d rest

  valid_cookie_lifetime-fresh :
      (now : ℕ) (p : PendingRemoteConnection A)
      → valid_cookie_lifetime cookie secret_id now p ≡ true
      → (p.cookie_time ≤ now) × (now < p.cookie_time + 40000000)
  unfolding valid_cookie_lifetime
  valid_cookie_lifetime-fresh now p e = ground (arith, e)

  complete-AllAnswered :
      (key now : ℕ) (d : HandshakeData) (p : PendingRemoteConnection A)
      → is_response d.handshake_packet_type ≡ true
      → valid_cookie_lifetime cookie secret_id now p ≡ true
      → eq_bytes d.cookie_bytes (cookie p.address p.cookie_time) ≡ true
      → AllAnswered key now d (complete cookie secret_id key d p).0
  unfolding complete send_challenge_ack
  complete-AllAnswered key now d p r v e =
      let fresh = valid_cookie_lifetime-fresh now p v in
      (
        record {
          same_key = refl;
          responded = r;
          right_cookie = eq_bytes-eq d.cookie_bytes (cookie p.address p.cookie_time) e;
          noted = fresh.0;
          fresh = fresh.1;
        },
        tt,
      )

  answer-AllAnswered :
      (key now : ℕ) (d : HandshakeData) (p : PendingRemoteConnection A)
      → AllAnswered key now d (answer cookie secret_id key now d p).0
  unfolding answer send_connect_challenge
  answer-AllAnswered key now d p =
      elim (Bool-cases (is_initial d.handshake_packet_type && eq_ℤ d.time_stamp (pos 0))) [
        | inl t ↦ rw (t) tt
        | inr i ↦ elim (Bool-cases (is_response d.handshake_packet_type)) [
          | inr f ↦ rw (i, f) tt
          | inl r ↦ elim (Bool-cases (valid_cookie_lifetime cookie secret_id now p)) [
            | inr f ↦ rw (i, r, f) tt
            | inl v ↦ elim (Bool-cases (eq_bytes d.cookie_bytes (cookie p.address p.cookie_time))) [
              | inr f ↦ rw (i, r, v, f) tt
              | inl e ↦ rw (i, r, v, e) (complete-AllAnswered key now d p r v e)
            ]
          ]
        ]
      ]

  answer_found-AllAnswered :
      (key now : ℕ) (d : HandshakeData) (s : Remotes A) (o : Option (PendingRemoteConnection A))
      → AllAnswered key now d (answer_found cookie secret_id key now d s o).0
  unfolding answer_found
  answer_found-AllAnswered key now d s none = tt
  answer_found-AllAnswered key now d s (some p) = answer-AllAnswered key now d p

  -- Whatever arrives at a server in whatever state: if it calls `AddClient`, that is for the address of
  -- this datagram, which is a response with the cookie of the address that the entry is for, at the
  -- time noted in it, and that time is past by less than forty seconds.
  pub incoming_connectionless-AllAnswered :
      (key : ℕ) (address : A) (session_id now : ℕ) (d : HandshakeData) (s : Remotes A)
      → AllAnswered key now d
          (incoming_connectionless cookie secret_id key address session_id now d s).0
  unfolding incoming_connectionless
  incoming_connectionless-AllAnswered key address session_id now d s =
      let t = arrived key address session_id now s in
      answer_found-AllAnswered key now d t (find_connection key t.client_cache)
