-- ===== src/Handshake.antt =====
-- Project/Network/src/processor/UdpPacketProcessor.h and UdpPacketProcessor.cpp: the handshake, from
-- the packets as `ParseHandshakePacket` reads them. The keyed hash of an address and a time, which is a
-- library's, is the parameter `cookie`; the random bytes at the end of a packet are left out. Times are
-- in microseconds, as in Pending.
pub mod Agreed
pub mod Added
mod Examples
use rudp_network_engine.Prelude.{
  ℕ, zero, suc, ◌+◌, ◌-◌, ◌*◌, ◌%◌, ◌^◌, Bool, true, false, not, ◌&&◌, ◌||◌, List, [], ◌∷◌, ◌++◌,
  Option, none, some, get_or, bit_and, ltb, leb, ◌==◌, if◌then◌else◌,
}
use rudp_network_engine.Prelude.Int.{ℤ, pos, negsuc, ltb_ℤ, eq_ℤ}
use rudp_network_engine.Connection.{Connection, init_sequence}
use rudp_network_engine.Pending.{
  HandshakePacketType, initial_packet, challenge, response, ack, restart_handshake,
  restart_response, version_upgrade, PendingRemoteConnection, Remotes, arrived, find_connection,
  change_first, touch,
}

-- `ParsedHandshakeData`, with the ids that stand before it in a packet. The time stamp is signed.
pub record HandshakeData : Type 0 where
  pub session_id : ℕ
  pub client_id : ℕ
  pub handshake_packet_type : HandshakePacketType
  pub handshake_try_count : ℕ
  pub secret_id : ℕ
  pub time_stamp : ℤ
  pub cookie_bytes : List ℕ

-- `MAX_COOKIE_LIFETIME`, forty seconds.
abbrev pub max_cookie_lifetime : ℕ
max_cookie_lifetime = (15 + 5) * 2 * 1000000

-- `MAX_PACKETID`
abbrev pub max_packet_id : ℕ
max_packet_id = 2 ^ 14

-- `memcmp(...) == 0` on cookies of the same length.
unfoldable pub eq_bytes : List ℕ → List ℕ → Bool
eq_bytes [] [] = true
eq_bytes [] (y ∷ ys) = false
eq_bytes (x ∷ xs) [] = false
eq_bytes (x ∷ xs) (y ∷ ys) = let later = eq_bytes xs ys in if x == y then later else false

abbrev pub is_initial : HandshakePacketType → Bool
is_initial initial_packet = true
is_initial challenge = false
is_initial response = false
is_initial ack = false
is_initial restart_handshake = false
is_initial restart_response = false
is_initial version_upgrade = false

abbrev pub is_challenge : HandshakePacketType → Bool
is_challenge initial_packet = false
is_challenge challenge = true
is_challenge response = false
is_challenge ack = false
is_challenge restart_handshake = false
is_challenge restart_response = false
is_challenge version_upgrade = false

abbrev pub is_response : HandshakePacketType → Bool
is_response initial_packet = false
is_response challenge = false
is_response response = true
is_response ack = false
is_response restart_handshake = false
is_response restart_response = false
is_response version_upgrade = false

abbrev pub is_ack : HandshakePacketType → Bool
is_ack initial_packet = false
is_ack challenge = false
is_ack response = false
is_ack ack = true
is_ack restart_handshake = false
is_ack restart_response = false
is_ack version_upgrade = false

-- The first sequences that a cookie stands for, of the server and of the client.
unfoldable pub server_sequence_of : List ℕ → ℕ
server_sequence_of cookie = bit_and (get_or cookie 0 0) (max_packet_id - 1)

unfoldable pub client_sequence_of : List ℕ → ℕ
client_sequence_of cookie = bit_and (get_or cookie 1 0) (max_packet_id - 1)

module _ (A : Type 0) where
  -- What the server does for others to see: it sends a packet, or calls `AddClient`.
  pub data Output : Type 0 where
    sent : A → HandshakeData → Output
    client_added : ℕ → PendingRemoteConnection A → Output

module _ {A : Type 0} (cookie : A → ℕ → List ℕ) (secret_id : ℕ) where
  -- `BeginHandshakePacket` with the fields that follow.
  unfoldable pub packet_of : PendingRemoteConnection A → ℕ → ℤ → List ℕ → HandshakeData
  packet_of p secret time_stamp bytes = record {
    session_id = p.session_id;
    client_id = p.client_id;
    handshake_packet_type = p.handshake_packet_type;
    handshake_try_count = p.handshake_try_count % 2 ^ 8;
    secret_id = secret;
    time_stamp = time_stamp;
    cookie_bytes = bytes;
  }

  -- `SendConnectChallenge`
  unfoldable pub send_connect_challenge :
      ℕ → PendingRemoteConnection A → List (Output A) × PendingRemoteConnection A
  send_connect_challenge now p = (
    sent p.address (packet_of p secret_id (pos now) (cookie p.address now)) ∷ [],
    record p { cookie_time = now },
  )

  -- `SendChallengeAck`; the time is -1 second.
  unfoldable pub send_challenge_ack : PendingRemoteConnection A → List ℕ → List (Output A)
  send_challenge_ack p bytes = sent p.address (packet_of p 1 (negsuc 999999) bytes) ∷ []

  -- `bValidCookieLifetime`
  unfoldable pub valid_cookie_lifetime : ℕ → PendingRemoteConnection A → Bool
  valid_cookie_lifetime now p =
      leb p.cookie_time now && ltb 0 (max_cookie_lifetime - (now - p.cookie_time))

  -- A response with the right cookie.
  unfoldable pub complete :
      ℕ → HandshakeData → PendingRemoteConnection A → List (Output A) × PendingRemoteConnection A
  complete key d p =
      let q = record p {
        handshake_packet_type = ack;
        server_sequence = server_sequence_of d.cookie_bytes;
        client_sequence = client_sequence_of d.cookie_bytes;
        b_handshake_complete = true;
      } in
      (client_added key q ∷ send_challenge_ack q (cookie p.address p.cookie_time), q)

  -- The part of `IncomingConnectionless` of a server after the entry was touched.
  unfoldable pub answer :
      ℕ
      → ℕ
      → HandshakeData
      → PendingRemoteConnection A
      → List (Output A) × PendingRemoteConnection A
  answer key now d p =
      let initial_connect = is_initial d.handshake_packet_type && eq_ℤ d.time_stamp (pos 0) in
      if initial_connect
      then send_connect_challenge now (record p { handshake_packet_type = challenge })
      else (if is_response d.handshake_packet_type
            && valid_cookie_lifetime now p
            && eq_bytes d.cookie_bytes (cookie p.address p.cookie_time)
          then complete key d p
          else ([], p))

  unfoldable pub answer_found :
      ℕ
      → ℕ
      → HandshakeData
      → Remotes A
      → Option (PendingRemoteConnection A)
      → List (Output A) × Remotes A
  answer_found key now d s none = ([], s)
  answer_found key now d s (some p) =
      let answered = answer key now d p in
      (answered.0, record s { client_cache = change_first (λ q. answered.1) key s.client_cache })

  -- `IncomingConnectionless` of a server on a handshake packet that was parsed.
  unfoldable pub incoming_connectionless :
      ℕ → A → ℕ → ℕ → HandshakeData → Remotes A → List (Output A) × Remotes A
  incoming_connectionless key address session_id now d s =
      let t = arrived key address session_id now s in
      answer_found key now d t (find_connection key t.client_cache)

  -- The part of `Incoming` of a server: an acknowledgement that was lost is sent again.
  unfoldable pub incoming_server : HandshakeData → PendingRemoteConnection A → List (Output A)
  incoming_server d p =
      if is_response d.handshake_packet_type
        && is_ack p.handshake_packet_type
        && eq_bytes d.cookie_bytes (cookie p.address p.cookie_time)
      then send_challenge_ack p (cookie p.address p.cookie_time)
      else []

-- `EProcessorState`
pub data ProcessorState : Type 0 where
  un_initialized : ProcessorState
  initialized_on_local : ProcessorState
  initialize_on_remote : ProcessorState
  initialized : ProcessorState

abbrev pub is_open : ProcessorState → Bool
is_open un_initialized = true
is_open initialized_on_local = true
is_open initialize_on_remote = false
is_open initialized = false

module _ (A B R : Type 0) where
  -- A client: the state of its processor, its one entry, and the connection to the server.
  pub record Client : Type 0 where
    pub state : ProcessorState
    pub pending : PendingRemoteConnection A
    pub server_connection : Connection B R

module _ {A : Type 0} where
  -- `SendChallengeResponse`
  unfoldable pub send_challenge_response : HandshakeData → PendingRemoteConnection A → HandshakeData
  send_challenge_response d p = record {
    session_id = p.session_id;
    client_id = p.client_id;
    handshake_packet_type = response;
    handshake_try_count = p.handshake_try_count % 2 ^ 8;
    secret_id = d.secret_id;
    time_stamp = d.time_stamp;
    cookie_bytes = d.cookie_bytes;
  }

module _ {A B R : Type 0} where
  -- What `IpNetDriver::AddClient` makes of the sequences, on the new connection.
  unfoldable pub add_client_sequence :
      Connection B R → PendingRemoteConnection A → Bool × Connection B R
  add_client_sequence new p = init_sequence new (pos p.client_sequence) (pos p.server_sequence)

  unfoldable pub acknowledged : Client A B R → Bool × Connection B R → Client A B R
  acknowledged c (false, connection) = record c { server_connection = connection }
  acknowledged c (true, connection) = record c {
    state = initialized;
    pending = record c.pending { handshake_packet_type = ack; b_handshake_complete = true };
    server_connection = connection;
  }

  -- `Incoming` of a client on a handshake packet that was parsed: what is sent to the server, and the
  -- client. The start of the protocol above is left out.
  unfoldable pub incoming_client :
      ℕ → HandshakeData → Client A B R → List HandshakeData × Client A B R
  incoming_client now d c =
      let t = record c { pending = touch now c.pending } in
      if not (is_open c.state)
      then ([], t)
      else (if is_challenge d.handshake_packet_type && ltb_ℤ (pos 0) d.time_stamp
          then (
            send_challenge_response d (record t.pending { handshake_packet_type = response }) ∷ [],
            record t {
              state = initialized_on_local;
              pending = record t.pending { handshake_packet_type = response };
            },
          )
          else (if is_ack d.handshake_packet_type && ltb_ℤ d.time_stamp (pos 0)
              then (
                [],
                acknowledged t (
                    init_sequence t.server_connection (pos (server_sequence_of d.cookie_bytes))
                      (pos (client_sequence_of d.cookie_bytes))),
              )
              else ([], t)))
