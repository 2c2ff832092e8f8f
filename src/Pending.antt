-- ===== src/Pending.antt =====
-- Project/Network/src/connection/PendingNetConnection.h and PendingNetConnectionManager.cpp: the
-- handshakes that are under way, in sixty maps by time; and what UdpPacketProcessor.cpp
-- (Project/Network/src/processor) does with them for an address that sends a handshake packet and once
-- a second. An address is a type `A`. Times are the driver's count of microseconds, from which its
-- seconds are computed. A map is the list of its entries, in any order, and what is changed through the
-- shared pointer of an entry is written back to its map.
pub mod Held
pub mod Ops
pub mod Runs
mod Examples
use rudp_network_engine.Prelude.{
  ℕ, zero, suc, ◌+◌, ◌-◌, ◌%◌, ◌^◌, Bool, true, false, List, [], ◌∷◌, ◌++◌, Option, none, some,
  get_or, set, leb, ◌==◌, if◌then◌else◌,
}
use rudp_network_engine.Ids.{IdAllocator, allocate, free}

-- `EHandshakePacketType`; a byte above 6, which has no name, is treated like the last three.
pub data HandshakePacketType : Type 0 where
  initial_packet : HandshakePacketType
  challenge : HandshakePacketType
  response : HandshakePacketType
  ack : HandshakePacketType
  restart_handshake : HandshakePacketType
  restart_response : HandshakePacketType
  version_upgrade : HandshakePacketType

module _ (A : Type 0) where
  -- `PendingRemoteConnection`, but for the packet sent last.
  pub record PendingRemoteConnection : Type 0 where
    pub cookie_time : ℕ
    pub handshake_try_count : ℕ
    pub time_id : ℕ
    pub session_id : ℕ
    pub client_id : ℕ
    pub server_sequence : ℕ
    pub client_sequence : ℕ
    pub address : A
    pub handshake_packet_type : HandshakePacketType
    pub b_handshake_complete : Bool
    pub last_activity_time : ℕ

  abbrev pub ClientHashMap : Type 0
  ClientHashMap = List (ℕ × PendingRemoteConnection)

  -- `RemoteManager`, `PendingClientIDManager` and `ClientTimeId` of the processor.
  pub record Remotes : Type 0 where
    pub client_cache : List ClientHashMap
    pub pending_client_ids : IdAllocator
    pub client_time_id : ℕ

-- The loop over the ids that `TimeKillEvent` collected.
unfoldable pub free_all : IdAllocator → List ℕ → IdAllocator
free_all s [] = s
free_all s (id ∷ rest) = free_all (free s id) rest

module _ {A : Type 0} where
  -- `CreatePendingClient`
  unfoldable pub create_pending_client : ℕ → ℕ → ℕ → A → ℕ → PendingRemoteConnection A
  create_pending_client time session_id client_id address time_id = record {
    cookie_time = time;
    handshake_try_count = 0;
    time_id = time_id;
    session_id = session_id;
    client_id = client_id;
    server_sequence = 0;
    client_sequence = 0;
    address = address;
    handshake_packet_type = initial_packet;
    b_handshake_complete = false;
    last_activity_time = time;
  }

  -- `IncreaseHandshakeCount`
  unfoldable pub increase_handshake_count :
      ℕ → PendingRemoteConnection A → PendingRemoteConnection A
  increase_handshake_count n p = record p {
    handshake_try_count = (p.handshake_try_count + n) % 2 ^ 32;
  }

  -- `Touch`
  unfoldable pub touch : ℕ → PendingRemoteConnection A → PendingRemoteConnection A
  touch now p = record p { last_activity_time = now }

  -- `unordered_map::find`
  unfoldable pub find_in : ℕ → ClientHashMap A → Option (PendingRemoteConnection A)
  find_in key [] = none
  find_in key (e ∷ rest) = let later = find_in key rest in if e.0 == key then some e.1 else later

  -- `unordered_map::insert`, which keeps an entry that is there, by what `find` gives.
  unfoldable pub insert_new :
      ℕ
      → PendingRemoteConnection A
      → ClientHashMap A
      → Option (PendingRemoteConnection A)
      → ClientHashMap A
  insert_new key p bucket none = (key, p) ∷ bucket
  insert_new key p bucket (some found) = bucket

  unfoldable pub insert : ℕ → PendingRemoteConnection A → ClientHashMap A → ClientHashMap A
  insert key p bucket = insert_new key p bucket (find_in key bucket)

  -- `unordered_map::erase`
  unfoldable pub erase_key : ℕ → ClientHashMap A → ClientHashMap A
  erase_key key [] = []
  erase_key key (e ∷ rest) =
      let later = erase_key key rest in if e.0 == key then rest else e ∷ later

  -- What a change through the shared pointer does to the map.
  unfoldable pub change_in :
      (PendingRemoteConnection A → PendingRemoteConnection A)
      → ℕ
      → ClientHashMap A
      → ClientHashMap A
  change_in f key [] = []
  change_in f key (e ∷ rest) =
      let later = change_in f key rest in if e.0 == key then (e.0, f e.1) ∷ rest else e ∷ later

  abbrev pub first_found :
      Option (PendingRemoteConnection A)
      → Option (PendingRemoteConnection A)
      → Option (PendingRemoteConnection A)
  first_found none later = later
  first_found (some p) later = some p

  -- `FindConnection`
  unfoldable pub find_connection : ℕ → List (ClientHashMap A) → Option (PendingRemoteConnection A)
  find_connection key [] = none
  find_connection key (bucket ∷ rest) = first_found (find_in key bucket) (find_connection key rest)

  -- `AddConnection`
  unfoldable pub add_connection :
      ℕ → ℕ → PendingRemoteConnection A → List (ClientHashMap A) → List (ClientHashMap A)
  add_connection time_id key p cache = set cache time_id (insert key p (get_or cache time_id []))

  -- The same to the entry that `FindConnection` gives: the first map with the key has it.
  unfoldable pub change_first :
      (PendingRemoteConnection A → PendingRemoteConnection A)
      → ℕ
      → List (ClientHashMap A)
      → List (ClientHashMap A)
  change_first f key [] = []
  change_first f key (bucket ∷ rest) =
      let later = change_first f key rest in
      elim (find_in key bucket) [ none ↦ bucket ∷ later | some p ↦ change_in f key bucket ∷ rest ]

  -- The loop of `TimeKillEvent`: the ids collected, and what is left of the map.
  unfoldable pub kill_idle : ℕ → ℕ → ClientHashMap A → List ℕ × ClientHashMap A
  kill_idle now timeout [] = ([], [])
  kill_idle now timeout (e ∷ rest) =
      let later = kill_idle now timeout rest in
      if leb timeout (now - e.1.last_activity_time)
      then (e.1.client_id ∷ later.0, later.1)
      else (later.0, e ∷ later.1)

  -- `TimeKillEvent`, where `now` is not before the last activity.
  unfoldable pub time_kill_event : ℕ → ℕ → ℕ → Remotes A → Remotes A
  time_kill_event time_id now timeout s =
      let killed = kill_idle now timeout (get_or s.client_cache time_id []) in
      record s {
        client_cache = set s.client_cache time_id killed.1;
        pending_client_ids = free_all s.pending_client_ids killed.0;
      }

  -- `AckConnectionKill`, by what `find` gives. The id is held as an `int` that is -1 for none.
  unfoldable pub ack_kill_found : ℕ → ℕ → Remotes A → Option (PendingRemoteConnection A) → Remotes A
  ack_kill_found time_id key s none = s
  ack_kill_found time_id key s (some p) = record s {
    client_cache = set s.client_cache time_id (erase_key key (get_or s.client_cache time_id []));
    pending_client_ids =
        if p.client_id == 2 ^ 32 - 1
        then s.pending_client_ids
        else free s.pending_client_ids p.client_id;
  }

  unfoldable pub ack_connection_kill : ℕ → ℕ → Remotes A → Remotes A
  ack_connection_kill time_id key s =
      ack_kill_found time_id key s (find_in key (get_or s.client_cache time_id []))

  -- What `IncomingConnectionless` does first for a handshake packet at a server: the entry of the
  -- address is counted up, or made, and touched.
  unfoldable pub arrived_found :
      ℕ → A → ℕ → ℕ → Remotes A → Option (PendingRemoteConnection A) → Remotes A
  arrived_found key address session_id now s (some p) = record s {
    client_cache = change_first (λ q. touch now (increase_handshake_count 1 q)) key s.client_cache;
  }
  arrived_found key address session_id now s none =
      let given = allocate s.pending_client_ids in
      let p = create_pending_client now session_id given.0 address s.client_time_id in
      record s {
        client_cache = add_connection p.time_id key (touch now p) s.client_cache;
        pending_client_ids = given.1;
      }

  unfoldable pub arrived : ℕ → A → ℕ → ℕ → Remotes A → Remotes A
  arrived key address session_id now s =
      arrived_found key address session_id now s (find_connection key s.client_cache)

  -- `ConnectionsUpdate`, but for what it sends again: `fetch_add` on a `uint8_t`.
  unfoldable pub connections_update : Bool → ℕ → ℕ → ℕ → Remotes A → Remotes A
  connections_update is_server time_id now timeout s =
      let t = if is_server then time_kill_event time_id now timeout s else s in
      record t { client_time_id = (t.client_time_id + (t.client_time_id + 1) % 60) % 2 ^ 8 }
