-- ===== src/Channel/Sending.antt =====
-- Project/Network/src/channel/NetChannel.cpp, the sending half: the bunches that wait to be put into
-- a packet and those of the packets that are not settled yet. A bunch is a type of its own, `B`: the
-- channel only moves it. The packet ids are the `uint32_t` keys of the map.
pub mod Ledger
use rudp_network_engine.Prelude.{
  ℕ, zero, suc, ◌+◌, Bool, true, false, List, [], ◌∷◌, ◌++◌, Option, none, some, length, ltb, leb,
  ◌==◌, if◌then◌else◌,
}

-- `RELIABLE_BUFFER`
abbrev pub reliable_buffer : ℕ
reliable_buffer = 512

module _ (B : Type 0) where
  -- `OutUnAckedBunches`: a `std::map` as the list of its entries, in the order of the keys.
  abbrev pub UnAcked : Type 0
  UnAcked = List (ℕ × List B)

  -- The members of `NetChannel` that sending uses, and the queue that `TryDequeueReady` of its
  -- `BunchBuilder` takes from.
  pub record SendState : Type 0 where
    pub out_bunch_queue : List B
    pub out_un_acked_bunches : UnAcked
    pub queued_out_bunch : List B

module _ {B : Type 0} where
  -- `map[key].push_back(bunch)`
  unfoldable pub push_at : ℕ → B → UnAcked B → UnAcked B
  push_at key b [] = (key, b ∷ []) ∷ []
  push_at key b (e ∷ rest) =
      let later = push_at key b rest in
      if e.0 == key
      then (key, e.1 ++ (b ∷ [])) ∷ rest
      else (if ltb key e.0 then (key, b ∷ []) ∷ e ∷ rest else e ∷ later)

  -- What `map[key]` holds; a key that is missing gives an empty vector.
  unfoldable pub lookup : ℕ → UnAcked B → List B
  lookup key [] = []
  lookup key (e ∷ rest) = let later = lookup key rest in if e.0 == key then e.1 else later

  -- `map.erase(key)`
  unfoldable pub erase : ℕ → UnAcked B → UnAcked B
  erase key [] = []
  erase key (e ∷ rest) = let later = erase key rest in if e.0 == key then rest else e ∷ later

  -- `AddUnAckedOutBunch`: the result, and the channel after it. Where the result is `false` it has
  -- asked the connection, if that is alive, to close with "ReliableBufferOverflow".
  unfoldable pub add_un_acked_out_bunch : SendState B → ℕ → B → Bool × SendState B
  add_un_acked_out_bunch s packet_id b =
      if leb reliable_buffer (length s.out_un_acked_bunches)
      then (false, s)
      else (true, record s { out_un_acked_bunches = push_at packet_id b s.out_un_acked_bunches })

  -- `Acked`
  unfoldable pub acked : SendState B → ℕ → SendState B
  acked s packet_id = record s { out_un_acked_bunches = erase packet_id s.out_un_acked_bunches }

  -- The loop that `Nacked` and `ForceRetransmitAllUnAcked` share, over a vector in reverse.
  unfoldable pub push_front_reversed : List B → List B → List B
  push_front_reversed [] queue = queue
  push_front_reversed (b ∷ bs) queue = b ∷ push_front_reversed bs queue

  -- `Nacked`
  unfoldable pub nacked : SendState B → ℕ → SendState B
  nacked s packet_id = record s {
    out_bunch_queue =
        push_front_reversed (lookup packet_id s.out_un_acked_bunches) s.out_bunch_queue;
    out_un_acked_bunches = erase packet_id s.out_un_acked_bunches;
  }

  -- The outer loop of `ForceRetransmitAllUnAcked`, over the map in reverse.
  unfoldable pub push_all : UnAcked B → List B → List B
  push_all [] queue = queue
  push_all (e ∷ rest) queue = push_front_reversed e.1 (push_all rest queue)

  -- `ForceRetransmitAllUnAcked`
  unfoldable pub force_retransmit_all_un_acked : SendState B → SendState B
  force_retransmit_all_un_acked s = record s {
    out_bunch_queue = push_all s.out_un_acked_bunches s.out_bunch_queue;
    out_un_acked_bunches = [];
  }

  -- `DequeueReadyBunch`, by the queue.
  unfoldable pub dequeue_front : SendState B → List B → Option (B × SendState B)
  dequeue_front s [] = none
  dequeue_front s (b ∷ rest) = some (b, record s { out_bunch_queue = rest })

  unfoldable pub dequeue_ready_bunch : SendState B → Option (B × SendState B)
  dequeue_ready_bunch s = dequeue_front s s.out_bunch_queue

  -- `TickFlush` after `PumpBunch`: all that the builder has ready moves to the queue.
  unfoldable pub move_ready : List B → List B → List B
  move_ready [] queue = queue
  move_ready (b ∷ rest) queue = move_ready rest (queue ++ (b ∷ []))

  unfoldable pub tick_flush : SendState B → SendState B
  tick_flush s = record s {
    out_bunch_queue = move_ready s.queued_out_bunch s.out_bunch_queue;
    queued_out_bunch = [];
  }

  -- `UpdateChannelSeq` clears the queues; the builder keeps what it has ready.
  unfoldable pub clear : SendState B → SendState B
  clear s = record s { out_bunch_queue = []; out_un_acked_bunches = [] }
