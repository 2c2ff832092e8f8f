-- ===== src/Channel/Building.antt =====
-- Project/Network/src/net_packet/NetBunchBuilder.cpp: how the messages that wait in a channel become
-- bunches. A message is a type of its own, `M`, with its `Size`. The clock is a sequence of readings;
-- the builder keeps how many it took. The queue of messages is the one thread's view of it.
pub mod Pumping
pub mod Oversized
use rudp_network_engine.Prelude.{
  ℕ, zero, suc, ◌+◌, ◌-◌, ◌*◌, ◌%◌, ◌^◌, Bool, true, false, not, ◌&&◌, ◌||◌, List, [], ◌∷◌, ◌++◌,
  Option, none, some, length, ltb, leb, if◌then◌else◌,
}

-- What `Encode` writes: ten bytes, which are `BunchHeader::Size`.
abbrev pub bunch_header_size : ℕ
bunch_header_size = 1 + 1 + 1 + 4 + 1 + 2

module _ (M : Type 0) where
  -- `OutReadyBunch`, with the fields of its header that `SealAndPush` computes.
  pub record OutReadyBunch : Type 0 where
    pub ch_sequence : ℕ
    pub message_count : ℕ
    pub payload_size : ℕ
    pub header_size : ℕ
    pub messages : List M
    pub payload_bytes : ℕ
    pub total_size : ℕ

  -- The members of `ChannelBunchBuilder` that change, and `OutReliable` of its owner.
  pub record Builder : Type 0 where
    pub active_msgs : List M
    pub active_payload : ℕ
    pub active_has_init : Bool
    pub queued_message : List M
    pub queued_out_bunch : List OutReadyBunch
    pub last_emit_us : ℕ
    pub readings : ℕ
    pub out_reliable : ℕ

-- `IsHeaderOnlyBunch`
unfoldable pub is_header_only : {M : Type 0} → OutReadyBunch M → Bool
is_header_only b = leb b.total_size b.header_size

-- `BunchPolicy`, as far as the builder reads it after its construction, and `MaxBunchPayload`.
pub record BunchPolicy : Type 0 where
  pub max_msgs_per_bunch : ℕ
  pub max_coalesce_us : ℕ
  pub max_bunch_payload : ℕ

module _ {M : Type 0} (size : M → ℕ) (policy : BunchPolicy) (clock : ℕ → ℕ) where
  -- `ResetActive`
  unfoldable pub reset_active : Builder M → Builder M
  reset_active s = record s {
    active_msgs = [];
    active_payload = 0;
    active_has_init = true;
    last_emit_us = clock s.readings;
    readings = s.readings + 1;
  }

  -- `IsFull`
  unfoldable pub is_full : Builder M → Bool
  is_full s =
      leb policy.max_msgs_per_bunch (length s.active_msgs)
      || leb policy.max_bunch_payload s.active_payload

  -- `TryInsert`
  unfoldable pub try_insert : Builder M → M → Bool × Builder M
  try_insert s m =
      if leb policy.max_msgs_per_bunch (length s.active_msgs)
      then (false, s)
      else (if ltb policy.max_bunch_payload ((s.active_payload + size m) % 2 ^ 32)
          then (false, s)
          else (
            true,
            record s {
              active_msgs = s.active_msgs ++ (m ∷ []);
              active_payload = (s.active_payload + size m) % 2 ^ 32;
            },
          ))

  -- `SealAndPush`, which leaves the vector of messages empty.
  unfoldable pub seal_and_push : Builder M → Builder M
  seal_and_push s = record s {
    active_msgs = [];
    out_reliable = (s.out_reliable + 1) % 2 ^ 32;
    queued_out_bunch =
        s.queued_out_bunch
        ++ (record {
          ch_sequence = (s.out_reliable + 1) % 2 ^ 32;
          message_count = length s.active_msgs % 2 ^ 8;
          payload_size = s.active_payload % 2 ^ 16;
          header_size = bunch_header_size;
          messages = s.active_msgs;
          payload_bytes = s.active_payload;
          total_size = (s.active_payload + bunch_header_size) % 2 ^ 32;
        }
            ∷ []);
  }

  -- `SealAndPush(); ResetActive();`
  unfoldable pub seal : Builder M → Builder M
  seal s = reset_active (seal_and_push s)

  -- The first statement of the loop of `Pump` on a message.
  unfoldable pub insert : Builder M → M → Builder M
  insert s m = let first = try_insert s m in if first.0 then first.1 else (try_insert (seal s) m).1

  -- One round of that loop.
  unfoldable pub take_message : Builder M → M → Builder M
  take_message s m = let t = insert s m in if is_full t then seal t else t

  -- The loop, with `left` messages of the batch to go, over what is queued.
  unfoldable pub take_messages : ℕ → Builder M → List M → Builder M
  take_messages zero s queue = record s { queued_message = queue }
  take_messages (suc left) s [] = record s { queued_message = [] }
  take_messages (suc left) s (m ∷ queue) = take_messages left (take_message s m) queue

  -- `!Empty()`
  abbrev pub has_active : Builder M → Bool
  has_active s = elim s.active_msgs [ [] ↦ false | _ ∷ _ ↦ true ]

  -- The test of the longest delay; it reads the clock only where the messages are not empty.
  unfoldable pub flush_late : Builder M → Builder M
  flush_late s =
      if ltb 0 policy.max_coalesce_us && has_active s
      then (let t = record s { readings = s.readings + 1 } in
          if leb policy.max_coalesce_us ((clock s.readings + 2 ^ 64 - s.last_emit_us) % 2 ^ 64)
          then seal t
          else t)
      else s

  unfoldable pub flush_active : Bool → Builder M → Builder M
  flush_active flush_tail s = if flush_tail && has_active s then seal s else s

  -- `Pump`
  unfoldable pub pump : ℕ → Bool → Builder M → Builder M
  pump batch_limit flush_tail s =
      let t = if s.active_has_init then s else reset_active s in
      flush_active flush_tail (flush_late (take_messages batch_limit t t.queued_message))
