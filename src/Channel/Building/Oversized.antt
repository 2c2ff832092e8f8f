-- ===== src/Channel/Building/Oversized.antt =====
-- What `Pump` does with a message that fits into no bunch.
use mathlib.Core.List.{append-nil}
use rudp_network_engine.Prelude.{
  ℕ, ◌+◌, ◌%◌, ◌^◌, ◌<◌, ◌≡◌, refl, ◌∙◌, false, [], ◌∷◌, ◌++◌, ◌==◌, arith,
}
use rudp_network_engine.Channel.Building.{
  OutReadyBunch, Builder, BunchPolicy, reset_active, is_full, try_insert, seal_and_push, seal,
  insert, take_message, is_header_only,
}
use rudp_network_engine.Channel.Building.Pumping.{IsPolicy, contents, seal-payload, Kept-seal}

module _ {M : Type 0} (size : M → ℕ) (policy : BunchPolicy) (clock : ℕ → ℕ) where
  refused :
      (s : Builder M) (m : M)
      → policy.max_bunch_payload < (s.active_payload + size m) % 2 ^ 32
      → try_insert size policy clock s m ≡ (false, s)
  unfolding try_insert
  refused s m h = ground (arith, h)

  insert-oversized :
      (s : Builder M) (m : M)
      → policy.max_bunch_payload < size m
      → s.active_payload + size m < 2 ^ 32
      → insert size policy clock s m ≡ seal size policy clock s
  unfolding insert
  insert-oversized s m h k =
      let t = seal size policy clock s in
      rw (
        refused s m (omega arith),
        refused t m (omega (arith, h, k, seal-payload size policy clock s)),
      )

  not_full :
      (s : Builder M)
      → IsPolicy size policy clock
      → 0 < policy.max_bunch_payload
      → is_full size policy clock (seal size policy clock s) ≡ false
  unfolding is_full seal reset_active
  not_full s p h = ground (arith, h, p.some_message)

  sealed-pushed :
      (s : Builder M)
      → s.active_payload < 2 ^ 16
      → (b : OutReadyBunch M) × ((seal size policy clock s).queued_out_bunch
          ≡ s.queued_out_bunch ++ (b ∷ []))
        × (b.messages ≡ s.active_msgs)
        × (is_header_only b ≡ (s.active_payload == 0))
        × (b.ch_sequence ≡ (s.out_reliable + 1) % 2 ^ 32)
        × ((seal size policy clock s).out_reliable ≡ (s.out_reliable + 1) % 2 ^ 32)
  unfolding seal reset_active seal_and_push is_header_only
  sealed-pushed s h = (_, refl, refl, ground (arith, h), refl, refl)

  -- A message that is larger than the payload of a bunch is lost, where its size and that of the
  -- messages begun are together below `2 ^ 32` and those begun below `2 ^ 16`. It still makes the channel
  -- use its next sequence number, for a bunch of the messages begun; that bunch counts as header-only
  -- where their size is 0, as it is where none is begun.
  pub take_message-oversized :
      (s : Builder M) (m : M)
      → IsPolicy size policy clock
      → 0 < policy.max_bunch_payload
      → policy.max_bunch_payload < size m
      → s.active_payload + size m < 2 ^ 32
      → s.active_payload < 2 ^ 16
      → let t = take_message size policy clock s m in
        (contents t ≡ contents s)
        × ((b : OutReadyBunch M) × (t.queued_out_bunch ≡ s.queued_out_bunch ++ (b ∷ []))
            × (b.messages ≡ s.active_msgs)
            × (is_header_only b ≡ (s.active_payload == 0))
            × (b.ch_sequence ≡ (s.out_reliable + 1) % 2 ^ 32)
            × (t.out_reliable ≡ (s.out_reliable + 1) % 2 ^ 32))
  unfolding take_message
  take_message-oversized s m p z h k begun =
      rw (insert-oversized s m h k, not_full s p z)
        ((Kept-seal size policy clock s).holds ∙ append-nil (contents s), sealed-pushed s begun)
