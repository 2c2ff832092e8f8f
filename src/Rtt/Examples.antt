-- ===== src/Rtt/Examples.antt =====
-- The theorems on the tracker at small inputs.
use rudp_network_engine.Prelude.{
  ℕ, ◌-◌, ◌^◌, refl, [], ◌∷◌, arith, replicate, min, length-replicate,
}
use rudp_network_engine.Rtt.{Tracker, ring_size, consume_acked}
use rudp_network_engine.Rtt.Samples.{IsTracker, Sampled, consume_acked-Sampled}

-- The packets 3, 4 and 6 were sent at 10, 20 and 30, and nothing is measured yet.
abbrev sent : Tracker
sent = record {
  pending = (3, 10) ∷ (4, 20) ∷ (6, 30) ∷ [];
  samples_us = replicate ring_size 0;
  sample_times_us = replicate ring_size 0;
  write_index = 0;
  sample_count = 0;
}

sent-IsTracker : IsTracker sent
sent-IsTracker = record {
  pending = omega arith;
  samples = length-replicate {A = ℕ} ring_size 0;
  times = length-replicate {A = ℕ} ring_size 0;
  index = omega arith;
  count = omega arith;
}

consume_acked-Sampled_example :
    Sampled sent ((6, 30) ∷ []) (min (50 - 20) (2 ^ 32 - 1)) (consume_acked sent 4 50)
consume_acked-Sampled_example =
    consume_acked-Sampled sent 4 20 50 ((3, 10) ∷ []) ((6, 30) ∷ []) sent-IsTracker refl
      (omega arith, tt) (omega arith)
