-- ===== src/Sequence/Stream.antt =====
-- What the sequence headers use of `BitWriter` and `BitReader` (Project/Core): `<<` on a uint32_t
-- and `IsError`. The modules that write or read a header take such a stream as a parameter.
use rudp_network_engine.Prelude.{ℕ, ◌≡◌, Bool, true, false, List, [], ◌∷◌, ◌++◌}

pub record WordSink : Type 1 where
  pub Stream : Type 0
  -- `Writer << Word`
  pub put : Stream → ℕ → Stream

pub record WordSource : Type 1 where
  pub Stream : Type 0
  -- `Reader << Word`: the word read, and the reader after it
  pub get : Stream → ℕ × Stream
  pub is_error : Stream → Bool

-- Reading from `r` gives the words of the list in order and leaves `r'`.
abbrev pub Feeds : (source : WordSource) → source.Stream → List ℕ → source.Stream → Type 0
Feeds source r [] r' = r ≡ r'
Feeds source r (w ∷ ws) r' = (m : source.Stream) × (source.get r ≡ (w, m)) × Feeds source m ws r'

-- A list of words as a sink, and as a source that fails where it runs out.
abbrev pub list_sink : WordSink
list_sink = record { Stream = List ℕ; put = λ ws w. ws ++ (w ∷ []) }

abbrev pub list_get : Bool × List ℕ → ℕ × (Bool × List ℕ)
list_get (true, ws) = (0, (true, ws))
list_get (false, []) = (0, (true, []))
list_get (false, w ∷ ws) = (w, (false, ws))

abbrev pub list_source : WordSource
list_source = record { Stream = Bool × List ℕ; get = list_get; is_error = λ s. s.0 }
