-- ===== src/Sequence/History.antt =====
-- Project/Network/src/sequence/SequenceHistory.h: `TSequenceHistory` at 256 bits, the size that
-- `NetPacketNotify::SequenceHistoryT` gives it. The storage is the list of its eight 32-bit words.
pub mod Bit
pub mod Window
pub mod Transfer
use rudp_network_engine.Prelude.{
  ℕ, zero, suc, ◌+◌, ◌-◌, ◌*◌, ◌/◌, ◌%◌, ◌^◌, ◌≤◌, ◌<◌, ◌≡◌, min, bit_and, bit_or, Bool, true,
  false, not, Option, none, some, List, [], ◌∷◌, replicate, get_elem?, length, if◌then◌else◌, ◌==◌,
}
use mathlib.Core.Option
use rudp_network_engine.Sequence.Stream.{WordSink, WordSource}

-- `BitsPerWord`
abbrev pub bits_per_word : ℕ
bits_per_word = 32

-- `Size`
abbrev pub history_size : ℕ
history_size = 256

-- `WordCount`
abbrev pub word_count : ℕ
word_count = history_size / bits_per_word

abbrev pub History : Type 0
History = List ℕ

abbrev pub AllWords : List ℕ → Type 0
AllWords [] = Unit {0}
AllWords (w ∷ ws) = (w < 2 ^ 32) × AllWords ws

-- What the type `WordT Storage[WordCount]` says.
abbrev pub IsHistory : History → Type 0
IsHistory h = (length h ≡ 8) × AllWords h

unfoldable pub reset : History
reset = replicate word_count 0

-- The loop of `AddDeliveryStatus` over the words that are left, `carry` the bit that comes in.
unfoldable pub shift_words : ℕ → List ℕ → List ℕ
shift_words carry [] = []
shift_words carry (w ∷ ws) =
    bit_or (w * 2 % 2 ^ 32) carry ∷ shift_words (bit_and w (2 ^ 31) / 2 ^ 31) ws

unfoldable pub add_delivery_status : Bool → History → History
add_delivery_status delivered h = shift_words (if delivered then 1 else 0) h

-- `(word & mask) != 0` for the mask of bit `k`.
unfoldable pub word_bit : ℕ → ℕ → Bool
word_bit k w = not (bit_and w (2 ^ k) == 0)

-- `none` is a read past the end of `Storage`.
unfoldable pub is_delivered : History → ℕ → Option Bool
is_delivered h index =
    Option.map (word_bit (bit_and index (bits_per_word - 1))) (get_elem? h (index / bits_per_word))

module _ (sink : WordSink) where
  -- The loop of `Write`, `n` words still to go.
  unfoldable pub write_words : ℕ → List ℕ → sink.Stream → sink.Stream
  write_words zero h out = out
  write_words (suc n) [] out = out
  write_words (suc n) (w ∷ ws) out = write_words n ws (sink.put out w)

  -- `Write`
  unfoldable pub write : History → ℕ → sink.Stream → sink.Stream
  write h num_words out = write_words (min num_words word_count) h out

module _ (source : WordSource) where
  -- The loop of `Read`: the words from here on are overwritten, `n` of them.
  unfoldable pub read_words : ℕ → List ℕ → source.Stream → List ℕ × source.Stream
  read_words zero h r = (h, r)
  read_words (suc n) [] r = ([], r)
  read_words (suc n) (w ∷ ws) r =
      let (w', r') = source.get r in let (ws', r'') = read_words n ws r' in (w' ∷ ws', r'')

  -- `Read`
  unfoldable pub read : History → ℕ → source.Stream → List ℕ × source.Stream
  read h num_words r = read_words (min num_words word_count) h r
