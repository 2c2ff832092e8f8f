-- ===== src/BitStream/Transfer.antt =====
-- What a `BitWriter` wrote, read by a `BitReader`, and the two as the streams of the sequence headers.
pub mod Words
pub mod Header
pub mod Cut
use rudp_network_engine.Prelude.{
  ℕ, zero, suc, ◌+◌, ◌-◌, ◌*◌, ◌/◌, ◌%◌, ◌^◌, ◌≤◌, ◌<◌, ◌≡◌, refl, sym, ap, ◌∙◌, false, List,
  length, arith,
}
use rudp_network_engine.BitStream.Copy.{bit}
use rudp_network_engine.BitStream.Writer
use rudp_network_engine.BitStream.Writer.{Writer}
use rudp_network_engine.BitStream.Writer.Appended.{IsWriter, Appended, serialize_bits-Appended}
use rudp_network_engine.BitStream.Reader
use rudp_network_engine.BitStream.Reader.{Reader}
use rudp_network_engine.BitStream.Reader.Taken.{serialize_bits-Taken}
use rudp_network_engine.Sequence.Stream.{WordSink, WordSource}

abbrev pub writer_sink : WordSink
writer_sink = record { Stream = Writer; put = Writer.put_word }

abbrev pub reader_source : WordSource
reader_source = record { Stream = Reader; get = Reader.get_word 0; is_error = λ r. r.error }

-- The reader's buffer has the bits that the writer wrote from the bit `skipped` on.
pub record Receives (skipped : ℕ) (w : Writer) (r : Reader) : Type 0 where
  pub ok : r.error ≡ false
  pub whole : w.pos ≤ skipped + r.max
  pub agree : (j : ℕ) → skipped + j < w.pos → bit (r.buffer) j ≡ bit (w.buffer) (skipped + j)

-- The `n` bits of `src` that a writer with room appends come back from a reader that received what was
-- written, at the same place, in any memory with room for them, and the reader goes on behind them.
pub serialize_bits-written :
    {w : Writer} {r : Reader} (skipped : ℕ) (src dest : List ℕ) (n : ℕ)
    → IsWriter w
    → w.pos + n ≤ w.max
    → n ≤ 8 * length dest
    → Receives skipped (Writer.serialize_bits w src n) r
    → skipped + r.pos ≡ w.pos
    → ((i : ℕ) → i < n → bit ((Reader.serialize_bits r dest n).0) i ≡ bit src i)
      × ((Reader.serialize_bits r dest n).1 ≡ record r { pos = r.pos + n })
serialize_bits-written {w} {r} skipped src dest n v room fits got at =
    let a = serialize_bits-Appended w v src n room in
    let taken =
      serialize_bits-Taken r dest n got.ok (omega (arith, got.whole, a.pos_after, at)) fits in
    (
      λ i lt.
          let place : skipped + (r.pos + i) ≡ w.pos + i = omega (arith, at) in
          taken.0.1 i lt
          ∙ got.agree (r.pos + i) (omega (arith, a.pos_after, at))
          ∙ ap (bit ((Writer.serialize_bits w src n).buffer)) place
          ∙ a.new i lt,
      taken.1,
    )
