-- ===== src/BitStream/Transfer/Cut.antt =====
-- A sequence header that does not fit.
use rudp_network_engine.Prelude.{
  ℕ, suc, ◌+◌, ◌-◌, ◌*◌, ◌≤◌, ◌<◌, ◌≡◌, refl, ap, ◌∙◌, subst, false, take, min, arith,
}
use rudp_network_engine.Sequence.History.{read, reset}
use rudp_network_engine.Sequence.Header.{pack}
use rudp_network_engine.Sequence.Header.Packing.{pack_fields}
use rudp_network_engine.Sequence.Notify.{Notify, needed_word_count, write_header, read_header}
use rudp_network_engine.Sequence.Notify.Valid.{IsValid, out_seq-IsSeq, needed_word_count_bounds}
use rudp_network_engine.Sequence.Notify.Exchange.{header_words-eq}
use rudp_network_engine.BitStream.Copy.{bit}
use rudp_network_engine.BitStream.Writer.{Writer, put_word}
use rudp_network_engine.BitStream.Writer.Appended.{IsWriter, put_word-Appended}
use rudp_network_engine.BitStream.Reader.{Reader, get_word}
use rudp_network_engine.BitStream.Reader.Taken.{get_word-Taken}
use rudp_network_engine.BitStream.Transfer.{writer_sink, reader_source, Receives}
use rudp_network_engine.BitStream.Transfer.Words.{put_words, put_words-kept}
use rudp_network_engine.BitStream.Transfer.Header.{written_words, read_words-short}

-- The first word of a header that may be cut behind it.
first_word :
    {s : Notify} {w : Writer} {r : Reader} (skipped : ℕ)
    → IsValid s
    → IsWriter w
    → w.pos + 32 ≤ w.max
    → Receives skipped ((write_header writer_sink s false w).2) r
    → skipped + r.pos ≡ w.pos
    → (get_word 0 r
        ≡ (pack s.out_seq s.in_ack_seq (needed_word_count s - 1), record r { pos = r.pos + 32 }))
      × (r.pos + 32 ≤ r.max)
first_word {s} {w} {r} skipped v writer room got at =
    let b = needed_word_count_bounds s in
    let x = pack s.out_seq s.in_ack_seq (needed_word_count s - 1) in
    let xs = take (needed_word_count s) s.in_seq_history in
    let fields =
      pack_fields s.out_seq s.in_ack_seq (needed_word_count s - 1) (out_seq-IsSeq v) v.in_ack_range
        (omega (arith, b)) in
    let e = written_words s w v ∙ ap (λ ws. put_words ws w) (header_words-eq s) in
    let got' = subst (λ w'. Receives skipped w' r) e got in
    let a = put_word-Appended w writer x room in
    let kept = put_words-kept xs (put_word w x) (a.still) in
    let has : r.pos + 32 ≤ r.max = omega (arith, got'.whole, kept.0, a.pos_after, at) in
    (
      get_word-Taken r 0 x got'.ok has (fields.0) (λ i lt.
          let place : skipped + (r.pos + i) ≡ w.pos + i = omega (arith, at) in
          got'.agree (r.pos + i) (omega (arith, kept.0, a.pos_after, at))
          ∙ ap (bit ((put_words xs (put_word w x)).buffer)) place
          ∙ kept.1 (w.pos + i) (omega (arith, a.pos_after))
          ∙ a.new i lt),
      has,
    )

-- A header of a valid end point of which at least the first word fits into the writer is refused by
-- `ReadHeader` of a reader that received what was written, at that place, and that has fewer bits left
-- than the whole header.
pub read-cut_header :
    {s : Notify} {w : Writer} {r : Reader} (skipped : ℕ)
    → IsValid s
    → IsWriter w
    → w.pos + 32 ≤ w.max
    → Receives skipped ((write_header writer_sink s false w).2) r
    → skipped + r.pos ≡ w.pos
    → r.max < r.pos + 32 * suc (needed_word_count s)
    → (read_header reader_source reset r).0 ≡ false
unfolding read_header read reset
read-cut_header {s} {w} {r} skipped v writer room got at cut =
    let b = needed_word_count_bounds s in
    let n = needed_word_count s in
    let first = first_word skipped v writer room got at in
    let fields =
      pack_fields s.out_seq s.in_ack_seq (n - 1) (out_seq-IsSeq v) v.in_ack_range
        (omega (arith, b)) in
    let count : n - 1 + 1 ≡ n = omega (arith, b) in
    let words : min n 8 ≡ n = omega (arith, b) in
    let r' : Reader = record r { pos = r.pos + 32 } in
    let failed = read_words-short n reset r' (omega (arith, b)) (first.1) (omega arith) in
    rw (first.0) (rw (fields.3, count, words) (rw (failed) refl))
