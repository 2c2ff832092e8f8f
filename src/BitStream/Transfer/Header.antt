-- ===== src/BitStream/Transfer/Header.antt =====
-- A sequence header on the real streams: `WriteHeader` into a `BitWriter`, `ReadHeader` from a
-- `BitReader`.
use rudp_network_engine.Prelude.{
  ℕ, zero, suc, ◌+◌, ◌-◌, ◌*◌, ◌%◌, ◌^◌, ◌≤◌, ◌<◌, ◌≡◌, refl, sym, ap, ◌∙◌, subst, min, true, false,
  inl, inr, Bool-cases, List, [], ◌∷◌, take, length, length-take, arith, dec_lt,
}
use rudp_network_engine.Sequence.History.{AllWords, write_words, write, read_words, reset}
use rudp_network_engine.Sequence.History.Transfer.{AllWords-take}
use rudp_network_engine.Sequence.Stream.{Feeds}
use rudp_network_engine.Sequence.Header.{pack}
use rudp_network_engine.Sequence.Header.Packing.{pack_fields}
use rudp_network_engine.Sequence.Notify.{
  Notify, needed_word_count, write_with, write_header, read_header,
}
use rudp_network_engine.Sequence.Notify.Valid.{IsValid, out_seq-IsSeq, needed_word_count_bounds}
use rudp_network_engine.Sequence.Notify.Exchange.{
  header_words, header_words-eq, header_of, read-write_header,
}
use rudp_network_engine.BitStream.Writer.{Writer, put_word}
use rudp_network_engine.BitStream.Writer.Appended.{IsWriter}
use rudp_network_engine.BitStream.Table.{le_bytes}
use rudp_network_engine.BitStream.Table.Bytes.{length-le_bytes}
use rudp_network_engine.BitStream.Reader.{Reader, get_word, serialize}
use rudp_network_engine.BitStream.Reader.Taken.{get_word-refused, serialize_bits-Taken}
use rudp_network_engine.BitStream.Transfer.{writer_sink, reader_source, Receives}
use rudp_network_engine.BitStream.Transfer.Words.{put_words, put_words-Feeds, put_words-IsWriter}

write_words-put :
    (n : ℕ) (ws : List ℕ) (w : Writer) → write_words writer_sink n ws w ≡ put_words (take n ws) w
unfolding write_words
write_words-put zero ws w = refl
write_words-put (suc n) [] w = refl
write_words-put (suc n) (x ∷ ws) w = write_words-put n ws (put_word w x)

-- The words that a list would get are the ones that the writer gets.
pub written_words :
    (s : Notify) (w : Writer)
    → IsValid s
    → (write_header writer_sink s false w).2 ≡ put_words (header_words s) w
unfolding write_header write_with write
written_words s w v =
    let b = needed_word_count_bounds s in
    let n = needed_word_count s in
    let count : (n + 2 ^ 64 - 1) % 2 ^ 64 ≡ n - 1 = omega (arith, b) in
    let words : min n 8 ≡ n = omega (arith, b) in
    let first = pack s.out_seq s.in_ack_seq ((n + 2 ^ 64 - 1) % 2 ^ 64) in
    ap (λ k. write_words writer_sink k s.in_seq_history (put_word w first)) words
    ∙ write_words-put n s.in_seq_history (put_word w first)
    ∙ ap (λ k. put_words (take n s.in_seq_history) (put_word w (pack s.out_seq s.in_ack_seq k)))
        count
    ∙ ap (λ ws. put_words ws w) (sym (header_words-eq s))

pub write_header-IsWriter :
    (s : Notify) (w : Writer)
    → IsValid s
    → IsWriter w
    → IsWriter ((write_header writer_sink s false w).2)
write_header-IsWriter s w v writer =
    subst IsWriter (sym (written_words s w v)) (put_words-IsWriter (header_words s) w writer)

header_words-AllWords : {s : Notify} → IsValid s → AllWords (header_words s)
header_words-AllWords {s} v =
    let b = needed_word_count_bounds s in
    let fields =
      pack_fields s.out_seq s.in_ack_seq (needed_word_count s - 1) (out_seq-IsSeq v) v.in_ack_range
        (omega (arith, b)) in
    subst AllWords (sym (header_words-eq s))
      (fields.0, AllWords-take (needed_word_count s) s.in_seq_history (v.history_valid.1))

length-header_words : {s : Notify} → IsValid s → length (header_words s) ≡ suc (needed_word_count s)
length-header_words {s} v =
    let b = needed_word_count_bounds s in
    ap length (header_words-eq s)
    ∙ omega (arith, length-take (needed_word_count s) s.in_seq_history, b, v.history_valid.0)

-- A header that a valid end point writes into a bit stream with room for it, from any bit on, is read
-- back whole by a reader at that bit of what was written.
pub read-written_header :
    {s : Notify} {w : Writer} {r : Reader} (skipped : ℕ)
    → IsValid s
    → IsWriter w
    → w.pos + 32 * suc (needed_word_count s) ≤ w.max
    → Receives skipped ((write_header writer_sink s false w).2) r
    → skipped + r.pos ≡ w.pos
    → read_header reader_source reset r
      ≡ (true, header_of s, record r { pos = r.pos + 32 * suc (needed_word_count s) })
read-written_header {s} {w} {r} skipped v writer room got at =
    let len = length-header_words v in
    let got' = subst (λ w'. Receives skipped w' r) (written_words s w v) got in
    let fed =
      put_words-Feeds skipped (header_words s) w r writer (omega (arith, len))
        (header_words-AllWords v) got' at in
    let fed' =
      subst (λ n. Feeds reader_source r (header_words s) (record r { pos = r.pos + 32 * n })) len
        fed in
    read-write_header reader_source r (record r { pos = r.pos + 32 * suc (needed_word_count s) }) v
      fed' got.ok

-- The reading of a word where there is no error and the 32 bits are there.
get_word-goes_on :
    (r : Reader) (old : ℕ)
    → r.error ≡ false
    → r.pos + 32 ≤ r.max
    → (get_word old r).1 ≡ record r { pos = r.pos + 32 }
unfolding get_word serialize
get_word-goes_on r old ok room =
    (serialize_bits-Taken r (le_bytes 4 old) 32 ok room (omega (arith, length-le_bytes 4 old))).1

read_words-failed :
    (n : ℕ) (ws : List ℕ) (r : Reader)
    → r.error ≡ true
    → ((read_words reader_source n ws r).1).error ≡ true
unfolding read_words
read_words-failed zero ws r e = e
read_words-failed (suc n) [] r e = e
read_words-failed (suc n) (w ∷ ws) r e =
    read_words-failed n ws ((get_word 0 r).1) (ap (λ r. r.error) (get_word-refused r 0 (inl e)))

-- More words than the bits that are left end in an error.
pub read_words-short :
    (n : ℕ) (ws : List ℕ) (r : Reader)
    → n ≤ length ws
    → r.pos ≤ r.max
    → r.max < r.pos + 32 * n
    → ((read_words reader_source n ws r).1).error ≡ true
unfolding read_words
read_words-short zero ws r le at short = absurd (omega arith)
read_words-short (suc n) [] r le at short = absurd (omega arith)
read_words-short (suc n) (w ∷ ws) r le at short = elim (Bool-cases (r.error)) [
  | inl e ↦
      read_words-failed n ws ((get_word 0 r).1) (ap (λ r. r.error) (get_word-refused r 0 (inl e)))
  | inr ok ↦ elim (dec_lt (r.max) (r.pos + 32)) [
    | yes short ↦
        read_words-failed n ws ((get_word 0 r).1)
          (ap (λ r. r.error) (get_word-refused r 0 (inr short)))
    | no room ↦
        let next = get_word-goes_on r 0 ok (omega arith) in
        read_words-short n ws ((get_word 0 r).1) (omega arith)
          (subst (λ r. r.pos ≤ r.max) (sym next) (omega arith))
          (subst (λ r. r.max < r.pos + 32 * n) (sym next) (omega arith))
  ]
]
