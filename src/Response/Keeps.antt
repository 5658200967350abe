-- ===== src/Response/Keeps.antt =====
-- On the length of a response's buffer: the writes into the buffer, the bodies and the answers.
pub mod Bodies
pub mod Decoders
pub mod Answers
use zipring.Prelude.{
  ℕ, zero, suc, ◌+◌, ◌-◌, ◌≤◌, ◌≡◌, refl, sym, ap, ◌∙◌, Bool, true, false, Option, none, some, List,
  [], ◌∷◌, Run, panic, ret, ◌>>=◌, length, take, ltb, leb, if◌then◌else◌, After, After->>=,
  After-if, After-unless, arith, ◌==◌,
}
use zipring.Prelude.Words.{usize_to_be_bytes}
use zipring.Prelude.Bytes.{Bytes}
use zipring.Response.Entry.{
  Entry, ReadExactAt, copy_at, find_entry_compressed_data, located, local_header_len,
}
use zipring.Response.Body.Writes.{length-written}
use zipring.Response.Stream.{Writer, Answer, answered, failed, no_fuel}
use zipring.Response.Listing.{
  PendingChunk, append_fmt, crlf, http_chunk_terminator, frame_chunk, http_chunk_size_len,
  http_chunk_digit_count, chunk_limit,
}
use zipring.Response.Listing
use zipring.Response.Listing.{
  Listing, flush_chunk, write_frame, after_flush, append_loop, append_texts, serve_texts,
  index_header, after_append,
}
use zipring.Response.Replies.{serve_text, write_reply, after_reply}

abbrev pub Same : ℕ → Bytes → Type 0
Same n buf = length buf ≡ n

ge_of_ltb : (a b : ℕ) → ltb a b ≡ false → b ≤ a
ge_of_ltb a b h = ground arith

pub copy_at-Same :
    {n : ℕ} (at : ℕ) (src buf : Bytes) → Same n buf → After (Same n) (copy_at at src buf)
unfolding copy_at
copy_at-Same {n} at src buf same =
    After-unless (Same n) (ltb (length buf) (at + length src)) (ret _)
      (λ e. length-written at src buf (ge_of_ltb (length buf) (at + length src) e) ∙ same)

pub append_fmt-Same :
    {n : ℕ} (start limit len : ℕ) (text buf : Bytes)
    → Same n buf
    → After (λ r. Same n r.2) (append_fmt start limit len text buf)
unfolding append_fmt
append_fmt-Same {n} start limit len text buf same =
    After-if (λ r. Same n r.2) (ltb limit (start + len)) panic _ tt
      (After-if (λ r. Same n r.2) (leb (start + len + length text) limit) _ _
        (After->>= (Same n) (λ r. Same n r.2) (copy_at (start + len) text buf) _
          (copy_at-Same (start + len) text buf same) (λ b h. h))
        (After->>= (Same n) (λ r. Same n r.2)
          (copy_at (start + len) (take (limit - (start + len)) text) buf) _
          (copy_at-Same (start + len) (take (limit - (start + len)) text) buf same) (λ b h. h)))

module _ (encode_hex : Bytes → Bytes) {n : ℕ} where
  frame_chunk-Same :
      (chunk : PendingChunk) (is_last : Bool) (buf : Bytes)
      → Same n buf
      → After (λ r. Same n r.1) (frame_chunk encode_hex chunk is_last buf)
  unfolding frame_chunk
  frame_chunk-Same chunk is_last buf same =
      let end = chunk.prefix + http_chunk_size_len + chunk.len in
      After->>= (Same n) (λ r. Same n r.1) (copy_at end crlf buf) _ (copy_at-Same end crlf buf same)
        (λ b1 h1.
          After->>= (Same n) (λ r. Same n r.1)
            (copy_at chunk.prefix (encode_hex (usize_to_be_bytes chunk.len)) b1) _
            (copy_at-Same chunk.prefix (encode_hex (usize_to_be_bytes chunk.len)) b1 h1)
            (λ b2 h2.
              After->>= (Same n) (λ r. Same n r.1)
                (copy_at (chunk.prefix + http_chunk_digit_count) crlf b2) _
                (copy_at-Same (chunk.prefix + http_chunk_digit_count) crlf b2 h2)
                (λ b3 h3.
                  After-if (λ r. Same n r.1) is_last _ _
                    (After->>= (Same n) (λ r. Same n r.1)
                      (copy_at (end + 2) http_chunk_terminator b3) _
                      (copy_at-Same (end + 2) http_chunk_terminator b3 h3) (λ b h. h))
                    h3)))

module _ (encode_hex : Bytes → Bytes) (W : Writer) (n : ℕ) where
  -- Of a listing that has not lost its buffer.
  abbrev pub ListingSame : Listing encode_hex W → Type 0
  ListingSame (Listing.pending chunk buf s) = Same n buf
  ListingSame (Listing.failed buf) = Same n buf
  ListingSame Listing.out_of_fuel = Unit

  after_flush-Same :
      (buf : Bytes) (s : Option W.State) → Same n buf → ListingSame (after_flush encode_hex W buf s)
  after_flush-Same buf none h = h
  after_flush-Same buf (some s) h = h

  flush_chunk-Same :
      (chunk : PendingChunk) (is_last : Bool) (buf : Bytes) (s : W.State)
      → Same n buf
      → After ListingSame (flush_chunk encode_hex W chunk is_last buf s)
  unfolding flush_chunk
  flush_chunk-Same chunk is_last buf s same =
      After->>= (λ r. Same n r.1) ListingSame (frame_chunk encode_hex chunk is_last buf)
        (write_frame encode_hex W s) (frame_chunk-Same encode_hex chunk is_last buf same)
        (λ r h.
          After-if ListingSame (ltb (length r.1) r.0) panic _ tt
            (after_flush-Same r.1 (W.write_all s (take r.0 r.1)) h))

  Keeps : (PendingChunk → Bytes → W.State → Run (Listing encode_hex W)) → Type 0
  Keeps next =
      (chunk : PendingChunk) (buf : Bytes) (s : W.State)
      → Same n buf
      → After ListingSame (next chunk buf s)

  and_then-Same :
      (next : PendingChunk → Bytes → W.State → Run (Listing encode_hex W))
      → Keeps next
      → (l : Listing encode_hex W) → ListingSame l
      → After ListingSame (Listing.and_then encode_hex W next l)
  unfolding Keeps
  and_then-Same next keeps (Listing.pending chunk buf s) h = keeps chunk buf s h
  and_then-Same next keeps (Listing.failed buf) h = h
  and_then-Same next keeps Listing.out_of_fuel h = tt

  after_append-Same :
      (again : PendingChunk → Bytes → W.State → Run (Listing encode_hex W)) (chunk : PendingChunk)
      (s : W.State)
      → Keeps again
      → (r : Bool × ℕ × Bytes) → Same n r.2
      → After ListingSame (after_append encode_hex W again chunk s r)
  after_append-Same again chunk s keeps (true, len, buf) h = h
  after_append-Same again chunk s keeps (false, len, buf) h =
      After-if ListingSame (len == 0) _ _ h (
        After->>= ListingSame ListingSame
          (flush_chunk encode_hex W (record chunk { len = len }) false buf s) _
          (flush_chunk-Same (record chunk { len = len }) false buf s h) (and_then-Same again keeps))

  append_loop-Same :
      (fuel : ℕ) (chunk : PendingChunk) (text buf : Bytes) (s : W.State)
      → Same n buf
      → After ListingSame (append_loop encode_hex W fuel chunk text buf s)
  unfolding append_loop Keeps
  append_loop-Same zero chunk text buf s h = tt
  append_loop-Same (suc fuel) chunk text buf s h =
      After->>= (λ r. Same n r.2) ListingSame
        (append_fmt (chunk.prefix + http_chunk_size_len) (chunk_limit (length buf)) chunk.len text
          buf)
        _
        (append_fmt-Same (chunk.prefix + http_chunk_size_len) (chunk_limit (length buf)) chunk.len
          text buf h)
        (after_append-Same (λ c b s'. append_loop encode_hex W fuel c text b s') chunk s
          (λ c b s' same. append_loop-Same fuel c text b s' same))

  append_texts-Same :
      (texts : List Bytes) (chunk : PendingChunk) (buf : Bytes) (s : W.State)
      → Same n buf
      → After ListingSame (append_texts encode_hex W texts chunk buf s)
  unfolding append_texts Keeps
  append_texts-Same [] chunk buf s h = flush_chunk-Same chunk true buf s h
  append_texts-Same (text ∷ texts) chunk buf s h =
      After->>= ListingSame ListingSame (append_loop encode_hex W 2 chunk text buf s) _
        (append_loop-Same 2 chunk text buf s h)
        (and_then-Same (append_texts encode_hex W texts) (append_texts-Same texts))

  pub serve_texts-Same :
      (texts : List Bytes) (buf : Bytes) (s : W.State)
      → Same n buf
      → After ListingSame (serve_texts encode_hex W texts buf s)
  unfolding serve_texts
  serve_texts-Same texts buf s h =
      After->>= (Same n) ListingSame (copy_at 0 index_header buf) _
        (copy_at-Same 0 index_header buf h)
        (λ b same.
          append_texts-Same texts (record { prefix = length index_header; len = 0 }) b s same)

module _ (W : Writer) (n : ℕ) where
  abbrev pub AnswerSame : Answer W → Type 0
  AnswerSame (answered buf s) = Same n buf
  AnswerSame (failed buf) = Same n buf
  AnswerSame no_fuel = Unit

  pub after_reply-Same :
      (buf : Bytes) (s : Option W.State) → Same n buf → AnswerSame (after_reply W buf s)
  after_reply-Same buf none h = h
  after_reply-Same buf (some s) h = h

  write_reply-Same :
      (s : W.State) (r : Bool × ℕ × Bytes) → Same n r.2 → After AnswerSame (write_reply W s r)
  write_reply-Same s (false, len, buf) h = h
  write_reply-Same s (true, len, buf) h =
      After-if AnswerSame (ltb (length buf) len) panic _ tt
        (after_reply-Same buf (W.write_all s (take len buf)) h)

  pub serve_text-Same :
      (text buf : Bytes) (s : W.State) → Same n buf → After AnswerSame (serve_text W text buf s)
  unfolding serve_text
  serve_text-Same text buf s h =
      After->>= (λ r. Same n r.2) AnswerSame (append_fmt 0 (length buf) 0 text buf)
        (write_reply W s) (append_fmt-Same 0 (length buf) 0 text buf h) (write_reply-Same s)
