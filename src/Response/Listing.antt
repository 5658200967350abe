-- ===== src/Response/Listing.antt =====
-- The chunks of a directory listing (`PendingChunk`, `append_fmt`, `flush_chunk`,
-- `append_fmt_chunked` and the loop of `serve_index`, src/response/stream.rs). The listing's texts
-- are arguments. `const_hex`, which writes a chunk's length, is a parameter, and so is the stream.
pub mod Frames
pub mod Appending
pub mod Chunked
pub mod Texts
pub mod Page
use zipring.Prelude.{
  ℕ, zero, suc, ◌+◌, ◌-◌, Bool, true, false, Option, none, some, List, [], ◌∷◌, ◌++◌, Run, panic,
  ret, ◌>>=◌, length, take, ltb, if◌then◌else◌, leb, ◌==◌,
}
use zipring.Prelude.Words.{usize_to_be_bytes}
use zipring.Prelude.Bytes.{Bytes, codes}
use zipring.Response.Entry.{copy_at}
use zipring.Response.Stream.{Writer}

-- usize::BITS / 4
abbrev pub http_chunk_digit_count : ℕ
http_chunk_digit_count = 16

abbrev pub http_chunk_size_len : ℕ
http_chunk_size_len = http_chunk_digit_count + 2

abbrev pub crlf : Bytes
crlf = 0x0d ∷ 0x0a ∷ []

abbrev pub http_chunk_terminator : Bytes
http_chunk_terminator = 0x30 ∷ 0x0d ∷ 0x0a ∷ 0x0d ∷ 0x0a ∷ []

abbrev pub chunk_limit : ℕ → ℕ
chunk_limit buflen = buflen - 2 - length http_chunk_terminator

pub record PendingChunk : Type 0 where
  pub prefix : ℕ
  pub len : ℕ

-- `append_fmt(&mut buf[start..limit], len, text)`. A text that does not fit is written as far as it
-- does, and the length stays (`false`).
unfoldable pub append_fmt : ℕ → ℕ → ℕ → Bytes → Bytes → Run (Bool × ℕ × Bytes)
append_fmt start limit len text buf =
    if ltb limit (start + len)
    then panic
    else if leb (start + len + length text) limit
    then (do buf' ← copy_at (start + len) text buf; ret (true, len + length text, buf'))
    else (do
      buf' ← copy_at (start + len) (take (limit - (start + len)) text) buf
      ret (false, len, buf'))

abbrev pub index_header : Bytes
index_header =
    codes "HTTP/1.1 200 OK"
    ++ (crlf
        ++ (codes "Content-Type: text/html; charset=utf-8"
            ++ (crlf ++ (codes "Transfer-Encoding: chunked" ++ (crlf ++ crlf)))))

module _ (encode_hex : Bytes → Bytes) where
  -- The steps before the write: the chunk in its frame, and where it ends.
  unfoldable pub frame_chunk : PendingChunk → Bool → Bytes → Run (ℕ × Bytes)
  frame_chunk chunk is_last buf =
      let payload_end = chunk.prefix + http_chunk_size_len + chunk.len in
      do
        buf ← copy_at payload_end crlf buf
        buf ← copy_at chunk.prefix (encode_hex (usize_to_be_bytes chunk.len)) buf
        buf ← copy_at (chunk.prefix + http_chunk_digit_count) crlf buf
        if is_last
            then (do
              buf ← copy_at (payload_end + 2) http_chunk_terminator buf
              ret (payload_end + 2 + length http_chunk_terminator, buf))
            else ret (payload_end + 2, buf)

module _ (encode_hex : Bytes → Bytes) (W : Writer) where
  -- How a step of the listing ends, with the buffer: a chunk is pending and bytes were written, or
  -- an I/O error, or the fuel ran out.
  pub data Listing : Type 0 where
    pending : PendingChunk → Bytes → W.State → Listing
    failed : Bytes → Listing
    out_of_fuel : Listing

  -- The chunk is left empty at the front, as each caller that goes on takes it.
  abbrev pub after_flush : Bytes → Option W.State → Listing
  after_flush buf none = failed buf
  after_flush buf (some s) = pending (record { prefix = 0; len = 0 }) buf s

  -- `write_buf(..end)`
  abbrev pub write_frame : W.State → ℕ × Bytes → Run Listing
  write_frame s (end, buf) =
      if ltb (length buf) end then panic else ret (after_flush buf (W.write_all s (take end buf)))

  unfoldable pub flush_chunk : PendingChunk → Bool → Bytes → W.State → Run Listing
  flush_chunk chunk is_last buf s = do
    framed ← frame_chunk encode_hex chunk is_last buf
    write_frame s framed

  -- What to do next with a listing that has not failed.
  abbrev pub and_then : (PendingChunk → Bytes → W.State → Run Listing) → Listing → Run Listing
  and_then next (pending chunk buf s) = next chunk buf s
  and_then next (failed buf) = ret (failed buf)
  and_then next out_of_fuel = ret out_of_fuel

  abbrev pub after_append :
      (PendingChunk → Bytes → W.State → Run Listing)
      → PendingChunk
      → W.State
      → Bool × ℕ × Bytes
      → Run Listing
  after_append again chunk s (true, len, buf) = ret (pending (record chunk { len = len }) buf s)
  after_append again chunk s (false, len, buf) =
      if len == 0
      then ret (failed buf)
      else flush_chunk (record chunk { len = len }) false buf s >>= and_then again

  -- The loop of `append_fmt_chunked`, on fuel: after a flush the chunk is empty, and the second
  -- round is the last.
  unfoldable pub append_loop : ℕ → PendingChunk → Bytes → Bytes → W.State → Run Listing
  append_loop zero chunk text buf s = ret out_of_fuel
  append_loop (suc fuel) chunk text buf s =
      let again = λ (c : PendingChunk) (b : Bytes) (s' : W.State). append_loop fuel c text b s' in
      do
        appended ←
            append_fmt (chunk.prefix + http_chunk_size_len) (chunk_limit (length buf)) chunk.len
              text buf
        after_append again chunk s appended

  abbrev pub append_fmt_chunked : PendingChunk → Bytes → Bytes → W.State → Run Listing
  append_fmt_chunked = append_loop 2

  -- The texts one by one, and the last chunk.
  unfoldable pub append_texts : List Bytes → PendingChunk → Bytes → W.State → Run Listing
  append_texts [] chunk buf s = flush_chunk chunk true buf s
  append_texts (text ∷ texts) chunk buf s =
      append_fmt_chunked chunk text buf s >>= and_then (append_texts texts)

  -- `serve_index` on the texts of its listing: the header rides along with the first chunk.
  unfoldable pub serve_texts : List Bytes → Bytes → W.State → Run Listing
  unfolding append_texts
  serve_texts texts buf s = do
    buf ← copy_at 0 index_header buf
    append_texts texts (record { prefix = length index_header; len = 0 }) buf s
