-- ===== src/Response/Listing/Texts.antt =====
-- A whole listing: the texts in chunks, and the last chunk.
use zipring.Prelude.{
  ℕ, ◌+◌, ◌-◌, ◌≤◌, ◌<◌, ◌≡◌, refl, sym, ap, ◌∙◌, true, List, [], ◌∷◌, ◌++◌, Run, ret, length, drop,
  arith, All, length-append, length-drop, append_assoc, append-nil,
}
use zipring.Prelude.Bytes.{Bytes}
use zipring.Response.Stream.{Writer, Accepts}
use zipring.Response.Body.Writes.{copy_at-written}
use zipring.Response.Listing.{
  PendingChunk, http_chunk_terminator, index_header, Listing, pending, append_texts, serve_texts,
}
use zipring.Response.Listing.Frames.{IsHex, Staged, frame}
use zipring.Response.Listing.Appending.{Staged-of_front}
use zipring.Response.Listing.Chunked.{
  empty_chunk, joined, NonEmpty, frames, flush_chunk-Flushed, append_fmt_chunked-Appended,
}

joined-append : (xs ys : List Bytes) → joined (xs ++ ys) ≡ joined xs ++ joined ys
joined-append [] ys = refl
joined-append (x ∷ xs) ys =
    ap (λ (l : Bytes). x ++ l) (joined-append xs ys) ∙ sym (append_assoc x (joined xs) (joined ys))

All-append : (xs ys : List Bytes) → All NonEmpty xs → All NonEmpty ys → All NonEmpty (xs ++ ys)
All-append [] ys p q = q
All-append (x ∷ xs) ys (p, ps) q = (p, All-append xs ys ps q)

-- A text that is not empty and not above a length.
abbrev pub Fits : ℕ → Bytes → Type 0
Fits most text = (0 < length text) × (length text ≤ most)

module _ (encode_hex : Bytes → Bytes) (hex_len : IsHex encode_hex) (W : Writer)
    (accepts : Accepts W) where
  frames-append :
      (xs ys : List Bytes)
      → frames encode_hex hex_len W accepts (xs ++ ys)
        ≡ frames encode_hex hex_len W accepts xs ++ frames encode_hex hex_len W accepts ys
  frames-append [] ys = refl
  frames-append (x ∷ xs) ys =
      ap (λ (l : Bytes). frame encode_hex hex_len x ++ l) (frames-append xs ys)
      ∙ sym (
          append_assoc (frame encode_hex hex_len x) (frames encode_hex hex_len W accepts xs)
            (frames encode_hex hex_len W accepts ys))

  -- `run` has sent `all` in chunks behind what was `sent`; no chunk is empty but the terminator.
  pub record Lists (buf sent all : Bytes) (run : Run (Listing encode_hex W)) : Type 0 where
    pub buf' : Bytes
    pub s' : W.State
    pub chunks : List Bytes
    pub last : Bytes
    pub run_is : run ≡ ret (pending empty_chunk buf' s')
    pub same_length : length buf' ≡ length buf
    pub sends :
        W.sent s'
        ≡ sent
          ++ (frames encode_hex hex_len W accepts chunks
              ++ (frame encode_hex hex_len last ++ http_chunk_terminator))
    pub joins : joined chunks ++ last ≡ all
    pub are_chunks : All NonEmpty chunks
    pub is_chunk : NonEmpty last

  Lists-after :
      (buf buf1 sent sent1 all payload texts : Bytes) (flushed : List Bytes)
      (run : Run (Listing encode_hex W))
      → length buf1 ≡ length buf
      → sent1 ≡ sent ++ frames encode_hex hex_len W accepts flushed
      → joined flushed ++ (payload ++ texts) ≡ all
      → All NonEmpty flushed
      → Lists buf1 sent1 (payload ++ texts) run
      → Lists buf sent all run
  Lists-after buf buf1 sent sent1 all payload texts flushed run same sends joins are_chunks r =
      let tail = frame encode_hex hex_len r.last ++ http_chunk_terminator in
      let before = frames encode_hex hex_len W accepts flushed in
      let after = frames encode_hex hex_len W accepts r.chunks in
      record {
        buf' = r.buf';
        s' = r.s';
        chunks = flushed ++ r.chunks;
        last = r.last;
        run_is = r.run_is;
        same_length = r.same_length ∙ same;
        sends =
            r.sends
            ∙ ap (λ (l : Bytes). l ++ (after ++ tail)) sends
            ∙ append_assoc sent before (after ++ tail)
            ∙ ap (λ (l : Bytes). sent ++ l)
                (sym (append_assoc before after tail)
                  ∙ ap (λ (l : Bytes). l ++ tail) (sym (frames-append flushed r.chunks)));
        joins =
            ap (λ (l : Bytes). l ++ r.last) (joined-append flushed r.chunks)
            ∙ append_assoc (joined flushed) (joined r.chunks) r.last
            ∙ ap (λ (l : Bytes). joined flushed ++ l) r.joins
            ∙ joins;
        are_chunks = All-append flushed r.chunks are_chunks r.are_chunks;
        is_chunk = r.is_chunk;
      }

  Lists-of_length :
      (buf buf1 sent all : Bytes) (run : Run (Listing encode_hex W))
      → length buf1 ≡ length buf
      → Lists buf1 sent all run
      → Lists buf sent all run
  Lists-of_length buf buf1 sent all run same r = record {
    buf' = r.buf';
    s' = r.s';
    chunks = r.chunks;
    last = r.last;
    run_is = r.run_is;
    same_length = r.same_length ∙ same;
    sends = r.sends;
    joins = r.joins;
    are_chunks = r.are_chunks;
    is_chunk = r.is_chunk;
  }

  -- The texts come behind the payload that is pending.
  append_texts-Lists :
      (texts : List Bytes) (chunk : PendingChunk) (buf front payload : Bytes)
      (st : Staged chunk buf front payload) (s : W.State) (most : ℕ)
      → 7 ≤ length st.behind
      → 0 < length payload + length (joined texts)
      → chunk.prefix + most + 25 ≤ length buf
      → All (Fits most) texts
      → Lists buf
          (W.sent s ++ front)
          (payload ++ joined texts)
          (append_texts encode_hex W texts chunk buf s)
  unfolding append_texts
  append_texts-Lists [] chunk buf front payload st s most room nonempty small fit =
      let f =
        flush_chunk-Flushed encode_hex hex_len W accepts chunk buf front payload st true s room in
      record {
        buf' = f.buf';
        s' = f.s';
        chunks = [];
        last = payload;
        run_is = f.run_is;
        same_length = f.same_length;
        sends =
            f.sends
            ∙ sym (
                append_assoc (W.sent s) front
                  (frame encode_hex hex_len payload ++ http_chunk_terminator));
        joins = sym (append-nil payload);
        are_chunks = tt;
        is_chunk = omega arith;
      }
  append_texts-Lists (text ∷ texts) chunk buf front payload st s most room nonempty small
        ((some_text, short), fit) =
      let a =
        append_fmt_chunked-Appended encode_hex hex_len W accepts chunk buf front payload text st s
          room (omega arith) in
      let front_len = st.length_front in
      let front_len' = a.staged.length_front in
      let shorter = a.shorter_front in
      let same = a.same_length in
      let grows = a.grows in
      rw a.run_is (
        Lists-after buf a.buf' (W.sent s ++ front) (W.sent a.s' ++ a.front')
          (payload ++ (text ++ joined texts)) a.payload' (joined texts) a.flushed
          (append_texts encode_hex W texts a.chunk' a.buf' a.s') same a.sends
          (sym (append_assoc (joined a.flushed) a.payload' (joined texts))
            ∙ ap (λ (l : Bytes). l ++ joined texts) a.joins
            ∙ append_assoc payload text (joined texts))
          a.are_chunks
          (append_texts-Lists texts a.chunk' a.buf' a.front' a.payload' a.staged a.s' most a.room
            (omega arith) (omega arith) fit))

  -- With two hexadecimal digits for a byte, on a stream that takes its writes, with a buffer that has room
  -- for the header, the longest text and 25 bytes, a listing of texts that are not empty does not fail.
  -- It sends the header and the texts joined, cut into chunks, each with its length and none of them
  -- empty, and then the terminator; the buffer keeps its length.
  pub serve_texts-Lists :
      (text : Bytes) (texts : List Bytes) (buf : Bytes) (s : W.State) (most : ℕ)
      → length index_header + most + 25 ≤ length buf
      → All (Fits most) (text ∷ texts)
      → Lists buf
          (W.sent s ++ index_header)
          (text ++ joined texts)
          (serve_texts encode_hex W (text ∷ texts) buf s)
  unfolding serve_texts
  serve_texts-Lists text texts buf s most small fit =
      let n = length index_header in
      let behind = drop (0 + n) buf in
      let buf1 = index_header ++ behind in
      let length_behind : length behind ≡ length buf - n = length-drop {0} (0 + n) buf in
      let same : length buf1 ≡ length buf = omega (arith, length-append {0} index_header behind) in
      let st = Staged-of_front n buf1 index_header behind refl refl (omega arith) in
      let room : length st.behind ≡ length behind - 18 =
        omega (arith, length-drop {0} 2 (drop 16 behind), length-drop {0} 16 behind) in
      let some_text : 0 < length text = fit.0.0 in
      rw (copy_at-written 0 index_header buf (omega arith)) (
        Lists-of_length buf buf1 (W.sent s ++ index_header) (text ++ joined texts)
          (append_texts encode_hex W (text ∷ texts) (record { prefix = n; len = 0 }) buf1 s) same
          (append_texts-Lists (text ∷ texts) (record { prefix = n; len = 0 }) buf1 index_header []
            st s most (omega arith) (omega (arith, length-append {0} text (joined texts)))
            (omega arith) fit))
