-- ===== src/Response/Listing/Chunked.antt =====
-- Each text of a listing goes into the pending chunk, or into a new one after a flush.
use zipring.Prelude.{
  ℕ, suc, ◌+◌, ◌-◌, ◌≤◌, ◌<◌, ◌≡◌, refl, sym, ap, ◌∙◌, Bool, false, Bool-cases, inl, inr, List, [],
  ◌∷◌, ◌++◌, Run, ret, ◌>>=◌, length, take, drop, arith, leb, leb→le, ltb-eq-false, ◌==◌, All,
  length-append, length-take, length-drop, append_assoc, append-nil, take-length-append,
}
use zipring.Prelude.Bytes.{Bytes}
use zipring.Response.Stream.{Writer, Accepts}
use zipring.Response.Listing.{
  PendingChunk, Listing, pending, flush_chunk, append_loop, append_fmt_chunked, and_then,
}
use zipring.Response.Listing.Frames.{IsHex, Staged, frame, framed, frame_chunk-Framed}
use zipring.Response.Listing.Appending.{
  Staged-of_front, length-buf, extended, Staged-extended, Staged-scratch, append_fmt-fits,
  append_fmt-full,
}

abbrev pub empty_chunk : PendingChunk
empty_chunk = record { prefix = 0; len = 0 }

-- The payloads one behind the other.
abbrev pub joined : List Bytes → Bytes
joined [] = []
joined (bytes ∷ more) = bytes ++ joined more

-- Chunks that are not the last: none is empty, as an empty chunk would end the body.
abbrev pub NonEmpty : Bytes → Type 0
NonEmpty bytes = 0 < length bytes

module _ (encode_hex : Bytes → Bytes) (hex_len : IsHex encode_hex) (W : Writer)
    (accepts : Accepts W) where
  abbrev pub frames : List Bytes → Bytes
  frames [] = []
  frames (payload ∷ more) = frame encode_hex hex_len payload ++ frames more

  pub record Flushed (chunk : PendingChunk) (buf front payload : Bytes) (s : W.State) (wire : Bytes)
      (run : Run (Listing encode_hex W)) : Type 0 where
    pub buf' : Bytes
    pub s' : W.State
    pub run_is : run ≡ ret (pending empty_chunk buf' s')
    pub sends : W.sent s' ≡ W.sent s ++ wire
    pub same_length : length buf' ≡ length buf

  pub flush_chunk-Flushed :
      (chunk : PendingChunk) (buf front payload : Bytes) (st : Staged chunk buf front payload)
      (is_last : Bool) (s : W.State)
      → 7 ≤ length st.behind
      → Flushed chunk buf front payload s
          (front ++ framed encode_hex hex_len chunk buf front payload st is_last)
          (flush_chunk encode_hex W chunk is_last buf s)
  unfolding flush_chunk
  flush_chunk-Flushed chunk buf front payload st is_last s room =
      let wire = front ++ framed encode_hex hex_len chunk buf front payload st is_last in
      let f = frame_chunk-Framed encode_hex hex_len chunk buf front payload st is_last room in
      let t = accepts s (take (length wire) (wire ++ f.left)) in
      rw
        (
          f.run_is,
          ltb-eq-false (length (wire ++ f.left)) (length wire)
              (omega (arith, length-append {0} wire f.left)),
          t.write_is,
        )
        (record {
          buf' = wire ++ f.left;
          s' = t.s';
          run_is = refl;
          sends = t.sends ∙ ap (λ (l : Bytes). W.sent s ++ l) (take-length-append wire f.left);
          same_length = f.same_length;
        })

  -- `text` is in the pending chunk, behind the payload that was there or after its chunk was sent.
  pub record Appended (buf front payload text : Bytes) (s : W.State)
      (run : Run (Listing encode_hex W)) : Type 0 where
    pub chunk' : PendingChunk
    pub buf' : Bytes
    pub s' : W.State
    pub front' : Bytes
    pub payload' : Bytes
    pub flushed : List Bytes
    pub run_is : run ≡ ret (pending chunk' buf' s')
    pub staged : Staged chunk' buf' front' payload'
    pub room : 7 ≤ length staged.behind
    pub same_length : length buf' ≡ length buf
    pub sends : W.sent s' ++ front' ≡ (W.sent s ++ front) ++ frames flushed
    pub joins : joined flushed ++ payload' ≡ payload ++ text
    pub are_chunks : All NonEmpty flushed
    pub shorter_front : length front' ≤ length front
    pub grows : length text ≤ length payload'

  append_loop-fits :
      (fuel : ℕ) (chunk : PendingChunk) (buf front payload text : Bytes)
      (st : Staged chunk buf front payload) (s : W.State)
      → length text + 7 ≤ length st.behind
      → Appended buf front payload text s (append_loop encode_hex W (suc fuel) chunk text buf s)
  unfolding append_loop
  append_loop-fits fuel chunk buf front payload text st s h =
      let st' = Staged-extended chunk buf front payload st text in
      let old = length-buf chunk buf front payload st in
      let new =
        length-buf (record chunk { len = chunk.len + length text })
          (extended chunk buf front payload st text) front (payload ++ text) st' in
      let behind : length st'.behind ≡ length st.behind - length text =
        length-drop {0} (length text) st.behind in
      rw (append_fmt-fits chunk buf front payload st text h) (record {
        chunk' = record chunk { len = chunk.len + length text };
        buf' = extended chunk buf front payload st text;
        s' = s;
        front' = front;
        payload' = payload ++ text;
        flushed = [];
        run_is = refl;
        staged = st';
        room = omega arith;
        same_length = omega arith;
        sends = sym (append-nil (W.sent s ++ front));
        joins = refl;
        are_chunks = tt;
        shorter_front = omega arith;
        grows = omega (arith, length-append {0} payload text);
      })

  -- After a flush the text goes into an empty chunk.
  Appended-after_flush :
      (buf front payload text buf1 : Bytes) (s s1 : W.State) (run : Run (Listing encode_hex W))
      → length buf1 ≡ length buf
      → W.sent s1 ≡ W.sent s ++ (front ++ frame encode_hex hex_len payload)
      → 0 < length payload
      → Appended buf1 [] [] text s1 run
      → Appended buf front payload text s run
  Appended-after_flush buf front payload text buf1 s s1 run same sends nonempty r = record {
    chunk' = r.chunk';
    buf' = r.buf';
    s' = r.s';
    front' = r.front';
    payload' = r.payload';
    flushed = payload ∷ r.flushed;
    run_is = r.run_is;
    staged = r.staged;
    room = r.room;
    same_length = r.same_length ∙ same;
    sends =
        r.sends
        ∙ ap (λ (l : Bytes). l ++ frames r.flushed)
            (append-nil (W.sent s1)
              ∙ sends
              ∙ sym (append_assoc (W.sent s) front (frame encode_hex hex_len payload)))
        ∙ append_assoc (W.sent s ++ front) (frame encode_hex hex_len payload) (frames r.flushed);
    joins =
        append_assoc payload (joined r.flushed) r.payload'
        ∙ ap (λ (l : Bytes). payload ++ l) r.joins;
    are_chunks = (nonempty, r.are_chunks);
    shorter_front = (let l : length r.front' ≤ 0 = r.shorter_front in omega arith);
    grows = r.grows;
  }

  append_loop-full :
      (chunk : PendingChunk) (buf front payload text : Bytes) (st : Staged chunk buf front payload)
      (s : W.State)
      → length text + 25 ≤ length buf
      → 7 ≤ length st.behind
      → 0 < length payload
      → Appended buf front payload text s (
          flush_chunk encode_hex W chunk false buf s
          >>= and_then encode_hex W (λ c b s'. append_loop encode_hex W 1 c text b s'))
  append_loop-full chunk buf front payload text st s small room nonempty =
      let f = flush_chunk-Flushed chunk buf front payload st false s room in
      let same = f.same_length in
      let st2 = Staged-of_front 0 f.buf' [] f.buf' refl refl (omega arith) in
      let behind2 : length st2.behind ≡ length f.buf' - 18 =
        omega (arith, length-drop {0} 2 (drop 16 f.buf'), length-drop {0} 16 f.buf') in
      rw f.run_is (
        Appended-after_flush buf front payload text f.buf' s f.s'
          (append_loop encode_hex W 1 empty_chunk text f.buf' f.s') same f.sends nonempty
          (append_loop-fits 0 empty_chunk f.buf' [] [] text st2 f.s' (omega arith)))

  -- The buffer's length is all of it that counts.
  Appended-of_length :
      (buf buf1 front payload text : Bytes) (s : W.State) (run : Run (Listing encode_hex W))
      → length buf1 ≡ length buf
      → Appended buf1 front payload text s run
      → Appended buf front payload text s run
  Appended-of_length buf buf1 front payload text s run same r = record {
    chunk' = r.chunk';
    buf' = r.buf';
    s' = r.s';
    front' = r.front';
    payload' = r.payload';
    flushed = r.flushed;
    run_is = r.run_is;
    staged = r.staged;
    room = r.room;
    same_length = r.same_length ∙ same;
    sends = r.sends;
    joins = r.joins;
    are_chunks = r.are_chunks;
    shorter_front = r.shorter_front;
    grows = r.grows;
  }

  -- A text of which a chunk has room, with any front, is appended, and at most one chunk is sent.
  pub append_fmt_chunked-Appended :
      (chunk : PendingChunk) (buf front payload text : Bytes) (st : Staged chunk buf front payload)
      (s : W.State)
      → 7 ≤ length st.behind
      → length text + chunk.prefix + 25 ≤ length buf
      → Appended buf front payload text s (append_fmt_chunked encode_hex W chunk text buf s)
  unfolding append_loop
  append_fmt_chunked-Appended chunk buf front payload text st s room small =
      let old = length-buf chunk buf front payload st in
      elim (Bool-cases (leb (length text + 7) (length st.behind))) [
        | inl e ↦
            append_loop-fits 1 chunk buf front payload text st s
              (leb→le (length text + 7) (length st.behind) e)
        | inr e ↦
            let over : length st.behind < length text + 7 = ground arith in
            let part = take (length buf - 2 - 5 - (chunk.prefix + 18 + chunk.len)) text in
            let buf1 = extended chunk buf front payload st part in
            let st1 = Staged-scratch chunk buf front payload st part in
            let old1 = length-buf chunk buf1 front payload st1 in
            let same_behind : length st1.behind ≡ length st.behind = omega (
              arith,
              length-append {0} part (drop (length part) st.behind),
              length-drop {0} (length part) st.behind,
              length-take {0} (length buf - 2 - 5 - (chunk.prefix + 18 + chunk.len)) text,
            ) in
            let room1 : 7 ≤ length st1.behind = omega arith in
            let payload_len = st.length_payload in
            let nonempty : 0 < length payload = omega arith in
            let full : (chunk.len == 0) ≡ false = ground arith in
            rw (append_fmt-full chunk buf front payload st text room over, full)
              (Appended-of_length buf buf1 front payload text s
                (flush_chunk encode_hex W chunk false buf1 s
                  >>= and_then encode_hex W (λ c b s'. append_loop encode_hex W 1 c text b s'))
                (omega arith)
                (append_loop-full chunk buf1 front payload text st1 s (omega arith) room1 nonempty))
      ]
