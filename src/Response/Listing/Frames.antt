-- ===== src/Response/Listing/Frames.antt =====
-- A chunk in its frame.
use zipring.Prelude.{
  ℕ, ◌+◌, ◌*◌, ◌-◌, ◌≤◌, ◌≡◌, refl, sym, ap, ◌∙◌, Bool, true, false, ◌++◌, Run, ret, length, take,
  drop, arith, length-append, length-take, length-drop, append_assoc, take-append-drop,
  take-length-append, drop-length-append, drop-drop,
}
use zipring.Prelude.Bytes.{Bytes}
use zipring.Prelude.Words.{usize_to_be_bytes, length-usize_to_be_bytes}
use zipring.Response.Entry.{copy_at}
use zipring.Response.Body.Writes.{copy_at-written}
use zipring.Response.Listing.{
  PendingChunk, crlf, http_chunk_terminator, http_chunk_size_len, http_chunk_digit_count,
  frame_chunk,
}

-- A write over a part of the same length.
pub copy_at_over :
    (at : ℕ) (buf front over behind src : Bytes)
    → buf ≡ front ++ (over ++ behind)
    → at ≡ length front
    → length src ≡ length over
    → copy_at at src buf ≡ ret (front ++ (src ++ behind))
copy_at_over at buf front over behind src is e same =
    let total : length buf ≡ length front + (length over + length behind) =
      ap length is
      ∙ length-append {0} front (over ++ behind)
      ∙ ap (λ k. length front + k) (length-append {0} over behind) in
    let room : at + length src ≤ length buf = omega arith in
    let front_is : take at buf ≡ front =
      ap (λ k. take k buf) e
      ∙ ap (take (length front)) is
      ∙ take-length-append front (over ++ behind) in
    let behind_is : drop (at + length src) buf ≡ behind =
      sym (drop-drop (length src) at buf)
      ∙ ap (λ k. drop (length src) (drop k buf)) e
      ∙ ap (λ b. drop (length src) (drop (length front) b)) is
      ∙ ap (drop (length src)) (drop-length-append front (over ++ behind))
      ∙ ap (λ k. drop k (over ++ behind)) same
      ∙ drop-length-append over behind in
    copy_at-written at src buf room
    ∙ ap (λ (f : Bytes). ret (f ++ (src ++ drop (at + length src) buf))) front_is
    ∙ ap (λ (b : Bytes). ret (front ++ (src ++ b))) behind_is

pub append_assoc4 : (a b c d e : Bytes) → (a ++ (b ++ (c ++ d))) ++ e ≡ a ++ (b ++ (c ++ (d ++ e)))
append_assoc4 a b c d e =
    append_assoc a (b ++ (c ++ d)) e
    ∙ ap (λ (l : Bytes). a ++ l)
        (append_assoc b (c ++ d) e ∙ ap (λ (l : Bytes). b ++ l) (append_assoc c d e))

-- The pending chunk in its buffer: a front, room for the length, and the payload.
pub record Staged (chunk : PendingChunk) (buf : Bytes) (front payload : Bytes) : Type 0 where
  pub digits : Bytes
  pub line_end : Bytes
  pub behind : Bytes
  pub is : buf ≡ front ++ (digits ++ (line_end ++ (payload ++ behind)))
  pub length_digits : length digits ≡ 16
  pub length_line_end : length line_end ≡ 2
  pub length_front : length front ≡ chunk.prefix
  pub length_payload : length payload ≡ chunk.len

-- The hexadecimal digits are two for a byte.
abbrev pub IsHex : (Bytes → Bytes) → Type 0
IsHex encode_hex = (bytes : Bytes) → length (encode_hex bytes) ≡ 2 * length bytes

module _ (encode_hex : Bytes → Bytes) (hex_len : IsHex encode_hex) where
  hex_len-size : (n : ℕ) → length (encode_hex (usize_to_be_bytes n)) ≡ 16
  hex_len-size n =
      let eight = length-usize_to_be_bytes n in omega (arith, hex_len (usize_to_be_bytes n))

  -- A chunk of RFC 9112, 7.1: its length, its bytes, each with a line's end.
  abbrev pub frame : Bytes → Bytes
  frame payload = encode_hex (usize_to_be_bytes (length payload)) ++ (crlf ++ (payload ++ crlf))

  length-frame : (payload : Bytes) → length (frame payload) ≡ length payload + 20
  length-frame payload = omega (
    arith,
    length-append {0} (encode_hex (usize_to_be_bytes (length payload))) (crlf ++ (payload ++ crlf)),
    length-append {0} crlf (payload ++ crlf),
    length-append {0} payload crlf,
    hex_len-size (length payload),
  )

  module _ (chunk : PendingChunk) (buf front payload : Bytes)
      (st : Staged chunk buf front payload) where
    framed_line :
        (over behind : Bytes)
        → length over ≡ 2
        → st.behind ≡ over ++ behind
        → copy_at (chunk.prefix + http_chunk_size_len + chunk.len) crlf buf
          ≡ ret (front ++ (st.digits ++ (st.line_end ++ (payload ++ (crlf ++ behind)))))
    framed_line over behind two split =
        let head = front ++ (st.digits ++ (st.line_end ++ payload)) in
        let length_front = st.length_front in
        let length_payload = st.length_payload in
        let length_digits = st.length_digits in
        let length_line_end = st.length_line_end in
        let e : chunk.prefix + 18 + chunk.len ≡ length head = omega (
          arith,
          length-append {0} front (st.digits ++ (st.line_end ++ payload)),
          length-append {0} st.digits (st.line_end ++ payload),
          length-append {0} st.line_end payload,
        ) in
        let is : buf ≡ head ++ (over ++ behind) =
          st.is
          ∙ ap (λ (b : Bytes). front ++ (st.digits ++ (st.line_end ++ (payload ++ b)))) split
          ∙ sym (append_assoc4 front st.digits st.line_end payload (over ++ behind)) in
        copy_at_over (chunk.prefix + 18 + chunk.len) buf head over behind crlf is e (sym two)
        ∙ ap ret (append_assoc4 front st.digits st.line_end payload (crlf ++ behind))

    framed_size :
        (tail : Bytes)
        → copy_at chunk.prefix
            (encode_hex (usize_to_be_bytes chunk.len))
            (front ++ (st.digits ++ tail))
          ≡ ret (front ++ (encode_hex (usize_to_be_bytes chunk.len) ++ tail))
    framed_size tail =
        copy_at_over chunk.prefix (front ++ (st.digits ++ tail)) front st.digits tail
          (encode_hex (usize_to_be_bytes chunk.len)) refl (sym st.length_front)
          (hex_len-size chunk.len ∙ sym st.length_digits)

    framed_size_end :
        (tail : Bytes)
        → copy_at
            (chunk.prefix + http_chunk_digit_count)
            crlf
            (front ++ (encode_hex (usize_to_be_bytes chunk.len) ++ (st.line_end ++ tail)))
          ≡ ret (front ++ (encode_hex (usize_to_be_bytes chunk.len) ++ (crlf ++ tail)))
    framed_size_end tail =
        let head = front ++ encode_hex (usize_to_be_bytes chunk.len) in
        let length_front = st.length_front in
        let e : chunk.prefix + 16 ≡ length head = omega (
          arith,
          length-append {0} front (encode_hex (usize_to_be_bytes chunk.len)),
          hex_len-size chunk.len,
        ) in
        copy_at_over (chunk.prefix + 16)
          (front ++ (encode_hex (usize_to_be_bytes chunk.len) ++ (st.line_end ++ tail))) head
          st.line_end tail crlf
          (sym
            (append_assoc front (encode_hex (usize_to_be_bytes chunk.len)) (st.line_end ++ tail)))
          e (sym st.length_line_end)
        ∙ ap ret (append_assoc front (encode_hex (usize_to_be_bytes chunk.len)) (crlf ++ tail))

    -- What goes on the wire behind the front.
    abbrev pub framed : Bool → Bytes
    framed true = frame payload ++ http_chunk_terminator
    framed false = frame payload

    pub record Framed (run : Run (ℕ × Bytes)) (is_last : Bool) : Type 0 where
      pub left : Bytes
      pub run_is : run ≡ ret (length (front ++ framed is_last), (front ++ framed is_last) ++ left)
      pub same_length : length ((front ++ framed is_last) ++ left) ≡ length buf

    framed_buffer :
        (tail : Bytes)
        → front
            ++ (encode_hex (usize_to_be_bytes chunk.len) ++ (crlf ++ (payload ++ (crlf ++ tail))))
          ≡ (front ++ frame payload) ++ tail
    framed_buffer tail =
        ap
          (λ n.
            front ++ (encode_hex (usize_to_be_bytes n) ++ (crlf ++ (payload ++ (crlf ++ tail)))))
          (sym st.length_payload)
        ∙ ap (λ (l : Bytes). front ++ l)
            (sym (
              append_assoc4 (encode_hex (usize_to_be_bytes (length payload))) crlf payload crlf
                tail))
        ∙ sym (append_assoc front (frame payload) tail)

    framed_end :
        chunk.prefix + http_chunk_size_len + chunk.len + 2 ≡ length (front ++ frame payload)
    framed_end =
        let length_front = st.length_front in
        let length_payload = st.length_payload in
        omega (arith, length-append {0} front (frame payload), length-frame payload)

    framed_room :
        (tail : Bytes)
        → length tail + 2 ≡ length st.behind
        → length ((front ++ frame payload) ++ tail) ≡ length buf
    framed_room tail h =
        let length_digits = st.length_digits in
        let length_line_end = st.length_line_end in
        let total : length buf ≡ length front + (16 + (2 + (length payload + length st.behind))) =
          ap length st.is
          ∙ omega (
            arith,
            length-append {0} front (st.digits ++ (st.line_end ++ (payload ++ st.behind))),
            length-append {0} st.digits (st.line_end ++ (payload ++ st.behind)),
            length-append {0} st.line_end (payload ++ st.behind),
            length-append {0} payload st.behind,
          ) in
        omega (
          arith,
          length-append {0} (front ++ frame payload) tail,
          length-append {0} front (frame payload),
          length-frame payload,
        )

    -- The last chunk brings the terminator along.
    pub frame_chunk-Framed :
        (is_last : Bool)
        → 7 ≤ length st.behind
        → Framed (frame_chunk encode_hex chunk is_last buf) is_last
    unfolding frame_chunk
    frame_chunk-Framed false room =
        let behind = drop 2 st.behind in
        let two : length (take 2 st.behind) ≡ 2 = omega (arith, length-take {0} 2 st.behind) in
        rw
          (
            framed_line (take 2 st.behind) behind two (sym (take-append-drop 2 st.behind)),
            framed_size (st.line_end ++ (payload ++ (crlf ++ behind))),
            framed_size_end (payload ++ (crlf ++ behind)),
          )
          (record {
            left = behind;
            run_is =
                ap
                  (λ n. ret (
                    n,
                    front
                        ++ (encode_hex (usize_to_be_bytes chunk.len)
                            ++ (crlf ++ (payload ++ (crlf ++ behind)))),
                  ))
                  framed_end
                ∙ ap (λ b. ret (length (front ++ frame payload), b)) (framed_buffer behind);
            same_length = framed_room behind (omega (arith, length-drop {0} 2 st.behind));
          })
    frame_chunk-Framed true room =
        let behind = drop 2 st.behind in
        let left = drop 5 behind in
        let two : length (take 2 st.behind) ≡ 2 = omega (arith, length-take {0} 2 st.behind) in
        let length_behind : length behind ≡ length st.behind - 2 = length-drop {0} 2 st.behind in
        let five : length (take 5 behind) ≡ 5 = omega (arith, length-take {0} 5 behind) in
        let head = front ++ frame payload in
        let whole = (front ++ (frame payload ++ http_chunk_terminator)) ++ left in
        let regroup : head ++ (http_chunk_terminator ++ left) ≡ whole =
          sym (append_assoc head http_chunk_terminator left)
          ∙ ap (λ (l : Bytes). l ++ left)
              (append_assoc front (frame payload) http_chunk_terminator) in
        let last : copy_at (chunk.prefix + http_chunk_size_len + chunk.len + 2)
              http_chunk_terminator
              (front
                ++ (encode_hex (usize_to_be_bytes chunk.len)
                    ++ (crlf ++ (payload ++ (crlf ++ behind)))))
            ≡ ret (head ++ (http_chunk_terminator ++ left)) =
          copy_at_over (chunk.prefix + http_chunk_size_len + chunk.len + 2)
            (front
              ++ (encode_hex (usize_to_be_bytes chunk.len)
                  ++ (crlf ++ (payload ++ (crlf ++ behind)))))
            head (take 5 behind) left http_chunk_terminator
            (framed_buffer behind ∙ ap (λ (b : Bytes). head ++ b) (sym (take-append-drop 5 behind)))
            framed_end (sym five) in
        let end : chunk.prefix + 18 + chunk.len + 2 + 5
            ≡ length (front ++ (frame payload ++ http_chunk_terminator)) =
          (let e : chunk.prefix + 18 + chunk.len + 2 ≡ length head = framed_end in
            omega (
              arith,
              length-append {0} front (frame payload),
              length-append {0} front (frame payload ++ http_chunk_terminator),
              length-append {0} (frame payload) http_chunk_terminator,
            )) in
        rw
          (
            framed_line (take 2 st.behind) behind two (sym (take-append-drop 2 st.behind)),
            framed_size (st.line_end ++ (payload ++ (crlf ++ behind))),
            framed_size_end (payload ++ (crlf ++ behind)),
            last,
          )
          (record {
            left = left;
            run_is =
                ap (λ n. ret (n, head ++ (http_chunk_terminator ++ left))) end
                ∙ ap (λ b. ret (length (front ++ (frame payload ++ http_chunk_terminator)), b))
                    regroup;
            same_length =
                ap length (sym regroup)
                ∙ framed_room (http_chunk_terminator ++ left) (
                    omega (
                      arith,
                      length-append {0} http_chunk_terminator left,
                      length-drop {0} 5 behind,
                    ));
          })
