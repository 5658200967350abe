-- ===== src/Response/Listing/Appending.antt =====
-- `append_fmt_chunked` on a pending chunk.
use zipring.Prelude.{
  ℕ, ◌+◌, ◌-◌, ◌≤◌, ◌<◌, ◌≡◌, refl, sym, ap, ◌∙◌, true, false, [], ◌++◌, ret, length, take, drop,
  arith, leb, le→leb, ltb-eq-false, length-append, length-take, length-drop, append_assoc,
  take-append-drop,
}
use zipring.Prelude.Bytes.{Bytes}
use zipring.Response.Entry.{copy_at}
use zipring.Response.Listing.{PendingChunk, http_chunk_size_len, chunk_limit, append_fmt}
use zipring.Response.Listing.Frames.{copy_at_over, Staged, append_assoc4}

-- An empty chunk behind a front.
abbrev pub Staged-of_front :
    (n : ℕ) (buf front rest : Bytes)
    → n ≡ length front
    → buf ≡ front ++ rest
    → 18 ≤ length rest
    → Staged (record { prefix = n; len = 0 }) buf front []
Staged-of_front n buf front rest e is h = record {
  digits = take 16 rest;
  line_end = take 2 (drop 16 rest);
  behind = drop 2 (drop 16 rest);
  is =
      is
      ∙ ap (λ (l : Bytes). front ++ l)
          (sym (take-append-drop 16 rest)
            ∙ ap (λ (l : Bytes). take 16 rest ++ l) (sym (take-append-drop 2 (drop 16 rest))));
  length_digits = omega (arith, length-take {0} 16 rest);
  length_line_end = omega (arith, length-take {0} 2 (drop 16 rest), length-drop {0} 16 rest);
  length_front = sym e;
  length_payload = refl;
}

module _ (chunk : PendingChunk) (buf front payload : Bytes)
    (st : Staged chunk buf front payload) where
  pub length-buf : length buf ≡ chunk.prefix + 18 + chunk.len + length st.behind
  length-buf =
      let length_digits = st.length_digits in
      let length_line_end = st.length_line_end in
      let length_front = st.length_front in
      let length_payload = st.length_payload in
      ap length st.is
      ∙ omega (
        arith,
        length-append {0} front (st.digits ++ (st.line_end ++ (payload ++ st.behind))),
        length-append {0} st.digits (st.line_end ++ (payload ++ st.behind)),
        length-append {0} st.line_end (payload ++ st.behind),
        length-append {0} payload st.behind,
      )

  -- The buffer after a write behind the payload.
  abbrev pub extended : Bytes → Bytes
  extended text =
      front ++ (st.digits ++ (st.line_end ++ (payload ++ (text ++ drop (length text) st.behind))))

  copy_at-extended :
      (text : Bytes)
      → length text ≤ length st.behind
      → copy_at (chunk.prefix + http_chunk_size_len + chunk.len) text buf ≡ ret (extended text)
  copy_at-extended text h =
      let head = front ++ (st.digits ++ (st.line_end ++ payload)) in
      let over = take (length text) st.behind in
      let behind = drop (length text) st.behind in
      let length_digits = st.length_digits in
      let length_line_end = st.length_line_end in
      let length_front = st.length_front in
      let length_payload = st.length_payload in
      let e : chunk.prefix + 18 + chunk.len ≡ length head = omega (
        arith,
        length-append {0} front (st.digits ++ (st.line_end ++ payload)),
        length-append {0} st.digits (st.line_end ++ payload),
        length-append {0} st.line_end payload,
      ) in
      let is : buf ≡ head ++ (over ++ behind) =
        st.is
        ∙ ap (λ (b : Bytes). front ++ (st.digits ++ (st.line_end ++ (payload ++ b))))
            (sym (take-append-drop (length text) st.behind))
        ∙ sym (append_assoc4 front st.digits st.line_end payload (over ++ behind)) in
      copy_at_over (chunk.prefix + 18 + chunk.len) buf head over behind text is e
        (omega (arith, length-take {0} (length text) st.behind))
      ∙ ap ret (append_assoc4 front st.digits st.line_end payload (text ++ behind))

  -- What was written is payload, or is not.
  abbrev pub Staged-extended :
      (text : Bytes)
      → Staged
          (record chunk { len = chunk.len + length text })
          (extended text)
          front
          (payload ++ text)
  Staged-extended text = record {
    digits = st.digits;
    line_end = st.line_end;
    behind = drop (length text) st.behind;
    is =
        ap (λ (b : Bytes). front ++ (st.digits ++ (st.line_end ++ b)))
          (sym (append_assoc payload text (drop (length text) st.behind)));
    length_digits = st.length_digits;
    length_line_end = st.length_line_end;
    length_front = st.length_front;
    length_payload = length-append {0} payload text ∙ ap (λ k. k + length text) st.length_payload;
  }

  abbrev pub Staged-scratch : (text : Bytes) → Staged chunk (extended text) front payload
  Staged-scratch text = record {
    digits = st.digits;
    line_end = st.line_end;
    behind = text ++ drop (length text) st.behind;
    is = refl;
    length_digits = st.length_digits;
    length_line_end = st.length_line_end;
    length_front = st.length_front;
    length_payload = st.length_payload;
  }

  pub append_fmt-fits :
      (text : Bytes)
      → length text + 7 ≤ length st.behind
      → append_fmt
          (chunk.prefix + http_chunk_size_len)
          (chunk_limit (length buf))
          chunk.len
          text
          buf
        ≡ ret (true, chunk.len + length text, extended text)
  unfolding append_fmt
  append_fmt-fits text h =
      let total = length-buf in
      rw
        (
          ltb-eq-false (length buf - 2 - 5) (chunk.prefix + 18 + chunk.len) (omega arith),
          le→leb (chunk.prefix + 18 + chunk.len + length text) (length buf - 2 - 5) (omega arith),
          copy_at-extended text (omega arith),
        )
        refl

  -- A text that does not fit leaves the payload as it is.
  pub append_fmt-full :
      (text : Bytes)
      → 7 ≤ length st.behind
      → length st.behind < length text + 7
      → append_fmt
          (chunk.prefix + http_chunk_size_len)
          (chunk_limit (length buf))
          chunk.len
          text
          buf
        ≡ ret (
          false,
          chunk.len,
          extended (take (length buf - 2 - 5 - (chunk.prefix + 18 + chunk.len)) text),
        )
  unfolding append_fmt
  append_fmt-full text room h =
      let total = length-buf in
      let part = take (length buf - 2 - 5 - (chunk.prefix + 18 + chunk.len)) text in
      let over : leb (chunk.prefix + 18 + chunk.len + length text) (length buf - 2 - 5) ≡ false =
        ground arith in
      rw
        (
          ltb-eq-false (length buf - 2 - 5) (chunk.prefix + 18 + chunk.len) (omega arith),
          over,
          copy_at-extended part (
              omega (
                arith,
                length-take {0} (length buf - 2 - 5 - (chunk.prefix + 18 + chunk.len)) text,
              )),
        )
        refl
