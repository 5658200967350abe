-- ===== src/Response/NotModified/Sent.antt =====
-- What `serve_not_modified` sends.
use zipring.Prelude.{
  ℕ, ◌+◌, ◌≤◌, ◌≡◌, refl, sym, ap, ◌∙◌, ◌++◌, length, take, drop, arith, ltb-eq-false,
  length-append, take-length-append, append_assoc, subst, some,
}
use zipring.Prelude.Bytes.{Bytes, codes}
use zipring.Response.Body.Writes.{written, copy_at-written, length-written}
use zipring.Response.Stream.{Writer, Accepts}
use zipring.Response.Head.{Formats, encode_crc32, entity_tag, crlf, quote}
use zipring.Response.Replies.{Replies}
use zipring.Response.NotModified.{not_modified_template, serve_not_modified, position}

-- The answer, with the tag that an entry's header has.
abbrev pub not_modified_text : Formats → ℕ → Bytes
not_modified_text formats crc32 =
    codes "HTTP/1.1 304 Not Modified"
    ++ (crlf ++ (codes "ETag: " ++ (entity_tag formats crc32 ++ (crlf ++ crlf))))

-- The template with eight digits in it.
with_digits :
    (hex buf : Bytes)
    → length hex ≡ 8
    → take 47 (written 34 hex (written 0 not_modified_template buf))
      ≡ codes "HTTP/1.1 304 Not Modified\r\nETag: \"" ++ (hex ++ codes "\"\r\n\r\n")
with_digits hex buf eight =
    let tail = codes "\"\r\n\r\n" in
    let behind = drop 47 buf in
    let size : 13 ≡ length (hex ++ tail) = omega (arith, length-append {0} hex tail) in
    let back : take 13 (hex ++ (tail ++ behind)) ≡ hex ++ tail =
      ap (λ k. take k (hex ++ (tail ++ behind))) size
      ∙ ap (take (length (hex ++ tail))) (sym (append_assoc hex tail behind))
      ∙ take-length-append (hex ++ tail) behind in
    rw eight (ap (λ d. codes "HTTP/1.1 304 Not Modified\r\nETag: \"" ++ d) back)

module _ (formats : Formats) (W : Writer) (accepts : Accepts W) where
  pub serve_not_modified-Replies :
      (crc32 : ℕ) (buf : Bytes) (s : W.State)
      → length (encode_crc32 formats crc32) ≡ 8
      → 47 ≤ length buf
      → Replies W buf (not_modified_text formats crc32) s (serve_not_modified formats W crc32 buf s)
  unfolding serve_not_modified entity_tag encode_crc32 position
  serve_not_modified-Replies crc32 buf s eight room =
      let hex = encode_crc32 formats crc32 in
      let fits : 0 + length not_modified_template ≤ length buf = omega arith in
      let buf1 = written 0 not_modified_template buf in
      let length1 = length-written 0 not_modified_template buf fits in
      let fits1 : 34 + length hex ≤ length buf1 = omega arith in
      let buf2 = written 34 hex buf1 in
      let length2 = length-written 34 hex buf1 fits1 in
      let t = accepts s (take 47 buf2) in
      let regroup =
        ap (λ (d : Bytes). codes "HTTP/1.1 304 Not Modified\r\nETag: \"" ++ d)
          (sym (append_assoc hex quote (crlf ++ crlf))) in
      let whole : take 47 buf2 ≡ not_modified_text formats crc32 =
        with_digits hex buf eight ∙ regroup in
      rw
        (
          copy_at-written 0 not_modified_template buf fits,
          copy_at-written 34 hex buf1 fits1,
          ltb-eq-false (length buf2) 47 (omega arith),
          t.write_is,
        )
        (record {
          buf' = buf2;
          s' = t.s';
          run_is = refl;
          same_length = length2 ∙ length1;
          writes = subst (λ (d : Bytes). W.write_all s d ≡ some t.s') whole t.write_is;
          sends = t.sends ∙ ap (λ (d : Bytes). W.sent s ++ d) whole;
        })
