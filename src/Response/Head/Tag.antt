-- ===== src/Response/Head/Tag.antt =====
-- The entity tag of an answer, as a later request brings it back.
use zipring.Prelude.{
  ℕ, ◌^◌, ◌<◌, ◌≡◌, refl, sym, ap, ◌∙◌, All, Bool-cases, inl, inr, ◌&&◌, true, false, some, List,
  [], ◌∷◌, ◌++◌, length, take, arith, ◌==◌, length-append, take-length-append,
}
use zipring.Prelude.Bytes.{Bytes, codes}
use zipring.Prelude.Ascii.{eq_ignore_ascii_case}
use zipring.Prelude.Words.{Quad, IsQuad, to_be_bytes, from_be_bytes-to_be_bytes, to_be_bytes-IsQuad}
use zipring.Request.Encodings.{EncodingVerdicts, no_verdicts}
use zipring.Request.Parse.{
  Decoders, Header, Headers, default_headers, extract_header, extract_loop, extract_headers,
}
use zipring.Response.Head.{Formats, encode_crc32, entity_tag, quote}

-- The hexadecimal digits that `const_hex` writes are those it reads.
pub record Inverse (ext : Decoders) (formats : Formats) : Type 0 where
  pub digits : (q : Quad) → length (formats.hex_quad q) ≡ 8
  pub decodes : (q : Quad) → IsQuad q → ext.hex_decode (formats.hex_quad q) ≡ some q

-- A header line that is no `If-None-Match`.
abbrev pub IsOther : Header → Type 0
IsOther h = eq_ignore_ascii_case h.name (codes "if-none-match") ≡ false

module _ (ext : Decoders) (formats : Formats) (inverse : Inverse ext formats) (crc32 : ℕ)
    (bound : crc32 < 2 ^ 32) where
  extract_header-entity_tag :
      (name : Bytes) (headers : Headers) (verdicts : EncodingVerdicts)
      → eq_ignore_ascii_case name (codes "if-none-match") ≡ true
      → (extract_header ext headers verdicts
          (record { name = name; value = entity_tag formats crc32 })).0.if_none_match
        ≡ some crc32
  unfolding extract_header entity_tag encode_crc32
  extract_header-entity_tag name headers verdicts named =
      let q = to_be_bytes crc32 in
      let hex = formats.hex_quad q in
      let eight : length hex ≡ 8 = inverse.digits q in
      let ten : (length (quote ++ (hex ++ quote)) == 10) ≡ true =
        (let l : length (quote ++ (hex ++ quote)) ≡ 10 =
            omega (arith, length-append {0} hex quote) in
          ground arith) in
      let inner : take 8 (hex ++ quote) ≡ hex =
        ap (λ k. take k (hex ++ quote)) (sym eight) ∙ take-length-append hex quote in
      rw
        (
          named,
          ten,
          inner,
          inverse.decodes q (to_be_bytes-IsQuad crc32),
          from_be_bytes-to_be_bytes crc32 bound,
        )
        refl

  -- Another header line leaves the tag that was read.
  if_none_match-extract_header :
      (h : Header) (headers : Headers) (verdicts : EncodingVerdicts)
      → eq_ignore_ascii_case h.name (codes "if-none-match") ≡ false
      → (extract_header ext headers verdicts h).0.if_none_match ≡ headers.if_none_match
  unfolding extract_header
  if_none_match-extract_header h headers verdicts other =
      let name = h.name in
      rw other (elim (Bool-cases (eq_ignore_ascii_case name (codes "accept-encoding"))) [
        | inl e ↦ rw e refl
        | inr e ↦
            rw e
              (elim (Bool-cases (
                eq_ignore_ascii_case name (codes "connection")
                && eq_ignore_ascii_case h.value (codes "close"))) [
                  | inl close ↦ rw close refl
                  | inr stays ↦ rw stays refl
                ])
      ])

  if_none_match-extract_loop :
      (hs : List Header) (headers : Headers) (verdicts : EncodingVerdicts)
      → All IsOther hs
      → (extract_loop ext headers verdicts hs).if_none_match ≡ headers.if_none_match
  unfolding extract_loop
  if_none_match-extract_loop [] headers verdicts others = refl
  if_none_match-extract_loop (h ∷ hs) headers verdicts (other, others) =
      let next = extract_header ext headers verdicts h in
      if_none_match-extract_loop hs next.0 next.1 others
      ∙ if_none_match-extract_header h headers verdicts other

  extract_loop-entity_tag :
      (name : Bytes) (before after : List Header) (headers : Headers) (verdicts : EncodingVerdicts)
      → eq_ignore_ascii_case name (codes "if-none-match") ≡ true
      → All IsOther after
      → (extract_loop ext headers verdicts (
          before
          ++ (record { name = name; value = entity_tag formats crc32 } ∷ after))).if_none_match
        ≡ some crc32
  unfolding extract_loop
  extract_loop-entity_tag name [] after headers verdicts named others =
      let next =
        extract_header ext headers verdicts
          (record { name = name; value = entity_tag formats crc32 }) in
      if_none_match-extract_loop after next.0 next.1 others
      ∙ extract_header-entity_tag name headers verdicts named
  extract_loop-entity_tag name (h ∷ hs) after headers verdicts named others =
      let next = extract_header ext headers verdicts h in
      extract_loop-entity_tag name hs after next.0 next.1 named others

  -- A request in which the last `If-None-Match` (in any case of letters) has the tag that an answer's
  -- header has for a checksum of 32 bits is read as naming that checksum, whatever header lines stand
  -- before it, and whatever others behind it.
  pub extract_headers-entity_tag :
      (name : Bytes) (before after : List Header)
      → eq_ignore_ascii_case name (codes "if-none-match") ≡ true
      → All IsOther after
      → (extract_headers ext (
          before
          ++ (record { name = name; value = entity_tag formats crc32 } ∷ after))).if_none_match
        ≡ some crc32
  unfolding extract_headers
  extract_headers-entity_tag name before after named others =
      extract_loop-entity_tag name before after default_headers no_verdicts named others
