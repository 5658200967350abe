-- ===== src/Response/Serve/Targets.antt =====
-- What `serve_target` answers where an entry's tag is named, and for a directory.
use zipring.Prelude.{
  ℕ, ◌^◌, ◌≤◌, ◌<◌, ◌≡◌, refl, ap, ◌∙◌, All, true, Option, some, List, ◌∷◌, ◌++◌, Run, ret, ◌>>=◌,
  length, arith, ◌==◌,
}
use zipring.Prelude.Bytes.{Bytes, codes}
use zipring.Prelude.Ascii.{eq_ignore_ascii_case}
use zipring.Prelude.Words.{to_be_bytes}
use zipring.Fstree.{entry}
use zipring.Request.Parse.{Decoders, Header, extract_headers}
use zipring.Response.Entry.{Entry}
use zipring.Response.Body.EntryBody.{Disk}
use zipring.Response.Body.Inflated.{InflaterPool}
use zipring.Response.Stream.{Writer, Accepts, Answer}
use zipring.Response.Head.{entity_tag, encode_crc32}
use zipring.Response.Head.Tag.{Inverse, IsOther, extract_headers-entity_tag}
use zipring.Response.Replies.{Replies}
use zipring.Response.NotModified.{serve_not_modified}
use zipring.Response.NotModified.Sent.{not_modified_text, serve_not_modified-Replies}
use zipring.Response.Serve.{Crates, names, serve_target}
use zipring.Response.Serve.Outcomes.{Answers}

module _ (C : Crates) (disk : Disk) (W : Writer) (accepts : Accepts W)
    (pool : InflaterPool C.decoding.inflate) (buf : Bytes) (s : W.State) where
  pub reply-Answers :
      (text : Bytes) (run : Run (Answer W))
      → Replies W buf text s run
      → Answers C disk W buf s text (do answer ← run; ret (answer, pool))
  reply-Answers text run r = rw r.run_is (record {
    buf' = r.buf';
    s' = r.s';
    pool' = pool;
    run_is = refl;
    sends = r.sends;
    same_length = r.same_length;
  })

  names_same : (tag : Option ℕ) (crc32 : ℕ) → tag ≡ some crc32 → names tag crc32 ≡ true
  names_same tag crc32 same =
      ap (λ o. names o crc32) same ∙ (let e : (crc32 == crc32) ≡ true = ground arith in e)

  digits :
      (ext : Decoders)
      → Inverse ext C.formats
      → (crc32 : ℕ) → length (encode_crc32 C.formats crc32) ≡ 8
  unfolding encode_crc32
  digits ext inverse crc32 = inverse.digits (to_be_bytes crc32)

  -- On a stream that takes its writes, with room for the answer: a request in which the last
  -- `If-None-Match` (in any case of letters) has the tag of an entry is answered, for that entry, that
  -- it is not modified, with the same tag and without a body, whatever header lines stand before it, and
  -- whatever others behind it. The hexadecimal digits are 8, and are read
  -- as they are written; the checksum has 32 bits.
  pub serve_target-entity_tag :
      (ext : Decoders) (e : Entry) (name : Bytes) (before after : List Header)
      → Inverse ext C.formats
      → e.crc32 < 2 ^ 32
      → eq_ignore_ascii_case name (codes "if-none-match") ≡ true
      → All IsOther after
      → 47 ≤ length buf
      → let headers =
          extract_headers ext
            (before ++ (record { name = name; value = entity_tag C.formats e.crc32 } ∷ after)) in
        Answers C disk W buf s
          (not_modified_text C.formats e.crc32)
          (serve_target C disk W (entry e) headers pool buf s)
  unfolding serve_target
  serve_target-entity_tag ext e name before after inverse bound named others room =
      let headers =
        extract_headers ext
          (before ++ (record { name = name; value = entity_tag C.formats e.crc32 } ∷ after)) in
      let same =
        extract_headers-entity_tag ext C.formats inverse e.crc32 bound name before after named
          others in
      rw (names_same headers.if_none_match e.crc32 same) (
        reply-Answers (not_modified_text C.formats e.crc32)
          (serve_not_modified C.formats W e.crc32 buf s)
          (serve_not_modified-Replies C.formats W accepts e.crc32 buf s (digits ext inverse e.crc32)
            room))
