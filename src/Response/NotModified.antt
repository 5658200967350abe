-- ===== src/Response/NotModified.antt =====
-- `serve_not_modified` and `position` of src/response/stream.rs.
pub mod Sent
use zipring.Prelude.{
  ℕ, zero, suc, ◌+◌, Option, none, some, List, [], ◌∷◌, ◌++◌, Run, panic, ret, ◌>>=◌, length, take,
  ltb, if◌then◌else◌, ◌==◌,
}
use zipring.Prelude.Bytes.{Bytes, codes}
use zipring.Response.Entry.{copy_at}
use zipring.Response.Stream.{Writer, Answer}
use zipring.Response.Head.{Formats, encode_crc32}
use zipring.Response.Replies.{after_reply}

-- The loop of `position`, at `idx`.
unfoldable pub position_from : ℕ → Bytes → ℕ → Option ℕ
position_from idx [] needle = none
position_from idx (b ∷ haystack) needle =
    let rest = position_from (suc idx) haystack needle in if b == needle then some idx else rest

unfoldable pub position : Bytes → ℕ → Option ℕ
unfolding position_from
position haystack needle = position_from 0 haystack needle

abbrev pub not_modified_template : Bytes
not_modified_template = codes "HTTP/1.1 304 Not Modified\r\nETag: \"xxxxxxxx\"\r\n\r\n"

-- `expect`
abbrev pub expect {ℓ} : {A : Type ℓ} → Option A → Run A
expect none = panic
expect (some a) = ret a

module _ (formats : Formats) (W : Writer) where
  abbrev pub write_template : W.State → Bytes → Run (Answer W)
  write_template s buf =
      if ltb (length buf) (length not_modified_template)
      then panic
      else ret (after_reply W buf (W.write_all s (take (length not_modified_template) buf)))

  unfoldable pub serve_not_modified : ℕ → Bytes → W.State → Run (Answer W)
  unfolding encode_crc32 position
  serve_not_modified crc32 buf s = do
    buf ← copy_at 0 not_modified_template buf
    crc_offset ← expect (position not_modified_template b'x')
    buf ← copy_at crc_offset (encode_crc32 formats crc32) buf
    write_template s buf
