-- ===== src/Response/Coding.antt =====
-- src/response/coding.rs
use zipring.Prelude.{ℕ, ◌+◌, Bool, true, Option, none, some, [], ◌∷◌, ◌++◌, length}
use zipring.Prelude.Bytes.{Bytes, codes}
use zipring.Prelude.Words.{to_le_bytes, quad_bytes}
use zipring.Request.Encodings.{AcceptedEncodings}
use zipring.Response.Entry.{Method, Entry}

abbrev pub gzip_header : Bytes
gzip_header = 0x1f ∷ 0x8b ∷ 0x08 ∷ 0x00 ∷ 0x00 ∷ 0x00 ∷ 0x00 ∷ 0x00 ∷ 0x00 ∷ 0xff ∷ []

abbrev pub gzip_trailer_len : ℕ
gzip_trailer_len = 8

pub data NativeCoding : Type 0 where
  identity gzip zstd : NativeCoding

unfoldable pub of : Method → Option NativeCoding
of Method.store = some identity
of Method.deflate = some gzip
of Method.zstd = some zstd
of Method.deflate64 = none
of Method.bzip2 = none
of Method.lzma = none
of (Method.other _) = none

unfoldable pub is_accepted_by : NativeCoding → AcceptedEncodings → Bool
is_accepted_by identity accepted = true
is_accepted_by gzip accepted = accepted.gzip
is_accepted_by zstd accepted = accepted.zstd

unfoldable pub name : NativeCoding → Option Bytes
name identity = none
name gzip = some (codes "gzip")
name zstd = some (codes "zstd")

unfoldable pub prefix : NativeCoding → Bytes
prefix gzip = gzip_header
prefix identity = []
prefix zstd = []

unfoldable pub trailer_len : NativeCoding → ℕ
trailer_len gzip = gzip_trailer_len
trailer_len identity = 0
trailer_len zstd = 0

-- What `write_trailer` puts into its `dst`: the checksum, and the size modulo 2^32.
unfoldable pub trailer : NativeCoding → Entry → Bytes
trailer gzip entry =
    quad_bytes (to_le_bytes entry.crc32) ++ quad_bytes (to_le_bytes entry.uncompressed_size)
trailer identity entry = []
trailer zstd entry = []

unfoldable pub content_length : NativeCoding → Entry → ℕ
unfolding prefix trailer_len
content_length native entry = entry.compressed_size + length (prefix native) + trailer_len native
