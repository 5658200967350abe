-- ===== src/Response/Head.antt =====
-- `write_entry_header` and `encode_crc32` of src/response/stream.rs. The type of a name (mime_guess), the decimal digits (itoa) and the hexadecimal digits
-- (const_hex) are parameters.
pub mod Tag
use zipring.Prelude.{
  ℕ, suc, ◌+◌, Option, none, some, List, [], ◌∷◌, ◌++◌, Run, panic, ret, ◌>>=◌, length, take, drop,
  leb, if◌then◌else◌,
}
use zipring.Prelude.Bytes.{Bytes, codes}
use zipring.Prelude.Words.{Quad, to_be_bytes}
use zipring.Response.Entry.{Entry, ReadExactAt}
use zipring.Response.Coding.{NativeCoding, name, content_length}
use zipring.Response.Body.Native.{new}
use zipring.Response.Body.Native.Whole.{native_body}
use zipring.Response.Stream.{Writer, Sending, failed, send_body}

abbrev pub crlf : Bytes
crlf = 0x0d ∷ 0x0a ∷ []

abbrev pub quote : Bytes
quote = 0x22 ∷ []

-- What the crates do for a header.
pub record Formats : Type 0 where
  pub mime_type : Bytes → Bytes
  pub decimal : ℕ → Bytes
  pub hex_quad : Quad → Bytes

-- `encode_crc32`, and the entity tag with its quotes
unfoldable pub encode_crc32 : Formats → ℕ → Bytes
encode_crc32 formats crc32 = formats.hex_quad (to_be_bytes crc32)

unfoldable pub entity_tag : Formats → ℕ → Bytes
unfolding encode_crc32
entity_tag formats crc32 = quote ++ (encode_crc32 formats crc32 ++ quote)

-- The `Content-Encoding` line, where the coding has a name.
abbrev pub encoding_line : Option Bytes → Bytes
encoding_line none = []
encoding_line (some coding) = codes "Content-Encoding: " ++ (coding ++ crlf)

unfoldable pub announced_coding : Option NativeCoding → Option Bytes
unfolding name
announced_coding none = none
announced_coding (some native) = name native

unfoldable pub announced_length : Option NativeCoding → Entry → ℕ
unfolding content_length
announced_length none entry = entry.uncompressed_size
announced_length (some native) entry = content_length native entry

-- The header's text, in the order of the writes.
unfoldable pub entry_header : Formats → Entry → Option NativeCoding → Bytes
unfolding announced_coding announced_length entity_tag
entry_header formats entry native =
    codes "HTTP/1.1 200 OK"
    ++ (crlf
        ++ (codes "Content-Type: "
            ++ (formats.mime_type entry.name
                ++ (crlf
                    ++ (encoding_line (announced_coding native)
                        ++ (codes "Content-Length: "
                            ++ (formats.decimal (announced_length native entry)
                                ++ (crlf
                                    ++ (codes "ETag: "
                                        ++ (entity_tag formats entry.crc32
                                            ++ (crlf
                                                ++ (codes "Cache-control: max-age=180, public"
                                                    ++ (crlf ++ crlf)))))))))))))

-- The writes fill the buffer from its front. Where one does not fit, as much as there is room for is
-- written, and it is an error.
unfoldable pub write_entry_header : Formats → Bytes → Entry → Option NativeCoding → Option ℕ × Bytes
unfolding entry_header
write_entry_header formats buf entry native =
    let header = entry_header formats entry native in
    if leb (length header) (length buf)
    then (some (length header), header ++ drop (length header) buf)
    else (none, take (length buf) header)
