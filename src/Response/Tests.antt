-- ===== src/Response/Tests.antt =====
-- Examples of the theorems on responses.
use zipring.Prelude.{
  ◌-◌, ◌*◌, ◌<◌, Option, ℕ, List, ltb, ◌/◌, ◌%◌, ◌+◌, ◌≡◌, refl, ◌++◌, [], ◌∷◌, none, some, length,
  take, drop, replicate, leb, le→leb, if◌then◌else◌, arith,
}
use zipring.Prelude.Bytes.{Bytes, codes, eq_bytes}
use zipring.Prelude.Ascii.{eq_ignore_ascii_case}
use zipring.Response.Listing.{index_header, serve_texts}
use zipring.Response.Listing.Chunked.{joined}
use zipring.Response.Listing.Frames.{IsHex}
use zipring.Response.Listing.Texts.{Lists, serve_texts-Lists}
use zipring.Response.Head.{Formats}
use zipring.Prelude.Words.{Quad}
use zipring.Response.Head.{entity_tag}
use zipring.Response.Head.Tag.{Inverse, extract_headers-entity_tag}
use zipring.Request.Parse.{Decoders, invalid, extract_headers}
use zipring.Response.Status.{as_str, not_found}
use zipring.Response.Replies.{
  Replies, status_text, redirect_text, serve_status, serve_redirect_into_dir,
  serve_status-serve_redirect_into_dir,
}
use zipring.Response.Entry.{Entry, Method, ReadExactAt, data_start}
use zipring.Response.Coding.{gzip, prefix, trailer}
use zipring.Response.Stream.{Writer, Accepts, send_body}
use zipring.Response.Stream.Sent.{Sends, send_body_lem}
use zipring.Response.Body.Native.{new}
use zipring.Response.Body.Native.Puts.{Holds, IsWithin}
use zipring.Response.Body.Native.Whole.{native_body, native_body-Gives}

-- A local header with a name of one byte, the name, and three bytes of data.
abbrev pub archive : Bytes
archive = replicate 26 0 ++ (1 ∷ 0 ∷ 0 ∷ 0 ∷ 97 ∷ 7 ∷ 8 ∷ 9 ∷ [])

abbrev pub entry_a : Entry
entry_a = record {
  name = codes "a";
  method = Method.deflate;
  crc32 = 0x01020304;
  header_offset = 0;
  compressed_size = 3;
  uncompressed_size = 5;
}

abbrev pub read_from : Bytes → ReadExactAt
read_from contents offset n =
    if leb (offset + n) (length contents) then some (take n (drop offset contents)) else none

pub read_from-Holds : (contents : Bytes) → Holds (read_from contents) contents
read_from-Holds contents offset n h = rw (le→leb (offset + n) (length contents) h) refl

pub archive-IsWithin : IsWithin archive entry_a
unfolding data_start
archive-IsWithin = record { header_within = omega arith; data_within = omega arith }

-- A stream that keeps what it is sent.
abbrev pub recorder : Writer
recorder = record { State = Bytes; write_all = λ s bytes. some (s ++ bytes); sent = λ s. s }

pub recorder-Accepts : Accepts recorder
recorder-Accepts s bytes = record { s' = s ++ bytes; write_is = refl; sends = refl }

send_body_lem_example :
    Sends recorder
      (native_body (read_from archive) entry_a gzip)
      (replicate 60 0)
      []
      (take 5 (replicate 60 0)
        ++ (native_body-Gives
              (read_from archive)
              archive
              entry_a
              gzip
              (read_from-Holds archive)
              archive-IsWithin).rest
            (new entry_a))
      (send_body recorder
        (native_body (read_from archive) entry_a gzip)
        30
        (new entry_a)
        (replicate 60 0)
        []
        5)
unfolding data_start prefix trailer
send_body_lem_example =
    send_body_lem recorder (native_body (read_from archive) entry_a gzip) recorder-Accepts
      (native_body-Gives (read_from archive) archive entry_a gzip (read_from-Holds archive)
        archive-IsWithin)
      30 (new entry_a) (replicate 60 0) [] 5 (omega arith) (omega arith) (omega arith)

abbrev hex_digit : ℕ → ℕ
hex_digit d = if ltb d 10 then 48 + d else 87 + d

abbrev pub hex_digits : Bytes → Bytes
hex_digits [] = []
hex_digits (b ∷ bs) = hex_digit (b / 16) ∷ hex_digit (b % 16) ∷ hex_digits bs

pub hex_digits-IsHex : IsHex hex_digits
hex_digits-IsHex [] = refl
hex_digits-IsHex (b ∷ bs) = omega (arith, hex_digits-IsHex bs)

abbrev two_texts : List Bytes
two_texts = replicate 20 66 ∷ (replicate 30 67 ∷ [])

-- The buffer has no room for all three texts, so chunks are sent before the last.
serve_texts-Lists_example :
    Lists hex_digits hex_digits-IsHex recorder recorder-Accepts
      (replicate 150 0)
      ([] ++ index_header)
      (replicate 30 65 ++ joined two_texts)
      (serve_texts hex_digits recorder (replicate 30 65 ∷ two_texts) (replicate 150 0) [])
serve_texts-Lists_example =
    serve_texts-Lists hex_digits hex_digits-IsHex recorder recorder-Accepts (replicate 30 65)
      two_texts (replicate 150 0) [] 30 (omega arith)
      ((omega arith, omega arith), ((omega arith, omega arith), ((omega arith, omega arith), tt)))

abbrev digit_value : ℕ → ℕ
digit_value c = if ltb c 58 then c - 48 else c - 87

digit_value-hex_digit : (d : ℕ) → d < 16 → digit_value (hex_digit d) ≡ d
digit_value-hex_digit d h = ground arith

abbrev byte_value : ℕ → ℕ → ℕ
byte_value high low = digit_value high * 16 + digit_value low

byte_value-hex_digit : (b : ℕ) → b < 256 → byte_value (hex_digit (b / 16)) (hex_digit (b % 16)) ≡ b
byte_value-hex_digit b h =
    rw (digit_value-hex_digit (b / 16) (omega arith), digit_value-hex_digit (b % 16) (omega arith))
      (omega arith)

abbrev encode_quad : Quad → Bytes
encode_quad (a, b, c, d) =
    hex_digit (a / 16)
    ∷ hex_digit (a % 16)
    ∷ hex_digit (b / 16)
    ∷ hex_digit (b % 16)
    ∷ hex_digit (c / 16)
    ∷ hex_digit (c % 16)
    ∷ hex_digit (d / 16)
    ∷ hex_digit (d % 16)
    ∷ []

abbrev decode_quad : Bytes → Option Quad
decode_quad (a ∷ b ∷ c ∷ d ∷ e ∷ f ∷ g ∷ h ∷ []) =
    some (byte_value a b, byte_value c d, byte_value e f, byte_value g h)
decode_quad _ = none

abbrev pub hex_formats : Formats
hex_formats = record {
  mime_type = λ _. codes "text/plain";
  decimal = λ n. (48 + n) ∷ [];
  hex_quad = encode_quad;
}

abbrev pub hex_decoders : Decoders
hex_decoders = record {
  http_parse = λ _. invalid;
  percent_decode = λ raw. raw;
  hex_decode = decode_quad;
}

pub hex-Inverse : Inverse hex_decoders hex_formats
hex-Inverse = record {
  digits = λ q. refl;
  decodes = λ q small.
      rw
        (
          byte_value-hex_digit q.0 small.0,
          byte_value-hex_digit q.1 small.1,
          byte_value-hex_digit q.2 small.2,
          byte_value-hex_digit q.3 small.3,
        )
        refl;
}

extract_headers-entity_tag_example :
    (extract_headers hex_decoders (
      (record { name = codes "Host"; value = codes "localhost" } ∷ [])
      ++ (record { name = codes "If-None-Match"; value = entity_tag hex_formats 0xdeadbeef }
          ∷ (record { name = codes "Connection"; value = codes "close" } ∷ [])))).if_none_match
    ≡ some 0xdeadbeef
unfolding eq_ignore_ascii_case eq_bytes
extract_headers-entity_tag_example =
    extract_headers-entity_tag hex_decoders hex_formats hex-Inverse 0xdeadbeef (omega arith)
      (codes "If-None-Match") (record { name = codes "Host"; value = codes "localhost" } ∷ [])
      (record { name = codes "Connection"; value = codes "close" } ∷ []) refl (refl, tt)

serve_status-serve_redirect_into_dir_example :
    Replies recorder
      (replicate 100 0)
      (status_text not_found)
      []
      (serve_status recorder not_found (replicate 100 0) [])
    × Replies recorder
        (replicate 100 0)
        (redirect_text (λ name. name) (codes "docs"))
        []
        (serve_redirect_into_dir recorder (λ name. name) (codes "docs") (replicate 100 0) [])
unfolding as_str
serve_status-serve_redirect_into_dir_example =
    serve_status-serve_redirect_into_dir recorder recorder-Accepts not_found (λ name. name)
      (codes "docs") (replicate 100 0) [] (omega arith) (omega arith)
