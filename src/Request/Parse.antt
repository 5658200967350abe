-- ===== src/Request/Parse.antt =====
-- From the bytes of one request to a `Request`: `try_parse_http`, `extract_headers`, `decode_path`
-- and the body of `RequestReader::parse` (src/request/mod.rs).
pub mod Laws
pub mod Served
use zipring.Prelude.{
  ℕ, zero, suc, ◌+◌, Bool, true, false, not, ◌&&◌, Option, none, some, List, [], ◌∷◌, ◌==◌, length,
  take, drop, set, if◌then◌else◌,
}
use zipring.Prelude.Bytes.{Bytes, codes, eq_bytes}
use zipring.Prelude.Ascii.{eq_ignore_ascii_case}
use zipring.Prelude.Words.{Quad, from_be_bytes}
use zipring.Response.Status.{
  HttpStatus, bad_request, header_too_long, method_not_allowed, uri_too_long,
}
use zipring.Request.Encodings.{AcceptedEncodings, EncodingVerdicts, no_verdicts, read, accepted}

-- `httparse::Header`
pub record Header : Type 0 where
  pub name : Bytes
  pub value : Bytes

-- What `httparse::Request::parse` leaves behind: a whole request, one that has yet to end with
-- the path so far, or an error.
pub data Parsed : Type 0 where
  complete : Option Bytes → Option Bytes → List Header → Parsed
  partial : Option Bytes → Parsed
  too_many_headers : Parsed
  invalid : Parsed

-- The functions of third-party crates that a request goes through: `httparse`, `percent_decode`
-- and `const_hex::decode_to_array::<_, 4>`.
pub record Decoders : Type 0 where
  pub http_parse : Bytes → Parsed
  pub percent_decode : Bytes → Bytes
  pub hex_decode : Bytes → Option Quad

pub record Headers : Type 0 where
  pub if_none_match : Option ℕ
  pub accepted_encodings : AcceptedEncodings
  pub close : Bool

-- `Headers::default()`
abbrev pub default_headers : Headers
default_headers = record {
  if_none_match = none;
  accepted_encodings = record { gzip = false; zstd = false };
  close = false;
}

pub data Request : Type 0 where
  get : ℕ → Headers → Request
  bad : HttpStatus → Request

unfoldable pub keep_alive : Request → Bool
keep_alive (get path_len headers) = not headers.close
keep_alive (bad status) = false

-- `decode_path` writes into the front of the buffer, up to its end.
unfoldable pub decode_loop : Bytes → ℕ → Bytes → Option ℕ × Bytes
decode_loop [] len buf = (some len, buf)
decode_loop (byte ∷ rest) len buf =
    let more = decode_loop rest (suc len) (set buf len byte) in
    if len == length buf then (none, buf) else more

module _ (ext : Decoders) where
  -- The first branch of the loop: ten bytes, of which the middle eight are hexadecimal digits.
  abbrev pub with_tag : Option Quad → Headers → Headers
  with_tag none headers = headers
  with_tag (some crc32_bytes) headers = record headers {
    if_none_match = some (from_be_bytes crc32_bytes);
  }

  unfoldable pub extract_header : Headers → EncodingVerdicts → Header → Headers × EncodingVerdicts
  extract_header headers verdicts h =
      if eq_ignore_ascii_case h.name (codes "if-none-match") && length h.value == 10
      then (with_tag (ext.hex_decode (take 8 (drop 1 h.value))) headers, verdicts)
      else if eq_ignore_ascii_case h.name (codes "accept-encoding")
      then (headers, read verdicts h.value)
      else if eq_ignore_ascii_case h.name (codes "connection")
          && eq_ignore_ascii_case h.value (codes "close")
      then (record headers { close = true }, verdicts)
      else (headers, verdicts)

  unfoldable pub extract_loop : Headers → EncodingVerdicts → List Header → Headers
  unfolding extract_header
  extract_loop headers verdicts [] = record headers { accepted_encodings = accepted verdicts }
  extract_loop headers verdicts (h ∷ hs) =
      let next = extract_header headers verdicts h in extract_loop next.0 next.1 hs

  unfoldable pub extract_headers : List Header → Headers
  unfolding extract_loop
  extract_headers hs = extract_loop default_headers no_verdicts hs

  unfoldable pub decode_path : Bytes → Bytes → Option ℕ × Bytes
  decode_path raw buf = decode_loop (ext.percent_decode raw) 0 buf

-- `Result<httparse::Request, Option<HttpStatus>>`
pub data Tried : Type 0 where
  parsed : Option Bytes → Option Bytes → List Header → Tried
  refused : Option HttpStatus → Tried

unfoldable pub try_parse_http : (Bytes → Parsed) → Bytes → Tried
try_parse_http http_parse buf = elim (http_parse buf) [
  | complete method path headers ↦ parsed method path headers
  | partial path ↦ elim path [
    | none ↦ refused (some uri_too_long)
    | some _ ↦ refused (some bad_request)
  ]
  | too_many_headers ↦ refused (some header_too_long)
  | invalid ↦ refused (some bad_request)
]

-- `method != Some("GET")`
abbrev pub is_get : Option Bytes → Bool
is_get none = false
is_get (some method) = eq_bytes method (codes "GET")

module _ (ext : Decoders) where
  -- The last step: the path is decoded into the response buffer, which comes back beside the
  -- request.
  abbrev pub with_path : Headers → Option ℕ × Bytes → Option Request × Bytes
  with_path headers (none, buf) = (some (bad uri_too_long), buf)
  with_path headers (some path_len, buf) = (some (get path_len headers), buf)

  unfoldable pub parse_tried : Tried → Bytes → Option Request × Bytes
  parse_tried (refused (some status)) buf = (some (bad status), buf)
  parse_tried (refused none) buf = (none, buf)
  parse_tried (parsed method none hs) buf = (some (bad bad_request), buf)
  parse_tried (parsed method (some path) hs) buf =
      if not (is_get method)
      then (some (bad method_not_allowed), buf)
      else with_path (extract_headers ext hs) (decode_path ext path buf)

  -- `RequestReader::parse` on `raw`, which is `self.buf[self.consumed..end]`, with the response
  -- buffer. Moving `consumed` to `end` is in `Request.Reader`.
  unfoldable pub parse_raw : Bytes → Bytes → Option Request × Bytes
  unfolding parse_tried try_parse_http
  parse_raw raw response_buf = parse_tried (try_parse_http ext.http_parse raw) response_buf
