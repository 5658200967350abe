-- ===== src/Request/Parse/Served.antt =====
-- Which requests are served, and which status the others get.
use zipring.Prelude.{
  ℕ, ◌≤◌, ◌≡◌, ◌≢◌, ◌↔◌, refl, ap, ◌∙◌, not, Option, none, some, List, [], ◌++◌, length, take, drop,
  if◌then◌else◌, arith, inl, inr, Bool-cases, leb, take-length-append,
}
use zipring.Prelude.Bytes.{Bytes, codes, eq_bytes, eq_bytes_iff}
use zipring.Response.Status.{
  HttpStatus, bad_request, header_too_long, method_not_allowed, uri_too_long,
}
use zipring.Request.Parse.{
  Decoders, Request, get, bad, Headers, Header, Parsed, complete, partial, too_many_headers,
  invalid, Tried, parsed, refused, with_path, is_get, extract_headers, decode_path, parse_raw,
  parse_tried, try_parse_http,
}
use zipring.Request.Parse.Laws.{decode_path_lem}

-- A request that is answered with content: a whole GET whose decoded path fits the buffer.
pub record Served (ext : Decoders) (raw buf buf' : Bytes) (path_len : ℕ) (headers : Headers)
    : Type 0 where
  pub path : Bytes
  pub header_list : List Header
  pub is_complete : ext.http_parse raw ≡ complete (some (codes "GET")) (some path) header_list
  pub length_is : path_len ≡ length (ext.percent_decode path)
  pub fits : path_len ≤ length buf
  pub in_front : take path_len buf' ≡ ext.percent_decode path
  pub headers_are : headers ≡ extract_headers ext header_list

try_parse_http-parsed :
    (http_parse : Bytes → Parsed) (raw : Bytes) (m p : Option Bytes) (hs : List Header)
    → try_parse_http http_parse raw ≡ parsed m p hs
    → http_parse raw ≡ complete m p hs
unfolding try_parse_http
try_parse_http-parsed http_parse raw m p hs h = ground arith

module _ (ext : Decoders) (raw buf : Bytes) (path_len : ℕ) (headers : Headers) where
  Served-path :
      (path : Bytes) (hs : List Header)
      → ext.http_parse raw ≡ complete (some (codes "GET")) (some path) hs
      → (with_path ext (extract_headers ext hs) (decode_path ext path buf)).0
        ≡ some (get path_len headers)
      → Served ext raw buf
          (with_path ext (extract_headers ext hs) (decode_path ext path buf)).1
          path_len
          headers
  Served-path path hs whole =
      let decoded = ext.percent_decode path in
      elim (Bool-cases (leb (length decoded) (length buf))) [
        | inl fits ↦
            rw (decode_path_lem, fits)
              (λ h. record {
                path = path;
                header_list = hs;
                is_complete = whole;
                length_is = ground (arith, h);
                fits = ground (arith, h, fits);
                in_front =
                    ap (λ n. take n (decoded ++ drop (length decoded) buf)) (ground (arith, h))
                    ∙ take-length-append decoded (drop (length decoded) buf);
                headers_are = ground (arith, h);
              })
        | inr long ↦ rw (decode_path_lem, long) (λ h. cc)
      ]

  Served-tried :
      (t : Tried)
      → try_parse_http ext.http_parse raw ≡ t
      → (parse_tried ext t buf).0 ≡ some (get path_len headers)
      → Served ext raw buf (parse_tried ext t buf).1 path_len headers
  unfolding parse_tried
  Served-tried (refused (some status)) e = λ h. cc
  Served-tried (refused none) e = λ h. cc
  Served-tried (parsed method none hs) e = λ h. cc
  Served-tried (parsed none (some path) hs) e = λ h. cc
  Served-tried (parsed (some m) (some path) hs) e = elim (Bool-cases (eq_bytes m (codes "GET"))) [
    | inl same ↦ rw same (λ h.
        Served-path path hs
          (try_parse_http-parsed ext.http_parse raw (some m) (some path) hs e
            ∙ ap (λ v. complete (some v) (some path) hs) ((eq_bytes_iff m (codes "GET")).0 same))
          h)
    | inr other ↦ rw other (λ h. cc)
  ]

-- A request is served only if it is a whole GET request with a path whose decoded form fits the
-- response buffer. Its decoded path stands in front of the buffer then, with the length that the
-- request names, and its headers are those read from the header lines.
pub parse_raw-Served :
    (ext : Decoders) (raw buf : Bytes) (path_len : ℕ) (headers : Headers)
    → (parse_raw ext raw buf).0 ≡ some (get path_len headers)
    → Served ext raw buf (parse_raw ext raw buf).1 path_len headers
unfolding parse_raw
parse_raw-Served ext raw buf path_len headers h =
    Served-tried ext raw buf path_len headers (try_parse_http ext.http_parse raw) refl h

-- The status of a request that is not served.
abbrev pub refusal : Decoders → Bytes → Parsed → Option HttpStatus
refusal ext buf (partial none) = some uri_too_long
refusal ext buf (partial (some _)) = some bad_request
refusal ext buf too_many_headers = some header_too_long
refusal ext buf invalid = some bad_request
refusal ext buf (complete method none hs) = some bad_request
refusal ext buf (complete method (some path) hs) =
    if not (is_get method)
    then some method_not_allowed
    else if leb (length (ext.percent_decode path)) (length buf)
    then none
    else some uri_too_long

-- What the request is where it is not served.
abbrev Refused : Option HttpStatus → Option Request → Type 0
Refused (some status) r = r ≡ some (bad status)
Refused none r = (path_len : ℕ) × (headers : Headers) × (r ≡ some (get path_len headers))

parse_tried-Refused :
    (ext : Decoders) (p : Parsed) (buf : Bytes)
    → Refused (refusal ext buf p) (parse_tried ext (try_parse_http (λ _. p) []) buf).0
unfolding parse_tried try_parse_http
parse_tried-Refused ext (partial none) buf = refl
parse_tried-Refused ext (partial (some _)) buf = refl
parse_tried-Refused ext too_many_headers buf = refl
parse_tried-Refused ext invalid buf = refl
parse_tried-Refused ext (complete method none hs) buf = refl
parse_tried-Refused ext (complete method (some path) hs) buf = elim (Bool-cases (is_get method)) [
  | inr other ↦ rw other refl
  | inl g ↦ elim (Bool-cases (leb (length (ext.percent_decode path)) (length buf))) [
    | inl fits ↦ rw (g, decode_path_lem, fits) (_, _, refl)
    | inr long ↦ rw (g, decode_path_lem, long) refl
  ]
]

parse_raw-Refused :
    (ext : Decoders) (raw buf : Bytes)
    → Refused (refusal ext buf (ext.http_parse raw)) (parse_raw ext raw buf).0
unfolding parse_raw try_parse_http
parse_raw-Refused ext raw buf = parse_tried-Refused ext (ext.http_parse raw) buf

Refused-iff :
    (o : Option HttpStatus) (r : Option Request) (status : HttpStatus)
    → Refused o r
    → (r ≡ some (bad status)) ↔ (o ≡ some status)
Refused-iff (some s) r status h = (λ e. ground arith, λ e. ground arith)
Refused-iff none r status (n, hs, h) = (λ e. cc, λ e. cc)

-- A request is refused with a status exactly in these cases: 414 if it fills the buffer before
-- its path ends or its decoded path does not fit, 431 for too many headers, 405 for another method
-- than GET, and 400 for the rest that is not a whole request with a path.
pub parse_raw-eq-bad :
    (ext : Decoders) (raw buf : Bytes) (status : HttpStatus)
    → ((parse_raw ext raw buf).0 ≡ some (bad status))
      ↔ (refusal ext buf (ext.http_parse raw) ≡ some status)
parse_raw-eq-bad ext raw buf status = Refused-iff _ _ status (parse_raw-Refused ext raw buf)

Refused-ne-none : (o : Option HttpStatus) (r : Option Request) → Refused o r → r ≢ none
Refused-ne-none (some s) r h e = cc
Refused-ne-none none r (n, hs, h) e = cc

-- Parsing always gives a request, so that `None` is left for a peer that has closed.
pub parse_raw-ne-none : (ext : Decoders) (raw buf : Bytes) → (parse_raw ext raw buf).0 ≢ none
parse_raw-ne-none ext raw buf = Refused-ne-none _ _ (parse_raw-Refused ext raw buf)
