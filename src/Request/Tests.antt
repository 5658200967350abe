-- ===== src/Request/Tests.antt =====
-- Runs of the request side, and the theorems at concrete inputs.
use zipring.Prelude.{
  ℕ, ◌<◌, ◌≡◌, ◌↔◌, refl, true, false, Option, none, some, [], ◌∷◌, ◌++◌, drop, arith,
}
use zipring.Prelude.Bytes.{Bytes, codes, eq_bytes, find_byte, split_on}
use zipring.Prelude.Ascii.{eq_ignore_ascii_case, trim_ascii}
use zipring.Response.Status.{method_not_allowed}
use zipring.Request.Encodings.{
  no_verdicts, read, accepted, decide, is_gzip, is_zstd, is_wildcard, is_zero_weight,
  is_zero_qvalue, read_element,
}
use zipring.Request.Encodings.Laws.{
  read-append, accepted-read, last_verdict, is_zero_weight_lem, contains, zero_weights,
}
use zipring.Request.Parse.{
  Decoders, get, bad, complete, decode_path, decode_loop, parse_raw, extract_headers,
}
use zipring.Request.Parse.Laws.{decode_path_lem}
use zipring.Request.Parse.Served.{Served, parse_raw-Served, refusal, parse_raw-eq-bad}
use zipring.Request.Reader.{
  Stream, with_capacity, next, next_request, fill, find_headers_end, window_position, is_end,
}
use zipring.Request.Reader.Filling.{IsValid, Delivers, ByteStream}
use zipring.Request.Reader.Framing.{frame, to_come}
use zipring.Request.Reader.Requests.{Framed, next_request-Framed}

-- A quality of zero refuses a coding, and a named coding goes before the wildcard.
accepts : accepted (read no_verdicts (codes "gzip;q=0.0, *")) ≡ record { gzip = false; zstd = true }
unfolding accepted read read_element split_on eq_ignore_ascii_case trim_ascii eq_bytes
    is_zero_qvalue find_byte
accepts = refl

read-append_example :
    read (read no_verdicts (codes "gzip")) (codes "zstd")
    ≡ read no_verdicts (codes "gzip" ++ (b',' ∷ codes "zstd"))
read-append_example = read-append no_verdicts (codes "gzip") (codes "zstd")

is_zero_weight_lem_example : is_zero_weight (codes "0.00") ≡ contains zero_weights (codes "0.00")
is_zero_weight_lem_example = is_zero_weight_lem (codes "0.00")

accepted-read_example :
    let es = split_on b',' (codes "zstd, *;q=0") in
    accepted (read no_verdicts (codes "zstd, *;q=0")) ≡ record {
      gzip = decide (last_verdict is_gzip es none) (last_verdict is_wildcard es none);
      zstd = decide (last_verdict is_zstd es none) (last_verdict is_wildcard es none);
    }
accepted-read_example = accepted-read (codes "zstd, *;q=0")

-- Decoders that take every request for `GET /a` and decode nothing.
abbrev plain_get : Decoders
plain_get = record {
  http_parse = λ raw. complete (some (codes "GET")) (some (codes "/a")) [];
  percent_decode = λ raw. raw;
  hex_decode = λ raw. none;
}

abbrev plain_post : Decoders
plain_post = record plain_get {
  http_parse = λ raw. complete (some (codes "POST")) (some (codes "/a")) [];
}

abbrev four : Bytes
four = 0 ∷ 0 ∷ 0 ∷ 0 ∷ []

decode_path_lem_example :
    decode_path plain_get (codes "/a") four ≡ (some 2, codes "/a" ++ drop 2 four)
decode_path_lem_example = decode_path_lem plain_get (codes "/a") four

served : (parse_raw plain_get [] four).0 ≡ some (get 2 (extract_headers plain_get []))
unfolding parse_raw decode_path decode_loop eq_bytes
served = refl

parse_raw-Served_example :
    Served plain_get [] four (parse_raw plain_get [] four).1 2 (extract_headers plain_get [])
parse_raw-Served_example =
    parse_raw-Served plain_get [] four 2 (extract_headers plain_get []) served

parse_raw-eq-bad_example :
    ((parse_raw plain_post [] four).0 ≡ some (bad method_not_allowed))
    ↔ (refusal plain_post four (plain_post.http_parse []) ≡ some method_not_allowed)
parse_raw-eq-bad_example = parse_raw-eq-bad plain_post [] four method_not_allowed

-- A stream that delivers one byte at a time.
abbrev trickle_read : Bytes → ℕ → Option Bytes × Bytes
trickle_read [] n = (some [], [])
trickle_read (b ∷ bs) n = (some (b ∷ []), bs)

abbrev trickle : Stream
trickle = record { State = Bytes; read = trickle_read }

trickle-Delivers : (s : Bytes) (n : ℕ) → 0 < n → Delivers trickle (λ t. t) s n
trickle-Delivers [] n h = record {
  bytes = [];
  after = [];
  is_read = refl;
  in_order = refl;
  bounded = omega arith;
  ends = λ e. refl;
}
trickle-Delivers (b ∷ bs) n h = record {
  bytes = b ∷ [];
  after = bs;
  is_read = refl;
  in_order = refl;
  bounded = omega arith;
  ends = λ e. cc;
}

abbrev trickling : ByteStream trickle
trickling = record { pending = λ t. t; read_lem = trickle-Delivers }

abbrev two_requests : Bytes
two_requests = codes "ab" ++ (0x0d ∷ 0x0a ∷ 0x0d ∷ 0x0a ∷ codes "cd")

-- The first of two requests is cut off, and what has arrived of the second stays.
first_request :
    next_request trickle plain_get (with_capacity 8) two_requests four
    ≡ next
        (some (some (get 2 (extract_headers plain_get []))))
        (codes "/a" ++ (0 ∷ 0 ∷ []))
        (record {
          buf = codes "ab" ++ (0x0d ∷ 0x0a ∷ 0x0d ∷ 0x0a ∷ 0 ∷ 0 ∷ []);
          filled = 0;
          consumed = 0;
        })
        (codes "cd")
unfolding next_request fill find_headers_end window_position is_end parse_raw decode_path
    decode_loop eq_bytes
first_request = refl

fresh_IsValid : IsValid (with_capacity 8)
fresh_IsValid = record { in_order = omega arith; in_buf = omega arith }

next_request-Framed_example :
    Framed trickle trickling plain_get
      (frame 8 (to_come trickle trickling (with_capacity 8) two_requests))
      (with_capacity 8)
      two_requests
      four
      (next_request trickle plain_get (with_capacity 8) two_requests four)
next_request-Framed_example =
    next_request-Framed trickle trickling plain_get (with_capacity 8) two_requests four
      fresh_IsValid
