-- ===== src/Request/Parse/Laws.antt =====
-- The path in the response buffer, the statuses of refused requests, and the headers that a
-- connection is answered by.
use native.Mathlib.Nat.{add-zero}
use zipring.Prelude.{
  ℕ, suc, ◌+◌, ◌≡◌, refl, ap, ◌∙◌, false, Option, none, some, [], ◌∷◌, ◌++◌, ◌==◌, length, take,
  drop, set, leb, le→leb, ==_iff, if◌then◌else◌, arith, inl, inr, Bool-cases, append-nil,
  append_assoc, length-append, length-drop, length-take, leb→le,
}
use zipring.Prelude.Bytes.{Bytes}
use zipring.Request.Parse.{
  Decoders, Headers, Tried, parsed, refused, with_path, is_get, decode_loop, decode_path, parse_raw,
  parse_tried, try_parse_http,
}

-- A write just behind a front.
set-append :
    (front rest : Bytes) (x b : ℕ)
    → set (front ++ (x ∷ rest)) (length front) b ≡ (front ++ (b ∷ [])) ++ rest
set-append [] rest x b = refl
set-append (c ∷ front) rest x b = ap (◌∷◌ c) (set-append front rest x b)

-- What the loop leaves where the front of the buffer is written already.
abbrev decoded_behind : ℕ → Bytes → Bytes → Bytes → Option ℕ × Bytes
decoded_behind len front bytes rest =
    if leb (length bytes) (length rest)
    then (some (len + length bytes), front ++ (bytes ++ drop (length bytes) rest))
    else (none, front ++ take (length rest) bytes)

decode_loop_lem :
    (bytes front rest : Bytes) (len : ℕ)
    → len ≡ length front
    → decode_loop bytes len (front ++ rest) ≡ decoded_behind len front bytes rest
unfolding decode_loop
decode_loop_lem [] front rest len e = rw (le→leb 0 (length rest) (omega arith), add-zero)
decode_loop_lem (b ∷ bytes) front [] len e =
    rw (append-nil, e, (==_iff (length front) (length front)).1 refl) (ground arith)
decode_loop_lem (b ∷ bytes) front (x ∷ rest) len e =
    let apart : (len == length (front ++ (x ∷ rest))) ≡ false =
      ground (arith, length-append front (x ∷ rest)) in
    let front' = front ++ (b ∷ []) in
    let ih =
      decode_loop_lem bytes front' rest (suc len) (omega (arith, length-append front (b ∷ []))) in
    rw (apart, e, set-append front rest x b)
      (rw e at ih
        ∙ ground (
          arith,
          append_assoc front (b ∷ []) (bytes ++ drop (length bytes) rest),
          append_assoc front (b ∷ []) (take (length rest) bytes),
        ))

-- A decoded path that fits replaces the front of the buffer, and its length is returned; of one
-- that does not fit, the buffer holds as much as goes in, and there is no length.
pub decode_path_lem :
    (ext : Decoders) (raw buf : Bytes)
    → let decoded = ext.percent_decode raw in
      decode_path ext raw buf ≡ (
        if leb (length decoded) (length buf)
        then (some (length decoded), decoded ++ drop (length decoded) buf)
        else (none, take (length buf) decoded))
unfolding decode_path
decode_path_lem ext raw buf = decode_loop_lem (ext.percent_decode raw) [] buf 0 refl ∙ ground arith

length-decode_path :
    (ext : Decoders) (raw buf : Bytes) → length (decode_path ext raw buf).1 ≡ length buf
length-decode_path ext raw buf =
    let decoded = ext.percent_decode raw in
    rw decode_path_lem (elim (Bool-cases (leb (length decoded) (length buf))) [
      | inl fits ↦
          rw (fits, length-append decoded (drop (length decoded) buf))
            (omega (
              arith,
              length-drop {0} (length decoded) buf,
              leb→le (length decoded) (length buf) fits,
            ))
      | inr long ↦ rw (long, length-take (length buf) decoded) (ground (arith, long))
    ])

length-with_path :
    (ext : Decoders) (h : Headers) (r : Option ℕ × Bytes)
    → length (with_path ext h r).1 ≡ length r.1
length-with_path ext h (none, b) = refl
length-with_path ext h (some n, b) = refl

length-parse_tried :
    (ext : Decoders) (t : Tried) (buf : Bytes) → length (parse_tried ext t buf).1 ≡ length buf
unfolding parse_tried
length-parse_tried ext (refused (some status)) buf = refl
length-parse_tried ext (refused none) buf = refl
length-parse_tried ext (parsed method none hs) buf = refl
length-parse_tried ext (parsed method (some path) hs) buf = elim (Bool-cases (is_get method)) [
  | inl g ↦
      rw g (length-with_path ext _ (decode_path ext path buf) ∙ length-decode_path ext path buf)
  | inr other ↦ rw other
]

-- Parsing keeps the length of the response buffer, on every branch.
pub length-parse_raw :
    (ext : Decoders) (raw buf : Bytes) → length (parse_raw ext raw buf).1 ≡ length buf
unfolding parse_raw
length-parse_raw ext raw buf = length-parse_tried ext (try_parse_http ext.http_parse raw) buf
