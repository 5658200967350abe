-- ===== src/Request/Reader.antt =====
-- `RequestReader` of src/request/mod.rs. The stream that it reads from is a parameter.
pub mod Window
pub mod Filling
pub mod Framing
pub mod Requests
use mathlib.Core.Option
use zipring.Prelude.{
  ℕ, zero, suc, ◌+◌, ◌-◌, ◌*◌, max, Bool, true, false, ◌&&◌, Option, none, some, List, [], ◌∷◌,
  ◌++◌, ◌==◌, length, take, drop, replicate, if◌then◌else◌, is_empty,
}
use zipring.Prelude.Bytes.{Bytes, codes, eq_bytes}
use zipring.Request.Parse.{Decoders, Request, parse_raw}

-- `AsyncReadExt::read` into room for so many bytes: `none` is an I/O error.
pub record Stream : Type 1 where
  pub State : Type 0
  pub read : State → ℕ → Option Bytes × State

pub record RequestReader : Type 0 where
  pub buf : Bytes
  pub filled : ℕ
  pub consumed : ℕ

abbrev pub request_buf_size : ℕ
request_buf_size = 8 * 1024

abbrev pub with_capacity : ℕ → RequestReader
with_capacity capacity = record { buf = replicate capacity 0; filled = 0; consumed = 0 }

pub data Fill : Type 0 where
  read closed full : Fill

abbrev pub headers_end : Bytes
headers_end = 0x0d ∷ 0x0a ∷ 0x0d ∷ 0x0a ∷ []

-- Whether the first window is `HEADERS_END`. Fewer than four bytes are no window, and differ.
unfoldable pub is_end : Bytes → Bool
is_end bytes = eq_bytes (take 4 bytes) headers_end

-- `bytes.windows(4).position(|window| window == HEADERS_END)`
unfoldable pub window_position : Bytes → Option ℕ
window_position [] = none
window_position (x ∷ xs) = if is_end (x ∷ xs) then some 0 else Option.map suc (window_position xs)

unfoldable pub find_headers_end : Bytes → Option ℕ
find_headers_end bytes = Option.map (λ start. start + 4) (window_position bytes)

-- `&buf[i..j]`
abbrev pub slice : ℕ → ℕ → Bytes → Bytes
slice i j buf = drop i (take j buf)

-- The bytes that have arrived and were not yet answered.
abbrev pub unread : RequestReader → Bytes
unread r = slice r.consumed r.filled r.buf

-- `copy_within(consumed..filled, 0)`, and the two indices after it
abbrev pub compact : RequestReader → RequestReader
compact r = record {
  buf = unread r ++ drop (length (unread r)) r.buf;
  filled = r.filled - r.consumed;
  consumed = 0;
}

-- `if self.consumed == self.filled`
abbrev pub rewind : RequestReader → RequestReader
rewind r = if r.consumed == r.filled then record r { filled = 0; consumed = 0 } else r

module _ (S : Stream) where
  -- The outcome of a read of `bytes` into `buf[filled..]`.
  abbrev pub store_read :
      RequestReader → Option Bytes × S.State → Option Fill × RequestReader × S.State
  store_read r (none, s) = (none, r, s)
  store_read r (some [], s) = (some closed, r, s)
  store_read r (some (b ∷ bs), s) =
      let n = length (b ∷ bs) in
      (
        some read,
        record r {
          buf = take r.filled r.buf ++ ((b ∷ bs) ++ drop (r.filled + n) r.buf);
          filled = r.filled + n;
        },
        s,
      )

  abbrev pub read_more : RequestReader → S.State → Option Fill × RequestReader × S.State
  read_more r s = store_read r (S.read s (length r.buf - r.filled))

  unfoldable pub fill : RequestReader → S.State → Option Fill × RequestReader × S.State
  fill r s =
      if r.filled == length r.buf
      then (if r.consumed == 0 then (some full, r, s) else read_more (compact r) s)
      else read_more r s

  -- How the loop of `next_request` ends: with the end of the request, as the peer closes, by an
  -- error, or with its fuel.
  pub data Search : Type 0 where
    found : ℕ → RequestReader → S.State → Search
    ended : RequestReader → S.State → Search
    failed : RequestReader → S.State → Search
    out_of_fuel : Search

  -- What the loop does with the outcome of `fill`. The rest of the loop is `again`.
  abbrev pub after_fill :
      (RequestReader → S.State → Search) → Option Fill × RequestReader × S.State → Search
  after_fill again (some read, r, s) = again r s
  after_fill again (some closed, r, s) = ended r s
  after_fill again (some full, r, s) = found r.filled r s
  after_fill again (none, r, s) = failed r s

  unfoldable pub search : ℕ → RequestReader → ℕ → S.State → Search
  search zero r scanned s = out_of_fuel
  search (suc fuel) r scanned s =
      let resumed = max (r.filled - (length headers_end - 1)) r.consumed in
      let again = λ (r' : RequestReader) (s' : S.State).
        search fuel r' (resumed - (r.consumed - r'.consumed)) s' in
      elim (find_headers_end (slice scanned r.filled r.buf)) [
        | some end ↦ found (scanned + end) r s
        | none ↦ after_fill again (fill r s)
      ]

  -- The result of `next_request`: an I/O error (`none`), a closed peer (`some none`) or a request,
  -- with the response buffer, the reader and the stream afterwards.
  pub data Next : Type 0 where
    next : Option (Option Request) → Bytes → RequestReader → S.State → Next
    no_fuel : Next

  abbrev pub after_search : Decoders → Bytes → Search → Next
  after_search ext response_buf (found request_end r s) =
      let parsed = parse_raw ext (slice r.consumed request_end r.buf) response_buf in
      next (some parsed.0) parsed.1 (rewind (record r { consumed = request_end })) s
  after_search ext response_buf (ended r s) = next (some none) response_buf r s
  after_search ext response_buf (failed r s) = next none response_buf r s
  after_search ext response_buf out_of_fuel = no_fuel

  unfoldable pub next_request : Decoders → RequestReader → S.State → Bytes → Next
  unfolding search
  next_request ext r s response_buf =
      after_search ext response_buf (search (suc (length r.buf)) r r.consumed s)
