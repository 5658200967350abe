-- ===== src/Request/Reader/Requests.antt =====
-- What `next_request` returns, told from the bytes to come alone.
use zipring.Prelude.{
  ℕ, suc, ◌+◌, ◌≤◌, ◌≡◌, sym, ap, ◌∙◌, Option, none, some, ◌++◌, ◌==◌, ==_iff, length, take, drop,
  arith, inl, inr, Bool-cases, length-take, take-append, drop-append, drop-drop, drop-all,
  take-drop-take, append-nil,
}
use zipring.Prelude.Bytes.{Bytes}
use zipring.Request.Parse.{Decoders, parse_raw}
use zipring.Request.Reader.{
  Stream, RequestReader, slice, unread, Search, Next, next, rewind, after_search, next_request,
}
use zipring.Request.Reader.Window.{find_headers_end-shift_zero}
use zipring.Request.Reader.Filling.{IsValid, length-unread, ByteStream}
use zipring.Request.Reader.Framing.{frame, Gives, to_come, search-Gives}

module _ (r : RequestReader) (v : IsValid r) (e : ℕ) (within : e ≤ length (unread r)) where
  slice-take : slice r.consumed (r.consumed + e) r.buf ≡ take e (unread r)
  slice-take = sym (take-drop-take r.consumed e r.filled r.buf (omega (arith, length-unread r v)))

  abbrev advanced : RequestReader
  advanced = record r { consumed = r.consumed + e }

  advanced-IsValid : IsValid advanced
  advanced-IsValid = record { in_order = omega (arith, length-unread r v); in_buf = v.in_buf }

  unread-advanced : unread advanced ≡ drop e (unread r)
  unread-advanced = sym (drop-drop e r.consumed (take r.filled r.buf))

rewind-IsValid : (r : RequestReader) → IsValid r → IsValid (rewind r)
rewind-IsValid r v = elim (Bool-cases (r.consumed == r.filled)) [
  | inl same ↦ rw same (record { in_order = omega arith; in_buf = omega arith })
  | inr more ↦ rw more v
]

length-rewind : (r : RequestReader) → length (rewind r).buf ≡ length r.buf
length-rewind r = ground arith

unread-rewind : (r : RequestReader) → unread (rewind r) ≡ unread r
unread-rewind r = elim (Bool-cases (r.consumed == r.filled)) [
  | inl same ↦ rw same (
      sym (
        drop-all r.consumed (take r.filled r.buf)
          (omega (arith, length-take {0} r.filled r.buf, (==_iff r.consumed r.filled).0 same))))
  | inr more ↦ rw more
]

module _ (S : Stream) (B : ByteStream S) (ext : Decoders) where
  open B use {pending}

  -- A request has ended `e` bytes into the bytes to come: it is parsed from those alone, and the
  -- reader and the stream are left with the bytes behind them.
  pub record Parses (e : ℕ) (r : RequestReader) (s : S.State) (response_buf : Bytes)
      (result : Next S) : Type 0 where
    pub reader : RequestReader
    pub after : S.State
    pub result_is :
        let parsed = parse_raw ext (take e (to_come S B r s)) response_buf in
        result ≡ next (some parsed.0) parsed.1 reader after
    pub is_valid : IsValid reader
    pub same_length : length reader.buf ≡ length r.buf
    pub left_over : to_come S B reader after ≡ drop e (to_come S B r s)

  -- The peer closed before a request ended: nothing is answered, and all bytes have arrived.
  pub record Closes (r : RequestReader) (s : S.State) (response_buf : Bytes) (result : Next S)
      : Type 0 where
    pub reader : RequestReader
    pub after : S.State
    pub result_is : result ≡ next (some none) response_buf reader after
    pub is_valid : IsValid reader
    pub same_length : length reader.buf ≡ length r.buf
    pub left_over : unread reader ≡ to_come S B r s

  abbrev pub Framed : Option ℕ → RequestReader → S.State → Bytes → Next S → Type 0
  Framed (some e) = Parses e
  Framed none = Closes

  Framed-search :
      (cut : Option ℕ) (r : RequestReader) (s : S.State) (response_buf : Bytes) (o : Search S)
      → Gives S B cut (length r.buf) (to_come S B r s) o
      → Framed cut r s response_buf (after_search S ext response_buf o)
  Framed-search none r s rb o g = record {
    reader = g.reader;
    after = g.state;
    result_is = ap (after_search S ext rb) g.is_ended;
    is_valid = g.is_valid;
    same_length = g.same_length;
    left_over =
        sym (append-nil (unread g.reader))
        ∙ ap (λ p. unread g.reader ++ p) (sym g.nothing_after)
        ∙ g.same_total;
  }
  Framed-search (some e) r s rb o g =
      let q = g.reader in
      let moved = advanced q g.is_valid e g.within in
      let raw : slice q.consumed (q.consumed + e) q.buf ≡ take e (to_come S B r s) =
        slice-take q g.is_valid e g.within
        ∙ sym (take-append e (unread q) (pending g.state) g.within)
        ∙ ap (take e) g.same_total in
      record {
        reader = rewind moved;
        after = g.state;
        result_is =
            ap (after_search S ext rb) g.is_found
            ∙ ap
                (λ w.
                  next (some (parse_raw ext w rb).0) (parse_raw ext w rb).1 (rewind moved) g.state)
                raw;
        is_valid = rewind-IsValid moved (advanced-IsValid q g.is_valid e g.within);
        same_length = length-rewind moved ∙ g.same_length;
        left_over =
            ap (λ u. u ++ pending g.state)
              (unread-rewind moved ∙ unread-advanced q g.is_valid e g.within)
            ∙ sym (drop-append e (unread q) (pending g.state) g.within)
            ∙ ap (drop e) g.same_total;
      }

  -- On a stream with no I/O error `next_request` returns, whatever the reads deliver at a time. With
  -- `total` the bytes already held and those still to arrive: if a terminator ends within the
  -- buffer's capacity, the request is the bytes up to the first; if there is none and `total` is as
  -- long as the capacity, the request is the first `capacity` bytes; else there is no request. The
  -- reader is then left valid, of the same capacity, and with the rest of `total` to come.
  pub next_request-Framed :
      (r : RequestReader) (s : S.State) (response_buf : Bytes)
      → IsValid r
      → Framed
          (frame (length r.buf) (to_come S B r s))
          r
          s
          response_buf
          (next_request S ext r s response_buf)
  unfolding next_request
  next_request-Framed r s response_buf v =
      Framed-search (frame (length r.buf) (to_come S B r s)) r s response_buf _ (
        search-Gives S B (suc (length r.buf)) r s r.consumed 0 v (omega arith)
          (find_headers_end-shift_zero (unread r)) (omega arith))
