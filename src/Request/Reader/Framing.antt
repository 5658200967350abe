-- ===== src/Request/Reader/Framing.antt =====
-- The reader against its specification: a connection's bytes are cut into requests by the
-- terminator alone, however the reads split them.
use mathlib.Core.Path.{subst₂}
use zipring.Prelude.{
  ℕ, zero, suc, ◌+◌, ◌-◌, ◌≤◌, ◌<◌, ◌≡◌, refl, sym, ap, ap₂, ◌∙◌, max, true, false, Option, none,
  some, [], ◌++◌, length, take, drop, if◌then◌else◌, arith, inl, inr, Option-cases, length-append,
  take-all, take_append_of_le, append-nil, append_assoc, leb, take-length-append, drop-drop,
}
use zipring.Prelude.Bytes.{Bytes}
use zipring.Request.Reader.{
  Stream, RequestReader, Fill, slice, unread, find_headers_end, fill, Search, found, ended,
  after_fill, search,
}
use zipring.Request.Reader.Window.{
  shift, find_headers_end-append, find_headers_end-length, find_headers_end-resume,
}
use zipring.Request.Reader.Filling.{
  IsValid, length-unread, ByteStream, Grown, Ended, IsFull, fill-cases,
}

-- Where the first request of `total` ends, for a reader of some capacity: behind the first
-- terminator within the capacity, or else at the capacity, if there are so many bytes.
abbrev frame_at : Option ℕ → ℕ → ℕ → Option ℕ
frame_at (some e) capacity len = some e
frame_at none capacity len = if leb capacity len then some capacity else none

unfoldable pub frame : ℕ → Bytes → Option ℕ
frame capacity total = frame_at (find_headers_end (take capacity total)) capacity (length total)

frame-found :
    (capacity : ℕ) (u v : Bytes) (e : ℕ)
    → length u ≤ capacity
    → find_headers_end u ≡ some e
    → frame capacity (u ++ v) ≡ some e
unfolding frame
frame-found capacity u v e h f =
    rw (
      take_append_of_le capacity u v h,
      find_headers_end-append u (take (capacity - length u) v) e f,
    )

frame-full :
    (capacity : ℕ) (u v : Bytes)
    → length u ≡ capacity
    → find_headers_end u ≡ none
    → frame capacity (u ++ v) ≡ some capacity
unfolding frame
frame-full capacity u v h f =
    let e : take capacity (u ++ v) ≡ u =
      ap (λ k. take k (u ++ v)) (sym h) ∙ take-length-append u v in
    let l : leb capacity (length (u ++ v)) ≡ true = ground (arith, length-append u v, h) in
    rw (e, f, l)

frame-ended :
    (capacity : ℕ) (u : Bytes)
    → length u < capacity
    → find_headers_end u ≡ none
    → frame capacity u ≡ none
unfolding frame
frame-ended capacity u h f =
    let l : leb capacity (length u) ≡ false = ground arith in
    rw (take-all capacity u (omega arith), f, l)

module _ (S : Stream) (B : ByteStream S) where
  open B use {pending}

  -- What is still to be answered: the unread bytes, and those that the stream will deliver.
  abbrev pub to_come : RequestReader → S.State → Bytes
  to_come r s = unread r ++ pending s

  -- The search has found the end of a request, `e` bytes behind `consumed`.
  pub record Found (e capacity : ℕ) (total : Bytes) (o : Search S) : Type 0 where
    pub reader : RequestReader
    pub state : S.State
    pub is_found : o ≡ found (reader.consumed + e) reader state
    pub is_valid : IsValid reader
    pub same_length : length reader.buf ≡ capacity
    pub within : e ≤ length (unread reader)
    pub same_total : to_come reader state ≡ total

  -- The search has found the peer closed.
  pub record Closed (capacity : ℕ) (total : Bytes) (o : Search S) : Type 0 where
    pub reader : RequestReader
    pub state : S.State
    pub is_ended : o ≡ ended reader state
    pub is_valid : IsValid reader
    pub same_length : length reader.buf ≡ capacity
    pub same_total : to_come reader state ≡ total
    pub nothing_after : pending state ≡ []

  abbrev pub Gives : Option ℕ → ℕ → Bytes → Search S → Type 0
  Gives (some e) = Found e
  Gives none = Closed

  -- The search of the unread bytes may begin `k` behind `consumed`.
  abbrev pub CanBegin : RequestReader → ℕ → Type 0
  CanBegin r k = find_headers_end (unread r) ≡ shift k (find_headers_end (drop k (unread r)))

  slice-unread :
      (r : RequestReader) (scanned k : ℕ)
      → scanned ≡ r.consumed + k
      → slice scanned r.filled r.buf ≡ drop k (unread r)
  slice-unread r scanned k e = rw e (sym (drop-drop k r.consumed (take r.filled r.buf)))

  search-some :
      (fuel : ℕ) (r : RequestReader) (s : S.State) (scanned end : ℕ)
      → find_headers_end (slice scanned r.filled r.buf) ≡ some end
      → search S (suc fuel) r scanned s ≡ found (scanned + end) r s
  unfolding search
  search-some fuel r s scanned end h = ground (arith, h)

  search-none :
      (fuel : ℕ) (r : RequestReader) (s : S.State) (scanned : ℕ)
      → find_headers_end (slice scanned r.filled r.buf) ≡ none
      → search S (suc fuel) r scanned s
        ≡ after_fill S
            (λ r' s'.
              search S fuel r' (max (r.filled - 3) r.consumed - (r.consumed - r'.consumed)) s')
            (fill S r s)
  unfolding search
  search-none fuel r s scanned h = ground (arith, h)

  length-unread-le : (r : RequestReader) → IsValid r → length (unread r) ≤ length r.buf
  length-unread-le r v = omega (arith, length-unread r v)

  search-Gives_of_found :
      (fuel : ℕ) (r : RequestReader) (s : S.State) (scanned k end : ℕ)
      → IsValid r
      → scanned ≡ r.consumed + k
      → find_headers_end (unread r) ≡ some (k + end)
      → find_headers_end (slice scanned r.filled r.buf) ≡ some end
      → Gives
          (frame (length r.buf) (to_come r s))
          (length r.buf)
          (to_come r s)
          (search S (suc fuel) r scanned s)
  search-Gives_of_found fuel r s scanned k end v e whole at =
      rw (frame-found (length r.buf) (unread r) (pending s) (k + end) (length-unread-le r v) whole)
        (record {
          reader = r;
          state = s;
          is_found =
              search-some fuel r s scanned end at
              ∙ ap (λ n. found n r s)
                  (let p : scanned + end ≡ r.consumed + (k + end) = omega arith in p);
          is_valid = v;
          same_length = refl;
          within = find_headers_end-length (unread r) (k + end) whole;
          same_total = refl;
        })

  Gives-of_full :
      (r : RequestReader) (s : S.State) (o : Search S)
      → IsValid r
      → find_headers_end (unread r) ≡ none
      → IsFull S B r s (fill S r s)
      → o ≡ found r.filled r s
      → Gives (frame (length r.buf) (to_come r s)) (length r.buf) (to_come r s) o
  Gives-of_full r s o v none_yet f is =
      let whole : length (unread r) ≡ length r.buf =
        omega (arith, length-unread r v, f.at_front, f.to_the_end) in
      rw (frame-full (length r.buf) (unread r) (pending s) whole none_yet) (record {
        reader = r;
        state = s;
        is_found =
            is
            ∙ ap (λ n. found n r s)
                (let p : r.filled ≡ r.consumed + length r.buf =
                    omega (arith, f.at_front, f.to_the_end) in
                  p);
        is_valid = v;
        same_length = refl;
        within = omega arith;
        same_total = refl;
      })

  Gives-of_ended :
      (r : RequestReader) (s : S.State) (o : Search S)
      → IsValid r
      → find_headers_end (unread r) ≡ none
      → (e : Ended S B r s (fill S r s)) → o ≡ ended e.reader e.after
      → Gives (frame (length r.buf) (to_come r s)) (length r.buf) (to_come r s) o
  Gives-of_ended r s o v none_yet e is =
      let all_unread : to_come r s ≡ unread r =
        ap (λ p. unread r ++ p) e.nothing_left ∙ append-nil (unread r) in
      let cut : frame (length r.buf) (to_come r s) ≡ none =
        ap (frame (length r.buf)) all_unread
        ∙ frame-ended (length r.buf) (unread r) e.room none_yet in
      rw cut (record {
        reader = e.reader;
        state = e.after;
        is_ended = is;
        is_valid = e.is_valid;
        same_length = e.same_length;
        same_total = ap₂ (λ u p. u ++ p) e.unread_is (e.nothing_after ∙ sym e.nothing_left);
        nothing_after = e.nothing_after;
      })

  Gives-of_Grown :
      (r : RequestReader) (s : S.State) (rest o : Search S)
      (outcome : Option Fill × RequestReader × S.State) (g : Grown S B r s outcome)
      → Gives
          (frame (length g.reader.buf) (to_come g.reader g.after))
          (length g.reader.buf)
          (to_come g.reader g.after)
          rest
      → o ≡ rest
      → Gives (frame (length r.buf) (to_come r s)) (length r.buf) (to_come r s) o
  Gives-of_Grown r s rest o outcome g h is =
      let same : to_come g.reader g.after ≡ to_come r s =
        ap (λ u. u ++ pending g.after) g.unread_is
        ∙ append_assoc (unread r) g.bytes (pending g.after)
        ∙ ap (λ p. unread r ++ p) (sym g.in_order) in
      rw is (subst₂ (λ n t. Gives (frame n t) n t rest) g.same_length same h)

  pub search-Gives :
      (fuel : ℕ) (r : RequestReader) (s : S.State) (scanned k : ℕ)
      → IsValid r
      → scanned ≡ r.consumed + k
      → CanBegin r k
      → length r.buf < fuel + length (unread r)
      → Gives
          (frame (length r.buf) (to_come r s))
          (length r.buf)
          (to_come r s)
          (search S fuel r scanned s)
  search-Gives zero r s scanned k v e c f = absurd (omega (arith, length-unread r v))
  search-Gives (suc fuel) r s scanned k v e c f =
      elim (Option-cases (find_headers_end (slice scanned r.filled r.buf))) [
        | inr (end, at) ↦
            search-Gives_of_found fuel r s scanned k end v e
              (c ∙ ap (shift k) (ap find_headers_end (sym (slice-unread r scanned k e)) ∙ at)) at
        | inl absent ↦
            let none_yet : find_headers_end (unread r) ≡ none =
              c ∙ ap (shift k) (ap find_headers_end (sym (slice-unread r scanned k e)) ∙ absent) in
            let step = search-none fuel r s scanned absent in
            elim (fill-cases S B r s v) [
              | inr (inr f) ↦
                  Gives-of_full r s _ v none_yet f (step ∙ ap (after_fill S _) f.outcome_is)
              | inr (inl g) ↦
                  Gives-of_ended r s _ v none_yet g (step ∙ ap (after_fill S _) g.outcome_is)
              | inl g ↦
                  Gives-of_Grown r s
                    (search S fuel g.reader
                      (max (r.filled - 3) r.consumed - (r.consumed - g.reader.consumed)) g.after)
                    _ _ g
                    (search-Gives fuel g.reader g.after
                      (max (r.filled - 3) r.consumed - (r.consumed - g.reader.consumed))
                      (length (unread r) - 3) g.is_valid
                      (omega (arith, length-unread r v, g.moved_back))
                      (rw g.unread_is (find_headers_end-resume (unread r) g.bytes none_yet))
                      (omega (
                        arith,
                        g.same_length,
                        ap length g.unread_is,
                        length-append (unread r) g.bytes,
                        g.some_bytes,
                      )))
                    (step ∙ ap (after_fill S _) g.outcome_is)
            ]
      ]
