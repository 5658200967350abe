-- ===== src/Request/Reader/Filling.antt =====
-- `fill` keeps the unread bytes, and appends what the stream delivers.
use zipring.Prelude.{
  ℕ, ◌+◌, ◌-◌, ◌≤◌, ◌<◌, ◌≡◌, refl, sym, ap, ◌∙◌, Option, some, [], ◌∷◌, ◌++◌, ◌==◌, length, take,
  drop, arith, inl, inr, ◌⊎◌, Bool-cases, length-append, length-take, length-drop, drop-append,
  append_assoc, take-length-append,
}
use zipring.Prelude.Bytes.{Bytes}
use zipring.Request.Reader.{
  Stream, RequestReader, Fill, read, closed, full, unread, compact, store_read, read_more, fill,
}

-- The indices are in order and within the buffer.
pub record IsValid (r : RequestReader) : Type 0 where
  pub in_order : r.consumed ≤ r.filled
  pub in_buf : r.filled ≤ length r.buf

pub length-unread : (r : RequestReader) → IsValid r → length (unread r) ≡ r.filled - r.consumed
length-unread r v =
    omega (arith, length-drop {0} r.consumed (take r.filled r.buf), length-take {0} r.filled r.buf)

-- The unread bytes moved to the front.
compact-IsValid : (r : RequestReader) → IsValid r → IsValid (compact r)
compact-IsValid r v = record {
  in_order = omega arith;
  in_buf =
      omega
        (arith, length-append {0} (unread r) (drop (length (unread r)) r.buf), length-unread r v);
}

length-compact : (r : RequestReader) → IsValid r → length (compact r).buf ≡ length r.buf
length-compact r v = omega (
  arith,
  length-append {0} (unread r) (drop (length (unread r)) r.buf),
  length-drop {0} (length (unread r)) r.buf,
  length-unread r v,
)

unread-compact : (r : RequestReader) → IsValid r → unread (compact r) ≡ unread r
unread-compact r v =
    let e : r.filled - r.consumed ≡ length (unread r) = sym (length-unread r v) in
    rw e (take-length-append (unread r) (drop (length (unread r)) r.buf))

-- The reader after a read of `bytes`.
abbrev pub stored : RequestReader → Bytes → RequestReader
stored r bytes = record r {
  buf = take r.filled r.buf ++ (bytes ++ drop (r.filled + length bytes) r.buf);
  filled = r.filled + length bytes;
}

module _ (r : RequestReader) (v : IsValid r) (bytes : Bytes)
    (room : r.filled + length bytes ≤ length r.buf) where
  length-stored : length (stored r bytes).buf ≡ length r.buf
  length-stored = omega (
    arith,
    length-append {0} (take r.filled r.buf) (bytes ++ drop (r.filled + length bytes) r.buf),
    length-append {0} bytes (drop (r.filled + length bytes) r.buf),
    length-take {0} r.filled r.buf,
    length-drop {0} (r.filled + length bytes) r.buf,
  )

  stored-IsValid : IsValid (stored r bytes)
  stored-IsValid = record { in_order = omega arith; in_buf = rw length-stored room }

  unread-stored : unread (stored r bytes) ≡ unread r ++ bytes
  unread-stored =
      let front = take r.filled r.buf in
      let rest = drop (r.filled + length bytes) r.buf in
      let e : r.filled + length bytes ≡ length (front ++ bytes) =
        omega (arith, length-append {0} front bytes, length-take {0} r.filled r.buf) in
      ap (λ k. drop r.consumed (take k (front ++ (bytes ++ rest)))) e
      ∙ ap (λ l. drop r.consumed (take (length (front ++ bytes)) l))
          (sym (append_assoc front bytes rest))
      ∙ ap (drop r.consumed) (take-length-append (front ++ bytes) rest)
      ∙ drop-append r.consumed front bytes (omega (arith, length-take {0} r.filled r.buf))

-- The bytes that a stream is still to deliver, before the peer closes. This is what `read` promises
-- where no I/O error occurs: into room for `n` bytes it delivers the next bytes, at most `n`, and
-- none at all only once the peer has closed.
pub record Delivers (S : Stream) (pending : S.State → Bytes) (s : S.State) (n : ℕ) : Type 0 where
  pub bytes : Bytes
  pub after : S.State
  pub is_read : S.read s n ≡ (some bytes, after)
  pub in_order : pending s ≡ bytes ++ pending after
  pub bounded : length bytes ≤ n
  pub ends : bytes ≡ [] → pending s ≡ []

pub record ByteStream (S : Stream) : Type 0 where
  pub pending : S.State → Bytes
  pub read_lem : (s : S.State) (n : ℕ) → 0 < n → Delivers S pending s n

module _ (S : Stream) (B : ByteStream S) where
  open B use {pending}

  -- `fill` has read some bytes.
  pub record Grown (r : RequestReader) (s : S.State)
      (outcome : Option Fill × RequestReader × S.State) : Type 0 where
    pub bytes : Bytes
    pub reader : RequestReader
    pub after : S.State
    pub outcome_is : outcome ≡ (some read, reader, after)
    pub is_valid : IsValid reader
    pub same_length : length reader.buf ≡ length r.buf
    pub moved_back : reader.consumed ≤ r.consumed
    pub unread_is : unread reader ≡ unread r ++ bytes
    pub some_bytes : 0 < length bytes
    pub in_order : pending s ≡ bytes ++ pending after

  -- `fill` has found that the peer closed. There was room for more.
  pub record Ended (r : RequestReader) (s : S.State)
      (outcome : Option Fill × RequestReader × S.State) : Type 0 where
    pub reader : RequestReader
    pub after : S.State
    pub outcome_is : outcome ≡ (some closed, reader, after)
    pub is_valid : IsValid reader
    pub same_length : length reader.buf ≡ length r.buf
    pub unread_is : unread reader ≡ unread r
    pub room : length (unread r) < length r.buf
    pub nothing_left : pending s ≡ []
    pub nothing_after : pending after ≡ []

  -- `fill` has found the buffer full of unread bytes.
  pub record IsFull (r : RequestReader) (s : S.State)
      (outcome : Option Fill × RequestReader × S.State) : Type 0 where
    pub outcome_is : outcome ≡ (some full, r, s)
    pub at_front : r.consumed ≡ 0
    pub to_the_end : r.filled ≡ length r.buf

  module _ (r q : RequestReader) (s : S.State) (v : IsValid q)
      (same_length : length q.buf ≡ length r.buf) (moved_back : q.consumed ≤ r.consumed)
      (same_unread : unread q ≡ unread r) (room : q.filled < length q.buf) where
    store_read-cases :
        (bytes : Bytes) (after : S.State)
        → pending s ≡ bytes ++ pending after
        → length bytes ≤ length q.buf - q.filled
        → (bytes ≡ [] → pending s ≡ [])
        → Grown r s (store_read S q (some bytes, after))
          ⊎ Ended r s (store_read S q (some bytes, after))
    store_read-cases [] after o b e = inr (record {
      reader = q;
      after = after;
      outcome_is = refl;
      is_valid = v;
      same_length = same_length;
      unread_is = same_unread;
      room = omega (arith, length-unread q v, ap length same_unread);
      nothing_left = e refl;
      nothing_after = sym o ∙ e refl;
    })
    store_read-cases (x ∷ xs) after o b e =
        let fits : q.filled + length (x ∷ xs) ≤ length q.buf = omega arith in
        inl (record {
          bytes = x ∷ xs;
          reader = stored q (x ∷ xs);
          after = after;
          outcome_is = refl;
          is_valid = stored-IsValid q v (x ∷ xs) fits;
          same_length = length-stored q v (x ∷ xs) fits ∙ same_length;
          moved_back = moved_back;
          unread_is = unread-stored q v (x ∷ xs) fits ∙ ap (λ u. u ++ (x ∷ xs)) same_unread;
          some_bytes = omega arith;
          in_order = o;
        })

    read_more-cases : Grown r s (read_more S q s) ⊎ Ended r s (read_more S q s)
    read_more-cases =
        let d = B.read_lem s (length q.buf - q.filled) (omega arith) in
        rw d.is_read (store_read-cases d.bytes d.after d.in_order d.bounded d.ends)

  -- The three outcomes of `fill` on a stream with no I/O error.
  pub fill-cases :
      (r : RequestReader) (s : S.State)
      → IsValid r
      → Grown r s (fill S r s) ⊎ Ended r s (fill S r s) ⊎ IsFull r s (fill S r s)
  unfolding fill
  fill-cases r s v = elim (Bool-cases (r.filled == length r.buf)) [
    | inr room ↦
        rw room (elim (read_more-cases r r s v refl (omega arith) refl (ground (arith, v.in_buf))) [
          | inl g ↦ inl g
          | inr e ↦ inr (inl e)
        ])
    | inl there ↦ elim (Bool-cases (r.consumed == 0)) [
      | inl front ↦
          rw (there, front)
            (inr (
              inr (record {
                outcome_is = refl;
                at_front = ground (arith, front);
                to_the_end = ground (arith, there);
              })))
      | inr behind ↦
          rw (there, behind)
            (elim (read_more-cases r (compact r) s (compact-IsValid r v) (length-compact r v)
              (omega arith) (unread-compact r v)
              (ground (arith, length-compact r v, behind, v.in_order, v.in_buf))) [
                | inl g ↦ inl g
                | inr e ↦ inr (inl e)
              ])
    ]
  ]
