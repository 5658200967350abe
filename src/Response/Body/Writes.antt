-- ===== src/Response/Body/Writes.antt =====
-- Writes behind a front of the buffer.
use zipring.Prelude.{
  ℕ, ◌+◌, ◌≤◌, ◌≡◌, sym, ap, ◌∙◌, ◌++◌, ret, length, take, drop, arith, ltb-eq-false, length-append,
  length-take, length-drop, take-length-append, append_assoc,
}
use zipring.Prelude.Bytes.{Bytes}
use zipring.Response.Entry.{copy_at}

-- The buffer after a write that fits.
abbrev pub written : ℕ → Bytes → Bytes → Bytes
written at src buf = take at buf ++ (src ++ drop (at + length src) buf)

module _ (at : ℕ) (src buf : Bytes) (room : at + length src ≤ length buf) where
  pub copy_at-written : copy_at at src buf ≡ ret (written at src buf)
  unfolding copy_at
  copy_at-written = rw (ltb-eq-false (length buf) (at + length src) room)

  pub length-written : length (written at src buf) ≡ length buf
  length-written = omega (
    arith,
    length-append {0} (take at buf) (src ++ drop (at + length src) buf),
    length-append {0} src (drop (at + length src) buf),
    length-take {0} at buf,
    length-drop {0} (at + length src) buf,
  )

  -- The front grows by what was written.
  pub take-written : take (at + length src) (written at src buf) ≡ take at buf ++ src
  take-written =
      let e : at + length src ≡ length (take at buf ++ src) =
        omega (arith, length-append {0} (take at buf) src, length-take {0} at buf) in
      ap (λ k. take k (written at src buf)) e
      ∙ ap (take (length (take at buf ++ src)))
          (sym (append_assoc (take at buf) src (drop (at + length src) buf)))
      ∙ take-length-append (take at buf ++ src) (drop (at + length src) buf)

  -- The front itself stays.
  pub take-written_front : take at (written at src buf) ≡ take at buf
  take-written_front =
      let e : at ≡ length (take at buf) = omega (arith, length-take {0} at buf) in
      ap (λ k. take k (written at src buf)) e
      ∙ take-length-append (take at buf) (src ++ drop (at + length src) buf)
