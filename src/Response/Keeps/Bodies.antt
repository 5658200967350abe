-- ===== src/Response/Keeps/Bodies.antt =====
-- Filling from the stored bytes never changes the length of the buffer, on any branch.
use zipring.Prelude.{
  ℕ, ◌+◌, ◌-◌, min, ◌&&◌, Option, none, some, Run, panic, length, ltb, leb, ◌==◌, After, After->>=,
  After-if,
}
use zipring.Prelude.Bytes.{Bytes}
use zipring.Response.Entry.{
  Entry, ReadExactAt, copy_at, located, local_header_len, find_entry_compressed_data,
}
use zipring.Response.Coding.{NativeCoding, prefix, trailer, trailer_len}
use zipring.Response.Body.Native
use zipring.Response.Body.Native.{
  NativeBody, write_prefix, read_data, write_trailer, store_data, read_at_offset, and_then,
  from_start,
}
use zipring.Response.Keeps.{Same, copy_at-Same}

-- Of an outcome with the buffer in the middle.
abbrev pub Kept : ℕ → {A B : Type 0} → A × Bytes × B → Type 0
Kept n r = Same n r.1

module _ (n : ℕ) (read_exact_at : ReadExactAt) (entry : Entry) where
  located-Same :
      (at : ℕ) (buf : Bytes) (header : Option Bytes)
      → Same n buf
      → After (λ r. Same n r.1) (located entry at buf header)
  located-Same at buf none h = h
  located-Same at buf (some header) h =
      After-if (λ r. Same n r.1) (ltb (length buf) (at + local_header_len)) panic _ tt
        (After->>= (Same n) (λ r. Same n r.1) (copy_at at header buf) _
          (copy_at-Same at header buf h) (λ b same. same))

  pub find_entry_compressed_data-Same :
      (at : ℕ) (buf : Bytes)
      → Same n buf
      → After (λ r. Same n r.1) (find_entry_compressed_data read_exact_at entry at buf)
  unfolding find_entry_compressed_data
  find_entry_compressed_data-Same at buf h =
      After-if (λ r. Same n r.1) (ltb (length buf) at) panic _ tt
        (located-Same at buf
          (read_exact_at entry.header_offset (min local_header_len (length buf - at))) h)

  module _ (native : NativeCoding) where
    write_prefix-Same :
        (body : NativeBody) (buf : Bytes) (end : ℕ)
        → Same n buf
        → After (Kept n) (write_prefix read_exact_at entry native body buf end)
    unfolding write_prefix
    write_prefix-Same body buf end h =
        After-if (Kept n) body.prefix_pending _ _
          (After->>= (Same n) (Kept n) (copy_at end (prefix native) buf) _
            (copy_at-Same end (prefix native) buf h) (λ b same. same))
          h

    offset_of-Same :
        (body : NativeBody) (offset : Option ℕ) (buf : Bytes) (end : ℕ)
        → Same n buf
        → After
            (λ r. Same n r.1)
            (Native.offset_of read_exact_at entry native
              (record body { data_offset = offset })
              buf
              end)
    unfolding Native.offset_of
    offset_of-Same body (some offset) buf end h = h
    offset_of-Same body none buf end h = find_entry_compressed_data-Same end buf h

    store_data-Same :
        (body : NativeBody) (offset m end : ℕ) (buf : Bytes) (bytes : Option Bytes)
        → Same n buf
        → After (Kept n) (store_data read_exact_at entry native body offset m end buf bytes)
    store_data-Same body offset m end buf none h = h
    store_data-Same body offset m end buf (some bytes) h =
        After->>= (Same n) (Kept n) (copy_at end bytes buf) _ (copy_at-Same end bytes buf h)
          (λ b same. same)

    read_at_offset-Same :
        (body : NativeBody) (end : ℕ) (r : Option ℕ × Bytes)
        → Same n r.1
        → After (Kept n) (read_at_offset read_exact_at entry native body end r)
    read_at_offset-Same body end (none, buf) h = h
    read_at_offset-Same body end (some offset, buf) h =
        store_data-Same body offset (min body.remaining (length buf - end)) end buf
          (read_exact_at offset (min body.remaining (length buf - end))) h

    read_data-Same :
        (body : NativeBody) (buf : Bytes) (end : ℕ)
        → Same n buf
        → After (Kept n) (read_data read_exact_at entry native body buf end)
    unfolding read_data
    read_data-Same body buf end h =
        After-if (Kept n) (ltb 0 body.remaining) _ _
          (After->>= (λ r. Same n r.1) (Kept n)
            (Native.offset_of read_exact_at entry native body buf end) _
            (offset_of-Same body body.data_offset buf end h) (read_at_offset-Same body end))
          h

    write_trailer-Same :
        (body : NativeBody) (buf : Bytes) (end : ℕ)
        → Same n buf
        → After (Kept n) (write_trailer read_exact_at entry native body buf end)
    unfolding write_trailer
    write_trailer-Same body buf end h =
        After-if (Kept n)
          ((body.remaining == 0 && body.trailer_pending)
            && leb (trailer_len native) (length buf - end))
          _ _
          (After->>= (Same n) (Kept n) (copy_at end (trailer native entry) buf) _
            (copy_at-Same end (trailer native entry) buf h) (λ b same. same))
          h

    and_then-Same :
        (next : NativeBody → Bytes → ℕ → Run Native.Step)
        → ((body : NativeBody) (buf : Bytes) (end : ℕ)
            → Same n buf
            → After (Kept n) (next body buf end))
        → (step : Native.Step) → Kept n step
        → After (Kept n) (and_then read_exact_at entry native next step)
    and_then-Same next keeps (none, buf, body) h = h
    and_then-Same next keeps (some end, buf, body) h = keeps body buf end h

    from_start-Same :
        (at : ℕ) (step : Native.Step)
        → Kept n step
        → After (Kept n) (from_start read_exact_at entry native at step)
    from_start-Same at (none, buf, body) h = h
    from_start-Same at (some end, buf, body) h = h

    pub native_fill-Same :
        (body : NativeBody) (buf : Bytes) (at : ℕ)
        → Same n buf
        → After (Kept n) (Native.fill read_exact_at entry native body buf at)
    unfolding Native.fill
    native_fill-Same body buf at h =
        After->>= (Kept n) (Kept n) (write_prefix read_exact_at entry native body buf at) _
          (write_prefix-Same body buf at h)
          (λ a ha.
            After->>= (Kept n) (Kept n)
              (and_then read_exact_at entry native (read_data read_exact_at entry native) a) _
              (and_then-Same (read_data read_exact_at entry native) read_data-Same a ha)
              (λ b hb.
                After->>= (Kept n) (Kept n)
                  (and_then read_exact_at entry native (write_trailer read_exact_at entry native) b)
                  _
                  (and_then-Same (write_trailer read_exact_at entry native) write_trailer-Same b hb)
                  (from_start-Same at)))
