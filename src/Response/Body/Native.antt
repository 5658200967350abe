-- ===== src/Response/Body/Native.antt =====
-- `NativeBody`: an entry's stored bytes behind a prefix and before a trailer. The entry and its
-- coding do not change, and are arguments here.
pub mod Puts
pub mod Steps
pub mod Filling
pub mod Whole
use zipring.Prelude.{
  ℕ, ◌+◌, ◌-◌, min, Bool, true, false, ◌&&◌, Option, none, some, List, [], ◌∷◌, Run, panic, ret,
  ◌>>=◌, length, take, drop, ltb, if◌then◌else◌, leb, ◌==◌,
}
use zipring.Prelude.Bytes.{Bytes}
use zipring.Response.Entry.{Entry, ReadExactAt, copy_at, find_entry_compressed_data}
use zipring.Response.Coding.{NativeCoding, prefix, trailer, trailer_len}

pub record NativeBody : Type 0 where
  pub data_offset : Option ℕ
  pub remaining : ℕ
  pub prefix_pending : Bool
  pub trailer_pending : Bool

-- The `Native` case of `EntryBody::new`.
abbrev pub new : Entry → NativeBody
new entry = record {
  data_offset = none;
  remaining = entry.compressed_size;
  prefix_pending = true;
  trailer_pending = true;
}

-- The body, the buffer and the end of what was written to it; `none` is an I/O error.
abbrev pub Step : Type 0
Step = Option ℕ × Bytes × NativeBody

module _ (read_exact_at : ReadExactAt) (entry : Entry) (native : NativeCoding) where
  unfoldable pub write_prefix : NativeBody → Bytes → ℕ → Run Step
  unfolding prefix
  write_prefix body buf end =
      if body.prefix_pending
      then (do
        buf' ← copy_at end (prefix native) buf
        ret (some (end + length (prefix native)), buf', record body { prefix_pending = false }))
      else ret (some end, buf, body)

  -- `data_offset`, looked up in the local header the first time
  unfoldable pub offset_of : NativeBody → Bytes → ℕ → Run (Option ℕ × Bytes)
  unfolding find_entry_compressed_data
  offset_of body buf end = elim body.data_offset [
    | some offset ↦ ret (some offset, buf)
    | none ↦ find_entry_compressed_data read_exact_at entry end buf
  ]

  abbrev pub store_data : NativeBody → ℕ → ℕ → ℕ → Bytes → Option Bytes → Run Step
  store_data body offset n end buf none = ret (none, buf, body)
  store_data body offset n end buf (some bytes) = do
    buf' ← copy_at end bytes buf
    ret (
      some (end + n),
      buf',
      record body { data_offset = some (offset + n); remaining = body.remaining - n },
    )

  abbrev pub read_at_offset : NativeBody → ℕ → Option ℕ × Bytes → Run Step
  read_at_offset body end (none, buf) = ret (none, buf, body)
  read_at_offset body end (some offset, buf) =
      let n = min body.remaining (length buf - end) in
      store_data body offset n end buf (read_exact_at offset n)

  unfoldable pub read_data : NativeBody → Bytes → ℕ → Run Step
  unfolding offset_of
  read_data body buf end =
      if ltb 0 body.remaining
      then offset_of body buf end >>= read_at_offset body end
      else ret (some end, buf, body)

  unfoldable pub write_trailer : NativeBody → Bytes → ℕ → Run Step
  unfolding trailer trailer_len
  write_trailer body buf end =
      if (body.remaining == 0 && body.trailer_pending)
        && leb (trailer_len native) (length buf - end)
      then (do
        buf' ← copy_at end (trailer native entry) buf
        ret (some (end + trailer_len native), buf', record body { trailer_pending = false }))
      else ret (some end, buf, body)

  -- `?` on the steps: an error ends `fill`, and else the next step goes on.
  abbrev pub and_then : (NativeBody → Bytes → ℕ → Run Step) → Step → Run Step
  and_then next (none, buf, body) = ret (none, buf, body)
  and_then next (some end, buf, body) = next body buf end

  abbrev pub from_start : ℕ → Step → Run Step
  from_start at (none, buf, body) = ret (none, buf, body)
  from_start at (some end, buf, body) = ret (some (end - at), buf, body)

  -- `fill(file, buf, at)`
  unfoldable pub fill : NativeBody → Bytes → ℕ → Run Step
  unfolding write_prefix read_data write_trailer
  fill body buf at = do
    a ← write_prefix body buf at
    b ← and_then read_data a
    c ← and_then write_trailer b
    from_start at c
