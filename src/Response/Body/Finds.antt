-- ===== src/Response/Body/Finds.antt =====
-- `find_entry_compressed_data` on an archive that can be read.
use zipring.Prelude.{
  ℕ, ◌+◌, ◌-◌, min, ◌≤◌, ◌≡◌, refl, Option, none, some, Run, ret, length, take, drop, arith,
  length-take, length-drop, ltb-eq-false,
}
use zipring.Prelude.Bytes.{Bytes}
use zipring.Response.Entry.{Entry, ReadExactAt, find_entry_compressed_data}
use zipring.Response.Body.Writes.{written, copy_at-written, length-written, take-written_front}
use zipring.Response.Body.Native.Puts.{Holds, IsWithin, offset_or_start}

module _ (contents : Bytes) (entry : Entry) where
  -- The offset is known or looked up; the look-up reads the header behind the front.
  pub record Finds (o : Option ℕ) (buf : Bytes) (end : ℕ) (run : Run (Option ℕ × Bytes))
      : Type 0 where
    pub scratch : Bytes
    pub finds : run ≡ ret (some (offset_or_start contents entry o), scratch)
    pub same_length : length scratch ≡ length buf
    pub in_front : take end scratch ≡ take end buf

  pub Finds-known :
      (offset : ℕ) (buf : Bytes) (end : ℕ) → Finds (some offset) buf end (ret (some offset, buf))
  Finds-known offset buf end = record {
    scratch = buf;
    finds = refl;
    same_length = refl;
    in_front = refl;
  }

  pub find_entry_compressed_data-Finds :
      (read_exact_at : ReadExactAt) (buf : Bytes) (end : ℕ)
      → Holds read_exact_at contents
      → IsWithin contents entry
      → end + 30 ≤ length buf
      → Finds none buf end (find_entry_compressed_data read_exact_at entry end buf)
  unfolding find_entry_compressed_data
  find_entry_compressed_data-Finds read_exact_at buf end holds w h =
      let at = entry.header_offset in
      let header = take 30 (drop at contents) in
      let length_header : length header ≡ 30 =
        (let within : at + 30 ≤ length contents = w.header_within in
          omega (arith, length-take {0} 30 (drop at contents), length-drop {0} at contents)) in
      let room : end + length header ≤ length buf = omega arith in
      let whole : min 30 (length buf - end) ≡ 30 = omega arith in
      record {
        scratch = written end header buf;
        finds =
            rw
              (
                ltb-eq-false (length buf) end (omega arith),
                whole,
                holds at 30 w.header_within,
                ltb-eq-false (length buf) (end + 30) h,
                copy_at-written end header buf room,
              )
              refl;
        same_length = length-written end header buf room;
        in_front = take-written_front end header buf room;
      }
