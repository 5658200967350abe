-- ===== src/Response/Keeps/Decoders.antt =====
-- Filling from a decoder never changes the length of the buffer, on any branch.
use zipring.Prelude.{
  ℕ, zero, suc, ◌+◌, ◌-◌, ◌≡◌, min, Bool, true, false, ◌&&◌, Option, none, some, Run, panic, ret,
  length, take, drop, ltb, ◌==◌, After, After-refl, After->>=, After-if, if◌then◌else◌,
}
use zipring.Prelude.Bytes.{Bytes}
use zipring.Response.Entry.{Entry, ReadExactAt, copy_at, find_entry_compressed_data}
use zipring.Response.Body.Native
use zipring.Response.Body.Decoded
use zipring.Response.Body.Decoded.{
  EntryFsm, Processed, continued, finished, ReadAt, DecodedBody, Input, take_input, store_input,
  leave_out, after_process, process_input, decode_loop,
}
use zipring.Response.Body.Inflated
use zipring.Response.Body.Inflated.{
  Inflate, Hasher, InflatedBody, hand_out, read_input, input_at, decode, after_input, after_decode,
  is_empty_handed, wants_input, input_len,
}
use zipring.Response.Body.EntryBody
use zipring.Response.Body.EntryBody.{Decoding, Disk, EntryBody, wrap}
use zipring.Response.Keeps.{Same, copy_at-Same}
use zipring.Response.Keeps.Bodies.{Kept, find_entry_compressed_data-Same, native_fill-Same}

module _ (n : ℕ) (F : EntryFsm) where
  store_input-Same :
      (fsm : F.State) (body : DecodedBody F) (buf : Bytes) (at : ℕ) (bytes : Option Bytes)
      → Same n buf
      → After (Kept n) (store_input F fsm body buf at bytes)
  store_input-Same fsm body buf at none h = h
  store_input-Same fsm body buf at (some bytes) h =
      After->>= (Same n) (Kept n) (copy_at at bytes buf) _ (copy_at-Same at bytes buf h)
        (λ b same. After-if (Kept n) (ltb (F.space fsm) (length bytes)) panic _ tt same)

  leave_out-Same :
      (body : DecodedBody F) (buf : Bytes) (at : ℕ) (w : Bytes) (fsm : F.State)
      → Same n buf
      → After (Kept n) (leave_out F body buf at w fsm)
  leave_out-Same body buf at w fsm h = After-if (Kept n) (ltb body.remaining (length w)) _ _ h h

  module _ (read_at : ReadAt) where
    take_input-Same :
        (fsm : F.State) (body : DecodedBody F) (buf : Bytes) (at : ℕ)
        → Same n buf
        → After (Kept n) (take_input F read_at fsm body buf at)
    unfolding take_input
    take_input-Same fsm body buf at h =
        After-if (Kept n) (F.wants_read fsm) _ _
          (After-if (Kept n) (ltb (length buf) at) panic _ tt (
            store_input-Same fsm body buf at
              (read_at body.offset (min (F.space fsm) (length buf - at))) h))
          h

    Again : (F.State → DecodedBody F → Bytes → Run (Option ℕ × Bytes × DecodedBody F)) → Type 0
    Again again =
        (fsm : F.State) (body : DecodedBody F) (buf : Bytes)
        → Same n buf
        → After (Kept n) (again fsm body buf)

    after_process-Same :
        (again : F.State → DecodedBody F → Bytes → Run (Option ℕ × Bytes × DecodedBody F))
        (at_eof : Bool) (body : DecodedBody F) (buf : Bytes) (at : ℕ) (outcome : Processed F.State)
        → Again again
        → Same n buf
        → After (Kept n) (after_process F read_at again at_eof body buf at outcome)
    unfolding Again
    after_process-Same again at_eof body buf at finished keeps h =
        After-if (Kept n) (ltb 0 body.remaining) _ _ h h
    after_process-Same again at_eof body buf at Processed.failed keeps h = h
    after_process-Same again at_eof body buf at (continued fsm bytes_read w) keeps h =
        After->>= (Same n) (Kept n) (copy_at at w buf) _ (copy_at-Same at w buf h) (λ b same.
          After-if (Kept n) (ltb 0 (length w)) _ _ (leave_out-Same body b at w fsm same)
            (After-if (Kept n) (at_eof && bytes_read == 0) _ _ same (keeps fsm body b same)))

    process_input-Same :
        (again : F.State → DecodedBody F → Bytes → Run (Option ℕ × Bytes × DecodedBody F)) (at : ℕ)
        (input : Input F)
        → Again again
        → Kept n input
        → After (Kept n) (process_input F read_at again at input)
    process_input-Same again at (none, buf, body) keeps h = h
    process_input-Same again at (some (fsm, at_eof), buf, body) keeps h =
        After-if (Kept n) (ltb (length buf) at) panic _ tt
          (after_process-Same again at_eof body buf at (F.process fsm (length buf - at)) keeps h)

    decode_loop-Same :
        (fuel at : ℕ) (fsm : F.State) (body : DecodedBody F) (buf : Bytes)
        → Same n buf
        → After (Kept n) (decode_loop F read_at fuel at fsm body buf)
    unfolding decode_loop Again
    decode_loop-Same zero at fsm body buf h = tt
    decode_loop-Same (suc fuel) at fsm body buf h =
        After->>= (Kept n) (Kept n) (take_input F read_at fsm body buf at) _
          (take_input-Same fsm body buf at h)
          (λ input same.
            process_input-Same (decode_loop F read_at fuel at) at input (decode_loop-Same fuel at)
              same)

    fill_of-Same :
        (fuel : ℕ) (fsm : Option F.State) (offset remaining : ℕ) (buf : Bytes) (at : ℕ)
        → Same n buf
        → After (Kept n) (
            Decoded.fill F read_at fuel
              (record { fsm = fsm; offset = offset; remaining = remaining })
              buf
              at)
    unfolding Decoded.fill
    fill_of-Same fuel none offset remaining buf at h = h
    fill_of-Same fuel (some fsm) offset remaining buf at h =
        decode_loop-Same fuel at fsm (record { fsm = none; offset = offset; remaining = remaining })
          buf h

    decoded_fill-Same :
        (fuel : ℕ) (body : DecodedBody F) (buf : Bytes) (at : ℕ)
        → Same n buf
        → After (Kept n) (Decoded.fill F read_at fuel body buf at)
    decoded_fill-Same fuel body = fill_of-Same fuel body.fsm body.offset body.remaining

module _ (n : ℕ) (I : Inflate) (H : Hasher) (read_exact_at : ReadExactAt) (entry : Entry) where
  inflated_offset-Same :
      (body : InflatedBody I H) (buf : Bytes) (at : ℕ)
      → Same n buf
      → After (λ r. Same n r.1) (Inflated.offset_of I H read_exact_at entry body buf at)
  unfolding Inflated.offset_of
  inflated_offset-Same body buf at h =
      elim body.data_offset
        as (λ o.
          After {A = Option ℕ × Bytes} (λ r. Same n r.1)
            (elim o [
              | some offset ↦ ret (some offset, buf)
              | none ↦ find_entry_compressed_data read_exact_at entry at buf
            ])) [
              | some offset ↦ h
              | none ↦ find_entry_compressed_data-Same n read_exact_at entry at buf h
            ]

  keep_input-Same :
      (body : InflatedBody I H) (at offset m : ℕ) (buf : Bytes) (bytes : Option Bytes)
      → Same n buf
      → After (Kept n) (Inflated.store_input I H read_exact_at entry body at offset m buf bytes)
  keep_input-Same body at offset m buf none h = h
  keep_input-Same body at offset m buf (some bytes) h =
      After->>= (Same n) (Kept n) (copy_at at bytes buf) _ (copy_at-Same at bytes buf h) (λ b same.
        After->>= (λ (i : Bytes). i ≡ i) (Kept n) (copy_at 0 bytes body.inflater.input) _
          (After-refl (copy_at 0 bytes body.inflater.input)) (λ i u. same))

  input_at-Same :
      (body : InflatedBody I H) (at : ℕ) (r : Option ℕ × Bytes)
      → Same n r.1
      → After (Kept n) (input_at I H read_exact_at entry body at r)
  input_at-Same body at (none, buf) h = h
  input_at-Same body at (some offset, buf) h =
      let m = min (min body.unread input_len) (length buf - at) in
      keep_input-Same body at offset m buf (read_exact_at offset m) h

  read_input-Same :
      (body : InflatedBody I H) (buf : Bytes) (at : ℕ)
      → Same n buf
      → After (Kept n) (read_input I H read_exact_at entry body buf at)
  unfolding read_input
  read_input-Same body buf at h =
      After->>= (λ r. Same n r.1) (Kept n) (Inflated.offset_of I H read_exact_at entry body buf at)
        _ (inflated_offset-Same body buf at h) (input_at-Same body at)

  hand_out-Same :
      (body : InflatedBody I H) (buf : Bytes) (at : ℕ)
      → Same n buf
      → After (Kept n) (hand_out I H read_exact_at entry body buf at)
  unfolding hand_out
  hand_out-Same body buf at h =
      let m = min (body.pending_end - body.pending_start) (length buf - at) in
      After-if (Kept n) (ltb (length body.inflater.window) (body.pending_start + m)) panic _ tt (
        After->>= (Same n) (Kept n)
          (copy_at at (take m (drop body.pending_start body.inflater.window)) buf) _
          (copy_at-Same at (take m (drop body.pending_start body.inflater.window)) buf h)
          (λ b same. same))

  after_decode-Same :
      (again : InflatedBody I H → Bytes → Run (Option ℕ × Bytes × InflatedBody I H)) (buf : Bytes)
      (r : Bool × InflatedBody I H)
      → ((body : InflatedBody I H) → After (Kept n) (again body buf))
      → Same n buf
      → After (Kept n) (after_decode I H read_exact_at entry again buf r)
  after_decode-Same again buf (false, body) keeps h = h
  after_decode-Same again buf (true, body) keeps h = keeps body

  after_input-Same :
      (again : InflatedBody I H → Bytes → Run (Option ℕ × Bytes × InflatedBody I H))
      (step : Bool × Bytes × InflatedBody I H)
      → ((body : InflatedBody I H) (buf : Bytes) → Same n buf → After (Kept n) (again body buf))
      → Kept n step
      → After (Kept n) (after_input I H read_exact_at entry again step)
  after_input-Same again (false, buf, body) keeps h = h
  after_input-Same again (true, buf, body) keeps h =
      After->>= (λ (r : Bool × InflatedBody I H). r ≡ r) (Kept n) (decode I H entry body) _
        (After-refl (decode I H entry body))
        (λ r u. after_decode-Same again buf r (λ body'. keeps body' buf h) h)

  inflated_fill-Same :
      (fuel : ℕ) (body : InflatedBody I H) (buf : Bytes) (at : ℕ)
      → Same n buf
      → After (Kept n) (Inflated.fill I H read_exact_at entry fuel body buf at)
  unfolding Inflated.fill
  inflated_fill-Same zero body buf at h = tt
  inflated_fill-Same (suc fuel) body buf at h =
      After-if (Kept n) (is_empty_handed I H read_exact_at entry body) _ _
        (After->>= (Kept n) (Kept n)
          (if wants_input I H read_exact_at entry body
            then read_input I H read_exact_at entry body buf at
            else ret (true, buf, body))
          _
          (After-if (Kept n) (wants_input I H read_exact_at entry body) _ _
            (read_input-Same body buf at h) h)
          (λ step same.
            after_input-Same (λ b c. Inflated.fill I H read_exact_at entry fuel b c at) step
              (λ b c s. inflated_fill-Same fuel b c at s) same))
        (hand_out-Same body buf at h)

module _ (n : ℕ) (C : Decoding) (disk : Disk) (entry : Entry) where
  wrap-Same :
      {S : Type 0} (kind : S → EntryBody C) (r : Option ℕ × Bytes × S)
      → Kept n r
      → After (Kept n) (wrap C kind r)
  wrap-Same kind (filled, buf, body) h = h

  pub fill-Same :
      (body : EntryBody C) (buf : Bytes) (at : ℕ)
      → Same n buf
      → After (Kept n) (EntryBody.fill C disk entry body buf at)
  unfolding EntryBody.fill
  fill-Same (EntryBody.native coding body) buf at h =
      After->>= (Kept n) (Kept n) (Native.fill disk.read_exact_at entry coding body buf at) _
        (native_fill-Same n disk.read_exact_at entry coding body buf at h)
        (wrap-Same (EntryBody.native coding))
  fill-Same (EntryBody.inflated body) buf at h =
      After->>= (Kept n) (Kept n)
        (Inflated.fill C.inflate C.hasher disk.read_exact_at entry C.rounds body buf at) _
        (inflated_fill-Same n C.inflate C.hasher disk.read_exact_at entry C.rounds body buf at h)
        (wrap-Same EntryBody.inflated)
  fill-Same (EntryBody.decoded body) buf at h =
      After->>= (Kept n) (Kept n) (Decoded.fill C.fsm disk.read_at C.rounds body buf at) _
        (decoded_fill-Same n C.fsm disk.read_at C.rounds body buf at h)
        (wrap-Same EntryBody.decoded)
