-- ===== src/Response/Body/Decoded/Filling.antt =====
-- A `fill` of a decoded body gives the next of the decoded bytes, and 0 only at their end.
use zipring.Prelude.{
  ℕ, zero, suc, ◌+◌, ◌-◌, ◌≤◌, ◌<◌, ◌≡◌, refl, sym, ap, ◌∙◌, Bool, false, Option, none, some, [],
  Run, ret, length, take, lt→ltb, ltb-eq-false, Bool-cases, inl, inr, arith, length-append,
  append-nil, ◌==◌,
}
use zipring.Prelude.Bytes.{Bytes}
use zipring.Response.Body.Writes.{
  written, copy_at-written, length-written, take-written, take-written_front,
}
use zipring.Response.Body.Contract.{Body, Gives, Fills, Fills-of_equal}
use zipring.Response.Body.Decoded.{
  EntryFsm, Processed, ReadAt, DecodedBody, Filled, Input, fill, decode_loop, take_input,
  after_process,
}
use zipring.Response.Body.Decoded.Laws.{Turns, gives, goes_on, ends, Decodes}

module _ (F : EntryFsm) (read_at : ReadAt) (most : ℕ) (D : Decodes F read_at most) where
  abbrev rest_of : Option F.State → ℕ → Bytes
  rest_of none offset = []
  rest_of (some fsm) offset = D.left fsm offset

  abbrev pub rest : DecodedBody F → Bytes
  rest body = rest_of body.fsm body.offset

  abbrev OkOf : Option F.State → ℕ → ℕ → Type 0
  OkOf none offset remaining = Unit
  OkOf (some fsm) offset remaining = D.Good fsm offset × (remaining ≡ length (D.left fsm offset))

  abbrev pub Ok : DecodedBody F → Type 0
  Ok body = OkOf body.fsm body.offset body.remaining

  -- What the read leaves: a machine that is ready, at an offset, with a buffer of the same front.
  record Reads (fsm : F.State) (offset remaining : ℕ) (buf : Bytes) (at : ℕ) (run : Run (Input F))
      : Type 0 where
    fsm1 : F.State
    offset1 : ℕ
    at_eof : Bool
    buf1 : Bytes
    run_is :
        run
        ≡ ret (
          some (fsm1, at_eof),
          buf1,
          record { fsm = none; offset = offset1; remaining = remaining },
        )
    ready : D.Ready fsm1 offset1 at_eof
    same_left : D.left fsm1 offset1 ≡ D.left fsm offset
    same_effort : D.effort fsm1 offset1 ≤ D.effort fsm offset
    same_length : length buf1 ≡ length buf
    in_front : take at buf1 ≡ take at buf

  take_input-Reads :
      (fsm : F.State) (offset remaining : ℕ) (buf : Bytes) (at : ℕ)
      → D.Good fsm offset
      → at < length buf
      → Reads fsm offset remaining buf at (
          take_input F read_at fsm
            (record { fsm = none; offset = offset; remaining = remaining })
            buf
            at)
  unfolding take_input
  take_input-Reads fsm offset remaining buf at good room = elim (Bool-cases (F.wants_read fsm)) [
    | inr idle ↦ rw idle (record {
      fsm1 = fsm;
      offset1 = offset;
      at_eof = false;
      buf1 = buf;
      run_is = refl;
      ready = D.idle fsm offset good idle;
      same_left = refl;
      same_effort = omega arith;
      same_length = refl;
      in_front = refl;
    })
    | inl wants ↦
        let f = D.feeds fsm offset (length buf - at) good wants (omega arith) in
        let bounded = f.bounded in
        let fits : at + length f.bytes ≤ length buf = omega arith in
        rw
          (
            wants,
            ltb-eq-false (length buf) at (omega arith),
            f.is_read,
            copy_at-written at f.bytes buf fits,
            ltb-eq-false (F.space fsm) (length f.bytes) (omega arith),
          )
          (record {
            fsm1 = F.fill fsm f.bytes;
            offset1 = offset + length f.bytes;
            at_eof = length f.bytes == 0;
            buf1 = written at f.bytes buf;
            run_is = refl;
            ready = f.ready;
            same_left = f.same_left;
            same_effort = f.same_effort;
            same_length = length-written at f.bytes buf fits;
            in_front = take-written_front at f.bytes buf fits;
          })
  ]

  abbrev whole : F.State → ℕ → ℕ → DecodedBody F
  whole fsm offset remaining = record { fsm = some fsm; offset = offset; remaining = remaining }

  abbrev taken : ℕ → ℕ → DecodedBody F
  taken offset remaining = record { fsm = none; offset = offset; remaining = remaining }

  after_process-Fills :
      (again : F.State → DecodedBody F → Bytes → Run (Filled F)) (fsm : F.State)
      (offset remaining : ℕ) (at_eof : Bool) (buf : Bytes) (at : ℕ)
      → at < length buf
      → remaining ≡ length (D.left fsm offset)
      → ((fsm' : F.State) (buf' : Bytes)
          → D.Good fsm' offset
          → remaining ≡ length (D.left fsm' offset)
          → length buf' ≡ length buf
          → D.effort fsm' offset < D.effort fsm offset
          → Fills rest Ok
              (whole fsm' offset remaining)
              buf'
              at
              (again fsm' (taken offset remaining) buf'))
      → (outcome : Processed F.State)
      → Turns F read_at D.left D.effort D.Good fsm offset at_eof (length buf - at) outcome
      → Fills rest Ok
          (whole fsm offset remaining)
          buf
          at
          (after_process F read_at again at_eof (taken offset remaining) buf at outcome)
  after_process-Fills again fsm offset remaining at_eof buf at room size go outcome
        (gives fsm' bytes_read w is splits good some_bytes fits) =
      let in_buf : at + length w ≤ length buf = omega arith in
      let sum : length (D.left fsm offset) ≡ length w + length (D.left fsm' offset) =
        ap length splits ∙ length-append {0} w (D.left fsm' offset) in
      rw
        (
          is,
          copy_at-written at w buf in_buf,
          lt→ltb 0 (length w) some_bytes,
          ltb-eq-false remaining (length w) (omega arith),
        )
        (record {
          given = w;
          buf' = written at w buf;
          body' = whole fsm' offset (remaining - length w);
          run_is = refl;
          same_length = length-written at w buf in_buf;
          in_front = take-written at w buf in_buf;
          splits = splits;
          fits = in_buf;
          still_ok = (good, omega arith);
          ends = λ nothing. absurd (let z : length w ≡ 0 = ap length nothing in omega arith);
        })
  after_process-Fills again fsm offset remaining at_eof buf at room size go outcome
        (goes_on fsm' bytes_read is splits good less more) =
      let in_buf : at + 0 ≤ length buf = omega arith in
      let buf' = written at [] buf in
      rw (is, copy_at-written at [] buf in_buf, more)
        (Fills-of_equal rest Ok (whole fsm offset remaining) (whole fsm' offset remaining) buf buf'
          at (again fsm' (taken offset remaining) buf') (sym splits)
          (length-written at [] buf in_buf) (take-written_front at [] buf in_buf)
          (go fsm' buf' good (size ∙ ap length splits) (length-written at [] buf in_buf) less))
  after_process-Fills again fsm offset remaining at_eof buf at room size go outcome
        (ends is nothing) =
      let none_left : remaining ≡ 0 = size ∙ ap length nothing in
      rw (is, ltb-eq-false 0 remaining (omega arith))
        (record {
          given = [];
          buf' = buf;
          body' = taken offset remaining;
          run_is = refl;
          same_length = refl;
          in_front =
              ap (λ k. take k buf) (let e : at + 0 ≡ at = omega arith in e)
              ∙ sym (append-nil (take at buf));
          splits = nothing;
          fits = omega arith;
          still_ok = tt;
          ends = λ _. refl;
        })

  decode_loop-Fills :
      (fuel : ℕ) (fsm : F.State) (offset remaining : ℕ) (buf : Bytes) (at : ℕ)
      → D.Good fsm offset
      → remaining ≡ length (D.left fsm offset)
      → at < length buf
      → D.effort fsm offset < fuel
      → Fills rest Ok
          (whole fsm offset remaining)
          buf
          at
          (decode_loop F read_at fuel at fsm (taken offset remaining) buf)
  unfolding decode_loop
  decode_loop-Fills zero fsm offset remaining buf at good size room enough = absurd (omega arith)
  decode_loop-Fills (suc fuel) fsm offset remaining buf at good size room enough =
      let r = take_input-Reads fsm offset remaining buf at good room in
      let same = r.same_length in
      let effort = r.same_effort in
      let size1 : remaining ≡ length (D.left r.fsm1 r.offset1) =
        size ∙ ap length (sym r.same_left) in
      rw (r.run_is, ltb-eq-false (length r.buf1) at (omega arith))
        (Fills-of_equal rest Ok (whole fsm offset remaining) (whole r.fsm1 r.offset1 remaining) buf
          r.buf1 at
          (after_process F read_at (decode_loop F read_at fuel at) r.at_eof
            (taken r.offset1 remaining) r.buf1 at (F.process r.fsm1 (length r.buf1 - at)))
          r.same_left r.same_length r.in_front
          (after_process-Fills (decode_loop F read_at fuel at) r.fsm1 r.offset1 remaining r.at_eof
            r.buf1 at (omega arith) size1
            (λ fsm' buf' good' size' same' less.
              decode_loop-Fills fuel fsm' r.offset1 remaining buf' at good' size' (omega arith)
                (omega arith))
            (F.process r.fsm1 (length r.buf1 - at))
            (D.turns r.fsm1 r.offset1 r.at_eof (length r.buf1 - at) r.ready (omega arith))))

  fill_of-Fills :
      (fsm : Option F.State) (offset remaining : ℕ) (buf : Bytes) (at : ℕ)
      → Ok (record { fsm = fsm; offset = offset; remaining = remaining })
      → at + 1 ≤ length buf
      → Fills rest Ok
          (record { fsm = fsm; offset = offset; remaining = remaining })
          buf
          at
          (fill F read_at most
            (record { fsm = fsm; offset = offset; remaining = remaining })
            buf
            at)
  unfolding fill
  fill_of-Fills none offset remaining buf at ok room = record {
    given = [];
    buf' = buf;
    body' = taken offset remaining;
    run_is = refl;
    same_length = refl;
    in_front =
        ap (λ k. take k buf) (let e : at + 0 ≡ at = omega arith in e)
        ∙ sym (append-nil (take at buf));
    splits = refl;
    fits = omega arith;
    still_ok = tt;
    ends = λ _. refl;
  }
  fill_of-Fills (some fsm) offset remaining buf at ok room =
      decode_loop-Fills most fsm offset remaining buf at ok.0 ok.1 (omega arith)
        (D.bound fsm offset ok.0)

  -- With a machine that decodes, on a file that can be read, and with fuel for the rounds in which it
  -- gives nothing: a `fill` with a byte of room returns, has put the next of the decoded bytes there,
  -- and gives 0 only at their end.
  pub fill-Fills :
      (body : DecodedBody F) (buf : Bytes) (at : ℕ)
      → Ok body
      → at + 1 ≤ length buf
      → Fills rest Ok body buf at (fill F read_at most body buf at)
  fill-Fills body = fill_of-Fills body.fsm body.offset body.remaining

  abbrev pub decoded_body : Body
  decoded_body = record { State = DecodedBody F; fill = fill F read_at most }

  abbrev pub decoded_body-Gives : Gives decoded_body
  decoded_body-Gives = record { rest = rest; Ok = Ok; need = 1; fill-Fills = fill-Fills }
