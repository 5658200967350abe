-- ===== src/Response/Body/Decoded/Counting.antt =====
-- On the number of bytes that a decoded body gives, whatever the archive holds.
use zipring.Prelude.{
  ℕ, zero, suc, ◌-◌, ◌≤◌, ◌≡◌, refl, min, Bool, true, ◌&&◌, Option, none, some, Run, panic, length,
  ltb, ◌==◌, arith, After, After-refl, After->>=, After-if, Bool-cases, inl, inr, ltb→lt, subst,
  sym, ◌+◌,
}
use zipring.Prelude.Bytes.{Bytes}
use zipring.Response.Entry.{copy_at, Entry}
use zipring.Response.Body.Contract.{Body}
use zipring.Response.Body.Counts.{Counted, Counts, Appends, Sized, send_body-Sized}
use zipring.Response.Body.Decoded.{
  EntryFsm, Processed, continued, finished, ReadAt, DecodedBody, Input, Filled, new, fill,
  decode_loop, take_input, store_input, leave_out, process_input, after_process,
}
use zipring.Response.Stream.{Writer, send_body}

module _ (F : EntryFsm) (read_at : ReadAt) where
  abbrev pub any_decoded_body : ℕ → Body
  any_decoded_body fuel = record { State = DecodedBody F; fill = fill F read_at fuel }

  -- A machine that is gone has given everything.
  abbrev pub IsSpent : Option F.State → ℕ → Type 0
  IsSpent none remaining = remaining ≡ 0
  IsSpent (some fsm) remaining = Unit

  abbrev pub Inv : DecodedBody F → Type 0
  Inv body = IsSpent body.fsm body.remaining

  abbrev pub Counting : ℕ → Option ℕ × Bytes × DecodedBody F → Type 0
  Counting = Counted (λ body. body.remaining) Inv

  abbrev Remaining : ℕ → Input F → Type 0
  Remaining n r = (r.2.fsm ≡ none) × (r.2.remaining ≡ n)

  store_input-Remaining :
      (fsm : F.State) (body : DecodedBody F) (buf : Bytes) (at : ℕ) (bytes : Option Bytes)
      → body.fsm ≡ none
      → After (Remaining body.remaining) (store_input F fsm body buf at bytes)
  store_input-Remaining fsm body buf at none gone = (gone, refl)
  store_input-Remaining fsm body buf at (some bytes) gone =
      After->>= (λ b. b ≡ b) (Remaining body.remaining) (copy_at at bytes buf) _
        (After-refl (copy_at at bytes buf))
        (λ b _.
          After-if (Remaining body.remaining) (ltb (F.space fsm) (length bytes)) panic _ tt
            (gone, refl))

  take_input-Remaining :
      (fsm : F.State) (body : DecodedBody F) (buf : Bytes) (at : ℕ)
      → body.fsm ≡ none
      → After (Remaining body.remaining) (take_input F read_at fsm body buf at)
  unfolding take_input
  take_input-Remaining fsm body buf at gone =
      After-if (Remaining body.remaining) (F.wants_read fsm) _ _
        (After-if (Remaining body.remaining) (ltb (length buf) at) panic _ tt (
          store_input-Remaining fsm body buf at
            (read_at body.offset (min (F.space fsm) (length buf - at))) gone))
        (gone, refl)

  leave_out-Counting :
      (body : DecodedBody F) (buf : Bytes) (at : ℕ) (w : Bytes) (fsm : F.State)
      → ltb 0 (length w) ≡ true
      → After (Counting body.remaining) (leave_out F body buf at w fsm)
  leave_out-Counting body buf at w fsm some_bytes =
      elim (Bool-cases (ltb body.remaining (length w))) [
        | inl e ↦ rw e tt
        | inr e ↦
            let fits : length w ≤ body.remaining = ground (arith, e) in
            let given = ltb→lt 0 (length w) some_bytes in
            rw e (tt, (omega arith, λ none. absurd (omega arith)))
      ]

  after_process-Counting :
      (again : F.State → DecodedBody F → Bytes → Run (Filled F)) (at_eof : Bool)
      (body : DecodedBody F) (buf : Bytes) (at : ℕ) (outcome : Processed F.State)
      → body.fsm ≡ none
      → ((fsm : F.State) (buf' : Bytes) → After (Counting body.remaining) (again fsm body buf'))
      → After (Counting body.remaining) (after_process F read_at again at_eof body buf at outcome)
  after_process-Counting again at_eof body buf at finished gone go =
      elim (Bool-cases (ltb 0 body.remaining)) [
        | inl e ↦ rw e tt
        | inr e ↦
            let none_left : body.remaining ≡ 0 = ground (arith, e) in
            rw e (
              subst (λ f. IsSpent f body.remaining) (sym gone) none_left,
              (omega arith, λ _. none_left),
            )
      ]
  after_process-Counting again at_eof body buf at Processed.failed gone go = tt
  after_process-Counting again at_eof body buf at (continued fsm bytes_read w) gone go =
      After->>= (λ b. b ≡ b) (Counting body.remaining) (copy_at at w buf) _
        (After-refl (copy_at at w buf))
        (λ b _. elim (Bool-cases (ltb 0 (length w))) [
          | inl e ↦ rw e (leave_out-Counting body b at w fsm e)
          | inr e ↦
              rw e
                (After-if (Counting body.remaining) (at_eof && bytes_read == 0) _ _ tt (go fsm b))
        ])

  process_input-Counting :
      (again : F.State → DecodedBody F → Bytes → Run (Filled F)) (n at : ℕ) (input : Input F)
      → ((fsm : F.State) (body : DecodedBody F) (buf : Bytes)
          → body.fsm ≡ none
          → After (Counting body.remaining) (again fsm body buf))
      → Remaining n input
      → After (Counting n) (process_input F read_at again at input)
  process_input-Counting again n at (none, buf, body) go same = tt
  process_input-Counting again n at (some (fsm, at_eof), buf, body) go (gone, same) =
      After-if (Counting n) (ltb (length buf) at) panic _ tt (
        subst
          (λ k.
            After (Counting k)
              (after_process F read_at again at_eof body buf at (F.process fsm (length buf - at))))
          same
          (after_process-Counting again at_eof body buf at (F.process fsm (length buf - at)) gone
            (λ fsm' buf'. go fsm' body buf' gone)))

  decode_loop-Counting :
      (fuel at : ℕ) (fsm : F.State) (body : DecodedBody F) (buf : Bytes)
      → body.fsm ≡ none
      → After (Counting body.remaining) (decode_loop F read_at fuel at fsm body buf)
  unfolding decode_loop
  decode_loop-Counting zero at fsm body buf gone = tt
  decode_loop-Counting (suc fuel) at fsm body buf gone =
      After->>= (Remaining body.remaining) (Counting body.remaining)
        (take_input F read_at fsm body buf at) _ (take_input-Remaining fsm body buf at gone)
        (λ input.
          process_input-Counting (decode_loop F read_at fuel at) body.remaining at input
            (decode_loop-Counting fuel at))

  pub fill_of-Counting :
      (fuel : ℕ) (fsm : Option F.State) (offset remaining : ℕ) (buf : Bytes) (at : ℕ)
      → IsSpent fsm remaining
      → After (Counting remaining) (
          fill F read_at fuel (record { fsm = fsm; offset = offset; remaining = remaining }) buf at)
  unfolding fill
  fill_of-Counting fuel none offset remaining buf at spent = (spent, (omega arith, λ _. spent))
  fill_of-Counting fuel (some fsm) offset remaining buf at spent =
      decode_loop-Counting fuel at fsm
        (record { fsm = none; offset = offset; remaining = remaining }) buf refl

  abbrev pub decoded_body-Counts : (fuel : ℕ) → Counts (any_decoded_body fuel)
  decoded_body-Counts fuel = record {
    size = λ body. body.remaining;
    Inv = Inv;
    counts = λ body. fill_of-Counting fuel body.fsm body.offset body.remaining;
  }

  -- Whatever the archive and the decoder's machine give, on a stream that puts what it takes behind
  -- what was sent: if sending the body of an entry that is decoded ends without an error, then exactly
  -- as many bytes as the archive records for the entry were sent behind what was staged.
  pub send_body-decoded_size :
      (rounds fuel : ℕ) (e : Entry) (W : Writer) (appends : Appends W) (buf : Bytes) (s : W.State)
      (staged : ℕ)
      → After
          (Sized W appends
            (any_decoded_body rounds)
            (decoded_body-Counts rounds)
            s
            (staged + e.uncompressed_size))
          (send_body W (any_decoded_body rounds) fuel (new F e) buf s staged)
  send_body-decoded_size rounds fuel e W appends buf s staged =
      send_body-Sized W appends (any_decoded_body rounds) (decoded_body-Counts rounds) fuel
        (new F e) buf s staged tt
