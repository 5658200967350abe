-- ===== src/Response/Body/Native/Steps.antt =====
-- Each of the three steps of a native body's `fill` puts the next bytes into the buffer.
use zipring.Prelude.{
  ℕ, zero, suc, ◌+◌, ◌-◌, ◌≤◌, ◌≡◌, refl, sym, ap, ◌∙◌, min, Bool, true, false, Option, none, some,
  [], ◌++◌, ret, length, take, drop, ltb, leb, ◌==◌, arith, inl, inr, Bool-cases, subst,
  length-take, length-drop, append_assoc, append-nil, drop-drop, leb→le, take_split,
}
use zipring.Prelude.Bytes.{Bytes}
use zipring.Response.Entry.{Entry, ReadExactAt}
use zipring.Response.Coding.{NativeCoding, prefix, trailer, trailer_len}
use zipring.Response.Body.Finds.{Finds, Finds-known, find_entry_compressed_data-Finds}
use zipring.Response.Body.Writes.{written, copy_at-written}
use zipring.Response.Body.Native.{
  NativeBody, write_prefix, offset_of, read_at_offset, read_data, write_trailer,
}
use zipring.Response.Body.Native.Puts.{
  length-prefix, trailer_len_bound, zero_of, length-trailer, when, Holds, IsWithin, offset_or_start,
  rest, Ok, Puts, Puts-nothing, Puts-written, Puts-of_front, body_of,
}

module _ (read_exact_at : ReadExactAt) (contents : Bytes) (entry : Entry) (native : NativeCoding)
    (holds : Holds read_exact_at contents) (w : IsWithin contents entry) where
  abbrev pub Short : Bytes → NativeBody → Type 0
  Short given body' = length given ≤ 10

  write_prefix-Puts_of :
      (o : Option ℕ) (r : ℕ) (p t : Bool) (buf : Bytes) (end : ℕ)
      → Ok contents entry native (body_of o r p t)
      → end + length (prefix native) ≤ length buf
      → Puts contents entry native Short
          (body_of o r p t)
          buf
          end
          (write_prefix read_exact_at entry native (body_of o r p t) buf end)
  unfolding write_prefix
  write_prefix-Puts_of o r false t buf end ok h =
      Puts-nothing contents entry native Short (body_of o r false t) buf end ok (omega arith) refl
        (omega arith)
  write_prefix-Puts_of o r true t buf end ok h = rw (copy_at-written end (prefix native) buf h) (
      Puts-written contents entry native Short (body_of o r true t) (body_of o r false t) buf
        (prefix native) end h refl ok refl (length-prefix native))

  pub write_prefix-Puts :
      (body : NativeBody) (buf : Bytes) (end : ℕ)
      → Ok contents entry native body
      → end + length (prefix native) ≤ length buf
      → Puts contents entry native Short body buf end
          (write_prefix read_exact_at entry native body buf end)
  write_prefix-Puts body =
      write_prefix-Puts_of body.data_offset body.remaining body.prefix_pending body.trailer_pending

  -- With the data out and room for any trailer, the trailer is out too.
  abbrev pub Closed : ℕ → Bytes → ℕ → Bytes → NativeBody → Type 0
  Closed r buf end given body' =
      end + 8 ≤ length buf → r ≡ 0 → rest contents entry native body' ≡ []

  write_trailer-Puts_of :
      (o : Option ℕ) (r : ℕ) (t : Bool) (buf : Bytes) (end : ℕ)
      → Ok contents entry native (body_of o r false t)
      → end ≤ length buf
      → Puts contents entry native
          (Closed r buf end)
          (body_of o r false t)
          buf
          end
          (write_trailer read_exact_at entry native (body_of o r false t) buf end)
  unfolding write_trailer
  write_trailer-Puts_of o r false buf end ok h =
      let post : Closed r buf end [] (body_of o r false false) = λ room none_left.
        ap (λ k. take k (drop (offset_or_start contents entry o) contents) ++ []) none_left in
      elim (Bool-cases (r == 0)) [
        | inl e ↦ rw e (
            Puts-nothing contents entry native (Closed r buf end) (body_of o r false false) buf end
              ok h refl post)
        | inr e ↦ rw e (
            Puts-nothing contents entry native (Closed r buf end) (body_of o r false false) buf end
              ok h refl post)
      ]
  write_trailer-Puts_of o zero true buf end ok h =
      let bound = trailer_len_bound native in
      elim (Bool-cases (leb (trailer_len native) (length buf - end))) [
        | inr e ↦
            let post : Closed 0 buf end [] (body_of o zero false true) =
              λ room none_left. absurd (ground arith) in
            rw e (
              Puts-nothing contents entry native (Closed 0 buf end) (body_of o zero false true) buf
                end ok h refl post)
        | inl e ↦
            let h' : end + trailer_len native ≤ length buf =
              (let l = leb→le (trailer_len native) (length buf - end) e in omega arith) in
            let room : end + length (trailer native entry) ≤ length buf =
              omega (arith, length-trailer native entry) in
            rw
              (
                e,
                sym (length-trailer native entry),
                copy_at-written end (trailer native entry) buf room,
              )
              (Puts-written contents entry native (Closed 0 buf end) (body_of o zero false true)
                (body_of o zero false false) buf (trailer native entry) end room
                (sym (append-nil (trailer native entry))) ok refl (λ _ _. refl))
      ]
  write_trailer-Puts_of o (suc r) true buf end ok h =
      let e : (suc r == 0) ≡ false = ground arith in
      let post : Closed (suc r) buf end [] (body_of o (suc r) false true) =
        λ room none_left. absurd (omega arith) in
      rw e (
        Puts-nothing contents entry native (Closed (suc r) buf end) (body_of o (suc r) false true)
          buf end ok h refl post)

  pub write_trailer-Puts :
      (body : NativeBody) (buf : Bytes) (end : ℕ)
      → body.prefix_pending ≡ false
      → Ok contents entry native body
      → end ≤ length buf
      → Puts contents entry native
          (Closed body.remaining buf end)
          body
          buf
          end
          (write_trailer read_exact_at entry native body buf end)
  write_trailer-Puts body buf end sent =
      let same : body_of body.data_offset body.remaining false body.trailer_pending ≡ body =
        ap (λ p. body_of body.data_offset body.remaining p body.trailer_pending) (sym sent) in
      subst
        (λ b.
          Ok contents entry native b
          → end ≤ length buf
          → Puts contents entry native (Closed b.remaining buf end) b buf end
              (write_trailer read_exact_at entry native b buf end))
        same (write_trailer-Puts_of body.data_offset body.remaining body.trailer_pending buf end)

  -- Nothing is read only where nothing is left.
  abbrev pub Stopped : Bytes → NativeBody → Type 0
  Stopped given body' = given ≡ [] → body'.remaining ≡ 0

  -- Reading the data itself, at an offset that is known.
  read_at_offset-Puts :
      (o : Option ℕ) (r : ℕ) (t : Bool) (buf : Bytes) (end : ℕ)
      → Ok contents entry native (body_of o r false t)
      → end + 30 ≤ length buf
      → Puts contents entry native Stopped (body_of o r false t) buf end (
          read_at_offset read_exact_at entry native
            (body_of o r false t)
            end
            (some (offset_or_start contents entry o), buf))
  read_at_offset-Puts o r t buf end ok h =
      let offset = offset_or_start contents entry o in
      let n = min r (length buf - end) in
      let le : offset + n ≤ length contents = omega arith in
      let bytes = take n (drop offset contents) in
      let length_bytes : length bytes ≡ n =
        omega (arith, length-take {0} n (drop offset contents), length-drop {0} offset contents) in
      let room : end + length bytes ≤ length buf = omega arith in
      let tail = when t (trailer native entry) in
      let splits : take r (drop offset contents) ++ tail
          ≡ bytes ++ (take (r - n) (drop (offset + n) contents) ++ tail) =
        ap (λ (d : Bytes). d ++ tail)
          (take_split n r (drop offset contents) (omega arith)
            ∙ ap (λ d. bytes ++ take (r - n) d) (drop-drop n offset contents))
        ∙ append_assoc bytes (take (r - n) (drop (offset + n) contents)) tail in
      let stopped : Stopped bytes (body_of (some (offset + n)) (r - n) false t) =
        λ nothing. (let z : length bytes ≡ 0 = ap length nothing in omega arith) in
      let put =
        Puts-written contents entry native Stopped (body_of o r false t)
          (body_of (some (offset + n)) (r - n) false t) buf bytes end room splits (omega arith) refl
          stopped in
      rw (holds offset n le, copy_at-written end bytes buf room)
        (subst
          (λ k. Puts contents entry native Stopped (body_of o r false t) buf end (
            ret
              (some (end + k), written end bytes buf, body_of (some (offset + n)) (r - n) false t)))
          length_bytes put)

  offset_of-Finds :
      (o : Option ℕ) (r : ℕ) (t : Bool) (buf : Bytes) (end : ℕ)
      → end + 30 ≤ length buf
      → Finds contents entry o buf end
          (offset_of read_exact_at entry native (body_of o r false t) buf end)
  unfolding offset_of
  offset_of-Finds (some offset) r t buf end h = Finds-known contents entry offset buf end
  offset_of-Finds none r t buf end h =
      find_entry_compressed_data-Finds contents entry read_exact_at buf end holds w h

  read_data-Puts_of :
      (o : Option ℕ) (r : ℕ) (t : Bool) (buf : Bytes) (end : ℕ)
      → Ok contents entry native (body_of o r false t)
      → end + 30 ≤ length buf
      → Puts contents entry native Stopped
          (body_of o r false t)
          buf
          end
          (read_data read_exact_at entry native (body_of o r false t) buf end)
  unfolding read_data
  read_data-Puts_of o r t buf end ok h = elim (Bool-cases (ltb 0 r)) [
    | inr e ↦ rw e (
        Puts-nothing contents entry native Stopped (body_of o r false t) buf end ok (omega arith)
          refl (λ _. omega (arith, zero_of r e)))
    | inl e ↦
        let f = offset_of-Finds o r t buf end h in
        let le : end + 30 ≤ length f.scratch = (let same = f.same_length in omega arith) in
        rw (e, f.finds)
          (Puts-of_front contents entry native Stopped (body_of o r false t) buf f.scratch end
            (read_at_offset read_exact_at entry native (body_of o r false t) end
              (some (offset_or_start contents entry o), f.scratch))
            f.same_length f.in_front (read_at_offset-Puts o r t f.scratch end ok le))
  ]

  pub read_data-Puts :
      (body : NativeBody) (buf : Bytes) (end : ℕ)
      → body.prefix_pending ≡ false
      → Ok contents entry native body
      → end + 30 ≤ length buf
      → Puts contents entry native Stopped body buf end
          (read_data read_exact_at entry native body buf end)
  read_data-Puts body buf end sent =
      let same : body_of body.data_offset body.remaining false body.trailer_pending ≡ body =
        ap (λ p. body_of body.data_offset body.remaining p body.trailer_pending) (sym sent) in
      subst
        (λ b.
          Ok contents entry native b
          → end + 30 ≤ length buf
          → Puts contents entry native Stopped b buf end
              (read_data read_exact_at entry native b buf end))
        same (read_data-Puts_of body.data_offset body.remaining body.trailer_pending buf end)
