-- ===== src/Response/Body/Inflated/Reading.antt =====
-- Reading input leaves an inflated body with as much to give.
use zipring.Prelude.{
  ℕ, ◌+◌, ◌-◌, ◌≤◌, ◌<◌, ◌≡◌, refl, sym, ap, ◌∙◌, min, Bool, true, none, some, [], ◌++◌, Run, ret,
  length, take, drop, arith, subst, length-take, length-drop, drop-drop, take_split, drop-all,
}
use zipring.Prelude.Bytes.{Bytes}
use zipring.Response.Entry.{Entry, ReadExactAt, find_entry_compressed_data}
use zipring.Response.Body.Writes.{
  written, copy_at-written, length-written, take-written, take-written_front,
}
use zipring.Response.Body.Finds.{Finds, Finds-known, find_entry_compressed_data-Finds}
use zipring.Response.Body.Native.Puts.{Holds, IsWithin, offset_or_start}
use zipring.Response.Body.Inflated.{Inflate, Hasher, InflatedBody, input_len, offset_of, read_input}
use zipring.Response.Body.Inflated.Laws.{Hashes, Inflates}
use zipring.Response.Body.Inflated.Sound.{Sound, input_left, rest, effort_of}

module _ (I : Inflate) (H : Hasher) (read_exact_at : ReadExactAt) (contents : Bytes) (entry : Entry)
    (holds : Holds read_exact_at contents) (w : IsWithin contents entry) (content : Bytes)
    (most : ℕ) (L : Inflates I most (length content)) (S : Hashes H) where
  -- A body that may decode: nothing is pending, and there is input, unless there is no more.
  abbrev pub Fed : InflatedBody I H → Type 0
  Fed body = body.unconsumed_end ≤ body.unconsumed_start → body.unread ≡ 0

  -- Reading input leaves a body that is as sound, with the same left to give, and fed.
  pub record Reads (body : InflatedBody I H) (buf : Bytes) (at : ℕ)
      (run : Run (Bool × Bytes × InflatedBody I H)) : Type 0 where
    pub buf1 : Bytes
    pub body1 : InflatedBody I H
    pub run_is : run ≡ ret (true, buf1, body1)
    pub same_length : length buf1 ≡ length buf
    pub in_front : take at buf1 ≡ take at buf
    pub sound1 : Sound I H read_exact_at contents entry holds w content most L S body1
    pub fed : Fed body1
    pub same_rest :
        rest I H read_exact_at contents entry holds w content most L S body1
        ≡ rest I H read_exact_at contents entry holds w content most L S body
    pub same_effort :
        effort_of I H read_exact_at contents entry holds w content most L S body1
        ≡ effort_of I H read_exact_at contents entry holds w content most L S body
    pub no_pending : body1.pending_end ≤ body1.pending_start

  abbrev with_input : InflatedBody I H → Bytes → ℕ → ℕ → InflatedBody I H
  with_input body input offset n = record body {
    inflater = record body.inflater { input = input };
    unconsumed_start = 0;
    unconsumed_end = n;
    data_offset = some (offset + n);
    unread = body.unread - n;
  }

  inflated_offset-Finds :
      (body : InflatedBody I H) (buf : Bytes) (at : ℕ)
      → at + 30 ≤ length buf
      → Finds contents entry body.data_offset buf at (offset_of I H read_exact_at entry body buf at)
  unfolding offset_of
  inflated_offset-Finds body buf at room =
      elim body.data_offset
        as (λ o. Finds contents entry o buf at (elim o [
          | some offset ↦ ret (some offset, buf)
          | none ↦ find_entry_compressed_data read_exact_at entry at buf
        ])) [
          | some offset ↦ Finds-known contents entry offset buf at
          | none ↦ find_entry_compressed_data-Finds contents entry read_exact_at buf at holds w room
        ]

  -- What is unread, in two parts.
  input_left_lem :
      (body : InflatedBody I H) (n : ℕ)
      → Sound I H read_exact_at contents entry holds w content most L S body
      → body.unconsumed_end ≤ body.unconsumed_start
      → n ≤ body.unread
      → n ≤ length body.inflater.input
      → let offset = offset_or_start contents entry body.data_offset in
        input_left I H read_exact_at contents entry holds w content most L S
          (with_input body (written 0 (take n (drop offset contents)) body.inflater.input) offset n)
        ≡ input_left I H read_exact_at contents entry holds w content most L S body
  input_left_lem body n sound none_left less small =
      let offset = offset_or_start contents entry body.data_offset in
      let bytes = take n (drop offset contents) in
      let input = body.inflater.input in
      let within = sound.data_within in
      let size : length bytes ≡ n =
        omega (arith, length-take {0} n (drop offset contents), length-drop {0} offset contents) in
      let stored : take n (written 0 bytes input) ≡ bytes =
        ap (λ k. take k (written 0 bytes input)) (let e : n ≡ 0 + length bytes = omega arith in e)
        ∙ take-written 0 bytes input (omega arith) in
      let nothing : drop body.unconsumed_start (take body.unconsumed_end input) ≡ [] =
        drop-all body.unconsumed_start (take body.unconsumed_end input)
          (omega (arith, length-take {0} body.unconsumed_end input)) in
      let behind : take (body.unread - n) (drop (offset + n) contents)
          ≡ take (body.unread - n) (drop n (drop offset contents)) =
        ap (take (body.unread - n)) (sym (drop-drop n offset contents)) in
      ap (λ (d : Bytes). d ++ take (body.unread - n) (drop (offset + n) contents)) stored
      ∙ ap (λ (d : Bytes). bytes ++ d) behind
      ∙ sym (take_split n body.unread (drop offset contents) less)
      ∙ ap (λ (d : Bytes). d ++ take body.unread (drop offset contents)) (sym nothing)

  pub read_input-Reads :
      (body : InflatedBody I H) (buf : Bytes) (at : ℕ)
      → Sound I H read_exact_at contents entry holds w content most L S body
      → body.pending_end ≤ body.pending_start
      → body.unconsumed_end ≤ body.unconsumed_start
      → 0 < body.unread
      → at + 30 ≤ length buf
      → Reads body buf at (read_input I H read_exact_at entry body buf at)
  unfolding read_input
  read_input-Reads body buf at sound none_pending none_left some_unread room =
      let f = inflated_offset-Finds body buf at room in
      let same = f.same_length in
      let offset = offset_or_start contents entry body.data_offset in
      let n = min (min body.unread input_len) (length f.scratch - at) in
      let within = sound.data_within in
      let input_room = sound.input_room in
      let bytes = take n (drop offset contents) in
      let size : length bytes ≡ n =
        omega (arith, length-take {0} n (drop offset contents), length-drop {0} offset contents) in
      let fits : at + length bytes ≤ length f.scratch = omega arith in
      let fits_input : 0 + length bytes ≤ length body.inflater.input = omega arith in
      let same_input = input_left_lem body n sound none_left (omega arith) (omega arith) in
      let same_left =
        ap (L.left body.inflater.decoder body.inflater.window body.history_len) same_input in
      rw
        (
          f.finds,
          holds offset n (omega arith),
          copy_at-written at bytes f.scratch fits,
          copy_at-written 0 bytes body.inflater.input fits_input,
        )
        (record {
          buf1 = written at bytes f.scratch;
          body1 = with_input body (written 0 bytes body.inflater.input) offset n;
          run_is = refl;
          same_length = length-written at bytes f.scratch fits ∙ same;
          in_front = take-written_front at bytes f.scratch fits ∙ f.in_front;
          sound1 = record {
            before = sound.before;
            decoded = sound.decoded ∙ ap (λ (d : Bytes). sound.before ++ d) (sym same_left);
            hashed = sound.hashed;
            good =
                subst
                  (λ d.
                    L.Good body.inflater.decoder body.inflater.window body.history_len d
                      body.window_full)
                  (sym same_input) sound.good;
            pending_within = sound.pending_within;
            pending_order = sound.pending_order;
            input_order = omega arith;
            input_within = omega (arith, length-written 0 bytes body.inflater.input fits_input);
            input_room = length-written 0 bytes body.inflater.input fits_input ∙ input_room;
            window_room = sound.window_room;
            data_within = omega arith;
            ended = λ done. same_left ∙ sound.ended done;
          };
          fed = λ none. absurd (omega arith);
          same_rest =
              ap
                (λ (d : Bytes).
                  take (body.pending_end - body.pending_start)
                    (drop body.pending_start body.inflater.window)
                  ++ d)
                same_left;
          same_effort = ap (L.effort body.inflater.decoder) same_input;
          no_pending = none_pending;
        })
