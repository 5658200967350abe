-- ===== src/Response/Body/Inflated/Sound.antt =====
-- What an inflated body has still to give, and what hands it out.
use zipring.Prelude.{
  ℕ, ◌+◌, ◌-◌, ◌≤◌, ◌≡◌, sym, ap, ◌∙◌, min, true, false, some, [], ◌++◌, ret, length, take, drop,
  ltb-eq-false, Bool-cases, inl, inr, arith, append_assoc, length-take, length-drop, drop-drop,
  take_split,
}
use zipring.Prelude.Bytes.{Bytes}
use zipring.Response.Entry.{Entry, ReadExactAt}
use zipring.Response.Body.Writes.{written, copy_at-written, length-written, take-written}
use zipring.Response.Body.Contract.{Fills}
use zipring.Response.Body.Native.Puts.{Holds, IsWithin, offset_or_start}
use zipring.Response.Body.Inflated.{
  Inflate, Hasher, InflatedBody, input_len, window_len, hand_out, is_empty_handed,
}
use zipring.Response.Body.Inflated.Laws.{Hashes, Inflates}

module _ (I : Inflate) (H : Hasher) (read_exact_at : ReadExactAt) (contents : Bytes) (entry : Entry)
    (holds : Holds read_exact_at contents) (w : IsWithin contents entry) (content : Bytes)
    (most : ℕ) (L : Inflates I most (length content)) (S : Hashes H) where
  -- The compressed bytes that were not decoded yet.
  abbrev pub input_left : InflatedBody I H → Bytes
  input_left body =
      drop body.unconsumed_start (take body.unconsumed_end body.inflater.input)
      ++ take body.unread (drop (offset_or_start contents entry body.data_offset) contents)

  abbrev pub left_of : InflatedBody I H → Bytes
  left_of body =
      L.left body.inflater.decoder body.inflater.window body.history_len (input_left body)

  -- What the body has still to give.
  abbrev pub rest : InflatedBody I H → Bytes
  rest body =
      take (body.pending_end - body.pending_start) (drop body.pending_start body.inflater.window)
      ++ left_of body

  abbrev pub effort_of : InflatedBody I H → ℕ
  effort_of body = L.effort body.inflater.decoder (input_left body)

  pub record Sound (body : InflatedBody I H) : Type 0 where
    pub before : Bytes
    pub decoded : content ≡ before ++ left_of body
    pub hashed : body.crc ≡ S.hash before
    pub good :
        L.Good body.inflater.decoder body.inflater.window body.history_len
          (input_left body)
          body.window_full
    pub pending_within : body.pending_end ≤ length body.inflater.window
    pub pending_order : body.pending_start ≤ body.pending_end
    pub input_order : body.unconsumed_start ≤ body.unconsumed_end
    pub input_within : body.unconsumed_end ≤ length body.inflater.input
    pub input_room : length body.inflater.input ≡ input_len
    pub window_room : length body.inflater.window ≡ window_len
    pub data_within :
        offset_or_start contents entry body.data_offset + body.unread ≤ length contents
    pub ended : body.done ≡ true → left_of body ≡ []

  pub empty_handed_lem :
      (body : InflatedBody I H)
      → is_empty_handed I H read_exact_at entry body ≡ true
      → (body.pending_end ≤ body.pending_start) × (body.done ≡ false)
  empty_handed_lem body h = elim (Bool-cases body.done) [
    | inl e ↦ absurd (grind (arith, e, h))
    | inr e ↦ (ground (arith, h, e), e)
  ]

  handed_lem :
      (body : InflatedBody I H)
      → is_empty_handed I H read_exact_at entry body ≡ false
      → body.pending_end ≤ body.pending_start
      → body.done ≡ true
  handed_lem body h none_pending = elim (Bool-cases body.done) [
    | inl e ↦ e
    | inr e ↦ absurd (ground (arith, h, e))
  ]

  pub hand_out-Fills :
      (body : InflatedBody I H) (buf : Bytes) (at : ℕ)
      → Sound body
      → at + 1 ≤ length buf
      → is_empty_handed I H read_exact_at entry body ≡ false
      → Fills rest Sound body buf at (hand_out I H read_exact_at entry body buf at)
  unfolding hand_out
  hand_out-Fills body buf at sound room some_left =
      let ps = body.pending_start in
      let pe = body.pending_end in
      let window = body.inflater.window in
      let n = min (pe - ps) (length buf - at) in
      let given = take n (drop ps window) in
      let within = sound.pending_within in
      let order = sound.pending_order in
      let size : length given ≡ n =
        omega (arith, length-take {0} n (drop ps window), length-drop {0} ps window) in
      let fits : at + length given ≤ length buf = omega arith in
      let behind : take (pe - ps - n) (drop n (drop ps window))
          ≡ take (pe - (ps + n)) (drop (ps + n) window) =
        ap (take (pe - ps - n)) (drop-drop n ps window)
        ∙ ap (λ k. take k (drop (ps + n) window))
            (let e : pe - ps - n ≡ pe - (ps + n) = omega arith in e) in
      let splits : rest body
          ≡ given ++ (take (pe - (ps + n)) (drop (ps + n) window) ++ left_of body) =
        ap (λ (d : Bytes). d ++ left_of body)
          (take_split n (pe - ps) (drop ps window) (omega arith)
            ∙ ap (λ (d : Bytes). given ++ d) behind)
        ∙ append_assoc given (take (pe - (ps + n)) (drop (ps + n) window)) (left_of body) in
      rw (ltb-eq-false (length window) (ps + n) (omega arith), copy_at-written at given buf fits)
        (record {
          given = given;
          buf' = written at given buf;
          body' = record body { pending_start = ps + n };
          run_is =
              ap (λ k. ret (some k, written at given buf, record body { pending_start = ps + n }))
                (sym size);
          same_length = length-written at given buf fits;
          in_front = take-written at given buf fits;
          splits = splits;
          fits = fits;
          still_ok = record {
            before = sound.before;
            decoded = sound.decoded;
            hashed = sound.hashed;
            good = sound.good;
            pending_within = within;
            pending_order = omega arith;
            input_order = sound.input_order;
            input_within = sound.input_within;
            input_room = sound.input_room;
            window_room = sound.window_room;
            data_within = sound.data_within;
            ended = sound.ended;
          };
          ends = λ nothing.
              let none : length given ≡ 0 = ap length nothing in
              let no_more : pe - (ps + n) ≡ 0 = omega arith in
              ap (λ k. take k (drop (ps + n) window) ++ left_of body) no_more
              ∙ sound.ended (handed_lem body some_left (omega arith));
        })
