-- ===== src/Response/Body/Inflated/Advancing.antt =====
-- On a turn of the decoder: what the body holds and has left after it.
use zipring.Prelude.{
  ℕ, ◌+◌, ◌-◌, ◌≤◌, ◌<◌, ◌≡◌, sym, ap, ◌∙◌, true, [], ◌++◌, length, take, drop, inl, inr, arith,
  append-nil, append_assoc, ◌==◌, subst, length-take, length-drop, drop-drop,
}
use zipring.Prelude.Bytes.{Bytes}
use zipring.Response.Entry.{Entry, ReadExactAt}
use zipring.Response.Body.Native.Puts.{Holds, IsWithin, offset_or_start}
use zipring.Response.Body.Inflated.{
  Inflate, Hasher, InflatedBody, make_room, advanced, is_empty_handed,
}
use zipring.Response.Body.Inflated.Laws.{Hashes, Turn, Inflates}
use zipring.Response.Body.Inflated.Sound.{
  Sound, input_left, left_of, rest, effort_of, empty_handed_lem,
}
use zipring.Response.Body.Inflated.Making.{roomy, Makes}

module _ (I : Inflate) (H : Hasher) (read_exact_at : ReadExactAt) (contents : Bytes) (entry : Entry)
    (holds : Holds read_exact_at contents) (w : IsWithin contents entry) (content : Bytes)
    (most : ℕ) (L : Inflates I most (length content)) (S : Hashes H) where
  module _ (body : InflatedBody I H)
      (sound : Sound I H read_exact_at contents entry holds w content most L S body)
      (none_pending : body.pending_end ≤ body.pending_start)
      (m : Makes I H read_exact_at contents entry holds w content most L S body
        (make_room I H body)) where
    -- The input at hand, and what is still to be read.
    abbrev pub input_of : Bytes
    input_of = drop body.unconsumed_start (take body.unconsumed_end body.inflater.input)

    abbrev pub more_of : Bytes
    more_of = take body.unread (drop (offset_or_start contents entry body.data_offset) contents)

    pub length-input_of : length input_of ≡ body.unconsumed_end - body.unconsumed_start
    length-input_of =
        let within = sound.input_within in
        omega (
          arith,
          length-drop {0} body.unconsumed_start (take body.unconsumed_end body.inflater.input),
          length-take {0} body.unconsumed_end body.inflater.input,
        )

    module _
        (t : Turn I L.left L.effort L.Good m.d1 m.w1 m.h1 input_of more_of
          (I.decompress m.d1 input_of m.w1 (body.unread == 0))) where
      abbrev pub advanced_by : InflatedBody I H
      advanced_by = advanced I H (roomy I H body m.d1 m.w1 m.h1) t.d' t.window' t.progress

      -- What the turn leaves of the input.
      pub input_left-advanced_by :
          drop t.progress.consumed input_of ++ more_of
          ≡ input_left I H read_exact_at contents entry holds w content most L S advanced_by
      input_left-advanced_by =
          ap (λ (d : Bytes). d ++ more_of)
            (drop-drop t.progress.consumed body.unconsumed_start
              (take body.unconsumed_end body.inflater.input))

      pub Good-advanced_by :
          L.Good t.d' t.window'
            (m.h1 + length t.progress.output)
            (input_left I H read_exact_at contents entry holds w content most L S advanced_by)
            t.progress.full
      Good-advanced_by =
          subst (λ d. L.Good t.d' t.window' (m.h1 + length t.progress.output) d t.progress.full)
            input_left-advanced_by t.good

      -- What was left to give is the turn's output, and what it leaves.
      left_of-advanced_by :
          left_of I H read_exact_at contents entry holds w content most L S body
          ≡ t.progress.output
            ++ left_of I H read_exact_at contents entry holds w content most L S advanced_by
      left_of-advanced_by =
          sym m.same_left
          ∙ t.splits
          ∙ ap (λ d. t.progress.output ++ L.left t.d' t.window' (m.h1 + length t.progress.output) d)
              input_left-advanced_by

      decoded-advanced_by :
          content
          ≡ (sound.before ++ t.progress.output)
            ++ left_of I H read_exact_at contents entry holds w content most L S advanced_by
      decoded-advanced_by =
          sound.decoded
          ∙ ap (λ (d : Bytes). sound.before ++ d) left_of-advanced_by
          ∙ sym (
              append_assoc sound.before t.progress.output
                (left_of I H read_exact_at contents entry holds w content most L S advanced_by))

      hashed-advanced_by :
          H.update body.crc t.progress.output ≡ S.hash (sound.before ++ t.progress.output)
      hashed-advanced_by =
          ap (λ c. H.update c t.progress.output) sound.hashed
          ∙ S.hash_more sound.before t.progress.output

      -- At the end nothing is left, and the checksum is the content's.
      pub ended-advanced_by :
          t.progress.done ≡ true
          → left_of I H read_exact_at contents entry holds w content most L S advanced_by ≡ []
      ended-advanced_by done =
          ap (L.left t.d' t.window' (m.h1 + length t.progress.output)) (sym input_left-advanced_by)
          ∙ t.at_end done

      pub whole-advanced_by :
          t.progress.done ≡ true → H.update body.crc t.progress.output ≡ S.hash content
      whole-advanced_by done =
          hashed-advanced_by
          ∙ ap S.hash (
              sym (append-nil (sound.before ++ t.progress.output))
              ∙ ap (λ (d : Bytes). (sound.before ++ t.progress.output) ++ d)
                  (sym (ended-advanced_by done))
              ∙ sym decoded-advanced_by)

      pub advanced_by-Sound :
          Sound I H read_exact_at contents entry holds w content most L S advanced_by
      advanced_by-Sound =
          let order = sound.input_order in
          let within = sound.input_within in
          let consumes = t.consumes in
          let room = t.room in
          let same_window = t.same_length in
          let at_hand = length-input_of in
          record {
            before = sound.before ++ t.progress.output;
            decoded = decoded-advanced_by;
            hashed = hashed-advanced_by;
            good = Good-advanced_by;
            pending_within = omega arith;
            pending_order = omega arith;
            input_order = omega arith;
            input_within = within;
            input_room = sound.input_room;
            window_room = t.same_length ∙ m.same_length ∙ sound.window_room;
            data_within = sound.data_within;
            ended = ended-advanced_by;
          }

      pub rest-advanced_by :
          rest I H read_exact_at contents entry holds w content most L S advanced_by
          ≡ rest I H read_exact_at contents entry holds w content most L S body
      rest-advanced_by =
          let left = left_of I H read_exact_at contents entry holds w content most L S body in
          let left2 =
            left_of I H read_exact_at contents entry holds w content most L S advanced_by in
          ap (λ k. take k (drop m.h1 t.window') ++ left2)
            (let e : m.h1 + length t.progress.output - m.h1 ≡ length t.progress.output =
                omega arith in
              e)
          ∙ ap (λ (d : Bytes). d ++ left2) t.in_window
          ∙ sym left_of-advanced_by
          ∙ ap (λ k. take k (drop body.pending_start body.inflater.window) ++ left)
              (let e : 0 ≡ body.pending_end - body.pending_start = omega arith in e)

      -- With nothing to hand out, the turn made an effort.
      pub effort_of-advanced_by :
          is_empty_handed I H read_exact_at entry advanced_by ≡ true
          → effort_of I H read_exact_at contents entry holds w content most L S advanced_by
            < effort_of I H read_exact_at contents entry holds w content most L S body
      effort_of-advanced_by empty =
          let handed =
            empty_handed_lem I H read_exact_at contents entry holds w content most L S advanced_by
              empty in
          elim t.advances [
            | inl done ↦ absurd (let e = handed.1 in grind (arith, e, done))
            | inr (inl some_out) ↦ absurd (let e = handed.0 in omega arith)
            | inr (inr less) ↦
                let same = ap (L.effort t.d') input_left-advanced_by in
                let bound = m.same_effort in omega arith
          ]
