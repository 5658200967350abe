-- ===== src/Response/Body/Inflated/Decoding.antt =====
-- Decoding puts the next of the inflated bytes into the window, and passes the checks.
use zipring.Prelude.{
  ℕ, ◌+◌, ◌≤◌, ◌<◌, ◌≡◌, refl, ap, ◌∙◌, Bool, true, [], Run, ret, length, take, drop, ltb-eq-false,
  Bool-cases, inl, inr, arith, ◌==◌, subst, length-take, length-drop,
}
use zipring.Prelude.Bytes.{Bytes}
use zipring.Response.Entry.{Entry, ReadExactAt}
use zipring.Response.Body.Native.Puts.{Holds, IsWithin, offset_or_start}
use zipring.Response.Body.Inflated.{
  Inflate, Hasher, InflatedBody, make_room, decode, decompress, is_sound, is_empty_handed,
}
use zipring.Response.Body.Inflated.Laws.{Hashes, Turn, Inflates}
use zipring.Response.Body.Inflated.Sound.{Sound, input_left, left_of, rest, effort_of}
use zipring.Response.Body.Inflated.Reading.{Fed}
use zipring.Response.Body.Inflated.Making.{roomy, Makes, make_room-Makes}
use zipring.Response.Body.Inflated.Advancing.{
  input_of, more_of, advanced_by, Good-advanced_by, ended-advanced_by, whole-advanced_by,
  advanced_by-Sound, rest-advanced_by, effort_of-advanced_by,
}

module _ (I : Inflate) (H : Hasher) (read_exact_at : ReadExactAt) (contents : Bytes) (entry : Entry)
    (holds : Holds read_exact_at contents) (w : IsWithin contents entry) (content : Bytes)
    (most : ℕ) (L : Inflates I most (length content)) (S : Hashes H) where
  -- What decoding leaves.
  pub record Decodes (body : InflatedBody I H) (run : Run (Bool × InflatedBody I H)) : Type 0 where
    pub body2 : InflatedBody I H
    pub run_is : run ≡ ret (true, body2)
    pub sound2 : Sound I H read_exact_at contents entry holds w content most L S body2
    pub same_rest :
        rest I H read_exact_at contents entry holds w content most L S body2
        ≡ rest I H read_exact_at contents entry holds w content most L S body
    pub advances :
        is_empty_handed I H read_exact_at entry body2 ≡ true
        → effort_of I H read_exact_at contents entry holds w content most L S body2
          < effort_of I H read_exact_at contents entry holds w content most L S body

  module _ (size : length content ≡ entry.uncompressed_size)
      (sum : H.finalize (S.hash content) ≡ entry.crc32) where
    -- The checks hold of a body whose bytes so far are a front of the content.
    is_sound_lem :
        (body : InflatedBody I H) (left : Bytes)
        → I.total_out body.inflater.decoder + length left ≡ length content
        → (body.done ≡ true → left ≡ [])
        → (body.done ≡ true → body.crc ≡ S.hash content)
        → is_sound I H entry body ≡ true
    is_sound_lem body left total ended hashed =
        let t = I.total_out body.inflater.decoder in
        elim (Bool-cases body.done) [
          | inr e ↦ rw (e, ltb-eq-false entry.uncompressed_size t (omega arith)) refl
          | inl e ↦
              let none : length left ≡ 0 = ap length (ended e) in
              let same : (H.finalize body.crc == entry.crc32) ≡ true =
                (let f : H.finalize body.crc ≡ entry.crc32 = ap H.finalize (hashed e) ∙ sum in
                  ground arith) in
              rw
                (
                  e,
                  ltb-eq-false entry.uncompressed_size t (omega arith),
                  ltb-eq-false t entry.uncompressed_size (omega arith),
                  same,
                )
                refl
        ]

    module _ (body : InflatedBody I H)
        (sound : Sound I H read_exact_at contents entry holds w content most L S body)
        (none_pending : body.pending_end ≤ body.pending_start)
        (m : Makes I H read_exact_at contents entry holds w content most L S body
          (make_room I H body)) where
      decompress-Decodes :
          Turn I L.left L.effort L.Good m.d1 m.w1 m.h1
            (input_of I H read_exact_at contents entry holds w content most L S body sound
              none_pending m)
            (more_of I H read_exact_at contents entry holds w content most L S body sound
              none_pending m)
            (I.decompress m.d1
              (input_of I H read_exact_at contents entry holds w content most L S body sound
                none_pending m)
              m.w1
              (body.unread == 0))
          → Decodes body (decompress I H entry (roomy I H body m.d1 m.w1 m.h1))
      decompress-Decodes t =
          let body2 =
            advanced_by I H read_exact_at contents entry holds w content most L S body sound
              none_pending m t in
          let passes =
            is_sound_lem body2
              (left_of I H read_exact_at contents entry holds w content most L S body2)
              (L.total t.d' t.window' (m.h1 + length t.progress.output)
                (input_left I H read_exact_at contents entry holds w content most L S body2)
                t.progress.full
                (Good-advanced_by I H read_exact_at contents entry holds w content most L S body
                  sound none_pending m t))
              (ended-advanced_by I H read_exact_at contents entry holds w content most L S body
                sound none_pending m t)
              (whole-advanced_by I H read_exact_at contents entry holds w content most L S body
                sound none_pending m t) in
          rw
            (
              ltb-eq-false body.unconsumed_end body.unconsumed_start sound.input_order,
              ltb-eq-false (length body.inflater.input) body.unconsumed_end sound.input_within,
              t.outcome_is,
              passes,
            )
            (record {
              body2 = body2;
              run_is = refl;
              sound2 =
                  advanced_by-Sound I H read_exact_at contents entry holds w content most L S body
                    sound none_pending m t;
              same_rest =
                  rest-advanced_by I H read_exact_at contents entry holds w content most L S body
                    sound none_pending m t;
              advances =
                  effort_of-advanced_by I H read_exact_at contents entry holds w content most L S
                    body sound none_pending m t;
            })

    pub decode-Decodes :
        (body : InflatedBody I H)
        → Sound I H read_exact_at contents entry holds w content most L S body
        → body.pending_end ≤ body.pending_start
        → Fed I H read_exact_at contents entry holds w content most L S body
        → Decodes body (decode I H entry body)
    unfolding decode
    decode-Decodes body sound none_pending fed =
        let m =
          make_room-Makes I H read_exact_at contents entry holds w content most L S body sound in
        let offset = offset_or_start contents entry body.data_offset in
        let within = sound.data_within in
        let more =
          more_of I H read_exact_at contents entry holds w content most L S body sound none_pending
            m in
        let input =
          input_of I H read_exact_at contents entry holds w content most L S body sound none_pending
            m in
        let size_more : length more ≡ body.unread = omega (
          arith,
          length-take {0} body.unread (drop offset contents),
          length-drop {0} offset contents,
        ) in
        let last : input ≡ [] → more ≡ [] = λ none.
          let z : length input ≡ 0 = ap length none in
          let order = sound.input_order in
          let held = sound.input_within in
          let gone : body.unread ≡ 0 = fed (
            omega (
              arith,
              length-drop {0} body.unconsumed_start (take body.unconsumed_end body.inflater.input),
              length-take {0} body.unconsumed_end body.inflater.input,
            )) in
          ap (λ k. take k (drop offset contents)) gone in
        rw m.run_is (
          decompress-Decodes body sound none_pending m (
            subst
              (λ k.
                Turn I L.left L.effort L.Good m.d1 m.w1 m.h1 input more
                  (I.decompress m.d1 input m.w1 (k == 0)))
              size_more (L.turns m.d1 m.w1 m.h1 input more m.good1 last)))
