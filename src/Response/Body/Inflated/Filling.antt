-- ===== src/Response/Body/Inflated/Filling.antt =====
-- A `fill` of an inflated body gives the next of the inflated bytes, and 0 only at their end.
use zipring.Prelude.{
  ℕ, zero, suc, ◌+◌, ◌≤◌, ◌<◌, ◌≡◌, refl, true, Option, Run, ◌>>=◌, length, Bool-cases, inl, inr,
  arith,
}
use zipring.Prelude.Bytes.{Bytes}
use zipring.Response.Entry.{Entry, ReadExactAt}
use zipring.Response.Body.Contract.{Fills, Fills-of_equal}
use zipring.Response.Body.Native.Puts.{Holds, IsWithin}
use zipring.Response.Body.Inflated.{
  Inflate, Hasher, InflatedBody, decode, is_empty_handed, wants_input, after_decode, fill,
}
use zipring.Response.Body.Inflated.Laws.{Hashes, Inflates}
use zipring.Response.Body.Inflated.Sound.{
  Sound, input_left, rest, effort_of, empty_handed_lem, hand_out-Fills,
}
use zipring.Response.Body.Inflated.Reading.{Fed, read_input-Reads}
use zipring.Response.Body.Inflated.Decoding.{decode-Decodes}

module _ (I : Inflate) (H : Hasher) (read_exact_at : ReadExactAt) (contents : Bytes) (entry : Entry)
    (holds : Holds read_exact_at contents) (w : IsWithin contents entry) (content : Bytes)
    (most : ℕ) (L : Inflates I most (length content)) (S : Hashes H)
    (size : length content ≡ entry.uncompressed_size)
    (sum : H.finalize (S.hash content) ≡ entry.crc32) where
  -- With fuel for the decoder's calls without output and one more.
  abbrev Enough : InflatedBody I H → ℕ → Type 0
  Enough body fuel =
      is_empty_handed I H read_exact_at entry body ≡ true
      → effort_of I H read_exact_at contents entry holds w content most L S body + 1 < fuel

  round-Fills :
      (again : InflatedBody I H → Bytes → Run (Option ℕ × Bytes × InflatedBody I H)) (fuel : ℕ)
      (body : InflatedBody I H) (buf : Bytes) (at : ℕ)
      → ((body2 : InflatedBody I H)
          → Sound I H read_exact_at contents entry holds w content most L S body2
          → Enough body2 fuel
          → Fills
              (rest I H read_exact_at contents entry holds w content most L S)
              (Sound I H read_exact_at contents entry holds w content most L S)
              body2
              buf
              at
              (again body2 buf))
      → Sound I H read_exact_at contents entry holds w content most L S body
      → body.pending_end ≤ body.pending_start
      → Fed I H read_exact_at contents entry holds w content most L S body
      → effort_of I H read_exact_at contents entry holds w content most L S body + 1 < suc fuel
      → Fills
          (rest I H read_exact_at contents entry holds w content most L S)
          (Sound I H read_exact_at contents entry holds w content most L S)
          body
          buf
          at
          (decode I H entry body >>= after_decode I H read_exact_at entry again buf)
  round-Fills again fuel body buf at go sound none_pending fed enough =
      let d =
        decode-Decodes I H read_exact_at contents entry holds w content most L S size sum body sound
          none_pending fed in
      rw d.run_is (
        Fills-of_equal (rest I H read_exact_at contents entry holds w content most L S)
          (Sound I H read_exact_at contents entry holds w content most L S) body d.body2 buf buf at
          (again d.body2 buf) d.same_rest refl refl
          (go d.body2 d.sound2 (λ empty. let less = d.advances empty in omega arith)))

  fill-Fills_of :
      (fuel : ℕ) (body : InflatedBody I H) (buf : Bytes) (at : ℕ)
      → Sound I H read_exact_at contents entry holds w content most L S body
      → at + 30 ≤ length buf
      → Enough body fuel
      → 0 < fuel
      → Fills
          (rest I H read_exact_at contents entry holds w content most L S)
          (Sound I H read_exact_at contents entry holds w content most L S)
          body
          buf
          at
          (fill I H read_exact_at entry fuel body buf at)
  unfolding fill
  fill-Fills_of zero body buf at sound room enough some_fuel = absurd (omega arith)
  fill-Fills_of (suc fuel) body buf at sound room enough some_fuel =
      let again = λ (b : InflatedBody I H) (c : Bytes). fill I H read_exact_at entry fuel b c at in
      elim (Bool-cases (is_empty_handed I H read_exact_at entry body)) [
        | inr e ↦ rw e (
            hand_out-Fills I H read_exact_at contents entry holds w content most L S body buf at
              sound (omega arith) e)
        | inl e ↦
            let handed =
              empty_handed_lem I H read_exact_at contents entry holds w content most L S body e in
            let fuel_left = enough e in
            let go =
              λ (buf1 : Bytes) (same : length buf1 ≡ length buf) (body2 : InflatedBody I H)
                  (sound2 : Sound I H read_exact_at contents entry holds w content most L S body2)
                  (enough2 : Enough body2 fuel).
                fill-Fills_of fuel body2 buf1 at sound2 (omega arith) enough2 (omega arith) in
            elim (Bool-cases (wants_input I H read_exact_at entry body)) [
              | inl wants ↦
                  let r =
                    read_input-Reads I H read_exact_at contents entry holds w content most L S body
                      buf at sound handed.0 (ground (arith, wants)) (ground (arith, wants)) room in
                  let same_effort = r.same_effort in
                  rw (e, wants, r.run_is)
                    (Fills-of_equal (rest I H read_exact_at contents entry holds w content most L S)
                      (Sound I H read_exact_at contents entry holds w content most L S) body r.body1
                      buf r.buf1 at
                      (decode I H entry r.body1
                        >>= after_decode I H read_exact_at entry again r.buf1)
                      r.same_rest r.same_length r.in_front
                      (round-Fills again fuel r.body1 r.buf1 at (go r.buf1 r.same_length) r.sound1
                        r.no_pending r.fed (omega arith)))
              | inr wants ↦
                  rw (e, wants)
                    (round-Fills again fuel body buf at (go buf refl) sound handed.0
                      (λ none. ground (arith, wants, none)) (omega arith))
            ]
      ]

  -- On an archive that can be read, with a decoder that inflates the entry's stored bytes to `content`,
  -- whose length and checksum the archive records, and with fuel for the decoder's calls without
  -- output: a `fill` with 30 bytes of room returns, has put the next of the content there, and gives 0
  -- only at its end. The checks at the end of the content pass.
  pub fill-Fills :
      (body : InflatedBody I H) (buf : Bytes) (at : ℕ)
      → Sound I H read_exact_at contents entry holds w content most L S body
      → at + 30 ≤ length buf
      → Fills
          (rest I H read_exact_at contents entry holds w content most L S)
          (Sound I H read_exact_at contents entry holds w content most L S)
          body
          buf
          at
          (fill I H read_exact_at entry most body buf at)
  fill-Fills body buf at sound room =
      let enough : effort_of I H read_exact_at contents entry holds w content most L S body + 1
          < most =
        L.bound body.inflater.decoder body.inflater.window body.history_len
          (input_left I H read_exact_at contents entry holds w content most L S body)
          body.window_full sound.good in
      fill-Fills_of most body buf at sound room (λ _. enough) (omega arith)
