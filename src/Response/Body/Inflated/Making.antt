-- ===== src/Response/Body/Inflated/Making.antt =====
-- On the room that is made in a window before decoding into it.
use zipring.Prelude.{
  ℕ, ◌-◌, ◌≤◌, ◌≡◌, refl, ap, Bool, false, Run, ret, length, ltb-eq-false, Bool-cases, inl, inr,
  arith, subst,
}
use zipring.Prelude.Bytes.{Bytes}
use zipring.Response.Entry.{Entry, ReadExactAt}
use zipring.Response.Body.Native.Puts.{Holds, IsWithin}
use zipring.Response.Body.Inflated.{Inflate, Hasher, InflatedBody, make_room}
use zipring.Response.Body.Inflated.Laws.{Hashes, Inflates}
use zipring.Response.Body.Inflated.Sound.{Sound, input_left, left_of, effort_of}

module _ (I : Inflate) (H : Hasher) where
  abbrev pub roomy : InflatedBody I H → I.State → Bytes → ℕ → InflatedBody I H
  roomy body d window history = record body {
    inflater = record body.inflater { decoder = d; window = window };
    history_len = history;
    window_full = false;
  }

module _ (I : Inflate) (H : Hasher) (read_exact_at : ReadExactAt) (contents : Bytes) (entry : Entry)
    (holds : Holds read_exact_at contents) (w : IsWithin contents entry) (content : Bytes)
    (most : ℕ) (L : Inflates I most (length content)) (S : Hashes H) where
  -- With room in the window, there is as much left to give.
  pub record Makes (body : InflatedBody I H) (run : Run (InflatedBody I H)) : Type 0 where
    pub d1 : I.State
    pub w1 : Bytes
    pub h1 : ℕ
    pub run_is : run ≡ ret (roomy I H body d1 w1 h1)
    pub good1 :
        L.Good d1 w1 h1
          (input_left I H read_exact_at contents entry holds w content most L S body)
          false
    pub same_left :
        L.left d1 w1 h1 (input_left I H read_exact_at contents entry holds w content most L S body)
        ≡ left_of I H read_exact_at contents entry holds w content most L S body
    pub same_effort :
        L.effort d1 (input_left I H read_exact_at contents entry holds w content most L S body)
        ≤ effort_of I H read_exact_at contents entry holds w content most L S body
    pub same_length : length w1 ≡ length body.inflater.window

  pub make_room-Makes :
      (body : InflatedBody I H)
      → Sound I H read_exact_at contents entry holds w content most L S body
      → Makes body (make_room I H body)
  unfolding make_room
  make_room-Makes body sound =
      let d = body.inflater.decoder in
      let window = body.inflater.window in
      let good_with = λ (f : Bool).
        L.Good d window body.history_len
          (input_left I H read_exact_at contents entry holds w content most L S body) f in
      elim (Bool-cases body.window_full) [
        | inl e ↦
            let r =
              L.rooms d window body.history_len
                (input_left I H read_exact_at contents entry holds w content most L S body)
                (subst good_with e sound.good) in
            let kept = r.keeps_is in
            rw (e, ltb-eq-false body.history_len (I.make_room d window).0 r.drops)
              (record {
                d1 = (I.make_room d window).1;
                w1 = (I.make_room d window).2;
                h1 = r.keeps;
                run_is =
                    ap
                      (λ k.
                        ret (roomy I H body (I.make_room d window).1 (I.make_room d window).2 k))
                      (let e : body.history_len - (I.make_room d window).0 ≡ r.keeps =
                          omega arith in
                        e);
                good1 = r.good;
                same_left = r.same_left;
                same_effort = r.same_effort;
                same_length = r.same_length;
              })
        | inr e ↦ rw e (record {
          d1 = d;
          w1 = window;
          h1 = body.history_len;
          run_is = refl;
          good1 = subst good_with e sound.good;
          same_left = refl;
          same_effort = omega arith;
          same_length = refl;
        })
      ]
