-- ===== src/Response/Body/Inflated/Pool.antt =====
-- On the pooled inflaters: which are ready to be lent.
use zipring.Prelude.{
  ℕ, zero, suc, ◌+◌, ◌-◌, ◌≡◌, ◌∙◌, min, Bool, true, false, Option, none, some, [], ◌∷◌, Run, panic,
  ret, length, take, drop, ltb, ◌||◌, ◌==◌, if◌then◌else◌, All, length-replicate, After, After-refl,
  After->>=, After-if,
}
use zipring.Prelude.Bytes.{Bytes}
use zipring.Response.Entry.{Entry, ReadExactAt, copy_at}
use zipring.Response.Body.Inflated.{
  Inflate, Hasher, Inflater, InflatedBody, InflaterPool, Progress, window_len, input_len, lend,
  give_back, make_room, moved, decompress, decode, checked, offset_of, store_input, input_at,
  read_input, hand_out, is_empty_handed, wants_input, after_decode, after_input, fill,
}
use zipring.Response.Body.Inflated.Whole.{IsReady}
use zipring.Response.Keeps.{Same, copy_at-Same}

-- The decoder writes into a window of a fixed length. A new one and a reset one are `Fresh`.
pub record Resets (I : Inflate) : Type 1 where
  pub Fresh : I.State → Type 0
  pub fresh_new : Fresh I.new
  pub fresh_reset : (d : I.State) → Fresh (I.reset d)
  pub make_room_size :
      (d : I.State) (window : Bytes) → length (I.make_room d window).2 ≡ length window
  pub decompress_size :
      (d : I.State) (input window : Bytes) (last : Bool)
      → length (I.decompress d input window last).2 ≡ length window

module _ (I : Inflate) (R : Resets I) where
  -- An inflater in use.
  abbrev pub IsWhole : Inflater I → Type 0
  IsWhole inflater = (length inflater.window ≡ window_len) × (length inflater.input ≡ input_len)

  pub lend-IsWhole :
      (pool : InflaterPool I)
      → All (IsReady R.Fresh) pool
      → IsWhole (lend I pool).0 × All (IsReady R.Fresh) (lend I pool).1
  unfolding lend
  lend-IsWhole [] ready =
      ((length-replicate {A = ℕ} window_len 0, length-replicate {A = ℕ} input_len 0), tt)
  lend-IsWhole (inflater ∷ pool) (ready, others) = ((ready.window_size, ready.input_size), others)

  pub give_back-IsReady :
      (inflater : Inflater I) (pool : InflaterPool I)
      → IsWhole inflater
      → All (IsReady R.Fresh) pool
      → All (IsReady R.Fresh) (give_back I inflater pool)
  unfolding give_back
  give_back-IsReady inflater pool (window, input) ready = (
    record { fresh = R.fresh_reset inflater.decoder; window_size = window; input_size = input },
    ready,
  )

module _ (I : Inflate) (R : Resets I) (H : Hasher) where
  abbrev pub Holds : InflatedBody I H → Type 0
  Holds body = IsWhole I R body.inflater

  moved-Holds :
      (body : InflatedBody I H) (r : ℕ × I.State × Bytes)
      → length r.2 ≡ length body.inflater.window
      → Holds body
      → After Holds (moved I H body r)
  moved-Holds body (by, d, window) size (h, h') =
      After-if Holds (ltb body.history_len by) panic _ tt (size ∙ h, h')

  make_room-Holds : (body : InflatedBody I H) → Holds body → After Holds (make_room I H body)
  unfolding make_room
  make_room-Holds body h =
      After-if Holds body.window_full _ _
        (moved-Holds body (I.make_room body.inflater.decoder body.inflater.window)
          (R.make_room_size body.inflater.decoder body.inflater.window) h)
        h

  checked-Holds :
      (entry : Entry) (body : InflatedBody I H) (r : Option Progress × I.State × Bytes)
      → length r.2 ≡ length body.inflater.window
      → Holds body
      → Holds (checked I H entry body r).1
  checked-Holds entry body (none, d, window) size (h, h') = (size ∙ h, h')
  checked-Holds entry body (some progress, d, window) size (h, h') = (size ∙ h, h')

  decode-Holds :
      (entry : Entry) (body : InflatedBody I H)
      → Holds body
      → After (λ r. Holds r.1) (decode I H entry body)
  unfolding decode
  decode-Holds entry body h =
      After->>= Holds (λ r. Holds r.1) (make_room I H body) (decompress I H entry)
        (make_room-Holds body h)
        (λ b hb.
          After-if (λ r. Holds r.1)
            (ltb b.unconsumed_end b.unconsumed_start
              || ltb (length b.inflater.input) b.unconsumed_end)
            panic _ tt
            (checked-Holds entry b
              (I.decompress b.inflater.decoder
                (drop b.unconsumed_start (take b.unconsumed_end b.inflater.input)) b.inflater.window
                (b.unread == 0))
              (R.decompress_size b.inflater.decoder
                (drop b.unconsumed_start (take b.unconsumed_end b.inflater.input)) b.inflater.window
                (b.unread == 0))
              hb))

  module _ (read_exact_at : ReadExactAt) (entry : Entry) where
    abbrev HoldsAfter : {A : Type 0} → A × Bytes × InflatedBody I H → Type 0
    HoldsAfter r = Holds r.2

    store_input-Holds :
        (body : InflatedBody I H) (at offset n : ℕ) (buf : Bytes) (bytes : Option Bytes)
        → Holds body
        → After HoldsAfter (store_input I H read_exact_at entry body at offset n buf bytes)
    store_input-Holds body at offset n buf none h = h
    store_input-Holds body at offset n buf (some bytes) (h, h') =
        After->>= (λ b. b ≡ b) HoldsAfter (copy_at at bytes buf) _
          (After-refl (copy_at at bytes buf))
          (λ b _.
            After->>= (Same input_len) HoldsAfter (copy_at 0 bytes body.inflater.input) _
              (copy_at-Same 0 bytes body.inflater.input h') (λ i same. (h, same)))

    input_at-Holds :
        (body : InflatedBody I H) (at : ℕ) (r : Option ℕ × Bytes)
        → Holds body
        → After HoldsAfter (input_at I H read_exact_at entry body at r)
    input_at-Holds body at (none, buf) h = h
    input_at-Holds body at (some offset, buf) h =
        let n = min (min body.unread input_len) (length buf - at) in
        store_input-Holds body at offset n buf (read_exact_at offset n) h

    read_input-Holds :
        (body : InflatedBody I H) (buf : Bytes) (at : ℕ)
        → Holds body
        → After HoldsAfter (read_input I H read_exact_at entry body buf at)
    unfolding read_input
    read_input-Holds body buf at h =
        After->>= (λ r. r ≡ r) HoldsAfter (offset_of I H read_exact_at entry body buf at) _
          (After-refl (offset_of I H read_exact_at entry body buf at))
          (λ r _. input_at-Holds body at r h)

    hand_out-Holds :
        (body : InflatedBody I H) (buf : Bytes) (at : ℕ)
        → Holds body
        → After HoldsAfter (hand_out I H read_exact_at entry body buf at)
    unfolding hand_out
    hand_out-Holds body buf at h =
        let n = min (body.pending_end - body.pending_start) (length buf - at) in
        After-if HoldsAfter (ltb (length body.inflater.window) (body.pending_start + n)) panic _ tt
          (After->>= (λ b. b ≡ b) HoldsAfter
            (copy_at at (take n (drop body.pending_start body.inflater.window)) buf) _
            (After-refl (copy_at at (take n (drop body.pending_start body.inflater.window)) buf))
            (λ b _. h))

    after_decode-Holds :
        (again : InflatedBody I H → Bytes → Run (Option ℕ × Bytes × InflatedBody I H)) (buf : Bytes)
        (r : Bool × InflatedBody I H)
        → ((body : InflatedBody I H) → Holds body → After HoldsAfter (again body buf))
        → Holds r.1
        → After HoldsAfter (after_decode I H read_exact_at entry again buf r)
    after_decode-Holds again buf (false, body) keeps h = h
    after_decode-Holds again buf (true, body) keeps h = keeps body h

    after_input-Holds :
        (again : InflatedBody I H → Bytes → Run (Option ℕ × Bytes × InflatedBody I H))
        (step : Bool × Bytes × InflatedBody I H)
        → ((body : InflatedBody I H) (buf : Bytes) → Holds body → After HoldsAfter (again body buf))
        → HoldsAfter step
        → After HoldsAfter (after_input I H read_exact_at entry again step)
    after_input-Holds again (false, buf, body) keeps h = h
    after_input-Holds again (true, buf, body) keeps h =
        After->>= (λ r. Holds r.1) HoldsAfter (decode I H entry body) _ (decode-Holds entry body h)
          (λ r hr. after_decode-Holds again buf r (λ b. keeps b buf) hr)

    pub fill-Holds :
        (fuel : ℕ) (body : InflatedBody I H) (buf : Bytes) (at : ℕ)
        → Holds body
        → After HoldsAfter (fill I H read_exact_at entry fuel body buf at)
    unfolding fill
    fill-Holds zero body buf at h = tt
    fill-Holds (suc fuel) body buf at h =
        After-if HoldsAfter (is_empty_handed I H read_exact_at entry body) _ _
          (After->>= HoldsAfter HoldsAfter
            (if wants_input I H read_exact_at entry body
              then read_input I H read_exact_at entry body buf at
              else ret (true, buf, body))
            _
            (After-if HoldsAfter (wants_input I H read_exact_at entry body) _ _
              (read_input-Holds body buf at h) h)
            (λ step hs.
              after_input-Holds (λ b c. fill I H read_exact_at entry fuel b c at) step
                (λ b c hb. fill-Holds fuel b c at hb) hs))
          (hand_out-Holds body buf at h)
