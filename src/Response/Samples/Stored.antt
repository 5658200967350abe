-- ===== src/Response/Samples/Stored.antt =====
-- A machine in rc_zip's place that the examples run on.
use zipring.Prelude.{
  ℕ, ◌+◌, ◌-◌, ◌≤◌, ◌<◌, ◌≡◌, refl, sym, ap, ◌∙◌, min, Bool, true, false, ◌&&◌, some, [], ◌∷◌, ◌++◌,
  length, take, drop, ltb, arith, append_assoc, drop-drop, take_split, ltb→lt, length-append,
  length-take, length-drop, take-append-drop, is_empty,
}
use zipring.Prelude.Bytes.{Bytes}
use zipring.Response.Body.Decoded.{EntryFsm, Processed, continued, finished, ReadAt}
use zipring.Response.Body.Decoded.Laws.{Feeds, Turns, gives, ends, Decodes}

-- A machine that decodes a stored entry of three bytes. Its state is what it has read, and how much it
-- has still to read.
abbrev pub process_stored : Bytes × ℕ → ℕ → Processed (Bytes × ℕ)
process_stored ([], r) n = finished
process_stored (b ∷ bs, r) n = continued (drop n (b ∷ bs), r) 0 (take n (b ∷ bs))

abbrev pub stored_fsm : EntryFsm
stored_fsm = record {
  State = Bytes × ℕ;
  start = ([], 3);
  wants_read = λ m. is_empty m.0 && ltb 0 m.1;
  space = λ m. m.1;
  fill = λ m bytes. (m.0 ++ bytes, m.1 - length bytes);
  process = process_stored;
}

module _ (contents : Bytes) where
  abbrev pub read_some : ReadAt
  read_some offset n = some (take n (drop offset contents))

  abbrev pub stored_left : Bytes × ℕ → ℕ → Bytes
  stored_left m offset = m.0 ++ take m.1 (drop offset contents)

  abbrev pub StoredGood : Bytes × ℕ → ℕ → Type 0
  StoredGood m offset = offset + m.1 ≤ length contents

  abbrev pub StoredReady : Bytes × ℕ → ℕ → Bool → Type 0
  StoredReady m offset at_eof = StoredGood m offset × (length m.0 ≡ 0 → m.1 ≡ 0)

  pub stored-Feeds :
      (m : Bytes × ℕ) (offset n : ℕ)
      → StoredGood m offset
      → (is_empty m.0 && ltb 0 m.1) ≡ true
      → 0 < n
      → Feeds stored_fsm read_some stored_left (λ _ _. 0) StoredReady m offset n
  stored-Feeds (b, r) offset n good wants some_room =
      let k = min r n in
      let bytes = take k (drop offset contents) in
      let size : length bytes ≡ k =
        omega (arith, length-take {0} k (drop offset contents), length-drop {0} offset contents) in
      let wants' : ltb 0 r ≡ true = ground (arith, wants) in
      let some_left = ltb→lt 0 r wants' in
      record {
        bytes = bytes;
        is_read = refl;
        bounded = omega arith;
        ready = (omega arith, λ none. absurd (omega (arith, length-append {0} b bytes)));
        same_left =
            append_assoc b bytes (take (r - length bytes) (drop (offset + length bytes) contents))
            ∙ ap (λ (l : Bytes). b ++ l)
                (ap (λ j. bytes ++ take (r - j) (drop (offset + j) contents)) size
                  ∙ ap (λ (l : Bytes). bytes ++ take (r - k) l) (sym (drop-drop k offset contents))
                  ∙ sym (take_split k r (drop offset contents) (omega arith)));
        same_effort = omega arith;
      }

  pub stored-Turns :
      (m : Bytes × ℕ) (offset : ℕ) (at_eof : Bool) (n : ℕ)
      → StoredReady m offset at_eof
      → 0 < n
      → Turns stored_fsm read_some stored_left
          (λ _ _. 0)
          StoredGood
          m
          offset
          at_eof
          n
          (process_stored m n)
  stored-Turns ([], r) offset at_eof n (good, ready) room =
      ends refl (ap (λ k. take k (drop offset contents)) (ready refl))
  stored-Turns (b ∷ bs, r) offset at_eof n (good, ready) room =
      gives (drop n (b ∷ bs), r) 0 (take n (b ∷ bs)) refl
        (ap (λ (l : Bytes). l ++ take r (drop offset contents)) (sym (take-append-drop n (b ∷ bs)))
          ∙ append_assoc (take n (b ∷ bs)) (drop n (b ∷ bs)) (take r (drop offset contents)))
        good (omega (arith, length-take {0} n (b ∷ bs))) (omega (arith, length-take {0} n (b ∷ bs)))

  pub stored-Ready :
      (m : Bytes × ℕ) (offset : ℕ)
      → StoredGood m offset
      → (is_empty m.0 && ltb 0 m.1) ≡ false
      → StoredReady m offset false
  stored-Ready ([], r) offset good idle = (good, λ _. ground (arith, idle))
  stored-Ready (b ∷ bs, r) offset good idle = (good, λ none. absurd (omega arith))

  abbrev pub stored-Decodes : Decodes stored_fsm read_some 2
  stored-Decodes = record {
    Good = StoredGood;
    Ready = StoredReady;
    left = stored_left;
    effort = λ _ _. 0;
    bound = λ m offset good. omega arith;
    idle = stored-Ready;
    feeds = stored-Feeds;
    turns = stored-Turns;
  }
