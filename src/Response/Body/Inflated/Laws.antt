-- ===== src/Response/Body/Inflated/Laws.antt =====
-- What an inflated body relies on of the decoder and of the checksum.
use zipring.Prelude.{
  ℕ, ◌+◌, ◌≤◌, ◌<◌, ◌≡◌, ◌⊎◌, Bool, true, false, Option, some, [], ◌++◌, length, take, drop, ◌==◌,
}
use zipring.Prelude.Bytes.{Bytes}
use zipring.Response.Body.Inflated.{Inflate, Hasher, Progress, window_len}

-- A checksum is a function of all the bytes that it was updated with.
pub record Hashes (H : Hasher) : Type 0 where
  pub hash : Bytes → H.State
  pub hash_none : hash [] ≡ H.new
  pub hash_more : (a b : Bytes) → H.update (hash a) b ≡ hash (a ++ b)

module _ (I : Inflate) where
  -- What a decoder has left to give, from its state, its window with so many bytes of history, and the
  -- input to come.
  abbrev pub Left : Type 0
  Left = I.State → Bytes → ℕ → Bytes → Bytes

  -- Of such a decoder, and whether it needs room in its window.
  abbrev pub Goods : Type 1
  Goods = I.State → Bytes → ℕ → Bytes → Bool → Type 0

  -- A call of `decompress` on some input, with more to come: the next bytes of what is left are behind
  -- the history. The decoder is done, has given bytes, or has less to do before it gives any.
  pub record Turn (left : Left) (effort : I.State → Bytes → ℕ) (Good : Goods) (d : I.State)
      (window : Bytes) (history : ℕ) (input more : Bytes)
      (outcome : Option Progress × I.State × Bytes) : Type 0 where
    pub progress : Progress
    pub d' : I.State
    pub window' : Bytes
    pub outcome_is : outcome ≡ (some progress, d', window')
    pub consumes : progress.consumed ≤ length input
    pub same_length : length window' ≡ length window
    pub room : history + length progress.output ≤ length window
    pub in_window : take (length progress.output) (drop history window') ≡ progress.output
    pub good :
        Good d' window'
          (history + length progress.output)
          (drop progress.consumed input ++ more)
          progress.full
    pub splits :
        left d window history (input ++ more)
        ≡ progress.output
          ++ left d' window'
              (history + length progress.output)
              (drop progress.consumed input ++ more)
    pub at_end :
        progress.done ≡ true
        → left d' window' (history + length progress.output) (drop progress.consumed input ++ more)
          ≡ []
    pub advances :
        (progress.done ≡ true)
        ⊎ ((0 < length progress.output)
            ⊎ (effort d' (drop progress.consumed input ++ more) < effort d (input ++ more)))

  -- `make_room` drops some of the history, and changes nothing of what is left.
  pub record Room (left : Left) (effort : I.State → Bytes → ℕ) (Good : Goods) (d : I.State)
      (window : Bytes) (history : ℕ) (input : Bytes) (outcome : ℕ × I.State × Bytes) : Type 0 where
    pub drops : outcome.0 ≤ history
    pub same_length : length outcome.2 ≡ length window
    pub keeps : ℕ
    pub keeps_is : keeps + outcome.0 ≡ history
    pub good : Good outcome.1 outcome.2 keeps input false
    pub same_left : left outcome.1 outcome.2 keeps input ≡ left d window history input
    pub same_effort : effort outcome.1 input ≤ effort d input

  -- On a stream of `size` bytes when inflated. `most` bounds the calls without output.
  pub record Inflates (most size : ℕ) : Type 1 where
    pub Good : Goods
    pub left : Left
    pub effort : I.State → Bytes → ℕ
    pub bound :
        (d : I.State) (window : Bytes) (history : ℕ) (input : Bytes) (full : Bool)
        → Good d window history input full
        → effort d input + 1 < most
    pub total :
        (d : I.State) (window : Bytes) (history : ℕ) (input : Bytes) (full : Bool)
        → Good d window history input full
        → I.total_out d + length (left d window history input) ≡ size
    pub rooms :
        (d : I.State) (window : Bytes) (history : ℕ) (input : Bytes)
        → Good d window history input true
        → Room left effort Good d window history input (I.make_room d window)
    pub turns :
        (d : I.State) (window : Bytes) (history : ℕ) (input more : Bytes)
        → Good d window history (input ++ more) false
        → (input ≡ [] → more ≡ [])
        → Turn left effort Good d window history input more
            (I.decompress d input window (length more == 0))

  -- A new or a reset decoder is at the start of any stream.
  pub record Starts {most size : ℕ} (L : Inflates most size) (stored content : Bytes) : Type 1 where
    pub Fresh : I.State → Type 0
    pub fresh_new : Fresh I.new
    pub fresh_reset : (d : I.State) → Fresh (I.reset d)
    pub good :
        (d : I.State) (window : Bytes)
        → Fresh d
        → length window ≡ window_len
        → L.Good d window 0 stored false
    pub gives :
        (d : I.State) (window : Bytes)
        → Fresh d
        → length window ≡ window_len
        → L.left d window 0 stored ≡ content
