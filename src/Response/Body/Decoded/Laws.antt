-- ===== src/Response/Body/Decoded/Laws.antt =====
-- What a decoded body relies on of rc_zip's `EntryFsm`, on a file that can be read.
use zipring.Prelude.{
  ℕ, ◌+◌, ◌≤◌, ◌<◌, ◌≡◌, min, Bool, true, false, ◌&&◌, some, [], ◌++◌, length, ◌==◌,
}
use zipring.Prelude.Bytes.{Bytes}
use zipring.Response.Body.Decoded.{EntryFsm, Processed, continued, finished, ReadAt}

module _ (F : EntryFsm) (read_at : ReadAt) where
  -- A read into a machine that wants one, with room for `n` bytes.
  pub record Feeds (left : F.State → ℕ → Bytes) (effort : F.State → ℕ → ℕ)
      (Ready : F.State → ℕ → Bool → Type 0) (fsm : F.State) (offset n : ℕ) : Type 0 where
    pub bytes : Bytes
    pub is_read : read_at offset (min (F.space fsm) n) ≡ some bytes
    pub bounded : length bytes ≤ min (F.space fsm) n
    pub ready : Ready (F.fill fsm bytes) (offset + length bytes) (length bytes == 0)
    pub same_left : left (F.fill fsm bytes) (offset + length bytes) ≡ left fsm offset
    pub same_effort : effort (F.fill fsm bytes) (offset + length bytes) ≤ effort fsm offset

  -- A turn of a machine with room for `n` bytes. It gives the next bytes, or goes on with less to do
  -- before it gives any, or is done where nothing is left.
  pub data Turns (left : F.State → ℕ → Bytes) (effort : F.State → ℕ → ℕ)
      (Good : F.State → ℕ → Type 0) (fsm : F.State) (offset : ℕ) (at_eof : Bool) (n : ℕ)
      (outcome : Processed F.State) : Type 0 where
    gives :
        (fsm' : F.State) (bytes_read : ℕ) (written : Bytes)
        → outcome ≡ continued fsm' bytes_read written
        → left fsm offset ≡ written ++ left fsm' offset
        → Good fsm' offset
        → 0 < length written
        → length written ≤ n
        → Turns left effort Good fsm offset at_eof n outcome
    goes_on :
        (fsm' : F.State) (bytes_read : ℕ)
        → outcome ≡ continued fsm' bytes_read []
        → left fsm offset ≡ left fsm' offset
        → Good fsm' offset
        → effort fsm' offset < effort fsm offset
        → (at_eof && bytes_read == 0) ≡ false
        → Turns left effort Good fsm offset at_eof n outcome
    ends :
        outcome ≡ finished
        → left fsm offset ≡ []
        → Turns left effort Good fsm offset at_eof n outcome

  -- On a machine in `Good` at its offset in the file, what it has `left` to give, and a bound on the
  -- turns that it takes before it gives some of it.
  pub record Decodes (most : ℕ) : Type 1 where
    pub Good : F.State → ℕ → Type 0
    pub Ready : F.State → ℕ → Bool → Type 0
    pub left : F.State → ℕ → Bytes
    pub effort : F.State → ℕ → ℕ
    pub bound : (fsm : F.State) (offset : ℕ) → Good fsm offset → effort fsm offset < most
    pub idle :
        (fsm : F.State) (offset : ℕ)
        → Good fsm offset
        → F.wants_read fsm ≡ false
        → Ready fsm offset false
    pub feeds :
        (fsm : F.State) (offset n : ℕ)
        → Good fsm offset
        → F.wants_read fsm ≡ true
        → 0 < n
        → Feeds left effort Ready fsm offset n
    pub turns :
        (fsm : F.State) (offset : ℕ) (at_eof : Bool) (n : ℕ)
        → Ready fsm offset at_eof
        → 0 < n
        → Turns left effort Good fsm offset at_eof n (F.process fsm n)
