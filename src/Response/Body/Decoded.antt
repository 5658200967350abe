-- ===== src/Response/Body/Decoded.antt =====
-- `DecodedBody` of src/response/body.rs: an entry that rc_zip's state machine decodes. The machine,
-- `EntryFsm`, and the file's `read_at` are parameters.
pub mod Laws
pub mod Filling
pub mod Counting
use zipring.Prelude.{
  ℕ, zero, suc, ◌+◌, ◌-◌, min, Bool, true, false, ◌&&◌, Option, none, some, Run, panic, ret, ◌>>=◌,
  length, ltb, if◌then◌else◌, ◌==◌,
}
use zipring.Prelude.Bytes.{Bytes}
use zipring.Response.Entry.{Entry, copy_at}

-- `AsyncReadAt::read_at`: from an offset, at most so many bytes, or an error.
abbrev pub ReadAt : Type 0
ReadAt = ℕ → ℕ → Option Bytes

-- What `EntryFsm::process` gives: the machine goes on, with how much of its input it read and what it
-- wrote to the front of the buffer it was handed, or it is done, or it has failed.
pub data Processed (S : Type 0) : Type 0 where
  continued : S → ℕ → Bytes → Processed S
  finished : Processed S
  failed : Processed S

-- `EntryFsm`. `start` is `EntryFsm::new(None, None)`, `space` the length of the room for input, and
-- `fill` takes bytes that were put there. `process` is handed room for so many bytes.
pub record EntryFsm : Type 1 where
  pub State : Type 0
  pub start : State
  pub wants_read : State → Bool
  pub space : State → ℕ
  pub fill : State → Bytes → State
  pub process : State → ℕ → Processed State

module _ (F : EntryFsm) where
  pub record DecodedBody : Type 0 where
    pub fsm : Option F.State
    pub offset : ℕ
    pub remaining : ℕ

  -- The `Decoded` case of `EntryBody::new`.
  abbrev pub new : Entry → DecodedBody
  new entry = record {
    fsm = some F.start;
    offset = entry.header_offset;
    remaining = entry.uncompressed_size;
  }

  -- `none` is an error, and else the machine goes on, with whether the file has ended.
  abbrev pub Input : Type 0
  Input = Option (F.State × Bool) × Bytes × DecodedBody

  -- `none` is an error, as in `Response.Body.Contract`.
  abbrev pub Filled : Type 0
  Filled = Option ℕ × Bytes × DecodedBody

  abbrev pub store_input : F.State → DecodedBody → Bytes → ℕ → Option Bytes → Run Input
  store_input fsm body buf at none = ret (none, buf, body)
  store_input fsm body buf at (some bytes) = do
    buf' ← copy_at at bytes buf
    if ltb (F.space fsm) (length bytes)
        then panic
        else ret (
          some (F.fill fsm bytes, length bytes == 0),
          buf',
          record body { offset = body.offset + length bytes },
        )

  abbrev pub leave_out : DecodedBody → Bytes → ℕ → Bytes → F.State → Run Filled
  leave_out body buf at written fsm =
      if ltb body.remaining (length written)
      then ret (none, buf, body)
      else ret (
        some (length written),
        buf,
        record body { fsm = some fsm; remaining = body.remaining - length written },
      )

module _ (F : EntryFsm) (read_at : ReadAt) where
  -- The read, where the machine wants one. The slice stops at the end of the buffer.
  unfoldable pub take_input : F.State → DecodedBody F → Bytes → ℕ → Run (Input F)
  take_input fsm body buf at =
      if F.wants_read fsm
      then (if ltb (length buf) at
          then panic
          else store_input F fsm body buf at
              (read_at body.offset (min (F.space fsm) (length buf - at))))
      else ret (some (fsm, false), buf, body)

  -- What the loop does with the outcome of `process`. The rest of the loop is `again`.
  abbrev pub after_process :
      (F.State → DecodedBody F → Bytes → Run (Filled F))
      → Bool
      → DecodedBody F
      → Bytes
      → ℕ
      → Processed F.State
      → Run (Filled F)
  after_process again at_eof body buf at finished =
      if ltb 0 body.remaining then ret (none, buf, body) else ret (some 0, buf, body)
  after_process again at_eof body buf at failed = ret (none, buf, body)
  after_process again at_eof body buf at (continued fsm bytes_read written) = do
    buf' ← copy_at at written buf
    if ltb 0 (length written)
        then leave_out F body buf' at written fsm
        else if at_eof && bytes_read == 0
        then ret (none, buf', body)
        else again fsm body buf'

  abbrev pub process_input :
      (F.State → DecodedBody F → Bytes → Run (Filled F)) → ℕ → Input F → Run (Filled F)
  process_input again at (none, buf, body) = ret (none, buf, body)
  process_input again at (some (fsm, at_eof), buf, body) =
      if ltb (length buf) at
      then panic
      else after_process again at_eof body buf at (F.process fsm (length buf - at))

  -- The loop of `fill`, on fuel. How many rounds a machine takes before it has anything to show is
  -- its own affair: a hypothesis bounds them.
  unfoldable pub decode_loop : ℕ → ℕ → F.State → DecodedBody F → Bytes → Run (Filled F)
  decode_loop zero at fsm body buf = panic
  decode_loop (suc fuel) at fsm body buf = do
    input ← take_input fsm body buf at
    process_input (decode_loop fuel at) at input

  -- `fill(file, buf, at)`. The machine is gone while the loop runs, and after an error.
  unfoldable pub fill : ℕ → DecodedBody F → Bytes → ℕ → Run (Filled F)
  unfolding decode_loop take_input
  fill fuel body buf at = elim body.fsm [
    | none ↦ ret (some 0, buf, body)
    | some fsm ↦ decode_loop fuel at fsm (record body { fsm = none }) buf
  ]
