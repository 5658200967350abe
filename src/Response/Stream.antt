-- ===== src/Response/Stream.antt =====
-- `ResponseStream` of src/response/stream.rs, over any stream that takes bytes and any body that
-- fills a buffer. The stream's `write_all` is compio's.
pub mod Sent
pub mod Mapped
use zipring.Prelude.{
  ℕ, zero, suc, ◌+◌, ◌≡◌, Bool, true, false, ◌&&◌, Option, none, some, List, ◌++◌, Run, panic, ret,
  ◌>>=◌, length, take, ltb, if◌then◌else◌, ◌==◌,
}
use zipring.Prelude.Bytes.{Bytes}
use zipring.Response.Body.Contract.{Body}

-- A stream that bytes are written to. `write_all` is `none` for an I/O error, after which the
-- stream is given up; `sent` is what the peer is to receive.
pub record Writer : Type 1 where
  pub State : Type 0
  pub write_all : State → Bytes → Option State
  pub sent : State → Bytes

pub record Takes (W : Writer) (s : W.State) (bytes : Bytes) : Type 0 where
  pub s' : W.State
  pub write_is : W.write_all s bytes ≡ some s'
  pub sends : W.sent s' ≡ W.sent s ++ bytes

-- A stream that takes every write whole.
abbrev pub Accepts : Writer → Type 0
Accepts W = (s : W.State) (bytes : Bytes) → Takes W s bytes

-- How an answer ends, with the buffer: it is sent, an I/O error, or the fuel ran out.
pub data Answer (W : Writer) : Type 0 where
  answered : Bytes → W.State → Answer W
  failed : Bytes → Answer W
  no_fuel : Answer W

module _ (W : Writer) (B : Body) where
  -- How sending a body ends, with the buffer and the body: the body is out, an I/O error, or the fuel
  -- ran out.
  pub data Sending : Type 0 where
    done : Bytes → W.State → B.State → Sending
    failed : Bytes → B.State → Sending
    out_of_fuel : Sending

  abbrev pub after_write :
      (B.State → Bytes → W.State → ℕ → Run Sending)
      → ℕ
      → Bytes
      → B.State
      → Option W.State
      → Run Sending
  after_write again n buf body none = ret (failed buf body)
  after_write again n buf body (some s) =
      if n == 0 then ret (done buf s body) else again body buf s 0

  -- `write_buf(..end)`, which panics past the buffer's end
  abbrev pub write_filled :
      (B.State → Bytes → W.State → ℕ → Run Sending)
      → W.State
      → ℕ
      → ℕ
      → Bytes
      → B.State
      → Run Sending
  write_filled again s staged n buf body =
      if ltb (length buf) (staged + n)
      then panic
      else after_write again n buf body (W.write_all s (take (staged + n) buf))

  abbrev pub after_fill :
      (B.State → Bytes → W.State → ℕ → Run Sending)
      → W.State
      → ℕ
      → Option ℕ × Bytes × B.State
      → Run Sending
  after_fill again s staged (none, buf, body) = ret (failed buf body)
  after_fill again s staged (some n, buf, body) =
      if n == 0 && staged == 0
      then ret (done buf s body)
      else write_filled again s staged n buf body

  -- The loop of `send_body`, on fuel.
  unfoldable pub send_body : ℕ → B.State → Bytes → W.State → ℕ → Run Sending
  send_body zero body buf s staged = ret out_of_fuel
  send_body (suc fuel) body buf s staged = do
    filled ← B.fill body buf staged
    after_fill (send_body fuel) s staged filled
