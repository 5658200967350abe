-- ===== src/Response/Body/Contract.antt =====
-- What sending a body needs of it: the bytes it has still to give, and that each filling of the
-- buffer puts the next of them there.
use zipring.Prelude.{
  sym, ap, ◌∙◌, arith, ℕ, ◌+◌, ◌≤◌, ◌≡◌, Option, some, [], ◌++◌, Run, ret, length, take,
}
use zipring.Prelude.Bytes.{Bytes}

-- A body with its `fill(file, buf, at)`, on a file in use. The number of bytes filled in, or `none`
-- for an I/O error, comes with the buffer and the body afterwards.
pub record Body : Type 1 where
  pub State : Type 0
  pub fill : State → Bytes → ℕ → Run (Option ℕ × Bytes × State)

-- `run` has filled `buf[at..]` with the next bytes of what `rest` says is left.
pub record Fills {State : Type 0} (rest : State → Bytes) (Ok : State → Type 0) (body : State)
    (buf : Bytes) (at : ℕ) (run : Run (Option ℕ × Bytes × State)) : Type 0 where
  pub given : Bytes
  pub buf' : Bytes
  pub body' : State
  pub run_is : run ≡ ret (some (length given), buf', body')
  pub same_length : length buf' ≡ length buf
  pub in_front : take (at + length given) buf' ≡ take at buf ++ given
  pub splits : rest body ≡ given ++ rest body'
  pub fits : at + length given ≤ length buf
  pub still_ok : Ok body'
  pub ends : given ≡ [] → rest body' ≡ []

-- A body on a file that can be read, with room for `need` bytes behind what is staged.
pub record Gives (B : Body) : Type 1 where
  pub rest : B.State → Bytes
  pub Ok : B.State → Type 0
  pub need : ℕ
  pub fill-Fills :
      (body : B.State) (buf : Bytes) (at : ℕ)
      → Ok body
      → at + need ≤ length buf
      → Fills rest Ok body buf at (B.fill body buf at)

-- What a run on an equal front of another buffer, and on a body with as much left, has filled.
pub Fills-of_equal :
    {State : Type 0} (rest : State → Bytes) (Ok : State → Type 0) (body body1 : State)
    (buf buf1 : Bytes) (at : ℕ) (run : Run (Option ℕ × Bytes × State))
    → rest body1 ≡ rest body
    → length buf1 ≡ length buf
    → take at buf1 ≡ take at buf
    → Fills rest Ok body1 buf1 at run
    → Fills rest Ok body buf at run
Fills-of_equal rest Ok body body1 buf buf1 at run same_rest same_length front f = record {
  given = f.given;
  buf' = f.buf';
  body' = f.body';
  run_is = f.run_is;
  same_length = f.same_length ∙ same_length;
  in_front = f.in_front ∙ ap (λ (l : Bytes). l ++ f.given) front;
  splits = sym same_rest ∙ f.splits;
  fits = (let fits : at + length f.given ≤ length buf1 = f.fits in omega arith);
  still_ok = f.still_ok;
  ends = f.ends;
}
