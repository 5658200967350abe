-- ===== src/Response/Stream/Sent.antt =====
-- `send_body` puts what is staged, and then the body, on the wire.
use zipring.Prelude.{
  ℕ, zero, suc, ◌+◌, ◌≤◌, ◌<◌, ◌≡◌, ◌≢◌, refl, sym, ap, ◌∙◌, false, some, [], ◌∷◌, ◌++◌, Run, ret,
  length, take, ◌==◌, arith, length-append, append_assoc, append-nil, ltb-eq-false,
}
use zipring.Prelude.Bytes.{Bytes}
use zipring.Response.Body.Contract.{Body, Gives}
use zipring.Response.Stream.{Writer, Accepts, Sending, done, write_filled, after_fill, send_body}

-- `run` has sent `bytes` and kept the buffer's length.
pub record Sends (W : Writer) (B : Body) (buf : Bytes) (s : W.State) (bytes : Bytes)
    (run : Run (Sending W B)) : Type 0 where
  pub buf' : Bytes
  pub s' : W.State
  pub body' : B.State
  pub run_is : run ≡ ret (done buf' s' body')
  pub sends : W.sent s' ≡ W.sent s ++ bytes
  pub same_length : length buf' ≡ length buf

module _ (W : Writer) (B : Body) (accepts : Accepts W) (gives : Gives B) where
  -- The loop after the body has put the whole of `given` into the buffer.
  write_filled-Sends :
      (again : B.State → Bytes → W.State → ℕ → Run (Sending W B)) (s : W.State) (staged : ℕ)
      (given buf' : Bytes) (body' : B.State) (buf : Bytes)
      → length buf' ≡ length buf
      → take (staged + length given) buf' ≡ take staged buf ++ given
      → staged + length given ≤ length buf
      → (given ≡ [] → gives.rest body' ≡ [])
      → ((s1 : W.State)
          → length given ≢ 0
          → Sends W B buf' s1 (gives.rest body') (again body' buf' s1 0))
      → Sends W B buf s
          (take staged buf ++ (given ++ gives.rest body'))
          (write_filled W B again s staged (length given) buf' body')
  write_filled-Sends again s staged [] buf' body' buf same front fits ends go =
      let t = accepts s (take (staged + 0) buf') in
      rw (ltb-eq-false (length buf') (staged + 0) (omega arith), t.write_is)
        (record {
          buf' = buf';
          s' = t.s';
          body' = body';
          run_is = refl;
          sends =
              t.sends
              ∙ ap (λ (l : Bytes). W.sent s ++ l)
                  (front ∙ ap (λ (l : Bytes). take staged buf ++ l) (sym (ends refl)));
          same_length = same;
        })
  write_filled-Sends again s staged (g ∷ gs) buf' body' buf same front fits ends go =
      let n = length (g ∷ gs) in
      let t = accepts s (take (staged + n) buf') in
      let r = go t.s' (λ z. absurd (omega arith)) in
      let e : (n == 0) ≡ false = ground arith in
      rw (ltb-eq-false (length buf') (staged + n) (omega arith), t.write_is, e)
        (record {
          buf' = r.buf';
          s' = r.s';
          body' = r.body';
          run_is = r.run_is;
          sends =
              r.sends
              ∙ ap (λ (l : Bytes). l ++ gives.rest body')
                  (t.sends ∙ ap (λ (l : Bytes). W.sent s ++ l) front)
              ∙ append_assoc (W.sent s) (take staged buf ++ (g ∷ gs)) (gives.rest body')
              ∙ ap (λ (l : Bytes). W.sent s ++ l)
                  (append_assoc (take staged buf) (g ∷ gs) (gives.rest body'));
          same_length = r.same_length ∙ same;
        })

  after_fill-Sends :
      (again : B.State → Bytes → W.State → ℕ → Run (Sending W B)) (s : W.State) (staged : ℕ)
      (given buf' : Bytes) (body' : B.State) (buf : Bytes)
      → length buf' ≡ length buf
      → (given ≡ [] → gives.rest body' ≡ [])
      → Sends W B buf s
          (take staged buf ++ (given ++ gives.rest body'))
          (write_filled W B again s staged (length given) buf' body')
      → Sends W B buf s
          (take staged buf ++ (given ++ gives.rest body'))
          (after_fill W B again s staged (some (length given), buf', body'))
  after_fill-Sends again s zero [] buf' body' buf same ends write = record {
    buf' = buf';
    s' = s;
    body' = body';
    run_is = refl;
    sends = sym (append-nil (W.sent s)) ∙ ap (λ (l : Bytes). W.sent s ++ l) (sym (ends refl));
    same_length = same;
  }
  after_fill-Sends again s (suc staged) [] buf' body' buf same ends write =
      let e : (suc staged == 0) ≡ false = ground arith in rw e write
  after_fill-Sends again s staged (g ∷ gs) buf' body' buf same ends write =
      let e : (length (g ∷ gs) == 0) ≡ false = ground arith in rw e write

  -- With a stream that takes its writes, a body that can be read, room behind what is staged and
  -- fuel above the body's length, `send_body` ends well, and has sent what was staged and the body.
  pub send_body_lem :
      (fuel : ℕ) (body : B.State) (buf : Bytes) (s : W.State) (staged : ℕ)
      → gives.Ok body
      → staged + gives.need ≤ length buf
      → length (gives.rest body) < fuel
      → Sends W B buf s (take staged buf ++ gives.rest body) (send_body W B fuel body buf s staged)
  unfolding send_body
  send_body_lem zero body buf s staged ok room enough = absurd (omega arith)
  send_body_lem (suc fuel) body buf s staged ok room enough =
      let f = gives.fill-Fills body buf staged ok room in
      let same = f.same_length in
      let left : length f.given + length (gives.rest f.body') ≡ length (gives.rest body) =
        sym (length-append {0} f.given (gives.rest f.body')) ∙ ap length (sym f.splits) in
      rw (f.run_is, f.splits)
        (after_fill-Sends (send_body W B fuel) s staged f.given f.buf' f.body' buf same f.ends (
          write_filled-Sends (send_body W B fuel) s staged f.given f.buf' f.body' buf same
            f.in_front f.fits f.ends
            (λ s1 nonzero.
              send_body_lem fuel f.body' f.buf' s1 0 f.still_ok (omega arith) (omega arith))))
