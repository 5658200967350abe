-- ===== src/Response/Stream/Mapped.antt =====
-- `send_body` of a body that is another one, wrapped.
use zipring.Prelude.{
  ℕ, zero, suc, ◌+◌, ◌≡◌, refl, sym, ap, ◌∙◌, Bool, true, false, ◌&&◌, Option, none, some, Run,
  panic, ret, ◌>>=◌, length, take, ltb, if◌then◌else◌, ◌==◌,
}
use zipring.Prelude.Bytes.{Bytes}
use zipring.Response.Body.Contract.{Body}
use zipring.Response.Stream.{
  Writer, Sending, done, failed, out_of_fuel, send_body, after_fill, after_write, write_filled,
}
use zipring.Response.Stream.Sent.{Sends}

module _ (W : Writer) (A B : Body) (kind : A.State → B.State) where
  abbrev pub wrapped : Option ℕ × Bytes × A.State → Run (Option ℕ × Bytes × B.State)
  wrapped (n, buf, body) = ret (n, buf, kind body)

  abbrev pub mapped : Sending W A → Sending W B
  mapped (done buf s body) = done buf s (kind body)
  mapped (failed buf body) = failed buf (kind body)
  mapped out_of_fuel = out_of_fuel

  abbrev map_run : Run (Sending W A) → Run (Sending W B)
  map_run panic = panic
  map_run (ret r) = ret (mapped r)

  map_run-if :
      (b : Bool) (m n : Run (Sending W A))
      → map_run (if b then m else n) ≡ (if b then map_run m else map_run n)
  map_run-if true m n = refl
  map_run-if false m n = refl

  SameAgain :
      (A.State → Bytes → W.State → ℕ → Run (Sending W A))
      → (B.State → Bytes → W.State → ℕ → Run (Sending W B))
      → Type 0
  SameAgain again again' =
      (body : A.State) (buf : Bytes) (s : W.State) (staged : ℕ)
      → again' (kind body) buf s staged ≡ map_run (again body buf s staged)

  after_write-mapped :
      (again : A.State → Bytes → W.State → ℕ → Run (Sending W A))
      (again' : B.State → Bytes → W.State → ℕ → Run (Sending W B))
      → SameAgain again again'
      → (n : ℕ) (buf : Bytes) (body : A.State) (s : Option W.State)
      → after_write W B again' n buf (kind body) s ≡ map_run (after_write W A again n buf body s)
  unfolding SameAgain
  after_write-mapped again again' same n buf body none = refl
  after_write-mapped again again' same n buf body (some s) =
      rw (same body buf s 0)
        (sym (map_run-if (n == 0) (ret (done buf s body)) (again body buf s 0)))

  after_fill-mapped :
      (again : A.State → Bytes → W.State → ℕ → Run (Sending W A))
      (again' : B.State → Bytes → W.State → ℕ → Run (Sending W B))
      → SameAgain again again'
      → (s : W.State) (staged : ℕ) (filled : Run (Option ℕ × Bytes × A.State))
      → ((filled >>= wrapped) >>= after_fill W B again' s staged)
        ≡ map_run (filled >>= after_fill W A again s staged)
  after_fill-mapped again again' same s staged panic = refl
  after_fill-mapped again again' same s staged (ret (none, buf, body)) = refl
  after_fill-mapped again again' same s staged (ret (some n, buf, body)) =
      let written = W.write_all s (take (staged + n) buf) in
      rw
        (
          map_run-if (n == 0 && staged == 0) (ret (done buf s body))
              (write_filled W A again s staged n buf body),
          map_run-if (ltb (length buf) (staged + n)) panic
              (after_write W A again n buf body written),
          after_write-mapped again again' same n buf body written,
        )
        refl

  module _
      (commutes : (body : A.State) (buf : Bytes) (at : ℕ)
        → B.fill (kind body) buf at ≡ (A.fill body buf at >>= wrapped)) where
    send_body-mapped :
        (fuel : ℕ) (body : A.State) (buf : Bytes) (s : W.State) (staged : ℕ)
        → send_body W B fuel (kind body) buf s staged
          ≡ map_run (send_body W A fuel body buf s staged)
    unfolding send_body SameAgain
    send_body-mapped zero body buf s staged = refl
    send_body-mapped (suc fuel) body buf s staged = rw (commutes body buf staged) (
        after_fill-mapped (send_body W A fuel) (send_body W B fuel) (send_body-mapped fuel) s staged
          (A.fill body buf staged))

    -- What is sent of the one is sent of the other.
    pub Sends-mapped :
        (fuel : ℕ) (body : A.State) (buf : Bytes) (s : W.State) (staged : ℕ) (bytes : Bytes)
        → Sends W A buf s bytes (send_body W A fuel body buf s staged)
        → Sends W B buf s bytes (send_body W B fuel (kind body) buf s staged)
    Sends-mapped fuel body buf s staged bytes sent = record {
      buf' = sent.buf';
      s' = sent.s';
      body' = kind sent.body';
      run_is = send_body-mapped fuel body buf s staged ∙ ap map_run sent.run_is;
      sends = sent.sends;
      same_length = sent.same_length;
    }
