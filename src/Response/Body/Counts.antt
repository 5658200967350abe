-- ===== src/Response/Body/Counts.antt =====
-- What an answer's length relies on of a body: that it counts the bytes that it gives.
use zipring.Prelude.{
  ℕ, zero, suc, ◌+◌, ◌≤◌, ◌≡◌, refl, ap, ◌∙◌, ◌&&◌, Option, none, some, ◌++◌, Run, length, take,
  ltb, ◌==◌, arith, subst, After, After-map, After->>=, After-unless, Bool-cases, inl, inr,
  length-append, length-take,
}
use zipring.Prelude.Bytes.{Bytes}
use zipring.Response.Body.Contract.{Body}
use zipring.Response.Stream.{
  Writer, Sending, done, failed, out_of_fuel, send_body, after_fill, after_write,
}

-- A fill that does not fail gives some of the bytes to come, and 0 only at their end.
abbrev pub Counted :
    {State : Type 0} → (State → ℕ) → (State → Type 0) → ℕ → Option ℕ × Bytes × State → Type 0
Counted size Inv before (none, buf, body) = Unit
Counted size Inv before (some n, buf, body) =
    Inv body × ((n + size body ≡ before) × (n ≡ 0 → size body ≡ 0))

pub record Counts (B : Body) : Type 1 where
  pub size : B.State → ℕ
  pub Inv : B.State → Type 0
  pub counts :
      (body : B.State) (buf : Bytes) (at : ℕ)
      → Inv body
      → After (Counted size Inv (size body)) (B.fill body buf at)

-- A write that succeeds puts its bytes behind what was sent.
abbrev pub Appends : Writer → Type 0
Appends W =
    (s s' : W.State) (bytes : Bytes) → W.write_all s bytes ≡ some s' → W.sent s' ≡ W.sent s ++ bytes

module _ (W : Writer) (appends : Appends W) (B : Body) (C : Counts B) where
  -- Of a body that is out: so many bytes were sent behind what was sent before.
  abbrev pub Sized : W.State → ℕ → Sending W B → Type 0
  Sized s n (done buf s' body) = length (W.sent s') ≡ length (W.sent s) + n
  Sized s n (failed buf body) = Unit
  Sized s n out_of_fuel = Unit

  shift :
      (s s1 : W.State) (staged n m k : ℕ)
      → length (W.sent s1) ≡ length (W.sent s) + (staged + n)
      → n + k ≡ m
      → (sending : Sending W B) → Sized s1 k sending
      → Sized s (staged + m) sending
  shift s s1 staged n m k sent sum (done buf s' body) h = omega arith
  shift s s1 staged n m k sent sum (failed buf body) h = tt
  shift s s1 staged n m k sent sum out_of_fuel h = tt

  after_write-Sized :
      (again : B.State → Bytes → W.State → ℕ → Run (Sending W B)) (s : W.State) (staged n m : ℕ)
      (buf : Bytes) (body : B.State)
      → ((s1 : W.State) → After (Sized s1 (C.size body)) (again body buf s1 0))
      → n + C.size body ≡ m
      → (n ≡ 0 → C.size body ≡ 0)
      → staged + n ≤ length buf
      → (written : Option W.State) → W.write_all s (take (staged + n) buf) ≡ written
      → After (Sized s (staged + m)) (after_write W B again n buf body written)
  after_write-Sized again s staged n m buf body go sum ends room none is = tt
  after_write-Sized again s staged n m buf body go sum ends room (some s1) is =
      let sent : length (W.sent s1) ≡ length (W.sent s) + (staged + n) =
        ap length (appends s s1 (take (staged + n) buf) is)
        ∙ omega (
          arith,
          length-append {0} (W.sent s) (take (staged + n) buf),
          length-take {0} (staged + n) buf,
        ) in
      elim (Bool-cases (n == 0)) [
        | inl e ↦ let none_left = ends (ground (arith, e)) in rw e (omega arith)
        | inr e ↦ rw e (
            After-map (Sized s1 (C.size body)) (Sized s (staged + m)) (again body buf s1 0) (go s1)
              (shift s s1 staged n m (C.size body) sent sum))
      ]

  after_fill-Sized :
      (again : B.State → Bytes → W.State → ℕ → Run (Sending W B)) (s : W.State) (staged m : ℕ)
      (r : Option ℕ × Bytes × B.State)
      → ((body : B.State) (buf : Bytes) (s1 : W.State)
          → C.Inv body
          → After (Sized s1 (C.size body)) (again body buf s1 0))
      → Counted C.size C.Inv m r
      → After (Sized s (staged + m)) (after_fill W B again s staged r)
  after_fill-Sized again s staged m (none, buf, body) go counted = tt
  after_fill-Sized again s staged m (some n, buf, body) go (inv, (sum, ends)) =
      elim (Bool-cases (n == 0 && staged == 0)) [
        | inl e ↦
            let none_given : n ≡ 0 = ground (arith, e) in
            let none_left = ends none_given in
            let none_staged : staged ≡ 0 = ground (arith, e) in rw e (omega arith)
        | inr e ↦ rw e (
            After-unless (Sized s (staged + m)) (ltb (length buf) (staged + n)) _ (λ room.
              after_write-Sized again s staged n m buf body (λ s1. go body buf s1 inv) sum ends
                (ground (arith, room)) (W.write_all s (take (staged + n) buf)) refl))
      ]

  pub send_body-Sized :
      (fuel : ℕ) (body : B.State) (buf : Bytes) (s : W.State) (staged : ℕ)
      → C.Inv body
      → After (Sized s (staged + C.size body)) (send_body W B fuel body buf s staged)
  unfolding send_body
  send_body-Sized zero body buf s staged inv = tt
  send_body-Sized (suc fuel) body buf s staged inv =
      After->>= (Counted C.size C.Inv (C.size body)) (Sized s (staged + C.size body))
        (B.fill body buf staged) (after_fill W B (send_body W B fuel) s staged)
        (C.counts body buf staged inv)
        (λ r. after_fill-Sized (send_body W B fuel) s staged (C.size body) r (λ body' buf' s1 inv'.
          subst (λ k. After (Sized s1 k) (send_body W B fuel body' buf' s1 0))
            (let e : 0 + C.size body' ≡ C.size body' = omega arith in e)
            (send_body-Sized fuel body' buf' s1 0 inv')))
