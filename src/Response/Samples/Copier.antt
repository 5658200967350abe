-- ===== src/Response/Samples/Copier.antt =====
-- A decoder and a checksum that the examples run on.
use zipring.Prelude.{
  ℕ, zero, suc, ◌+◌, ◌-◌, ◌≤◌, ◌<◌, ◌≡◌, refl, sym, ap, ◌∙◌, min, Bool, false, ◌&&◌, some, [], ◌∷◌,
  ◌++◌, length, take, drop, ltb, ◌==◌, arith, inl, inr, Bool-cases, append_assoc, length-append,
  length-take, length-drop, take-length-append, drop-length-append,
}
use zipring.Prelude.Bytes.{Bytes}
use zipring.Response.Body.Writes.{written, length-written}
use zipring.Response.Body.Native.Puts.{no_bytes}
use zipring.Response.Body.Inflated.{Inflate, Hasher}
use zipring.Response.Body.Inflated.Pool.{Resets}
use zipring.Response.Body.Inflated.Laws.{Hashes, Turn, Inflates, Starts}

-- A decoder of a stream that is its content. Its state is the number of bytes that it gave, and the
-- length of its history.
abbrev pub copied : ℕ → Bytes → Bytes → Bytes
copied history window input = take (length window - history) input

abbrev pub copier : Inflate
copier = record {
  State = ℕ × ℕ;
  new = (0, 0);
  reset = λ d. (0, 0);
  make_room = λ d window. (d.1, (d.0, 0), window);
  decompress = λ d input window last.
      let output = copied d.1 window input in
      (
        some (record {
          consumed = length output;
          output = output;
          full = d.1 + length output == length window;
          done = last && length output == length input;
        }),
        (d.0 + length output, d.1 + length output),
        written d.1 output window,
      );
  total_out = λ d. d.0;
}

-- The checksum is the number of the bytes.
abbrev pub counter : Hasher
counter = record { State = Bytes; new = []; update = λ a b. a ++ b; finalize = length }

abbrev pub counter-Hashes : Hashes counter
counter-Hashes = record { hash = λ b. b; hash_none = refl; hash_more = λ a b. refl }

-- What the copier's state says.
pub record Copies (size : ℕ) (d : ℕ × ℕ) (window : Bytes) (history : ℕ) (input : Bytes)
    (full : Bool) : Type 0 where
  pub same : d.1 ≡ history
  pub total : d.0 + length input ≡ size
  pub fits : history ≤ length window
  pub has_window : 0 < length window
  pub has_room : full ≡ false → history < length window

taken : (k : ℕ) (xs : Bytes) → take k xs ++ drop (length (take k xs)) xs ≡ xs
taken zero xs = refl
taken (suc k) [] = refl
taken (suc k) (x ∷ xs) = ap (◌∷◌ x) (taken k xs)

pub copier-Turn :
    (size : ℕ) (d : ℕ × ℕ) (window : Bytes) (history : ℕ) (input more : Bytes)
    → Copies size d window history (input ++ more) false
    → (input ≡ [] → more ≡ [])
    → Turn copier
        (λ _ _ _ left. left)
        (λ _ _. 0)
        (Copies size)
        d
        window
        history
        input
        more
        (copier.decompress d input window (length more == 0))
copier-Turn size d window history input more c last =
    let output = copied d.1 window input in
    let same = c.same in
    let total = c.total in
    let fits = c.fits in
    let size_out : length output ≡ min (length window - d.1) (length input) =
      length-take {0} (length window - d.1) input in
    let room : d.1 + length output ≤ length window = omega arith in
    let behind = drop (length output) input ++ more in
    let window' = written d.1 output window in
    let same_length = length-written d.1 output window room in
    let rest : length behind ≡ length input - length output + length more = omega (
      arith,
      length-append {0} (drop (length output) input) more,
      length-drop {0} (length output) input,
    ) in
    let before : length (input ++ more) ≡ length input + length more =
      length-append {0} input more in
    let front : d.1 ≡ length (take d.1 window) = omega (arith, length-take {0} d.1 window) in
    let has_room = c.has_room refl in
    record {
      progress = _;
      d' = (d.0 + length output, d.1 + length output);
      window' = window';
      outcome_is = refl;
      consumes = omega arith;
      same_length = same_length;
      room = omega arith;
      in_window =
          ap (λ k. take (length output) (drop k window')) (sym same ∙ front)
          ∙ ap (take (length output))
              (drop-length-append (take d.1 window) (output ++ drop (d.1 + length output) window))
          ∙ take-length-append output (drop (d.1 + length output) window);
      good = record {
        same = omega arith;
        total = omega arith;
        fits = omega arith;
        has_window = omega arith;
        has_room = λ not_full. ground (arith, not_full);
      };
      splits =
          ap (λ (l : Bytes). l ++ more) (sym (taken (length window - d.1) input))
          ∙ append_assoc output (drop (length output) input) more;
      at_end = λ done. no_bytes behind (ground (arith, done));
      advances = elim (Bool-cases (ltb 0 (length output))) [
        | inl some_out ↦ inr (inl (ground (arith, some_out)))
        | inr none_out ↦
            let no_out : length output ≡ 0 = ground (arith, none_out) in
            let no_input : length input ≡ 0 = omega arith in
            let no_more : length more ≡ 0 = ap length (last (no_bytes input no_input)) in
            inl (ground arith)
      ];
    }

abbrev pub copier-Inflates : (size : ℕ) → Inflates copier 2 size
copier-Inflates size = record {
  Good = Copies size;
  left = λ _ _ _ left. left;
  effort = λ _ _. 0;
  bound = λ d window history input full good. omega arith;
  total = λ d window history input full good. good.total;
  rooms = λ d window history input good.
      let same = good.same in
      let fits = good.fits in
      record {
        drops = omega arith;
        same_length = refl;
        keeps = 0;
        keeps_is = omega arith;
        good = record {
          same = refl;
          total = good.total;
          fits = omega arith;
          has_window = good.has_window;
          has_room = λ _. good.has_window;
        };
        same_left = refl;
        same_effort = omega arith;
      };
  turns = copier-Turn size;
}

abbrev pub copier-Starts :
    (content : Bytes) → Starts copier (copier-Inflates (length content)) content content
copier-Starts content = record {
  Fresh = λ d. d ≡ (0, 0);
  fresh_new = refl;
  fresh_reset = λ d. refl;
  good = λ d window fresh size.
      let no_total : d.0 ≡ 0 = ap (λ p. p.0) fresh in
      let no_history : d.1 ≡ 0 = ap (λ p. p.1) fresh in
      record {
        same = no_history;
        total = omega arith;
        fits = omega arith;
        has_window = omega arith;
        has_room = λ _. omega arith;
      };
  gives = λ d window fresh size. refl;
}

abbrev pub copier-Resets : Resets copier
copier-Resets = record {
  Fresh = λ d. d ≡ (0, 0);
  fresh_new = refl;
  fresh_reset = λ d. refl;
  make_room_size = λ d window. refl;
  decompress_size = λ d input window last.
      let output = copied d.1 window input in
      omega (
        arith,
        length-append {0} (take d.1 window) (output ++ drop (d.1 + length output) window),
        length-append {0} output (drop (d.1 + length output) window),
        length-take {0} d.1 window,
        length-drop {0} (d.1 + length output) window,
        length-take {0} (length window - d.1) input,
      );
}
