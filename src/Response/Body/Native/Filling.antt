-- ===== src/Response/Body/Native/Filling.antt =====
-- Each `fill` of a native body gives the next bytes of prefix, data and trailer.
use zipring.Prelude.{
  ℕ, ◌+◌, ◌-◌, ◌≤◌, ◌≡◌, sym, ap, ◌∙◌, some, [], ◌++◌, ret, length, take, arith, length-append,
  append_assoc,
}
use zipring.Prelude.Bytes.{Bytes}
use zipring.Response.Entry.{Entry, ReadExactAt}
use zipring.Response.Coding.{NativeCoding}
use zipring.Response.Body.Contract.{Fills}
use zipring.Response.Body.Native.{NativeBody, fill}
use zipring.Response.Body.Native.Puts.{length-prefix, no_bytes, Holds, IsWithin, rest, Ok}
use zipring.Response.Body.Native.Steps.{write_prefix-Puts, write_trailer-Puts, read_data-Puts}

module _ (read_exact_at : ReadExactAt) (contents : Bytes) (entry : Entry) (native : NativeCoding)
    (holds : Holds read_exact_at contents) (w : IsWithin contents entry) where
  pub fill-Fills :
      (body : NativeBody) (buf : Bytes) (at : ℕ)
      → Ok contents entry native body
      → at + 40 ≤ length buf
      → Fills
          (rest contents entry native)
          (Ok contents entry native)
          body
          buf
          at
          (fill read_exact_at entry native body buf at)
  unfolding fill
  fill-Fills body buf at ok h =
      let short = length-prefix native in
      let p =
        write_prefix-Puts read_exact_at contents entry native holds w body buf at ok
          (omega arith) in
      let at_p = at + length p.given in
      let room_p : at_p + 30 ≤ length p.buf' =
        (let l : length p.given ≤ 10 = p.post in let same = p.same_length in omega arith) in
      let d =
        read_data-Puts read_exact_at contents entry native holds w p.body' p.buf' at_p p.sent
          p.still_ok room_p in
      let at_d = at_p + length d.given in
      let room_d : at_d ≤ length d.buf' =
        (let same = d.same_length in let f = d.fits in omega arith) in
      let t =
        write_trailer-Puts read_exact_at contents entry native holds w d.body' d.buf' at_d d.sent
          d.still_ok room_d in
      let given = p.given ++ (d.given ++ t.given) in
      let sum : length given ≡ length p.given + (length d.given + length t.given) = omega (
        arith,
        length-append {0} p.given (d.given ++ t.given),
        length-append {0} d.given t.given,
      ) in
      let end : at_d + length t.given ≡ at + length given = omega arith in
      record {
        given = given;
        buf' = t.buf';
        body' = t.body';
        run_is =
            rw (p.run_is, d.run_is, t.run_is)
              (ap (λ k. ret (some k, t.buf', t.body'))
                (let n : at_d + length t.given - at ≡ length given = omega arith in n));
        same_length = t.same_length ∙ d.same_length ∙ p.same_length;
        in_front =
            ap (λ k. take k t.buf') (sym end)
            ∙ t.in_front
            ∙ ap (λ (front : Bytes). front ++ t.given)
                (d.in_front ∙ ap (λ (front : Bytes). front ++ d.given) p.in_front)
            ∙ ap (λ (front : Bytes). front ++ t.given) (append_assoc (take at buf) p.given d.given)
            ∙ append_assoc (take at buf) (p.given ++ d.given) t.given
            ∙ ap (λ (l : Bytes). take at buf ++ l) (append_assoc p.given d.given t.given);
        splits =
            p.splits
            ∙ ap (λ (l : Bytes). p.given ++ l)
                (d.splits ∙ ap (λ (l : Bytes). d.given ++ l) t.splits)
            ∙ ap (λ (l : Bytes). p.given ++ l)
                (sym (append_assoc d.given t.given (rest contents entry native t.body')))
            ∙ sym (append_assoc p.given (d.given ++ t.given) (rest contents entry native t.body'));
        fits =
            (let f : at_d + length t.given ≤ length d.buf' = t.fits in
              let same_d = d.same_length in let same_p = p.same_length in omega arith);
        still_ok = t.still_ok;
        ends = λ nothing.
            (let z : length given ≡ 0 = ap length nothing in
              let no_data : d.given ≡ [] = no_bytes d.given (omega arith) in
              let same_d = d.same_length in
              let same_p = p.same_length in t.post (omega arith) (d.post no_data));
      }
