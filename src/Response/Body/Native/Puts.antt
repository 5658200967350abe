-- ===== src/Response/Body/Native/Puts.antt =====
-- A step of a native body's `fill`: what it puts into the buffer, and what the body has left.
use zipring.Prelude.{
  ℕ, ◌+◌, ◌≤◌, ◌≡◌, refl, sym, ap, ◌∙◌, Bool, true, false, Option, none, some, [], ◌∷◌, ◌++◌, Run,
  ret, length, take, drop, ltb, arith, append-nil,
}
use zipring.Prelude.Bytes.{Bytes}
use zipring.Response.Entry.{Entry, ReadExactAt, data_start}
use zipring.Response.Coding.{NativeCoding, identity, gzip, zstd, prefix, trailer, trailer_len}
use zipring.Response.Body.Writes.{written, length-written, take-written}
use zipring.Response.Body.Native.{NativeBody, Step}

pub length-trailer :
    (native : NativeCoding) (entry : Entry) → length (trailer native entry) ≡ trailer_len native
unfolding trailer trailer_len
length-trailer identity entry = refl
length-trailer gzip entry = refl
length-trailer zstd entry = refl

pub length-prefix : (native : NativeCoding) → length (prefix native) ≤ 10
unfolding prefix
length-prefix identity = omega arith
length-prefix gzip = omega arith
length-prefix zstd = omega arith

pub trailer_len_bound : (native : NativeCoding) → trailer_len native ≤ 8
unfolding trailer_len
trailer_len_bound identity = omega arith
trailer_len_bound gzip = omega arith
trailer_len_bound zstd = omega arith

pub zero_of : (r : ℕ) → ltb 0 r ≡ false → r ≡ 0
zero_of r h = ground arith

pub no_bytes : (bytes : Bytes) → length bytes ≡ 0 → bytes ≡ []
no_bytes [] h = refl
no_bytes (b ∷ bs) h = absurd (omega arith)

abbrev pub when : Bool → Bytes → Bytes
when true bytes = bytes
when false bytes = []

-- The file holds `contents`, and all of it can be read.
abbrev pub Holds : ReadExactAt → Bytes → Type 0
Holds read_exact_at contents =
    (offset n : ℕ)
    → offset + n ≤ length contents
    → read_exact_at offset n ≡ some (take n (drop offset contents))

-- Where the entry's data begins.
abbrev pub start : Bytes → Entry → ℕ
start contents entry = data_start entry (take 30 (drop entry.header_offset contents))

-- The entry's local header, and the data that it leads to, lie within the file.
pub record IsWithin (contents : Bytes) (entry : Entry) : Type 0 where
  pub header_within : entry.header_offset + 30 ≤ length contents
  pub data_within : start contents entry + entry.compressed_size ≤ length contents

abbrev pub offset_or_start : Bytes → Entry → Option ℕ → ℕ
offset_or_start contents entry none = start contents entry
offset_or_start contents entry (some offset) = offset

abbrev pub body_of : Option ℕ → ℕ → Bool → Bool → NativeBody
body_of o r p t = record { data_offset = o; remaining = r; prefix_pending = p; trailer_pending = t }

module _ (contents : Bytes) (entry : Entry) (native : NativeCoding) where
  -- What the body has still to give.
  abbrev pub rest : NativeBody → Bytes
  rest body =
      when body.prefix_pending (prefix native)
      ++ (take body.remaining (drop (offset_or_start contents entry body.data_offset) contents)
          ++ when body.trailer_pending (trailer native entry))

  abbrev pub Ok : NativeBody → Type 0
  Ok body = offset_or_start contents entry body.data_offset + body.remaining ≤ length contents

  -- A step of `fill` has put `given` behind `buf[..end]`, and left a body as `Post` says.
  pub record Puts (Post : Bytes → NativeBody → Type 0) (body : NativeBody) (buf : Bytes) (end : ℕ)
      (run : Run Step) : Type 0 where
    pub given : Bytes
    pub buf' : Bytes
    pub body' : NativeBody
    pub run_is : run ≡ ret (some (end + length given), buf', body')
    pub same_length : length buf' ≡ length buf
    pub in_front : take (end + length given) buf' ≡ take end buf ++ given
    pub splits : rest body ≡ given ++ rest body'
    pub fits : end + length given ≤ length buf
    pub still_ok : Ok body'
    pub sent : body'.prefix_pending ≡ false
    pub post : Post given body'

  pub Puts-nothing :
      (Post : Bytes → NativeBody → Type 0) (body : NativeBody) (buf : Bytes) (end : ℕ)
      → Ok body
      → end ≤ length buf
      → body.prefix_pending ≡ false
      → Post [] body
      → Puts Post body buf end (ret (some end, buf, body))
  Puts-nothing Post body buf end ok h sent post = record {
    given = [];
    buf' = buf;
    body' = body;
    run_is = ap (λ k. ret (some k, buf, body)) (let p : end ≡ end + 0 = omega arith in p);
    same_length = refl;
    in_front =
        ap (λ k. take k buf) (let p : end + 0 ≡ end = omega arith in p)
        ∙ sym (append-nil (take end buf));
    splits = refl;
    fits = omega arith;
    still_ok = ok;
    sent = sent;
    post = post;
  }

  -- A write that fits puts its bytes behind the front.
  pub Puts-written :
      (Post : Bytes → NativeBody → Type 0) (body body' : NativeBody) (buf given : Bytes) (end : ℕ)
      → end + length given ≤ length buf
      → rest body ≡ given ++ rest body'
      → Ok body'
      → body'.prefix_pending ≡ false
      → Post given body'
      → Puts Post body buf end (ret (some (end + length given), written end given buf, body'))
  Puts-written Post body body' buf given end h splits ok sent post = record {
    given = given;
    buf' = written end given buf;
    body' = body';
    run_is = refl;
    same_length = length-written end given buf h;
    in_front = take-written end given buf h;
    splits = splits;
    fits = h;
    still_ok = ok;
    sent = sent;
    post = post;
  }

  -- What is behind the front does not matter.
  pub Puts-of_front :
      (Post : Bytes → NativeBody → Type 0) (body : NativeBody) (buf buf2 : Bytes) (end : ℕ)
      (run : Run Step)
      → length buf2 ≡ length buf
      → take end buf2 ≡ take end buf
      → Puts Post body buf2 end run
      → Puts Post body buf end run
  Puts-of_front Post body buf buf2 end run same front p = record {
    given = p.given;
    buf' = p.buf';
    body' = p.body';
    run_is = p.run_is;
    same_length = p.same_length ∙ same;
    in_front = p.in_front ∙ ap (λ (front : Bytes). front ++ p.given) front;
    splits = p.splits;
    fits = (let f : end + length p.given ≤ length buf2 = p.fits in omega arith);
    still_ok = p.still_ok;
    sent = p.sent;
    post = p.post;
  }
