-- ===== src/Response/Replies.antt =====
-- The answers without a body: `serve_status` and `serve_redirect_into_dir`, src/response/stream.rs.
-- The percent-encoding of a path's segment is a parameter.
use zipring.Prelude.{
  ℕ, ◌+◌, ◌≤◌, ◌≡◌, refl, ap, ◌∙◌, Bool, true, false, Option, none, some, ◌++◌, Run, panic, ret,
  ◌>>=◌, length, take, drop, ltb, le→leb, ltb-eq-false, if◌then◌else◌, arith, length-append,
  length-drop, take-length-append, subst,
}
use zipring.Prelude.Bytes.{Bytes, codes}
use zipring.Response.Body.Writes.{copy_at-written}
use zipring.Response.Status.{HttpStatus, as_str}
use zipring.Response.Stream.{Writer, Accepts, Answer, answered, failed}
use zipring.Response.Listing.{append_fmt, crlf}

abbrev pub status_text : HttpStatus → Bytes
status_text status =
    codes "HTTP/1.1 " ++ (as_str status ++ (crlf ++ (codes "Content-Length: 0" ++ (crlf ++ crlf))))

abbrev pub redirect_text : (Bytes → Bytes) → Bytes → Bytes
redirect_text url_encode name =
    codes "HTTP/1.1 301 Moved Permanently"
    ++ (crlf
        ++ (codes "Location: ./"
            ++ (url_encode name
                ++ (codes "/" ++ (crlf ++ (codes "Content-Length: 0" ++ (crlf ++ crlf)))))))

module _ (W : Writer) where
  abbrev pub after_reply : Bytes → Option W.State → Answer W
  after_reply buf none = failed buf
  after_reply buf (some s) = answered buf s

  abbrev pub write_reply : W.State → Bool × ℕ × Bytes → Run (Answer W)
  write_reply s (false, len, buf) = ret (failed buf)
  write_reply s (true, len, buf) =
      if ltb (length buf) len then panic else ret (after_reply buf (W.write_all s (take len buf)))

  -- Both replies: the text into the buffer from its front, and out.
  unfoldable pub serve_text : Bytes → Bytes → W.State → Run (Answer W)
  unfolding append_fmt
  serve_text text buf s = do appended ← append_fmt 0 (length buf) 0 text buf; write_reply s appended

  unfoldable pub serve_status : HttpStatus → Bytes → W.State → Run (Answer W)
  unfolding serve_text as_str
  serve_status status = serve_text (status_text status)

  unfoldable pub serve_redirect_into_dir :
      (Bytes → Bytes) → Bytes → Bytes → W.State → Run (Answer W)
  unfolding serve_text
  serve_redirect_into_dir url_encode name = serve_text (redirect_text url_encode name)

  -- `run` has written `text` to the stream at once, which was sent, and kept the buffer's length.
  pub record Replies (buf text : Bytes) (s : W.State) (run : Run (Answer W)) : Type 0 where
    pub buf' : Bytes
    pub s' : W.State
    pub run_is : run ≡ ret (answered buf' s')
    pub same_length : length buf' ≡ length buf
    pub writes : W.write_all s text ≡ some s'
    pub sends : W.sent s' ≡ W.sent s ++ text

module _ (W : Writer) (accepts : Accepts W) where
  pub serve_text-Replies :
      (text buf : Bytes) (s : W.State)
      → length text ≤ length buf
      → Replies W buf text s (serve_text W text buf s)
  unfolding serve_text append_fmt
  serve_text-Replies text buf s h =
      let n = length text in
      let buf1 = text ++ drop n buf in
      let same : length buf1 ≡ length buf =
        omega (arith, length-append {0} text (drop n buf), length-drop {0} n buf) in
      let t = accepts s (take n buf1) in
      let room : 0 + n ≤ length buf = omega arith in
      let front : take n buf1 ≡ text = take-length-append text (drop n buf) in
      rw
        (
          ltb-eq-false (length buf) 0 (omega arith),
          le→leb (0 + 0 + n) (length buf) (omega arith),
          copy_at-written 0 text buf room,
          (let e : 0 + n ≡ n = omega arith in e),
          ltb-eq-false (length buf1) n (omega arith),
          t.write_is,
        )
        (record {
          buf' = buf1;
          s' = t.s';
          run_is = refl;
          same_length = same;
          writes = subst (λ (l : Bytes). W.write_all s l ≡ some t.s') front t.write_is;
          sends = t.sends ∙ ap (λ (l : Bytes). W.sent s ++ l) front;
        })

  -- On a stream that takes its writes, with a buffer that has room for it, the reply of a status is
  -- sent whole, by one write, and so is a redirect into a directory; the buffer keeps its length.
  pub serve_status-serve_redirect_into_dir :
      (status : HttpStatus) (url_encode : Bytes → Bytes) (name buf : Bytes) (s : W.State)
      → length (status_text status) ≤ length buf
      → length (redirect_text url_encode name) ≤ length buf
      → Replies W buf (status_text status) s (serve_status W status buf s)
        × Replies W buf
            (redirect_text url_encode name)
            s
            (serve_redirect_into_dir W url_encode name buf s)
  unfolding serve_status serve_redirect_into_dir
  serve_status-serve_redirect_into_dir status url_encode name buf s h h' = (
    serve_text-Replies (status_text status) buf s h,
    serve_text-Replies (redirect_text url_encode name) buf s h',
  )
