-- ===== src/Response/Serve/Outcomes.antt =====
-- What an answer comes to: the bytes that it sent, and the buffer it leaves.
use zipring.Prelude.{
  suc, ◌≤◌, ◌≡◌, refl, ap, ◌∙◌, Option, ◌++◌, Run, ret, length, take, drop, arith, le→leb,
  length-append, length-drop, take-length-append, ◌>>=◌,
}
use zipring.Prelude.Bytes.{Bytes}
use zipring.Response.Entry.{Entry}
use zipring.Response.Coding.{NativeCoding}
use zipring.Response.Body.Inflated.{InflaterPool}
use zipring.Response.Body.EntryBody.{Disk, new, drop_body, entry_body}
use zipring.Response.Stream.{Writer, answered, Sending, send_body}
use zipring.Response.Stream.Sent.{Sends}
use zipring.Response.Head.{announced_length, entry_header, write_entry_header}
use zipring.Response.Serve.{Crates, Outcome, close, send_behind}

module _ (C : Crates) (disk : Disk) (W : Writer) where
  -- `run` has sent `bytes` and kept the buffer's length.
  pub record Answers (buf : Bytes) (s : W.State) (bytes : Bytes) (run : Run (Outcome C disk W))
      : Type 0 where
    pub buf' : Bytes
    pub s' : W.State
    pub pool' : InflaterPool C.decoding.inflate
    pub run_is : run ≡ ret (answered buf' s', pool')
    pub sends : W.sent s' ≡ W.sent s ++ bytes
    pub same_length : length buf' ≡ length buf

  module _ (e : Entry) where
    close-Answers :
        (pool : InflaterPool C.decoding.inflate) (buf : Bytes) (s : W.State) (bytes : Bytes)
        (run : Run (Sending W (entry_body C.decoding disk e)))
        → Sends W (entry_body C.decoding disk e) buf s bytes run
        → Answers buf s bytes (do sent ← run; ret (close C disk W e pool sent))
    close-Answers pool buf s bytes run sent = rw sent.run_is (record {
      buf' = sent.buf';
      s' = sent.s';
      pool' = drop_body C.decoding sent.body' pool;
      run_is = refl;
      sends = sent.sends;
      same_length = sent.same_length;
    })

    -- With the header in the buffer, and a body that gives `bytes` behind it.
    pub send_behind-Answers :
        (native : Option NativeCoding) (pool : InflaterPool C.decoding.inflate) (buf bytes : Bytes)
        (s : W.State)
        → length (entry_header C.formats e native) ≤ length buf
        → ((buf1 : Bytes)
            → length buf1 ≡ length buf
            → Sends W
                (entry_body C.decoding disk e)
                buf1
                s
                (take (length (entry_header C.formats e native)) buf1 ++ bytes)
                (send_body W
                  (entry_body C.decoding disk e)
                  (suc (announced_length native e))
                  (new C.decoding C.features e native pool).0
                  buf1
                  s
                  (length (entry_header C.formats e native))))
        → Answers buf s
            (entry_header C.formats e native ++ bytes)
            (send_behind C disk W e native pool s (write_entry_header C.formats buf e native))
    unfolding write_entry_header
    send_behind-Answers native pool buf bytes s fits body =
        let header = entry_header C.formats e native in
        let buf1 = header ++ drop (length header) buf in
        let same : length buf1 ≡ length buf = omega (
          arith,
          length-append {0} header (drop (length header) buf),
          length-drop {0} (length header) buf,
        ) in
        let a =
          close-Answers (new C.decoding C.features e native pool).1 buf1 s
            (take (length header) buf1 ++ bytes)
            (send_body W (entry_body C.decoding disk e) (suc (announced_length native e))
              (new C.decoding C.features e native pool).0 buf1 s (length header))
            (body buf1 same) in
        rw (le→leb (length header) (length buf) fits) (record {
          buf' = a.buf';
          s' = a.s';
          pool' = a.pool';
          run_is = a.run_is;
          sends =
              a.sends
              ∙ ap (λ (l : Bytes). W.sent s ++ (l ++ bytes))
                  (take-length-append header (drop (length header) buf));
          same_length = a.same_length ∙ same;
        })
