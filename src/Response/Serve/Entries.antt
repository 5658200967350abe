-- ===== src/Response/Serve/Entries.antt =====
-- An entry's answer as a whole, in its native coding, inflated or decoded.
use zipring.Prelude.{
  ℕ, suc, ◌+◌, ◌≤◌, ◌<◌, ◌≡◌, refl, sym, ap, ◌∙◌, true, false, ◌&&◌, none, some, ◌++◌, length, take,
  arith, subst, All, ◌>>=◌,
}
use zipring.Prelude.Bytes.{Bytes}
use zipring.Request.Encodings.{AcceptedEncodings}
use zipring.Response.Entry.{Entry, Method, is_method_supported}
use zipring.Response.Coding.{NativeCoding, of, prefix, trailer, content_length}
use zipring.Response.Body.Contract.{Body, Gives}
use zipring.Response.Body.Native
use zipring.Response.Body.Native.Puts.{Holds, IsWithin}
use zipring.Response.Body.Native.Whole.{native_body, stored, send_body-native}
use zipring.Response.Body.Decoded
use zipring.Response.Body.Decoded.{DecodedBody}
use zipring.Response.Body.Decoded.Laws.{Decodes}
use zipring.Response.Body.Decoded.Filling
use zipring.Response.Body.Inflated
use zipring.Response.Body.Inflated.{Inflater, InflaterPool, InflatedBody, new_inflater, lend}
use zipring.Response.Body.Inflated.Laws.{Hashes, Inflates, Starts}
use zipring.Response.Body.Inflated.Whole.{
  inflated_body, inflated_body-Gives, IsReady, lend-IsReady, new-Sound, new-rest,
}
use zipring.Response.Body.EntryBody
use zipring.Response.Body.EntryBody.{
  Decoding, Disk, EntryBody, is_deflate, new, drop_body, entry_body,
}
use zipring.Response.Stream.{Writer, Accepts, send_body}
use zipring.Response.Stream.Sent.{Sends, send_body_lem}
use zipring.Response.Stream.Mapped.{Sends-mapped}
use zipring.Response.Head.{announced_length, entry_header, write_entry_header}
use zipring.Response.Serve.{Crates, send_behind, serve_coded, serve_entry, accepted_coding}
use zipring.Response.Serve.Outcomes.{Answers, send_behind-Answers}

module _ (C : Crates) (disk : Disk) (W : Writer) where
  module _ (e : Entry) (accepts : Accepts W) (accepted : AcceptedEncodings)
      (pool : InflaterPool C.decoding.inflate) (buf : Bytes) (s : W.State) where
    -- Where no native coding is accepted, and a decoder was compiled in.
    serve_coded-decoder :
        (bytes : Bytes)
        → is_method_supported C.features e.method ≡ true
        → Answers C disk W buf s bytes
            (send_behind C disk W e none pool s (write_entry_header C.formats buf e none))
        → Answers C disk W buf s bytes (serve_coded C disk W none e pool buf s)
    serve_coded-decoder bytes supported answers = rw supported answers

    new-inflated :
        C.features.deflate ≡ true
        → e.method ≡ Method.deflate
        → new C.decoding C.features e none pool ≡ (
          EntryBody.inflated (
              Inflated.new C.decoding.inflate C.decoding.hasher e (lend C.decoding.inflate pool).0),
          (lend C.decoding.inflate pool).1,
        )
    unfolding new
    new-inflated feature method =
        rw (feature, (let m : is_deflate e.method ≡ true = ap is_deflate method in m)) refl

    new-decoded :
        (C.features.deflate && is_deflate e.method) ≡ false
        → new C.decoding C.features e none pool
          ≡ (EntryBody.decoded (Decoded.new C.decoding.fsm e), pool)
    unfolding new
    new-decoded other = rw other refl

    -- The rest of `serve_entry` with a body that was made as `kind body`, of a body that gives `content`.
    serve_decoder-Answers :
        (B : Body) (kind : B.State → EntryBody C.decoding)
        → ((body : B.State) (buf : Bytes) (at : ℕ)
            → EntryBody.fill C.decoding disk e (kind body) buf at
              ≡ (B.fill body buf at >>= EntryBody.wrap C.decoding kind))
        → (gives : Gives B) (body : B.State) (pool' : InflaterPool C.decoding.inflate)
          (content : Bytes)
        → new C.decoding C.features e none pool ≡ (kind body, pool')
        → gives.Ok body
        → gives.rest body ≡ content
        → gives.need ≤ 40
        → length content ≡ e.uncompressed_size
        → accepted_coding (of e.method) accepted ≡ none
        → is_method_supported C.features e.method ≡ true
        → length (entry_header C.formats e none) + 40 ≤ length buf
        → Answers C disk W buf s
            (entry_header C.formats e none ++ content)
            (serve_entry C disk W e accepted pool buf s)
    unfolding serve_entry announced_length
    serve_decoder-Answers B kind commutes gives body pool' content made ok rest small size coding
          supported room =
        let header = entry_header C.formats e none in
        let fuel = suc e.uncompressed_size in
        subst
          (λ o. Answers C disk W buf s (header ++ content) (serve_coded C disk W o e pool buf s))
          (sym coding)
          (serve_coded-decoder (header ++ content) supported (
            send_behind-Answers C disk W e none pool buf content s (omega arith) (λ buf1 same.
              let bound : length (gives.rest body) < fuel =
                (let l = ap length rest in omega arith) in
              let sent =
                send_body_lem W B accepts gives fuel body buf1 s (length header) ok (omega arith)
                  bound in
              let sent' =
                Sends-mapped W B (entry_body C.decoding disk e) kind commutes fuel body buf1 s
                  (length header) (take (length header) buf1 ++ gives.rest body) sent in
              subst
                (λ b.
                  Sends W (entry_body C.decoding disk e) buf1 s (take (length header) buf1 ++ b) (
                    send_body W (entry_body C.decoding disk e) fuel
                      (new C.decoding C.features e none pool).0 buf1 s (length header)))
                rest
                (subst
                  (λ m.
                    Sends W (entry_body C.decoding disk e) buf1 s
                      (take (length header) buf1 ++ gives.rest body)
                      (send_body W (entry_body C.decoding disk e) fuel m.0 buf1 s (length header)))
                  (sym made) sent'))))

    -- On a stream that takes its writes, with 40 bytes of room behind the header: an entry of another
    -- method that a decoder was compiled in for, from a request that does not accept it as stored, is
    -- answered with the header and the content, where rc_zip's machine decodes the entry, from its local
    -- header on, to a content of the recorded length.
    pub serve_entry-decoded :
        (content : Bytes) (D : Decodes C.decoding.fsm disk.read_at C.decoding.rounds)
        → D.Good C.decoding.fsm.start e.header_offset
        → D.left C.decoding.fsm.start e.header_offset ≡ content
        → length content ≡ e.uncompressed_size
        → is_method_supported C.features e.method ≡ true
        → (C.features.deflate && is_deflate e.method) ≡ false
        → accepted_coding (of e.method) accepted ≡ none
        → length (entry_header C.formats e none) + 40 ≤ length buf
        → Answers C disk W buf s
            (entry_header C.formats e none ++ content)
            (serve_entry C disk W e accepted pool buf s)
    unfolding EntryBody.fill
    serve_entry-decoded content D good left size supported other coding room =
        let F = C.decoding.fsm in
        let read = disk.read_at in
        let body = Decoded.new F e in
        serve_decoder-Answers (Filling.decoded_body F read C.decoding.rounds D) EntryBody.decoded
          (λ b c at. refl) (Filling.decoded_body-Gives F read C.decoding.rounds D) body pool content
          (new-decoded other) (good, sym size ∙ ap length (sym left)) left (omega arith) size coding
          supported room

    module _ (contents : Bytes) (holds : Holds disk.read_exact_at contents)
        (w : IsWithin contents e) where
      -- On an archive that can be read and a stream that takes its writes, with 40 bytes of room behind
      -- the header, an entry whose native coding the request accepts is answered with the header and then
      -- the prefix of the coding, the entry's stored bytes and the trailer.
      pub serve_entry-native :
          (native : NativeCoding)
          → accepted_coding (of e.method) accepted ≡ some native
          → length (entry_header C.formats e (some native)) + 40 ≤ length buf
          → Answers C disk W buf s
              (entry_header C.formats e (some native)
                ++ (prefix native ++ (stored contents e ++ trailer native e)))
              (serve_entry C disk W e accepted pool buf s)
      unfolding serve_entry new announced_length EntryBody.fill
      serve_entry-native native coding room =
          let header = entry_header C.formats e (some native) in
          let bytes = prefix native ++ (stored contents e ++ trailer native e) in
          subst
            (λ o. Answers C disk W buf s (header ++ bytes) (serve_coded C disk W o e pool buf s))
            (sym coding)
            (send_behind-Answers C disk W e (some native) pool buf bytes s (omega arith)
              (λ buf1 same.
                let sent =
                  (send_body-native disk.read_exact_at contents e native holds w W accepts buf1 s
                    (length header) (omega arith)).0 in
                Sends-mapped W (native_body disk.read_exact_at e native)
                  (entry_body C.decoding disk e) (EntryBody.native native) (λ b c at. refl)
                  (suc (content_length native e)) (Native.new e) buf1 s (length header)
                  (take (length header) buf1 ++ bytes) sent))

      -- On an archive that can be read and a stream that takes its writes, with 40 bytes of room behind
      -- the header: an entry that is deflated, from a request that does not accept gzip, is answered with
      -- the header and the inflated content, where the decoder inflates the entry's stored bytes to a
      -- content whose length and checksum the archive records, and the pooled inflaters are ready.
      pub serve_entry-inflated :
          (content : Bytes) (L : Inflates C.decoding.inflate C.decoding.rounds (length content))
          (S : Hashes C.decoding.hasher)
          (T : Starts C.decoding.inflate L (stored contents e) content)
          → length content ≡ e.uncompressed_size
          → C.decoding.hasher.finalize (S.hash content) ≡ e.crc32
          → All (IsReady T.Fresh) pool
          → e.method ≡ Method.deflate
          → C.features.deflate ≡ true
          → accepted_coding (of e.method) accepted ≡ none
          → length (entry_header C.formats e none) + 40 ≤ length buf
          → Answers C disk W buf s
              (entry_header C.formats e none ++ content)
              (serve_entry C disk W e accepted pool buf s)
      unfolding EntryBody.fill is_method_supported
      serve_entry-inflated content L S T size sum ready method feature coding room =
          let I = C.decoding.inflate in
          let H = C.decoding.hasher in
          let read = disk.read_exact_at in
          let inflater = (lend I pool).0 in
          let lent = lend-IsReady T.Fresh T.fresh_new pool ready in
          let supported : is_method_supported C.features e.method ≡ true =
            ap (is_method_supported C.features) method ∙ feature in
          serve_decoder-Answers (inflated_body I H read e C.decoding.rounds) EntryBody.inflated
            (λ b c at. refl)
            (inflated_body-Gives I H read contents e holds w content C.decoding.rounds L S size sum)
            (Inflated.new I H e inflater) (lend I pool).1 content (new-inflated feature method)
            (new-Sound I H read contents e holds w content C.decoding.rounds L S T inflater lent)
            (new-rest I H read contents e holds w content C.decoding.rounds L S T inflater lent)
            (omega arith) size coding supported room
