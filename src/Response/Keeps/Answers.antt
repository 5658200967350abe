-- ===== src/Response/Keeps/Answers.antt =====
-- No answer to a request changes the length of the buffer, on any branch.
use zipring.Prelude.{
  ℕ, zero, suc, ◌+◌, ◌≤◌, ◌≡◌, not, ◌&&◌, Option, none, some, Run, panic, ret, ◌>>=◌, length, take,
  drop, ltb, leb, ◌==◌, After, After-refl, After->>=, After-if, arith, inl, inr, Bool-cases,
  length-append, length-drop, length-take, leb→le,
}
use zipring.Prelude.Bytes.{Bytes}
use zipring.Fstree.{FsTreeNode, Target, entry, listing, redirect}
use zipring.Request.Parse.{Request, get, bad, Headers}
use zipring.Response.Status.{HttpStatus, not_found, unsupported_compression}
use zipring.Response.Entry.{Entry, copy_at, is_method_supported}
use zipring.Response.Coding.{NativeCoding, of}
use zipring.Response.Body.Contract.{Body}
use zipring.Response.Body.EntryBody.{Disk, new, entry_body}
use zipring.Response.Body.Inflated.{InflaterPool}
use zipring.Response.Stream.{
  Writer, Answer, Sending, done, out_of_fuel, send_body, after_fill, after_write,
}
use zipring.Response.Head.{
  Formats, announced_length, write_entry_header, entry_header, encode_crc32,
}
use zipring.Response.Listing.{Listing}
use zipring.Response.Listing.Page.{serve_index, page_texts}
use zipring.Response.Replies.{serve_status, serve_redirect_into_dir, status_text, redirect_text}
use zipring.Response.NotModified.{
  serve_not_modified, not_modified_template, position, expect, write_template,
}
use zipring.Response.Serve.{
  Crates, Outcome, listing_answer, close, send_behind, serve_coded, serve_entry, serve_target,
  serve_resolved, respond, accepted_coding, is_none, names, resolve_path,
}
use zipring.Response.Keeps.{
  Same, copy_at-Same, AnswerSame, after_reply-Same, serve_text-Same, serve_texts-Same, ListingSame,
}
use zipring.Response.Keeps.Bodies.{Kept}
use zipring.Response.Keeps.Decoders.{fill-Same}

module _ (W : Writer) (B : Body) (n : ℕ) where
  abbrev SendingSame : Sending W B → Type 0
  SendingSame (done buf s body) = Same n buf
  SendingSame (Sending.failed buf body) = Same n buf
  SendingSame out_of_fuel = Unit

  Again : (B.State → Bytes → W.State → ℕ → Run (Sending W B)) → Type 0
  Again again =
      (body : B.State) (buf : Bytes) (s : W.State) (staged : ℕ)
      → Same n buf
      → After SendingSame (again body buf s staged)

  after_write-Same :
      (again : B.State → Bytes → W.State → ℕ → Run (Sending W B)) (k : ℕ) (buf : Bytes)
      (body : B.State) (s : Option W.State)
      → Again again
      → Same n buf
      → After SendingSame (after_write W B again k buf body s)
  unfolding Again
  after_write-Same again k buf body none go h = h
  after_write-Same again k buf body (some s) go h =
      After-if SendingSame (k == 0) _ _ h (go body buf s 0 h)

  after_fill-Same :
      (again : B.State → Bytes → W.State → ℕ → Run (Sending W B)) (s : W.State) (staged : ℕ)
      (r : Option ℕ × Bytes × B.State)
      → Again again
      → Kept n r
      → After SendingSame (after_fill W B again s staged r)
  after_fill-Same again s staged (none, buf, body) go h = h
  after_fill-Same again s staged (some k, buf, body) go h =
      After-if SendingSame (k == 0 && staged == 0) _ _ h (
        After-if SendingSame (ltb (length buf) (staged + k)) panic _ tt
          (after_write-Same again k buf body (W.write_all s (take (staged + k) buf)) go h))

  send_body-Same :
      ((body : B.State) (buf : Bytes) (at : ℕ) → Same n buf → After (Kept n) (B.fill body buf at))
      → (fuel : ℕ) (body : B.State) (buf : Bytes) (s : W.State) (staged : ℕ) → Same n buf
      → After SendingSame (send_body W B fuel body buf s staged)
  unfolding send_body Again
  send_body-Same keeps zero body buf s staged h = tt
  send_body-Same keeps (suc fuel) body buf s staged h =
      After->>= (Kept n) SendingSame (B.fill body buf staged) _ (keeps body buf staged h)
        (λ r same. after_fill-Same (send_body W B fuel) s staged r (send_body-Same keeps fuel) same)

module _ (formats : Formats) (W : Writer) (n : ℕ) where
  pub write_entry_header-Same :
      (buf : Bytes) (e : Entry) (native : Option NativeCoding)
      → Same n buf
      → Same n (write_entry_header formats buf e native).1
  unfolding write_entry_header
  write_entry_header-Same buf e native h =
      let header = entry_header formats e native in
      elim (Bool-cases (leb (length header) (length buf))) [
        | inl fits ↦
            let le = leb→le (length header) (length buf) fits in
            rw fits (
              omega (
                arith,
                length-append {0} header (drop (length header) buf),
                length-drop {0} (length header) buf,
              ))
        | inr long ↦ rw long (
            let long_by : length buf ≤ length header = ground arith in
            omega (arith, length-take {0} (length buf) header))
      ]

  write_template-Same :
      (s : W.State) (buf : Bytes)
      → Same n buf
      → After (AnswerSame W n) (write_template formats W s buf)
  write_template-Same s buf h =
      After-if (AnswerSame W n) (ltb (length buf) (length not_modified_template)) panic _ tt
        (after_reply-Same W n buf (W.write_all s (take (length not_modified_template) buf)) h)

  serve_not_modified-Same :
      (crc32 : ℕ) (buf : Bytes) (s : W.State)
      → Same n buf
      → After (AnswerSame W n) (serve_not_modified formats W crc32 buf s)
  unfolding serve_not_modified
  serve_not_modified-Same crc32 buf s h =
      After->>= (Same n) (AnswerSame W n) (copy_at 0 not_modified_template buf) _
        (copy_at-Same 0 not_modified_template buf h)
        (λ b same.
          After->>= (λ k. k ≡ k) (AnswerSame W n) (expect (position not_modified_template b'x')) _
            (After-refl (expect (position not_modified_template b'x')))
            (λ k _.
              After->>= (Same n) (AnswerSame W n) (copy_at k (encode_crc32 formats crc32) b) _
                (copy_at-Same k (encode_crc32 formats crc32) b same) (write_template-Same s)))

module _ (C : Crates) (disk : Disk) (W : Writer) (n : ℕ) where
  abbrev pub OutcomeSame : Outcome C disk W → Type 0
  OutcomeSame r = AnswerSame W n r.0

  close-Same :
      (e : Entry) (pool : InflaterPool C.decoding.inflate)
      (sent : Sending W (entry_body C.decoding disk e))
      → SendingSame W (entry_body C.decoding disk e) n sent
      → OutcomeSame (close C disk W e pool sent)
  close-Same e pool (done buf s body) h = h
  close-Same e pool (Sending.failed buf body) h = h
  close-Same e pool out_of_fuel h = tt

  send_behind-Same :
      (e : Entry) (native : Option NativeCoding) (pool : InflaterPool C.decoding.inflate)
      (s : W.State) (r : Option ℕ × Bytes)
      → Same n r.1
      → After OutcomeSame (send_behind C disk W e native pool s r)
  send_behind-Same e native pool s (none, buf) h = h
  send_behind-Same e native pool s (some head_len, buf) h =
      let made = new C.decoding C.features e native pool in
      After->>= (SendingSame W (entry_body C.decoding disk e) n) OutcomeSame
        (send_body W (entry_body C.decoding disk e) (suc (announced_length native e)) made.0 buf s
          head_len)
        _
        (send_body-Same W (entry_body C.decoding disk e) n (fill-Same n C.decoding disk e)
          (suc (announced_length native e)) made.0 buf s head_len h)
        (close-Same e made.1)

  answer-Same :
      (pool : InflaterPool C.decoding.inflate) (run : Run (Answer W))
      → After (AnswerSame W n) run
      → After OutcomeSame (do answer ← run; ret (answer, pool))
  answer-Same pool run h = After->>= (AnswerSame W n) OutcomeSame run _ h (λ answer same. same)

  serve_status-Same :
      (status : HttpStatus) (pool : InflaterPool C.decoding.inflate) (buf : Bytes) (s : W.State)
      → Same n buf
      → After OutcomeSame (do answer ← serve_status W status buf s; ret (answer, pool))
  unfolding serve_status
  serve_status-Same status pool buf s h =
      answer-Same pool (serve_status W status buf s)
        (serve_text-Same W n (status_text status) buf s h)

  serve_coded-Same :
      (native : Option NativeCoding) (e : Entry) (pool : InflaterPool C.decoding.inflate)
      (buf : Bytes) (s : W.State)
      → Same n buf
      → After OutcomeSame (serve_coded C disk W native e pool buf s)
  serve_coded-Same native e pool buf s h =
      After-if OutcomeSame (is_none native && not (is_method_supported C.features e.method)) _ _
        (serve_status-Same unsupported_compression pool buf s h)
        (send_behind-Same e native pool s (write_entry_header C.formats buf e native)
          (write_entry_header-Same C.formats W n buf e native h))

  listing_answer-Same :
      (l : Listing C.encode_hex W)
      → ListingSame C.encode_hex W n l
      → AnswerSame W n (listing_answer C disk W l)
  listing_answer-Same (Listing.pending chunk buf s) h = h
  listing_answer-Same (Listing.failed buf) h = h
  listing_answer-Same Listing.out_of_fuel h = tt

  serve_target-Same :
      (target : Target Entry) (headers : Headers) (pool : InflaterPool C.decoding.inflate)
      (buf : Bytes) (s : W.State)
      → Same n buf
      → After OutcomeSame (serve_target C disk W target headers pool buf s)
  unfolding serve_target serve_entry serve_index serve_redirect_into_dir
  serve_target-Same (entry e) headers pool buf s h =
      After-if OutcomeSame (names headers.if_none_match e.crc32) _ _
        (answer-Same pool (serve_not_modified C.formats W e.crc32 buf s)
          (serve_not_modified-Same C.formats W n e.crc32 buf s h))
        (serve_coded-Same (accepted_coding (of e.method) headers.accepted_encodings) e pool buf s h)
  serve_target-Same (listing is_root children) headers pool buf s h =
      After->>= (ListingSame C.encode_hex W n) OutcomeSame
        (serve_index C.encode_hex C.url_encode C.html_escape W is_root children buf s) _
        (serve_texts-Same C.encode_hex W n (page_texts C.url_encode C.html_escape is_root children)
          buf s h)
        listing_answer-Same
  serve_target-Same (redirect name) headers pool buf s h =
      answer-Same pool (serve_redirect_into_dir W C.url_encode name buf s)
        (serve_text-Same W n (redirect_text C.url_encode name) buf s h)

  serve_resolved-Same :
      (headers : Headers) (pool : InflaterPool C.decoding.inflate) (buf : Bytes) (s : W.State)
      (target : Option (Target Entry))
      → Same n buf
      → After OutcomeSame (serve_resolved C disk W headers pool buf s target)
  serve_resolved-Same headers pool buf s none h = serve_status-Same not_found pool buf s h
  serve_resolved-Same headers pool buf s (some target) h =
      serve_target-Same target headers pool buf s h

  pub respond-Same :
      (request : Request) (tree : FsTreeNode Entry) (pool : InflaterPool C.decoding.inflate)
      (buf : Bytes) (s : W.State)
      → Same n buf
      → After OutcomeSame (respond C disk W request tree pool buf s)
  unfolding respond
  respond-Same (get path_len headers) tree pool buf s h =
      After-if OutcomeSame (ltb (length buf) path_len) panic _ tt (
        After->>= (λ t. t ≡ t) OutcomeSame (resolve_path C disk W tree (take path_len buf)) _
          (After-refl (resolve_path C disk W tree (take path_len buf)))
          (λ t _. serve_resolved-Same headers pool buf s t h))
  respond-Same (bad status) tree pool buf s h = serve_status-Same status pool buf s h
