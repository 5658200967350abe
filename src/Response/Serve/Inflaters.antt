-- ===== src/Response/Serve/Inflaters.antt =====
-- On the pooled inflaters, through each answer.
use zipring.Prelude.{
  ℕ, zero, suc, ◌+◌, ◌≡◌, not, ◌&&◌, Option, none, some, Run, panic, ret, ◌>>=◌, length, take, ltb,
  ◌==◌, All, After, After-refl, After->>=, After-if, Bool-cases, inl, inr,
}
use zipring.Prelude.Bytes.{Bytes}
use zipring.Fstree.{FsTreeNode, Target, entry, listing, redirect}
use zipring.Request.Parse.{Request, get, bad, Headers}
use zipring.Response.Status.{not_found, unsupported_compression}
use zipring.Response.Entry.{Entry, Features, is_method_supported}
use zipring.Response.Coding.{NativeCoding, of}
use zipring.Response.Body.Contract.{Body}
use zipring.Response.Body.Native
use zipring.Response.Body.Decoded
use zipring.Response.Body.Inflated
use zipring.Response.Body.Inflated.{InflaterPool}
use zipring.Response.Body.Inflated.Whole.{IsReady}
use zipring.Response.Body.Inflated.Pool
use zipring.Response.Body.Inflated.Pool.{Resets, lend-IsWhole, give_back-IsReady, fill-Holds}
use zipring.Response.Body.EntryBody
use zipring.Response.Body.EntryBody.{
  Decoding, Disk, EntryBody, is_deflate, wrap, new, drop_body, entry_body,
}
use zipring.Response.Stream.{
  Writer, Answer, Sending, done, out_of_fuel, send_body, after_fill, after_write,
}
use zipring.Response.Head.{announced_length, write_entry_header}
use zipring.Response.Listing.Page.{serve_index}
use zipring.Response.Replies.{serve_status, serve_redirect_into_dir}
use zipring.Response.NotModified.{serve_not_modified}
use zipring.Response.Serve.{
  Crates, Outcome, close, send_behind, serve_coded, serve_entry, serve_target, serve_resolved,
  respond, accepted_coding, is_none, names, resolve_path,
}

-- What a body's fills keep, sending it keeps.
module _ (W : Writer) (B : Body) (P : B.State → Type 0)
    (keeps : (body : B.State) (buf : Bytes) (at : ℕ)
      → P body
      → After (λ r. P r.2) (B.fill body buf at)) where
  abbrev pub Leaves : Sending W B → Type 0
  Leaves (done buf s body) = P body
  Leaves (Sending.failed buf body) = P body
  Leaves out_of_fuel = Unit

  after_write-Leaves :
      (again : B.State → Bytes → W.State → ℕ → Run (Sending W B)) (n : ℕ) (buf : Bytes)
      (body : B.State) (s : Option W.State)
      → ((s1 : W.State) → After Leaves (again body buf s1 0))
      → P body
      → After Leaves (after_write W B again n buf body s)
  after_write-Leaves again n buf body none go h = h
  after_write-Leaves again n buf body (some s) go h = After-if Leaves (n == 0) _ _ h (go s)

  after_fill-Leaves :
      (again : B.State → Bytes → W.State → ℕ → Run (Sending W B)) (s : W.State) (staged : ℕ)
      (r : Option ℕ × Bytes × B.State)
      → ((body : B.State) (buf : Bytes) (s1 : W.State)
          → P body
          → After Leaves (again body buf s1 0))
      → P r.2
      → After Leaves (after_fill W B again s staged r)
  after_fill-Leaves again s staged (none, buf, body) go h = h
  after_fill-Leaves again s staged (some n, buf, body) go h =
      After-if Leaves (n == 0 && staged == 0) _ _ h (
        After-if Leaves (ltb (length buf) (staged + n)) panic _ tt (
          after_write-Leaves again n buf body (W.write_all s (take (staged + n) buf))
            (λ s1. go body buf s1 h) h))

  pub send_body-Leaves :
      (fuel : ℕ) (body : B.State) (buf : Bytes) (s : W.State) (staged : ℕ)
      → P body
      → After Leaves (send_body W B fuel body buf s staged)
  unfolding send_body
  send_body-Leaves zero body buf s staged h = tt
  send_body-Leaves (suc fuel) body buf s staged h =
      After->>= (λ r. P r.2) Leaves (B.fill body buf staged)
        (after_fill W B (send_body W B fuel) s staged) (keeps body buf staged h)
        (λ r.
          after_fill-Leaves (send_body W B fuel) s staged r
            (λ body' buf' s1 h'. send_body-Leaves fuel body' buf' s1 0 h'))

module _ (C : Decoding) (R : Resets C.inflate) where
  -- A body whose inflater can be given back.
  abbrev pub GivesBack : EntryBody C → Type 0
  GivesBack (EntryBody.native _ _) = Unit
  GivesBack (EntryBody.inflated body) = Pool.Holds C.inflate R C.hasher body
  GivesBack (EntryBody.decoded _) = Unit

  abbrev pub Ready : InflaterPool C.inflate → Type 0
  Ready = All (IsReady R.Fresh)

  new-Ready :
      (features : Features) (e : Entry) (native : Option NativeCoding)
      (pool : InflaterPool C.inflate)
      → Ready pool
      → GivesBack (new C features e native pool).0 × Ready (new C features e native pool).1
  unfolding new
  new-Ready features e (some coding) pool ready = (tt, ready)
  new-Ready features e none pool ready =
      elim (Bool-cases (features.deflate && is_deflate e.method)) [
        | inl b ↦ rw b (lend-IsWhole C.inflate R pool ready)
        | inr b ↦ rw b (tt, ready)
      ]

  drop_body-Ready :
      (body : EntryBody C) (pool : InflaterPool C.inflate)
      → GivesBack body
      → Ready pool
      → Ready (drop_body C body pool)
  unfolding drop_body
  drop_body-Ready (EntryBody.native _ _) pool h ready = ready
  drop_body-Ready (EntryBody.inflated body) pool h ready =
      give_back-IsReady C.inflate R body.inflater pool h ready
  drop_body-Ready (EntryBody.decoded _) pool h ready = ready

  fill-GivesBack :
      (disk : Disk) (e : Entry) (body : EntryBody C) (buf : Bytes) (at : ℕ)
      → GivesBack body
      → After (λ r. GivesBack r.2) (EntryBody.fill C disk e body buf at)
  unfolding EntryBody.fill
  fill-GivesBack disk e (EntryBody.native coding body) buf at h =
      After->>= (λ r. r ≡ r) (λ r. GivesBack r.2)
        (Native.fill disk.read_exact_at e coding body buf at) (wrap C (EntryBody.native coding))
        (After-refl (Native.fill disk.read_exact_at e coding body buf at)) (λ r _. tt)
  fill-GivesBack disk e (EntryBody.inflated body) buf at h =
      After->>= (λ r. Pool.Holds C.inflate R C.hasher r.2) (λ r. GivesBack r.2)
        (Inflated.fill C.inflate C.hasher disk.read_exact_at e C.rounds body buf at)
        (wrap C EntryBody.inflated)
        (fill-Holds C.inflate R C.hasher disk.read_exact_at e C.rounds body buf at h) (λ r hr. hr)
  fill-GivesBack disk e (EntryBody.decoded body) buf at h =
      After->>= (λ r. r ≡ r) (λ r. GivesBack r.2)
        (Decoded.fill C.fsm disk.read_at C.rounds body buf at) (wrap C EntryBody.decoded)
        (After-refl (Decoded.fill C.fsm disk.read_at C.rounds body buf at)) (λ r _. tt)

module _ (C : Crates) (R : Resets C.decoding.inflate) (disk : Disk) (W : Writer) where
  abbrev pub ReadyAfter : Outcome C disk W → Type 0
  ReadyAfter r = Ready C.decoding R r.1

  close-Ready :
      (e : Entry) (pool : InflaterPool C.decoding.inflate)
      (sent : Sending W (entry_body C.decoding disk e))
      → Ready C.decoding R pool
      → Leaves W
          (entry_body C.decoding disk e)
          (GivesBack C.decoding R)
          (fill-GivesBack C.decoding R disk e)
          sent
      → ReadyAfter (close C disk W e pool sent)
  close-Ready e pool (done buf s body) ready h = drop_body-Ready C.decoding R body pool h ready
  close-Ready e pool (Sending.failed buf body) ready h =
      drop_body-Ready C.decoding R body pool h ready
  close-Ready e pool out_of_fuel ready h = ready

  send_behind-Ready :
      (e : Entry) (native : Option NativeCoding) (pool : InflaterPool C.decoding.inflate)
      (s : W.State) (r : Option ℕ × Bytes)
      → Ready C.decoding R pool
      → After ReadyAfter (send_behind C disk W e native pool s r)
  send_behind-Ready e native pool s (none, buf) ready = ready
  send_behind-Ready e native pool s (some head_len, buf) ready =
      let made = new C.decoding C.features e native pool in
      let made_ready = new-Ready C.decoding R C.features e native pool ready in
      let B = entry_body C.decoding disk e in
      After->>= (Leaves W B (GivesBack C.decoding R) (fill-GivesBack C.decoding R disk e))
        ReadyAfter (send_body W B (suc (announced_length native e)) made.0 buf s head_len) _
        (send_body-Leaves W B (GivesBack C.decoding R) (fill-GivesBack C.decoding R disk e)
          (suc (announced_length native e)) made.0 buf s head_len made_ready.0)
        (λ sent. close-Ready e made.1 sent made_ready.1)

  answer-Ready :
      (pool : InflaterPool C.decoding.inflate) (run : Run (Answer W))
      → Ready C.decoding R pool
      → After ReadyAfter (do answer ← run; ret (answer, pool))
  answer-Ready pool run ready =
      After->>= (λ a. a ≡ a) ReadyAfter run _ (After-refl run) (λ a _. ready)

  serve_coded-Ready :
      (native : Option NativeCoding) (e : Entry) (pool : InflaterPool C.decoding.inflate)
      (buf : Bytes) (s : W.State)
      → Ready C.decoding R pool
      → After ReadyAfter (serve_coded C disk W native e pool buf s)
  serve_coded-Ready native e pool buf s ready =
      After-if ReadyAfter (is_none native && not (is_method_supported C.features e.method)) _ _
        (answer-Ready pool (serve_status W unsupported_compression buf s) ready)
        (send_behind-Ready e native pool s (write_entry_header C.formats buf e native) ready)

  serve_target-Ready :
      (target : Target Entry) (headers : Headers) (pool : InflaterPool C.decoding.inflate)
      (buf : Bytes) (s : W.State)
      → Ready C.decoding R pool
      → After ReadyAfter (serve_target C disk W target headers pool buf s)
  unfolding serve_target serve_entry
  serve_target-Ready (entry e) headers pool buf s ready =
      After-if ReadyAfter (names headers.if_none_match e.crc32) _ _
        (answer-Ready pool (serve_not_modified C.formats W e.crc32 buf s) ready)
        (serve_coded-Ready (accepted_coding (of e.method) headers.accepted_encodings) e pool buf s
          ready)
  serve_target-Ready (listing is_root children) headers pool buf s ready =
      After->>= (λ l. l ≡ l) ReadyAfter
        (serve_index C.encode_hex C.url_encode C.html_escape W is_root children buf s) _
        (After-refl (serve_index C.encode_hex C.url_encode C.html_escape W is_root children buf s))
        (λ l _. ready)
  serve_target-Ready (redirect name) headers pool buf s ready =
      answer-Ready pool (serve_redirect_into_dir W C.url_encode name buf s) ready

  serve_resolved-Ready :
      (headers : Headers) (pool : InflaterPool C.decoding.inflate) (buf : Bytes) (s : W.State)
      (target : Option (Target Entry))
      → Ready C.decoding R pool
      → After ReadyAfter (serve_resolved C disk W headers pool buf s target)
  serve_resolved-Ready headers pool buf s none ready =
      answer-Ready pool (serve_status W not_found buf s) ready
  serve_resolved-Ready headers pool buf s (some target) ready =
      serve_target-Ready target headers pool buf s ready

  pub respond-Ready :
      (request : Request) (tree : FsTreeNode Entry) (pool : InflaterPool C.decoding.inflate)
      (buf : Bytes) (s : W.State)
      → Ready C.decoding R pool
      → After ReadyAfter (respond C disk W request tree pool buf s)
  unfolding respond
  respond-Ready (get path_len headers) tree pool buf s ready =
      After-if ReadyAfter (ltb (length buf) path_len) panic _ tt (
        After->>= (λ t. t ≡ t) ReadyAfter (resolve_path C disk W tree (take path_len buf)) _
          (After-refl (resolve_path C disk W tree (take path_len buf)))
          (λ t _. serve_resolved-Ready headers pool buf s t ready))
  respond-Ready (bad status) tree pool buf s ready =
      answer-Ready pool (serve_status W status buf s) ready
