-- ===== src/Response/Serve/Decision.antt =====
-- Which answer `respond` gives to a request, on the tree of an archive.
use zipring.Prelude.{
  ℕ, ◌≤◌, ◌≡◌, refl, sym, ap, ◌∙◌, Bool-cases, inl, inr, Bool, Option, none, some, Run, ret,
  ret-injective, ◌>>=◌, length, take, List, ltb-eq-false, subst, if◌then◌else◌,
}
use mathlib.Core.Option
use zipring.Prelude.Bytes.{Bytes}
use zipring.Prelude.Utf8.{is_utf8}
use zipring.Fstree.{
  FsTreeNode, Children, Target, entry, listing, redirect, resolve, read_zip_tree, find,
}
use zipring.Fstree.Walk.{walk, segments, find-eq-walk}
use zipring.Fstree.Settled.{answer}
use zipring.Fstree.Archive.{resolve-read_zip_tree}
use zipring.Request.Parse.{Request, get, bad, Headers}
use zipring.Response.Status.{HttpStatus, not_found, unsupported_compression}
use zipring.Response.Entry.{Entry, is_method_supported}
use zipring.Response.Coding.{NativeCoding, of}
use zipring.Response.Body.EntryBody.{Disk}
use zipring.Response.Body.Inflated.{InflaterPool}
use zipring.Response.Stream.{Writer}
use zipring.Response.Head.{write_entry_header}
use zipring.Response.Listing.Page.{serve_index}
use zipring.Response.Replies.{serve_status, serve_redirect_into_dir}
use zipring.Response.NotModified.{serve_not_modified}
use zipring.Response.Serve.{
  Crates, Outcome, names, accepted_coding, listing_answer, send_behind, serve_coded, serve_entry,
  serve_resolved, serve_target, respond,
}

pub data Decision : Type 0 where
  status_alone : HttpStatus → Decision
  not_modified : ℕ → Decision
  content : Entry → Option NativeCoding → Decision
  page : Bool → Children Entry → Decision
  moved : Bytes → Decision

module _ (C : Crates) where
  -- A coding that is accepted comes first, then a decoder.
  abbrev pub coded_decision : Entry → Option NativeCoding → Decision
  coded_decision e (some native) = content e (some native)
  coded_decision e none =
      if is_method_supported C.features e.method
      then content e none
      else status_alone unsupported_compression

  abbrev pub target_decision : Headers → Target Entry → Decision
  target_decision headers (entry e) =
      if names headers.if_none_match e.crc32
      then not_modified e.crc32
      else coded_decision e (accepted_coding (of e.method) headers.accepted_encodings)
  target_decision headers (listing is_root children) = page is_root children
  target_decision headers (redirect name) = moved name

  abbrev pub node_decision : Headers → Bytes → Option (FsTreeNode Entry) → Decision
  node_decision headers path none = status_alone not_found
  node_decision headers path (some node) = target_decision headers (answer path node)

  -- The node is that at the end of the walk along the path's segments.
  abbrev pub decision : FsTreeNode Entry → Bytes → Request → Decision
  decision tree buf (bad status) = status_alone status
  decision tree buf (get path_len headers) =
      let path = take path_len buf in
      if is_utf8 path
      then node_decision headers path (walk tree (segments path))
      else status_alone not_found

abbrev pub Fitting : Bytes → Request → Type 0
Fitting buf (bad status) = Unit
Fitting buf (get path_len headers) = path_len ≤ length buf

module _ (C : Crates) (disk : Disk) (W : Writer) (pool : InflaterPool C.decoding.inflate)
    (buf : Bytes) (s : W.State) where
  -- The operation that gives an answer.
  abbrev pub perform : Decision → Run (Outcome C disk W)
  perform (status_alone status) = do answer ← serve_status W status buf s; ret (answer, pool)
  perform (not_modified crc32) = do
    answer ← serve_not_modified C.formats W crc32 buf s
    ret (answer, pool)
  perform (content e native) =
      send_behind C disk W e native pool s (write_entry_header C.formats buf e native)
  perform (page is_root children) = do
    sent ← serve_index C.encode_hex C.url_encode C.html_escape W is_root children buf s
    ret (listing_answer C disk W sent, pool)
  perform (moved name) = do
    answer ← serve_redirect_into_dir W C.url_encode name buf s
    ret (answer, pool)

  serve_coded-eq-perform :
      (e : Entry) (native : Option NativeCoding)
      → serve_coded C disk W native e pool buf s ≡ perform (coded_decision C e native)
  serve_coded-eq-perform e (some native) = refl
  serve_coded-eq-perform e none = elim (Bool-cases (is_method_supported C.features e.method)) [
    | inl h ↦ rw h refl
    | inr h ↦ rw h refl
  ]

  serve_target-eq-perform :
      (headers : Headers) (target : Target Entry)
      → serve_target C disk W target headers pool buf s ≡ perform (target_decision C headers target)
  unfolding serve_target serve_entry
  serve_target-eq-perform headers (entry e) =
      elim (Bool-cases (names headers.if_none_match e.crc32)) [
        | inl h ↦ rw h refl
        | inr h ↦
            rw h
              (serve_coded-eq-perform e (accepted_coding (of e.method) headers.accepted_encodings))
      ]
  serve_target-eq-perform headers (listing is_root children) = refl
  serve_target-eq-perform headers (redirect name) = refl

  serve_resolved-eq-perform :
      (headers : Headers) (path : Bytes) (node : Option (FsTreeNode Entry))
      → serve_resolved C disk W headers pool buf s (Option.map (answer path) node)
        ≡ perform (node_decision C headers path node)
  serve_resolved-eq-perform headers path none = refl
  serve_resolved-eq-perform headers path (some node) =
      serve_target-eq-perform headers (answer path node)

  resolve-walk :
      (entries : List Entry) (tree : FsTreeNode Entry) (path : Bytes)
      → read_zip_tree (λ e. e.name) entries ≡ ret tree
      → resolve tree path ≡ ret (Option.map (answer path) (walk tree (segments path)))
  resolve-walk entries tree path built =
      let (tree', built', sorted, resolves) = resolve-read_zip_tree (λ e. e.name) entries path in
      let same : tree' ≡ tree = ret-injective tree' tree (sym built' ∙ built) in
      subst (λ t. resolve t path ≡ ret (Option.map (answer path) (find t path))) same resolves
      ∙ ap (λ o. ret (Option.map (answer path) o)) (find-eq-walk tree path)

  -- On the tree of an archive, and with a path that fits the buffer, `respond` does what the request,
  -- the node at the end of a walk along the path's segments and the entry's method decide. A refused
  -- request gets its status. A path that is not UTF-8 or leads to no node gets 404. An entry, also that
  -- of a directory's index.html, gets 304 where its tag is named, else its content in its native coding
  -- where that is accepted, else decoded where its method has a decoder, and else 500. A directory whose
  -- first child of that name is no file, or is missing, gets its page, and one that is asked for without
  -- the slash, and is not the root, a redirect into it.
  pub respond-eq-perform :
      (entries : List Entry) (tree : FsTreeNode Entry) (request : Request)
      → read_zip_tree (λ e. e.name) entries ≡ ret tree
      → Fitting buf request
      → respond C disk W request tree pool buf s ≡ perform (decision C tree buf request)
  unfolding respond
  respond-eq-perform entries tree (bad status) built fits = refl
  respond-eq-perform entries tree (get path_len headers) built fits =
      let path = take path_len buf in
      rw (ltb-eq-false (length buf) path_len fits) (elim (Bool-cases (is_utf8 path)) [
        | inr h ↦ rw h refl
        | inl h ↦
            rw (h, resolve-walk entries tree path built)
              (serve_resolved-eq-perform headers path (walk tree (segments path)))
      ])
