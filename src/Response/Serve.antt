-- ===== src/Response/Serve.antt =====
-- From a request to its answer: `respond` (src/response/mod.rs), and `serve_target` and `serve_entry`
-- (src/response/stream.rs).
pub mod Outcomes
pub mod Entries
pub mod Announced
pub mod Targets
pub mod Archive
pub mod Inflaters
pub mod Decision
pub mod Errors
mod Tests
use mathlib.Core.Option
use zipring.Prelude.{
  ℕ, suc, Bool, true, false, not, ◌&&◌, Option, none, some, Run, panic, ret, ◌>>=◌, length, take,
  ltb, if◌then◌else◌, ◌==◌,
}
use zipring.Prelude.Bytes.{Bytes}
use zipring.Prelude.Utf8.{is_utf8}
use zipring.Fstree.{FsTreeNode, Target, entry, listing, redirect, resolve}
use zipring.Request.Encodings.{AcceptedEncodings}
use zipring.Request.Parse.{Request, get, bad, Headers}
use zipring.Response.Status.{HttpStatus, not_found, unsupported_compression}
use zipring.Response.Entry.{Entry, Features, is_method_supported}
use zipring.Response.Coding.{NativeCoding, of, is_accepted_by}
use zipring.Response.Body.EntryBody.{Decoding, Disk, EntryBody, new, drop_body, entry_body}
use zipring.Response.Body.Inflated.{InflaterPool}
use zipring.Response.Stream.{
  Writer, Answer, answered, failed, no_fuel, Sending, done, out_of_fuel, send_body,
}
use zipring.Response.Stream
use zipring.Response.Head.{Formats, announced_length, write_entry_header}
use zipring.Response.Listing.{Listing}
use zipring.Response.Listing
use zipring.Response.Listing.Page.{serve_index}
use zipring.Response.Replies.{serve_status, serve_redirect_into_dir}
use zipring.Response.NotModified.{serve_not_modified}

-- The crates that write headers, texts and numbers, the decoders, and the features of the build.
pub record Crates : Type 1 where
  pub formats : Formats
  pub encode_hex : Bytes → Bytes
  pub url_encode : Bytes → Bytes
  pub html_escape : Bytes → Bytes
  pub decoding : Decoding
  pub features : Features

abbrev pub is_none {ℓ} : {A : Type ℓ} → Option A → Bool
is_none none = true
is_none (some _) = false

-- `NativeCoding::of(entry.method).filter(…)`
abbrev pub accepted_coding : Option NativeCoding → AcceptedEncodings → Option NativeCoding
accepted_coding none accepted = none
accepted_coding (some native) accepted =
    if is_accepted_by native accepted then some native else none

-- `headers.if_none_match == Some(crc32)`
abbrev pub names : Option ℕ → ℕ → Bool
names none crc32 = false
names (some tag) crc32 = tag == crc32

module _ (C : Crates) (disk : Disk) (W : Writer) where
  -- An answer, with the inflaters that the pool has then.
  abbrev pub Outcome : Type 0
  Outcome = Answer W × InflaterPool C.decoding.inflate

  abbrev pub listing_answer : Listing C.encode_hex W → Answer W
  listing_answer (Listing.pending chunk buf s) = answered buf s
  listing_answer (Listing.failed buf) = failed buf
  listing_answer Listing.out_of_fuel = no_fuel

  -- The end of `send_body`, where the body is dropped.
  abbrev pub close :
      (e : Entry)
      → InflaterPool C.decoding.inflate
      → Sending W (entry_body C.decoding disk e)
      → Outcome
  close e pool (done buf s body) = (answered buf s, drop_body C.decoding body pool)
  close e pool (Sending.failed buf body) = (failed buf, drop_body C.decoding body pool)
  close e pool out_of_fuel = (no_fuel, pool)

  abbrev pub send_behind :
      (e : Entry)
      → Option NativeCoding
      → InflaterPool C.decoding.inflate
      → W.State
      → Option ℕ × Bytes
      → Run Outcome
  send_behind e native pool s (none, buf) = ret (failed buf, pool)
  send_behind e native pool s (some head_len, buf) =
      let made = new C.decoding C.features e native pool in
      do
        sent ←
            send_body W (entry_body C.decoding disk e) (suc (announced_length native e)) made.0 buf
              s head_len
        ret (close e made.1 sent)

  -- Behind the choice of the coding.
  abbrev pub serve_coded :
      Option NativeCoding → Entry → InflaterPool C.decoding.inflate → Bytes → W.State → Run Outcome
  serve_coded native e pool buf s =
      if is_none native && not (is_method_supported C.features e.method)
      then (do answer ← serve_status W unsupported_compression buf s; ret (answer, pool))
      else send_behind e native pool s (write_entry_header C.formats buf e native)

  unfoldable pub serve_entry :
      Entry → AcceptedEncodings → InflaterPool C.decoding.inflate → Bytes → W.State → Run Outcome
  unfolding serve_status write_entry_header send_body new drop_body
  serve_entry e accepted = serve_coded (accepted_coding (of e.method) accepted) e

  unfoldable pub serve_target :
      Target Entry → Headers → InflaterPool C.decoding.inflate → Bytes → W.State → Run Outcome
  unfolding serve_entry serve_not_modified serve_index serve_redirect_into_dir
  serve_target (entry e) headers pool buf s =
      if names headers.if_none_match e.crc32
      then (do answer ← serve_not_modified C.formats W e.crc32 buf s; ret (answer, pool))
      else serve_entry e headers.accepted_encodings pool buf s
  serve_target (listing is_root children) headers pool buf s = do
    sent ← serve_index C.encode_hex C.url_encode C.html_escape W is_root children buf s
    ret (listing_answer sent, pool)
  serve_target (redirect name) headers pool buf s = do
    answer ← serve_redirect_into_dir W C.url_encode name buf s
    ret (answer, pool)

  abbrev pub serve_resolved :
      Headers
      → InflaterPool C.decoding.inflate
      → Bytes
      → W.State
      → Option (Target Entry)
      → Run Outcome
  serve_resolved headers pool buf s none = do
    answer ← serve_status W not_found buf s
    ret (answer, pool)
  serve_resolved headers pool buf s (some target) = serve_target target headers pool buf s

  -- `str::from_utf8(…)` and `tree.resolve(path)`
  abbrev pub resolve_path : FsTreeNode Entry → Bytes → Run (Option (Target Entry))
  resolve_path tree path = if is_utf8 path then resolve tree path else ret none

  -- `&buf[..path_len]` panics out of range.
  unfoldable pub respond :
      Request → FsTreeNode Entry → InflaterPool C.decoding.inflate → Bytes → W.State → Run Outcome
  unfolding serve_status serve_target resolve
  respond (get path_len headers) tree pool buf s =
      if ltb (length buf) path_len
      then panic
      else resolve_path tree (take path_len buf) >>= serve_resolved headers pool buf s
  respond (bad status) tree pool buf s = do answer ← serve_status W status buf s; ret (answer, pool)
