-- ===== src/Response/Serve/Archive.antt =====
-- A request for a file of the archive, from the tree to the last byte on the wire.
use zipring.Prelude.{
  ◌+◌, ◌≤◌, ◌≡◌, true, false, some, List, ◌∷◌, ◌++◌, ret, length, take, ltb-eq-false,
}
use zipring.Prelude.Bytes.{Bytes, split_on}
use zipring.Prelude.Utf8.{is_utf8}
use zipring.Fstree.{FsTreeNode, entry, resolve, root, read_zip_tree, insert_all}
use zipring.Fstree.Fresh.{IsPlain, is_free}
use zipring.Fstree.Archive.{resolve-read_zip_tree_of_entry}
use zipring.Request.Parse.{get, Headers}
use zipring.Response.Entry.{Entry}
use zipring.Response.Coding.{NativeCoding, of, prefix, trailer}
use zipring.Response.Body.Native.Puts.{Holds, IsWithin}
use zipring.Response.Body.Native.Whole.{stored}
use zipring.Response.Body.EntryBody.{Disk}
use zipring.Response.Body.Inflated.{InflaterPool}
use zipring.Response.Stream.{Writer, Accepts}
use zipring.Response.Head.{entry_header}
use zipring.Response.Serve.{Crates, names, accepted_coding, serve_entry, respond, serve_target}
use zipring.Response.Serve.Outcomes.{Answers}
use zipring.Response.Serve.Entries.{serve_entry-native}

module _ (C : Crates) (disk : Disk) (W : Writer) (pool : InflaterPool C.decoding.inflate)
    (buf : Bytes) (s : W.State) where
  respond-entry :
      (tree : FsTreeNode Entry) (e : Entry) (path bytes : Bytes) (headers : Headers)
      → length path ≤ length buf
      → take (length path) buf ≡ path
      → is_utf8 path ≡ true
      → resolve tree path ≡ ret (some (entry e))
      → names headers.if_none_match e.crc32 ≡ false
      → Answers C disk W buf s bytes (serve_entry C disk W e headers.accepted_encodings pool buf s)
      → Answers C disk W buf s bytes (respond C disk W (get (length path) headers) tree pool buf s)
  unfolding respond serve_target
  respond-entry tree e path bytes headers fits front utf8 resolved other answers =
      rw (ltb-eq-false (length buf) (length path) fits, front, utf8, resolved, other) answers

  -- On an archive that can be read and a stream that takes its writes: the tree that is built from the
  -- archive's entries answers a request for the name of one of them, with the path in front of the
  -- buffer, with that entry's header, the prefix of its native coding, its stored bytes and the trailer.
  -- The name has no empty segment and is UTF-8, the entries before it left the path free, the request
  -- accepts the native coding and does not name the entry's checksum, and there are 40 bytes of room
  -- behind the header.
  pub respond-native :
      (before after : List Entry) (e : Entry) (t : FsTreeNode Entry) (headers : Headers)
      (native : NativeCoding) (contents : Bytes)
      → IsPlain e.name
      → insert_all (λ x. x.name) root before ≡ ret t
      → is_free t (split_on b'/' e.name) ≡ true
      → length e.name ≤ length buf
      → take (length e.name) buf ≡ e.name
      → is_utf8 e.name ≡ true
      → names headers.if_none_match e.crc32 ≡ false
      → accepted_coding (of e.method) headers.accepted_encodings ≡ some native
      → Holds disk.read_exact_at contents
      → IsWithin contents e
      → Accepts W
      → length (entry_header C.formats e (some native)) + 40 ≤ length buf
      → (tree : FsTreeNode Entry) × (read_zip_tree (λ x. x.name) (before ++ (e ∷ after)) ≡ ret tree)
        × Answers C disk W buf s
            (entry_header C.formats e (some native)
              ++ (prefix native ++ (stored contents e ++ trailer native e)))
            (respond C disk W (get (length e.name) headers) tree pool buf s)
  respond-native before after e t headers native contents plain done free fits front utf8 other
        coding holds w accepts room =
      let (tree, built, resolved) =
        resolve-read_zip_tree_of_entry (λ x. x.name) before after e t plain done free in
      let bytes =
        entry_header C.formats e (some native)
        ++ (prefix native ++ (stored contents e ++ trailer native e)) in
      (
        tree,
        built,
        respond-entry tree e e.name bytes headers fits front utf8 resolved other (
            serve_entry-native C disk W e accepts headers.accepted_encodings pool buf s contents
              holds w native coding room),
      )
