-- ===== src/Response/Serve/Tests.antt =====
-- Examples of the theorems on whole answers.
use zipring.Prelude.{
  List, After, ◌+◌, sym, ◌≡◌, ◌≢◌, ap, refl, none, some, true, false, [], ◌∷◌, ◌++◌, ret, length,
  replicate, arith,
}
use mathlib.Core.List.{Permᴰ}
use zipring.Prelude.Bytes.{Bytes, codes, split_on, eq_bytes}
use zipring.Prelude.Ascii.{eq_ignore_ascii_case}
use zipring.Prelude.Utf8.{is_utf8}
use zipring.Prelude.Bytes.{find_byte}
use zipring.Fstree.{
  find_named, FsTreeNode, dir, file, Children, nil, cons, entry, root, read_zip_tree, insert_all,
  insert, insert_at, insert_onto, recursive_sort, insert_sorted,
}
use zipring.Request.Parse.{Headers, Header, get, default_headers, extract_headers}
use zipring.Response.Entry.{Entry, is_method_supported, data_start}
use zipring.Response.Coding.{gzip, prefix, trailer, of, is_accepted_by}
use zipring.Response.Body.Native.Puts.{IsWithin}
use zipring.Fstree.Fresh.{is_free}
use zipring.Response.Body.Native.Whole.{stored}
use mathlib.Core.Option.{some-injective}
use zipring.Response.Body.Counts.{Appends, Sized}
use zipring.Response.Body.Decoded.{new}
use zipring.Response.Body.Decoded.Counting.{
  any_decoded_body, decoded_body-Counts, send_body-decoded_size,
}
use zipring.Response.Stream.{send_body}
use zipring.Response.Serve.Decision.{decision, perform, respond-eq-perform}
use zipring.Response.Head.{entry_header, entity_tag}
use zipring.Response.Listing.{index_header}
use zipring.Response.Listing.Chunked.{joined}
use zipring.Response.Listing.Texts.{Lists}
use zipring.Response.Listing.Page.{index_preamble, entry_text, serve_index}
use zipring.Response.Listing.Page.Lines.{lead_up, lines, dirs_and_files, serve_index-Lists}
use zipring.Response.NotModified.Sent.{not_modified_text}
use zipring.Response.Serve.{serve_entry, serve_target, respond}
use zipring.Response.Serve.Outcomes.{Answers}
use zipring.Response.Serve.Entries.{serve_entry-inflated, serve_entry-decoded}
use zipring.Response.Serve.Announced.{Announces, serve_entry-Announces}
use zipring.Response.Serve.Targets.{serve_target-entity_tag}
use zipring.Response.Serve.Archive.{respond-native}
use zipring.Response.Tests.{
  archive, entry_a, read_from-Holds, recorder, recorder-Accepts, hex_digits, hex_digits-IsHex,
  hex_decoders, hex-Inverse, archive-IsWithin,
}
use zipring.Response.Samples.{
  stored_fsm, read_some, crates, disk, inflated_entry, decoded_entry, accepts_gzip, accepts_nothing,
  copier-Inflates, copier-Starts, counter-Hashes, stored-Decodes,
}

abbrev gzip_headers : Headers
gzip_headers = record default_headers { accepted_encodings = accepts_gzip }

inflated-IsWithin : IsWithin archive inflated_entry
unfolding data_start
inflated-IsWithin = record { header_within = omega arith; data_within = omega arith }

nonempty : codes "a" ≢ []
nonempty h = absurd (let z : 1 ≡ 0 = ap length h in omega arith)

-- The path of the entry in front of the buffer.
abbrev path_a : Bytes
path_a = 97 ∷ replicate 399 0

respond-native_example :
    (tree : FsTreeNode Entry) × (read_zip_tree (λ x. x.name) ([] ++ (entry_a ∷ [])) ≡ ret tree)
    × Answers crates disk recorder path_a []
        (entry_header crates.formats entry_a (some gzip)
          ++ (prefix gzip ++ (stored archive entry_a ++ trailer gzip entry_a)))
        (respond crates disk recorder (get (length entry_a.name) gzip_headers) tree [] path_a [])
unfolding insert_all is_free find_named split_on is_utf8 of is_accepted_by entry_header
respond-native_example =
    respond-native crates disk recorder [] path_a [] [] [] entry_a root gzip_headers gzip archive
      (nonempty, tt) refl refl (omega arith) refl refl refl refl (read_from-Holds archive)
      archive-IsWithin recorder-Accepts (omega arith)

serve_entry-Announces_example :
    Answers crates disk recorder
      (replicate 400 0)
      []
      (entry_header crates.formats entry_a (some gzip)
        ++ (prefix gzip ++ (stored archive entry_a ++ trailer gzip entry_a)))
      (serve_entry crates disk recorder entry_a accepts_gzip [] (replicate 400 0) [])
    × Announces crates.formats
        (entry_header crates.formats entry_a (some gzip))
        (length (prefix gzip ++ (stored archive entry_a ++ trailer gzip entry_a)))
unfolding of is_accepted_by entry_header
serve_entry-Announces_example =
    serve_entry-Announces crates disk recorder entry_a recorder-Accepts accepts_gzip []
      (replicate 400 0) [] archive (read_from-Holds archive) archive-IsWithin gzip refl
      (omega arith)

serve_entry-inflated_example :
    Answers crates disk recorder
      (replicate 400 0)
      []
      (entry_header crates.formats inflated_entry none ++ stored archive inflated_entry)
      (serve_entry crates disk recorder inflated_entry accepts_nothing [] (replicate 400 0) [])
unfolding of is_accepted_by entry_header is_method_supported data_start
serve_entry-inflated_example =
    serve_entry-inflated crates disk recorder inflated_entry recorder-Accepts accepts_nothing []
      (replicate 400 0) [] archive (read_from-Holds archive) inflated-IsWithin
      (stored archive inflated_entry) (copier-Inflates (length (stored archive inflated_entry)))
      counter-Hashes (copier-Starts (stored archive inflated_entry)) refl refl tt refl refl refl
      (omega arith)

serve_entry-decoded_example :
    Answers crates disk recorder
      (replicate 400 0)
      []
      (entry_header crates.formats decoded_entry none ++ (7 ∷ 8 ∷ 9 ∷ []))
      (serve_entry crates disk recorder decoded_entry accepts_nothing [] (replicate 400 0) [])
unfolding of is_accepted_by entry_header is_method_supported
serve_entry-decoded_example =
    serve_entry-decoded crates disk recorder decoded_entry recorder-Accepts accepts_nothing []
      (replicate 400 0) [] (7 ∷ 8 ∷ 9 ∷ []) (stored-Decodes archive) (omega arith) refl refl refl
      refl refl (omega arith)

abbrev host : List Header
host = record { name = codes "Host"; value = codes "localhost" } ∷ []

abbrev closing : List Header
closing = record { name = codes "Connection"; value = codes "close" } ∷ []

serve_target-entity_tag_example :
    Answers crates disk recorder
      (replicate 400 0)
      []
      (not_modified_text crates.formats entry_a.crc32)
      (serve_target crates disk recorder
        (entry entry_a)
        (extract_headers hex_decoders (
          host
          ++ (record {
            name = codes "If-None-Match";
            value = entity_tag crates.formats entry_a.crc32;
          }
              ∷ closing)))
        []
        (replicate 400 0)
        [])
unfolding eq_ignore_ascii_case eq_bytes
serve_target-entity_tag_example =
    serve_target-entity_tag crates disk recorder recorder-Accepts [] (replicate 400 0) []
      hex_decoders entry_a (codes "If-None-Match") host closing hex-Inverse (omega arith) refl
      (refl, tt) (omega arith)

-- A file before a directory.
abbrev two_children : Children Entry
two_children = cons (file (codes "a") entry_a) (cons (dir (codes "d") nil false none) nil)

serve_index-Lists_example :
    Lists hex_digits hex_digits-IsHex recorder recorder-Accepts
      (replicate 700 0)
      ([] ++ index_header)
      ((index_preamble ++ lead_up true)
        ++ joined (dirs_and_files (λ name. name) (λ name. name) two_children))
      (serve_index hex_digits
        (λ name. name)
        (λ name. name)
        recorder
        true
        two_children
        (replicate 700 0)
        [])
    × Permᴰ
        (lines (λ name. name) (λ name. name) two_children)
        (dirs_and_files (λ name. name) (λ name. name) two_children)
unfolding index_preamble entry_text
serve_index-Lists_example =
    serve_index-Lists hex_digits hex_digits-IsHex (λ name. name) (λ name. name) recorder
      recorder-Accepts true two_children (replicate 700 0) [] 500 (omega arith) (omega arith)
      (omega arith, (omega arith, tt))

recorder-Appends : Appends recorder
recorder-Appends s s' bytes took = sym (some-injective (s ++ bytes) s' took)

send_body-decoded_size_example :
    After
      (Sized recorder recorder-Appends
        (any_decoded_body stored_fsm (read_some archive) 2)
        (decoded_body-Counts stored_fsm (read_some archive) 2)
        []
        (1 + decoded_entry.uncompressed_size))
      (send_body recorder
        (any_decoded_body stored_fsm (read_some archive) 2)
        4
        (new stored_fsm decoded_entry)
        (replicate 50 0)
        []
        1)
send_body-decoded_size_example =
    send_body-decoded_size stored_fsm (read_some archive) 2 4 decoded_entry recorder
      recorder-Appends (replicate 50 0) [] 1

-- The tree of an archive with one entry.
abbrev tree_a : FsTreeNode Entry
tree_a = dir [] (cons (file (codes "a") entry_a) nil) true none

tree_a_lem : read_zip_tree (λ e. e.name) (entry_a ∷ []) ≡ ret tree_a
unfolding read_zip_tree insert_all insert insert_at insert_onto split_on find_byte recursive_sort
    insert_sorted eq_bytes
tree_a_lem = refl

respond-eq-perform_example :
    respond crates disk recorder (get 1 gzip_headers) tree_a [] path_a []
    ≡ perform crates disk recorder [] path_a [] (decision crates tree_a path_a (get 1 gzip_headers))
respond-eq-perform_example =
    respond-eq-perform crates disk recorder [] path_a [] (entry_a ∷ []) tree_a (get 1 gzip_headers)
      tree_a_lem (omega arith)

-- A path without a node.
abbrev path_b : Bytes
path_b = 98 ∷ replicate 399 0
