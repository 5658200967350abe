-- ===== src/Lib.antt =====
-- zipring: a web server that serves files directly from a ZIP archive.
--
-- The program. `read_zip_tree` (src/main.rs) reads an archive's entries into a directory tree
-- (src/fstree.rs). `serve` (src/main.rs) takes a buffer from the thread's pool and answers the requests
-- of a connection: its `RequestReader` (src/request/mod.rs) cuts the connection's bytes into requests
-- and parses them, and `respond` (src/response/mod.rs) asks the tree for the path, which answers with an
-- entry, a listing or a redirect. src/response/stream.rs sends the answer from the one buffer: an entry
-- as its bytes stand in the archive, with the framing of gzip where they are deflated, or inflated, or
-- decoded (src/response/body.rs), a listing in chunks, or an answer without a body.
--
-- The files.
--   Prelude        lists, bytes and tests on the native numbers; `Run`, a result or a panic, and
--                  `After`, what holds of the result
--   Fstree         src/fstree.rs: `FsTreeNode`, `insert_at`, `find`, `resolve`, `recursive_sort`, and
--                  the loop of `read_zip_tree` in src/main.rs. Below it, Walk is on `find`, Insert and
--                  Fresh on `insert_at`, Sort, Index and Settled on `recursive_sort` and `resolve`,
--                  Archive on a whole archive
--   Request        src/request/mod.rs: Encodings has `EncodingVerdicts`, Parse has `parse_raw` with
--                  `try_parse_http`, `extract_headers` and `decode_path`, Reader has
--                  `RequestReader` with `fill`, `find_headers_end` and `next_request`
--   Archive        `read_zip_from_file` of src/rc_zip_compio.rs, and `read_zip_tree` of src/main.rs with it
--   Response       src/response/: Status has `HttpStatus`, Entry has the rest of
--                  src/rc_zip_compio.rs, Coding has `NativeCoding`. Body.Native has `NativeBody`, Body.Inflated has `InflaterPool` and
--                  `InflatedBody`, Body.Decoded has `DecodedBody`, and Body.EntryBody has `EntryBody`.
--                  Stream has `send_body`, Head has `write_entry_header`, Listing has the chunks of `serve_index` and Listing.Page its
--                  texts, Replies has `serve_status` and `serve_redirect_into_dir`, NotModified has
--                  `serve_not_modified`, and Serve has `serve_entry`, `serve_target` and `respond`.
--                  Below Serve, Outcomes, Entries, Announced, Targets, Decision, Errors and Archive
--                  are on whole answers, Inflaters is on the pool of inflaters. Keeps is on the buffer's length. Samples has what the examples run on
--   Server         src/main.rs: Buffers has the pool of buffers, Settings has `UringFlags`, the port and
--                  the number of threads, Connection has `serve`
-- Response.Body.Contract is the interface between a body and `send_body`: `fill` gives the next bytes
-- and gives none only at the end. The three bodies fill it, each in a file Filling or Whole, and
-- Response.Stream uses it. What a body relies on of its decoder stands in a file Laws.
--
-- How the code is modelled. A byte is a number, as is a size; sizes do not overflow, and where the
-- code subtracts, the model's subtraction stops at 0. A `&mut` argument is an argument and a result. An
-- index out of range and a failing `expect` are `panic`; an error of input or output is `none`, or a
-- constructor of the operation's outcome. A mutable buffer is a list of bytes whose length is the
-- buffer's. A loop or a recursion that is not on a part of its argument is on fuel: `insert_at` and
-- `find` have one more than the path's length, as each call takes a separator off; the loop of
-- `next_request` has one more than the buffer's length, as each read fills in a byte;
-- `append_fmt_chunked` has 2, as after a flush the chunk is empty; `send_body` takes its fuel, and one
-- more than the body's length is enough. A decoder may take any number of calls before it gives
-- anything: `rounds` bounds them, and beyond it the model of `fill` is `panic`. The loop of
-- `read_zip_from_file` has the fuel for the turns of the archive's machine. The loop of `serve` takes
-- its fuel, and what is said of it holds with any. The pools of buffers and of inflaters, which the
-- connections of a thread share, are passed through the operations of one connection.
--
-- Parameters. httparse, percent_encoding, v_htmlescape, mime_guess, itoa and const_hex are functions
-- that the operations take; rc_zip's `EntryFsm` and `ArchiveFsm`, sirocco's decoder and crc32fast's checksum are records
-- of functions; the connection is a stream that reads and a stream that takes writes; the archive is
-- `read_exact_at` and `read_at`, and the settings are the values of the environment.
-- Theorems that need more of them say so in a hypothesis: a write that is taken whole, a file that
-- holds its bytes, two hexadecimal digits for a byte, a decoder that gives the content.
--
-- Not modelled. Tracing, debug assertions and the `Debug` printer are diagnostic output. Sockets,
-- threads, signals, the ring, the arguments of the program and the shutdown of a connection are the
-- runtime's.
pub mod Prelude
pub mod Fstree
pub mod Request
pub mod Response
pub mod Archive
pub mod Server
