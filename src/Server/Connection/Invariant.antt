-- ===== src/Server/Connection/Invariant.antt =====
-- On what a connection keeps, of the buffer and the inflaters, if parsing and answering keep it.
use zipring.Prelude.{
  ℕ, zero, suc, Bool, not, Option, none, some, length, After, After->>=, After-if,
}
use zipring.Prelude.Bytes.{Bytes}
use zipring.Fstree.{FsTreeNode}
use zipring.Request.Parse.{Decoders, Request, keep_alive, parse_raw}
use zipring.Request.Reader.{
  RequestReader, Next, next, no_fuel, next_request, with_capacity, request_buf_size, Search, search,
  after_search, slice,
}
use zipring.Request.Reader
use zipring.Response.Entry.{Entry}
use zipring.Response.Body.EntryBody.{Disk}
use zipring.Response.Body.Inflated.{InflaterPool}
use zipring.Response.Stream.{answered, failed}
use zipring.Response.Stream
use zipring.Response.Serve.{Crates, respond, Outcome}
use zipring.Server.Connection.{
  Link, Connection, ended, out_of_fuel, Loop, after_flush, after_answer, after_request, serve_loop,
}

module _ (ext : Decoders) (C : Crates) (disk : Disk) (L : Link) (tree : FsTreeNode Entry)
    (P : Bytes → InflaterPool C.decoding.inflate → Type 0) where
  open L use {reads, writes}

  abbrev pub AtEnd : Connection ext C disk L tree → Type 0
  AtEnd (ended buf pool) = P buf pool
  AtEnd out_of_fuel = Unit

  abbrev pub AfterAnswer : Outcome C disk writes → Type 0
  AfterAnswer (answered buf ws, pool) = P buf pool
  AfterAnswer (failed buf, pool) = P buf pool
  AfterAnswer (Stream.no_fuel, pool) = Unit

  abbrev AfterNext : InflaterPool C.decoding.inflate → Next reads → Type 0
  AfterNext pool (next request buf r rs) = P buf pool
  AfterNext pool no_fuel = Unit

  abbrev pub Keeps : Loop ext C disk L tree → Type 0
  Keeps again =
      (r : RequestReader) (rs : reads.State) (ws : writes.State) (buf : Bytes)
      (pool : InflaterPool C.decoding.inflate)
      → P buf pool
      → After AtEnd (again r rs ws buf pool)

  after_flush-Keeps :
      (again : Loop ext C disk L tree) (alive : Bool) (r : RequestReader) (rs : reads.State)
      (buf : Bytes) (pool : InflaterPool C.decoding.inflate) (ws : Option writes.State)
      → Keeps again
      → P buf pool
      → After AtEnd (after_flush ext C disk L tree again alive r rs buf pool ws)
  after_flush-Keeps again alive r rs buf pool none keeps h = h
  after_flush-Keeps again alive r rs buf pool (some ws) keeps h =
      After-if AtEnd (not alive) _ _ h (keeps r rs ws buf pool h)

  after_answer-Keeps :
      (again : Loop ext C disk L tree) (alive : Bool) (r : RequestReader) (rs : reads.State)
      (outcome : Outcome C disk writes)
      → Keeps again
      → AfterAnswer outcome
      → After AtEnd (after_answer ext C disk L tree again alive r rs outcome)
  after_answer-Keeps again alive r rs (answered buf ws, pool) keeps h =
      after_flush-Keeps again alive r rs buf pool (L.flush ws) keeps h
  after_answer-Keeps again alive r rs (failed buf, pool) keeps h = h
  after_answer-Keeps again alive r rs (Stream.no_fuel, pool) keeps h = tt

  module _
      (parses : (raw buf : Bytes) (pool : InflaterPool C.decoding.inflate)
        → P buf pool
        → P (parse_raw ext raw buf).1 pool)
      (responds : (request : Request) (buf : Bytes) (pool : InflaterPool C.decoding.inflate)
          (ws : writes.State)
        → P buf pool
        → After AfterAnswer (respond C disk writes request tree pool buf ws)) where
    after_search-Keeps :
        (buf : Bytes) (pool : InflaterPool C.decoding.inflate) (found : Search reads)
        → P buf pool
        → AfterNext pool (after_search reads ext buf found)
    after_search-Keeps buf pool (Reader.found end r s) h =
        parses (slice r.consumed end r.buf) buf pool h
    after_search-Keeps buf pool (Reader.ended r s) h = h
    after_search-Keeps buf pool (Reader.failed r s) h = h
    after_search-Keeps buf pool Reader.out_of_fuel h = tt

    next_request-Keeps :
        (r : RequestReader) (rs : reads.State) (buf : Bytes)
        (pool : InflaterPool C.decoding.inflate)
        → P buf pool
        → AfterNext pool (next_request reads ext r rs buf)
    unfolding next_request
    next_request-Keeps r rs buf pool =
        after_search-Keeps buf pool (search reads (suc (length r.buf)) r r.consumed rs)

    after_request-Keeps :
        (again : Loop ext C disk L tree) (ws : writes.State)
        (pool : InflaterPool C.decoding.inflate) (request : Next reads)
        → Keeps again
        → AfterNext pool request
        → After AtEnd (after_request ext C disk L tree again ws pool request)
    after_request-Keeps again ws pool (next none buf r rs) keeps h = h
    after_request-Keeps again ws pool (next (some none) buf r rs) keeps h = h
    after_request-Keeps again ws pool (next (some (some request)) buf r rs) keeps h =
        After->>= AfterAnswer AtEnd (respond C disk writes request tree pool buf ws) _
          (responds request buf pool ws h)
          (λ outcome. after_answer-Keeps again (keep_alive request) r rs outcome keeps)
    after_request-Keeps again ws pool no_fuel keeps h = tt

    pub serve_loop-Keeps : (fuel : ℕ) → Keeps (serve_loop ext C disk L tree fuel)
    unfolding serve_loop
    serve_loop-Keeps zero r rs ws buf pool h = tt
    serve_loop-Keeps (suc fuel) r rs ws buf pool h =
        after_request-Keeps (serve_loop ext C disk L tree fuel) ws pool
          (next_request reads ext r rs buf) (serve_loop-Keeps fuel)
          (next_request-Keeps r rs buf pool h)
