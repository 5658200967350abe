-- ===== src/Server/Connection.antt =====
-- `serve` of src/main.rs: the requests of one connection, one after the other.
pub mod Invariant
pub mod Kept
pub mod Reused
use zipring.Prelude.{
  ℕ, zero, suc, Bool, true, false, not, Option, none, some, List, Run, panic, ret, ◌>>=◌, length,
  if◌then◌else◌,
}
use zipring.Prelude.Bytes.{Bytes}
use zipring.Fstree.{FsTreeNode}
use zipring.Request.Parse.{Decoders, Request, keep_alive}
use zipring.Request.Reader.{
  RequestReader, Stream, Next, next, no_fuel, next_request, with_capacity, request_buf_size,
}
use zipring.Response.Entry.{Entry}
use zipring.Response.Body.EntryBody.{Disk}
use zipring.Response.Body.Inflated.{InflaterPool}
use zipring.Response.Stream.{Writer, Answer, answered, failed}
use zipring.Response.Stream
use zipring.Response.Serve.{Crates, respond, Outcome}
use zipring.Server.Buffers.{BufPool, take_buf, return_buf}

-- The two halves of a connection; `flush` is `none` for an I/O error.
pub record Link : Type 1 where
  pub reads : Stream
  pub writes : Writer
  pub flush : writes.State → Option writes.State

module _ (ext : Decoders) (C : Crates) (disk : Disk) (L : Link) (tree : FsTreeNode Entry) where
  open L use {reads, writes}

  -- How the loop ends: it breaks, with the buffer and the inflaters, or its fuel is out.
  pub data Connection : Type 0 where
    ended : Bytes → InflaterPool C.decoding.inflate → Connection
    out_of_fuel : Connection

  -- The rest of the loop, on a reader, the stream it reads, the one it answers on, the buffer and the
  -- inflaters.
  abbrev pub Loop : Type 0
  Loop =
      RequestReader
      → reads.State
      → writes.State
      → Bytes
      → InflaterPool C.decoding.inflate
      → Run Connection

  abbrev pub after_flush :
      Loop
      → Bool
      → RequestReader
      → reads.State
      → Bytes
      → InflaterPool C.decoding.inflate
      → Option writes.State
      → Run Connection
  after_flush again alive r rs buf pool none = ret (ended buf pool)
  after_flush again alive r rs buf pool (some ws) =
      if not alive then ret (ended buf pool) else again r rs ws buf pool

  abbrev pub after_answer :
      Loop → Bool → RequestReader → reads.State → Outcome C disk writes → Run Connection
  after_answer again alive r rs (answered buf ws, pool) =
      after_flush again alive r rs buf pool (L.flush ws)
  after_answer again alive r rs (failed buf, pool) = ret (ended buf pool)
  after_answer again alive r rs (Stream.no_fuel, pool) = ret out_of_fuel

  abbrev pub after_request :
      Loop → writes.State → InflaterPool C.decoding.inflate → Next reads → Run Connection
  after_request again ws pool (next none buf r rs) = ret (ended buf pool)
  after_request again ws pool (next (some none) buf r rs) = ret (ended buf pool)
  after_request again ws pool (next (some (some request)) buf r rs) = do
    outcome ← respond C disk writes request tree pool buf ws
    after_answer again (keep_alive request) r rs outcome
  after_request again ws pool no_fuel = ret out_of_fuel

  -- The loop of `serve`, on fuel for its rounds.
  unfoldable pub serve_loop : ℕ → Loop
  unfolding next_request respond keep_alive
  serve_loop zero r rs ws buf pool = ret out_of_fuel
  serve_loop (suc fuel) r rs ws buf pool =
      after_request (serve_loop fuel) ws pool (next_request reads ext r rs buf)

  -- What is left in the pools of the thread.
  pub data Served : Type 0 where
    served : BufPool → InflaterPool C.decoding.inflate → Served
    unserved : Served

  abbrev pub give_up : BufPool → Connection → Run Served
  give_up bufs (ended buf pool) = do bufs' ← return_buf buf bufs; ret (served bufs' pool)
  give_up bufs out_of_fuel = ret unserved

  unfoldable pub serve :
      ℕ → reads.State → writes.State → BufPool → InflaterPool C.decoding.inflate → Run Served
  unfolding serve_loop take_buf return_buf
  serve fuel rs ws bufs pool =
      let taken = take_buf bufs in
      serve_loop fuel (with_capacity request_buf_size) rs ws taken.0 pool >>= give_up taken.1
