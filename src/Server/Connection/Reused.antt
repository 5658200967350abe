-- ===== src/Server/Connection/Reused.antt =====
-- On the inflaters that a connection leaves in the pool.
use zipring.Prelude.{ℕ, ◌≡◌, After, After-refl, After-map, After->>=}
use zipring.Prelude.Bytes.{Bytes}
use zipring.Fstree.{FsTreeNode}
use zipring.Request.Parse.{Decoders}
use zipring.Request.Reader.{with_capacity, request_buf_size}
use zipring.Response.Entry.{Entry}
use zipring.Response.Body.EntryBody.{Disk}
use zipring.Response.Body.Inflated.{InflaterPool}
use zipring.Response.Stream.{answered, failed}
use zipring.Response.Stream
use zipring.Response.Serve.{Crates, respond, Outcome}
use zipring.Server.Buffers.{BufPool, take_buf, return_buf}
use zipring.Server.Connection.{
  Link, Connection, ended, out_of_fuel, Served, served, unserved, give_up, serve_loop, serve,
}
use zipring.Server.Connection.Invariant.{AtEnd, AfterAnswer, Keeps, serve_loop-Keeps}
use zipring.Response.Body.Inflated.Pool.{Resets}
use zipring.Response.Serve.Inflaters.{Ready, ReadyAfter, respond-Ready}

module _ (ext : Decoders) (C : Crates) (disk : Disk) (L : Link) (tree : FsTreeNode Entry)
    (R : Resets C.decoding.inflate) where
  open L use {reads, writes}

  abbrev ReadyWith : Bytes → InflaterPool C.decoding.inflate → Type 0
  ReadyWith buf pool = Ready C.decoding R pool

  outcome-Ready :
      (outcome : Outcome C disk writes)
      → ReadyAfter C R disk writes outcome
      → AfterAnswer ext C disk L tree ReadyWith outcome
  outcome-Ready (answered buf ws, pool) h = h
  outcome-Ready (failed buf, pool) h = h
  outcome-Ready (Stream.no_fuel, pool) h = tt

  serve_loop-Ready :
      (fuel : ℕ) → Keeps ext C disk L tree ReadyWith (serve_loop ext C disk L tree fuel)
  serve_loop-Ready =
      serve_loop-Keeps ext C disk L tree ReadyWith (λ raw buf pool ready. ready)
        (λ request buf pool ws ready.
          After-map (ReadyAfter C R disk writes) (AfterAnswer ext C disk L tree ReadyWith)
            (respond C disk writes request tree pool buf ws)
            (respond-Ready C R disk writes request tree pool buf ws ready) outcome-Ready)

  -- Of what a connection leaves.
  abbrev pub LeavesReady : Served ext C disk L tree → Type 0
  LeavesReady (served bufs pool) = Ready C.decoding R pool
  LeavesReady unserved = Unit

  give_up-LeavesReady :
      (bufs : BufPool) (end : Connection ext C disk L tree)
      → AtEnd ext C disk L tree ReadyWith end
      → After LeavesReady (give_up ext C disk L tree bufs end)
  give_up-LeavesReady bufs (ended buf pool) h =
      After->>= (λ b. b ≡ b) LeavesReady (return_buf buf bufs) _ (After-refl (return_buf buf bufs))
        (λ b _. h)
  give_up-LeavesReady bufs out_of_fuel h = tt

  -- Whatever a connection's stream, requests and archive do, and wherever an answer breaks off: the
  -- inflaters that it leaves in the pool were all reset, and have a window and an input buffer of their
  -- sizes, if those it found there had. The decoder, once reset, is as if new, and does not change the
  -- length of its window.
  pub serve-LeavesReady :
      (fuel : ℕ) (rs : reads.State) (ws : writes.State) (bufs : BufPool)
      (pool : InflaterPool C.decoding.inflate)
      → Ready C.decoding R pool
      → After LeavesReady (serve ext C disk L tree fuel rs ws bufs pool)
  unfolding serve
  serve-LeavesReady fuel rs ws bufs pool ready =
      After->>= (AtEnd ext C disk L tree ReadyWith) LeavesReady
        (serve_loop ext C disk L tree fuel (with_capacity request_buf_size) rs ws (take_buf bufs).0
          pool)
        (give_up ext C disk L tree (take_buf bufs).1)
        (serve_loop-Ready fuel (with_capacity request_buf_size) rs ws (take_buf bufs).0 pool ready)
        (give_up-LeavesReady (take_buf bufs).1)
