-- ===== src/Server/Connection/Kept.antt =====
-- On the buffer that a connection takes from the pool and gives back.
use zipring.Prelude.{
  ℕ, suc, ◌≡◌, refl, sym, ap, ◌∙◌, max, true, [], ◌∷◌, Run, panic, ret, ◌>>=◌, length,
  length-replicate, ◌==◌, After, After-map, After->>=, arith,
}
use mathlib.Core.Path.{transport}
use zipring.Prelude.Bytes.{Bytes}
use zipring.Fstree.{FsTreeNode}
use zipring.Request.Parse.{Decoders}
use zipring.Request.Parse.Laws.{length-parse_raw}
use zipring.Request.Reader.{with_capacity, request_buf_size}
use zipring.Response.Entry.{Entry}
use zipring.Response.Body.EntryBody.{Disk}
use zipring.Response.Body.Inflated.{InflaterPool}
use zipring.Response.Stream.{answered, failed}
use zipring.Response.Stream
use zipring.Response.Serve.{Crates, respond, Outcome}
use zipring.Response.Keeps.{Same}
use zipring.Response.Keeps.Answers.{OutcomeSame, respond-Same}
use zipring.Server.Buffers.{BufPool, IsPool, take_buf, return_buf, connection_buf_size}
use zipring.Server.Connection.{
  Link, Connection, ended, out_of_fuel, Served, served, unserved, give_up, serve_loop, serve,
}
use zipring.Server.Connection.Invariant.{AtEnd, AfterAnswer, Keeps, serve_loop-Keeps}

module _ (ext : Decoders) (C : Crates) (disk : Disk) (L : Link) (tree : FsTreeNode Entry)
    (n : ℕ) where
  open L use {reads, writes}

  abbrev OfLength : Bytes → InflaterPool C.decoding.inflate → Type 0
  OfLength buf pool = Same n buf

  abbrev EndSame : Connection ext C disk L tree → Type 0
  EndSame = AtEnd ext C disk L tree OfLength

  outcome-Same :
      (outcome : Outcome C disk writes)
      → OutcomeSame C disk writes n outcome
      → AfterAnswer ext C disk L tree OfLength outcome
  outcome-Same (answered buf ws, pool) h = h
  outcome-Same (failed buf, pool) h = h
  outcome-Same (Stream.no_fuel, pool) h = tt

  serve_loop-Same :
      (fuel : ℕ) → Keeps ext C disk L tree OfLength (serve_loop ext C disk L tree fuel)
  serve_loop-Same =
      serve_loop-Keeps ext C disk L tree OfLength
        (λ raw buf pool same. length-parse_raw ext raw buf ∙ same)
        (λ request buf pool ws same.
          After-map (OutcomeSame C disk writes n) (AfterAnswer ext C disk L tree OfLength)
            (respond C disk writes request tree pool buf ws)
            (respond-Same C disk writes n request tree pool buf ws same) outcome-Same)

take_buf-IsPool :
    (bufs : BufPool)
    → IsPool bufs
    → (length (take_buf bufs).0 ≡ connection_buf_size)
      × (IsPool (take_buf bufs).1 × (suc (length (take_buf bufs).1) ≡ max 1 (length bufs)))
unfolding take_buf
take_buf-IsPool [] all = (length-replicate {A = ℕ} connection_buf_size 0, (tt, omega arith))
take_buf-IsPool (buf ∷ bufs) (same, all) = (same, (all, omega arith))

module _ (ext : Decoders) (C : Crates) (disk : Disk) (L : Link) (tree : FsTreeNode Entry) where
  open L use {reads, writes}

  -- The end of a connection without the assertion on the buffer's length.
  abbrev pub give_up_unchecked :
      BufPool → Connection ext C disk L tree → Run (Served ext C disk L tree)
  give_up_unchecked bufs (ended buf pool) = ret (served (buf ∷ bufs) pool)
  give_up_unchecked bufs out_of_fuel = ret unserved

  -- Of the pools that a connection leaves: all of the one length, so many.
  abbrev pub Leaves : ℕ → Served ext C disk L tree → Type 0
  Leaves n (served bufs pool) = IsPool bufs × (length bufs ≡ n)
  Leaves n unserved = Unit

  give_up-unchecked :
      (bufs : BufPool) (end : Run (Connection ext C disk L tree))
      → After (EndSame ext C disk L tree connection_buf_size) end
      → (end >>= give_up ext C disk L tree bufs) ≡ (end >>= give_up_unchecked bufs)
  unfolding return_buf
  give_up-unchecked bufs panic h = refl
  give_up-unchecked bufs (ret out_of_fuel) h = refl
  give_up-unchecked bufs (ret (ended buf pool)) h =
      rw (let e : (length buf == connection_buf_size) ≡ true = ground arith in e) refl

  -- On a thread whose pooled buffers all have the one length, the assertion as a connection gives its
  -- buffer back never fails: the connection runs as it would without it. The buffers that it leaves in
  -- the pool all have that length again, and there are as many as before, or one if there was none.
  -- This holds for every stream, request and archive, after any number of requests.
  pub serve-return_buf :
      (fuel : ℕ) (rs : reads.State) (ws : writes.State) (bufs : BufPool)
      (pool : InflaterPool C.decoding.inflate)
      → IsPool bufs
      → (serve ext C disk L tree fuel rs ws bufs pool ≡ (
          serve_loop ext C disk L tree fuel
            (with_capacity request_buf_size)
            rs
            ws
            (take_buf bufs).0
            pool
          >>= give_up_unchecked (take_buf bufs).1))
        × After (Leaves (max 1 (length bufs))) (serve ext C disk L tree fuel rs ws bufs pool)
  unfolding serve
  serve-return_buf fuel rs ws bufs pool all =
      let taken = take_buf-IsPool bufs all in
      let end =
        serve_loop ext C disk L tree fuel (with_capacity request_buf_size) rs ws (take_buf bufs).0
          pool in
      let same =
        serve_loop-Same ext C disk L tree connection_buf_size fuel (with_capacity request_buf_size)
          rs ws (take_buf bufs).0 pool taken.0 in
      let unchecked = give_up-unchecked (take_buf bufs).1 end same in
      (
        unchecked,
        transport (ap (After (Leaves (max 1 (length bufs)))) (sym unchecked)) (
            After->>= (EndSame ext C disk L tree connection_buf_size) (Leaves (max 1 (length bufs)))
              end _ same (leaves (take_buf bufs).1 (max 1 (length bufs)) taken.1.0 taken.1.1)),
      )
    where
      leaves :
          (rest : BufPool) (m : ℕ)
          → IsPool rest
          → suc (length rest) ≡ m
          → (end : Connection ext C disk L tree) → EndSame ext C disk L tree connection_buf_size end
          → After (Leaves m) (give_up_unchecked rest end)
      leaves rest m all count (ended buf pool) h = ((h, all), count)
      leaves rest m all count out_of_fuel h = tt
