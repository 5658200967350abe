-- ===== src/Server/Tests.antt =====
-- Examples of the theorems on the server.
use zipring.Prelude.{
  refl, ℕ, ◌≤◌, ◌<◌, ◌^◌, ◌≡◌, Option, none, some, not, ◌&&◌, ◌||◌, [], ◌∷◌, ◌>>=◌, length, take,
  max, replicate, length-replicate, arith, all, if◌then◌else◌, After,
}
use zipring.Prelude.Bytes.{Bytes, codes, split_on}
use zipring.Fstree.{root}
use zipring.Request.Reader.{Stream, with_capacity, request_buf_size}
use zipring.Response.Tests.{recorder, hex_decoders}
use zipring.Response.Samples.{copier, copier-Resets, crates, disk}
use zipring.Response.Body.Inflated.{new_inflater, window_len, input_len}
use zipring.Response.Body.Inflated.Whole.{IsReady}
use zipring.Server.Connection.Reused.{LeavesReady, serve-LeavesReady}
use zipring.Server.Buffers.{take_buf, connection_buf_size}
use zipring.Server.Connection.{Link, serve, serve_loop}
use zipring.Server.Connection.Kept.{give_up_unchecked, Leaves, serve-return_buf}
use zipring.Server.Settings.{flag_names, parse, port, n_threads}
use zipring.Server.Settings.Flags.{names, is_flag, flags_of, parse_lem}
use zipring.Server.Settings.Numbers.{port_number, port_lem, settings_bounds}

-- The second flag wants the first.
abbrev two_flags : Bytes
two_flags = codes " defer_taskrun, single_issuer"

parse_lem_example :
    let given = flag_names (split_on b',' two_flags) in
    parse two_flags ≡ (
      if all is_flag given
        && (not (names (codes "defer_taskrun") given) || names (codes "single_issuer") given)
      then some (flags_of given)
      else none)
parse_lem_example = parse_lem two_flags

port_lem_example : port (some (codes "8080")) ≡ port_number (some (codes "8080"))
port_lem_example = port_lem (some (codes "8080"))

settings_bounds_example :
    (port (some (codes "70000")) < 2 ^ 16)
    × (0 < n_threads (some (codes "12")) (some 16))
    × (n_threads none (some 16) ≤ 8)
settings_bounds_example =
    settings_bounds (some (codes "70000")) (some (codes "12")) (some 16) (omega arith)

-- A peer that sends a line, and then closes.
abbrev peer : Stream
peer = record {
  State = Option Bytes;
  read = λ s n. elim s [ none ↦ (some [], none) | some bytes ↦ (some (take n bytes), none) ];
}

abbrev link : Link
link = record { reads = peer; writes = recorder; flush = some }

abbrev arrived : Option Bytes
arrived = some (codes "GET /\r\n\r\n")

abbrev full_buf : Bytes
full_buf = replicate connection_buf_size 0

serve-return_buf_example :
    (serve hex_decoders crates disk link root 3 arrived [] (full_buf ∷ []) [] ≡ (
      serve_loop hex_decoders crates disk link root 3
        (with_capacity request_buf_size)
        arrived
        []
        (take_buf (full_buf ∷ [])).0
        []
      >>= give_up_unchecked hex_decoders crates disk link root (take_buf (full_buf ∷ [])).1))
    × After
        (Leaves hex_decoders crates disk link root (max 1 (length (full_buf ∷ []))))
        (serve hex_decoders crates disk link root 3 arrived [] (full_buf ∷ []) [])
serve-return_buf_example =
    serve-return_buf hex_decoders crates disk link root 3 arrived [] (full_buf ∷ []) []
      (length-replicate {A = ℕ} connection_buf_size 0, tt)

new_inflater-IsReady : IsReady copier-Resets.Fresh (new_inflater copier)
new_inflater-IsReady = record {
  fresh = refl;
  window_size = length-replicate {A = ℕ} window_len 0;
  input_size = length-replicate {A = ℕ} input_len 0;
}

serve-LeavesReady_example :
    After
      (LeavesReady hex_decoders crates disk link root copier-Resets)
      (serve hex_decoders crates disk link root 3 arrived [] [] (new_inflater copier ∷ []))
serve-LeavesReady_example =
    serve-LeavesReady hex_decoders crates disk link root copier-Resets 3 arrived [] []
      (new_inflater copier ∷ []) (new_inflater-IsReady, tt)
