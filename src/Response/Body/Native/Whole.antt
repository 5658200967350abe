-- ===== src/Response/Body/Native/Whole.antt =====
-- A native body as a whole: what `EntryBody::new` makes sends the announced number of bytes.
use zipring.Prelude.{
  ℕ, suc, ◌+◌, ◌≤◌, ◌≡◌, ◌++◌, length, take, drop, arith, length-append, length-take, length-drop,
}
use zipring.Prelude.Bytes.{Bytes}
use zipring.Response.Entry.{Entry, ReadExactAt}
use zipring.Response.Coding.{NativeCoding, prefix, trailer, content_length}
use zipring.Response.Body.Contract.{Body, Gives}
use zipring.Response.Body.Native.{NativeBody, new, fill}
use zipring.Response.Body.Native.Filling.{fill-Fills}
use zipring.Response.Body.Native.Puts.{Holds, IsWithin, start, rest, Ok, length-trailer}
use zipring.Response.Stream.{Writer, Accepts, send_body}
use zipring.Response.Stream.Sent.{Sends, send_body_lem}

abbrev pub native_body : ReadExactAt → Entry → NativeCoding → Body
native_body read_exact_at entry native = record {
  State = NativeBody;
  fill = fill read_exact_at entry native;
}

-- The entry's stored bytes, as they stand in the archive.
abbrev pub stored : Bytes → Entry → Bytes
stored contents entry = take entry.compressed_size (drop (start contents entry) contents)

module _ (read_exact_at : ReadExactAt) (contents : Bytes) (entry : Entry) (native : NativeCoding)
    (holds : Holds read_exact_at contents) (w : IsWithin contents entry) where
  abbrev pub native_body-Gives : Gives (native_body read_exact_at entry native)
  native_body-Gives = record {
    rest = rest contents entry native;
    Ok = Ok contents entry native;
    need = 40;
    fill-Fills = fill-Fills read_exact_at contents entry native holds w;
  }

  pub length-wire :
      length (prefix native ++ (stored contents entry ++ trailer native entry))
      ≡ content_length native entry
  unfolding content_length
  length-wire =
      let within = w.data_within in
      omega (
        arith,
        length-append {0} (prefix native) (stored contents entry ++ trailer native entry),
        length-append {0} (stored contents entry) (trailer native entry),
        length-take {0} entry.compressed_size (drop (start contents entry) contents),
        length-drop {0} (start contents entry) contents,
        length-trailer native entry,
      )

  -- `send_body` of a native body, on an archive that can be read and a stream that takes its writes,
  -- with 40 bytes of room behind what is staged, ends well: what was staged, the prefix, the entry's
  -- stored bytes and the trailer are sent, and behind what was staged this is `content_length` bytes.
  pub send_body-native :
      (W : Writer) (accepts : Accepts W) (buf : Bytes) (s : W.State) (staged : ℕ)
      → staged + 40 ≤ length buf
      → Sends W
          (native_body read_exact_at entry native)
          buf
          s
          (take staged buf ++ (prefix native ++ (stored contents entry ++ trailer native entry)))
          (send_body W
            (native_body read_exact_at entry native)
            (suc (content_length native entry))
            (new entry)
            buf
            s
            staged)
        × (length (prefix native ++ (stored contents entry ++ trailer native entry))
            ≡ content_length native entry)
  send_body-native W accepts buf s staged room =
      let within = w.data_within in
      (
        send_body_lem W (native_body read_exact_at entry native) accepts native_body-Gives
            (suc (content_length native entry)) (new entry) buf s staged within room
            (omega (arith, length-wire)),
        length-wire,
      )
