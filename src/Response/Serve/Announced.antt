-- ===== src/Response/Serve/Announced.antt =====
-- On the Content-Length that an entry's answer announces.
use zipring.Prelude.{none, ◌+◌, ◌≤◌, ◌≡◌, ap, sym, ◌∙◌, ℕ, Option, some, ◌++◌, length, append_assoc}
use zipring.Prelude.Bytes.{Bytes, codes}
use zipring.Request.Encodings.{AcceptedEncodings}
use zipring.Response.Entry.{Entry}
use zipring.Response.Coding.{NativeCoding, of, prefix, trailer}
use zipring.Response.Body.Native.Puts.{Holds, IsWithin}
use zipring.Response.Body.Native.Whole.{stored, length-wire}
use zipring.Response.Body.EntryBody.{Disk}
use zipring.Response.Body.Inflated.{InflaterPool}
use zipring.Response.Stream.{Writer, Accepts}
use zipring.Response.Head.{
  Formats, crlf, encoding_line, announced_coding, announced_length, entity_tag, entry_header,
}
use zipring.Response.Serve.{Crates, accepted_coding, serve_entry}
use zipring.Response.Serve.Outcomes.{Answers}
use zipring.Response.Serve.Entries.{serve_entry-native}

-- A line of `header` is a Content-Length of `size`.
pub record Announces (formats : Formats) (header : Bytes) (size : ℕ) : Type 0 where
  pub front : Bytes
  pub back : Bytes
  pub header_is :
      header
      ≡ front ++ (crlf ++ (codes "Content-Length: " ++ (formats.decimal size ++ (crlf ++ back))))

abbrev start : Bytes
start = codes "HTTP/1.1 200 OK" ++ (crlf ++ codes "Content-Type: ")

-- The lines up to the Content-Length, with or without a Content-Encoding.
lines_before :
    (coding : Option Bytes) (mime rest : Bytes)
    → (front : Bytes) × (start ++ (mime ++ (crlf ++ (encoding_line coding ++ rest)))
        ≡ front ++ (crlf ++ rest))
lines_before none mime rest = (start ++ mime, sym (append_assoc start mime (crlf ++ rest)))
lines_before (some coding) mime rest =
    let line = crlf ++ (codes "Content-Encoding: " ++ coding) in
    (
      start ++ (mime ++ line),
      ap (λ (d : Bytes). start ++ (mime ++ (crlf ++ (codes "Content-Encoding: " ++ d))))
            (append_assoc coding crlf rest)
          ∙ ap (λ (d : Bytes). start ++ d) (sym (append_assoc mime line (crlf ++ rest))),
    )

entry_header-Announces :
    (formats : Formats) (e : Entry) (native : Option NativeCoding) (size : ℕ)
    → announced_length native e ≡ size
    → Announces formats (entry_header formats e native) size
unfolding entry_header
entry_header-Announces formats e native size same =
    let back =
      codes "ETag: "
      ++ (entity_tag formats e.crc32
          ++ (crlf ++ (codes "Cache-control: max-age=180, public" ++ (crlf ++ crlf)))) in
    let rest = λ (n : ℕ). codes "Content-Length: " ++ (formats.decimal n ++ (crlf ++ back)) in
    let (front, header_is) =
      lines_before (announced_coding native) (formats.mime_type e.name)
        (rest (announced_length native e)) in
    record {
      front = front;
      back = back;
      header_is = header_is ∙ ap (λ n. front ++ (crlf ++ rest n)) same;
    }

module _ (C : Crates) (disk : Disk) (W : Writer) (e : Entry) (accepts : Accepts W)
    (accepted : AcceptedEncodings) (pool : InflaterPool C.decoding.inflate) (buf : Bytes)
    (s : W.State) (contents : Bytes) (holds : Holds disk.read_exact_at contents)
    (w : IsWithin contents e) where
  -- On an archive that can be read and a stream that takes its writes, with 40 bytes of room behind the
  -- header: the answer of an entry whose native coding the request accepts is the header and a body,
  -- and a line of the header is a Content-Length with the number of the body's bytes, which are the
  -- prefix of the coding, the stored bytes and the trailer.
  pub serve_entry-Announces :
      (native : NativeCoding)
      → accepted_coding (of e.method) accepted ≡ some native
      → length (entry_header C.formats e (some native)) + 40 ≤ length buf
      → let header = entry_header C.formats e (some native) in
        let body = prefix native ++ (stored contents e ++ trailer native e) in
        Answers C disk W buf s (header ++ body) (serve_entry C disk W e accepted pool buf s)
        × Announces C.formats header (length body)
  unfolding announced_length
  serve_entry-Announces native coding room = (
    serve_entry-native C disk W e accepts accepted pool buf s contents holds w native coding room,
    entry_header-Announces C.formats e (some native)
        (length (prefix native ++ (stored contents e ++ trailer native e)))
        (sym (length-wire disk.read_exact_at contents e native holds w)),
  )
