-- ===== src/Response/Samples.antt =====
-- An archive and the crates that the examples run on.
mod Copier
mod Stored
pub use Copier.{
  copied, copier, counter, counter-Hashes, Copies, copier-Turn, copier-Inflates, copier-Starts,
  copier-Resets,
}
pub use Stored.{
  process_stored, stored_fsm, read_some, stored_left, StoredGood, StoredReady, stored-Feeds,
  stored-Turns, stored-Ready, stored-Decodes,
}
use zipring.Prelude.{
  ℕ, zero, suc, ◌+◌, ◌-◌, ◌≤◌, ◌<◌, ◌≡◌, refl, sym, ap, ◌∙◌, min, Bool, true, false, ◌&&◌, some, [],
  ◌∷◌, ◌++◌, length, take, drop, ltb, ◌==◌, arith, inl, inr, Bool-cases, append_assoc, drop-drop,
  take_split, ltb→lt, length-append, length-take, length-drop, take-append-drop, is_empty,
  take-length-append, drop-length-append,
}
use zipring.Prelude.Bytes.{Bytes, codes}
use zipring.Response.Entry.{Entry, Method, Features}
use zipring.Request.Encodings.{AcceptedEncodings}
use zipring.Response.Tests.{archive, read_from, hex_formats, hex_digits}
use zipring.Response.Serve.{Crates}
use zipring.Response.Body.EntryBody.{Disk}
use zipring.Response.Body.Writes.{written, length-written}
use zipring.Response.Body.Native.Puts.{no_bytes}
use zipring.Response.Body.Decoded.{EntryFsm, Processed, continued, finished, ReadAt}
use zipring.Response.Body.Decoded.Laws.{Feeds, Turns, gives, ends, Decodes}
use zipring.Response.Body.Inflated.{Inflate, Hasher}
use zipring.Response.Body.Inflated.Pool.{Resets}
use zipring.Response.Body.Inflated.Laws.{Hashes, Turn, Inflates, Starts}

abbrev pub accepts_gzip : AcceptedEncodings
accepts_gzip = record { gzip = true; zstd = false }

abbrev pub accepts_nothing : AcceptedEncodings
accepts_nothing = record { gzip = false; zstd = false }

abbrev pub all_features : Features
all_features = record { deflate = true; zstd = true; deflate64 = true; bzip2 = true; lzma = true }

abbrev pub crates : Crates
crates = record {
  formats = hex_formats;
  encode_hex = hex_digits;
  url_encode = λ name. name;
  html_escape = λ name. name;
  decoding = record { fsm = stored_fsm; inflate = copier; hasher = counter; rounds = 2 };
  features = all_features;
}

abbrev pub disk : Disk
disk = record { read_exact_at = read_from archive; read_at = read_some archive }

-- The entry of the archive, as the copier and the counter have it.
abbrev pub inflated_entry : Entry
inflated_entry = record {
  name = codes "a";
  method = Method.deflate;
  crc32 = 3;
  header_offset = 0;
  compressed_size = 3;
  uncompressed_size = 3;
}

abbrev pub decoded_entry : Entry
decoded_entry = record {
  name = codes "b";
  method = Method.bzip2;
  crc32 = 3;
  header_offset = 31;
  compressed_size = 3;
  uncompressed_size = 3;
}
