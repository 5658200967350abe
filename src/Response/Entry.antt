-- ===== src/Response/Entry.antt =====
-- What the server reads of an archive's entries: the fields of `rc_zip::Entry`, which is a type of
-- a third-party crate, and src/rc_zip_compio.rs on them.
use zipring.Prelude.{
  ℕ, ◌+◌, ◌-◌, ◌*◌, min, Bool, true, false, Option, none, some, Run, panic, ret, length, take, drop,
  ltb, if◌then◌else◌, get_or, ◌++◌, ◌>>=◌,
}
use zipring.Prelude.Bytes.{Bytes}

-- `rc_zip::parse::Method`; `other` is any method that the server does not name.
pub data Method : Type 0 where
  store deflate zstd deflate64 bzip2 lzma : Method
  other : ℕ → Method

pub record Entry : Type 0 where
  pub name : Bytes
  pub method : Method
  pub crc32 : ℕ
  pub header_offset : ℕ
  pub compressed_size : ℕ
  pub uncompressed_size : ℕ

-- The optional features of Cargo.toml.
pub record Features : Type 0 where
  pub deflate : Bool
  pub zstd : Bool
  pub deflate64 : Bool
  pub bzip2 : Bool
  pub lzma : Bool

unfoldable pub is_method_supported : Features → Method → Bool
is_method_supported f store = true
is_method_supported f deflate = f.deflate
is_method_supported f zstd = f.zstd
is_method_supported f deflate64 = f.deflate64
is_method_supported f bzip2 = f.bzip2
is_method_supported f lzma = f.lzma
is_method_supported f (other _) = false

-- `AsyncReadAtExt::read_exact_at` on the archive's file: so many bytes from an offset, or an error.
abbrev pub ReadExactAt : Type 0
ReadExactAt = ℕ → ℕ → Option Bytes

-- `buf[at..at + src.len()].copy_from_slice(src)`, which panics past the end
unfoldable pub copy_at : ℕ → Bytes → Bytes → Run Bytes
copy_at at src buf =
    if ltb (length buf) (at + length src)
    then panic
    else ret (take at buf ++ (src ++ drop (at + length src) buf))

-- `u16::from_le_bytes([header[i], header[i + 1]])`
abbrev pub u16_at : ℕ → Bytes → ℕ
u16_at i header = get_or header i 0 + 256 * get_or header (i + 1) 0

abbrev pub local_header_len : ℕ
local_header_len = 30

-- Where the data of an entry with this local header begins.
unfoldable pub data_start : Entry → Bytes → ℕ
data_start entry header = entry.header_offset + 30 + u16_at 26 header + u16_at 28 header

-- The local header goes into `buf[at..]`. Where there is room for less, less is read, and the look at
-- the header's fields panics. The result is the offset of the data, or `none` where the file cannot be
-- read.
abbrev pub located : Entry → ℕ → Bytes → Option Bytes → Run (Option ℕ × Bytes)
located entry at buf none = ret (none, buf)
located entry at buf (some header) =
    if ltb (length buf) (at + local_header_len)
    then panic
    else (do buf' ← copy_at at header buf; ret (some (data_start entry header), buf'))

unfoldable pub find_entry_compressed_data : ReadExactAt → Entry → ℕ → Bytes → Run (Option ℕ × Bytes)
find_entry_compressed_data read_exact_at entry at buf =
    if ltb (length buf) at
    then panic
    else located entry at buf
        (read_exact_at entry.header_offset (min local_header_len (length buf - at)))
