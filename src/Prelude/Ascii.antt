-- ===== src/Prelude/Ascii.antt =====
-- What the modelled code uses of Rust's ASCII methods on bytes and byte slices.
use zipring.Prelude.{ℕ, ◌+◌, Bool, ◌&&◌, ◌||◌, [], ◌∷◌, leb, ◌==◌, if◌then◌else◌, map}
use zipring.Prelude.Bytes.{Bytes, eq_bytes}

-- `u8::to_ascii_lowercase`
abbrev pub to_lower : ℕ → ℕ
to_lower c = if leb b'A' c && leb c b'Z' then c + 32 else c

-- `[u8]::eq_ignore_ascii_case`
unfoldable pub eq_ignore_ascii_case : Bytes → Bytes → Bool
eq_ignore_ascii_case a b = eq_bytes (map to_lower a) (map to_lower b)

-- `u8::is_ascii_whitespace`: space, tab, line feed, form feed, carriage return
abbrev pub is_ascii_whitespace : ℕ → Bool
is_ascii_whitespace c = c == 0x20 || c == 0x09 || c == 0x0a || c == 0x0c || c == 0x0d

-- `[u8]::trim_ascii_start` and `[u8]::trim_ascii_end`
unfoldable pub trim_ascii_start : Bytes → Bytes
trim_ascii_start [] = []
trim_ascii_start (c ∷ cs) =
    let rest = trim_ascii_start cs in if is_ascii_whitespace c then rest else c ∷ cs

abbrev cons_unless_blank : ℕ → Bytes → Bytes
cons_unless_blank c [] = if is_ascii_whitespace c then [] else c ∷ []
cons_unless_blank c (d ∷ ds) = c ∷ d ∷ ds

unfoldable pub trim_ascii_end : Bytes → Bytes
trim_ascii_end [] = []
trim_ascii_end (c ∷ cs) = cons_unless_blank c (trim_ascii_end cs)

-- `[u8]::trim_ascii`
unfoldable pub trim_ascii : Bytes → Bytes
unfolding trim_ascii_start trim_ascii_end
trim_ascii s = trim_ascii_end (trim_ascii_start s)
