-- ===== src/Prelude/Utf8.antt =====
-- `str::from_utf8`: which byte strings are UTF-8, by Table 3-7 of the Unicode standard.
use zipring.Prelude.{
  ℕ, zero, suc, Bool, false, ◌&&◌, Option, none, some, [], ◌∷◌, ltb, leb, ◌==◌, if◌then◌else◌,
}
use zipring.Prelude.Bytes.{Bytes}

-- How many bytes a character still wants, and the range of the next.
abbrev Wanted : Type 0
Wanted = ℕ × ℕ × ℕ

abbrev first_byte : ℕ → Option Wanted
first_byte b =
    if ltb b 0x80
    then some (0, 0, 0)
    else if leb 0xc2 b && leb b 0xdf
    then some (1, 0x80, 0xbf)
    else if b == 0xe0
    then some (2, 0xa0, 0xbf)
    else if b == 0xed
    then some (2, 0x80, 0x9f)
    else if leb 0xe1 b && leb b 0xef
    then some (2, 0x80, 0xbf)
    else if b == 0xf0
    then some (3, 0x90, 0xbf)
    else if leb 0xf1 b && leb b 0xf3
    then some (3, 0x80, 0xbf)
    else if b == 0xf4
    then some (3, 0x80, 0x8f)
    else none

abbrev next_byte : Wanted → ℕ → Option Wanted
next_byte (zero, lo, hi) b = first_byte b
next_byte (suc more, lo, hi) b = if leb lo b && leb b hi then some (more, 0x80, 0xbf) else none

unfoldable pub is_utf8_from : Option Wanted → Bytes → Bool
is_utf8_from none bytes = false
is_utf8_from (some (wanted, lo, hi)) [] = wanted == 0
is_utf8_from (some wanted) (b ∷ bytes) = is_utf8_from (next_byte wanted b) bytes

unfoldable pub is_utf8 : Bytes → Bool
unfolding is_utf8_from
is_utf8 bytes = is_utf8_from (some (0, 0, 0)) bytes
