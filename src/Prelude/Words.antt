-- ===== src/Prelude/Words.antt =====
-- The byte orders of Rust's unsigned integers. A `[u8; 4]` is a tuple.
use zipring.Prelude.{ℕ, length, refl, ◌+◌, ◌*◌, ◌/◌, ◌%◌, ◌^◌, ◌<◌, ◌≡◌, [], ◌∷◌, arith}
use zipring.Prelude.Bytes.{Bytes}

abbrev pub Quad : Type 0
Quad = ℕ × ℕ × ℕ × ℕ

-- `u32::to_be_bytes`, `u32::from_be_bytes` and `u32::to_le_bytes`
unfoldable pub to_be_bytes : ℕ → Quad
to_be_bytes x = (x / 2 ^ 24 % 256, x / 2 ^ 16 % 256, x / 2 ^ 8 % 256, x % 256)

unfoldable pub from_be_bytes : Quad → ℕ
from_be_bytes (a, b, c, d) = a * 2 ^ 24 + b * 2 ^ 16 + c * 2 ^ 8 + d

unfoldable pub to_le_bytes : ℕ → Quad
to_le_bytes x = (x % 256, x / 2 ^ 8 % 256, x / 2 ^ 16 % 256, x / 2 ^ 24 % 256)

unfoldable pub from_le_bytes : Quad → ℕ
from_le_bytes (a, b, c, d) = a + b * 2 ^ 8 + c * 2 ^ 16 + d * 2 ^ 24

-- `usize::to_be_bytes`, of 64 bits
unfoldable pub usize_to_be_bytes : ℕ → Bytes
usize_to_be_bytes x =
    x / 2 ^ 56 % 256
    ∷ x / 2 ^ 48 % 256
    ∷ x / 2 ^ 40 % 256
    ∷ x / 2 ^ 32 % 256
    ∷ x / 2 ^ 24 % 256
    ∷ x / 2 ^ 16 % 256
    ∷ x / 2 ^ 8 % 256
    ∷ x % 256
    ∷ []

pub length-usize_to_be_bytes : (x : ℕ) → length (usize_to_be_bytes x) ≡ 8
unfolding usize_to_be_bytes
length-usize_to_be_bytes x = refl

abbrev pub quad_bytes : Quad → Bytes
quad_bytes (a, b, c, d) = a ∷ b ∷ c ∷ d ∷ []

abbrev pub IsQuad : Quad → Type 0
IsQuad (a, b, c, d) = (a < 256) × (b < 256) × (c < 256) × (d < 256)

pub from_be_bytes-to_be_bytes : (x : ℕ) → x < 2 ^ 32 → from_be_bytes (to_be_bytes x) ≡ x
unfolding from_be_bytes to_be_bytes
from_be_bytes-to_be_bytes x h = omega arith

pub to_be_bytes-IsQuad : (x : ℕ) → IsQuad (to_be_bytes x)
unfolding to_be_bytes
to_be_bytes-IsQuad x = omega arith

pub from_le_bytes-to_le_bytes : (x : ℕ) → from_le_bytes (to_le_bytes x) ≡ x % 2 ^ 32
unfolding from_le_bytes to_le_bytes
from_le_bytes-to_le_bytes x = omega arith
