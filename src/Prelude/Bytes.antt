-- ===== src/Prelude/Bytes.antt =====
-- Byte strings, and what the modelled code uses of Rust's `str` and slice methods on them.
use Prim.Native.Char.{code}
use Prim.Native.String.{String}
use zipring.Prelude.{
  ℕ, zero, suc, ◌<◌, ◌≡◌, refl, ap, inl, inr, Bool-cases, ◌↔◌, Bool, true, false, ◌&&◌, Option,
  none, some, List, [], ◌∷◌, ◌++◌, arith, ltb, ◌==◌, if◌then◌else◌, take, drop, length,
}

abbrev pub Bytes : Type 0
Bytes = List ℕ

-- The code points of a text: its UTF-8 bytes, if it is ASCII.
abbrev pub codes : String → Bytes
codes String.[] = []
codes (String.◌∷◌ c s) = code c ∷ codes s

-- `a == b` on strings and slices
unfoldable pub eq_bytes : Bytes → Bytes → Bool
eq_bytes [] [] = true
eq_bytes (x ∷ xs) (y ∷ ys) = x == y && eq_bytes xs ys
eq_bytes _ _ = false

pub eq_bytes_iff : (a b : Bytes) → (eq_bytes a b ≡ true) ↔ (a ≡ b)
unfolding eq_bytes
eq_bytes_iff (x ∷ a) (y ∷ b) = ground (arith, eq_bytes_iff a b)
eq_bytes_iff _ _ = ground arith

pub eq_bytes_refl : (a : Bytes) → eq_bytes a a ≡ true
eq_bytes_refl a = (eq_bytes_iff a a).1 refl

-- `Ord::cmp(a, b) != Greater` on strings, which compares their bytes
unfoldable pub le_bytes : Bytes → Bytes → Bool
le_bytes [] b = true
le_bytes (x ∷ a) [] = false
le_bytes (x ∷ a) (y ∷ b) = if ltb x y then true else x == y && le_bytes a b

pub le_bytes_refl : (a : Bytes) → le_bytes a a ≡ true
unfolding le_bytes
le_bytes_refl [] = refl
le_bytes_refl (x ∷ a) = ground (arith, le_bytes_refl a)

pub le_bytes_total : (a b : Bytes) → le_bytes a b ≡ false → le_bytes b a ≡ true
unfolding le_bytes
le_bytes_total (x ∷ a) (y ∷ b) h = ground (arith, le_bytes_total a b)
le_bytes_total _ _ h = ground arith

pub le_bytes_trans :
    (a b c : Bytes) → le_bytes a b ≡ true → le_bytes b c ≡ true → le_bytes a c ≡ true
unfolding le_bytes
le_bytes_trans (x ∷ a) (y ∷ b) (z ∷ c) h k = ground (arith, le_bytes_trans a b c)
le_bytes_trans _ _ _ h k = ground arith

-- `find(c)` on a string, `iter().position(|b| b == c)` on a slice
unfoldable pub find_byte : ℕ → Bytes → Option ℕ
find_byte c [] = none
find_byte c (x ∷ xs) =
    if x == c then some 0 else (elim (find_byte c xs) [ none ↦ none | some i ↦ some (suc i) ])

abbrev pub push_front : ℕ → List Bytes → List Bytes
push_front c [] = (c ∷ []) ∷ []
push_front c (p ∷ ps) = (c ∷ p) ∷ ps

-- `split(|b| b == c)`: the pieces between the separators, at least one
unfoldable pub split_on : ℕ → Bytes → List Bytes
split_on c [] = [] ∷ []
split_on c (x ∷ xs) = let rest = split_on c xs in if x == c then [] ∷ rest else push_front x rest

pub find_byte-lt-length : (c : ℕ) (p : Bytes) (i : ℕ) → find_byte c p ≡ some i → i < length p
unfolding find_byte
find_byte-lt-length c [] i h = cc
find_byte-lt-length c (x ∷ p) zero h = omega arith
find_byte-lt-length c (x ∷ p) (suc i) h = ground (arith, find_byte-lt-length c p i)

pub split_on-find_byte-none : (c : ℕ) (p : Bytes) → find_byte c p ≡ none → split_on c p ≡ p ∷ []
unfolding find_byte split_on
split_on-find_byte-none c [] h = refl
split_on-find_byte-none c (x ∷ p) h = ground (arith, split_on-find_byte-none c p)

pub split_on-find_byte-some :
    (c : ℕ) (p : Bytes) (i : ℕ)
    → find_byte c p ≡ some i
    → split_on c p ≡ take i p ∷ split_on c (drop (suc i) p)
unfolding find_byte split_on
split_on-find_byte-some c [] i h = cc
split_on-find_byte-some c (x ∷ p) zero h = ground arith
split_on-find_byte-some c (x ∷ p) (suc i) h = ground (arith, split_on-find_byte-some c p i)

pub eq_bytes_comm : (a b : Bytes) → eq_bytes a b ≡ eq_bytes b a
unfolding eq_bytes
eq_bytes_comm (x ∷ a) (y ∷ b) = ground (arith, eq_bytes_comm a b)
eq_bytes_comm [] [] = refl
eq_bytes_comm [] (y ∷ b) = refl
eq_bytes_comm (x ∷ a) [] = refl

pub split_on-eq_cons :
    (c : ℕ) (p : Bytes) → (s : Bytes) × (ps : List Bytes) × (split_on c p ≡ s ∷ ps)
unfolding split_on
split_on-eq_cons c [] = ([], [], refl)
split_on-eq_cons c (x ∷ p) = go (x == c) (split_on c p)
  where
    go :
        (b : Bool) (rest : List Bytes)
        → (s : Bytes) × (ps : List Bytes) × ((if b then [] ∷ rest else push_front x rest) ≡ s ∷ ps)
    go true rest = ([], rest, refl)
    go false [] = (x ∷ [], [], refl)
    go false (q ∷ qs) = (x ∷ q, qs, refl)

pub split_on-append :
    (c : ℕ) (a b : Bytes) → split_on c (a ++ (c ∷ b)) ≡ split_on c a ++ split_on c b
unfolding split_on
split_on-append c [] b = ground arith
split_on-append c (x ∷ a) b = elim (Bool-cases (x == c)) [
  | inl here ↦ rw here (ap (◌∷◌ []) (split_on-append c a b))
  | inr there ↦ let (s, ps, e) = split_on-eq_cons c a in rw (there, split_on-append c a b, e)
]
