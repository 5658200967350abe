-- ===== src/Request/Reader/Window.antt =====
-- The search for the terminator: where it is found, and where it may be resumed.
use mathlib.Core.Option
use mathlib.Core.Option.{some-injective}
use native.Mathlib.Decide.{dec_le}
use zipring.Prelude.{
  ℕ, zero, suc, ◌+◌, ◌-◌, ◌≤◌, ◌≡◌, refl, sym, ap, true, false, Option, none, some, [], ◌∷◌, ◌++◌,
  length, take, drop, arith, inl, inr, Bool-cases, Option-cases, length-take, take-append,
}
use zipring.Prelude.Bytes.{Bytes, eq_bytes, eq_bytes_iff}
use zipring.Request.Reader.{headers_end, is_end, window_position, find_headers_end}

is_end-length : (u : Bytes) → is_end u ≡ true → 4 ≤ length u
unfolding is_end
is_end-length u h =
    omega (arith, length-take {0} 4 u, ap length ((eq_bytes_iff (take 4 u) headers_end).0 h))

is_end-append : (u v : Bytes) → 4 ≤ length u → is_end (u ++ v) ≡ is_end u
unfolding is_end
is_end-append u v h = ap (λ w. eq_bytes w headers_end) (take-append 4 u v h)

window_position-length : (u : Bytes) (i : ℕ) → window_position u ≡ some i → i + 4 ≤ length u
unfolding window_position
window_position-length [] i h = cc
window_position-length (x ∷ u) zero h = elim (Bool-cases (is_end (x ∷ u))) [
  | inl yes_ ↦ is_end-length (x ∷ u) yes_
  | inr not_ ↦ ground (arith, not_, h)
]
window_position-length (x ∷ u) (suc i) h = ground (arith, h, window_position-length u i)

-- A match in a front is the first match in the whole.
window_position-append :
    (u v : Bytes) (i : ℕ) → window_position u ≡ some i → window_position (u ++ v) ≡ some i
unfolding window_position
window_position-append [] v i h = cc
window_position-append (x ∷ u) v zero h =
    let long : 4 ≤ length (x ∷ u) = omega (arith, window_position-length (x ∷ u) 0 h) in
    ground (arith, h, is_end-append (x ∷ u) v long)
window_position-append (x ∷ u) v (suc i) h =
    let long : 4 ≤ length (x ∷ u) = omega (arith, window_position-length (x ∷ u) (suc i) h) in
    ground (arith, h, is_end-append (x ∷ u) v long, window_position-append u v i)

-- Where a front holds no terminator, the search of the whole may begin three bytes before the
-- front's end.
abbrev pub shift : ℕ → Option ℕ → Option ℕ
shift k = Option.map (λ i. k + i)

shift-zero : (o : Option ℕ) → shift 0 o ≡ o
shift-zero none = refl
shift-zero (some i) = ap some (omega arith)

shift-suc : (k : ℕ) (o : Option ℕ) → Option.map suc (shift k o) ≡ shift (suc k) o
shift-suc k none = refl
shift-suc k (some i) = ap some (omega arith)

window_position-resume :
    (u v : Bytes)
    → window_position u ≡ none
    → window_position (u ++ v)
      ≡ shift (length u - 3) (window_position (drop (length u - 3) (u ++ v)))
unfolding window_position
window_position-resume [] v h = sym (shift-zero (window_position v))
window_position-resume (x ∷ u) v h = elim (dec_le 3 (length u)) [
  | yes long ↦
      let e : suc (length u) - 3 ≡ suc (length u - 3) = omega arith in
      let here : is_end (x ∷ (u ++ v)) ≡ false = ground (arith, h, is_end-append (x ∷ u) v) in
      let before : window_position u ≡ none = ground (arith, h) in
      rw (e, here, window_position-resume u v before) (shift-suc (length u - 3) _)
  | no short ↦
      let e : suc (length u) - 3 ≡ 0 = omega arith in
      rw e (sym (shift-zero (window_position ((x ∷ u) ++ v))))
]

find_headers_end-shift :
    (u v : Bytes) (k : ℕ)
    → window_position u ≡ shift k (window_position v)
    → find_headers_end u ≡ shift k (find_headers_end v)
unfolding find_headers_end
find_headers_end-shift u v k h = rw h (go (window_position v))
  where
    go :
        (o : Option ℕ)
        → Option.map (λ (i : ℕ). i + 4) (shift k o) ≡ shift k (Option.map (λ (i : ℕ). i + 4) o)
    go none = refl
    go (some i) = ap some (omega arith)

window_position-none : (u : Bytes) → find_headers_end u ≡ none → window_position u ≡ none
unfolding find_headers_end
window_position-none u h = ground (arith, h)

-- The same three facts of `find_headers_end`.
pub find_headers_end-append :
    (u v : Bytes) (e : ℕ) → find_headers_end u ≡ some e → find_headers_end (u ++ v) ≡ some e
unfolding find_headers_end
find_headers_end-append u v e h = elim (Option-cases (window_position u)) [
  | inl absent ↦ ground (arith, h, absent)
  | inr (i, at) ↦ rw (window_position-append u v i at) (rw at at h)
]

pub find_headers_end-length : (u : Bytes) (e : ℕ) → find_headers_end u ≡ some e → e ≤ length u
unfolding find_headers_end
find_headers_end-length u e h = elim (Option-cases (window_position u)) [
  | inl absent ↦ ground (arith, h, absent)
  | inr (i, at) ↦
      omega (arith, window_position-length u i at, some-injective (i + 4) e (rw at at h))
]

pub find_headers_end-resume :
    (u v : Bytes)
    → find_headers_end u ≡ none
    → find_headers_end (u ++ v)
      ≡ shift (length u - 3) (find_headers_end (drop (length u - 3) (u ++ v)))
find_headers_end-resume u v h =
    find_headers_end-shift (u ++ v) (drop (length u - 3) (u ++ v)) (length u - 3)
      (window_position-resume u v (window_position-none u h))

pub find_headers_end-shift_zero : (u : Bytes) → find_headers_end u ≡ shift 0 (find_headers_end u)
find_headers_end-shift_zero u = sym (shift-zero (find_headers_end u))
