-- ===== src/Server/Settings/Numbers.antt =====
-- The numbers that the settings give.
use zipring.Prelude.{
  ℕ, zero, suc, ◌+◌, ◌-◌, ◌*◌, ◌^◌, ◌≤◌, ◌<◌, Bool, ◌&&◌, Option, none, some, [], ◌∷◌, ◌≡◌, refl,
  leb, leb→le, arith, if◌then◌else◌, all, Bool-cases, inl, inr, is_empty, not, ◌==◌,
}
use zipring.Prelude.Bytes.{Bytes, codes}
use zipring.Server.Settings.{
  parse_digits, parse_unsigned, parse_unsigned_digits, threads, non_zero, unwrap_or, port,
  n_threads,
}

abbrev pub is_digit : ℕ → Bool
is_digit c = leb b'0' c && leb c b'9'

-- The number that digits stand for, behind those of `value`.
abbrev pub decimal : ℕ → Bytes → ℕ
decimal value [] = value
decimal value (c ∷ cs) = decimal (value * 10 + (c - b'0')) cs

decimal_grows : (value : ℕ) (digits : Bytes) → value ≤ decimal value digits
decimal_grows value [] = omega arith
decimal_grows value (c ∷ cs) = omega (arith, decimal_grows (value * 10 + (c - b'0')) cs)

parse_digits_lem :
    (most value : ℕ) (digits : Bytes)
    → value ≤ most
    → parse_digits most value digits ≡ (
        if all is_digit digits && leb (decimal value digits) most
        then some (decimal value digits)
        else none)
unfolding parse_digits
parse_digits_lem most value [] h = ground arith
parse_digits_lem most value (c ∷ cs) h =
    let value' = value * 10 + (c - b'0') in
    elim (Bool-cases (is_digit c)) [
      | inr e ↦ ground arith
      | inl e ↦ elim (Bool-cases (leb value' most)) [
        | inl e' ↦ ground (arith, parse_digits_lem most value' cs (leb→le value' most e'))
        | inr e' ↦ ground (arith, decimal_grows value' cs)
      ]
    ]

-- A numeral's digits, without a plus sign in front.
abbrev pub digits_of : Bytes → Bytes
digits_of [] = []
digits_of (c ∷ cs) = if c == b'+' then cs else c ∷ cs

abbrev pub is_numeral : Bytes → Bool
is_numeral text = not (is_empty (digits_of text)) && all is_digit (digits_of text)

parse_unsigned_lem :
    (most : ℕ) (text : Bytes)
    → parse_unsigned most text ≡ (
        if is_numeral text && leb (decimal 0 (digits_of text)) most
        then some (decimal 0 (digits_of text))
        else none)
parse_unsigned_lem most [] = refl
parse_unsigned_lem most (c ∷ cs) = elim (Bool-cases (c == b'+')) [
  | inr e ↦ rw e (parse_digits_lem most 0 (c ∷ cs) (omega arith))
  | inl e ↦ rw e (signed cs)
]
  where
    signed :
        (ds : Bytes)
        → parse_unsigned_digits most ds ≡ (
            if (not (is_empty ds) && all is_digit ds) && leb (decimal 0 ds) most
            then some (decimal 0 ds)
            else none)
    signed [] = refl
    signed (d ∷ ds) = parse_digits_lem most 0 (d ∷ ds) (omega arith)

-- The number that a text holds, where it is a numeral below 2^16, and else 50002.
abbrev pub port_number : Option Bytes → ℕ
port_number none = 50002
port_number (some text) =
    if is_numeral text && leb (decimal 0 (digits_of text)) (2 ^ 16 - 1)
    then decimal 0 (digits_of text)
    else 50002

-- The port is the number that PORT holds, where it is set and holds a numeral below 2^16, and else
-- 50002.
pub port_lem : (value : Option Bytes) → port value ≡ port_number value
unfolding port parse_digits
port_lem none = refl
port_lem (some text) =
    elim (Bool-cases (is_numeral text && leb (decimal 0 (digits_of text)) (2 ^ 16 - 1))) [
      | inl e ↦ rw (parse_unsigned_lem (2 ^ 16 - 1) text, e) refl
      | inr e ↦ rw (parse_unsigned_lem (2 ^ 16 - 1) text, e) refl
    ]

port-some_bounds : (text : Bytes) → port (some text) < 2 ^ 16
port-some_bounds text = rw (port_lem (some text)) (ground arith)

port_bounds : (value : Option Bytes) → port value < 2 ^ 16
unfolding port
port_bounds (some text) = port-some_bounds text
port_bounds none = port-some_bounds (codes "50002")

threads_bounds :
    (named parallelism : Option ℕ)
    → 0 < unwrap_or parallelism 1
    → 0 < threads (non_zero named) parallelism
threads_bounds none parallelism h = omega arith
threads_bounds (some zero) parallelism h = omega arith
threads_bounds (some (suc n)) parallelism h = omega arith

n_threads_bounds :
    (value : Option Bytes) (parallelism : Option ℕ)
    → 0 < unwrap_or parallelism 1
    → 0 < n_threads value parallelism
unfolding n_threads
n_threads_bounds none parallelism h = omega arith
n_threads_bounds (some value) parallelism h =
    threads_bounds (parse_unsigned (2 ^ 64 - 1) value) parallelism h

-- Whatever the environment holds, on a host whose parallelism is not zero where it is known, the port
-- is below 2^16 and there is a thread; where ZIPRING_THREADS is not set, there are 8 at most.
pub settings_bounds :
    (port_value threads_value : Option Bytes) (parallelism : Option ℕ)
    → 0 < unwrap_or parallelism 1
    → (port port_value < 2 ^ 16)
      × (0 < n_threads threads_value parallelism)
      × (n_threads none parallelism ≤ 8)
unfolding n_threads
settings_bounds port_value threads_value parallelism h =
    (port_bounds port_value, n_threads_bounds threads_value parallelism h, omega arith)
