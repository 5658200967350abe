-- ===== src/Server/Settings.antt =====
-- `UringFlags::parse` and the reading of PORT and ZIPRING_THREADS, src/main.rs. A text is the list of
-- its code points.
pub mod Flags
pub mod Numbers
use mathlib.Core.Option
use zipring.Prelude.{
  ℕ, zero, suc, ◌+◌, ◌-◌, ◌*◌, min, Bool, true, false, not, ◌&&◌, ◌||◌, Option, none, some, List,
  [], ◌∷◌, leb, ltb, ◌==◌, if◌then◌else◌, is_empty, ◌^◌,
}
use zipring.Prelude.Bytes.{Bytes, codes, eq_bytes, split_on}

pub record UringFlags : Type 0 where
  pub single_issuer : Bool
  pub coop_taskrun : Bool
  pub defer_taskrun : Bool

abbrev pub default_flags : UringFlags
default_flags = record { single_issuer = false; coop_taskrun = false; defer_taskrun = false }

-- `char::is_whitespace`
abbrev pub is_whitespace : ℕ → Bool
is_whitespace c =
    (leb 0x09 c && leb c 0x0d)
    || c == 0x20
    || c == 0x85
    || c == 0xa0
    || c == 0x1680
    || (leb 0x2000 c && leb c 0x200a)
    || c == 0x2028
    || c == 0x2029
    || c == 0x202f
    || c == 0x205f
    || c == 0x3000

-- `str::trim`
unfoldable pub trim_start : Bytes → Bytes
trim_start [] = []
trim_start (c ∷ cs) = let rest = trim_start cs in if is_whitespace c then rest else c ∷ cs

abbrev cons_unless_blank : ℕ → Bytes → Bytes
cons_unless_blank c [] = if is_whitespace c then [] else c ∷ []
cons_unless_blank c (d ∷ ds) = c ∷ d ∷ ds

unfoldable pub trim_end : Bytes → Bytes
trim_end [] = []
trim_end (c ∷ cs) = cons_unless_blank c (trim_end cs)

unfoldable pub trim : Bytes → Bytes
unfolding trim_start trim_end
trim text = trim_end (trim_start text)

-- `map(str::trim).filter(|n| !n.is_empty())`
abbrev pub flag_names : List Bytes → List Bytes
flag_names [] = []
flag_names (part ∷ parts) =
    let rest = flag_names parts in if is_empty (trim part) then rest else trim part ∷ rest

-- One round of the loop of `parse`.
unfoldable pub set_flag : UringFlags → Bytes → Option UringFlags
set_flag flags name =
    if eq_bytes name (codes "single_issuer")
    then some (record flags { single_issuer = true })
    else if eq_bytes name (codes "coop_taskrun")
    then some (record flags { coop_taskrun = true })
    else if eq_bytes name (codes "defer_taskrun")
    then some (record flags { defer_taskrun = true })
    else none

-- `?`
abbrev pub and_then : Option UringFlags → (UringFlags → Option UringFlags) → Option UringFlags
and_then none next = none
and_then (some flags) next = next flags

unfoldable pub set_flags : UringFlags → List Bytes → Option UringFlags
unfolding set_flag
set_flags flags [] = some flags
set_flags flags (name ∷ names) = and_then (set_flag flags name) (λ flags'. set_flags flags' names)

-- The check behind the loop.
abbrev pub check_flags : UringFlags → Option UringFlags
check_flags flags = if flags.defer_taskrun && not flags.single_issuer then none else some flags

-- `none` is an error.
unfoldable pub parse : Bytes → Option UringFlags
unfolding set_flags trim split_on
parse list = and_then (set_flags default_flags (flag_names (split_on b',' list))) check_flags

abbrev pub from_env : Option Bytes → Option UringFlags
from_env none = some default_flags
from_env (some list) = parse list

-- `str::parse` of an unsigned integer that is at most `most`: digits, and a plus sign before them.
unfoldable pub parse_digits : ℕ → ℕ → Bytes → Option ℕ
parse_digits most value [] = some value
parse_digits most value (c ∷ cs) =
    let value' = value * 10 + (c - b'0') in
    let rest = parse_digits most value' cs in
    if leb b'0' c && leb c b'9' && leb value' most then rest else none

abbrev pub parse_unsigned_digits : ℕ → Bytes → Option ℕ
parse_unsigned_digits most [] = none
parse_unsigned_digits most (c ∷ cs) = parse_digits most 0 (c ∷ cs)

abbrev pub parse_unsigned : ℕ → Bytes → Option ℕ
parse_unsigned most [] = none
parse_unsigned most (c ∷ cs) =
    if c == b'+' then parse_unsigned_digits most cs else parse_digits most 0 (c ∷ cs)

abbrev pub unwrap_or {ℓ} : {A : Type ℓ} → Option A → A → A
unwrap_or none a = a
unwrap_or (some x) a = x

-- `port`, from the value of PORT
unfoldable pub port : Option Bytes → ℕ
unfolding parse_digits
port value = unwrap_or (parse_unsigned (2 ^ 16 - 1) (unwrap_or value (codes "50002"))) 50002

-- `v.parse::<NonZero<usize>>().ok()`
abbrev pub non_zero : Option ℕ → Option ℕ
non_zero none = none
non_zero (some zero) = none
non_zero (some (suc n)) = some (suc n)

abbrev pub parsed_threads : Option Bytes → Option ℕ
parsed_threads none = none
parsed_threads (some value) = non_zero (parse_unsigned (2 ^ 64 - 1) value)

-- `n_threads`, from the value of ZIPRING_THREADS and the parallelism of the host, which is not zero
-- where it is known.
abbrev pub threads : Option ℕ → Option ℕ → ℕ
threads none parallelism = min (unwrap_or parallelism 1) 8
threads (some n) parallelism = n

unfoldable pub n_threads : Option Bytes → Option ℕ → ℕ
unfolding parse_digits
n_threads value = threads (parsed_threads value)
