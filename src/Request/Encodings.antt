-- ===== src/Request/Encodings.antt =====
-- `AcceptedEncodings`, `EncodingVerdicts` and `is_zero_qvalue` of src/request/mod.rs.
pub mod Laws
use zipring.Prelude.{
  ℕ, zero, suc, Bool, true, false, not, ◌&&◌, ◌||◌, Option, none, some, List, [], ◌∷◌, leb, ◌==◌,
  length, take, drop, all, if◌then◌else◌,
}
use zipring.Prelude.Bytes.{Bytes, codes, eq_bytes, find_byte, split_on}
use zipring.Prelude.Ascii.{eq_ignore_ascii_case, trim_ascii}

pub record AcceptedEncodings : Type 0 where
  pub gzip : Bool
  pub zstd : Bool

pub record EncodingVerdicts : Type 0 where
  pub gzip : Option Bool
  pub zstd : Option Bool
  pub wildcard : Option Bool

abbrev pub no_verdicts : EncodingVerdicts
no_verdicts = record { gzip = none; zstd = none; wildcard = none }

-- The patterns `[b'0']` and `[b'0', b'.', decimals @ ..]` with its test.
abbrev zero_decimals : Bytes → Bool
zero_decimals [] = true
zero_decimals (d ∷ decimals) = d == b'.' && leb (length decimals) 3 && all (λ c. c == b'0') decimals

abbrev pub is_zero_weight : Bytes → Bool
is_zero_weight [] = false
is_zero_weight (c ∷ rest) = c == b'0' && zero_decimals rest

unfoldable pub is_zero_qvalue : Bytes → Bool
is_zero_qvalue param = elim (find_byte b'=' param) [
  | none ↦ false
  | some i ↦
      let name = take i param in
      let weight = drop (suc i) param in
      if not (eq_ignore_ascii_case (trim_ascii name) (codes "q"))
      then false
      else is_zero_weight (trim_ascii weight)
]

-- `parts.any(is_zero_qvalue)`
abbrev pub any_zero : List Bytes → Bool
any_zero [] = false
any_zero (p ∷ ps) = is_zero_qvalue p || any_zero ps

abbrev pub is_gzip : Bytes → Bool
is_gzip coding =
    eq_ignore_ascii_case coding (codes "gzip") || eq_ignore_ascii_case coding (codes "x-gzip")

abbrev pub is_zstd : Bytes → Bool
is_zstd coding = eq_ignore_ascii_case coding (codes "zstd")

abbrev pub is_wildcard : Bytes → Bool
is_wildcard coding = eq_bytes coding (codes "*")

-- The name and the parameters of an element: `parts.next()`, and what `parts` has left.
abbrev pub coding_of : List Bytes → Bytes
coding_of [] = []
coding_of (p ∷ ps) = trim_ascii p

abbrev pub params_of : List Bytes → List Bytes
params_of [] = []
params_of (p ∷ ps) = ps

-- One round of the loop of `read`.
unfoldable pub read_element : EncodingVerdicts → Bytes → EncodingVerdicts
read_element v element =
    let parts = split_on b';' element in
    let coding = coding_of parts in
    let acceptable = not (any_zero (params_of parts)) in
    if is_gzip coding
    then record v { gzip = some acceptable }
    else if is_zstd coding
    then record v { zstd = some acceptable }
    else if is_wildcard coding
    then record v { wildcard = some acceptable }
    else v

unfoldable pub read_elements : EncodingVerdicts → List Bytes → EncodingVerdicts
read_elements v [] = v
read_elements v (element ∷ rest) = read_elements (read_element v element) rest

unfoldable pub read : EncodingVerdicts → Bytes → EncodingVerdicts
unfolding read_elements
read v value = read_elements v (split_on b',' value)

-- `named.or(self.wildcard).unwrap_or(false)`
abbrev pub decide : Option Bool → Option Bool → Bool
decide (some b) wildcard = b
decide none (some b) = b
decide none none = false

unfoldable pub accepted : EncodingVerdicts → AcceptedEncodings
accepted v = record { gzip = decide v.gzip v.wildcard; zstd = decide v.zstd v.wildcard }
