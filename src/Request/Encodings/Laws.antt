-- ===== src/Request/Encodings/Laws.antt =====
-- What the verdicts say of the lines read.
use zipring.Prelude.{
  ◌≡◌, refl, sym, ap, ◌∙◌, Bool, true, false, not, ◌||◌, Option, none, some, List, [], ◌∷◌, ◌++◌,
  arith, if◌then◌else◌, map,
}
use zipring.Prelude.Ascii.{to_lower, eq_ignore_ascii_case}
use zipring.Prelude.Bytes.{Bytes, codes, eq_bytes, eq_bytes_iff, split_on, split_on-append}
use zipring.Request.Encodings.{
  EncodingVerdicts, no_verdicts, is_zero_weight, any_zero, is_gzip, is_zstd, is_wildcard, coding_of,
  params_of, read_element, read_elements, read, decide, accepted,
}

read_elements-append :
    (v : EncodingVerdicts) (xs ys : List Bytes)
    → read_elements v (xs ++ ys) ≡ read_elements (read_elements v xs) ys
unfolding read_elements
read_elements-append v [] ys = refl
read_elements-append v (x ∷ xs) ys = read_elements-append (read_element v x) xs ys

-- Two field lines read like one line that joins them with a comma.
pub read-append :
    (v : EncodingVerdicts) (a b : Bytes) → read (read v a) b ≡ read v (a ++ (b',' ∷ b))
unfolding read
read-append v a b =
    sym (read_elements-append v (split_on b',' a) (split_on b',' b))
    ∙ ap (read_elements v) (sym (split_on-append b',' a b))

abbrev pub contains : List Bytes → Bytes → Bool
contains [] w = false
contains (x ∷ xs) w = eq_bytes w x || contains xs w

-- The spellings of zero that RFC 9110 has for a weight.
abbrev pub zero_weights : List Bytes
zero_weights = codes "0" ∷ codes "0." ∷ codes "0.0" ∷ codes "0.00" ∷ codes "0.000" ∷ []

-- A weight is read as zero exactly when it is one of the five spellings of zero.
pub is_zero_weight_lem : (w : Bytes) → is_zero_weight w ≡ contains zero_weights w
unfolding eq_bytes
is_zero_weight_lem [] = refl
is_zero_weight_lem (a ∷ []) = ground arith
is_zero_weight_lem (a ∷ b ∷ []) = ground arith
is_zero_weight_lem (a ∷ b ∷ c ∷ []) = ground arith
is_zero_weight_lem (a ∷ b ∷ c ∷ d ∷ []) = ground arith
is_zero_weight_lem (a ∷ b ∷ c ∷ d ∷ e ∷ []) = ground arith
is_zero_weight_lem (a ∷ b ∷ c ∷ d ∷ e ∷ f ∷ w) = ground arith

-- The verdict of the last element whose coding fits.
abbrev pub verdict_of : Bytes → Bool
verdict_of element = not (any_zero (params_of (split_on b';' element)))

abbrev pub last_verdict : (Bytes → Bool) → List Bytes → Option Bool → Option Bool
last_verdict fits [] old = old
last_verdict fits (element ∷ rest) old =
    last_verdict fits rest
      (if fits (coding_of (split_on b';' element)) then some (verdict_of element) else old)

-- The three names exclude one another.
zstd-not-gzip : (c : Bytes) → is_zstd c ≡ true → is_gzip c ≡ false
unfolding eq_ignore_ascii_case eq_bytes
zstd-not-gzip c h = rw ((eq_bytes_iff (map to_lower c) (map to_lower (codes "zstd"))).0 h)

wildcard-not-named : (c : Bytes) → is_wildcard c ≡ true → (is_gzip c ≡ false) × (is_zstd c ≡ false)
unfolding eq_ignore_ascii_case eq_bytes
wildcard-not-named c h = rw ((eq_bytes_iff c (codes "*")).0 h) (refl, refl)

module _ (v : EncodingVerdicts) (element : Bytes) where
  gzip-read_element :
      (read_element v element).gzip
      ≡ (if is_gzip (coding_of (split_on b';' element)) then some (verdict_of element) else v.gzip)
  unfolding read_element
  gzip-read_element = ground arith

  zstd-read_element :
      (read_element v element).zstd
      ≡ (if is_zstd (coding_of (split_on b';' element)) then some (verdict_of element) else v.zstd)
  unfolding read_element
  zstd-read_element = ground (arith, zstd-not-gzip (coding_of (split_on b';' element)))

  wildcard-read_element : (read_element v element).wildcard ≡ (
      if is_wildcard (coding_of (split_on b';' element))
      then some (verdict_of element)
      else v.wildcard)
  unfolding read_element
  wildcard-read_element = ground (arith, wildcard-not-named (coding_of (split_on b';' element)))

read_elements-last_verdict :
    (v : EncodingVerdicts) (es : List Bytes)
    → read_elements v es ≡ record {
      gzip = last_verdict is_gzip es v.gzip;
      zstd = last_verdict is_zstd es v.zstd;
      wildcard = last_verdict is_wildcard es v.wildcard;
    }
unfolding read_elements
read_elements-last_verdict v [] = refl
read_elements-last_verdict v (e ∷ es) =
    read_elements-last_verdict (read_element v e) es
    ∙ rw (gzip-read_element v e, zstd-read_element v e, wildcard-read_element v e)

-- From no verdicts, a coding is accepted exactly when the last element that names it does, or,
-- where none names it, the last element that is `*`; where there is neither it is refused.
pub accepted-read :
    (value : Bytes)
    → let es = split_on b',' value in
      accepted (read no_verdicts value) ≡ record {
        gzip = decide (last_verdict is_gzip es none) (last_verdict is_wildcard es none);
        zstd = decide (last_verdict is_zstd es none) (last_verdict is_wildcard es none);
      }
unfolding accepted read
accepted-read value = rw read_elements-last_verdict
