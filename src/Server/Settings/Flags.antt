-- ===== src/Server/Settings/Flags.antt =====
-- Which lists of flags are taken, and what they set.
use zipring.Prelude.{
  Bool, true, false, not, ◌&&◌, ◌||◌, none, some, List, [], ◌∷◌, ◌≡◌, refl, inl, inr, Bool-cases,
  if◌then◌else◌, all,
}
use zipring.Prelude.Bytes.{Bytes, codes, eq_bytes, eq_bytes_iff, split_on}
use zipring.Server.Settings.{UringFlags, default_flags, flag_names, set_flag, set_flags, parse}

abbrev pub names : Bytes → List Bytes → Bool
names flag [] = false
names flag (name ∷ rest) = eq_bytes name flag || names flag rest

abbrev pub is_flag : Bytes → Bool
is_flag name =
    eq_bytes name (codes "single_issuer")
    || eq_bytes name (codes "coop_taskrun")
    || eq_bytes name (codes "defer_taskrun")

-- The flags that a list of names sets.
abbrev pub flags_of : List Bytes → UringFlags
flags_of list = record {
  single_issuer = names (codes "single_issuer") list;
  coop_taskrun = names (codes "coop_taskrun") list;
  defer_taskrun = names (codes "defer_taskrun") list;
}

abbrev pub joined : UringFlags → UringFlags → UringFlags
joined a b = record {
  single_issuer = a.single_issuer || b.single_issuer;
  coop_taskrun = a.coop_taskrun || b.coop_taskrun;
  defer_taskrun = a.defer_taskrun || b.defer_taskrun;
}

or_false : (b : Bool) → (b || false) ≡ b
or_false true = refl
or_false false = refl

or_true : (b : Bool) → (b || true) ≡ true
or_true true = refl
or_true false = refl

set_flag_lem :
    (flags : UringFlags) (name : Bytes)
    → set_flag flags name
      ≡ (if is_flag name then some (joined flags (flags_of (name ∷ []))) else none)
unfolding set_flag eq_bytes
set_flag_lem flags name = elim (Bool-cases (eq_bytes name (codes "single_issuer"))) [
  | inl e ↦ rw ((eq_bytes_iff name (codes "single_issuer")).0 e) (
      rw (or_true flags.single_issuer, or_false flags.coop_taskrun, or_false flags.defer_taskrun)
        refl)
  | inr e ↦ elim (Bool-cases (eq_bytes name (codes "coop_taskrun"))) [
    | inl e' ↦ rw ((eq_bytes_iff name (codes "coop_taskrun")).0 e') (
        rw (or_false flags.single_issuer, or_true flags.coop_taskrun, or_false flags.defer_taskrun)
          refl)
    | inr e' ↦ elim (Bool-cases (eq_bytes name (codes "defer_taskrun"))) [
      | inl e'' ↦ rw ((eq_bytes_iff name (codes "defer_taskrun")).0 e'') (
          rw
            (or_false flags.single_issuer, or_false flags.coop_taskrun, or_true flags.defer_taskrun)
            refl)
      | inr e'' ↦ rw (e, e', e'') refl
    ]
  ]
]

or_regroup : (a x y : Bool) → ((a || (x || false)) || y) ≡ (a || (x || y))
or_regroup true x y = refl
or_regroup false true y = refl
or_regroup false false y = refl

joined-joined :
    (flags : UringFlags) (name : Bytes) (rest : List Bytes)
    → joined (joined flags (flags_of (name ∷ []))) (flags_of rest)
      ≡ joined flags (flags_of (name ∷ rest))
joined-joined flags name rest =
    rw
      (
        or_regroup flags.single_issuer (eq_bytes name (codes "single_issuer"))
            (names (codes "single_issuer") rest),
        or_regroup flags.coop_taskrun (eq_bytes name (codes "coop_taskrun"))
            (names (codes "coop_taskrun") rest),
        or_regroup flags.defer_taskrun (eq_bytes name (codes "defer_taskrun"))
            (names (codes "defer_taskrun") rest),
      )
      refl

set_flags_lem :
    (flags : UringFlags) (list : List Bytes)
    → set_flags flags list
      ≡ (if all is_flag list then some (joined flags (flags_of list)) else none)
unfolding set_flags
set_flags_lem flags [] =
    rw (or_false flags.single_issuer, or_false flags.coop_taskrun, or_false flags.defer_taskrun)
      refl
set_flags_lem flags (name ∷ rest) = elim (Bool-cases (is_flag name)) [
  | inl e ↦
      rw (set_flag_lem flags name, e)
        (rw (← joined-joined flags name rest)
          (set_flags_lem (joined flags (flags_of (name ∷ []))) rest))
  | inr e ↦ rw (set_flag_lem flags name, e) refl
]

-- A list of flags is taken exactly when each of its names is one of the three, and `defer_taskrun` is
-- not among them without `single_issuer`. The flags that are set then are those that it names.
pub parse_lem :
    (list : Bytes)
    → let given = flag_names (split_on b',' list) in
      parse list ≡ (
        if all is_flag given
          && (not (names (codes "defer_taskrun") given) || names (codes "single_issuer") given)
        then some (flags_of given)
        else none)
unfolding parse
parse_lem list =
    let given = flag_names (split_on b',' list) in
    elim (Bool-cases (all is_flag given)) [
      | inr e ↦ rw (set_flags_lem default_flags given, e) refl
      | inl e ↦ elim (Bool-cases (names (codes "defer_taskrun") given)) [
        | inr e' ↦ rw (set_flags_lem default_flags given, e, e') refl
        | inl e' ↦ elim (Bool-cases (names (codes "single_issuer") given)) [
          | inl e'' ↦ rw (set_flags_lem default_flags given, e, e', e'') refl
          | inr e'' ↦ rw (set_flags_lem default_flags given, e, e', e'') refl
        ]
      ]
    ]
