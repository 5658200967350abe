-- ===== src/Prelude/Tests.antt =====
-- Boolean tests on the native numbers, the conditional, and runs that may panic.
use Prim.Native.Nat.{ℕ, ◌≤◌, ◌<◌, compare, Ordering}
use mathlib.Core.Path.{◌≡◌, refl}
use mathlib.Core.Logic.{◌↔◌, ◌⊎◌, inl, inr}
use mathlib.Core.Bool.{Bool, true, false}
use mathlib.Core.Option.{Option, none, some}
use native.Mathlib.Omega.{arith}

abbrev pub ltb : ℕ → ℕ → Bool
ltb a b = elim (compare a b) [ Ordering.lt ↦ true | _ ↦ false ]

abbrev pub leb : ℕ → ℕ → Bool
leb a b = elim (compare a b) [ Ordering.gt ↦ false | _ ↦ true ]

infix 50 ◌==◌
abbrev pub ◌==◌ : ℕ → ℕ → Bool
a == b = elim (compare a b) [ Ordering.eq ↦ true | _ ↦ false ]

infix 1 if◌then◌else◌
abbrev pub if◌then◌else◌ {ℓ} : {A : Type ℓ} → Bool → A → A → A
if true then x else y = x
if false then x else y = y

pub ltb→lt : (a b : ℕ) → ltb a b ≡ true → a < b
ltb→lt a b h = ground arith

pub lt→ltb : (a b : ℕ) → a < b → ltb a b ≡ true
lt→ltb a b h = ground arith

pub ltb-eq-false : (a b : ℕ) → b ≤ a → ltb a b ≡ false
ltb-eq-false a b h = ground arith

pub leb→le : (a b : ℕ) → leb a b ≡ true → a ≤ b
leb→le a b h = ground arith

pub le→leb : (a b : ℕ) → a ≤ b → leb a b ≡ true
le→leb a b h = ground arith

pub ==_iff : (a b : ℕ) → ((a == b) ≡ true) ↔ (a ≡ b)
==_iff a b = ground arith

pub Bool-cases : (b : Bool) → (b ≡ true) ⊎ (b ≡ false)
Bool-cases true = inl refl
Bool-cases false = inr refl

pub Option-cases {ℓ} : {A : Type ℓ} (o : Option A) → (o ≡ none) ⊎ ((a : A) × (o ≡ some a))
Option-cases none = inl refl
Option-cases (some a) = inr (a, refl)

-- What a Rust function does that may panic.
pub data Run {ℓ} (A : Type ℓ) : Type ℓ where
  panic : Run A
  ret : A → Run A

infixl 5 ◌>>=◌
abbrev pub ◌>>=◌ {ℓ κ} : {A : Type ℓ} {B : Type κ} → Run A → (A → Run B) → Run B
panic >>= f = panic
ret a >>= f = f a

pub >>=_assoc {ℓ κ μ} :
    {A : Type ℓ} {B : Type κ} {C : Type μ} (m : Run A) (f : A → Run B) (g : B → Run C)
    → ((m >>= f) >>= g) ≡ (m >>= λ a. f a >>= g)
>>=_assoc panic f g = refl
>>=_assoc (ret a) f g = refl

pub ret-injective {ℓ} : {A : Type ℓ} (a b : A) → ret a ≡ ret b → a ≡ b
ret-injective a b h = cc

-- What holds of the result, if there is one.
abbrev pub After {ℓ κ} : {A : Type ℓ} → (A → Type κ) → Run A → Type κ
After P panic = Unit
After P (ret a) = P a

pub After-refl {ℓ} : {A : Type ℓ} (m : Run A) → After (λ a. a ≡ a) m
After-refl panic = tt
After-refl (ret a) = refl

pub After->>= {ℓ κ μ ν} :
    {A : Type ℓ} {B : Type κ} (P : A → Type μ) (Q : B → Type ν) (m : Run A) (f : A → Run B)
    → After P m
    → ((a : A) → P a → After Q (f a))
    → After Q (m >>= f)
After->>= P Q panic f h k = tt
After->>= P Q (ret a) f h k = k a h

pub After-map {ℓ κ μ} :
    {A : Type ℓ} (P : A → Type κ) (Q : A → Type μ) (m : Run A)
    → After P m
    → ((a : A) → P a → After Q (ret a))
    → After Q m
After-map P Q panic h k = tt
After-map P Q (ret a) h k = k a h

pub After-if {ℓ κ} :
    {A : Type ℓ} (P : A → Type κ) (b : Bool) (m n : Run A)
    → After P m
    → After P n
    → After P (if b then m else n)
After-if P true m n h k = h
After-if P false m n h k = k

-- Where the test that guards a panic fails, what follows holds.
pub After-unless {ℓ κ} :
    {A : Type ℓ} (P : A → Type κ) (b : Bool) (m : Run A)
    → (b ≡ false → After P m)
    → After P (if b then panic else m)
After-unless P true m h = tt
After-unless P false m h = h refl
