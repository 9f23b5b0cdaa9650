-- ===== src/Base/Tests.antt =====
-- Boolean tests on native numbers, the conditional, and Go's `int` as a 64-bit pattern.
use Prim.Native.Nat.{ℕ, ◌+◌, ◌-◌, ◌/◌, ◌%◌, ◌^◌, compare, Ordering}
use mathlib.Core.Path.{◌≡◌, refl}
use mathlib.Core.Logic.{◌↔◌, ◌⊎◌, inl, inr}
use mathlib.Core.Bool.{Bool, true, false}
use mathlib.Core.Option.{Option, none, some}
use native.Mathlib.Omega.{arith}

abbrev pub ltb : ℕ → ℕ → Bool
ltb a b = elim (compare a b) [ Ordering.lt ↦ true | _ ↦ false ]

abbrev pub leb : ℕ → ℕ → Bool
leb a b = elim (compare a b) [ Ordering.gt ↦ false | _ ↦ true ]

infix 50 ◌==◌
abbrev pub ◌==◌ : ℕ → ℕ → Bool
a == b = elim (compare a b) [ Ordering.eq ↦ true | _ ↦ false ]

infix 1 if◌then◌else◌
abbrev pub if◌then◌else◌ {ℓ} : {A : Type ℓ} → Bool → A → A → A
if true then x else y = x
if false then x else y = y

pub ==_iff : (a b : ℕ) → ((a == b) ≡ true) ↔ (a ≡ b)
==_iff a b = ground arith

pub Bool-cases : (b : Bool) → (b ≡ true) ⊎ (b ≡ false)
Bool-cases true = inl refl
Bool-cases false = inr refl

-- what holds of both branches holds of the test
pub if_cases {ℓ κ} :
    {A : Type ℓ} (P : A → Type κ) (b : Bool) {x y : A} → P x → P y → P (if b then x else y)
if_cases P true h k = h
if_cases P false h k = k

pub Option-cases {ℓ} : {A : Type ℓ} (o : Option A) → (o ≡ none) ⊎ ((a : A) × (o ≡ some a))
Option-cases none = inl refl
Option-cases (some a) = inr (a, refl)

-- A Go `int` is its pattern below 2 ^ 64; the signed order is the unsigned one after an offset.
abbrev pub int_mod : ℕ
int_mod = 2 ^ 64

abbrev pub int_lt : ℕ → ℕ → Bool
int_lt a b = ltb ((a + 2 ^ 63) % 2 ^ 64) ((b + 2 ^ 63) % 2 ^ 64)

-- the signed order of 32-bit patterns
abbrev pub int32_lt : ℕ → ℕ → Bool
int32_lt a b = ltb ((a + 2 ^ 31) % 2 ^ 32) ((b + 2 ^ 31) % 2 ^ 32)

-- `a / k` and `a % k` of an `int` by a positive constant: both round toward 0.
abbrev pub int_quot : ℕ → ℕ → ℕ
int_quot a k = if leb (2 ^ 63) a then (2 ^ 64 - (2 ^ 64 - a) / k) % 2 ^ 64 else a / k

abbrev pub int_rem : ℕ → ℕ → ℕ
int_rem a k = if leb (2 ^ 63) a then (2 ^ 64 - (2 ^ 64 - a) % k) % 2 ^ 64 else a % k
