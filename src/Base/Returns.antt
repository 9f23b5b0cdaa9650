-- ===== src/Base/Returns.antt =====
-- A Go call returns or panics; an `error` is its message, nil being `none`.
use mathlib.Core.Option.{Option}
use mathlib.Core.Path.{◌≡◌, refl}
use Prim.Native.Nat.{ℕ}
use mathlib.Core.List.{List}

abbrev pub Error : Type 0
Error = Option (List ℕ)

pub data Outcome {ℓ} (A : Type ℓ) : Type ℓ where
  ret : A → Outcome A
  panic : Outcome A

infixl 5 ◌>>=◌
abbrev pub ◌>>=◌ {ℓ κ} : {A : Type ℓ} {B : Type κ} → Outcome A → (A → Outcome B) → Outcome B
ret a >>= f = f a
panic >>= f = panic

pub >>=-eq-ret {ℓ κ} :
    {A : Type ℓ} {B : Type κ} (m : Outcome A) (f : A → Outcome B) {b : B}
    → (m >>= f) ≡ ret b
    → (a : A) × (m ≡ ret a) × (f a ≡ ret b)
>>=-eq-ret (ret a) f h = (a, refl, h)
>>=-eq-ret panic f h = cc

pub ret-injective {ℓ} : {A : Type ℓ} {a b : A} → ret a ≡ ret b → a ≡ b
ret-injective h = cc
