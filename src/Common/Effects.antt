-- ===== src/Common/Effects.antt =====
-- How a call of a Rust function ends: with a value, in a panic, or in undefined behaviour (an
-- `unsafe` block whose condition does not hold). `Result` is Rust's own, a value like any other.
use mathlib.Core.Path.{◌≡◌, refl}
use mathlib.Core.Bool.{Bool, true, false}

pub data Outcome {ℓ} (A : Type ℓ) : Type ℓ where
  ret : A → Outcome A
  panic : Outcome A
  ub : Outcome A

infixl 5 ◌>>=◌ ◌>>◌
abbrev pub ◌>>=◌ {ℓ κ} : {A : Type ℓ} {B : Type κ} → Outcome A → (A → Outcome B) → Outcome B
ret a >>= f = f a
panic >>= f = panic
ub >>= f = ub

abbrev pub ◌>>◌ {ℓ} : {B : Type ℓ} → Outcome (Unit {0}) → Outcome B → Outcome B
m >> k = m >>= λ _. k

-- `assert!` and the bounds checks of slices.
abbrev pub assert : Bool → Outcome (Unit {0})
assert true = ret tt
assert false = panic

-- The condition of an `unsafe` block.
abbrev pub require : Bool → Outcome (Unit {0})
require true = ret tt
require false = ub

pub data Result {ℓ κ} (A : Type ℓ) (E : Type κ) : Type (ℓ ⊔ κ) where
  ok : A → Result A E
  err : E → Result A E

pub >>=-eq-ret {ℓ κ} :
    {A : Type ℓ} {B : Type κ} (m : Outcome A) (f : A → Outcome B) {b : B}
    → (m >>= f) ≡ ret b
    → (a : A) × (m ≡ ret a) × (f a ≡ ret b)
>>=-eq-ret (ret a) f h = (a, refl, h)
>>=-eq-ret panic f h = cc
>>=-eq-ret ub f h = cc

-- Only a part that is undefined makes the whole undefined.
pub >>=-ne-ub {ℓ κ} :
    {A : Type ℓ} {B : Type κ} (m : Outcome A) (f : A → Outcome B)
    → ¬ (m ≡ ub)
    → ((a : A) → m ≡ ret a → ¬ (f a ≡ ub))
    → ¬ ((m >>= f) ≡ ub)
>>=-ne-ub (ret a) f h k e = k a refl e
>>=-ne-ub panic f h k e = cc
>>=-ne-ub ub f h k e = h refl

-- Two steps with one known result, before what follows.
pub >>=-continue {ℓ κ μ} :
    {A : Type ℓ} {B : Type κ} {C : Type μ} (m : Outcome A) (f : A → Outcome B) (k : B → Outcome C)
    {b : B}
    → (m >>= f) ≡ ret b
    → (m >>= λ a. f a >>= k) ≡ k b
>>=-continue (ret a) f k h = rw h
>>=-continue panic f k h = cc
>>=-continue ub f k h = cc
