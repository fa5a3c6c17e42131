-- ===== src/Common/Returns.antt =====
-- What holds of the value of a call, if it returns one; a panic and undefined behaviour are let pass.
use mathlib.Core.Path.{◌≡◌, refl}
use mathlib.Core.Bool.{Bool, true, false}
use libsane_rs.Common.Tests.{if◌then◌else◌}
use libsane_rs.Common.Effects.{Outcome, ret, panic, ub, ◌>>=◌}

-- What holds of the value of a call, if it returns one.
abbrev pub Returns {ℓ} : {A : Type ℓ} → (A → Type 0) → Outcome A → Type 0
Returns P (ret a) = P a
Returns P panic = Unit
Returns P ub = Unit

module _ {ℓ κ} {A : Type ℓ} {B : Type κ} (P : B → Type 0) where
  pub Returns->>= :
      (m : Outcome A) (f : A → Outcome B) → ((a : A) → Returns P (f a)) → Returns P (m >>= f)
  Returns->>= (ret a) f h = h a
  Returns->>= panic f h = tt
  Returns->>= ub f h = tt

  -- The same where something is known of the first value.
  pub Returns-then :
      (Q : A → Type 0) (m : Outcome A) (f : A → Outcome B)
      → Returns Q m
      → ((a : A) → Q a → Returns P (f a))
      → Returns P (m >>= f)
  Returns-then Q (ret a) f k h = h a k
  Returns-then Q panic f k h = tt
  Returns-then Q ub f k h = tt

pub Returns-if {ℓ} :
    {A : Type ℓ} (P : A → Type 0) (b : Bool) (m n : Outcome A)
    → (b ≡ true → Returns P m)
    → (b ≡ false → Returns P n)
    → Returns P (if b then m else n)
Returns-if P true m n h k = h refl
Returns-if P false m n h k = k refl
