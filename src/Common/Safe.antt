-- ===== src/Common/Safe.antt =====
-- What holds of a call however it ends: no undefined behaviour, and a property of the value if
-- there is one. A panic is safe.
use Prim.Native.Nat.{ℕ, ◌+◌, ◌-◌, ◌*◌, ◌≤◌, ◌<◌}
use mathlib.Core.Path.{◌≡◌, refl}
use mathlib.Core.Logic.{inl, inr, ◌⊎◌}
use mathlib.Core.Bool.{Bool, true, false}
use mathlib.Core.List.{List}
use native.Mathlib.Omega.{arith}
use libsane_rs.Common.Tests.{Bool-cases, if◌then◌else◌, ltb, leb, leb→le, ltb→lt}
use libsane_rs.Common.Lists.{length, take, replicate, length-replicate}
use libsane_rs.Common.Effects.{Outcome, ret, panic, ub, ◌>>=◌}
use libsane_rs.Common.Slice.{slice_to}
use libsane_rs.Common.Vec.{
  Env, Vec, mul_at, reserve, grown, reserve_exact, Reserved, MaybeUninit, isize_max,
}
use mathlib.Core.Option.{none}

abbrev pub Safe {ℓ} : {A : Type ℓ} → (A → Type 0) → Outcome A → Type 0
Safe P (ret a) = P a
Safe P panic = Unit
Safe P ub = ⊥

module _ {ℓ κ} {A : Type ℓ} {B : Type κ} (Q : A → Type 0) (P : B → Type 0) where
  -- A step and what follows it.
  pub Safe->>= :
      (m : Outcome A) (f : A → Outcome B)
      → Safe Q m
      → ((a : A) → Q a → Safe P (f a))
      → Safe P (m >>= f)
  Safe->>= (ret a) f h k = k a h
  Safe->>= panic f h k = tt
  Safe->>= ub f h k = absurd h

pub mul_at-cases :
    (m : ℕ) (e : Env) (a b : ℕ)
    → e.overflow_checks ≡ true
    → (mul_at m e a b ≡ ret (a * b)) ⊎ (mul_at m e a b ≡ panic)
unfolding mul_at
mul_at-cases m e a b checks = elim (Bool-cases (ltb (a * b) m)) [
  | inl small ↦ inl (rw small)
  | inr large ↦ inr (rw (large, checks))
]

pub Safe-assoc {ℓ κ μ} :
    {A : Type ℓ} {B : Type κ} {C : Type μ} (P : C → Type 0) (m : Outcome A) (f : A → Outcome B)
    (k : B → Outcome C)
    → Safe P ((m >>= f) >>= k)
    → Safe P (m >>= λ a. f a >>= k)
Safe-assoc P (ret a) f k h = h
Safe-assoc P panic f k h = tt
Safe-assoc P ub f k h = absurd h

module _ {ℓ} {A : Type ℓ} (P : A → Type 0) where
  pub Safe-if :
      (b : Bool) (m n : Outcome A)
      → (b ≡ true → Safe P m)
      → (b ≡ false → Safe P n)
      → Safe P (if b then m else n)
  Safe-if true m n h k = h refl
  Safe-if false m n h k = k refl

  -- A product where the build checks for overflow.
  pub Safe-mul_at :
      (modulus : ℕ) (e : Env) (a b : ℕ) (f : ℕ → Outcome A)
      → e.overflow_checks ≡ true
      → (a * b < modulus → Safe P (f (a * b)))
      → Safe P (mul_at modulus e a b >>= f)
  unfolding mul_at
  Safe-mul_at modulus e a b f checks h = elim (Bool-cases (ltb (a * b) modulus)) [
    | inl small ↦ rw small (h (ltb→lt _ _ small))
    | inr large ↦ rw (large, checks) tt
  ]

  pub Safe-slice_to {κ} :
      {B : Type κ} (n : ℕ) (xs : List B) (f : List B → Outcome A)
      → (n ≤ length xs → Safe P (f (take n xs)))
      → Safe P (slice_to n xs >>= f)
  unfolding slice_to
  Safe-slice_to n xs f h = elim (Bool-cases (leb n (length xs))) [
    | inl inside ↦ rw inside (h (leb→le _ _ inside))
    | inr outside ↦ rw outside tt
  ]

  pub Safe-reserve :
      (e : Env) (n : ℕ) (v : Vec) (f : Vec → Outcome A)
      → ((w : Vec) → Reserved v n w → Safe P (f w))
      → Safe P (reserve e n v >>= f)
  unfolding reserve
  Safe-reserve e n v f h = elim (Bool-cases (leb n (length v.spare))) [
    | inl enough ↦ rw enough (h v (record { same = refl; room = leb→le _ _ enough }))
    | inr short ↦ elim (Bool-cases (leb (grown v n) isize_max)) [
      | inl fits ↦
          let k = grown v n - length v.bytes + e.slack in
          rw (short, fits)
            (h (record v { spare = replicate k none })
              (record {
                same = refl;
                room = omega (arith, length-replicate {0} {A = MaybeUninit} k none);
              }))
      | inr large ↦ rw (short, large) tt
    ]
  ]

  pub Safe-reserve_exact :
      (e : Env) (n : ℕ) (v : Vec) (f : Vec → Outcome A)
      → ((w : Vec) → Reserved v n w → Safe P (f w))
      → Safe P (reserve_exact e n v >>= f)
  unfolding reserve_exact
  Safe-reserve_exact e n v f h = elim (Bool-cases (leb n (length v.spare))) [
    | inl enough ↦ rw enough (h v (record { same = refl; room = leb→le _ _ enough }))
    | inr short ↦ elim (Bool-cases (leb (length v.bytes + n) isize_max)) [
      | inl fits ↦
          rw (short, fits)
            (h (record v { spare = replicate (n + e.slack) none })
              (record {
                same = refl;
                room = omega (arith, length-replicate {0} {A = MaybeUninit} (n + e.slack) none);
              }))
      | inr large ↦ rw (short, large) tt
    ]
  ]

-- A product is never undefined.
pub mul_at-defined : (m : ℕ) (e : Env) (a b : ℕ) → Safe {A = ℕ} (λ _. Unit) (mul_at m e a b)
unfolding mul_at
mul_at-defined m e a b = elim (Bool-cases (ltb (a * b) m)) [
  | inl small ↦ rw small tt
  | inr large ↦ elim (Bool-cases e.overflow_checks) [
    | inl checks ↦ rw (large, checks) tt
    | inr wraps ↦ rw (large, wraps) tt
  ]
]

-- A step that is defined, with the equation of its value for what follows.
pub Safe-value {ℓ κ} :
    {A : Type ℓ} {B : Type κ} (P : B → Type 0) (m : Outcome A) (f : A → Outcome B)
    → Safe {A = A} (λ _. Unit) m
    → ((a : A) → m ≡ ret a → Safe P (f a))
    → Safe P (m >>= f)
Safe-value P (ret a) f h k = k a refl
Safe-value P panic f h k = tt
Safe-value P ub f h k = absurd h

pub Safe-weaken {ℓ} :
    {A : Type ℓ} (P Q : A → Type 0) (m : Outcome A) → ((a : A) → P a → Q a) → Safe P m → Safe Q m
Safe-weaken P Q (ret a) h k = h a k
Safe-weaken P Q panic h k = tt
Safe-weaken P Q ub h k = absurd k
