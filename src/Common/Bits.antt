-- ===== src/Common/Bits.antt =====
-- `x & 0b111`, the test of the decoder for whole bytes, is the remainder by 8.
use Prim.Native.Nat.{ℕ, zero, suc, ◌/◌, ◌%◌, ◌≤◌, min, bit_and, digits, bit_and-bitwise}
use mathlib.Core.Path.{◌≡◌, refl, ◌∙◌}
use native.Mathlib.Omega.{arith}

-- `mask n a b` is `bit_and a b` by its digits, for any bound `n` of `a`.
abbrev mask : ℕ → ℕ → ℕ → ℕ
mask = digits (λ b. zero) min

no_ones : (bound a : ℕ) → a ≤ bound → mask bound a 0 ≡ 0
no_ones zero zero h = refl
no_ones zero (suc a) h = absurd (omega arith)
no_ones (suc k) zero h = refl
no_ones (suc k) (suc a) h = omega (arith, no_ones k (suc a / 2) (omega arith))

one_one : (bound a : ℕ) → a ≤ bound → mask bound a 1 ≡ a % 2
one_one zero zero h = refl
one_one zero (suc a) h = absurd (omega arith)
one_one (suc k) zero h = refl
one_one (suc k) (suc a) h = omega (arith, no_ones k (suc a / 2) (omega arith))

two_ones : (bound a : ℕ) → a ≤ bound → mask bound a 3 ≡ a % 4
two_ones zero zero h = refl
two_ones zero (suc a) h = absurd (omega arith)
two_ones (suc k) zero h = refl
two_ones (suc k) (suc a) h = omega (arith, one_one k (suc a / 2) (omega arith))

three_ones : (bound a : ℕ) → a ≤ bound → mask bound a 7 ≡ a % 8
three_ones zero zero h = refl
three_ones zero (suc a) h = absurd (omega arith)
three_ones (suc k) zero h = refl
three_ones (suc k) (suc a) h = omega (arith, two_ones k (suc a / 2) (omega arith))

pub bit_and-seven : (a : ℕ) → bit_and a 7 ≡ a % 8
bit_and-seven a = bit_and-bitwise a 7 ∙ three_ones a a (omega arith)
