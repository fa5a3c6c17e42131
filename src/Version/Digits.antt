-- ===== src/Version/Digits.antt =====
-- Numbers that do not overlap in their binary digits, under `|` and `&`.
use Prim.Native.Nat.{digits, bit_and-bitwise, bit_or-bitwise, max}
use libsane_rs.Common.{
  ℕ, zero, suc, ◌+◌, ◌*◌, ◌/◌, ◌<◌, ◌≤◌, ◌≡◌, refl, ◌∙◌, arith, min, bit_and, bit_or,
}

-- The bound of the numbers of `k` digits, and the number before it.
abbrev pub bound : ℕ → ℕ
bound zero = 1
bound (suc k) = bound k * 2

abbrev pub ones : ℕ → ℕ
ones zero = 0
ones (suc k) = ones k * 2 + 1

-- A number with `k` digits 0 put behind it.
abbrev pub moved : ℕ → ℕ → ℕ
moved zero x = x
moved (suc k) x = moved k x * 2

and_of : ℕ → ℕ → ℕ → ℕ
and_of = digits (λ b. zero) min

or_of : ℕ → ℕ → ℕ → ℕ
or_of = digits (λ b. b) max

half_ones : (k : ℕ) → ones (suc k) / 2 ≡ ones k
half_ones k = omega arith

and_ones : (k n a : ℕ) → a ≤ n → a < bound k → and_of n a (ones k) ≡ a
unfolding and_of
and_ones k zero zero h l = refl
and_ones k zero (suc a) h l = absurd (omega arith)
and_ones k (suc n) zero h l = refl
and_ones zero (suc n) (suc a) h l = absurd (omega arith)
and_ones (suc k) (suc n) (suc a) h l =
    rw (half_ones k) (omega (arith, and_ones k n (suc a / 2) (omega arith) (omega arith)))

or_zero : (n a : ℕ) → a ≤ n → or_of n a 0 ≡ a
unfolding or_of
or_zero zero zero h = refl
or_zero zero (suc a) h = absurd (omega arith)
or_zero (suc n) zero h = refl
or_zero (suc n) (suc a) h = omega (arith, or_zero n (suc a / 2) (omega arith))

or_behind : (k n a x b : ℕ) → a ≡ moved k x → a ≤ n → b < bound k → or_of n a b ≡ a + b
unfolding or_of
or_behind k zero zero x b e h l = omega arith
or_behind k zero (suc a) x b e h l = absurd (omega arith)
or_behind k (suc n) zero x b e h l = omega arith
or_behind zero (suc n) (suc a) x zero e h l = omega (arith, or_zero (suc n) (suc a) h)
or_behind zero (suc n) (suc a) x (suc b) e h l = absurd (omega arith)
or_behind (suc k) (suc n) (suc a) x b e h l =
    omega
      (arith, or_behind k n (suc a / 2) x (b / 2) (omega (arith, e)) (omega arith) (omega arith))

-- The digits of a number of so many.
pub bit_and-ones : (k a : ℕ) → a < bound k → bit_and a (ones k) ≡ a
unfolding and_of
bit_and-ones k a l = bit_and-bitwise a (ones k) ∙ and_ones k a a (omega arith) l

-- A number behind one that ends in as many digits 0.
pub bit_or-moved : (k x b : ℕ) → b < bound k → bit_or (moved k x) b ≡ moved k x + b
unfolding or_of
bit_or-moved k x b l =
    bit_or-bitwise (moved k x) b ∙ or_behind k (moved k x) (moved k x) x b refl (omega arith) l
