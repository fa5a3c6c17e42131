-- ===== src/Version/Numbers.antt =====
-- The three numbers of a `Version`, libsane/src/lib.rs, and the order of versions.
use libsane_rs.Common.{
  ℕ, ◌+◌, ◌*◌, ◌%◌, ◌^◌, ◌<◌, ◌≡◌, ◌↔◌, ◌⊎◌, ap, ◌∙◌, arith, true, ltb→lt, lt→ltb, bit_or,
}
use libsane_rs.Version.Code.{
  shift_left, shift_right, version_code, version_major, version_minor, version_build, Version, new,
  major, minor, build, lt,
}
use libsane_rs.Version.Digits.{moved, bit_and-ones, bit_or-moved}

-- The numbers that `Version::new` takes, by their types.
pub record Numbers : Type 0 where
  pub first : ℕ
  pub second : ℕ
  pub third : ℕ
  pub first_u8 : first < 2 ^ 8
  pub second_u8 : second < 2 ^ 8
  pub third_u16 : third < 2 ^ 16

abbrev value_of : Numbers → ℕ
value_of n = n.first * 2 ^ 24 + n.second * 2 ^ 16 + n.third

moved_24 : (x : ℕ) → x < 2 ^ 8 → x * 2 ^ 24 % 2 ^ 32 ≡ moved 24 x
moved_24 x l = omega arith

moved_16 : (x : ℕ) → x < 2 ^ 16 → x * 2 ^ 16 % 2 ^ 32 ≡ moved 16 x
moved_16 x l = omega arith

version_code-value : (n : Numbers) → version_code n.first n.second n.third ≡ value_of n
unfolding version_code shift_left
version_code-value n =
    let upper : moved 24 n.first + moved 16 n.second ≡ moved 16 (n.first * 2 ^ 8 + n.second) =
      omega arith in
    rw
      (
        bit_and-ones 8 n.first n.first_u8,
        bit_and-ones 8 n.second n.second_u8,
        bit_and-ones 16 n.third n.third_u16,
        moved_24 n.first n.first_u8,
        moved_16 n.second (omega (arith, n.second_u8)),
      )
      (ap (λ k. bit_or k n.third)
          (bit_or-moved 24 n.first (moved 16 n.second) (omega (arith, n.second_u8)) ∙ upper)
        ∙ bit_or-moved 16 (n.first * 2 ^ 8 + n.second) n.third n.third_u16
        ∙ omega arith)

-- The version of three numbers.
abbrev pub of : Numbers → Version
of n = new n.first n.second n.third

-- The order of the numbers, the first one first.
abbrev pub Before : Numbers → Numbers → Type 0
Before n m =
    (n.first < m.first)
    ⊎ ((n.first ≡ m.first)
        × ((n.second < m.second) ⊎ ((n.second ≡ m.second) × (n.third < m.third))))

-- The code of a version below 128 is no negative word, and so its order with the highest bit flipped
-- is that of the codes.
flipped :
    (n : Numbers)
    → n.first < 128
    → (version_code n.first n.second n.third + 2 ^ 31) % 2 ^ 32 ≡ value_of n + 2 ^ 31
flipped n l = rw (version_code-value n) (omega (arith, n.second_u8, n.third_u16))

Before-value : (n m : Numbers) → Before n m → value_of n < value_of m
Before-value n m h = ground (arith, n.second_u8, n.third_u16, m.second_u8, m.third_u16)

value-Before : (n m : Numbers) → value_of n < value_of m → Before n m
value-Before n m h = ground (arith, n.second_u8, n.third_u16, m.second_u8, m.third_u16)

-- Versions whose first numbers are below 128 are ordered by their numbers, the first one first.
pub lt-new :
    (n m : Numbers) → n.first < 128 → m.first < 128 → (lt (of n) (of m) ≡ true) ↔ Before n m
unfolding lt new
lt-new n m small little =
    rw (flipped n small, flipped m little)
      (
        (λ e. value-Before n m (omega (arith, ltb→lt _ _ e))),
        (λ h. lt→ltb _ _ (omega (arith, Before-value n m h))),
      )

-- A version of a `u8`, a `u8` and a `u16` gives these three numbers back.
pub new-Numbers :
    (n : Numbers) → (major (of n) ≡ n.first) × (minor (of n) ≡ n.second) × (build (of n) ≡ n.third)
unfolding major minor build version_major version_minor version_build shift_right new
new-Numbers n = rw (version_code-value n) (
  ground (arith, n.first_u8, n.second_u8, n.third_u16),
  ground (arith, n.first_u8, n.second_u8, n.third_u16),
  omega (arith, n.first_u8, n.second_u8, n.third_u16),
)
