-- ===== src/Common/Decimal.antt =====
-- Decimal numbers as Rust prints and reads them: `Display` of the unsigned integers and `parse` of
-- `usize`, on lists of characters.
use Prim.Native.Nat.{ℕ, zero, suc, ◌+◌, ◌-◌, ◌*◌, ◌/◌, ◌%◌, ◌^◌, ◌≤◌, ◌<◌}
use mathlib.Core.Path.{◌≡◌, refl, ap, ◌∙◌}
use mathlib.Core.Bool.{Bool, true, false, ◌&&◌}
use mathlib.Core.List.{List, [], ◌∷◌, ◌++◌}
use mathlib.Core.Logic.{◌≢◌, inl, inr}
use mathlib.Core.Option.{Option, none, some}
use native.Mathlib.Omega.{arith}
use libsane_rs.Common.Tests.{
  ◌==◌, ltb, leb, if◌then◌else◌, Bool-cases, lt→ltb, ltb→lt, ltb-false, ==_ne,
}
use libsane_rs.Common.Lists.{All, take, length}

unfoldable pub is_digit : ℕ → Bool
is_digit c = leb b'0' c && leb c b'9'

-- A digit in front of `out`, and the digits before it unless it is the first one.
emit : (ℕ → List ℕ → List ℕ) → Bool → ℕ → List ℕ → List ℕ
emit next true n out = (b'0' + n % 10) ∷ out
emit next false n out = next (n / 10) ((b'0' + n % 10) ∷ out)

-- The digits of `n`, in front of `out`.
unfoldable pub digits : ℕ → ℕ → List ℕ → List ℕ
unfolding emit
digits zero n out = (b'0' + n % 10) ∷ out
digits (suc fuel) n out = emit (digits fuel) (ltb n 10) n out

-- `Display`; there are fewer digits than the number has ones.
unfoldable pub show : ℕ → List ℕ
unfolding digits
show n = digits n n []

-- The number at the start of a text, and what stands behind it.
unfoldable pub read_number : List ℕ → ℕ → ℕ × List ℕ
unfolding is_digit
read_number [] n = (n, [])
read_number (c ∷ cs) n =
    let rest = read_number cs (n * 10 + (c - b'0')) in if is_digit c then rest else (n, c ∷ cs)

-- The loop of `parse`, with its checks for overflow.
unfoldable pub parse_digits : List ℕ → ℕ → Option ℕ
unfolding is_digit
parse_digits [] n = some n
parse_digits (c ∷ cs) n =
    let rest = parse_digits cs (n * 10 + (c - b'0')) in
    if is_digit c && ltb (n * 10 + (c - b'0')) (2 ^ 64) then rest else none

-- `parse::<usize>`, which takes a sign only before a digit.
unfoldable pub parse_usize : List ℕ → Option ℕ
unfolding parse_digits
parse_usize [] = none
parse_usize (c ∷ []) = parse_digits (c ∷ []) 0
parse_usize (c ∷ d ∷ cs) =
    if c == b'+' then parse_digits (d ∷ cs) 0 else parse_digits (c ∷ d ∷ cs) 0

is_digit-digit : (d : ℕ) → d < 10 → is_digit (b'0' + d) ≡ true
unfolding is_digit
is_digit-digit d h = ground (arith, h)

digit_value : (d : ℕ) → b'0' + d - b'0' ≡ d
digit_value d = omega arith

digits-zero : (n : ℕ) (out : List ℕ) → digits zero n out ≡ (b'0' + n % 10) ∷ out
unfolding digits
digits-zero n out = refl

digits-small : (fuel n : ℕ) (out : List ℕ) → n < 10 → digits fuel n out ≡ (b'0' + n % 10) ∷ out
unfolding digits
digits-small zero n out h = refl
digits-small (suc fuel) n out h = rw (lt→ltb n 10 h)

digits-large :
    (fuel n : ℕ) (out : List ℕ)
    → ltb n 10 ≡ false
    → digits (suc fuel) n out ≡ digits fuel (n / 10) ((b'0' + n % 10) ∷ out)
unfolding digits
digits-large fuel n out h = rw h

digits-append :
    (fuel n : ℕ) (out rest : List ℕ) → digits fuel n out ++ rest ≡ digits fuel n (out ++ rest)
digits-append zero n out rest = rw (digits-zero n out, digits-zero n (out ++ rest))
digits-append (suc fuel) n out rest = elim (Bool-cases (ltb n 10)) [
  | inl small ↦
      rw (digits-small (suc fuel) n out (ltb→lt _ _ small))
        (rw (digits-small (suc fuel) n (out ++ rest) (ltb→lt _ _ small)))
  | inr large ↦
      rw (digits-large fuel n out large, digits-large fuel n (out ++ rest) large)
        (digits-append fuel (n / 10) ((b'0' + n % 10) ∷ out) rest)
]

-- Every character is a digit.
digits-All :
    (fuel n : ℕ) (out : List ℕ)
    → All (λ c. is_digit c ≡ true) out
    → All (λ c. is_digit c ≡ true) (digits fuel n out)
digits-All zero n out h = rw (digits-zero n out) (is_digit-digit (n % 10) (omega arith), h)
digits-All (suc fuel) n out h = elim (Bool-cases (ltb n 10)) [
  | inl small ↦
      rw (digits-small (suc fuel) n out (ltb→lt _ _ small))
        (is_digit-digit (n % 10) (omega arith), h)
  | inr large ↦
      rw (digits-large fuel n out large) (
        digits-All fuel (n / 10) ((b'0' + n % 10) ∷ out) (is_digit-digit (n % 10) (omega arith), h))
]

pub show-All : (n : ℕ) → All (λ c. is_digit c ≡ true) (show n)
unfolding show
show-All n = digits-All n n [] tt

module _ {ℓ} {A : Type ℓ} (limit : ℕ) (f : List ℕ → ℕ → A)
    (step : (d m : ℕ) (out : List ℕ)
      → d < 10
      → m * 10 + d ≤ limit
      → f ((b'0' + d) ∷ out) m ≡ f out (m * 10 + d)) where
  one_digit :
      (m n : ℕ) (out : List ℕ)
      → n ≤ limit
      → m * 10 + n % 10 ≡ n
      → f ((b'0' + n % 10) ∷ out) m ≡ f out n
  one_digit m n out h e = step (n % 10) m out (omega arith) (omega arith) ∙ ap (f out) e

  -- What takes the digits in one by one, from 0, arrives at the number.
  fold-digits :
      (fuel n : ℕ) (out : List ℕ) → n ≤ fuel → n ≤ limit → f (digits fuel n out) 0 ≡ f out n
  unfolding digits
  fold-digits zero n out h k = rw (digits-zero n out) (one_digit 0 n out k (omega arith))
  fold-digits (suc fuel) n out h k = elim (Bool-cases (ltb n 10)) [
    | inl small ↦
        rw (digits-small (suc fuel) n out (ltb→lt _ _ small))
          (one_digit 0 n out k (omega (arith, ltb→lt _ _ small)))
    | inr large ↦ rw (digits-large fuel n out large) (
        fold-digits fuel (n / 10) ((b'0' + n % 10) ∷ out) (omega (arith, ltb-false _ _ large))
          (omega arith)
        ∙ one_digit (n / 10) n out k (omega arith))
  ]

read_number-digit :
    (d m : ℕ) (out : List ℕ)
    → d < 10
    → read_number ((b'0' + d) ∷ out) m ≡ read_number out (m * 10 + d)
unfolding read_number
read_number-digit d m out h = rw (is_digit-digit d h, digit_value d)

read_number-stop :
    (rest : List ℕ) (n : ℕ)
    → All (λ c. is_digit c ≡ false) (take 1 rest)
    → read_number rest n ≡ (n, rest)
unfolding read_number
read_number-stop [] n h = refl
read_number-stop (c ∷ cs) n h = rw h.0

-- What is read from the digits, if no other digit follows, is the number and what follows.
pub read_number-show :
    (n : ℕ) (rest : List ℕ)
    → All (λ c. is_digit c ≡ false) (take 1 rest)
    → read_number (show n ++ rest) 0 ≡ (n, rest)
unfolding show
read_number-show n rest stops = rw (digits-append n n [] rest) (
    fold-digits n read_number (λ d m out h k. read_number-digit d m out h) n n rest (omega arith)
      (omega arith)
    ∙ read_number-stop rest n stops)

parse_digits-digit :
    (d m : ℕ) (out : List ℕ)
    → d < 10
    → m * 10 + d ≤ 2 ^ 64 - 1
    → parse_digits ((b'0' + d) ∷ out) m ≡ parse_digits out (m * 10 + d)
unfolding parse_digits
parse_digits-digit d m out h k =
    rw (is_digit-digit d h, digit_value d) (rw (lt→ltb (m * 10 + d) (2 ^ 64) (omega arith)))

digit-ne-plus : (c : ℕ) → is_digit c ≡ true → c ≢ b'+'
unfolding is_digit
digit-ne-plus c h e = ground arith

plain :
    (cs : List ℕ)
    → All (λ c. is_digit c ≡ true) cs
    → 0 < length cs
    → parse_usize cs ≡ parse_digits cs 0
unfolding parse_usize
plain [] h k = absurd (omega arith)
plain (c ∷ []) h k = refl
plain (c ∷ d ∷ cs) h k = rw (==_ne c b'+' (digit-ne-plus c h.0))

length-digits : (fuel n : ℕ) (out : List ℕ) → 0 < length (digits fuel n out)
length-digits zero n out = rw (digits-zero n out) (omega arith)
length-digits (suc fuel) n out = elim (Bool-cases (ltb n 10)) [
  | inl small ↦ rw (digits-small (suc fuel) n out (ltb→lt _ _ small)) (omega arith)
  | inr large ↦
      rw (digits-large fuel n out large) (length-digits fuel (n / 10) ((b'0' + n % 10) ∷ out))
]

parse_digits-nil : (n : ℕ) → parse_digits [] n ≡ some n
unfolding parse_digits
parse_digits-nil n = refl

-- `parse` reads a printed `usize` back.
pub parse_usize-show : (n : ℕ) → n < 2 ^ 64 → parse_usize (show n) ≡ some n
unfolding show
parse_usize-show n h =
    plain (show n) (show-All n) (length-digits n n [])
    ∙ fold-digits (2 ^ 64 - 1) parse_digits parse_digits-digit n n [] (omega arith) (omega arith)
    ∙ parse_digits-nil n
