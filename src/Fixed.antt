-- ===== src/Fixed.antt =====
-- `Fixed` of libsane/src/fixed.rs: its bits, its order and its arithmetic. A value is its word, as 32
-- bits.
use libsane_rs.Common.{
  ℕ, ◌+◌, ◌-◌, ◌*◌, ◌%◌, ◌^◌, ◌<◌, ◌≡◌, Bool, ltb, if◌then◌else◌, Outcome, ret, panic, ◌>>=◌,
}
use libsane_rs.Common.Int.{ℤ, pos, negsuc, ◌+ℤ◌, ◌-ℤ◌, signed, is_i32, word_of}
use libsane_rs.Common.Vec.{Env}
pub mod Arithmetic
mod Tests

pub record Fixed : Type 0 where
  pub word : ℕ

unfoldable pub from_bits : ℕ → Fixed
from_bits bits = record { word = bits }

unfoldable pub to_bits : Fixed → ℕ
to_bits x = x.word

-- An operation on two signed words: its exact value, or a panic, or the value that wraps round.
unfoldable pub exact_or_wrapped : Env → ℤ → ℕ → Outcome Fixed
exact_or_wrapped e exact wrapped =
    if is_i32 exact
    then ret (record { word = word_of exact })
    else if e.overflow_checks
    then panic
    else ret (record { word = wrapped })

unfoldable pub add : Env → Fixed → Fixed → Outcome Fixed
unfolding exact_or_wrapped
add e x rhs = exact_or_wrapped e (signed x.word +ℤ signed rhs.word) ((x.word + rhs.word) % 2 ^ 32)

unfoldable pub sub : Env → Fixed → Fixed → Outcome Fixed
unfolding exact_or_wrapped
sub e x rhs =
    exact_or_wrapped e (signed x.word -ℤ signed rhs.word) ((x.word + (2 ^ 32 - rhs.word)) % 2 ^ 32)

-- `x += rhs` and `x -= rhs`, as the value that `x` then has.
unfoldable pub add_assign : Env → Fixed → Fixed → Outcome Fixed
unfolding exact_or_wrapped
add_assign e x rhs =
    exact_or_wrapped e (signed x.word +ℤ signed rhs.word) ((x.word + rhs.word) % 2 ^ 32)

unfoldable pub sub_assign : Env → Fixed → Fixed → Outcome Fixed
unfolding exact_or_wrapped
sub_assign e x rhs =
    exact_or_wrapped e (signed x.word -ℤ signed rhs.word) ((x.word + (2 ^ 32 - rhs.word)) % 2 ^ 32)
