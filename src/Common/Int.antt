-- ===== src/Common/Int.antt =====
-- Integers over the native numbers, and the two's complement of 32 bits.
use Prim.Native.Nat.{ℕ, ◌+◌, ◌-◌, ◌^◌}
use mathlib.Core.Bool.{Bool}
use libsane_rs.Common.Tests.{ltb, leb, if◌then◌else◌}

-- `negsuc n` is -(n + 1).
pub data ℤ : Type 0 where
  pos : ℕ → ℤ
  negsuc : ℕ → ℤ

-- The difference of two numbers.
abbrev pub diff : ℕ → ℕ → ℤ
diff a b = if leb b a then pos (a - b) else negsuc (b - a - 1)

infixl 65 ◌+ℤ◌ ◌-ℤ◌
unfoldable pub ◌+ℤ◌ : ℤ → ℤ → ℤ
pos a +ℤ pos b = pos (a + b)
pos a +ℤ negsuc b = diff a (b + 1)
negsuc a +ℤ pos b = diff b (a + 1)
negsuc a +ℤ negsuc b = negsuc (a + b + 1)

unfoldable pub ◌-ℤ◌ : ℤ → ℤ → ℤ
pos a -ℤ pos b = diff a b
pos a -ℤ negsuc b = pos (a + b + 1)
negsuc a -ℤ pos b = negsuc (a + b)
negsuc a -ℤ negsuc b = diff b a

-- The value of a word of 32 bits.
abbrev pub signed : ℕ → ℤ
signed w = if ltb w (2 ^ 31) then pos w else negsuc (2 ^ 32 - 1 - w)

-- Whether an integer is the value of a word.
abbrev pub is_i32 : ℤ → Bool
is_i32 (pos n) = ltb n (2 ^ 31)
is_i32 (negsuc n) = ltb n (2 ^ 31)

-- Its word, where it is.
abbrev pub word_of : ℤ → ℕ
word_of (pos n) = n
word_of (negsuc n) = 2 ^ 32 - 1 - n
