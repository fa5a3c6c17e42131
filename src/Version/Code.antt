-- ===== src/Version/Code.antt =====
-- `version_code` and its projections, libsane-sys/src/lib.rs, and `Version` of libsane/src/lib.rs. A
-- word is its 32 bits; a `u8` is a number below 2 ^ 8, and a `u16` one below 2 ^ 16.
use libsane_rs.Common.{
  ℕ, ◌+◌, ◌-◌, ◌*◌, ◌/◌, ◌%◌, ◌^◌, Bool, not, ltb, if◌then◌else◌, bit_and, bit_or, ◌==◌,
}

unfoldable pub shift_left : ℕ → ℕ → ℕ
shift_left w k = w * 2 ^ k % 2 ^ 32

-- `>>` of a signed word repeats its highest bit.
unfoldable pub shift_right : ℕ → ℕ → ℕ
shift_right w k = if ltb w (2 ^ 31) then w / 2 ^ k else w / 2 ^ k + (2 ^ 32 - 2 ^ (32 - k))

unfoldable pub version_code : ℕ → ℕ → ℕ → ℕ
unfolding shift_left
version_code major minor build =
    bit_or (bit_or (shift_left (bit_and major 0xff) 24) (shift_left (bit_and minor 0xff) 16))
      (bit_and build 0xffff)

unfoldable pub version_major : ℕ → ℕ
unfolding shift_right
version_major code = shift_right code 24 % 2 ^ 8

unfoldable pub version_minor : ℕ → ℕ
unfolding shift_right
version_minor code = shift_right code 16 % 2 ^ 8

unfoldable pub version_build : ℕ → ℕ
version_build code = code % 2 ^ 16

-- `Version::new` and its accessors pass the words on.
pub record Version : Type 0 where
  pub code : ℕ

unfoldable pub new : ℕ → ℕ → ℕ → Version
unfolding version_code
new major minor build = record { code = version_code major minor build }

unfoldable pub major : Version → ℕ
unfolding version_major
major v = version_major v.code

unfoldable pub minor : Version → ℕ
unfolding version_minor
minor v = version_minor v.code

unfoldable pub build : Version → ℕ
unfolding version_build
build v = version_build v.code

-- The derived `<`, of signed words: their order with the highest bit flipped.
unfoldable pub lt : Version → Version → Bool
lt v w = ltb ((v.code + 2 ^ 31) % 2 ^ 32) ((w.code + 2 ^ 31) % 2 ^ 32)

-- The option flags, with the constants of the bindings as arguments.
unfoldable pub option_is_active : ℕ → ℕ → Bool
option_is_active cap_inactive cap = bit_and cap cap_inactive == 0

unfoldable pub option_is_settable : ℕ → ℕ → Bool
option_is_settable cap_soft_select cap = not (bit_and cap cap_soft_select == 0)
