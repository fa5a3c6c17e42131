-- ===== src/Values/Value.antt =====
-- `ValueType` and `Value` of libsane/src/value.rs. A word is its bits, and a `Fixed` is its word
-- (libsane/src/fixed.rs).
use libsane_rs.Common.{ℕ, Bool, true, false, not, Option, none, some, ◌==◌}
use libsane_rs.Sys
use libsane_rs.Strings.Buffer.{SaneStr}

pub data ValueType : Type 0 where
  bool int fixed string group button unknown : ValueType

-- The conversion from the codes of the library.
unfoldable pub from_sys : Sys.ValueType → ValueType
from_sys Sys.ValueType.bool = ValueType.bool
from_sys Sys.ValueType.int = ValueType.int
from_sys Sys.ValueType.fixed = ValueType.fixed
from_sys Sys.ValueType.string = ValueType.string
from_sys Sys.ValueType.group = ValueType.group
from_sys Sys.ValueType.button = ValueType.button
from_sys (Sys.ValueType.other k) = ValueType.unknown

unfoldable pub is_word_sized : ValueType → Bool
is_word_sized ValueType.bool = true
is_word_sized ValueType.int = true
is_word_sized ValueType.fixed = true
is_word_sized _ = false

unfoldable pub is_value : ValueType → Bool
is_value ValueType.bool = true
is_value ValueType.int = true
is_value ValueType.fixed = true
is_value ValueType.string = true
is_value _ = false

pub data Value : Type 0 where
  bool : Bool → Value
  int : ℕ → Value
  fixed : ℕ → Value
  string : SaneStr → Value

unfoldable pub type_of : Value → ValueType
type_of (Value.bool b) = ValueType.bool
type_of (Value.int w) = ValueType.int
type_of (Value.fixed w) = ValueType.fixed
type_of (Value.string s) = ValueType.string

-- The constants of the generated bindings, `sys::FALSE` and `sys::TRUE`.
pub record BoolWords : Type 0 where
  pub sys_false : ℕ
  pub sys_true : ℕ

unfoldable pub sys_bool : BoolWords → Bool → ℕ
sys_bool c false = c.sys_false
sys_bool c true = c.sys_true

unfoldable pub to_word : BoolWords → Value → Option ℕ
unfolding sys_bool
to_word c (Value.bool b) = some (sys_bool c b)
to_word c (Value.int w) = some w
to_word c (Value.fixed w) = some w
to_word c (Value.string s) = none

unfoldable pub from_word : BoolWords → ℕ → ValueType → Option Value
from_word c w ValueType.bool = some (Value.bool (not (w == c.sys_false)))
from_word c w ValueType.int = some (Value.int w)
from_word c w ValueType.fixed = some (Value.fixed w)
from_word c w _ = none
