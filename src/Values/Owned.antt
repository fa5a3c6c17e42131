-- ===== src/Values/Owned.antt =====
-- `OwnedValue` of libsane/src/value.rs.
use libsane_rs.Common.{ℕ, Bool, not, Option, none, some, ◌==◌, Outcome, ret, ◌>>=◌}
use libsane_rs.Strings.Buffer.{SaneString, to_bytes}
use libsane_rs.Values.Value.{ValueType, Value, BoolWords, sys_bool}

pub data OwnedValue : Type 0 where
  bool : Bool → OwnedValue
  int : ℕ → OwnedValue
  fixed : ℕ → OwnedValue
  string : SaneString → OwnedValue

unfoldable pub type_of : OwnedValue → ValueType
type_of (OwnedValue.bool b) = ValueType.bool
type_of (OwnedValue.int w) = ValueType.int
type_of (OwnedValue.fixed w) = ValueType.fixed
type_of (OwnedValue.string s) = ValueType.string

-- Borrowing a string reads it up to its NUL.
unfoldable pub as_ref : OwnedValue → Outcome Value
unfolding to_bytes
as_ref (OwnedValue.bool b) = ret (Value.bool b)
as_ref (OwnedValue.int w) = ret (Value.int w)
as_ref (OwnedValue.fixed w) = ret (Value.fixed w)
as_ref (OwnedValue.string s) = to_bytes s >>= λ bytes. ret (Value.string (record { bytes = bytes }))

unfoldable pub to_word : BoolWords → OwnedValue → Option ℕ
unfolding sys_bool
to_word c (OwnedValue.bool b) = some (sys_bool c b)
to_word c (OwnedValue.int w) = some w
to_word c (OwnedValue.fixed w) = some w
to_word c (OwnedValue.string s) = none

unfoldable pub from_word : BoolWords → ℕ → ValueType → Option OwnedValue
from_word c w ValueType.bool = some (OwnedValue.bool (not (w == c.sys_false)))
from_word c w ValueType.int = some (OwnedValue.int w)
from_word c w ValueType.fixed = some (OwnedValue.fixed w)
from_word c w _ = none
