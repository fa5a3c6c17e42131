-- ===== src/Options/Descriptor.antt =====
-- What `DeviceOption` of libsane/src/device/options.rs makes of the fields of a descriptor, inside the
-- access that its methods ask for (Options/Accessors and Options/Access).
use libsane_rs.Common.{
  ℕ, ◌+◌, ◌-◌, ◌^◌, Bool, Option, none, some, List, ltb, if◌then◌else◌, Outcome, ret, ub, ◌>>=◌,
}
use libsane_rs.Sys
use libsane_rs.Sys.{ConstraintType}
use libsane_rs.Strings.Buffer.{SaneStr}
use libsane_rs.Values.Value.{ValueType, from_sys}
use libsane_rs.CLists.Items.{new_word_list}
use libsane_rs.Calls.Api.{OptionDescriptor, Constraint}

unfoldable pub type_ : OptionDescriptor → ValueType
unfolding from_sys
type_ d = from_sys d.type_

-- `as usize` of a word: a negative one is extended to 64 bits.
unfoldable pub size : OptionDescriptor → ℕ
size d = if ltb d.size (2 ^ 31) then d.size else d.size + (2 ^ 64 - 2 ^ 32)

-- A `Fixed` is its word.
pub data DeviceOptionConstraint : Type 0 where
  range_int range_fixed : ℕ → ℕ → ℕ → DeviceOptionConstraint
  list_int list_fixed : List ℕ → DeviceOptionConstraint
  list_string : List (Option SaneStr) → DeviceOptionConstraint
  unsupported : Sys.ValueType → ConstraintType → DeviceOptionConstraint

-- The member `range` of the union; to read it where another one is there is undefined.
unfoldable pub of_range : Sys.ValueType → Constraint → Outcome DeviceOptionConstraint
of_range Sys.ValueType.int (Constraint.range min max quant) = ret (range_int min max quant)
of_range Sys.ValueType.fixed (Constraint.range min max quant) = ret (range_fixed min max quant)
of_range value_type (Constraint.range min max quant) =
    ret (unsupported value_type ConstraintType.range)
of_range value_type _ = ub

unfoldable pub of_word_list : Bool → Sys.ValueType → Constraint → Outcome DeviceOptionConstraint
unfolding new_word_list
of_word_list debug Sys.ValueType.int (Constraint.word_list data_) =
    new_word_list debug data_ >>= λ words. ret (list_int words)
of_word_list debug Sys.ValueType.fixed (Constraint.word_list data_) =
    new_word_list debug data_ >>= λ words. ret (list_fixed words)
of_word_list debug value_type (Constraint.word_list data_) =
    ret (unsupported value_type ConstraintType.word_list)
of_word_list debug value_type _ = ub

unfoldable pub of_string_list : Constraint → Outcome DeviceOptionConstraint
of_string_list (Constraint.string_list data_) = ret (list_string data_)
of_string_list _ = ub

unfoldable pub constraint_by :
    Bool → Sys.ValueType → Constraint → ConstraintType → Outcome (Option DeviceOptionConstraint)
unfolding of_range of_word_list of_string_list
constraint_by debug value_type union ConstraintType.unconstrained = ret none
constraint_by debug value_type union ConstraintType.range =
    of_range value_type union >>= λ c. ret (some c)
constraint_by debug value_type union ConstraintType.word_list =
    of_word_list debug value_type union >>= λ c. ret (some c)
constraint_by debug value_type union ConstraintType.string_list =
    of_string_list union >>= λ c. ret (some c)
constraint_by debug value_type union (ConstraintType.other k) =
    ret (some (unsupported value_type (ConstraintType.other k)))
