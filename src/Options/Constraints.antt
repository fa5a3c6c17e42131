-- ===== src/Options/Constraints.antt =====
-- `DeviceOption::constraint` and `DeviceHandle::option_count` of libsane/src/device/options.rs on
-- descriptors as libsane documents them.
use libsane_rs.Common.{
  ℕ, ◌^◌, ◌<◌, ◌≡◌, refl, ap, ◌∙◌, arith, Bool, true, false, Option, none, some, List, ◌∷◌, ◌++◌,
  map, length, ==_refl, lt→ltb, if◌then◌else◌, panic, ret, ◌>>=◌, ok,
}
use libsane_rs.Sys
use libsane_rs.Sys.{ConstraintType, get_value}
use libsane_rs.Strings.Buffer.{SaneStr}
use libsane_rs.CLists.Items.{items}
use libsane_rs.Errors.Status.{status_result}
use libsane_rs.Values.Value.{ValueType, is_word_sized, from_sys}
use libsane_rs.Values.Owned
use libsane_rs.Values.Owned.{OwnedValue}
use libsane_rs.Calls.Api.{Api, OptionDescriptor, Constraint, Memory, word, same_shape}
use libsane_rs.Calls.Access.{Attempt, done, WithSane, Clean, with_sane-Clean}
use libsane_rs.Calls.Proxied.{sys_get_option_descriptor, sys_get_option_value, checked_index}
use libsane_rs.Options.Descriptor.{
  DeviceOptionConstraint, range_int, range_fixed, list_int, list_fixed, list_string, unsupported,
  type_,
}
use libsane_rs.Options.Accessors
use libsane_rs.Options.Accessors.{DeviceOption}
use libsane_rs.Options.Access.{
  get, get_by, got_word, option, option_of, option_count, count_option, count_of, counted,
  same_type, discriminant,
}
use libsane_rs.Options.Contract.{left_by, status_of, state_after, control_option-ret}

-- A union with the member that its tag names, and lists that end where libsane says.
abbrev pub Agrees : Constraint → ConstraintType → Type 0
Agrees union ConstraintType.unconstrained = Unit
Agrees union ConstraintType.range =
    (min : ℕ) × (max : ℕ) × (quant : ℕ) × (union ≡ Constraint.range min max quant)
Agrees union ConstraintType.word_list =
    (words : List ℕ) × (rest : List ℕ) × (length words < 2 ^ 31)
    × (union ≡ Constraint.word_list (length words ∷ (words ++ rest)))
Agrees union ConstraintType.string_list =
    (texts : List SaneStr) × (rest : List (Option SaneStr)) × (union
      ≡ Constraint.string_list (map some texts ++ (none ∷ rest)))
Agrees union (ConstraintType.other k) = Unit

-- The types that a kind of constraint has a form for.
abbrev pub is_supported : Sys.ValueType → ConstraintType → Bool
is_supported ty ConstraintType.unconstrained = true
is_supported Sys.ValueType.int ConstraintType.range = true
is_supported Sys.ValueType.fixed ConstraintType.range = true
is_supported ty ConstraintType.range = false
is_supported Sys.ValueType.int ConstraintType.word_list = true
is_supported Sys.ValueType.fixed ConstraintType.word_list = true
is_supported ty ConstraintType.word_list = false
is_supported ty ConstraintType.string_list = true
is_supported ty (ConstraintType.other k) = false

-- Which constraint stands for which union: ranges and lists of words for the two types of numbers,
-- and a list of strings that an iteration yields.
abbrev pub StandsFor : Sys.ValueType → Constraint → DeviceOptionConstraint → Type 0
StandsFor ty union (range_int min max quant) =
    (ty ≡ Sys.ValueType.int) × (union ≡ Constraint.range min max quant)
StandsFor ty union (range_fixed min max quant) =
    (ty ≡ Sys.ValueType.fixed) × (union ≡ Constraint.range min max quant)
StandsFor ty union (list_int words) =
    (ty ≡ Sys.ValueType.int)
    × (rest : List ℕ) × (union ≡ Constraint.word_list (length words ∷ (words ++ rest)))
StandsFor ty union (list_fixed words) =
    (ty ≡ Sys.ValueType.fixed)
    × (rest : List ℕ) × (union ≡ Constraint.word_list (length words ∷ (words ++ rest)))
StandsFor ty union (list_string ptr) =
    (texts : List SaneStr) × (items ptr ≡ ret texts) × (union ≡ Constraint.string_list ptr)
StandsFor ty union (unsupported value_type tag) = (value_type ≡ ty) × (is_supported ty tag ≡ false)

-- A result of `constraint`: none just for the tag of no constraint.
abbrev pub ConstrainsBy :
    Sys.ValueType → Constraint → ConstraintType → Option DeviceOptionConstraint → Type 0
ConstrainsBy ty union tag none = tag ≡ ConstraintType.unconstrained
ConstrainsBy ty union tag (some c) = (¬ (tag ≡ ConstraintType.unconstrained)) × StandsFor ty union c

module _ {H L : Type 0} (api : Api H L) where
  -- The memory that a count is read into.
  abbrev pub zeroed : Memory
  zeroed = word 0

  abbrev pub option_zero : WithSane → H → OptionDescriptor → DeviceOption H
  option_zero access handle d = record { sane = access; handle = handle; descriptor = d; index = 0 }

  count-get :
      (access : WithSane) (handle : H) (l : L) (d : OptionDescriptor) (count : ℕ)
      → Clean access
      → type_ d ≡ ValueType.int
      → status_of api l (option_zero access handle d) get_value zeroed ≡ api.codes.good
      → left_by api l (option_zero access handle d) get_value zeroed ≡ word count
      → get api l (option_zero access handle d)
        ≡ done (
            ret (
              ok (some (OwnedValue.int count)),
              state_after api l (option_zero access handle d) get_value zeroed,
            ))
  unfolding get get_by is_word_sized sys_get_option_value got_word Owned.from_word same_shape
      status_result
  count-get access handle l d count clean is_int good e =
      let o = option_zero access handle d in
      with_sane-Clean access (λ u. get_by api l o (type_ d)) clean
      ∙ ap (get_by api l o) is_int
      ∙ rw (control_option-ret api l o get_value (word 0) (omega arith) (rw e refl))
          (rw (good, ==_refl api.codes.good, e) refl)

  count_of-int :
      (o : DeviceOption H) (l : L) (count : ℕ) {k : L}
      → get api l o ≡ done (ret (ok (some (OwnedValue.int count)), k))
      → count < 2 ^ 31
      → count_of api l o ≡ done (ret (count, k))
  unfolding count_of counted
  count_of-int o l count g small = rw g (rw (lt→ltb count (2 ^ 31) small))

  if-same_type {ℓ} :
      {A : Type ℓ} (ty : ValueType) (m n : Attempt A)
      → ty ≡ ValueType.int
      → (if same_type ty ValueType.int then m else n) ≡ m
  unfolding same_type discriminant
  if-same_type ty m n e = rw e refl

  count_option-int :
      (debug : Bool) (o : DeviceOption H) (l : L) (count : ℕ) {k : L}
      → Clean o.sane
      → type_ o.descriptor ≡ ValueType.int
      → get api l o ≡ done (ret (ok (some (OwnedValue.int count)), k))
      → count < 2 ^ 31
      → count_option api debug (some o, l) ≡ done (ret (count, k))
  unfolding count_option Accessors.type_ Accessors.sys_type type_
  count_option-int true o l count clean is_int g small =
      rw (with_sane-Clean o.sane (λ u. done (ret o.descriptor.type_)) clean) (
        if-same_type (from_sys o.descriptor.type_) (count_of api l o) (done panic) is_int
        ∙ count_of-int o l count g small)
  count_option-int false o l count clean is_int g small = count_of-int o l count g small

  -- Over a library whose option 0 is an integer, as it documents, and which reads it as a word that
  -- is not negative, `option_count` returns the number of this word, in every build and through every
  -- access without poisoned locks.
  pub option_count-get :
      (debug : Bool) (access : WithSane) (handle : H) (l l' : L) (d : OptionDescriptor) (count : ℕ)
      → Clean access
      → api.sane_get_option_descriptor l handle 0 ≡ (some d, l')
      → type_ d ≡ ValueType.int
      → status_of api l' (option_zero access handle d) get_value zeroed ≡ api.codes.good
      → left_by api l' (option_zero access handle d) get_value zeroed ≡ word count
      → count < 2 ^ 31
      → option_count api debug access handle l
        ≡ done (ret (count, state_after api l' (option_zero access handle d) get_value zeroed))
  unfolding option_count option option_of sys_get_option_descriptor checked_index
  option_count-get debug access handle l l' d count clean found is_int good e small =
      rw
        (with_sane-Clean access
          (λ u. done (sys_get_option_descriptor api l handle 0 >>= option_of api access handle 0))
          clean)
        (rw found (
          count_option-int debug (option_zero access handle d) l' count clean is_int
            (count-get access handle l' d count clean is_int good e) small))
