-- ===== src/Options/Access.antt =====
-- `DeviceOption::get`, `set` and `set_auto`, `DeviceHandle::option` and `option_count` of
-- libsane/src/device/options.rs over a parameter for the C library. Where a function ends, the state
-- of the library comes with its value; a panic leaves none.
use libsane_rs.Common.{
  ℕ, ◌^◌, Bool, true, false, Option, none, some, ltb, if◌then◌else◌, Outcome, ret, panic, ub, ◌>>=◌,
  ◌==◌, Result, ok, err,
}
use libsane_rs.Strings.Buffer.{SaneStr, with_capacity, set_contents}
use libsane_rs.Values.Value
use libsane_rs.Values.Value.{ValueType, Value, is_word_sized, from_sys}
use libsane_rs.Values.Owned
use libsane_rs.Values.Owned.{OwnedValue}
use libsane_rs.Calls.Api.{Api, OptionDescriptor, Memory, word, buffer}
use libsane_rs.Calls.Access.{Attempt, done, WithSane, with_sane, and_then}
use libsane_rs.Calls.Proxied.{
  sys_get_option_descriptor, sys_get_option_value, sys_set_option_value, sys_set_option_auto,
}
use libsane_rs.Options.Descriptor.{size, type_}
use libsane_rs.Options.Accessors
use libsane_rs.Options.Accessors.{DeviceOption}

-- The derived `==` of `ValueType` compares the discriminants.
unfoldable pub discriminant : ValueType → ℕ
discriminant ValueType.bool = 0
discriminant ValueType.int = 1
discriminant ValueType.fixed = 2
discriminant ValueType.string = 3
discriminant ValueType.group = 4
discriminant ValueType.button = 5
discriminant ValueType.unknown = 6

unfoldable pub same_type : ValueType → ValueType → Bool
unfolding discriminant
same_type a b = discriminant a == discriminant b

-- `self.size()`, which asks for the access once more.
unfoldable pub size_inside {ℓ} :
    {H : Type 0} {A : Type ℓ} → DeviceOption H → (ℕ → Attempt A) → Attempt A
unfolding with_sane size
size_inside d k = with_sane d.sane true (λ u. k (size d.descriptor))

module _ {H L : Type 0} (api : Api H L) where
  -- What `get` makes of a word, or of a buffer, that the library has written.
  unfoldable pub got_word :
      ValueType → Result (Unit {0}) ℕ × Memory × L → Outcome (Result (Option OwnedValue) ℕ × L)
  unfolding Owned.from_word
  got_word ty (err s, m, l) = ret (err s, l)
  got_word ty (ok u, word val, l) = ret (ok (Owned.from_word api.bools val ty), l)
  got_word ty (ok u, _, l) = ub

  unfoldable pub got_string :
      Result (Unit {0}) ℕ × Memory × L → Outcome (Result (Option OwnedValue) ℕ × L)
  got_string (err s, m, l) = ret (err s, l)
  got_string (ok u, buffer buf, l) = ret (ok (some (OwnedValue.string (record { buf = buf }))), l)
  got_string (ok u, _, l) = ub

  unfoldable pub get_string : L → DeviceOption H → ℕ → Outcome (Result (Option OwnedValue) ℕ × L)
  unfolding with_capacity sys_get_option_value got_string
  get_string l d n = with_capacity n >>= λ strbuf.
      sys_get_option_value api l d.handle d.index (buffer strbuf.buf) >>= got_string

  -- The three branches of `get`.
  unfoldable pub get_by :
      L → DeviceOption H → ValueType → Attempt (Result (Option OwnedValue) ℕ × L)
  unfolding is_word_sized same_type sys_get_option_value got_word get_string size_inside
  get_by l d ty =
      if is_word_sized ty
      then done (sys_get_option_value api l d.handle d.index (word 0) >>= got_word ty)
      else if same_type ty ValueType.string
      then size_inside d (λ n. done (get_string l d n))
      else done (ret (ok none, l))

  unfoldable pub get : L → DeviceOption H → Attempt (Result (Option OwnedValue) ℕ × L)
  unfolding with_sane type_ get_by
  get l d = with_sane d.sane false (λ u. get_by l d (type_ d.descriptor))

  -- What `set` returns: the word of the information, and the value that the library left.
  abbrev pub Set : Type 0
  Set = Result (ℕ × OwnedValue) ℕ × L

  unfoldable pub unwrap_value : L → ℕ → Option OwnedValue → Outcome Set
  unwrap_value l info none = panic
  unwrap_value l info (some v) = ret (ok (info, v), l)

  unfoldable pub set_word_result : ValueType → Result ℕ ℕ × Memory × L → Outcome Set
  unfolding Owned.from_word unwrap_value
  set_word_result ty (err s, m, l) = ret (err s, l)
  set_word_result ty (ok info, word val, l) = unwrap_value l info (Owned.from_word api.bools val ty)
  set_word_result ty (ok info, _, l) = ub

  unfoldable pub set_string_result : Result ℕ ℕ × Memory × L → Outcome Set
  set_string_result (err s, m, l) = ret (err s, l)
  set_string_result (ok info, buffer buf, l) =
      ret (ok (info, OwnedValue.string (record { buf = buf })), l)
  set_string_result (ok info, _, l) = ub

  unfoldable pub set_string : L → DeviceOption H → SaneStr → ℕ → Outcome Set
  unfolding with_capacity set_contents sys_set_option_value set_string_result
  set_string l d s n = with_capacity n >>= λ empty. set_contents empty s >>= λ strbuf.
      sys_set_option_value api l d.handle d.index (buffer strbuf.buf) >>= set_string_result

  -- A value without a word.
  unfoldable pub set_other : L → DeviceOption H → Value → Attempt Set
  unfolding set_string size_inside
  set_other l d (Value.string s) = size_inside d (λ n. done (set_string l d s n))
  set_other l d _ = done panic

  unfoldable pub set_by : L → DeviceOption H → Value → ValueType → Option ℕ → Attempt Set
  unfolding set_other sys_set_option_value set_word_result
  set_by l d value ty (some val) =
      done (sys_set_option_value api l d.handle d.index (word val) >>= set_word_result ty)
  set_by l d value ty none = set_other l d value

  -- From the assertion on.
  unfoldable pub set_checked : L → DeviceOption H → Value → ValueType → Attempt Set
  unfolding same_type set_by Value.to_word Value.type_of
  set_checked l d value ty =
      if same_type (Value.type_of value) ty
      then set_by l d value ty (Value.to_word api.bools value)
      else done panic

  unfoldable pub set : L → DeviceOption H → Value → Attempt Set
  unfolding with_sane type_ set_checked
  set l d value = with_sane d.sane false (λ u. set_checked l d value (type_ d.descriptor))

  unfoldable pub set_auto : L → DeviceOption H → Attempt (Result (Unit {0}) ℕ × L)
  unfolding with_sane sys_set_option_auto
  set_auto l d = with_sane d.sane false (λ u. done (sys_set_option_auto api l d.handle d.index))

  unfoldable pub option_of :
      WithSane → H → ℕ → Option OptionDescriptor × L → Outcome (Option (DeviceOption H) × L)
  option_of access handle index (none, l) = ret (none, l)
  option_of access handle index (some descriptor, l) =
      ret (
        some (record { sane = access; handle = handle; descriptor = descriptor; index = index }),
        l,
      )

  -- `RawDeviceHandle::get_option` and `DeviceHandle::option`.
  unfoldable pub option : WithSane → H → L → ℕ → Attempt (Option (DeviceOption H) × L)
  unfolding with_sane sys_get_option_descriptor option_of
  option access handle l index =
      with_sane access false
        (λ u. done (sys_get_option_descriptor api l handle index >>= option_of access handle index))

  -- The pattern of `option_count`, and `count.try_into().unwrap()`; a word from 2 ^ 31 on is negative.
  unfoldable pub counted : Result (Option OwnedValue) ℕ × L → Outcome (ℕ × L)
  counted (ok (some (OwnedValue.int count)), l) =
      if ltb count (2 ^ 31) then ret (count, l) else panic
  counted _ = panic

  unfoldable pub count_of : L → DeviceOption H → Attempt (ℕ × L)
  unfolding get counted
  count_of l opt = and_then (get l opt) (λ r. done (counted r))

  -- A debug build asks for the type before.
  unfoldable pub count_option : Bool → Option (DeviceOption H) × L → Attempt (ℕ × L)
  unfolding same_type Accessors.type_ count_of
  count_option debug (none, l) = done panic
  count_option true (some opt, l) =
      and_then (Accessors.type_ opt)
        (λ ty. if same_type ty ValueType.int then count_of l opt else done panic)
  count_option false (some opt, l) = count_of l opt

  unfoldable pub option_count : Bool → WithSane → H → L → Attempt (ℕ × L)
  unfolding option count_option
  option_count debug access handle l = and_then (option access handle l 0) (count_option debug)
