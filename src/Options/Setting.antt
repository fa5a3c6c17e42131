-- ===== src/Options/Setting.antt =====
-- The results of `DeviceOption::set` of libsane/src/device/options.rs, and `get` and `set` through an
-- access with locks.
use libsane_rs.Common.{
  ℕ, ◌<◌, ◌≤◌, ◌≡◌, ◌≢◌, refl, ap, ◌∙◌, List, length, Outcome, ret, panic, Result, ok, err,
}
use libsane_rs.Common.Vec.{MaybeUninit, isize_max}
use libsane_rs.Sys.{set_value}
use libsane_rs.Strings.Buffer.{SaneStr}
use libsane_rs.Strings.Content.{NonNul, Holds}
use libsane_rs.Values.Value
use libsane_rs.Values.Value.{ValueType, Value, sys_bool, is_word_sized}
use libsane_rs.Values.Owned.{OwnedValue}
use libsane_rs.Values.Words.{Readable}
use libsane_rs.Calls.Api.{Api, OptionDescriptor, word, buffer}
use libsane_rs.Calls.Access.{done, blocked, Locks, Clean, with_sane-Clean, with_sane-Locks}
use libsane_rs.Options.Descriptor.{size, type_}
use libsane_rs.Options.Accessors.{DeviceOption}
use libsane_rs.Options.Access.{
  get, get_by, size_inside, same_type, discriminant, set, set_checked, set_by, set_other,
  set_string, get_string,
}
use libsane_rs.Options.Contract.{left_by, info_of}
use libsane_rs.Options.Results.{Called}
use libsane_rs.Options.Types.{same_type-ne, StandsIn}

-- A value whose string, if it is one, has no inner NUL and fits the option with its own, in one
-- allocation.
abbrev pub Fits : OptionDescriptor → Value → Type 0
Fits d (Value.string s) = NonNul s.bytes × (length s.bytes < size d) × (size d ≤ isize_max)
Fits d _ = Unit

module _ {H L : Type 0} (api : Api H L) where
  -- What `set` to a word returns: the error of the call, or its information and the value of the
  -- word that the library left.
  abbrev SetsWord : L → DeviceOption H → ValueType → ℕ → Result (ℕ × OwnedValue) ℕ → L → Type 0
  SetsWord l d ty val (err s) k = (s ≢ api.codes.good) × Called api l d set_value (word val) s k
  SetsWord l d ty val (ok (info, v)) k =
      (w : ℕ) × (left_by api l d set_value (word val) ≡ word w)
      × StandsIn api.bools ty w v
      × (info ≡ info_of api l d set_value (word val))
      × Called api l d set_value (word val) api.codes.good k

  -- What `set` to a string returns, by the buffer that it hands over.
  abbrev SetsBuffer : L → DeviceOption H → List MaybeUninit → Result (ℕ × OwnedValue) ℕ → L → Type 0
  SetsBuffer l d buf (err s) k = (s ≢ api.codes.good) × Called api l d set_value (buffer buf) s k
  SetsBuffer l d buf (ok (info, v)) k =
      (after : List MaybeUninit) × (left_by api l d set_value (buffer buf) ≡ buffer after)
      × (v ≡ OwnedValue.string (record { buf = after }))
      × Readable v
      × (info ≡ info_of api l d set_value (buffer buf))
      × Called api l d set_value (buffer buf) api.codes.good k

  -- The buffer is one of the option's size that holds the string.
  abbrev SetsString : L → DeviceOption H → SaneStr → Result (ℕ × OwnedValue) ℕ → L → Type 0
  SetsString l d text r k =
      (buf : List MaybeUninit) × (length buf ≡ size d.descriptor)
      × Holds buf text.bytes
      × SetsBuffer l d buf r k

  -- What `set` to a value returns.
  abbrev pub Sets : L → DeviceOption H → Value → Result (ℕ × OwnedValue) ℕ → L → Type 0
  Sets l d (Value.bool b) r k = SetsWord l d ValueType.bool (sys_bool api.bools b) r k
  Sets l d (Value.int w) r k = SetsWord l d ValueType.int w r k
  Sets l d (Value.fixed w) r k = SetsWord l d ValueType.fixed w r k
  Sets l d (Value.string s) r k = SetsString l d s r k

  -- A call that returns, with what it leaves.
  abbrev SetTo :
      (Result (ℕ × OwnedValue) ℕ → L → Type 0) → Outcome (Result (ℕ × OwnedValue) ℕ × L) → Type 0
  SetTo P o = (r : Result (ℕ × OwnedValue) ℕ) × (l : L) × (o ≡ ret (r, l)) × P r l

  -- `set` to a value of another type than the option's panics, whatever the library does, through
  -- every access that has no poisoned lock.
  pub set-panic :
      (l : L) (d : DeviceOption H) (value : Value)
      → Clean d.sane
      → Value.type_of value ≢ type_ d.descriptor
      → set api l d value ≡ done panic
  unfolding set set_checked
  set-panic l d value clean ne =
      rw
        (
          with_sane-Clean d.sane (λ u. set_checked api l d value (type_ d.descriptor)) clean,
          same_type-ne (Value.type_of value) (type_ d.descriptor) ne,
        )
        refl

  -- Through an access with a lock that is not poisoned, a call of `get` of a string option, and one
  -- of `set` of it to a string, waits for a lock that its own thread holds, whatever the library does.
  pub get-blocked :
      (l : L) (d : DeviceOption H) (text : SaneStr)
      → Locks d.sane
      → Clean d.sane
      → type_ d.descriptor ≡ ValueType.string
      → (get api l d ≡ blocked) × (set api l d (Value.string text) ≡ blocked)
  unfolding get get_by set set_checked set_by set_other discriminant size_inside same_type
      is_word_sized Value.type_of Value.to_word
  get-blocked l d text locks clean e = (
    with_sane-Clean d.sane (λ u. get_by api l d (type_ d.descriptor)) clean
        ∙ ap (get_by api l d) e
        ∙ with_sane-Locks d.sane (λ u. done (get_string api l d (size d.descriptor))) locks,
    with_sane-Clean d.sane (λ u. set_checked api l d (Value.string text) (type_ d.descriptor)) clean
        ∙ ap (set_checked api l d (Value.string text)) e
        ∙ with_sane-Locks d.sane (λ u. done (set_string api l d text (size d.descriptor))) locks,
  )
