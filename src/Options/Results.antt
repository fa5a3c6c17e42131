-- ===== src/Options/Results.antt =====
-- What `DeviceOption::get` and `set` of libsane/src/device/options.rs return.
use libsane_rs.Common.{
  ℕ, ◌<◌, ◌≤◌, ◌≡◌, ◌≢◌, arith, Option, none, some, List, replicate, ==_ne, le→leb, Outcome, ret,
  Result, ok, err,
}
use libsane_rs.Common.Vec.{MaybeUninit, isize_max}
use libsane_rs.Sys.{Action, get_value}
use libsane_rs.Strings.Buffer.{with_capacity, new_uninit_boxed_slice}
use libsane_rs.Values.Value.{ValueType}
use libsane_rs.Values.Owned.{OwnedValue}
use libsane_rs.Values.Words.{Readable}
use libsane_rs.Calls.Api.{Api, OptionDescriptor, Memory, word, buffer}
use libsane_rs.Options.Descriptor.{size, type_}
use libsane_rs.Options.Accessors.{DeviceOption}
use libsane_rs.Options.Contract.{left_by, status_of, state_after}
use libsane_rs.Options.Types.{StandsIn}

-- An option whose strings, if it has such, have room for the NUL and fit one allocation.
abbrev pub Sized : OptionDescriptor → Type 0
Sized d = type_ d ≡ ValueType.string → (0 < size d) × (size d ≤ isize_max)

pub with_capacity-ret :
    (n : ℕ) → 0 < n → n ≤ isize_max → with_capacity n ≡ ret (record { buf = replicate n none })
unfolding with_capacity new_uninit_boxed_slice
with_capacity-ret n pos small = rw (==_ne n 0 (omega arith), le→leb n isize_max small)

module _ {H L : Type 0} (api : Api H L) where
  -- A call of `sane_control_option` with a memory, by its status and the state it leaves.
  abbrev pub Called : L → DeviceOption H → Action → Memory → ℕ → L → Type 0
  Called l d action m s k = (status_of api l d action m ≡ s) × (state_after api l d action m ≡ k)

  -- What `get` of a word gives: the error of the call, or the value of the word that the library left.
  abbrev GivesWord : L → DeviceOption H → ValueType → Result (Option OwnedValue) ℕ → L → Type 0
  GivesWord l d ty (err s) k = (s ≢ api.codes.good) × Called l d get_value (word 0) s k
  GivesWord l d ty (ok none) k = ⊥
  GivesWord l d ty (ok (some v)) k =
      (w : ℕ) × (left_by api l d get_value (word 0) ≡ word w)
      × StandsIn api.bools ty w v
      × Called l d get_value (word 0) api.codes.good k

  -- The buffer that `get` hands over.
  abbrev pub unset : DeviceOption H → Memory
  unset d = buffer (replicate (size d.descriptor) none)

  -- What `get` of a string gives: the error of the call, or the buffer that the library left, with a
  -- C string in it.
  abbrev GivesString : L → DeviceOption H → Result (Option OwnedValue) ℕ → L → Type 0
  GivesString l d (err s) k = (s ≢ api.codes.good) × Called l d get_value (unset d) s k
  GivesString l d (ok none) k = ⊥
  GivesString l d (ok (some v)) k =
      (after : List MaybeUninit) × (left_by api l d get_value (unset d) ≡ buffer after)
      × (v ≡ OwnedValue.string (record { buf = after }))
      × Readable v
      × Called l d get_value (unset d) api.codes.good k

  -- What `get` of an option of a type gives; the types without a value call nothing.
  abbrev pub Gives : L → DeviceOption H → ValueType → Result (Option OwnedValue) ℕ → L → Type 0
  Gives l d ValueType.bool r k = GivesWord l d ValueType.bool r k
  Gives l d ValueType.int r k = GivesWord l d ValueType.int r k
  Gives l d ValueType.fixed r k = GivesWord l d ValueType.fixed r k
  Gives l d ValueType.string r k = GivesString l d r k
  Gives l d _ r k = (r ≡ ok none) × (k ≡ l)

  -- A call that returns, with what it gives.
  abbrev Returned :
      (Result (Option OwnedValue) ℕ → L → Type 0)
      → Outcome (Result (Option OwnedValue) ℕ × L)
      → Type 0
  Returned P o = (r : Result (Option OwnedValue) ℕ) × (l : L) × (o ≡ ret (r, l)) × P r l
