-- ===== src/Enumerate/Devices.antt =====
-- `DeviceDescriptionIter` and `Sane::get_devices` of libsane/src/device/enumerate.rs, with
-- `boxed_slice_from_fn` of libsane/src/slice_util.rs. The iterator is the memory from its pointer to
-- the end of the list of pointers that the C library allocated.
use libsane_rs.Common.{
  ℕ, zero, suc, ◌+◌, ◌*◌, Bool, true, false, Option, none, some, List, [], ◌∷◌, leb, if◌then◌else◌,
  Outcome, ret, panic, ub, ◌>>=◌, Result, ok, err,
}
use libsane_rs.Common.Vec.{Env, isize_max}
use libsane_rs.Enumerate.Description.{SysDevice, DeviceDescription, from_sys_into, from_device}

abbrev pub Pointers : Type 0
Pointers = List (Option SysDevice)

-- The loop of `len` from a count on.
unfoldable pub len_from : ℕ → Pointers → Outcome ℕ
len_from count [] = ub
len_from count (none ∷ ptr) = ret count
len_from count (some d ∷ ptr) = len_from (count + 1) ptr

unfoldable pub len : Pointers → Outcome ℕ
unfolding len_from
len it = len_from 0 it

unfoldable pub is_empty : Pointers → Outcome Bool
is_empty [] = ub
is_empty (none ∷ ptr) = ret true
is_empty (some d ∷ ptr) = ret false

-- The item, and the iterator that the call leaves.
unfoldable pub next_sys : Pointers → Outcome (Option SysDevice × Pointers)
next_sys [] = ub
next_sys (none ∷ ptr) = ret (none, none ∷ ptr)
next_sys (some d ∷ ptr) = ret (some d, ptr)

unfoldable pub from_item :
    Env → Option SysDevice × Pointers → Outcome (Option DeviceDescription × Pointers)
unfolding from_device
from_item e (none, it) = ret (none, it)
from_item e (some value, it) = from_device e value >>= λ d. ret (some d, it)

unfoldable pub next : Env → Pointers → Outcome (Option DeviceDescription × Pointers)
unfolding from_item next_sys
next e it = next_sys it >>= from_item e

unfoldable pub into_item :
    Env
    → DeviceDescription
    → Option SysDevice × Pointers
    → Outcome (Bool × DeviceDescription × Pointers)
unfolding from_sys_into
into_item e into (none, it) = ret (false, into, it)
into_item e into (some value, it) = from_sys_into e into value >>= λ d. ret (true, d, it)

unfoldable pub next_into :
    Env → Pointers → DeviceDescription → Outcome (Bool × DeviceDescription × Pointers)
unfolding into_item next_sys
next_into e it into = next_sys it >>= into_item e into

-- A vector or a slice of so many descriptions, of 48 bytes each, where an allocation can hold them.
unfoldable pub room_for : ℕ → Outcome (Unit {0})
room_for n = if leb (n * 48) isize_max then ret tt else panic

-- `buf.extend(self)`: what `next` yields until it yields nothing.
unfoldable pub extend : Env → Pointers → Outcome (List DeviceDescription)
unfolding from_device
extend e [] = ub
extend e (none ∷ ptr) = ret []
extend e (some value ∷ ptr) = from_device e value >>= λ d. extend e ptr >>= λ ds. ret (d ∷ ds)

unfoldable pub to_vec : Env → Pointers → Outcome (List DeviceDescription)
unfolding len extend room_for
to_vec e it = len it >>= λ n. room_for n >>= λ u. extend e it

-- The loop of `boxed_slice_from_fn` over a closure with a state: the items it returns, in order.
unfoldable pub from_fn {ℓ κ} :
    {A : Type ℓ} {S : Type κ} → (S → Outcome (A × S)) → ℕ → S → Outcome (List A)
from_fn cb zero s = ret []
from_fn cb (suc n) s = cb s >>= λ r. from_fn cb n r.1 >>= λ xs. ret (r.0 ∷ xs)

unfoldable pub unwrapped {ℓ κ} : {A : Type ℓ} {S : Type κ} → Option A × S → Outcome (A × S)
unwrapped (none, s) = panic
unwrapped (some a, s) = ret (a, s)

unfoldable pub next_unwrap : Env → Pointers → Outcome (DeviceDescription × Pointers)
unfolding next unwrapped
next_unwrap e it = next e it >>= unwrapped

unfoldable pub to_boxed_slice : Env → Pointers → Outcome (List DeviceDescription)
unfolding len from_fn next_unwrap room_for
to_boxed_slice e it = len it >>= λ n. room_for n >>= λ u. from_fn (next_unwrap e) n it

module _ {L : Type 0} {A : Type 0} where
  -- `Sane::get_devices`, over what `sys_get_devices` returned, and what the closure makes of it.
  unfoldable pub extracted :
      (Pointers → Outcome A) → Result Pointers ℕ × L → Outcome (Result A ℕ × L)
  extracted extract (err status, l) = ret (err status, l)
  extracted extract (ok list, l) = extract list >>= λ a. ret (ok a, l)

  unfoldable pub get_devices :
      (L → Bool → Outcome (Result Pointers ℕ × L))
      → L
      → Bool
      → (Pointers → Outcome A)
      → Outcome (Result A ℕ × L)
  unfolding extracted
  get_devices sys_get_devices l local_only extract =
      sys_get_devices l local_only >>= extracted extract

module _ {L : Type 0} where
  unfoldable pub get_devices_as_vec :
      Env
      → (L → Bool → Outcome (Result Pointers ℕ × L))
      → L
      → Bool
      → Outcome (Result (List DeviceDescription) ℕ × L)
  unfolding get_devices to_vec
  get_devices_as_vec e sys_get_devices l local_only =
      get_devices sys_get_devices l local_only (to_vec e)

  unfoldable pub get_devices_as_boxed_slice :
      Env
      → (L → Bool → Outcome (Result Pointers ℕ × L))
      → L
      → Bool
      → Outcome (Result (List DeviceDescription) ℕ × L)
  unfolding get_devices to_boxed_slice
  get_devices_as_boxed_slice e sys_get_devices l local_only =
      get_devices sys_get_devices l local_only (to_boxed_slice e)
