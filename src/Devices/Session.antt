-- ===== src/Devices/Session.antt =====
-- What a client does with a `DeviceHandle` of libsane/src/device.rs from its opening to its drop.
use libsane_rs.Common.{ℕ, Option, none, some, List, [], ◌∷◌, ret}
use libsane_rs.Values.Value.{Value}
use libsane_rs.Calls.Api.{Api}
use libsane_rs.Calls.Access.{Attempt, done, and_then, WithSane}
use libsane_rs.Options.Accessors.{DeviceOption}
use libsane_rs.Options.Access.{get, set, set_auto}
use libsane_rs.Devices.Scanning.{ScanCall, scan}
use libsane_rs.Devices.Handle.{
  RawDeviceHandle, DeviceHandle, map_sane, get_parameters, cancel, get_option,
}

-- A call of a method, of an option where the device has one at the index; or a scan, from
-- `scan_blocking` to `into_inner`.
pub data Use : Type 0 where
  change_access : (WithSane → WithSane) → Use
  ask_parameters : Use
  stop : Use
  look_up : ℕ → Use
  read_option : ℕ → Use
  write_option : ℕ → Value → Use
  automatic : ℕ → Use
  scan_frames : List ScanCall → Use

-- The handle after a call.
unfoldable pub handle_after : {H : Type 0} → DeviceHandle H → Use → DeviceHandle H
unfolding map_sane
handle_after d (change_access f) = map_sane f d
handle_after d _ = d

module _ {H L : Type 0} (api : Api H L) where
  -- A method on an option that was found, with the state that it leaves.
  unfoldable pub on_option {ℓ} :
      {A : Type ℓ}
      → (L → DeviceOption H → Attempt (A × L))
      → Option (DeviceOption H) × L
      → Attempt L
  on_option f (none, l) = done (ret l)
  on_option f (some o, l) = and_then (f l o) (λ r. done (ret r.1))

  -- The state of the library after a method that leaves the handle as it is.
  unfoldable pub call : RawDeviceHandle H → L → Use → Attempt L
  unfolding get_parameters cancel get_option get set set_auto on_option scan
  call d l (change_access f) = done (ret l)
  call d l ask_parameters = and_then (get_parameters api d l) (λ r. done (ret r.1))
  call d l stop = done (ret (cancel api d l))
  call d l (look_up i) = and_then (get_option api d l i) (λ r. done (ret r.1))
  call d l (read_option i) = and_then (get_option api d l i) (on_option (get api))
  call d l (write_option i v) = and_then (get_option api d l i) (on_option (λ l o. set api l o v))
  call d l (automatic i) = and_then (get_option api d l i) (on_option (set_auto api))
  call d l (scan_frames calls) = scan api d.sane d.handle l calls

  unfoldable pub run : DeviceHandle H → L → List Use → Attempt (DeviceHandle H × L)
  unfolding call handle_after
  run d l [] = done (ret (d, l))
  run d l (u ∷ uses) =
      let rest = λ (next : L). run (handle_after d u) next uses in and_then (call d.inner l u) rest
