-- ===== src/Devices/Handle.antt =====
-- `RawDeviceHandle` and `DeviceHandle` of libsane/src/device.rs over a parameter for the C library.
use libsane_rs.Common.{ℕ, Bool, false, Option, Outcome, ret, Result, ok, err}
use libsane_rs.Strings.Buffer.{SaneStr}
use libsane_rs.Parameters.{FrameParameters}
use libsane_rs.Scan.Session.{SysParameters, from_sys}
use libsane_rs.Values.Value.{BoolWords}
use libsane_rs.Calls.Api.{Api}
use libsane_rs.Calls.Access.{Attempt, done, and_then, WithSane, with_sane}
use libsane_rs.Calls.Proxied.{sys_open, sys_close, sys_get_parameters, sys_cancel}
use libsane_rs.Options.Access
use libsane_rs.Options.Accessors.{DeviceOption}

pub record RawDeviceHandle (H : Type 0) : Type 0 where
  pub handle : H
  pub sane : WithSane

pub record DeviceHandle (H : Type 0) : Type 0 where
  pub inner : RawDeviceHandle H

module _ {H : Type 0} where
  -- `RawDeviceHandle::map_sane`: the old value is not dropped, and its handle not closed.
  unfoldable pub map_raw : (WithSane → WithSane) → RawDeviceHandle H → RawDeviceHandle H
  map_raw map_fn this = record { handle = this.handle; sane = map_fn this.sane }

  -- `DeviceHandle::map_sane`.
  unfoldable pub map_sane : (WithSane → WithSane) → DeviceHandle H → DeviceHandle H
  unfolding map_raw
  map_sane map_fn d = record { inner = map_raw map_fn d.inner }

-- `.map(scan::FrameParameters::from)`.
unfoldable pub into_parameters : BoolWords → Result SysParameters ℕ → Result FrameParameters ℕ
unfolding from_sys
into_parameters bools (ok p) = ok (from_sys bools.sys_false p)
into_parameters bools (err s) = err s

module _ {H L : Type 0} (api : Api H L) where
  unfoldable pub get_parameters : RawDeviceHandle H → L → Attempt (Result FrameParameters ℕ × L)
  unfolding with_sane sys_get_parameters into_parameters
  get_parameters d l = with_sane d.sane false (λ u.
      let r = sys_get_parameters api l d.handle in done (ret (into_parameters api.bools r.0, r.1)))

  -- Without asking for the access.
  unfoldable pub cancel : RawDeviceHandle H → L → L
  unfolding sys_cancel
  cancel d l = sys_cancel api l d.handle

  unfoldable pub get_option : RawDeviceHandle H → L → ℕ → Attempt (Option (DeviceOption H) × L)
  unfolding Access.option
  get_option d l index = Access.option api d.sane d.handle l index

  -- The drop of a handle closes it.
  unfoldable pub drop_handle : RawDeviceHandle H → L → Attempt L
  unfolding with_sane sys_close
  drop_handle d l = with_sane d.sane false (λ u. done (ret (sys_close api l d.handle)))

  unfoldable pub connected : WithSane → Result H ℕ × L → Outcome (Result (DeviceHandle H) ℕ × L)
  connected access (ok handle, l) =
      ret (ok (record { inner = record { handle = handle; sane = access } }), l)
  connected access (err s, l) = ret (err s, l)

  unfoldable pub connect_with :
      Bool → WithSane → SaneStr → L → Attempt (Result (DeviceHandle H) ℕ × L)
  unfolding with_sane sys_open connected
  connect_with debug access devicename l =
      and_then (with_sane access false (λ u. done (sys_open api debug l devicename)))
        (λ r. done (connected access r))
