-- ===== src/Page/Main.antt =====
-- `main` of libsane/examples/scan_a_page.rs, from the initialised library to the end of the program:
-- the list of the devices, the choice, the open device, the scan, and the drop of the device. What is
-- printed of versions and frames is left out.
use libsane_rs.Common.{ℕ, Bool, true, List, ◌++◌, ret, Result, ok, err}
use libsane_rs.Common.Text.{text, Console, println}
use libsane_rs.Common.Vec.{Env}
use libsane_rs.Calls.Api.{Api}
use libsane_rs.Calls.Access.{Attempt, done, and_then, sane, reference}
use libsane_rs.Calls.Proxied.{sys_get_devices}
use libsane_rs.Enumerate.Description.{DeviceDescription, name}
use libsane_rs.Enumerate.Devices.{get_devices_as_boxed_slice}
use libsane_rs.Devices.Handle.{DeviceHandle, connect_with, drop_handle}
use libsane_rs.Devices.Scanning.{told_apart, library_of}
use libsane_rs.Page.Prompt.{display, Picked, picked, exited, waiting, ask_for_device}
use libsane_rs.Page.Pam.{Files}
use libsane_rs.Page.Scanning.{Ran, returned, scan_to_file}

-- How the program ends: in the return of `main`, in `process::exit`, or not within the fuel.
pub data Finish (Error : Type 0) : Type 0 where
  main_ended : Ran Error → Finish Error
  process_exit : Finish Error
  still_asking : Finish Error

-- What the program acts on: the library, the standard streams and the files.
pub record World (L F : Type 0) : Type 0 where
  pub library : L
  pub console : Console
  pub files : F

module _ {H L F Error : Type 0} (api : Api H L) (files : Files F Error) (e : Env)
    (debug signed : Bool) (asks reads frames : ℕ) where
  -- The scan on the open device, and its drop at the end of `main`.
  unfoldable pub on_device :
      Console → F → Result (DeviceHandle H) ℕ × L → Attempt (Finish Error × World L F)
  unfolding library_of scan_to_file drop_handle
  on_device c f (err s, l) = done (
      ret (
        main_ended (returned (told_apart api.codes s)),
        record { library = l; console = c; files = f },
      ))
  on_device c f (ok d, l) =
      and_then (done (scan_to_file (library_of api d.inner.handle) files e debug reads frames l f))
        λ r. and_then (drop_handle api d.inner r.1.device) λ closed.
          done (ret (main_ended r.0, record { library = closed; console = c; files = r.2 }))

  -- `sane.connect(device_info.name())`
  unfoldable pub on_choice : L → F → Picked × Console → Attempt (Finish Error × World L F)
  unfolding name display println connect_with on_device
  on_choice l f (exited, c) =
      done (ret (process_exit, record { library = l; console = c; files = f }))
  on_choice l f (waiting, c) =
      done (ret (still_asking, record { library = l; console = c; files = f }))
  on_choice l f (picked d, c) = and_then (done (name d)) λ n.
      and_then (done (display signed n)) λ t.
        and_then (connect_with api debug (reference sane) n l)
          (on_device (println (text "Scanning with device " ++ t) c) f)

  unfoldable pub on_devices :
      Console → F → Result (List DeviceDescription) ℕ × L → Attempt (Finish Error × World L F)
  unfolding ask_for_device on_choice
  on_devices c f (err s, l) = done (
      ret (
        main_ended (returned (told_apart api.codes s)),
        record { library = l; console = c; files = f },
      ))
  on_devices c f (ok devices, l) =
      and_then (done (ask_for_device signed asks devices c)) (on_choice l f)

  unfoldable pub main : World L F → Attempt (Finish Error × World L F)
  unfolding get_devices_as_boxed_slice sys_get_devices on_devices
  main w =
      and_then (done (get_devices_as_boxed_slice e (sys_get_devices api debug) w.library true))
        (on_devices w.console w.files)
