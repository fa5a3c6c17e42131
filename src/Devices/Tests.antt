-- ===== src/Devices/Tests.antt =====
-- A session on a small library, and the theorem about it.
use libsane_rs.Common.{ℕ, ◌≡◌, refl, Bool, true, false, Option, none, some, List, [], ◌∷◌, ret, ok}
use libsane_rs.Sys
use libsane_rs.Sys.{ConstraintType}
use libsane_rs.Strings.Buffer.{SaneStr}
use libsane_rs.Errors.Samples.{codes}
use libsane_rs.Calls.Api.{Api, OptionDescriptor, Constraint, word}
use libsane_rs.Calls.Access.{done, sane, arc, mutex}
use libsane_rs.Devices.Handle.{DeviceHandle, connect_with, drop_handle}
use libsane_rs.Devices.Session.{
  Use, change_access, ask_parameters, stop, read_option, scan_frames, run,
}
use libsane_rs.Scan.Session.{next}
use libsane_rs.Common.Vec.{Env, mul_at, reserve}
use libsane_rs.Parameters.{FrameParameters}
use libsane_rs.Devices.Scanning.{of_reader, full}
use libsane_rs.Devices.Kept.{Handles}
use libsane_rs.Devices.Closing.{connect_with-drop_handle}

abbrev scanner_name : SaneStr
scanner_name = record { bytes = 97 ∷ [] }

abbrev count : OptionDescriptor
count = record {
  name = scanner_name;
  title = scanner_name;
  desc = scanner_name;
  type_ = Sys.ValueType.int;
  unit = 0;
  size = 4;
  cap = 0;
  constraint_type = ConstraintType.unconstrained;
  constraint = Constraint.absent;
}

-- A library of one device, 5, whose state says whether it is open.
abbrev library : Api ℕ Bool
library = record {
  codes = codes;
  bools = record { sys_false = 0; sys_true = 1 };
  sane_get_devices = λ l b. (0, some (none ∷ []), l);
  sane_open = λ l name. (0, some 5, true);
  sane_close = λ l h. false;
  sane_get_option_descriptor = λ l h i. (some count, l);
  sane_control_option = λ l h i a m. (0, word 1, 0, l);
  sane_get_parameters = λ l h. (
    0,
    record {
      format = Sys.Frame.gray;
      last_frame = 1;
      bytes_per_line = 1;
      pixels_per_line = 1;
      lines = 1;
      depth = 8;
    },
    l,
  );
  sane_start = λ l h. (0, l);
  sane_read = λ l h n. (5, [], 0, l);
  sane_cancel = λ l h. l;
  sane_set_io_mode = λ l h m. (0, l);
  sane_get_select_fd = λ l h. (1, 0, l);
}

open_true :
    (l l' : Bool) (s h : ℕ)
    → ◌≡◌ {A = ℕ × Option ℕ × Bool} (0, some 5, true) (s, some h, l')
    → l' ≡ true
open_true l l' s h e = cc

abbrev library_handles : Handles library
library_handles = record {
  is_open = λ l h. l;
  opens = λ l l' name s h good e. open_true l l' s h e;
  closes = λ l h. refl;
  found = λ l h i. refl;
  controlled = λ l h i a m. refl;
  asked = λ l h. refl;
  started = λ l h. refl;
  read_from = λ l h n. refl;
  mode_set = λ l h m. refl;
  cancelled = λ l h. refl;
}

abbrev env : Env
env = record { overflow_checks = true; slack = 0 }

-- A page of which the number of lines is not known.
abbrev page : FrameParameters
page = record {
  format = Sys.Frame.gray;
  last_frame = true;
  bytes_per_line = 1;
  pixels_per_line = 1;
  lines = none;
  depth = 8;
}

abbrev opened : DeviceHandle ℕ
opened = record { inner = record { handle = 5; sane = sane } }

-- The handle is shared between threads, asked for its parameters and its number of options,
-- scanned for one frame, which is read in full, and cancelled.
abbrev uses : List Use
uses =
    change_access (λ s. arc (mutex false s))
    ∷ ask_parameters
    ∷ read_option 0
    ∷ scan_frames
        (of_reader next ∷ full env true 3 page false (record { bytes = []; spare = [] }) ∷ [])
    ∷ stop
    ∷ []

abbrev shared : DeviceHandle ℕ
shared = record { inner = record { handle = 5; sane = arc (mutex false sane) } }

connect_with-opened :
    connect_with library true sane scanner_name false ≡ done (ret (ok opened, true))
unfolding connect_with
connect_with-opened = refl

run-shared : run library opened true uses ≡ done (ret (shared, true))
unfolding run mul_at reserve
run-shared = refl

connect_with-drop_handle_example :
    (library_handles.is_open true opened.inner.handle ≡ true)
    × (shared.inner.handle ≡ opened.inner.handle)
    × (library_handles.is_open true shared.inner.handle ≡ true)
    × (l3 : Bool) × (drop_handle library shared.inner true ≡ done (ret l3))
    × (library_handles.is_open l3 opened.inner.handle ≡ false)
connect_with-drop_handle_example =
    connect_with-drop_handle library library_handles true sane scanner_name false
      connect_with-opened uses run-shared (refl, tt)
