-- ===== src/Enumerate/Tests.antt =====
-- A list of one device, and the theorems about it.
use libsane_rs.Common.{
  ℕ, ◌+◌, ◌≡◌, refl, arith, Bool, true, none, List, [], ◌∷◌, Outcome, ret, Result, ok,
}
use libsane_rs.Common.Vec.{Env}
use libsane_rs.Strings.Buffer.{SaneStr}
use libsane_rs.Enumerate.Description.{SysDevice, DeviceDescription, from_sys_into}
use libsane_rs.Enumerate.Contents.{Describes, Proper, from_sys_into-Describes}
use libsane_rs.Enumerate.Devices.{Pointers, get_devices_as_vec, get_devices_as_boxed_slice}
use libsane_rs.Enumerate.Copies.{DescribeAll, listing, get_devices-DescribeAll}

abbrev checked : Env
checked = record { overflow_checks = true; slack = 0 }

abbrev letters : List ℕ → SaneStr
letters bytes = record { bytes = bytes }

-- The device `a` of the vendor `bc`, without a model, of the type `d`.
abbrev scanner : SysDevice
scanner = record {
  name = letters (97 ∷ []);
  vendor = letters (98 ∷ 99 ∷ []);
  model = letters [];
  type_ = letters (100 ∷ []);
}

scanner-Proper : Proper scanner
scanner-Proper = record {
  name_non_nul = (omega arith, tt);
  vendor_non_nul = (omega arith, (omega arith, tt));
  model_non_nul = tt;
  type_non_nul = (omega arith, tt);
  small = omega arith;
}

-- A description of another device, with two places of spare capacity.
abbrev used : DeviceDescription
used = record {
  buf = record { bytes = 101 ∷ 0 ∷ 0 ∷ 0 ∷ 0 ∷ []; spare = none ∷ none ∷ [] };
  name_end = 2;
  vendor_end = 3;
  model_end = 4;
}

from_sys_into-Describes_example :
    (d : DeviceDescription) × (from_sys_into checked used scanner ≡ ret d) × Describes scanner d
from_sys_into-Describes_example = from_sys_into-Describes checked used scanner scanner-Proper

-- A library whose state counts the calls, and lists the device.
abbrev list_scanner : ℕ → Bool → Outcome (Result Pointers ℕ × ℕ)
list_scanner calls local_only = ret (ok (listing (scanner ∷ []) []), calls + 1)

get_devices-DescribeAll_example :
    (ds : List DeviceDescription) × (get_devices_as_vec checked list_scanner 0 true
      ≡ ret (ok ds, 1))
    × (get_devices_as_boxed_slice checked list_scanner 0 true ≡ ret (ok ds, 1))
    × DescribeAll (scanner ∷ []) ds
get_devices-DescribeAll_example =
    get_devices-DescribeAll checked list_scanner 0 1 true (scanner ∷ []) [] refl
      (scanner-Proper, tt) (omega arith)
