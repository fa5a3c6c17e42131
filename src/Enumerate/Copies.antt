-- ===== src/Enumerate/Copies.antt =====
-- The two copies of the list of devices, libsane/src/device/enumerate.rs, against the list.
use libsane_rs.Common.{
  ℕ, ◌+◌, ◌*◌, ◌≤◌, ◌≡◌, refl, ap, ◌∙◌, arith, Bool, true, false, none, some, List, [], ◌∷◌, ◌++◌,
  map, length, All, le→leb, Outcome, ret, Result, ok,
}
use libsane_rs.Common.Vec.{Env, isize_max}
use libsane_rs.Enumerate.Description.{SysDevice, DeviceDescription, from_device, unwritten}
use libsane_rs.Enumerate.Contents.{Describes, Proper, from_sys_into-Describes}
use libsane_rs.Enumerate.Devices.{
  Pointers, len_from, len, next_sys, next, next_into, room_for, extend, to_vec, from_fn,
  next_unwrap, to_boxed_slice, get_devices, extracted, get_devices_as_vec,
  get_devices_as_boxed_slice, from_item, into_item, unwrapped,
}

-- Descriptions that read as the devices, one each and in order.
abbrev pub DescribeAll : List SysDevice → List DeviceDescription → Type 0
DescribeAll [] [] = Unit
DescribeAll [] (d ∷ ds) = ⊥
DescribeAll (v ∷ values) [] = ⊥
DescribeAll (v ∷ values) (d ∷ ds) = Describes v d × DescribeAll values ds

-- What the C library lists: the devices, a null pointer, and what lies behind it.
abbrev pub listing : List SysDevice → Pointers → Pointers
listing values rest = map some values ++ (none ∷ rest)

from_device-Describes :
    (e : Env) (value : SysDevice)
    → Proper value
    → (d : DeviceDescription) × (from_device e value ≡ ret d) × Describes value d
unfolding from_device
from_device-Describes e value p = from_sys_into-Describes e unwritten value p

len_from-ret :
    (values : List SysDevice) (rest : Pointers) (k : ℕ)
    → len_from k (listing values rest) ≡ ret (k + length values)
unfolding len_from
len_from-ret [] rest k = ap ret (omega arith)
len_from-ret (v ∷ values) rest k = len_from-ret values rest (k + 1) ∙ ap ret (omega arith)

len-ret :
    (values : List SysDevice) (rest : Pointers) → len (listing values rest) ≡ ret (length values)
unfolding len
len-ret values rest = len_from-ret values rest 0 ∙ ap ret (omega arith)

-- Both loops make the same list.
loops :
    (e : Env) (values : List SysDevice) (rest : Pointers)
    → All Proper values
    → (ds : List DeviceDescription) × (extend e (listing values rest) ≡ ret ds)
      × (from_fn (next_unwrap e) (length values) (listing values rest) ≡ ret ds)
      × DescribeAll values ds
unfolding extend from_fn next_unwrap next next_sys from_item unwrapped
loops e [] rest p = ([], refl, refl, tt)
loops e (v ∷ values) rest p =
    let (d, made, good) = from_device-Describes e v p.0 in
    let (ds, extended, filled, all_good) = loops e values rest p.1 in
    (d ∷ ds, rw (made, extended), rw (made, filled), (good, all_good))

-- Over a call that lists devices whose strings have no inner NUL and fit one allocation, where the
-- copies fit one too: `get_devices_as_vec` and `get_devices_as_boxed_slice` return the same
-- descriptions, in every build and whatever lies behind the list's null pointer; they read as the
-- devices, in order.
pub get_devices-DescribeAll :
    {L : Type 0} (e : Env) (sys_get_devices : L → Bool → Outcome (Result Pointers ℕ × L)) (l l' : L)
    (local_only : Bool) (values : List SysDevice) (rest : Pointers)
    → sys_get_devices l local_only ≡ ret (ok (listing values rest), l')
    → All Proper values
    → length values * 48 ≤ isize_max
    → (ds : List DeviceDescription) × (get_devices_as_vec e sys_get_devices l local_only
        ≡ ret (ok ds, l'))
      × (get_devices_as_boxed_slice e sys_get_devices l local_only ≡ ret (ok ds, l'))
      × DescribeAll values ds
unfolding get_devices_as_vec get_devices_as_boxed_slice get_devices extracted to_vec to_boxed_slice
    room_for
get_devices-DescribeAll e sys_get_devices l l' local_only values rest listed p small =
    let (ds, extended, filled, good) = loops e values rest p in
    (
      ds,
      rw (listed, len-ret values rest, le→leb _ _ small) (rw extended),
      rw (listed, len-ret values rest, le→leb _ _ small) (rw filled),
      good,
    )

-- `next_into` at a device whose strings are proper, whatever the description held, and `next` both
-- step over the device and give a description that reads as it; at the end of the list both leave the
-- iterator where it is, and `next_into` leaves the description as it was.
pub next_into-next :
    (e : Env) (into : DeviceDescription) (value : SysDevice) (rest : Pointers)
    → Proper value
    → ((d : DeviceDescription) × (next_into e (some value ∷ rest) into ≡ ret (true, d, rest))
        × Describes value d)
      × ((d : DeviceDescription) × (next e (some value ∷ rest) ≡ ret (some d, rest))
          × Describes value d)
      × (next_into e (none ∷ rest) into ≡ ret (false, into, none ∷ rest))
      × (next e (none ∷ rest) ≡ ret (none, none ∷ rest))
unfolding next_into next next_sys from_item into_item
next_into-next e into value rest p =
    let (d, stored, good) = from_sys_into-Describes e into value p in
    let (f, made, fine) = from_device-Describes e value p in
    ((d, rw stored, good), (f, rw made, fine), refl, refl)
