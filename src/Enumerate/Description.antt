-- ===== src/Enumerate/Description.antt =====
-- `DeviceDescription` of libsane/src/device/enumerate.rs: four strings with their NULs in one buffer.
use libsane_rs.Common.{ℕ, List, [], ◌∷◌, length, if◌then◌else◌, Outcome, ret, ub, ◌>>=◌, ◌==◌}
use libsane_rs.Common.Slice.{slice_to, slice}
use libsane_rs.Common.Vec.{Env, Vec, reserve_exact, clear, extend_from_slice, add_usize}
use libsane_rs.Strings.Buffer.{SaneStr, to_bytes_with_nul}

-- `sys::Device`, whose four pointers lead to strings.
pub record SysDevice : Type 0 where
  pub name : SaneStr
  pub vendor : SaneStr
  pub model : SaneStr
  pub type_ : SaneStr

pub record DeviceDescription : Type 0 where
  pub buf : Vec
  pub name_end : ℕ
  pub vendor_end : ℕ
  pub model_end : ℕ

-- `SaneStr::new_unchecked`, defined on bytes other than NUL that a NUL ends.
unfoldable pub new_unchecked : List ℕ → Outcome SaneStr
new_unchecked [] = ub
new_unchecked (b ∷ []) = if b == 0 then ret (record { bytes = [] }) else ub
new_unchecked (b ∷ c ∷ rest) =
    if b == 0 then ub else (new_unchecked (c ∷ rest) >>= λ s. ret (record { bytes = b ∷ s.bytes }))

unfoldable pub name : DeviceDescription → Outcome SaneStr
unfolding new_unchecked
name d = slice_to d.name_end d.buf.bytes >>= new_unchecked

unfoldable pub vendor : DeviceDescription → Outcome SaneStr
unfolding new_unchecked
vendor d = slice d.name_end d.vendor_end d.buf.bytes >>= new_unchecked

unfoldable pub model : DeviceDescription → Outcome SaneStr
unfolding new_unchecked
model d = slice d.vendor_end d.model_end d.buf.bytes >>= new_unchecked

-- `&buf[i..]` is the slice up to the end.
unfoldable pub type_ : DeviceDescription → Outcome SaneStr
unfolding new_unchecked
type_ d = slice d.model_end (length d.buf.bytes) d.buf.bytes >>= new_unchecked

unfoldable pub from_sys_into : Env → DeviceDescription → SysDevice → Outcome DeviceDescription
unfolding to_bytes_with_nul clear extend_from_slice
from_sys_into e into value = do
  let name = to_bytes_with_nul value.name
  let vendor = to_bytes_with_nul value.vendor
  let model = to_bytes_with_nul value.model
  let type_ = to_bytes_with_nul value.type_
  vendor_end ← add_usize e (length name) (length vendor)
  model_end ← add_usize e vendor_end (length model)
  buf_size ← add_usize e model_end (length type_)
  reserved ← reserve_exact e buf_size (clear into.buf)
  first ← extend_from_slice e name reserved
  second ← extend_from_slice e vendor first
  third ← extend_from_slice e model second
  buf ← extend_from_slice e type_ third
  ret (record { buf = buf; name_end = length name; vendor_end = vendor_end; model_end = model_end })

-- `DeviceDescription::from`, into a description of no bytes.
abbrev pub unwritten : DeviceDescription
unwritten = record {
  buf = record { bytes = []; spare = [] };
  name_end = 0;
  vendor_end = 0;
  model_end = 0;
}

unfoldable pub from_device : Env → SysDevice → Outcome DeviceDescription
unfolding from_sys_into
from_device e value = from_sys_into e unwritten value
