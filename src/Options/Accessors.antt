-- ===== src/Options/Accessors.antt =====
-- `DeviceOption` of libsane/src/device/options.rs, and its methods that read the descriptor: each asks
-- for the access of the device.
use libsane_rs.Common.{ℕ, Bool, false, Option, ret}
use libsane_rs.Sys
use libsane_rs.Strings.Buffer.{SaneStr}
use libsane_rs.Values.Value.{ValueType, from_sys}
use libsane_rs.Calls.Api.{OptionDescriptor}
use libsane_rs.Calls.Access.{Attempt, done, and_then, WithSane, with_sane}
use libsane_rs.Options.Descriptor
use libsane_rs.Options.Descriptor.{DeviceOptionConstraint, constraint_by}

-- `DeviceOption`, with the access of the device that it borrows.
pub record DeviceOption (H : Type 0) : Type 0 where
  pub sane : WithSane
  pub handle : H
  pub descriptor : OptionDescriptor
  pub index : ℕ

module _ {H : Type 0} (d : DeviceOption H) where
  unfoldable pub name : Attempt SaneStr
  unfolding with_sane
  name = with_sane d.sane false (λ u. done (ret d.descriptor.name))

  -- `title` reads the field `name`.
  unfoldable pub title : Attempt SaneStr
  unfolding with_sane
  title = with_sane d.sane false (λ u. done (ret d.descriptor.name))

  unfoldable pub description : Attempt SaneStr
  unfolding with_sane
  description = with_sane d.sane false (λ u. done (ret d.descriptor.desc))

  unfoldable pub sys_type : Attempt Sys.ValueType
  unfolding with_sane
  sys_type = with_sane d.sane false (λ u. done (ret d.descriptor.type_))

  unfoldable pub type_ : Attempt ValueType
  unfolding sys_type from_sys
  type_ = and_then sys_type (λ ty. done (ret (from_sys ty)))

  -- The unit is the value of its enumeration.
  unfoldable pub unit : Attempt ℕ
  unfolding with_sane
  unit = with_sane d.sane false (λ u. done (ret d.descriptor.unit))

  -- `inside` is said of a call from the closure of another method.
  unfoldable pub size : Bool → Attempt ℕ
  unfolding with_sane Descriptor.size
  size inside = with_sane d.sane inside (λ u. done (ret (Descriptor.size d.descriptor)))

  unfoldable pub capabilities : Attempt ℕ
  unfolding with_sane
  capabilities = with_sane d.sane false (λ u. done (ret d.descriptor.cap))

  unfoldable pub constraint : Bool → Attempt (Option DeviceOptionConstraint)
  unfolding with_sane constraint_by
  constraint debug = with_sane d.sane false (λ u.
      done (
        constraint_by debug d.descriptor.type_ d.descriptor.constraint
          d.descriptor.constraint_type))
