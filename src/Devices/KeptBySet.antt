-- ===== src/Devices/KeptBySet.antt =====
-- `DeviceOption::set` and `set_auto` of libsane/src/device/options.rs against whether a handle is
-- open.
use libsane_rs.Common.{ℕ, true, false, Option, none, some, Result, ok, err, Bool-cases, inl, inr}
use libsane_rs.Common.Returns.{Returns, Returns->>=, Returns-then}
use libsane_rs.Sys.{Action}
use libsane_rs.Strings.Buffer.{SaneStr, with_capacity, set_contents}
use libsane_rs.Options.Descriptor.{type_, size}
use libsane_rs.Values.Value
use libsane_rs.Values.Value.{Value, ValueType, is_word_sized}
use libsane_rs.Values.Owned
use libsane_rs.Values.Owned.{OwnedValue}
use libsane_rs.Calls.Api.{Api, Memory, word, buffer, null}
use libsane_rs.Calls.Access.{done}
use libsane_rs.Calls.Proxied.{sys_set_option_auto}
use libsane_rs.Options.Accessors.{DeviceOption}
use libsane_rs.Options.Access.{
  same_type, set, set_auto, size_inside, unwrap_value, set_word_result, set_string_result,
  set_string, set_other, set_by, set_checked,
}
use libsane_rs.Calls.Ends.{Ends, Ends-with_sane}
use libsane_rs.Devices.Kept.{Handles, control_option-Kept, sys_set_option_value-Kept, Kept, Left}

module _ {H L : Type 0} (api : Api H L) (hs : Handles api) where
  unwrap_value-Kept :
      (l l' : L) (h : H) (info : ℕ) (v : Option OwnedValue)
      → Kept api hs h l l'
      → Returns (Left api hs h l) (unwrap_value api l' info v)
  unfolding unwrap_value
  unwrap_value-Kept l l' h info none k = tt
  unwrap_value-Kept l l' h info (some v) k = k

  set_word_result-Kept :
      (l : L) (h : H) (ty : ValueType) (r : Result ℕ ℕ × Memory × L)
      → Kept api hs h l r.2
      → Returns (Left api hs h l) (set_word_result api ty r)
  unfolding set_word_result
  set_word_result-Kept l h ty (err s, m, l') k = k
  set_word_result-Kept l h ty (ok i, word w, l') k =
      unwrap_value-Kept l l' h i (Owned.from_word api.bools w ty) k
  set_word_result-Kept l h ty (ok i, buffer b, l') k = tt
  set_word_result-Kept l h ty (ok i, null, l') k = tt

  set_string_result-Kept :
      (l : L) (h : H) (r : Result ℕ ℕ × Memory × L)
      → Kept api hs h l r.2
      → Returns (Left api hs h l) (set_string_result api r)
  unfolding set_string_result
  set_string_result-Kept l h (err s, m, l') k = k
  set_string_result-Kept l h (ok i, word w, l') k = tt
  set_string_result-Kept l h (ok i, buffer b, l') k = k
  set_string_result-Kept l h (ok i, null, l') k = tt

  abbrev Changed : Type 0
  Changed = Result (ℕ × OwnedValue) ℕ

  set_string-Kept :
      (l : L) (d : DeviceOption H) (text : SaneStr) (n : ℕ)
      → Returns (Left api hs {A = Changed} d.handle l) (set_string api l d text n)
  unfolding set_string
  set_string-Kept l d text n =
      Returns->>= (Left api hs {A = Changed} d.handle l) (with_capacity n) _ (λ empty.
        Returns->>= (Left api hs {A = Changed} d.handle l) (set_contents empty text) _ (λ b.
          Returns-then (Left api hs {A = Changed} d.handle l) (λ r. Kept api hs d.handle l r.2) _ _
            (sys_set_option_value-Kept api hs l d.handle d.index (buffer b.buf))
            (set_string_result-Kept l d.handle)))

  set_by-Kept :
      (l : L) (d : DeviceOption H) (value : Value) (ty : ValueType) (w : Option ℕ)
      → Ends (Left api hs {A = Changed} d.handle l) (set_by api l d value ty w)
  unfolding set_by set_other size_inside
  set_by-Kept l d value ty (some w) =
      Returns-then (Left api hs {A = Changed} d.handle l) (λ r. Kept api hs d.handle l r.2) _ _
        (sys_set_option_value-Kept api hs l d.handle d.index (word w))
        (set_word_result-Kept l d.handle ty)
  set_by-Kept l d (Value.string s) ty none =
      Ends-with_sane (Left api hs {A = Changed} d.handle l) d.sane true
        (λ u. done (set_string api l d s (size d.descriptor)))
        (set_string-Kept l d s (size d.descriptor))
  set_by-Kept l d (Value.bool b) ty none = tt
  set_by-Kept l d (Value.int w) ty none = tt
  set_by-Kept l d (Value.fixed w) ty none = tt

  pub set-Kept :
      (l : L) (d : DeviceOption H) (value : Value)
      → Ends (Left api hs {A = Changed} d.handle l) (set api l d value)
  unfolding set set_checked
  set-Kept l d value =
      Ends-with_sane (Left api hs {A = Changed} d.handle l) d.sane false
        (λ u. set_checked api l d value (type_ d.descriptor))
        (elim (Bool-cases (same_type (Value.type_of value) (type_ d.descriptor))) [
          | inl e ↦
              rw e (set_by-Kept l d value (type_ d.descriptor) (Value.to_word api.bools value))
          | inr e ↦ rw e tt
        ])

  pub set_auto-Kept :
      (l : L) (d : DeviceOption H)
      → Ends (Left api hs {A = Result (Unit {0}) ℕ} d.handle l) (set_auto api l d)
  unfolding set_auto sys_set_option_auto
  set_auto-Kept l d =
      Ends-with_sane (Left api hs {A = Result (Unit {0}) ℕ} d.handle l) d.sane false
        (λ u. done (sys_set_option_auto api l d.handle d.index))
        (Returns-then (Left api hs {A = Result (Unit {0}) ℕ} d.handle l)
          (λ r. Kept api hs d.handle l r.3) _ _
          (control_option-Kept api hs l d.handle d.index Action.set_auto null) (λ r k. k))
