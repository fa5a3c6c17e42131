-- ===== src/Devices/Kept.antt =====
-- The methods of a handle of libsane/src/device.rs, and `DeviceOption::get`, against whether a handle
-- is open.
use libsane_rs.Common.{
  ℕ, ◌≡◌, refl, Bool, true, false, Option, some, ret, ub, ◌>>=◌, Result, ok, err,
}
use libsane_rs.Common.Returns.{Returns, Returns->>=, Returns-then, Returns-if}
use libsane_rs.Sys.{Action, get_value, set_value}
use libsane_rs.Strings.Buffer.{SaneStr, with_capacity}
use libsane_rs.Errors.Status.{status_result}
use libsane_rs.Options.Descriptor.{type_, size}
use libsane_rs.Values.Value.{ValueType, is_word_sized}
use libsane_rs.Values.Owned.{OwnedValue}
use libsane_rs.Calls.Api.{Api, same_shape, Memory, word, buffer, null}
use libsane_rs.Calls.Access.{done}
use libsane_rs.Calls.Proxied.{
  control_option, checked_index, sys_get_option_value, sys_set_option_value,
}
use libsane_rs.Options.Accessors.{DeviceOption}
use libsane_rs.Options.Access.{
  discriminant, same_type, get, get_by, got_word, got_string, get_string, size_inside,
}
use libsane_rs.Calls.Ends.{Ends, Ends-with_sane}

-- What libsane documents of handles: one that `sane_open` returns with the status for success is open
-- until it is closed, and none of the other functions closes it.
pub record Handles {H L : Type 0} (api : Api H L) : Type 0 where
  pub is_open : L → H → Bool
  pub opens :
      (l l' : L) (name : SaneStr) (s : ℕ) (h : H)
      → s ≡ api.codes.good
      → api.sane_open l name ≡ (s, some h, l')
      → is_open l' h ≡ true
  pub closes : (l : L) (h : H) → is_open (api.sane_close l h) h ≡ false
  pub found :
      (l : L) (h : H) (i : ℕ) → is_open ((api.sane_get_option_descriptor l h i).1) h ≡ is_open l h
  pub controlled :
      (l : L) (h : H) (i : ℕ) (a : Action) (m : Memory)
      → is_open ((api.sane_control_option l h i a m).3) h ≡ is_open l h
  pub asked : (l : L) (h : H) → is_open ((api.sane_get_parameters l h).2) h ≡ is_open l h
  pub started : (l : L) (h : H) → is_open ((api.sane_start l h).1) h ≡ is_open l h
  pub read_from : (l : L) (h : H) (n : ℕ) → is_open ((api.sane_read l h n).3) h ≡ is_open l h
  pub mode_set : (l : L) (h : H) (m : ℕ) → is_open ((api.sane_set_io_mode l h m).1) h ≡ is_open l h
  pub cancelled : (l : L) (h : H) → is_open (api.sane_cancel l h) h ≡ is_open l h

module _ {H L : Type 0} (api : Api H L) (hs : Handles api) where
  -- A state in which a handle is open just if it is in another.
  abbrev pub Kept : H → L → L → Type 0
  Kept h l l' = hs.is_open l' h ≡ hs.is_open l h

  -- What a call returned, with the state that it left.
  abbrev pub Left {ℓ} : {A : Type ℓ} → H → L → A × L → Type 0
  Left h l r = Kept h l r.1

  pub control_option-Kept :
      (l : L) (h : H) (i : ℕ) (a : Action) (m : Memory)
      → Returns (λ r. Kept h l r.3) (control_option api l h i a m)
  unfolding control_option
  control_option-Kept l h i a m =
      Returns->>= (λ r. Kept h l r.3) (checked_index i) _
        (λ j.
          Returns-if (λ (r : Result (Unit {0}) ℕ × Memory × ℕ × L). Kept h l r.3)
            (same_shape m (api.sane_control_option l h j a m).1)
            (ret (
              status_result api.codes (api.sane_control_option l h j a m).0,
              (api.sane_control_option l h j a m).1,
              (api.sane_control_option l h j a m).2,
              (api.sane_control_option l h j a m).3,
            ))
            ub (λ e. hs.controlled l h j a m) (λ e. tt))

  sys_get_option_value-Kept :
      (l : L) (h : H) (i : ℕ) (m : Memory)
      → Returns (λ r. Kept h l r.2) (sys_get_option_value api l h i m)
  unfolding sys_get_option_value
  sys_get_option_value-Kept l h i m =
      Returns-then (λ r. Kept h l r.2) (λ r. Kept h l r.3) (control_option api l h i get_value m) _
        (control_option-Kept l h i get_value m) (λ r k. k)

  pub sys_set_option_value-Kept :
      (l : L) (h : H) (i : ℕ) (m : Memory)
      → Returns (λ r. Kept h l r.2) (sys_set_option_value api l h i m)
  unfolding sys_set_option_value
  sys_set_option_value-Kept l h i m =
      Returns-then (λ r. Kept h l r.2) (λ r. Kept h l r.3) (control_option api l h i set_value m) _
        (control_option-Kept l h i set_value m) (λ r k. k)

  got_word-Kept :
      (l : L) (h : H) (ty : ValueType) (r : Result (Unit {0}) ℕ × Memory × L)
      → Kept h l r.2
      → Returns (Left h l) (got_word api ty r)
  unfolding got_word
  got_word-Kept l h ty (err s, m, l') k = k
  got_word-Kept l h ty (ok u, word w, l') k = k
  got_word-Kept l h ty (ok u, buffer b, l') k = tt
  got_word-Kept l h ty (ok u, null, l') k = tt

  got_string-Kept :
      (l : L) (h : H) (r : Result (Unit {0}) ℕ × Memory × L)
      → Kept h l r.2
      → Returns (Left h l) (got_string api r)
  unfolding got_string
  got_string-Kept l h (err s, m, l') k = k
  got_string-Kept l h (ok u, word w, l') k = tt
  got_string-Kept l h (ok u, buffer b, l') k = k
  got_string-Kept l h (ok u, null, l') k = tt

  get_word-Kept :
      (l : L) (d : DeviceOption H) (ty : ValueType)
      → Returns
          (Left {A = Result (Option OwnedValue) ℕ} d.handle l)
          (sys_get_option_value api l d.handle d.index (word 0) >>= got_word api ty)
  get_word-Kept l d ty =
      Returns-then (Left {A = Result (Option OwnedValue) ℕ} d.handle l) (λ r. Kept d.handle l r.2) _
        _ (sys_get_option_value-Kept l d.handle d.index (word 0)) (got_word-Kept l d.handle ty)

  get_string-Kept :
      (l : L) (d : DeviceOption H) (n : ℕ)
      → Returns (Left {A = Result (Option OwnedValue) ℕ} d.handle l) (get_string api l d n)
  unfolding get_string
  get_string-Kept l d n =
      Returns->>= (Left {A = Result (Option OwnedValue) ℕ} d.handle l) (with_capacity n) _ (λ b.
        Returns-then (Left {A = Result (Option OwnedValue) ℕ} d.handle l) (λ r. Kept d.handle l r.2)
          _ _ (sys_get_option_value-Kept l d.handle d.index (buffer b.buf))
          (got_string-Kept l d.handle))

  get_by-Kept :
      (l : L) (d : DeviceOption H) (ty : ValueType)
      → Ends (Left {A = Result (Option OwnedValue) ℕ} d.handle l) (get_by api l d ty)
  unfolding get_by is_word_sized same_type discriminant size_inside
  get_by-Kept l d ValueType.bool = get_word-Kept l d ValueType.bool
  get_by-Kept l d ValueType.int = get_word-Kept l d ValueType.int
  get_by-Kept l d ValueType.fixed = get_word-Kept l d ValueType.fixed
  get_by-Kept l d ValueType.string =
      Ends-with_sane (Left {A = Result (Option OwnedValue) ℕ} d.handle l) d.sane true
        (λ u. done (get_string api l d (size d.descriptor)))
        (get_string-Kept l d (size d.descriptor))
  get_by-Kept l d ValueType.group = refl
  get_by-Kept l d ValueType.button = refl
  get_by-Kept l d ValueType.unknown = refl

  pub get-Kept :
      (l : L) (d : DeviceOption H)
      → Ends (Left {A = Result (Option OwnedValue) ℕ} d.handle l) (get api l d)
  unfolding get
  get-Kept l d =
      Ends-with_sane (Left {A = Result (Option OwnedValue) ℕ} d.handle l) d.sane false
        (λ u. get_by api l d (type_ d.descriptor)) (get_by-Kept l d (type_ d.descriptor))
