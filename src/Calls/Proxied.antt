-- ===== src/Calls/Proxied.antt =====
-- The wrappers of libsane/src/proxied_sys.rs over a parameter for the C library.
use libsane_rs.Common.{
  ℕ, ◌^◌, Bool, Option, none, some, List, ◌++◌, length, drop, min, leb, ltb, if◌then◌else◌, Outcome,
  ret, panic, ub, ◌>>=◌, Result, ok, err,
}
use libsane_rs.Sys.{Action, get_value, set_value, set_auto}
use libsane_rs.Strings.Buffer.{SaneStr}
use libsane_rs.Scan.Session.{SysParameters}
use libsane_rs.Scan.Reader.{int_max}
use libsane_rs.Errors.Status.{status_result}
use libsane_rs.Values.Value.{sys_bool}
use libsane_rs.Enumerate.Devices.{Pointers}
use libsane_rs.Calls.Api.{Api, OptionDescriptor, Memory, null, same_shape}

pub data IoMode : Type 0 where
  blocking non_blocking : IoMode

-- A status that is no error goes with what else the call returned.
unfoldable pub with_value {ℓ} : {A : Type ℓ} → Result (Unit {0}) ℕ → A → Result A ℕ
with_value (ok u) a = ok a
with_value (err s) a = err s

-- `debug_assert!(!list.is_null()); Ok(NonNull::new_unchecked(list))`.
unfoldable pub non_null {ℓ} :
    {A : Type ℓ} → Bool → Result (Unit {0}) ℕ → Option A → Outcome (Result A ℕ)
non_null debug (err s) p = ret (err s)
non_null debug (ok u) (some a) = ret (ok a)
non_null debug (ok u) none = if debug then panic else ub

-- `index.try_into().expect("invalid index")`.
unfoldable pub checked_index : ℕ → Outcome ℕ
checked_index index = if ltb index (2 ^ 31) then ret index else panic

module _ {H L : Type 0} (api : Api H L) where
  unfoldable pub sys_get_devices : Bool → L → Bool → Outcome (Result Pointers ℕ × L)
  unfolding non_null status_result sys_bool
  sys_get_devices debug l local_only =
      let r = api.sane_get_devices l (sys_bool api.bools local_only) in
      non_null debug (status_result api.codes r.0) r.1 >>= λ list. ret (list, r.2)

  unfoldable pub sys_open : Bool → L → SaneStr → Outcome (Result H ℕ × L)
  unfolding non_null status_result
  sys_open debug l devicename =
      let r = api.sane_open l devicename in
      non_null debug (status_result api.codes r.0) r.1 >>= λ handle. ret (handle, r.2)

  unfoldable pub sys_close : L → H → L
  sys_close l handle = api.sane_close l handle

  unfoldable pub sys_get_option_descriptor : L → H → ℕ → Outcome (Option OptionDescriptor × L)
  unfolding checked_index
  sys_get_option_descriptor l handle index =
      checked_index index >>= λ i. ret (api.sane_get_option_descriptor l handle i)

  -- A call of `sane_control_option`, whose writes have to stay in the memory of the value.
  unfoldable pub control_option :
      L → H → ℕ → Action → Memory → Outcome (Result (Unit {0}) ℕ × Memory × ℕ × L)
  unfolding checked_index status_result same_shape
  control_option l handle index action value = checked_index index >>= λ i.
      let r = api.sane_control_option l handle i action value in
      if same_shape value r.1 then ret (status_result api.codes r.0, r.1, r.2, r.3) else ub

  -- The result, and the value's memory afterwards.
  unfoldable pub sys_get_option_value :
      L → H → ℕ → Memory → Outcome (Result (Unit {0}) ℕ × Memory × L)
  unfolding control_option
  sys_get_option_value l handle index value =
      control_option l handle index get_value value >>= λ r. ret (r.0, r.1, r.3)

  unfoldable pub sys_set_option_value : L → H → ℕ → Memory → Outcome (Result ℕ ℕ × Memory × L)
  unfolding control_option with_value
  sys_set_option_value l handle index value =
      control_option l handle index set_value value >>= λ r. ret (with_value r.0 r.2, r.1, r.3)

  unfoldable pub sys_set_option_auto : L → H → ℕ → Outcome (Result (Unit {0}) ℕ × L)
  unfolding control_option
  sys_set_option_auto l handle index =
      control_option l handle index set_auto null >>= λ r. ret (r.0, r.3)

  unfoldable pub sys_get_parameters : L → H → Result SysParameters ℕ × L
  unfolding status_result with_value
  sys_get_parameters l handle =
      let r = api.sane_get_parameters l handle in
      (with_value (status_result api.codes r.0) r.1, r.2)

  unfoldable pub sys_start : L → H → Result (Unit {0}) ℕ × L
  unfolding status_result
  sys_start l handle = let r = api.sane_start l handle in (status_result api.codes r.0, r.1)

  -- What the library wrote at the start of the buffer, and the number that it reported.
  unfoldable pub read_into :
      List ℕ → Result (Unit {0}) ℕ × List ℕ × ℕ × L → Outcome (Result ℕ ℕ × List ℕ × L)
  read_into buf (status, bytes, len, l) =
      if leb (length bytes) (length buf)
      then (elim status [
        | err s ↦ ret (err s, bytes ++ drop (length bytes) buf, l)
        | ok u ↦
            if ltb len (2 ^ 31) then ret (ok len, bytes ++ drop (length bytes) buf, l) else panic
      ])
      else ub

  unfoldable pub sys_read : L → H → List ℕ → Outcome (Result ℕ ℕ × List ℕ × L)
  unfolding status_result read_into
  sys_read l handle buf =
      let r = api.sane_read l handle (min (length buf) int_max) in
      read_into buf (status_result api.codes r.0, r.1, r.2, r.3)

  unfoldable pub sys_cancel : L → H → L
  sys_cancel l handle = api.sane_cancel l handle

  unfoldable pub mode_word : IoMode → ℕ
  mode_word blocking = api.bools.sys_false
  mode_word non_blocking = api.bools.sys_true

  unfoldable pub sys_set_io_mode : L → H → IoMode → Result (Unit {0}) ℕ × L
  unfolding status_result mode_word
  sys_set_io_mode l handle mode =
      let r = api.sane_set_io_mode l handle (mode_word mode) in (status_result api.codes r.0, r.1)

  unfoldable pub sys_get_select_fd : L → H → Result ℕ ℕ × L
  unfolding status_result with_value
  sys_get_select_fd l handle =
      let r = api.sane_get_select_fd l handle in (with_value (status_result api.codes r.0) r.1, r.2)
