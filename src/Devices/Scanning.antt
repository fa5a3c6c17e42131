-- ===== src/Devices/Scanning.antt =====
-- A scan on a device, from `DeviceHandle::scan_blocking` to `ScanReader::into_inner`
-- of libsane/src/device/scan.rs, over the C library of libsane/src/proxied_sys.rs.
use libsane_rs.Common.{
  ℕ, Bool, false, List, [], ◌∷◌, ◌==◌, min, if◌then◌else◌, ret, Result, ok, err,
}
use libsane_rs.Errors.Status.{StatusCodes}
use libsane_rs.Common.Vec.{Env, Vec}
use libsane_rs.Parameters.{FrameParameters}
use libsane_rs.Scan.Reader.{Status, int_max, End, finished, failed, out_of_fuel, read_full_frame}
use libsane_rs.Scan.Session.{
  Library, ScanReader, Call, next, read, stop, next_frame, read_frame, cancel,
}
use libsane_rs.Calls.Api.{Api}
use libsane_rs.Calls.Access.{Attempt, done, blocked, and_then, WithSane, with_sane}
use libsane_rs.Calls.Proxied.{blocking, sys_start, sys_set_io_mode, sys_get_parameters, sys_cancel}

-- A code by what the reader tells apart.
abbrev pub told_apart : StatusCodes → ℕ → Status
told_apart c s =
    if s == c.eof then Status.eof else if s == c.cancelled then Status.cancelled else Status.other s

abbrev pub with_status {ℓ κ} :
    {A : Type ℓ} {L : Type κ} → StatusCodes → Result A ℕ × L → Result A Status × L
with_status c (ok a, l) = (ok a, l)
with_status c (err s, l) = (err (told_apart c s), l)

-- A read that returned bytes where its status is no error.
abbrev pub bytes_read {κ} :
    {L : Type κ} → StatusCodes → ℕ × List ℕ × ℕ × L → Result (List ℕ) Status × L
bytes_read c (s, bytes, len, l) = if s == c.good then (ok bytes, l) else (err (told_apart c s), l)

-- A call of the reader, or `read_full_frame` of a frame with these parameters into a vector: with the
-- environment, whether debug assertions are on, a bound on its reads and whether a read of the frame
-- was started before.
pub data ScanCall : Type 0 where
  of_reader : Call → ScanCall
  full : Env → Bool → ℕ → FrameParameters → Bool → Vec → ScanCall

-- The reader after `read_full_frame`; a call that is not over within its bound has not returned.
unfoldable pub after_full : {L : Type 0} → End × Vec × L × Bool → Attempt (ScanReader L)
after_full (finished, v, l, over) = done (ret (record { device = l; done = over }))
after_full (failed s, v, l, over) = done (ret (record { device = l; done = over }))
after_full (out_of_fuel, v, l, over) = blocked

module _ {H L : Type 0} (api : Api H L) where
  -- The calls that the reader makes on an open device.
  unfoldable pub library_of : H → Library L
  unfolding sys_start sys_set_io_mode sys_get_parameters sys_cancel
  library_of h = record {
    start = λ l. with_status api.codes (sys_start api l h);
    set_io_mode = λ l. with_status api.codes (sys_set_io_mode api l h blocking);
    get_parameters = λ l. with_status api.codes (sys_get_parameters api l h);
    read = λ l n. bytes_read api.codes (api.sane_read l h (min n int_max));
    cancel = λ l. sys_cancel api l h;
    sys_false = api.bools.sys_false;
    unsupported = api.codes.unsupported;
  }

  -- A call of the reader; `cancel`, and `next_frame` of a reader that is done, ask for no access.
  unfoldable pub scan_call : WithSane → H → ScanReader L → Call → Attempt (ScanReader L)
  unfolding with_sane library_of next_frame read_frame cancel
  scan_call access h s next =
      if s.done
      then done (ret s)
      else with_sane access false (λ u. done (ret ((next_frame (library_of h) s).1)))
  scan_call access h s (read p n) =
      with_sane access false (λ u. done (ret ((read_frame (library_of h) p n s).1)))
  scan_call access h s stop = done (ret (cancel (library_of h) s))

  unfoldable pub any_call : WithSane → H → ScanReader L → ScanCall → Attempt (ScanReader L)
  unfolding with_sane library_of scan_call read_full_frame after_full
  any_call access h s (of_reader call) = scan_call access h s call
  any_call access h s (full e debug fuel p started buf_vec) = with_sane access false (λ u.
      and_then
        (done (read_full_frame (library_of h).read e debug fuel s.device p started s.done buf_vec))
        after_full)

  unfoldable pub scan_calls : WithSane → H → ScanReader L → List ScanCall → Attempt (ScanReader L)
  unfolding any_call
  scan_calls access h s [] = done (ret s)
  scan_calls access h s (call ∷ calls) =
      and_then (any_call access h s call) (λ next. scan_calls access h next calls)

  -- `scan_blocking`, calls of the reader, and `into_inner`, which cancels.
  unfoldable pub scan : WithSane → H → L → List ScanCall → Attempt L
  unfolding scan_calls cancel library_of
  scan access h l calls =
      and_then (scan_calls access h (record { device = l; done = false }) calls)
        (λ s. done (ret ((cancel (library_of h) s).device)))
