-- ===== src/Errors/Status.antt =====
-- `Status` and `status_result` of libsane/src/error.rs. The values of the generated constants are a
-- parameter, and an `Error` is its status code.
use libsane_rs.Common.{ℕ, ◌-◌, Bool, true, false, ◌==◌, if◌then◌else◌, Result, ok, err}

-- The constants of `sys::Status`.
pub record StatusCodes : Type 0 where
  pub good : ℕ
  pub unsupported : ℕ
  pub cancelled : ℕ
  pub device_busy : ℕ
  pub inval : ℕ
  pub eof : ℕ
  pub jammed : ℕ
  pub no_docs : ℕ
  pub cover_open : ℕ
  pub io_error : ℕ
  pub no_mem : ℕ
  pub access_denied : ℕ

pub data Status : Type 0 where
  unsupported cancelled device_busy inval eof jammed no_docs cover_open : Status
  io_error no_mem access_denied unknown : Status

unfoldable pub from_sys : StatusCodes → ℕ → Status
from_sys c value =
    if value == c.unsupported
    then Status.unsupported
    else if value == c.cancelled
    then Status.cancelled
    else if value == c.device_busy
    then Status.device_busy
    else if value == c.inval
    then Status.inval
    else if value == c.eof
    then Status.eof
    else if value == c.jammed
    then Status.jammed
    else if value == c.no_docs
    then Status.no_docs
    else if value == c.cover_open
    then Status.cover_open
    else if value == c.io_error
    then Status.io_error
    else if value == c.no_mem
    then Status.no_mem
    else if value == c.access_denied
    then Status.access_denied
    else Status.unknown

unfoldable pub status_result : StatusCodes → ℕ → Result (Unit {0}) ℕ
status_result c status = if status == c.good then ok tt else err status

-- The kinds of `io::Error` that a read is turned into.
pub data ErrorKind : Type 0 where
  broken_pipe unexpected_eof out_of_memory permission_denied other : ErrorKind

unfoldable pub kind_of : Status → ErrorKind
kind_of Status.cancelled = ErrorKind.broken_pipe
kind_of Status.eof = ErrorKind.unexpected_eof
kind_of Status.no_mem = ErrorKind.out_of_memory
kind_of Status.access_denied = ErrorKind.permission_denied
kind_of _ = ErrorKind.other

unfoldable pub read_error_to_io : StatusCodes → ℕ → ErrorKind
unfolding kind_of from_sys
read_error_to_io c error = kind_of (from_sys c error)

unfoldable pub is_eof : Status → Bool
is_eof Status.eof = true
is_eof _ = false

-- `io::Read::read` on what `read_frame` returned.
unfoldable pub read : StatusCodes → Result ℕ ℕ → Result ℕ ErrorKind
unfolding from_sys is_eof read_error_to_io
read c (ok len) = ok len
read c (err e) = if is_eof (from_sys c e) then ok 0 else err (read_error_to_io c e)

-- `io::Read::read_to_end` on what `read_full_frame` returned, with the lengths of the buffer before
-- and after it.
unfoldable pub read_to_end : StatusCodes → ℕ → ℕ → Result (Unit {0}) ℕ → Result ℕ ErrorKind
unfolding read_error_to_io
read_to_end c len after (ok u) = ok (after - len)
read_to_end c len after (err e) = err (read_error_to_io c e)
