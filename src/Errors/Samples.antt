-- ===== src/Errors/Samples.antt =====
-- The codes of `sane.h`, for the tests of the parts that take them as a parameter.
use libsane_rs.Errors.Status.{StatusCodes}

abbrev pub codes : StatusCodes
codes = record {
  good = 0;
  unsupported = 1;
  cancelled = 2;
  device_busy = 3;
  inval = 4;
  eof = 5;
  jammed = 6;
  no_docs = 7;
  cover_open = 8;
  io_error = 9;
  no_mem = 10;
  access_denied = 11;
}
