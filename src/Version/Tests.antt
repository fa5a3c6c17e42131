-- ===== src/Version/Tests.antt =====
-- A version, and the theorem about its text.
use libsane_rs.Common.{◌≡◌, arith, some}
use libsane_rs.Version.Text.{fmt, read_version, fmt-new}
use libsane_rs.Version.Numbers.{Numbers, of}

abbrev old : Numbers
old = record {
  first = 1;
  second = 0;
  third = 32;
  first_u8 = omega arith;
  second_u8 = omega arith;
  third_u16 = omega arith;
}

fmt-new_example : read_version (fmt (of old)) ≡ some (1, 0, 32)
fmt-new_example = fmt-new old
