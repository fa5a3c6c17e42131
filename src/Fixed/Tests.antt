-- ===== src/Fixed/Tests.antt =====
-- Words near the end of their range.
use libsane_rs.Common.{◌≡◌, refl, ret, arith, false}
use libsane_rs.Common.Int.{◌+ℤ◌}
use libsane_rs.Common.Vec.{Env}
use libsane_rs.Fixed.{Fixed, add, sub, exact_or_wrapped}
use libsane_rs.Fixed.Arithmetic.{add-sub}

abbrev release : Env
release = record { overflow_checks = false; slack = 0 }

abbrev largest : Fixed
largest = record { word = 0x7fffffff }

abbrev two : Fixed
two = record { word = 2 }

add-sub_example : sub release (record { word = 0x80000001 }) two ≡ ret largest
unfolding add exact_or_wrapped ◌+ℤ◌
add-sub_example =
    add-sub release largest two (record { word = 0x80000001 }) (omega arith) (omega arith) refl
