-- ===== src/Errors/Tests.antt =====
-- The codes of `sane.h`, and a theorem about them.
use libsane_rs.Common.{◌≡◌, ◌≢◌, ◌⊎◌, arith, ok, err}
use libsane_rs.Errors.Samples.{codes}
use libsane_rs.Errors.Status.{ErrorKind, read}
use libsane_rs.Errors.Codes.{Apart, named, read-eof}

codes-Apart : Apart (named codes)
codes-Apart = ground arith

read-eof_example :
    ((5 ≡ codes.eof) × (read codes (err 5) ≡ ok 0))
    ⊎ ((5 ≢ codes.eof)
        × (k : ErrorKind) × (read codes (err 5) ≡ err k)
        × (k ≢ ErrorKind.unexpected_eof))
read-eof_example = read-eof codes 5 codes-Apart
