-- ===== src/Values/Tests.antt =====
-- The theorems about values at small ones.
use libsane_rs.Common.{arith, true}
use libsane_rs.Values.Value
use libsane_rs.Values.Value.{Value, BoolWords}
use libsane_rs.Values.Words.{RoundTrip, to_word-RoundTrip}

abbrev words : BoolWords
words = record { sys_false = 0; sys_true = 1 }

to_word-RoundTrip_example :
    RoundTrip words (Value.bool true) (Value.to_word words (Value.bool true))
to_word-RoundTrip_example = to_word-RoundTrip words (Value.bool true) (λ e. omega (arith, e))
