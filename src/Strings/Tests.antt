-- ===== src/Strings/Tests.antt =====
-- Small strings, and the theorems about them at such strings.
use libsane_rs.Common.{
  ℕ, ◌≡◌, ◌↔◌, ◌⊎◌, refl, arith, Bool, true, none, some, List, [], ◌∷◌, ◌++◌, ret, Result, ok, ◌==◌,
  if◌then◌else◌, flatten,
}
use libsane_rs.Strings.Buffer.{
  SaneStr, SaneString, count_bytes, count_bytes_with_nul, hash, to_bytes, owned_bytes_with_nul, eq,
  cmp, Ordering,
}
use libsane_rs.Strings.Content.{Holds, reads-Holds}
use libsane_rs.Strings.Display.{fmt_string, debug_at, write_each, fmt_string-debug_at}
use libsane_rs.Strings.Order.{eq-prefix, cmp-eq, swap, is_equal}

abbrev word : SaneStr
word = record { bytes = 111 ∷ 110 ∷ [] }

abbrev stored : SaneString
stored = record { buf = some 111 ∷ some 110 ∷ some 0 ∷ none ∷ [] }

abbrev longer : SaneString
longer = record { buf = some 111 ∷ some 110 ∷ some 101 ∷ some 0 ∷ [] }

stored-Holds : Holds stored.buf (111 ∷ 110 ∷ [])
stored-Holds = record { rest = none ∷ []; shape = refl; non_nul = (omega arith, (omega arith, tt)) }

longer-Holds : Holds longer.buf (111 ∷ 110 ∷ 101 ∷ [])
longer-Holds = record {
  rest = [];
  shape = refl;
  non_nul = (omega arith, (omega arith, (omega arith, tt)));
}

reads-Holds_example :
    (count_bytes stored ≡ ret 2)
    × (count_bytes_with_nul stored ≡ ret 3)
    × (to_bytes stored ≡ ret (111 ∷ 110 ∷ []))
    × (owned_bytes_with_nul stored ≡ ret (111 ∷ 110 ∷ 0 ∷ []))
    × (hash stored ≡ ret (111 ∷ 110 ∷ []))
reads-Holds_example = reads-Holds stored (111 ∷ 110 ∷ []) stored-Holds

eq-prefix_example :
    (b : Bool) × (eq true stored longer ≡ ret b)
    × ((b ≡ true) ↔ (
        ((zs : List ℕ) × (111 ∷ 110 ∷ 101 ∷ [] ≡ (111 ∷ 110 ∷ []) ++ zs))
        ⊎ ((zs : List ℕ) × (111 ∷ 110 ∷ [] ≡ (111 ∷ 110 ∷ 101 ∷ []) ++ zs))))
eq-prefix_example =
    eq-prefix true stored longer (111 ∷ 110 ∷ []) (111 ∷ 110 ∷ 101 ∷ []) stored-Holds longer-Holds
      ((refl, (refl, tt)), (refl, (refl, (refl, tt))))

cmp-eq_example :
    (o : Ordering) × (cmp true stored longer ≡ ret o)
    × (cmp true longer stored ≡ ret (swap o))
    × (eq true stored longer ≡ ret (is_equal o))
cmp-eq_example =
    cmp-eq true stored longer (111 ∷ 110 ∷ []) (111 ∷ 110 ∷ 101 ∷ []) stored-Holds longer-Holds
      ((refl, (refl, tt)), (refl, (refl, (refl, tt))))

-- A writer without bounds, and an escape that puts a backslash before a quotation mark.
abbrev write_char : List ℕ → ℕ → Result (Unit {0}) (Unit {0}) × List ℕ
write_char out c = (ok tt, out ++ (c ∷ []))

abbrev escape : ℕ → List ℕ
escape c = if c == b'"' then b'\\' ∷ c ∷ [] else c ∷ []

fmt_string-debug_at_example :
    (fmt_string write_char true stored [] ≡ write_each write_char (111 ∷ 110 ∷ []) [])
    × (debug_at write_char escape true stored.buf []
        ≡ write_each write_char (b'"' ∷ 111 ∷ 110 ∷ b'"' ∷ []) [])
unfolding flatten
fmt_string-debug_at_example =
    fmt_string-debug_at write_char escape true stored (111 ∷ 110 ∷ []) [] stored-Holds
      (refl, (refl, tt))
