-- ===== src/Bindings/Names.antt =====
-- The names that the callbacks of libsane-sys/build.rs give.
use libsane_rs.Common.{
  ℕ, ◌≡◌, refl, ap, Bool, true, false, not, ◌&&◌, ◌⊎◌, inl, inr, some, List, [], ◌∷◌, ◌++◌, reverse,
  ◌==◌, Bool-cases,
}
use mathlib.Core.List.{reverse-append, reverse-reverse}
use libsane_rs.Common.Text.{text, same_text, strip_prefix, strip_prefix-append, unwrap_or}
use libsane_rs.Bindings.{
  reversed, Case, upper_camel, snake, upper_snake, to_ascii_uppercase, strip_suffix, contains,
  without, of_enum, enum_variant_name, item_name,
}

without-contains : (c : ℕ) (s : List ℕ) → contains c (without c s) ≡ false
unfolding without contains
without-contains c [] = refl
without-contains c (d ∷ ds) = elim (Bool-cases (c == d)) [
  | inl same ↦ rw same (without-contains c ds)
  | inr other ↦ rw other (rw (without-contains c ds, other))
]

strip_suffix-append : (s suffix : List ℕ) → strip_suffix suffix (s ++ suffix) ≡ some s
unfolding strip_suffix reversed
strip_suffix-append s suffix =
    rw (reverse-append s suffix, strip_prefix-append (reverse suffix) (reverse s))
      (ap some (reverse-reverse s))

-- Why the test of `item_name` fails: there is no underscore, or the name is in a case with underscores.
failed : (a b c : Bool) → (a && (not b && not c)) ≡ false → (a ≡ false) ⊎ ((b ≡ true) ⊎ (c ≡ true))
failed false b c h = inl refl
failed true true c h = inr (inl refl)
failed true false true h = inr (inr refl)
failed true false false h = cc

module _ (to_case : Case → List ℕ → List ℕ) where
  -- A variant of an enumeration whose name ends in `_Type`, but for that of the value types, loses the
  -- capitals of the name before this ending and an underscore, and is put in camel case.
  enum_variant_name-suffix :
      (stem variant : List ℕ)
      → same_text (stem ++ text "_Type") (text "SANE_Value_Type") ≡ false
      → enum_variant_name to_case
          (some (stem ++ text "_Type"))
          ((to_ascii_uppercase stem ++ text "_") ++ variant)
        ≡ some (to_case upper_camel variant)
  unfolding enum_variant_name of_enum
  enum_variant_name-suffix stem variant other = rw other (
      rw (strip_suffix-append stem (text "_Type"))
        (rw (strip_prefix-append (to_ascii_uppercase stem ++ text "_") variant)))

  -- `item_name` names every item, by a name without underscores or one that is in snake case already,
  -- small or capital.
  item_name-cases :
      (original : List ℕ)
      → (name : List ℕ) × (item_name to_case original ≡ some name)
        × ((contains b'_' name ≡ false)
            ⊎ ((same_text (to_case snake name) name ≡ true)
                ⊎ (same_text (to_case upper_snake name) name ≡ true)))
  unfolding item_name
  item_name-cases original =
      let name = unwrap_or (strip_prefix (text "SANE_") original) original in
      let test =
        contains b'_' name
        && (not (same_text (to_case snake name) name)
            && not (same_text (to_case upper_snake name) name)) in
      elim (Bool-cases test) [
        | inl mixed ↦ (without b'_' name, rw mixed, inl (without-contains b'_' name))
        | inr plain ↦ (name, rw plain, failed _ _ _ plain)
      ]
