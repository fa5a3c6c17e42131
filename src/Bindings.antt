-- ===== src/Bindings.antt =====
-- How libsane-sys/build.rs names the items of the generated bindings: the callbacks that bindgen calls.
-- `to_case` of the crate convert_case is a parameter.
use libsane_rs.Common.{
  ℕ, ◌-◌, ◌≡◌, refl, Bool, true, false, not, ◌&&◌, ◌||◌, Option, none, some, List, [], ◌∷◌, ◌++◌,
  map, reverse, leb, ◌==◌, if◌then◌else◌,
}
use libsane_rs.Common.Text.{text, same_text, strip_prefix, unwrap_or}
pub mod Names

-- `convert_case::Case`, as far as it is used.
pub data Case : Type 0 where
  upper_camel snake upper_snake : Case

-- `IntKind::Custom`
pub record IntKind : Type 0 where
  pub name : List ℕ
  pub is_signed : Bool

unfoldable pub upper_char : ℕ → ℕ
upper_char c = if leb b'a' c && leb c b'z' then c - 32 else c

unfoldable pub to_ascii_uppercase : List ℕ → List ℕ
unfolding upper_char
to_ascii_uppercase s = map upper_char s

unfoldable pub reversed : Option (List ℕ) → Option (List ℕ)
reversed none = none
reversed (some s) = some (reverse s)

unfoldable pub strip_suffix : List ℕ → List ℕ → Option (List ℕ)
unfolding reversed strip_prefix
strip_suffix suffix s = reversed (strip_prefix (reverse suffix) (reverse s))

unfoldable pub contains : ℕ → List ℕ → Bool
contains c [] = false
contains c (d ∷ ds) = c == d || contains c ds

-- `replace('_', "")`
unfoldable pub without : ℕ → List ℕ → List ℕ
without c [] = []
without c (d ∷ ds) = let rest = without c ds in if c == d then rest else d ∷ rest

module _ (to_case : Case → List ℕ → List ℕ) where
  camel : Option (List ℕ) → Option (List ℕ)
  camel none = none
  camel (some name) = some (to_case upper_camel name)

  unfoldable pub of_enum : List ℕ → List ℕ → List ℕ
  unfolding strip_prefix strip_suffix to_ascii_uppercase
  of_enum enum_name original_variant_name =
      let stem = unwrap_or (strip_suffix (text "_Type") enum_name) enum_name in
      let prefix = to_ascii_uppercase stem ++ text "_" in
      to_case upper_camel
        (unwrap_or (strip_prefix prefix original_variant_name) original_variant_name)

  unfoldable pub enum_variant_name : Option (List ℕ) → List ℕ → Option (List ℕ)
  unfolding camel of_enum same_text strip_prefix
  enum_variant_name none original_variant_name = none
  enum_variant_name (some enum_name) original_variant_name =
      if same_text enum_name (text "SANE_Value_Type")
      then camel (strip_prefix (text "SANE_TYPE_") original_variant_name)
      else some (of_enum enum_name original_variant_name)

  unfoldable pub item_name : List ℕ → Option (List ℕ)
  unfolding same_text strip_prefix contains without
  item_name original_item_name =
      let name = unwrap_or (strip_prefix (text "SANE_") original_item_name) original_item_name in
      if contains b'_' name
        && (not (same_text (to_case snake name) name)
            && not (same_text (to_case upper_snake name) name))
      then some (without b'_' name)
      else some name

unfoldable pub int_macro : List ℕ → Option IntKind
unfolding same_text
int_macro name =
    if same_text name (text "SANE_FALSE") || same_text name (text "SANE_TRUE")
    then some (record { name = text "Bool"; is_signed = true })
    else none
