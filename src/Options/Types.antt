-- ===== src/Options/Types.antt =====
-- The comparison of types in `DeviceOption::set`, libsane/src/device/options.rs, and the values that
-- a word can be.
use libsane_rs.Common.{
  ℕ, ◌≡◌, ◌≢◌, refl, sym, ap, ◌∙◌, true, false, some, List, [], ◌∷◌, get_elem?, ==_refl, ==_ne,
}
use libsane_rs.Values.Value.{ValueType, BoolWords, is_word_sized}
use libsane_rs.Values.Owned
use libsane_rs.Values.Owned.{OwnedValue}
use libsane_rs.Options.Access.{same_type, discriminant}

pub same_type_refl : (ty : ValueType) → same_type ty ty ≡ true
unfolding same_type
same_type_refl ty = ==_refl (discriminant ty)

-- The types in the order of their discriminants.
abbrev types : List ValueType
types =
    ValueType.bool ∷ ValueType.int ∷ ValueType.fixed ∷ ValueType.string ∷ ValueType.group
    ∷ ValueType.button ∷ ValueType.unknown ∷ []

get_elem?-discriminant : (ty : ValueType) → get_elem? types (discriminant ty) ≡ some ty
unfolding discriminant
get_elem?-discriminant ValueType.bool = refl
get_elem?-discriminant ValueType.int = refl
get_elem?-discriminant ValueType.fixed = refl
get_elem?-discriminant ValueType.string = refl
get_elem?-discriminant ValueType.group = refl
get_elem?-discriminant ValueType.button = refl
get_elem?-discriminant ValueType.unknown = refl

some_eq : {a b : ValueType} → some a ≡ some b → a ≡ b
some_eq e = cc

pub same_type-ne : (a b : ValueType) → a ≢ b → same_type a b ≡ false
unfolding same_type
same_type-ne a b ne = ==_ne (discriminant a) (discriminant b) (λ e.
    ne (
      some_eq (sym (get_elem?-discriminant a) ∙ ap (get_elem? types) e ∙ get_elem?-discriminant b)))

-- The value of a type that a word stands for: a Boolean is false just for the word of `FALSE`.
abbrev pub StandsIn : BoolWords → ValueType → ℕ → OwnedValue → Type 0
StandsIn b ValueType.bool w v =
    (w ≡ b.sys_false → v ≡ OwnedValue.bool false) × (w ≢ b.sys_false → v ≡ OwnedValue.bool true)
StandsIn b ValueType.int w v = v ≡ OwnedValue.int w
StandsIn b ValueType.fixed w v = v ≡ OwnedValue.fixed w
StandsIn b _ w v = ⊥

-- A word is a value of each word-sized type.
pub from_word-value :
    (b : BoolWords) (ty : ValueType) (w : ℕ)
    → is_word_sized ty ≡ true
    → (v : OwnedValue) × (Owned.from_word b w ty ≡ some v) × StandsIn b ty w v
unfolding Owned.from_word is_word_sized
from_word-value b ValueType.bool w h =
    (_, refl, ((λ e. rw (e, ==_refl b.sys_false) refl), (λ ne. rw (==_ne w b.sys_false ne) refl)))
from_word-value b ValueType.int w h = (_, refl, refl)
from_word-value b ValueType.fixed w h = (_, refl, refl)
from_word-value b ValueType.string w h = cc
from_word-value b ValueType.group w h = cc
from_word-value b ValueType.button w h = cc
from_word-value b ValueType.unknown w h = cc
