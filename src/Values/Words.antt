-- ===== src/Values/Words.antt =====
-- The words of values, borrowed or owned, libsane/src/value.rs.
use libsane_rs.Common.{
  ℕ, ◌≡◌, ◌≢◌, refl, ap, Bool, true, false, not, Option, none, some, ◌==◌, ==_refl, ==_ne, ret,
  List,
}
use libsane_rs.Strings.Content.{Holds, reads-Holds}
use libsane_rs.Values.Value
use libsane_rs.Values.Value.{ValueType, Value, BoolWords, sys_bool, is_word_sized}
use libsane_rs.Values.Owned
use libsane_rs.Values.Owned.{OwnedValue, as_ref}

-- Whether a value has a word, and the value that the word is read as at its type.
abbrev pub RoundTrip : BoolWords → Value → Option ℕ → Type 0
RoundTrip c v none = is_word_sized (Value.type_of v) ≡ false
RoundTrip c v (some w) =
    (is_word_sized (Value.type_of v) ≡ true) × (Value.from_word c w (Value.type_of v) ≡ some v)

read_bool :
    (c : BoolWords) (b : Bool) → c.sys_true ≢ c.sys_false → not (sys_bool c b == c.sys_false) ≡ b
unfolding sys_bool
read_bool c false h = rw (==_refl c.sys_false)
read_bool c true h = rw (==_ne c.sys_true c.sys_false h)

-- Where the constants of the bindings differ, a value has a word just if its type is word sized, and
-- the word is read back at that type as the value.
pub to_word-RoundTrip :
    (c : BoolWords) (v : Value) → c.sys_true ≢ c.sys_false → RoundTrip c v (Value.to_word c v)
unfolding Value.type_of Value.to_word Value.from_word is_word_sized
to_word-RoundTrip c (Value.bool b) h = (refl, ap (λ x. some (Value.bool x)) (read_bool c b h))
to_word-RoundTrip c (Value.int w) h = (refl, refl)
to_word-RoundTrip c (Value.fixed w) h = (refl, refl)
to_word-RoundTrip c (Value.string s) h = refl

-- An owned value that can be borrowed: a string needs a buffer that holds one.
abbrev pub Readable : OwnedValue → Type 0
Readable (OwnedValue.bool b) = Unit
Readable (OwnedValue.int w) = Unit
Readable (OwnedValue.fixed w) = Unit
Readable (OwnedValue.string s) = (bytes : List ℕ) × Holds s.buf bytes

-- Borrowing an owned value, whose string if it is one is held by its buffer, returns a value of the
-- same type and with the same word or none.
pub as_ref-type_of :
    (c : BoolWords) (o : OwnedValue)
    → Readable o
    → (v : Value) × (as_ref o ≡ ret v)
      × (Value.type_of v ≡ Owned.type_of o)
      × (Value.to_word c v ≡ Owned.to_word c o)
unfolding as_ref Value.type_of Owned.type_of Value.to_word Owned.to_word
as_ref-type_of c (OwnedValue.bool b) h = (Value.bool b, refl, refl, refl)
as_ref-type_of c (OwnedValue.int w) h = (Value.int w, refl, refl, refl)
as_ref-type_of c (OwnedValue.fixed w) h = (Value.fixed w, refl, refl, refl)
as_ref-type_of c (OwnedValue.string s) (bytes, holds) =
    (Value.string (record { bytes = bytes }), rw ((reads-Holds s bytes holds).2), refl, refl)
