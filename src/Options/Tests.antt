-- ===== src/Options/Tests.antt =====
-- A library with an option of each kind, and the theorems about it.
use libsane_rs.Common.{ℕ, ◌+◌, ◌≡◌, refl, false, none, some, [], ◌∷◌}
use libsane_rs.Sys
use libsane_rs.Sys.{ConstraintType, get_value}
use libsane_rs.Strings.Buffer.{SaneStr}
use libsane_rs.Errors.Samples.{codes}
use libsane_rs.Values.Value
use libsane_rs.Values.Value.{ValueType, Value}
use libsane_rs.Calls.Api.{Api, OptionDescriptor, Constraint, Memory, word, buffer, null}
use libsane_rs.Calls.Access.{blocked, WithSane, sane, arc, mutex}
use libsane_rs.Options.Descriptor.{size, type_}
use libsane_rs.Options.Accessors.{DeviceOption, constraint}
use libsane_rs.Options.Access.{get, set}
use libsane_rs.Options.Setting.{get-blocked}

abbrev no_text : SaneStr
no_text = record { bytes = [] }

-- An option of a type, with four bytes or one word, in the range from 1 to 9.
abbrev described : Sys.ValueType → OptionDescriptor
described ty = record {
  name = no_text;
  title = no_text;
  desc = no_text;
  type_ = ty;
  unit = 0;
  size = 4;
  cap = 0;
  constraint_type = ConstraintType.range;
  constraint = Constraint.range 1 9 1;
}

-- What the library leaves in a memory: the word 7 or the empty string.
abbrev answer : Memory → Memory
answer (word w) = word 7
answer (buffer []) = buffer []
answer (buffer (b ∷ rest)) = buffer (some 0 ∷ rest)
answer null = null

-- A library whose state counts the calls; its devices are numbers.
abbrev library : Api ℕ ℕ
library = record {
  codes = codes;
  bools = record { sys_false = 0; sys_true = 1 };
  sane_get_devices = λ l b. (0, some (none ∷ []), l);
  sane_open = λ l name. (0, some 5, l);
  sane_close = λ l h. l;
  sane_get_option_descriptor = λ l h i. (some (described Sys.ValueType.int), l);
  sane_control_option = λ l h i a m. (0, answer m, 1, l + 1);
  sane_get_parameters = λ l h. (
    0,
    record {
      format = Sys.Frame.gray;
      last_frame = 1;
      bytes_per_line = 1;
      pixels_per_line = 1;
      lines = 1;
      depth = 8;
    },
    l,
  );
  sane_start = λ l h. (0, l);
  sane_read = λ l h n. (5, [], 0, l);
  sane_cancel = λ l h. l;
  sane_set_io_mode = λ l h m. (0, l);
  sane_get_select_fd = λ l h. (1, 0, l);
}

abbrev opened : WithSane → Sys.ValueType → DeviceOption ℕ
opened access ty = record { sane = access; handle = 5; descriptor = described ty; index = 1 }

-- A device that is shared between threads.
abbrev shared : WithSane
shared = arc (mutex false sane)

get-blocked_example :
    (get library 0 (opened shared Sys.ValueType.string) ≡ blocked)
    × (set library 0 (opened shared Sys.ValueType.string) (Value.string no_text) ≡ blocked)
unfolding type_
get-blocked_example =
    get-blocked library 0 (opened shared Sys.ValueType.string) no_text tt (refl, tt) refl
