-- ===== src/Calls/Api.antt =====
-- The functions of libsane that libsane/src/proxied_sys.rs calls, as a parameter: functions on a
-- state of the library that return a status code and what they write through their pointers.
use libsane_rs.Common.{ℕ, Bool, Option, List, length, ◌==◌, true, false}
use libsane_rs.Common.Vec.{MaybeUninit}
use libsane_rs.Sys.{ValueType, ConstraintType, Action}
use libsane_rs.Strings.Buffer.{SaneStr}
use libsane_rs.Scan.Session.{SysParameters}
use libsane_rs.Errors.Status.{StatusCodes}
use libsane_rs.Values.Value.{BoolWords}
use libsane_rs.Enumerate.Devices.{Pointers}

-- The union of constraints: which member is there, with the memory behind its pointer.
pub data Constraint : Type 0 where
  absent : Constraint
  range : ℕ → ℕ → ℕ → Constraint
  word_list : List ℕ → Constraint
  string_list : List (Option SaneStr) → Constraint

-- `sys::OptionDescriptor`; words are their 32 bits.
pub record OptionDescriptor : Type 0 where
  pub name : SaneStr
  pub title : SaneStr
  pub desc : SaneStr
  pub type_ : ValueType
  pub unit : ℕ
  pub size : ℕ
  pub cap : ℕ
  pub constraint_type : ConstraintType
  pub constraint : Constraint

-- What a `*mut c_void` of a value points to: a word, the buffer of a string, or nothing.
pub data Memory : Type 0 where
  word : ℕ → Memory
  buffer : List MaybeUninit → Memory
  null : Memory

-- Whether a memory is one that another can have become.
unfoldable pub same_shape : Memory → Memory → Bool
same_shape (word w) (word v) = true
same_shape (buffer xs) (buffer ys) = length xs == length ys
same_shape null null = true
same_shape _ _ = false

pub record Api (H L : Type 0) : Type 0 where
  pub codes : StatusCodes
  pub bools : BoolWords
  -- The status, and the list that the pointer leads to.
  pub sane_get_devices : L → ℕ → ℕ × Option Pointers × L
  pub sane_open : L → SaneStr → ℕ × Option H × L
  pub sane_close : L → H → L
  pub sane_get_option_descriptor : L → H → ℕ → Option OptionDescriptor × L
  -- The status, the value's memory afterwards, the word of the information, and the state.
  pub sane_control_option : L → H → ℕ → Action → Memory → ℕ × Memory × ℕ × L
  pub sane_get_parameters : L → H → ℕ × SysParameters × L
  pub sane_start : L → H → ℕ × L
  -- The status, the bytes written, and the word of the length.
  pub sane_read : L → H → ℕ → ℕ × List ℕ × ℕ × L
  pub sane_cancel : L → H → L
  pub sane_set_io_mode : L → H → ℕ → ℕ × L
  pub sane_get_select_fd : L → H → ℕ × ℕ × L
