-- ===== src/Sys.antt =====
-- The names of `sane.h` that the code matches on, as the build generates them for libsane-sys.
-- Each generated enumeration is a number of C: a name stands for one value, `other` for the rest.
use libsane_rs.Common.{ℕ}

-- `sys::Frame`.
pub data Frame : Type 0 where
  gray rgb red green blue : Frame
  other : ℕ → Frame

-- `sys::ValueType`.
pub data ValueType : Type 0 where
  bool int fixed string group button : ValueType
  other : ℕ → ValueType

-- `sys::ConstraintType`.
pub data ConstraintType : Type 0 where
  unconstrained range word_list string_list : ConstraintType
  other : ℕ → ConstraintType

-- `sys::Action`.
pub data Action : Type 0 where
  get_value set_value set_auto : Action
