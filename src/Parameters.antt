-- ===== src/Parameters.antt =====
-- The parameters of a frame, from libsane/src/device/scan.rs.
use libsane_rs.Common.{ℕ, Bool, Option}
use libsane_rs.Sys.{Frame}

-- `FrameParameters` of scan.rs; every number is a `u32`.
pub record FrameParameters : Type 0 where
  pub format : Frame
  pub last_frame : Bool
  pub bytes_per_line : ℕ
  pub pixels_per_line : ℕ
  pub lines : Option ℕ
  pub depth : ℕ
