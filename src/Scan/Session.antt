-- ===== src/Scan/Session.antt =====
-- `ScanReader` and `FrameReader::read_frame` of libsane/src/device/scan.rs, and the conversion of the
-- parameters that the C library reports.
use libsane_rs.Common.{
  arith, ℕ, ◌-◌, ◌^◌, ◌≡◌, refl, Bool, true, false, not, ◌||◌, Option, none, some, List, [], ◌∷◌,
  min, All, ◌==◌, if◌then◌else◌, Result, ok, err,
}
use libsane_rs.Sys.{Frame}
use libsane_rs.Parameters.{FrameParameters}
use libsane_rs.Scan.Reader.{Status, eof, cancelled, other, SaneRead, int_max}

-- `sys::Parameters`; its words are their 32 bits.
pub record SysParameters : Type 0 where
  pub format : Frame
  pub last_frame : ℕ
  pub bytes_per_line : ℕ
  pub pixels_per_line : ℕ
  pub lines : ℕ
  pub depth : ℕ

-- `FrameParameters::from`; the bits of -1 are all set, and `sys::FALSE` is given.
unfoldable pub from_sys : ℕ → SysParameters → FrameParameters
from_sys sys_false v = record {
  format = v.format;
  last_frame = not (v.last_frame == sys_false);
  bytes_per_line = v.bytes_per_line;
  pixels_per_line = v.pixels_per_line;
  lines = if v.lines == 2 ^ 32 - 1 then none else some v.lines;
  depth = v.depth;
}

-- `FrameFormat` and its conversion from the formats of the library.
pub data FrameFormat : Type 0 where
  gray rgb red green blue unsupported : FrameFormat

unfoldable pub frame_format : Frame → FrameFormat
frame_format Frame.gray = FrameFormat.gray
frame_format Frame.rgb = FrameFormat.rgb
frame_format Frame.red = FrameFormat.red
frame_format Frame.green = FrameFormat.green
frame_format Frame.blue = FrameFormat.blue
frame_format (Frame.other k) = FrameFormat.unsupported

unfoldable pub is_rgb : FrameFormat → Bool
is_rgb FrameFormat.gray = false
is_rgb FrameFormat.unsupported = false
is_rgb _ = true

-- The calls of the C library on an open device, as functions on its state, and the constants of the
-- bindings that the reader compares with.
pub record Library (L : Type 0) : Type 0 where
  pub start : L → Result (Unit {0}) Status × L
  pub set_io_mode : L → Result (Unit {0}) Status × L
  pub get_parameters : L → Result SysParameters Status × L
  pub read : SaneRead L
  pub cancel : L → L
  pub sys_false : ℕ
  pub unsupported : ℕ

pub record ScanReader (L : Type 0) : Type 0 where
  pub device : L
  pub done : Bool

-- The calls that a client can make.
pub data Call : Type 0 where
  next : Call
  read : FrameParameters → ℕ → Call
  stop : Call

module _ {L : Type 0} (lib : Library L) where
  unfoldable pub is_unsupported : Status → Bool
  is_unsupported eof = false
  is_unsupported cancelled = false
  is_unsupported (other s) = s == lib.unsupported

  -- The three calls of `next_frame`, from the last to the first.
  unfoldable pub report : L → Result FrameParameters Status × L
  unfolding from_sys
  report l = elim ((lib.get_parameters l).0) [
    | ok v ↦ (ok (from_sys lib.sys_false v), (lib.get_parameters l).1)
    | err s ↦ (err s, (lib.get_parameters l).1)
  ]

  unfoldable pub set_blocking : L → Result FrameParameters Status × L
  unfolding report is_unsupported
  set_blocking l = elim ((lib.set_io_mode l).0) [
    | ok u ↦ report ((lib.set_io_mode l).1)
    | err s ↦
        if not (is_unsupported s)
        then (err s, (lib.set_io_mode l).1)
        else report ((lib.set_io_mode l).1)
  ]

  unfoldable pub start_frame : L → Result FrameParameters Status × L
  unfolding set_blocking
  start_frame l = elim ((lib.start l).0) [
    | ok u ↦ set_blocking ((lib.start l).1)
    | err s ↦ (err s, (lib.start l).1)
  ]

  some_frame : Result FrameParameters Status → Result (Option FrameParameters) Status
  some_frame (ok p) = ok (some p)
  some_frame (err s) = err s

  -- `ScanReader::next_frame`; a frame reader is given by its parameters.
  unfoldable pub next_frame : ScanReader L → Result (Option FrameParameters) Status × ScanReader L
  unfolding start_frame some_frame
  next_frame s =
      if s.done
      then (ok none, s)
      else (some_frame ((start_frame s.device).0), record s { device = (start_frame s.device).1 })

  -- Whether an error of a read ends the scan: the guard stands behind both codes.
  unfoldable pub ends_scan : Bool → Result (List ℕ) Status → Bool
  ends_scan last_frame (ok bytes) = false
  ends_scan last_frame (err eof) = last_frame
  ends_scan last_frame (err cancelled) = last_frame
  ends_scan last_frame (err (other s)) = false

  -- `FrameReader::read_frame` into a buffer of `n` bytes, of which the library is told at most
  -- `sys::Int::MAX`.
  unfoldable pub read_frame :
      FrameParameters → ℕ → ScanReader L → Result (List ℕ) Status × ScanReader L
  unfolding ends_scan
  read_frame p n s =
      let r = lib.read s.device (min n int_max) in
      (r.0, record { device = r.1; done = s.done || ends_scan p.last_frame r.0 })

  unfoldable pub cancel : ScanReader L → ScanReader L
  cancel s = record { device = lib.cancel s.device; done = true }

  -- The results of the calls of `next_frame` among them.
  unfoldable pub frames : ScanReader L → List Call → List (Result (Option FrameParameters) Status)
  unfolding next_frame read_frame cancel
  frames s [] = []
  frames s (next ∷ calls) = (next_frame s).0 ∷ frames ((next_frame s).1) calls
  frames s (read p n ∷ calls) = frames ((read_frame p n s).1) calls
  frames s (stop ∷ calls) = frames (cancel s) calls

  pub next_frame-done : (s : ScanReader L) → s.done ≡ true → next_frame s ≡ (ok none, s)
  unfolding next_frame
  next_frame-done s h = rw h

  or_true : (a b : Bool) → a ≡ true → (a || b) ≡ true
  or_true true b h = refl
  or_true false b h = absurd (grind (arith, h))

  frames-done :
      (calls : List Call) (s : ScanReader L)
      → s.done ≡ true
      → All (λ r. r ≡ ok none) (frames s calls)
  unfolding frames read_frame cancel
  frames-done [] s h = tt
  frames-done (next ∷ calls) s h = rw (next_frame-done s h) (refl, frames-done calls s h)
  frames-done (read p n ∷ calls) s h = frames-done calls _ (or_true s.done _ h)
  frames-done (stop ∷ calls) s h = frames-done calls _ refl

  -- The calls that end a scan: `cancel`, and a read of the last frame at which the library says that
  -- there is no more.
  abbrev pub Ends : ScanReader L → Call → Type 0
  Ends s next = ⊥
  Ends s (read p n) = (p.last_frame ≡ true) × ((lib.read s.device (min n int_max)).0 ≡ err eof)
  Ends s stop = Unit

  Ends-done :
      (s : ScanReader L) (p : FrameParameters) (n : ℕ)
      → Ends s (read p n)
      → ((read_frame p n s).1).done ≡ true
  unfolding read_frame
  Ends-done s p n (last, over) = rw (over, last) (true_right s.done)
    where
      true_right : (a : Bool) → (a || true) ≡ true
      true_right true = refl
      true_right false = refl

  -- After a call that ends a scan, every call of `next_frame` returns `Ok(None)`, whatever calls of
  -- the reader are made before and between.
  pub frames-Ends :
      (s : ScanReader L) (call : Call) (calls : List Call)
      → Ends s call
      → All (λ r. r ≡ ok none) (frames s (call ∷ calls))
  unfolding frames cancel
  frames-Ends s next calls h = absurd h
  frames-Ends s (read p n) calls h = frames-done calls _ (Ends-done s p n h)
  frames-Ends s stop calls h = frames-done calls _ refl
