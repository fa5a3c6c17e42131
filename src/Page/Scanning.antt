-- ===== src/Page/Scanning.antt =====
-- The scan in `main` of libsane/examples/scan_a_page.rs, from the open device to the file: the loop
-- over the frames, the decoder and `write_pam_image`. What is printed about a frame is left out.
use libsane_rs.Common.{
  ℕ, zero, suc, Bool, true, false, Option, none, some, List, Outcome, ret, panic, ◌>>=◌, Result, ok,
  err,
}
use libsane_rs.Common.Vec.{Env, Vec, clear}
use libsane_rs.Parameters.{FrameParameters}
use libsane_rs.Scan.Reader.{Status, End, finished, failed, out_of_fuel, read_full_frame}
use libsane_rs.Scan.Session.{Library, ScanReader, next_frame}
use libsane_rs.Decoder.Types.{
  FrameDecoder, DecodedImage, FrameDecodeError, builder, decode_black_and_white_as_bytes, build,
  empty_vec, into_image,
}
use libsane_rs.Decoder.Write.{write}
use libsane_rs.Page.Pam.{Files, write_pam_image}

-- How the loop ends: with no more frames, in an error that `?` returns, or not within the fuel.
pub data Scan : Type 0 where
  no_more : FrameDecoder → Scan
  stopped : Status → Scan
  unfinished : Scan

-- How the program ends: with the file written, with the error of the file, which is printed, or with
-- the error of the scan, which is returned.
pub data Ran (Error : Type 0) : Type 0 where
  saved : Ran Error
  not_saved : Error → Ran Error
  returned : Status → Ran Error
  ran_out : Ran Error

unfoldable pub decoder_of_main : FrameDecoder
unfolding builder build decode_black_and_white_as_bytes
decoder_of_main = build (decode_black_and_white_as_bytes builder true)

-- `expect("invalid data")`
expect_written : Result (Unit {0}) FrameDecodeError × FrameDecoder → Outcome FrameDecoder
expect_written (ok u, d) = ret d
expect_written (err x, d) = panic

module _ {L : Type 0} (lib : Library L) (e : Env) (debug : Bool) (reads : ℕ) where
  -- The rest of the loop, from a reader, a buffer and a decoder.
  abbrev pub Rest : Type 0
  Rest = ScanReader L → Vec → FrameDecoder → Outcome (Scan × ScanReader L)

  after_frame :
      Rest → FrameDecoder → FrameParameters → End × Vec × L × Bool → Outcome (Scan × ScanReader L)
  unfolding write expect_written
  after_frame next d p (finished, buf, l, done) =
      write e d buf.bytes p >>= expect_written >>= next (record { device = l; done = done }) buf
  after_frame next d p (failed x, buf, l, done) =
      ret (stopped x, record { device = l; done = done })
  after_frame next d p (out_of_fuel, buf, l, done) =
      ret (unfinished, record { device = l; done = done })

  after_next :
      Rest
      → Vec
      → FrameDecoder
      → Result (Option FrameParameters) Status × ScanReader L
      → Outcome (Scan × ScanReader L)
  unfolding clear read_full_frame after_frame
  after_next next buf d (err x, s) = ret (stopped x, s)
  after_next next buf d (ok none, s) = ret (no_more d, s)
  after_next next buf d (ok (some p), s) =
      read_full_frame lib.read e debug reads s.device p false s.done (clear buf)
      >>= after_frame next d p

  -- `while let Some(mut frame_reader) = reader.next_frame()?`
  unfoldable pub scan_loop : ℕ → Rest
  unfolding next_frame after_next
  scan_loop zero s buf d = ret (unfinished, s)
  scan_loop (suc frames) s buf d = after_next (scan_loop frames) buf d (next_frame lib s)

module _ {L F Error : Type 0} (lib : Library L) (files : Files F Error) (e : Env) (debug : Bool)
    (reads : ℕ) where
  -- The message about the file ends the program like the file does.
  after_file : ScanReader L → Result (Unit {0}) Error × F → Outcome (Ran Error × ScanReader L × F)
  after_file s (ok u, f) = ret (saved, s, f)
  after_file s (err x, f) = ret (not_saved x, s, f)

  save : F → ScanReader L → Result DecodedImage (List ℕ) → Outcome (Ran Error × ScanReader L × F)
  unfolding write_pam_image after_file
  save f s (err bytes) = panic
  save f s (ok image) = write_pam_image files e image f >>= after_file s

  after_scan : F → Scan × ScanReader L → Outcome (Ran Error × ScanReader L × F)
  unfolding into_image save
  after_scan f (no_more d, s) = save f s (into_image d)
  after_scan f (stopped x, s) = ret (returned x, s, f)
  after_scan f (unfinished, s) = ret (ran_out, s, f)

  unfoldable pub scan_to_file : ℕ → L → F → Outcome (Ran Error × ScanReader L × F)
  unfolding scan_loop after_scan decoder_of_main
  scan_to_file frames l f =
      scan_loop lib e debug reads frames (record { device = l; done = false }) empty_vec
        decoder_of_main
      >>= after_scan f
