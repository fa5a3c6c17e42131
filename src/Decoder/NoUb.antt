-- ===== src/Decoder/NoUb.antt =====
-- Undefined behaviour in `FrameDecoder::write` as a whole,
-- libsane/src/device/scan/frame_decoder.rs, in a build that checks arithmetic.
use native.Mathlib.Nat.{div-add-mod}
use libsane_rs.Common.{
  ℕ, ◌*◌, ◌/◌, ◌%◌, ◌^◌, ◌<◌, ◌≡◌, refl, sym, arith, Bool, true, false, not, List, length, Result,
  ok, err, ◌==◌, ltb, ==_iff,
}
use libsane_rs.Common.Safe.{Safe, Safe->>=, Safe-if}
use libsane_rs.Common.Vec.{Env}
use libsane_rs.Sys.{Frame}
use libsane_rs.Parameters.{FrameParameters}
use libsane_rs.Decoder.Types.{
  FrameDecoder, FrameDecoderState, FrameDecodeError, initial, done, rgb_parts, red, green, blue,
  is_done, lines_differ,
}
use libsane_rs.Decoder.Write.{write, check_frame, decode, decode_by}
use libsane_rs.Decoder.Safety.{positive}
use libsane_rs.Decoder.Sound.{
  SoundState, IsSound, Keeps, write_gray-Safe, write_rgb-Safe, write_black_and_white-Safe,
}
use libsane_rs.Decoder.SoundSteps.{beside, behind, green-red, blue-red}
use libsane_rs.Decoder.SoundParts.{write_first_part-Safe, write_next_part-Safe}

-- What the checks leave of a frame.
abbrev Checked : List ℕ → FrameParameters → Result ℕ FrameDecodeError → Type 0
Checked frame p (err x) = Unit
Checked frame p (ok h) =
    (length frame ≡ h * p.bytes_per_line) × (0 < p.bytes_per_line) × (0 < p.depth)

divided : (a b : ℕ) → 0 < b → a % b ≡ 0 → a ≡ a / b * b
divided a b pos e = omega (arith, div-add-mod a b)

check_frame-Safe :
    (d : FrameDecoder) (frame : List ℕ) (p : FrameParameters)
    → Safe (Checked frame p) (check_frame d frame p)
unfolding check_frame
check_frame-Safe d frame p =
    Safe-if (Checked frame p) (is_done d) _ _ (λ _. tt)
      λ _.
        Safe-if (Checked frame p) (p.depth == 0) _ _ (λ _. tt)
          λ deep.
            Safe-if (Checked frame p) (not (ltb (length frame) (2 ^ 32))) _ _ (λ _. tt)
              λ _.
                Safe-if (Checked frame p) (p.bytes_per_line == 0) _ _ (λ _. tt)
                  λ line.
                    Safe-if (Checked frame p) (not (length frame % p.bytes_per_line == 0)) _ _
                      (λ _. tt)
                      λ even.
                        Safe-if (Checked frame p)
                          (lines_differ p.lines (length frame / p.bytes_per_line)) _ _ (λ _. tt)
                          λ _. (
                            divided (length frame) p.bytes_per_line (positive _ line)
                                ((==_iff _ 0).0 (not_false _ even)),
                            positive _ line,
                            positive _ deep,
                          )
  where
    not_false : (b : Bool) → not b ≡ false → b ≡ true
    not_false true e = refl
    not_false false e = sym e

module _ (e : Env) (checks : e.overflow_checks ≡ true) where
  -- The match on the state and the format.
  decode_by-Safe :
      (d : FrameDecoder) (frame : List ℕ) (p : FrameParameters) (h : ℕ) (s : FrameDecoderState)
      (format : Frame)
      → IsSound d
      → SoundState s d.width d.height
      → length frame ≡ h * p.bytes_per_line
      → 0 < p.bytes_per_line
      → 0 < p.depth
      → Safe Keeps (decode_by e d frame p h s format)
  unfolding decode_by
  decode_by-Safe d frame p h initial Frame.gray sound known size line deep =
      Safe-if Keeps (p.depth == 1) _ _
        (λ _. write_black_and_white-Safe e checks d sound frame p h size line)
        (λ _. write_gray-Safe e checks d sound frame p h size line)
  decode_by-Safe d frame p h initial Frame.rgb sound known size line deep =
      write_rgb-Safe e checks d sound frame p h size line
  decode_by-Safe d frame p h initial Frame.red sound known size line deep =
      write_first_part-Safe e checks d sound frame p h size line red deep
  decode_by-Safe d frame p h initial Frame.green sound known size line deep =
      write_first_part-Safe e checks d sound frame p h size line green deep
  decode_by-Safe d frame p h initial Frame.blue sound known size line deep =
      write_first_part-Safe e checks d sound frame p h size line blue deep
  decode_by-Safe d frame p h (rgb_parts n r g b) Frame.red sound known size line deep =
      write_next_part-Safe e checks d sound frame p h size line red n r g b (rgb_parts n true g b)
        known.0 (beside d n g b known.0 known.1)
  decode_by-Safe d frame p h (rgb_parts n r g b) Frame.green sound known size line deep =
      write_next_part-Safe e checks d sound frame p h size line green n g r b (rgb_parts n r true b)
        known.0 (behind d n green r b r true b known.0 green-red)
  decode_by-Safe d frame p h (rgb_parts n r g b) Frame.blue sound known size line deep =
      write_next_part-Safe e checks d sound frame p h size line blue n b r g (rgb_parts n r g true)
        known.0 (behind d n blue r g r g true known.0 blue-red)
  decode_by-Safe d frame p h initial (Frame.other k) sound known size line deep = sound
  decode_by-Safe d frame p h (rgb_parts n r g b) Frame.gray sound known size line deep = sound
  decode_by-Safe d frame p h (rgb_parts n r g b) Frame.rgb sound known size line deep = sound
  decode_by-Safe d frame p h (rgb_parts n r g b) (Frame.other k) sound known size line deep = sound
  decode_by-Safe d frame p h (done f) Frame.gray sound known size line deep = sound
  decode_by-Safe d frame p h (done f) Frame.rgb sound known size line deep = sound
  decode_by-Safe d frame p h (done f) Frame.red sound known size line deep = sound
  decode_by-Safe d frame p h (done f) Frame.green sound known size line deep = sound
  decode_by-Safe d frame p h (done f) Frame.blue sound known size line deep = sound
  decode_by-Safe d frame p h (done f) (Frame.other k) sound known size line deep = sound

  -- In a build that checks arithmetic, a call of `write` on a decoder that is sound (fresh, done, or
  -- waiting for bands with none of green and blue received, unless the image has no pixel) returns or
  -- panics, for every frame and all parameters: no `unsafe` block of it takes over a byte that is not
  -- initialised. The decoder that it leaves is sound.
  pub write-IsSound :
      (d : FrameDecoder) (frame : List ℕ) (p : FrameParameters)
      → IsSound d
      → Safe Keeps (write e d frame p)
  unfolding write decode
  write-IsSound d frame p sound =
      Safe->>= (Checked frame p) Keeps (check_frame d frame p) _ (check_frame-Safe d frame p) known
    where
      known :
          (r : Result ℕ FrameDecodeError) → Checked frame p r → Safe Keeps (decode e d frame p r)
      known (err x) k = sound
      known (ok h) (size, line, deep) =
          decode_by-Safe d frame p h d.state p.format sound sound size line deep
