-- ===== src/Decoder/Tests.antt =====
-- Small frames through the decoder, and the theorems about it at such frames.
use libsane_rs.Common.{
  ℕ, ◌+◌, ◌-◌, ◌*◌, ◌/◌, ◌%◌, ◌<◌, ◌≤◌, ◌≡◌, refl, arith, true, false, none, some, List, [], ◌∷◌,
  ret, panic, ◌⊎◌, inl, inr, ◌>>=◌, map, length, get_elem?,
}
use mathlib.Core.Option
use libsane_rs.Common.Vec.{Env}
use libsane_rs.Sys.{Frame}
use libsane_rs.Parameters.{FrameParameters}
use libsane_rs.Decoder.Types.{
  FrameDecoder, builder, with_buffer, build, initial, gray, rgb, black_and_white, Channel, red,
  green, blue, channel_index,
}
use libsane_rs.Decoder.Loops.{write_channel}
use libsane_rs.Common.Safe.{Safe}
use libsane_rs.Decoder.Write.{write}
use libsane_rs.Decoder.Sound.{IsSound}
use libsane_rs.Common.Returns.{Returns}
use libsane_rs.Decoder.States.{Follows, write-Follows, remaining}
use libsane_rs.Decoder.Calls.{write_all, successes, write_all-build, write_all-remaining}
use libsane_rs.Decoder.SoundSteps.{green-red}
use libsane_rs.Decoder.Faults.{write-band_behind}
use libsane_rs.Decoder.Rows.{Fits}
use libsane_rs.Decoder.Image.{Completes, line_byte}
use libsane_rs.Decoder.Unpack.{black}
use libsane_rs.Decoder.Whole.{write-gray, write-rgb}
use libsane_rs.Decoder.Bilevel.{write-packed, write-as_bytes}
use libsane_rs.Decoder.Assembly.{write_channel-three}

abbrev release : Env
release = record { overflow_checks = false; slack = 3 }

-- A decoder whose buffer holds one byte already.
abbrev fresh : FrameDecoder
fresh = record {
  buffer = record { bytes = 7 ∷ []; spare = none ∷ [] };
  state = initial;
  width = 0;
  height = 0;
  black_and_white_as_bytes = false;
}

abbrev byte_fresh : FrameDecoder
byte_fresh = record fresh { black_and_white_as_bytes = true }

-- Two lines of two grayscale pixels and a byte of padding.
abbrev gray_frame : List ℕ
gray_frame = 10 ∷ 11 ∷ 0 ∷ 20 ∷ 21 ∷ 0 ∷ []

abbrev gray_params : FrameParameters
gray_params = record {
  format = Frame.gray;
  last_frame = true;
  bytes_per_line = 3;
  pixels_per_line = 2;
  lines = some 2;
  depth = 8;
}

gray_params-Fits : Fits gray_frame gray_params 2 2
gray_params-Fits = record {
  lined = record { size = refl; line = omega arith; row_fits = omega arith };
  small = omega arith;
  line32 = omega arith;
  wide = omega arith;
  deep = omega arith;
  depth32 = omega arith;
  agreed = refl;
}

write-gray_example :
    Completes release fresh gray_frame gray_params 2 2 (gray 1) (line_byte gray_frame gray_params)
write-gray_example = write-gray release fresh refl refl refl gray_params-Fits (omega arith)

-- One line of one rgb pixel.
abbrev rgb_frame : List ℕ
rgb_frame = 1 ∷ 2 ∷ 3 ∷ []

abbrev rgb_params : FrameParameters
rgb_params = record gray_params { format = Frame.rgb; pixels_per_line = 1; lines = none }

rgb_params-Fits : Fits rgb_frame rgb_params 3 1
rgb_params-Fits = record {
  lined = record { size = refl; line = omega arith; row_fits = omega arith };
  small = omega arith;
  line32 = omega arith;
  wide = omega arith;
  deep = omega arith;
  depth32 = omega arith;
  agreed = refl;
}

write-rgb_example :
    Completes release fresh rgb_frame rgb_params 3 1 (rgb 1) (line_byte rgb_frame rgb_params)
write-rgb_example = write-rgb release fresh refl refl refl rgb_params-Fits (omega arith)

-- Two lines of eight black and white pixels and a byte of padding.
abbrev bilevel_frame : List ℕ
bilevel_frame = 0xa0 ∷ 0 ∷ 0x0f ∷ 0 ∷ []

abbrev bilevel_params : FrameParameters
bilevel_params = record gray_params { bytes_per_line = 2; pixels_per_line = 8; depth = 1 }

bilevel_params-Fits : Fits bilevel_frame bilevel_params 1 2
bilevel_params-Fits = record {
  lined = record { size = refl; line = omega arith; row_fits = omega arith };
  small = omega arith;
  line32 = omega arith;
  wide = omega arith;
  deep = omega arith;
  depth32 = omega arith;
  agreed = refl;
}

write-packed_example :
    Completes release fresh bilevel_frame bilevel_params 1 2 black_and_white
      (λ y x. Option.map (λ b. 255 - b) (line_byte bilevel_frame bilevel_params y x))
write-packed_example =
    write-packed release fresh refl (refl, refl) refl bilevel_params-Fits refl (omega arith)

write-as_bytes_example :
    Completes release byte_fresh bilevel_frame bilevel_params 8 2 black_and_white (λ y x.
      Option.map (λ b. 1 - black b (x % 8)) (line_byte bilevel_frame bilevel_params y (x / 8)))
write-as_bytes_example =
    write-as_bytes release byte_fresh refl (refl, refl) refl bilevel_params-Fits refl (omega arith)
      (omega arith)

abbrev band_frames : Channel → List ℕ
band_frames red = 1 ∷ 2 ∷ []
band_frames green = 3 ∷ 4 ∷ []
band_frames blue = 5 ∷ 6 ∷ []

abbrev band_params : Channel → FrameParameters
band_params c = record gray_params { bytes_per_line = 2; lines = some 1 }

band_params-Fits : (c : Channel) → Fits (band_frames c) (band_params c) (2 * 1) 1
band_params-Fits c = record {
  lined = record { size = two c; line = omega arith; row_fits = omega arith };
  small = omega (arith, two c);
  line32 = omega arith;
  wide = omega arith;
  deep = omega arith;
  depth32 = omega arith;
  agreed = refl;
}
  where
    two : (d : Channel) → length (band_frames d) ≡ 2
    two red = refl
    two green = refl
    two blue = refl

any_order : (k : Channel) → (blue ≡ k) ⊎ ((red ≡ k) ⊎ (green ≡ k))
any_order red = inr (inl refl)
any_order green = inr (inr refl)
any_order blue = inl refl

write_channel-three_example :
    (image : List ℕ) × ((write_channel release
          (band_frames blue)
          2
          2
          1
          (channel_index blue * 1)
          (none ∷ none ∷ none ∷ none ∷ none ∷ none ∷ [])
        >>= λ dst1.
            write_channel release (band_frames red) 2 2 1 (channel_index red * 1) dst1
            >>= write_channel release (band_frames green) 2 2 1 (channel_index green * 1))
      ≡ ret (map some image))
    × (length image ≡ 6)
    × ((y i : ℕ) (c : Channel) (k : ℕ)
        → y < 1
        → i < 2
        → k < 1
        → get_elem? image ((y * 2 + i) * 3 + (channel_index c * 1 + k))
          ≡ get_elem? (band_frames c) (y * 2 + (i * 1 + k)))
write_channel-three_example =
    write_channel-three 2 1 1 (omega arith) (omega arith) band_frames band_params band_params-Fits
      release blue red green (none ∷ none ∷ none ∷ none ∷ none ∷ none ∷ []) any_order refl

-- A build that checks arithmetic.
abbrev debug : Env
debug = record { overflow_checks = true; slack = 0 }

abbrev two_calls : List (List ℕ × FrameParameters)
two_calls = (rgb_frame, rgb_params) ∷ (gray_frame, gray_params) ∷ []

write_all-build_example :
    Safe (λ r. IsSound r.1) (write_all debug (build (with_buffer builder fresh.buffer)) two_calls)
write_all-build_example = write_all-build debug (with_buffer builder fresh.buffer) two_calls refl

write_all-remaining_example :
    Returns (λ r. successes r.0 + remaining r.1.state ≤ 3) (write_all release fresh two_calls)
write_all-remaining_example = write_all-remaining release fresh two_calls

write-Follows_example : Returns (Follows fresh initial) (write release fresh gray_frame gray_params)
write-Follows_example = write-Follows release fresh gray_frame gray_params

-- A green band of two pixels.
abbrev green_params : FrameParameters
green_params = record gray_params { format = Frame.green; bytes_per_line = 2; lines = some 1 }

green_params-Fits : Fits (3 ∷ 4 ∷ []) green_params 2 1
green_params-Fits = record {
  lined = record { size = refl; line = omega arith; row_fits = omega arith };
  small = omega arith;
  line32 = omega arith;
  wide = omega arith;
  deep = omega arith;
  depth32 = omega arith;
  agreed = refl;
}

write-band_behind_example : write release fresh (3 ∷ 4 ∷ []) green_params ≡ panic
write-band_behind_example =
    write-band_behind release fresh green green-red refl green_params-Fits (omega arith) refl tt tt
