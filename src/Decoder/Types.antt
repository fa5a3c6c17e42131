-- ===== src/Decoder/Types.antt =====
-- The types of the frame decoder, libsane/src/device/scan/frame_decoder.rs, its builder, and the
-- operations that do not decode.
use libsane_rs.Common.{
  ℕ, Bool, true, false, not, ◌==◌, Option, none, some, List, [], Result, ok, err,
}
use libsane_rs.Common.Vec.{Vec}

pub data DecodedImageFormat : Type 0 where
  black_and_white : DecodedImageFormat
  gray : ℕ → DecodedImageFormat
  rgb : ℕ → DecodedImageFormat

pub data FrameDecoderState : Type 0 where
  initial : FrameDecoderState
  done : DecodedImageFormat → FrameDecoderState
  rgb_parts : ℕ → Bool → Bool → Bool → FrameDecoderState

pub data FrameDecodeError : Type 0 where
  already_done duplicate_channel unexpected_parameters : FrameDecodeError
  unsupported_parameters invalid_parameters : FrameDecodeError

pub record FrameDecoder : Type 0 where
  pub buffer : Vec
  pub state : FrameDecoderState
  pub width : ℕ
  pub height : ℕ
  pub black_and_white_as_bytes : Bool

pub record DecodedImage : Type 0 where
  pub bytes : List ℕ
  pub format : DecodedImageFormat
  pub width : ℕ
  pub height : ℕ

pub record Builder : Type 0 where
  pub buffer : Vec
  pub black_and_white_as_bytes : Bool

abbrev pub empty_vec : Vec
empty_vec = record { bytes = []; spare = [] }

unfoldable pub builder : Builder
builder = record { buffer = empty_vec; black_and_white_as_bytes = false }

unfoldable pub with_buffer : Builder → Vec → Builder
with_buffer b v = record b { buffer = v }

unfoldable pub decode_black_and_white_as_bytes : Builder → Bool → Builder
decode_black_and_white_as_bytes b do_it = record b { black_and_white_as_bytes = do_it }

unfoldable pub build : Builder → FrameDecoder
build b = record {
  buffer = b.buffer;
  state = initial;
  width = 0;
  height = 0;
  black_and_white_as_bytes = b.black_and_white_as_bytes;
}

-- The derived `clone` copies the bytes of a vector and none of its spare capacity.
unfoldable pub clone : FrameDecoder → FrameDecoder
clone d = record d { buffer = record { bytes = d.buffer.bytes; spare = [] } }

unfoldable pub state_is_done : FrameDecoderState → Bool
state_is_done initial = false
state_is_done (done f) = true
state_is_done (rgb_parts b r g c) = false

unfoldable pub is_done : FrameDecoder → Bool
unfolding state_is_done
is_done d = state_is_done d.state

unfoldable pub image_of : FrameDecoder → FrameDecoderState → Result DecodedImage (List ℕ)
image_of d initial = err d.buffer.bytes
image_of d (rgb_parts b r g c) = err d.buffer.bytes
image_of d (done f) =
    ok (record { bytes = d.buffer.bytes; format = f; width = d.width; height = d.height })

unfoldable pub into_image : FrameDecoder → Result DecodedImage (List ℕ)
unfolding image_of
into_image d = image_of d d.state

-- What `write` hands back: its result, and the decoder it leaves behind.
abbrev pub Written : Type 0
Written = Result (Unit {0}) FrameDecodeError × FrameDecoder

abbrev pub lines_differ : Option ℕ → ℕ → Bool
lines_differ none h = false
lines_differ (some l) h = not (l == h)

-- The three bands of an image that comes in parts.
pub data Channel : Type 0 where
  red green blue : Channel

abbrev pub channel_index : Channel → ℕ
channel_index red = 0
channel_index green = 1
channel_index blue = 2
