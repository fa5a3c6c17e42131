-- ===== src/Decoder/Branches.antt =====
-- The branches of `FrameDecoder::write`, libsane/src/device/scan/frame_decoder.rs: a black and
-- white, grayscale or rgb frame, and the first and the later parts of an image in three bands.
use libsane_rs.Common.{
  ℕ, ◌-◌, ◌/◌, Bool, not, ◌&&◌, ◌||◌, List, ◌==◌, if◌then◌else◌, bit_and, Outcome, ret, ◌>>=◌, ok,
  err,
}
use libsane_rs.Common.Iter.{Iter, flat_map}
use libsane_rs.Common.Slice.{slice_to, chunks_exact}
use libsane_rs.Common.Vec.{
  Env, Vec, MaybeUninit, mul_u32, mul_usize, reserve_exact, write_spare, set_len,
}
use libsane_rs.Parameters.{FrameParameters}
use libsane_rs.Decoder.Types.{
  FrameDecoder, Written, Channel, channel_index, FrameDecoderState, done, rgb_parts,
  black_and_white, gray, rgb, duplicate_channel, unexpected_parameters, unsupported_parameters,
}
use libsane_rs.Decoder.Loops.{copy, unpack_bytes, write_channel}

-- The body of the grayscale and the rgb branch, which differ in the bytes of a pixel.
unfoldable pub copy_lines : Env → Vec → List ℕ → FrameParameters → ℕ → ℕ → Outcome Vec
unfolding copy
copy_lines e v frame p f_height bytes_per_pixel = do
  lines ← chunks_exact p.bytes_per_line frame
  let bytes =
      flat_map (λ line. mul_usize e p.pixels_per_line bytes_per_pixel >>= λ n. slice_to n line)
        lines
  pixels ← mul_usize e p.pixels_per_line f_height
  dst_len ← mul_usize e pixels bytes_per_pixel
  reserved ← reserve_exact e dst_len v
  written ← write_spare dst_len (copy (λ b. b) bytes) reserved
  set_len dst_len written

unfoldable pub write_gray : Env → FrameDecoder → List ℕ → FrameParameters → ℕ → Outcome Written
unfolding copy_lines
write_gray e d frame p f_height =
    if not (bit_and p.depth 7 == 0) then ret (err unsupported_parameters, d) else do
      v ← copy_lines e d.buffer frame p f_height (p.depth / 8)
      ret (
        ok tt,
        record d {
          buffer = v;
          width = p.pixels_per_line;
          height = f_height;
          state = done (gray (p.depth / 8));
        },
      )

unfoldable pub write_rgb : Env → FrameDecoder → List ℕ → FrameParameters → ℕ → Outcome Written
unfolding copy_lines
write_rgb e d frame p f_height =
    if not (bit_and p.depth 7 == 0) then ret (err unsupported_parameters, d) else do
      bytes_per_pixel ← mul_u32 e (p.depth / 8) 3
      v ← copy_lines e d.buffer frame p f_height bytes_per_pixel
      ret (
        ok tt,
        record d {
          buffer = v;
          width = p.pixels_per_line;
          height = f_height;
          state = done (rgb (p.depth / 8));
        },
      )

-- Both forms of a black and white frame, with the loop over its bytes as an argument.
unfoldable pub write_bits :
    Env
    → FrameDecoder
    → List ℕ
    → FrameParameters
    → ℕ
    → ℕ
    → (Iter ℕ → List MaybeUninit → Outcome (List MaybeUninit))
    → Outcome Written
write_bits e d frame p f_height dst_len loop = do
  reserved ← reserve_exact e dst_len d.buffer
  lines ← chunks_exact p.bytes_per_line frame
  let bytes = flat_map (λ line. slice_to (p.pixels_per_line / 8) line) lines
  written ← write_spare dst_len (loop bytes) reserved
  v ← set_len dst_len written
  ret (
    ok tt,
    record d {
      buffer = v;
      width = p.pixels_per_line;
      height = f_height;
      state = done black_and_white;
    },
  )

unfoldable pub write_black_and_white :
    Env → FrameDecoder → List ℕ → FrameParameters → ℕ → Outcome Written
unfolding write_bits unpack_bytes copy
write_black_and_white e d frame p f_height =
    if not (bit_and p.pixels_per_line 7 == 0) then ret (err unsupported_parameters, d) else do
      pixels ← mul_usize e p.pixels_per_line f_height
      if d.black_and_white_as_bytes
          then write_bits e d frame p f_height pixels (unpack_bytes 0)
          else write_bits e d frame p f_height (pixels / 8) (copy (λ b. 255 - b))

unfoldable pub write_first_part :
    Env → FrameDecoder → List ℕ → FrameParameters → ℕ → Channel → Outcome Written
unfolding write_channel
write_first_part e d frame p f_height channel =
    if not (bit_and p.depth 7 == 0) then ret (err unsupported_parameters, d) else do
      let bytes_per_channel = p.depth / 8
      bytes_per_pixel ← mul_u32 e bytes_per_channel 3
      offset ← mul_usize e bytes_per_pixel (channel_index channel)
      pixels ← mul_usize e p.pixels_per_line f_height
      dst_len ← mul_usize e pixels bytes_per_pixel
      reserved ← reserve_exact e dst_len d.buffer
      v ←
          write_spare dst_len
            (write_channel e frame p.bytes_per_line p.pixels_per_line bytes_per_channel offset)
            reserved
      ret (
        ok tt,
        record d {
          buffer = v;
          width = p.pixels_per_line;
          height = f_height;
          state =
              rgb_parts bytes_per_channel (channel_index channel == 0) (channel_index channel == 1)
                (channel_index channel == 2);
        },
      )

-- A further part. `has_chan` is the flag of its channel, `marked` the state with that flag set.
unfoldable pub write_next_part :
    Env
    → FrameDecoder
    → List ℕ
    → FrameParameters
    → ℕ
    → Channel
    → ℕ
    → Bool
    → Bool
    → Bool
    → FrameDecoderState
    → Outcome Written
unfolding write_channel
write_next_part e d frame p f_height channel bytes_per_channel has_chan other1 other2 marked =
    if has_chan
    then ret (err duplicate_channel, d)
    else if not (p.pixels_per_line == d.width) || not (f_height == d.height)
    then ret (err unexpected_parameters, d)
    else if not (bit_and p.depth 7 == 0) || not (p.depth / 8 == bytes_per_channel)
    then ret (err unexpected_parameters, d)
    else do
      bytes_per_pixel ← mul_usize e bytes_per_channel 3
      offset ← mul_usize e bytes_per_pixel (channel_index channel)
      pixels ← mul_usize e p.pixels_per_line f_height
      dst_len ← mul_usize e pixels bytes_per_pixel
      written ←
          write_spare dst_len
            (write_channel e frame p.bytes_per_line p.pixels_per_line bytes_per_channel offset)
            d.buffer
      if other1 && other2
          then (do
            v ← set_len dst_len written
            ret (ok tt, record d { buffer = v; state = done (rgb bytes_per_channel) }))
          else ret (ok tt, record d { buffer = written; state = marked })
