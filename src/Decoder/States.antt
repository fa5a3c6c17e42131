-- ===== src/Decoder/States.antt =====
-- The states of a decoder, and how `FrameDecoder::write` moves it from one to the next.
use libsane_rs.Common.{
  ℕ, ◌+◌, ◌-◌, ◌/◌, ◌<◌, ◌≡◌, refl, arith, Bool, true, false, not, ◌&&◌, ◌||◌, List, Outcome,
  Result, ok, err, ◌==◌, if◌then◌else◌, bit_and,
}
use libsane_rs.Common.Iter.{Iter}
use libsane_rs.Common.Slice.{chunks_exact}
use libsane_rs.Common.Returns.{Returns, Returns->>=, Returns-if}
use libsane_rs.Common.Vec.{
  Env, MaybeUninit, mul_u32, mul_usize, reserve_exact, write_spare, set_len,
}
use libsane_rs.Sys.{Frame}
use libsane_rs.Parameters.{FrameParameters}
use libsane_rs.Decoder.Types.{
  FrameDecoder, FrameDecoderState, FrameDecodeError, initial, done, rgb_parts, DecodedImageFormat,
  rgb, Channel, red, green, blue, Written, channel_index,
}
use libsane_rs.Decoder.Loops.{copy, unpack_bytes}
use libsane_rs.Decoder.Branches.{
  copy_lines, write_bits, write_black_and_white, write_gray, write_rgb, write_first_part,
  write_next_part,
}
use libsane_rs.Decoder.Write.{write, check_frame, decode, decode_by}

-- The moves of a decoder: a whole frame, a first band, a band that leaves one open, a last band.
pub data Step : FrameDecoderState → FrameDecoderState → Type 0 where
  whole : (f : DecodedImageFormat) → Step initial (done f)
  first :
      (n : ℕ) (c : Channel)
      → Step initial
          (rgb_parts n (channel_index c == 0) (channel_index c == 1) (channel_index c == 2))
  red_next :
      (n : ℕ) (g b : Bool) → (g && b) ≡ false → Step (rgb_parts n false g b) (rgb_parts n true g b)
  green_next :
      (n : ℕ) (r b : Bool) → (r && b) ≡ false → Step (rgb_parts n r false b) (rgb_parts n r true b)
  blue_next :
      (n : ℕ) (r g : Bool) → (r && g) ≡ false → Step (rgb_parts n r g false) (rgb_parts n r g true)
  red_last : (n : ℕ) (g b : Bool) → (g && b) ≡ true → Step (rgb_parts n false g b) (done (rgb n))
  green_last : (n : ℕ) (r b : Bool) → (r && b) ≡ true → Step (rgb_parts n r false b) (done (rgb n))
  blue_last : (n : ℕ) (r g : Bool) → (r && g) ≡ true → Step (rgb_parts n r g false) (done (rgb n))

-- A result against the decoder that `write` was called on: an error leaves it as it was, and a
-- success moves its state and keeps the choice of the builder.
abbrev pub Follows : FrameDecoder → FrameDecoderState → Written → Type 0
Follows d s (err x, d2) = d2 ≡ d
Follows d s (ok u, d2) =
    Step s d2.state × (d2.black_and_white_as_bytes ≡ d.black_and_white_as_bytes)

module _ (e : Env) (d : FrameDecoder) (frame : List ℕ) (p : FrameParameters) (h : ℕ) where
  write_gray-Follows : Returns (Follows d initial) (write_gray e d frame p h)
  unfolding write_gray
  write_gray-Follows =
      Returns-if (Follows d initial) (not (bit_and p.depth 7 == 0)) _ _ (λ _. refl)
        λ _.
          Returns->>= (Follows d initial) (copy_lines e d.buffer frame p h (p.depth / 8)) _
            (λ v. (whole _, refl))

  write_rgb-Follows : Returns (Follows d initial) (write_rgb e d frame p h)
  unfolding write_rgb
  write_rgb-Follows =
      Returns-if (Follows d initial) (not (bit_and p.depth 7 == 0)) _ _ (λ _. refl)
        λ _. Returns->>= (Follows d initial) (mul_u32 e (p.depth / 8) 3) _ λ bpp.
          Returns->>= (Follows d initial) (copy_lines e d.buffer frame p h bpp) _
            (λ v. (whole _, refl))

  write_bits-Follows :
      (n : ℕ) (loop : Iter ℕ → List MaybeUninit → Outcome (List MaybeUninit))
      → Returns (Follows d initial) (write_bits e d frame p h n loop)
  unfolding write_bits
  write_bits-Follows n loop = Returns->>= (Follows d initial) (reserve_exact e n d.buffer) _ λ w.
      Returns->>= (Follows d initial) (chunks_exact p.bytes_per_line frame) _ λ lines.
        Returns->>= (Follows d initial) (write_spare n _ w) _
          λ v. Returns->>= (Follows d initial) (set_len n v) _ (λ _. (whole _, refl))

  write_black_and_white-Follows : Returns (Follows d initial) (write_black_and_white e d frame p h)
  unfolding write_black_and_white
  write_black_and_white-Follows =
      Returns-if (Follows d initial) (not (bit_and p.pixels_per_line 7 == 0)) _ _ (λ _. refl)
        λ _. Returns->>= (Follows d initial) (mul_usize e p.pixels_per_line h) _ λ n.
          Returns-if (Follows d initial) d.black_and_white_as_bytes _ _
            (λ _. write_bits-Follows n (unpack_bytes 0))
            (λ _. write_bits-Follows (n / 8) (copy (λ b. 255 - b)))

  write_first_part-Follows :
      (c : Channel) → Returns (Follows d initial) (write_first_part e d frame p h c)
  unfolding write_first_part
  write_first_part-Follows c =
      Returns-if (Follows d initial) (not (bit_and p.depth 7 == 0)) _ _ (λ _. refl)
        λ _. Returns->>= (Follows d initial) (mul_u32 e (p.depth / 8) 3) _ λ bpp.
          Returns->>= (Follows d initial) (mul_usize e bpp (channel_index c)) _ λ offset.
            Returns->>= (Follows d initial) (mul_usize e p.pixels_per_line h) _ λ pixels.
              Returns->>= (Follows d initial) (mul_usize e pixels bpp) _ λ n.
                Returns->>= (Follows d initial) (reserve_exact e n d.buffer) _ λ w.
                  Returns->>= (Follows d initial) (write_spare n _ w) _ (λ v. (first _ c, refl))

  write_next_part-Follows :
      (s : FrameDecoderState) (c : Channel) (n : ℕ) (has other1 other2 : Bool)
      (marked : FrameDecoderState)
      → (has ≡ false → (other1 && other2) ≡ false → Step s marked)
      → (has ≡ false → (other1 && other2) ≡ true → Step s (done (rgb n)))
      → Returns (Follows d s) (write_next_part e d frame p h c n has other1 other2 marked)
  unfolding write_next_part
  write_next_part-Follows s c n has other1 other2 marked waits ends =
      Returns-if (Follows d s) has _ _ (λ _. refl)
        λ no.
          Returns-if (Follows d s) (not (p.pixels_per_line == d.width) || not (h == d.height)) _ _
            (λ _. refl)
            λ _.
              Returns-if (Follows d s) (not (bit_and p.depth 7 == 0) || not (p.depth / 8 == n)) _ _
                (λ _. refl)
                λ _. Returns->>= (Follows d s) (mul_usize e n 3) _ λ bpp.
                  Returns->>= (Follows d s) (mul_usize e bpp (channel_index c)) _ λ offset.
                    Returns->>= (Follows d s) (mul_usize e p.pixels_per_line h) _ λ pixels.
                      Returns->>= (Follows d s) (mul_usize e pixels bpp) _ λ len.
                        Returns->>= (Follows d s) (write_spare len _ d.buffer) _ λ v.
                          Returns-if (Follows d s) (other1 && other2) _ _
                            (λ both.
                              Returns->>= (Follows d s) (set_len len v) _
                                (λ _. (ends no both, refl)))
                            (λ not_both. (waits no not_both, refl))

  decode_by-Follows :
      (s : FrameDecoderState) (format : Frame)
      → Returns (Follows d s) (decode_by e d frame p h s format)
  unfolding decode_by
  decode_by-Follows initial Frame.gray =
      Returns-if (Follows d initial) (p.depth == 1) _ _ (λ _. write_black_and_white-Follows)
        (λ _. write_gray-Follows)
  decode_by-Follows initial Frame.rgb = write_rgb-Follows
  decode_by-Follows initial Frame.red = write_first_part-Follows red
  decode_by-Follows initial Frame.green = write_first_part-Follows green
  decode_by-Follows initial Frame.blue = write_first_part-Follows blue
  decode_by-Follows (rgb_parts n r g b) Frame.red =
      write_next_part-Follows (rgb_parts n r g b) red n r g b (rgb_parts n true g b)
        (λ no k. rw no (red_next n g b k)) (λ no k. rw no (red_last n g b k))
  decode_by-Follows (rgb_parts n r g b) Frame.green =
      write_next_part-Follows (rgb_parts n r g b) green n g r b (rgb_parts n r true b)
        (λ no k. rw no (green_next n r b k)) (λ no k. rw no (green_last n r b k))
  decode_by-Follows (rgb_parts n r g b) Frame.blue =
      write_next_part-Follows (rgb_parts n r g b) blue n b r g (rgb_parts n r g true)
        (λ no k. rw no (blue_next n r g k)) (λ no k. rw no (blue_last n r g k))
  decode_by-Follows initial (Frame.other k) = refl
  decode_by-Follows (rgb_parts n r g b) Frame.gray = refl
  decode_by-Follows (rgb_parts n r g b) Frame.rgb = refl
  decode_by-Follows (rgb_parts n r g b) (Frame.other k) = refl
  decode_by-Follows (done f) Frame.gray = refl
  decode_by-Follows (done f) Frame.rgb = refl
  decode_by-Follows (done f) Frame.red = refl
  decode_by-Follows (done f) Frame.green = refl
  decode_by-Follows (done f) Frame.blue = refl
  decode_by-Follows (done f) (Frame.other k) = refl

-- In every build and for all arguments: where `write` returns an error, the decoder is as it was;
-- where it returns without one, its state has made one `Step`, and the builder's choice of the
-- form of black and white images is kept.
pub write-Follows :
    (e : Env) (d : FrameDecoder) (frame : List ℕ) (p : FrameParameters)
    → Returns (Follows d d.state) (write e d frame p)
unfolding write decode
write-Follows e d frame p = Returns->>= (Follows d d.state) (check_frame d frame p) _ decoded
  where
    decoded : (r : Result ℕ FrameDecodeError) → Returns (Follows d d.state) (decode e d frame p r)
    decoded (err x) = refl
    decoded (ok h) = decode_by-Follows e d frame p h d.state p.format

-- The most calls that can still succeed.
abbrev pub remaining : FrameDecoderState → ℕ
remaining initial = 3
remaining (done f) = 0
remaining (rgb_parts n r g b) = (if r then 0 else 1) + (if g then 0 else 1) + (if b then 0 else 1)

pub Step-remaining : (s t : FrameDecoderState) → Step s t → remaining t < remaining s
Step-remaining s t (whole f) = omega arith
Step-remaining s t (first n red) = omega arith
Step-remaining s t (first n green) = omega arith
Step-remaining s t (first n blue) = omega arith
Step-remaining s t (red_next n g b k) = omega arith
Step-remaining s t (green_next n r b k) = omega arith
Step-remaining s t (blue_next n r g k) = omega arith
Step-remaining s t (red_last n g b k) = omega arith
Step-remaining s t (green_last n r b k) = omega arith
Step-remaining s t (blue_last n r g k) = omega arith
