-- ===== src/Decoder/Faults.antt =====
-- The bands of `FrameDecoder::write` whose offset, `bytes_per_pixel * channel`, stands behind the
-- pixel that it is an offset into.
use libsane_rs.Common.{
  ℕ, zero, suc, ◌+◌, ◌*◌, ◌/◌, ◌%◌, ◌^◌, ◌<◌, ◌≡◌, ◌≢◌, inl, inr, refl, sym, ap, ◌∙◌, arith, Bool,
  true, false, List, length, take, drop, panic, leb, leb→le, Bool-cases, ==_refl, length-take, ◌==◌,
}
use libsane_rs.Common.Slice.{chunks, chunks_exact-ret}
use libsane_rs.Common.Vec.{Env, Vec, MaybeUninit, mul_at-ret, write_spare, reserve_exact-cases}
use libsane_rs.Sys.{Frame}
use libsane_rs.Parameters.{FrameParameters}
use libsane_rs.Decoder.Types.{
  FrameDecoder, FrameDecoderState, is_done, initial, done, rgb_parts, Channel, red, green, blue,
  channel_index,
}
use libsane_rs.Decoder.Loops.{write_channel}
use libsane_rs.Decoder.Branches.{write_first_part, write_next_part}
use libsane_rs.Decoder.Write.{write, decode_by}
use libsane_rs.Decoder.Rows.{
  Fits, write-decode_by, is_done-initial, is_done-rgb_parts, whole_bytes, chunks_exact-lines,
  area-lt, height-lt, mul-lt,
}
use libsane_rs.Decoder.Safety.{write_spare-panic, write_spare-short}
use libsane_rs.Decoder.SoundBands.{write_pixels_out}
use libsane_rs.Decoder.SoundSteps.{far, green-red, blue-red}

-- The format of a frame that holds a band.
abbrev pub format_of : Channel → Frame
format_of red = Frame.red
format_of green = Frame.green
format_of blue = Frame.blue

module _ (e : Env) {frame : List ℕ} {p : FrameParameters} {h : ℕ} (n : ℕ) (c : Channel)
    (pos : 0 < n) (n32 : n < 2 ^ 32) (other : c ≢ red) (f : Fits frame p (p.pixels_per_line * n) h)
    (some_pixels : 0 < p.pixels_per_line * h) where
  -- The call of `write_channel` panics at its first pixel.
  write_channel-behind :
      (k : ℕ) (dst : List MaybeUninit)
      → 0 < k
      → length dst ≡ k * (3 * n)
      → write_channel e frame p.bytes_per_line p.pixels_per_line n (n * 3 * channel_index c) dst
        ≡ panic
  unfolding write_channel chunks
  write_channel-behind zero dst k len = absurd (omega arith)
  write_channel-behind (suc k) dst some_left len =
      rw (chunks_exact-lines f.lined, mul_at-ret (2 ^ 64) e 3 n (omega arith))
        (rw (chunks_exact-ret (suc k) (3 * n) dst (omega arith) len) (
          rw (
            write_pixels_out (n * 3 * channel_index c) (n * 3 * channel_index c + n)
              (take (3 * n) dst) (chunks k (3 * n) (drop (3 * n) dst)) _
              (omega (arith, length-take (3 * n) dst, far n c other)))))

  band_behind :
      (v : Vec)
      → write_spare
          (p.pixels_per_line * h * (n * 3))
          (write_channel e frame p.bytes_per_line p.pixels_per_line n (n * 3 * channel_index c))
          v
        ≡ panic
  band_behind v = elim (Bool-cases (leb (p.pixels_per_line * h * (n * 3)) (length v.spare))) [
    | inl enough ↦ write_spare-panic (p.pixels_per_line * h * (n * 3)) v _ (leb→le _ _ enough) (
        write_channel-behind (p.pixels_per_line * h)
          (take (p.pixels_per_line * h * (n * 3)) v.spare) some_pixels
          (omega (arith, leb→le _ _ enough, length-take (p.pixels_per_line * h * (n * 3)) v.spare)))
    | inr short ↦ write_spare-short (p.pixels_per_line * h * (n * 3)) v _ short
  ]

  index_lt : (k : Channel) → channel_index k < 3
  index_lt red = omega arith
  index_lt green = omega arith
  index_lt blue = omega arith

  offset_lt : n * 3 * channel_index c < 2 ^ 64
  offset_lt = grind (arith, index_lt c, n32)

  size_lt : p.pixels_per_line * h * (n * 3) < 2 ^ 64
  size_lt = omega (arith, area-lt f)

  pub first_part-panic :
      (d : FrameDecoder)
      → p.depth / 8 ≡ n
      → p.depth % 8 ≡ 0
      → write_first_part e d frame p h c ≡ panic
  unfolding write_first_part
  first_part-panic d deep bytewise =
      rw (whole_bytes p.depth bytewise, deep, mul_at-ret (2 ^ 32) e n 3 (omega (arith, f.depth32)))
        (rw
          (
            mul_at-ret (2 ^ 64) e (n * 3) (channel_index c) offset_lt,
            mul_at-ret (2 ^ 64) e p.pixels_per_line h
                (mul-lt p.pixels_per_line h f.wide (height-lt f)),
            mul_at-ret (2 ^ 64) e (p.pixels_per_line * h) (n * 3) size_lt,
          )
          (elim (reserve_exact-cases e (p.pixels_per_line * h * (n * 3)) d.buffer) [
            | inl x ↦ rw x
            | inr (w, x) ↦ rw x (rw (band_behind w))
          ]))

  same_flags : (a b : ℕ) → a ≡ b → (a == b) ≡ true
  same_flags a b x = rw x (==_refl b)

  pub next_part-panic :
      (d : FrameDecoder) (other1 other2 : Bool) (marked : FrameDecoderState)
      → p.depth / 8 ≡ n
      → p.depth % 8 ≡ 0
      → p.pixels_per_line ≡ d.width
      → h ≡ d.height
      → write_next_part e d frame p h c n false other1 other2 marked ≡ panic
  unfolding write_next_part
  next_part-panic d other1 other2 marked deep bytewise wide high =
      rw
        (
          same_flags _ _ wide,
          same_flags _ _ high,
          whole_bytes p.depth bytewise,
          same_flags _ _ deep,
        )
        (rw
          (
            mul_at-ret (2 ^ 64) e n 3 (omega (arith, n32)),
            mul_at-ret (2 ^ 64) e (n * 3) (channel_index c) offset_lt,
            mul_at-ret (2 ^ 64) e p.pixels_per_line h
                (mul-lt p.pixels_per_line h f.wide (height-lt f)),
            mul_at-ret (2 ^ 64) e (p.pixels_per_line * h) (n * 3) size_lt,
          )
          (rw (band_behind d.buffer)))

-- A decoder that takes a band `c` of `w` times `h` pixels of `n` bytes each: a fresh one, or one
-- that waits for this band of such an image.
abbrev pub Takes : FrameDecoderState → Channel → ℕ → Type 0
Takes initial c n = Unit
Takes (done f) c n = ⊥
Takes (rgb_parts m r g b) red n = (m ≡ n) × (r ≡ false)
Takes (rgb_parts m r g b) green n = (m ≡ n) × (g ≡ false)
Takes (rgb_parts m r g b) blue n = (m ≡ n) × (b ≡ false)

abbrev pub SameSize : FrameDecoderState → FrameDecoder → ℕ → ℕ → Type 0
SameSize initial d w h = Unit
SameSize (done f) d w h = Unit
SameSize (rgb_parts m r g b) d w h = (w ≡ d.width) × (h ≡ d.height)

module _ (e : Env) (d : FrameDecoder) {frame : List ℕ} {p : FrameParameters} {h : ℕ} (c : Channel)
    (other : c ≢ red) (bytewise : p.depth % 8 ≡ 0)
    (f : Fits frame p (p.pixels_per_line * (p.depth / 8)) h)
    (some_pixels : 0 < p.pixels_per_line * h) where
  pos : 0 < p.depth / 8
  pos = omega (arith, f.deep)

  n32 : p.depth / 8 < 2 ^ 32
  n32 = omega (arith, f.depth32)

  by_state :
      (s : FrameDecoderState) (k : Channel)
      → k ≡ c
      → Takes s k (p.depth / 8)
      → SameSize s d p.pixels_per_line h
      → decode_by e d frame p h s (format_of k) ≡ panic
  unfolding decode_by
  by_state initial red x takes same = absurd (other (sym x))
  by_state initial green x takes same =
      first_part-panic e (p.depth / 8) green pos n32 green-red f some_pixels d refl bytewise
  by_state initial blue x takes same =
      first_part-panic e (p.depth / 8) blue pos n32 blue-red f some_pixels d refl bytewise
  by_state (done t) k x takes same = absurd takes
  by_state (rgb_parts m r g b) red x takes same = absurd (other (sym x))
  by_state (rgb_parts m r g b) green x (deep, missing) (wide, high) =
      rw (deep, missing)
        (next_part-panic e (p.depth / 8) green pos n32 green-red f some_pixels d r b _ refl bytewise
          wide high)
  by_state (rgb_parts m r g b) blue x (deep, missing) (wide, high) =
      rw (deep, missing)
        (next_part-panic e (p.depth / 8) blue pos n32 blue-red f some_pixels d r g _ refl bytewise
          wide high)

  -- In every build, `write` of a green or a blue band panics, although the band fits its parameters,
  -- has whole bytes per pixel and at least one pixel, and although the decoder is fresh or waits for
  -- this band with the same size and depth.
  pub write-band_behind :
      p.format ≡ format_of c
      → Takes d.state c (p.depth / 8)
      → SameSize d.state d p.pixels_per_line h
      → write e d frame p ≡ panic
  write-band_behind fmt takes same =
      write-decode_by e d (not_done d.state refl takes) f
      ∙ ap (decode_by e d frame p h d.state) fmt
      ∙ by_state d.state c refl takes same
    where
      not_done : (s : FrameDecoderState) → d.state ≡ s → Takes s c (p.depth / 8) → is_done d ≡ false
      not_done initial x t = is_done-initial d x
      not_done (done g) x t = absurd t
      not_done (rgb_parts m r g b) x t = is_done-rgb_parts d x
