-- ===== src/Decoder/Sound.antt =====
-- Undefined behaviour in the branches of `FrameDecoder::write` for whole frames,
-- libsane/src/device/scan/frame_decoder.rs, in a build that checks arithmetic.
use libsane_rs.Common.{
  ℕ, ◌*◌, ◌-◌, ◌/◌, ◌%◌, ◌^◌, ◌<◌, ◌≡◌, ◌⊎◌, inl, inr, refl, sym, subst, ap, ◌∙◌, arith, true,
  false, List, length, ret, Outcome, ◌>>=◌, ◌==◌, bit_and, Bool-cases, ==_iff,
}
use libsane_rs.Common.Bits.{bit_and-seven}
use libsane_rs.Common.Iter.{Iter}
use libsane_rs.Common.Safe.{
  Safe, Safe->>=, Safe-if, Safe-mul_at, Safe-reserve_exact, Safe-assoc, mul_at-cases,
}
use libsane_rs.Common.Slice.{chunks_exact-ret}
use libsane_rs.Common.Vec.{Env, Vec, MaybeUninit, mul_usize, write_spare, set_len}
use libsane_rs.Parameters.{FrameParameters}
use libsane_rs.Decoder.Types.{FrameDecoder, FrameDecoderState, initial, done, rgb_parts, Written}
use libsane_rs.Decoder.Loops.{copy, unpack_bytes}
use libsane_rs.Decoder.Branches.{
  copy_lines, write_gray, write_rgb, write_bits, write_black_and_white,
}
use libsane_rs.Decoder.Rows.{eighths}
use libsane_rs.Decoder.Safety.{Fills, Stops, Any, fill-Safe, rows, copy-rows, unpack_rows}

row_area : (w n h : ℕ) → h * (w * n) ≡ w * h * n
row_area w n h = omega arith

pixel_area : (w h : ℕ) → w % 8 ≡ 0 → h * (w / 8) * 8 ≡ w * h
pixel_area w h e = let k : w ≡ w / 8 * 8 = omega arith in omega (arith, ap (λ t. t * h) k)

-- What is known of a decoder between two calls. Where it has received a band of an image with at
-- least one pixel, that band is not green or blue.
abbrev pub SoundState : FrameDecoderState → ℕ → ℕ → Type 0
SoundState initial w h = Unit
SoundState (done f) w h = Unit
SoundState (rgb_parts n r g b) w h = (0 < n) × ((w * h ≡ 0) ⊎ ((g ≡ false) × (b ≡ false)))

abbrev pub IsSound : FrameDecoder → Type 0
IsSound d = SoundState d.state d.width d.height

abbrev pub Keeps : Written → Type 0
Keeps r = IsSound r.1

module _ (e : Env) (checks : e.overflow_checks ≡ true) (d : FrameDecoder) (sound : IsSound d)
    (frame : List ℕ) (p : FrameParameters) (h : ℕ) (size : length frame ≡ h * p.bytes_per_line)
    (line : 0 < p.bytes_per_line) where
  abbrev eighth : Outcome ℕ
  eighth = ret (p.pixels_per_line / 8)

  copy_lines-Safe : (v : Vec) (bpp : ℕ) → Safe Any (copy_lines e v frame p h bpp)
  unfolding copy_lines
  copy_lines-Safe v bpp = rw (chunks_exact-ret h p.bytes_per_line frame line size) (
      Safe-mul_at Any (2 ^ 64) e p.pixels_per_line h _ checks λ _.
        Safe-mul_at Any (2 ^ 64) e (p.pixels_per_line * h) bpp _ checks λ _.
          Safe-reserve_exact Any e (p.pixels_per_line * h * bpp) v _ λ w _.
            fill-Safe (p.pixels_per_line * h * bpp) w _ (
              subst
                (λ n.
                  Fills (copy (λ b. b) (rows frame p h (mul_usize e p.pixels_per_line bpp))) n
                  ⊎ Stops (copy (λ b. b) (rows frame p h (mul_usize e p.pixels_per_line bpp))) n)
                (row_area p.pixels_per_line bpp h)
                (copy-rows frame p h size line (λ b. b) (p.pixels_per_line * bpp)
                  (mul_usize e p.pixels_per_line bpp)
                  (mul_at-cases (2 ^ 64) e p.pixels_per_line bpp checks))))

  pub write_gray-Safe : Safe Keeps (write_gray e d frame p h)
  unfolding write_gray
  write_gray-Safe = elim (Bool-cases (bit_and p.depth 7 == 0)) [
    | inl whole ↦ rw whole (
        Safe->>= Any Keeps (copy_lines e d.buffer frame p h (p.depth / 8)) _
          (copy_lines-Safe d.buffer (p.depth / 8)) (λ v _. tt))
    | inr part ↦ rw part sound
  ]

  pub write_rgb-Safe : Safe Keeps (write_rgb e d frame p h)
  unfolding write_rgb
  write_rgb-Safe = elim (Bool-cases (bit_and p.depth 7 == 0)) [
    | inl whole ↦ rw whole (
        Safe-mul_at Keeps (2 ^ 32) e (p.depth / 8) 3 _ checks λ _.
          Safe->>= Any Keeps (copy_lines e d.buffer frame p h (p.depth / 8 * 3)) _
            (copy_lines-Safe d.buffer (p.depth / 8 * 3)) (λ v _. tt))
    | inr part ↦ rw part sound
  ]

  write_bits-Safe :
      (n : ℕ) (loop : Iter ℕ → List MaybeUninit → Outcome (List MaybeUninit))
      → Fills (loop (rows frame p h (ret (p.pixels_per_line / 8)))) n
        ⊎ Stops (loop (rows frame p h (ret (p.pixels_per_line / 8)))) n
      → Safe Keeps (write_bits e d frame p h n loop)
  unfolding write_bits
  write_bits-Safe n loop known = Safe-reserve_exact Keeps e n d.buffer _ λ w _.
      rw (chunks_exact-ret h p.bytes_per_line frame line size) (
        Safe-assoc Keeps (write_spare n (loop (rows frame p h (ret (p.pixels_per_line / 8)))) w)
          (set_len n) _
          (Safe->>= Any Keeps
            (write_spare n (loop (rows frame p h (ret (p.pixels_per_line / 8)))) w >>= set_len n) _
            (fill-Safe n w (loop (rows frame p h (ret (p.pixels_per_line / 8)))) known)
            (λ v _. tt)))

  pub write_black_and_white-Safe : Safe Keeps (write_black_and_white e d frame p h)
  unfolding write_black_and_white
  write_black_and_white-Safe = elim (Bool-cases (bit_and p.pixels_per_line 7 == 0)) [
    | inl whole ↦
        let w8 : p.pixels_per_line % 8 ≡ 0 =
          sym (bit_and-seven p.pixels_per_line) ∙ (==_iff _ 0).0 whole in
        rw whole (
          Safe-mul_at Keeps (2 ^ 64) e p.pixels_per_line h _ checks λ _.
            Safe-if Keeps d.black_and_white_as_bytes
              (write_bits e d frame p h (p.pixels_per_line * h) (unpack_bytes 0))
              (write_bits e d frame p h (p.pixels_per_line * h / 8) (copy (λ b. 255 - b)))
              (λ _. write_bits-Safe (p.pixels_per_line * h) (unpack_bytes 0) (
                subst
                  (λ n.
                    Fills (unpack_bytes 0 (rows frame p h eighth)) n
                    ⊎ Stops (unpack_bytes 0 (rows frame p h eighth)) n)
                  (pixel_area p.pixels_per_line h w8)
                  (unpack_rows frame p h size line (p.pixels_per_line / 8) eighth (inl refl))))
              (λ _. write_bits-Safe (p.pixels_per_line * h / 8) (copy (λ b. 255 - b)) (
                subst
                  (λ n.
                    Fills (copy (λ b. 255 - b) (rows frame p h eighth)) n
                    ⊎ Stops (copy (λ b. 255 - b) (rows frame p h eighth)) n)
                  (sym (eighths p.pixels_per_line h w8))
                  (copy-rows frame p h size line (λ b. 255 - b) (p.pixels_per_line / 8) eighth
                    (inl refl)))))
    | inr part ↦ rw part sound
  ]
