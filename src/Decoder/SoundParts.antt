-- ===== src/Decoder/SoundParts.antt =====
-- Undefined behaviour in the branches of `FrameDecoder::write` for bands,
-- libsane/src/device/scan/frame_decoder.rs, in a build that checks arithmetic.
use native.Mathlib.Nat.{zero-mul}
use libsane_rs.Common.{
  ℕ, ◌*◌, ◌/◌, ◌%◌, ◌^◌, ◌<◌, ◌≡◌, ◌≢◌, inl, inr, refl, sym, subst, ap, ◌∙◌, arith, Bool, true, not,
  ◌&&◌, ◌||◌, List, length, ret, Outcome, ok, ◌>>=◌, ◌==◌, bit_and, if◌then◌else◌, Bool-cases,
  ==_iff,
}
use libsane_rs.Common.Bits.{bit_and-seven}
use libsane_rs.Common.Safe.{Safe, Safe->>=, Safe-if, Safe-mul_at, Safe-reserve_exact}
use libsane_rs.Common.Vec.{Env, Vec, MaybeUninit, write_spare, set_len}
use libsane_rs.Parameters.{FrameParameters}
use libsane_rs.Decoder.Types.{
  FrameDecoder, FrameDecoderState, done, rgb_parts, rgb, Channel, red, green, blue, Written,
  channel_index,
}
use libsane_rs.Decoder.Loops.{write_channel}
use libsane_rs.Decoder.Branches.{write_first_part, write_next_part}
use libsane_rs.Decoder.Safety.{Any, positive}
use libsane_rs.Decoder.Sound.{IsSound, Keeps}
use libsane_rs.Decoder.SoundBands.{Never, write_channel-Safe, write_channel_out}
use libsane_rs.Decoder.SoundSteps.{
  write_spare-Safe, write_spare_out, set_len-zero, bytes_of, far, same_area, green-red, blue-red,
  Next,
}

module _ (e : Env) (checks : e.overflow_checks ≡ true) (d : FrameDecoder) (sound : IsSound d)
    (frame : List ℕ) (p : FrameParameters) (h : ℕ) (size : length frame ≡ h * p.bytes_per_line)
    (line : 0 < p.bytes_per_line) where
  -- The body of the loop at an offset, on a destination of all pixels.
  body-Safe :
      (n offset : ℕ)
      → 0 < n
      → (dst : List MaybeUninit) → length dst ≡ p.pixels_per_line * h * (n * 3)
      → Safe Any (write_channel e frame p.bytes_per_line p.pixels_per_line n offset dst)
  body-Safe n offset pos dst len =
      write_channel-Safe e checks frame p h size line p.pixels_per_line n offset
        (p.pixels_per_line * h) dst pos (len ∙ bytes_of p.pixels_per_line h n)

  body_out :
      (n : ℕ) (c : Channel)
      → 0 < n
      → c ≢ red
      → 0 < p.pixels_per_line * h
      → (dst : List MaybeUninit) → length dst ≡ p.pixels_per_line * h * (n * 3)
      → Safe Never
          (write_channel e frame p.bytes_per_line p.pixels_per_line n (n * 3 * channel_index c) dst)
  body_out n c pos other some_pixels dst len =
      write_channel_out e checks frame p h size line p.pixels_per_line n (n * 3 * channel_index c)
        (p.pixels_per_line * h) dst pos some_pixels (far n c other)
        (len ∙ bytes_of p.pixels_per_line h n)

  abbrev after_band : ℕ → Channel → Vec → Outcome Written
  after_band n c v = ret (
    ok tt,
    record d {
      buffer = v;
      width = p.pixels_per_line;
      height = h;
      state = rgb_parts n (channel_index c == 0) (channel_index c == 1) (channel_index c == 2);
    },
  )

  abbrev band : ℕ → Channel → Vec → Outcome Vec
  band n c w =
      write_spare (p.pixels_per_line * h * (n * 3))
        (write_channel e frame p.bytes_per_line p.pixels_per_line n (n * 3 * channel_index c)) w

  band_over :
      (n : ℕ) (c : Channel)
      → 0 < n
      → c ≢ red
      → 0 < p.pixels_per_line * h
      → (w : Vec) → Safe Never (band n c w)
  band_over n c pos other some_pixels w =
      write_spare_out (p.pixels_per_line * h * (n * 3)) w _
        (λ dst len. body_out n c pos other some_pixels dst len)

  band-Safe : (n : ℕ) (c : Channel) → 0 < n → (w : Vec) → Safe Any (band n c w)
  band-Safe n c pos w =
      write_spare-Safe (p.pixels_per_line * h * (n * 3)) w _
        (λ dst len. body-Safe n (n * 3 * channel_index c) pos dst len)

  other_band :
      (c : Channel) (n : ℕ)
      → 0 < n
      → c ≢ red
      → (w : Vec) → Safe Keeps (band n c w >>= after_band n c)
  other_band c n pos other w = elim (Bool-cases (p.pixels_per_line * h == 0)) [
    | inl none_left ↦
        Safe->>= Any Keeps (band n c w) _ (band-Safe n c pos w)
          (λ v _. (pos, inl ((==_iff (p.pixels_per_line * h) 0).0 none_left)))
    | inr some_left ↦
        Safe->>= Never Keeps (band n c w) _ (band_over n c pos other (positive _ some_left) w)
          (λ v x. absurd x)
  ]

  first_band :
      (c : Channel) (n : ℕ) → 0 < n → (w : Vec) → Safe Keeps (band n c w >>= after_band n c)
  first_band red n pos w =
      Safe->>= Any Keeps (band n red w) _ (band-Safe n red pos w) (λ v _. (pos, inr (refl, refl)))
  first_band green n pos w = other_band green n pos (λ x. green-red x) w
  first_band blue n pos w = other_band blue n pos (λ x. blue-red x) w

  pub write_first_part-Safe :
      (c : Channel) → 0 < p.depth → Safe Keeps (write_first_part e d frame p h c)
  unfolding write_first_part
  write_first_part-Safe c deep = elim (Bool-cases (bit_and p.depth 7 == 0)) [
    | inl whole ↦
        let n : ℕ = p.depth / 8 in
        let w8 : p.depth % 8 ≡ 0 = sym (bit_and-seven p.depth) ∙ (==_iff _ 0).0 whole in
        let pos : 0 < p.depth / 8 = omega arith in
        rw whole (
          Safe-mul_at Keeps (2 ^ 32) e (p.depth / 8) 3 _ checks λ _.
            Safe-mul_at Keeps (2 ^ 64) e (p.depth / 8 * 3) (channel_index c) _ checks λ _.
              Safe-mul_at Keeps (2 ^ 64) e p.pixels_per_line h _ checks λ _.
                Safe-mul_at Keeps (2 ^ 64) e (p.pixels_per_line * h) (p.depth / 8 * 3) _ checks λ _.
                  Safe-reserve_exact Keeps e (p.pixels_per_line * h * (p.depth / 8 * 3)) d.buffer _
                    λ w _. first_band c n pos w)
    | inr part ↦ rw part sound
  ]

  abbrev after_next : ℕ → Bool → Bool → FrameDecoderState → Vec → Outcome Written
  after_next n other1 other2 marked written =
      if other1 && other2
      then (set_len (p.pixels_per_line * h * (n * 3)) written >>= λ v.
          ret (ok tt, record d { buffer = v; state = done (rgb n) }))
      else ret (ok tt, record d { buffer = written; state = marked })

  later_band :
      (c : Channel) (n : ℕ) (other1 other2 : Bool) (marked : FrameDecoderState)
      → 0 < n
      → p.pixels_per_line * h ≡ d.width * d.height
      → Next d c other1 other2 marked
      → Safe Keeps (band n c d.buffer >>= after_next n other1 other2 marked)
  later_band c n other1 other2 marked pos area (inl (none_left, known)) =
      Safe->>= Any Keeps (band n c d.buffer) _ (band-Safe n c pos d.buffer) λ v _.
        Safe-if Keeps (other1 && other2) _ _
          (λ _.
            Safe->>= Any Keeps (set_len (p.pixels_per_line * h * (n * 3)) v) _
              (set_len-zero _ v (ap (λ k. k * (n * 3)) (area ∙ none_left) ∙ zero-mul (n * 3)))
              (λ _ _. tt))
          (λ _. known)
  later_band c n other1 other2 marked pos area (inr (inl (waits, known))) =
      Safe->>= Any Keeps (band n c d.buffer) _ (band-Safe n c pos d.buffer) (λ v _. rw waits known)
  later_band c n other1 other2 marked pos area (inr (inr (other, some_left))) =
      Safe->>= Never Keeps (band n c d.buffer) _
        (band_over n c pos other (subst (λ k. 0 < k) (sym area) some_left) d.buffer)
        (λ v x. absurd x)

  pub write_next_part-Safe :
      (c : Channel) (n : ℕ) (has other1 other2 : Bool) (marked : FrameDecoderState)
      → 0 < n
      → Next d c other1 other2 marked
      → Safe Keeps (write_next_part e d frame p h c n has other1 other2 marked)
  unfolding write_next_part
  write_next_part-Safe c n has other1 other2 marked pos known =
      Safe-if Keeps has _ _ (λ _. sound)
        λ _.
          Safe-if Keeps (not (p.pixels_per_line == d.width) || not (h == d.height)) _ _ (λ _. sound)
            λ same.
              Safe-if Keeps (not (bit_and p.depth 7 == 0) || not (p.depth / 8 == n)) _ _
                (λ _. sound)
                λ _. Safe-mul_at Keeps (2 ^ 64) e n 3 _ checks λ _.
                  Safe-mul_at Keeps (2 ^ 64) e (n * 3) (channel_index c) _ checks λ _.
                    Safe-mul_at Keeps (2 ^ 64) e p.pixels_per_line h _ checks λ _.
                      Safe-mul_at Keeps (2 ^ 64) e (p.pixels_per_line * h) (n * 3) _ checks
                        λ _. later_band c n other1 other2 marked pos (same_area _ _ _ _ same) known
