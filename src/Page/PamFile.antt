-- ===== src/Page/PamFile.antt =====
-- The file that `write_pam_image` of libsane/examples/scan_a_page.rs writes.
use libsane_rs.Common.{
  ℕ, ◌-◌, ◌*◌, ◌^◌, ◌≤◌, ◌≡◌, refl, sym, ap, ◌∙◌, arith, false, some, List, [], ◌∷◌, ◌++◌, flatten,
  append_assoc, append-nil, All, ◌==◌, lt→ltb, ret, ok,
}
use libsane_rs.Common.Text.{text}
use libsane_rs.Common.Vec.{Env, mul_at-ret}
use libsane_rs.Decoder.Types.{DecodedImage, DecodedImageFormat, black_and_white, gray, rgb}
use libsane_rs.Page.Pam.{
  Files, shl_u32, maxval_of, described, header, write_pieces, write_pam_image,
}
use libsane_rs.Page.PamReader.{Pam, read_pam, join, flatten-join, read_pam-header}

-- Samples of at most three bytes, below the width of the shift.
abbrev pub SmallSamples : DecodedImageFormat → Type 0
SmallSamples black_and_white = Unit
SmallSamples (gray n) = n ≤ 3
SmallSamples (rgb n) = n ≤ 3

-- The number of samples of a pixel, and their greatest value.
abbrev pub depth_of : DecodedImageFormat → ℕ
depth_of black_and_white = 1
depth_of (gray n) = 1
depth_of (rgb n) = 3

abbrev pub greatest : DecodedImageFormat → ℕ
greatest black_and_white = 1
greatest (gray n) = 2 ^ (n * 8) - 1
greatest (rgb n) = 2 ^ (n * 8) - 1

abbrev pub tuple_of : DecodedImageFormat → List ℕ
tuple_of black_and_white = text "BLACKANDWHITE"
tuple_of (gray n) = text "GRAYSCALE"
tuple_of (rgb n) = text "RGB"

abbrev pub pam_of : DecodedImage → Pam
pam_of image = record {
  width = image.width;
  height = image.height;
  depth = depth_of image.format;
  maxval = greatest image.format;
  tuple_type = tuple_of image.format;
  data_bytes = image.bytes;
}

maxval_of-ret : (e : Env) (n : ℕ) → n ≤ 3 → maxval_of e n ≡ ret (2 ^ (n * 8) - 1)
unfolding maxval_of shl_u32
maxval_of-ret e n h =
    rw (mul_at-ret (2 ^ 32) e n 8 (omega arith)) (rw (lt→ltb (n * 8) 32 (omega arith)))

described-ret :
    (e : Env) (f : DecodedImageFormat)
    → SmallSamples f
    → described e f ≡ ret (depth_of f, tuple_of f, greatest f)
unfolding described
described-ret e black_and_white h = refl
described-ret e (gray n) h = rw (maxval_of-ret e n h)
described-ret e (rgb n) h = rw (maxval_of-ret e n h)

pub tuple_of-line : (f : DecodedImageFormat) → All (λ c. (c == b'\n') ≡ false) (tuple_of f)
tuple_of-line black_and_white = ground arith
tuple_of-line (gray n) = ground arith
tuple_of-line (rgb n) = ground arith

module _ {F Error : Type 0} (files : Files F Error) where
  -- A file system on which nothing fails: the file is empty when it is opened, and keeps what is
  -- written to it.
  pub record Keeps (content : F → List ℕ) : Type 0 where
    pub opens : (f : F) → (g : F) × (files.open_truncated f ≡ (ok tt, g)) × (content g ≡ [])
    pub writes :
        (f : F) (bytes : List ℕ)
        → (g : F) × (files.write_all f bytes ≡ (ok tt, g)) × (content g ≡ content f ++ bytes)

  write_pieces-Keeps :
      (content : F → List ℕ) (keeps : Keeps content) (pieces : List (List ℕ)) (f : F)
      → (g : F) × (write_pieces files pieces f ≡ (ok tt, g))
        × (content g ≡ content f ++ flatten pieces)
  unfolding write_pieces flatten
  write_pieces-Keeps content keeps [] f = (f, refl, sym (append-nil (content f)))
  write_pieces-Keeps content keeps (p ∷ ps) f =
      let (g, e1, w1) = keeps.writes f p in
      let (h, e2, w2) = write_pieces-Keeps content keeps ps g in
      (h, rw (e1, e2), w2 ∙ ap (λ c. c ++ flatten ps) w1 ∙ append_assoc (content f) p (flatten ps))

  -- What the file holds then: the pieces of the header, and behind them the bytes of the image.
  pub write_pam_image-join :
      (content : F → List ℕ) (keeps : Keeps content) (e : Env) (image : DecodedImage) (f : F)
      → SmallSamples image.format
      → (g : F) × (write_pam_image files e image f ≡ ret (ok tt, g))
        × (content g
            ≡ join
                (header image.width image.height
                  (depth_of image.format, tuple_of image.format, greatest image.format))
                image.bytes)
  unfolding write_pam_image
  write_pam_image-join content keeps e image f small =
      let d : ℕ × List ℕ × ℕ =
        (depth_of image.format, tuple_of image.format, greatest image.format) in
      let pieces = header image.width image.height d in
      let (g, e1, w1) = keeps.opens f in
      let (h, e2, w2) = write_pieces-Keeps content keeps pieces g in
      let (k, e3, w3) = keeps.writes h image.bytes in
      (
        k,
        rw (e1, described-ret e image.format small) (rw (e2, e3)),
        w3
            ∙ ap (λ c. c ++ image.bytes) (w2 ∙ ap (λ c. c ++ flatten pieces) w1)
            ∙ flatten-join pieces image.bytes,
      )

  -- Where nothing fails, `write_pam_image` of an image with samples of at most three bytes succeeds in
  -- every build, whatever the file held: what is read from the file is the width and the height of the
  -- image, the number of samples of a pixel, their greatest value, the type of the tuples that the
  -- format names, and the bytes of the image.
  pub write_pam_image-read_pam :
      (content : F → List ℕ) (keeps : Keeps content) (e : Env) (image : DecodedImage) (f : F)
      → SmallSamples image.format
      → (g : F) × (write_pam_image files e image f ≡ ret (ok tt, g))
        × (read_pam (content g) ≡ some (pam_of image))
  write_pam_image-read_pam content keeps e image f small =
      let (g, written, held) = write_pam_image-join content keeps e image f small in
      (
        g,
        written,
        ap read_pam held
            ∙ read_pam-header image.width image.height (depth_of image.format)
                (greatest image.format) (tuple_of image.format) image.bytes
                (tuple_of-line image.format),
      )
