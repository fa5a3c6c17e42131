-- ===== src/Decoder/Image.antt =====
-- What an image made of frames is said to show: the vocabulary of the decoder's theorems.
use libsane_rs.Common.{
  ℕ, ◌+◌, ◌*◌, ◌<◌, ◌≡◌, refl, ap, ◌∙◌, Option, List, ◌++◌, length, take, get_elem?, ret, ok,
  length-append, get_elem?-append_right, take-append,
}
use libsane_rs.Common.Vec.{Env}
use libsane_rs.Parameters.{FrameParameters}
use libsane_rs.Decoder.Types.{FrameDecoder, DecodedImage, DecodedImageFormat, into_image}
use libsane_rs.Decoder.Write.{write}

-- An image of `h` rows of `row` bytes behind the `old` bytes of the buffer: byte `x` of row `y` is
-- `sample y x`.
pub record Shows (old : List ℕ) (width row h : ℕ) (format : DecodedImageFormat)
    (sample : ℕ → ℕ → Option ℕ) (image : DecodedImage) : Type 0 where
  pub formatted : image.format ≡ format
  pub wide : image.width ≡ width
  pub high : image.height ≡ h
  pub size : length image.bytes ≡ length old + h * row
  pub kept : take (length old) image.bytes ≡ old
  pub samples :
      (y x : ℕ) → y < h → x < row → get_elem? image.bytes (length old + (y * row + x)) ≡ sample y x

pub append-Shows :
    (old bs : List ℕ) {width row h : ℕ} {format : DecodedImageFormat} {sample : ℕ → ℕ → Option ℕ}
    (image : DecodedImage)
    → image.bytes ≡ old ++ bs
    → length bs ≡ h * row
    → ((y x : ℕ) → y < h → x < row → get_elem? bs (y * row + x) ≡ sample y x)
    → image.format ≡ format
    → image.width ≡ width
    → image.height ≡ h
    → Shows old width row h format sample image
append-Shows old bs {row = row} image e len at e1 e2 e3 = record {
  formatted = e1;
  wide = e2;
  high = e3;
  size = ap length e ∙ length-append old bs ∙ ap (λ n. length old + n) len;
  kept = rw e (take-append (length old) old bs refl);
  samples = λ y x yh xr. rw e (
      get_elem?-append_right old bs (length old + (y * row + x)) (y * row + x) refl ∙ at y x yh xr);
}

-- A `write` that completes an image.
abbrev pub Completes :
    Env
    → FrameDecoder
    → List ℕ
    → FrameParameters
    → ℕ
    → ℕ
    → DecodedImageFormat
    → (ℕ → ℕ → Option ℕ)
    → Type 0
Completes e d frame p row h format sample =
    (d' : FrameDecoder) × (image : DecodedImage) × (write e d frame p ≡ ret (ok tt, d'))
    × (into_image d' ≡ ok image)
    × Shows d.buffer.bytes p.pixels_per_line row h format sample image

-- Byte `x` of line `y` of a frame.
abbrev pub line_byte : List ℕ → FrameParameters → ℕ → ℕ → Option ℕ
line_byte frame p y x = get_elem? frame (y * p.bytes_per_line + x)
