-- ===== src/Page/Files.antt =====
-- The file that comes of the scan of a page as one frame, libsane/examples/scan_a_page.rs, by the
-- format of the frame.
use libsane_rs.Common.{
  ℕ, suc, ◌-◌, ◌*◌, ◌/◌, ◌%◌, ◌≤◌, ◌<◌, ◌≡◌, refl, Bool, true, Option, some, List, [], length, All,
  ret,
}
use mathlib.Core.Option
use libsane_rs.Common.Vec.{Env}
use libsane_rs.Sys.{Frame}
use libsane_rs.Parameters.{FrameParameters}
use libsane_rs.Scan.Session.{Library}
use libsane_rs.Scan.Feeding.{Feeds}
use libsane_rs.Decoder.Types.{DecodedImage, DecodedImageFormat, black_and_white, gray}
use libsane_rs.Decoder.Image.{Shows, line_byte}
use libsane_rs.Decoder.Rows.{Fits}
use libsane_rs.Decoder.Whole.{write-gray}
use libsane_rs.Decoder.Bilevel.{write-as_bytes}
use libsane_rs.Decoder.Unpack.{black}
use libsane_rs.Page.Pam.{Files}
use libsane_rs.Page.PamReader.{read_pam}
use libsane_rs.Page.PamFile.{Keeps, pam_of}
use libsane_rs.Page.Scanning.{saved, decoder_of_main, scan_to_file}
use libsane_rs.Page.OneFrame.{Starts, rows_fit, pixels_fit, file-Shows}

-- What a file shows that was made of a frame: it can be read, and its bytes are those of an image.
abbrev pub FileShows :
    {F : Type 0}
    → (F → List ℕ)
    → F
    → FrameParameters
    → ℕ
    → ℕ
    → DecodedImageFormat
    → (ℕ → ℕ → Option ℕ)
    → Type 0
FileShows content g p row h format sample =
    (image : DecodedImage) × (read_pam (content g) ≡ some (pam_of image))
    × Shows [] p.pixels_per_line row h format sample image

module _ {L F Error : Type 0} (lib : Library L) (remaining : L → List ℕ)
    (feeds : Feeds lib.read remaining) (files : Files F Error) (content : F → List ℕ)
    (keeps : Keeps files content) (e : Env) (debug : Bool) (reads frames : ℕ) {l l1 : L} (file : F)
    {p : FrameParameters} {h : ℕ} {frame rest : List ℕ}
    (starts : Starts lib remaining l l1 p h frame rest) (enough : length frame ≤ reads)
    (format : p.format ≡ Frame.gray) where
  -- A scan of one gray frame of whole bytes per pixel, of three bytes at most, whose lines hold their
  -- pixels, over a library that hands out the bytes of the frame and files that keep what is written:
  -- the program ends in every build with the file saved, and the file is that of a grayscale image
  -- of the frame's size whose bytes are, row by row, the pixel bytes of each line. The bytes behind
  -- the frame are left to the library.
  pub scan_to_file-gray :
      p.depth % 8 ≡ 0
      → p.depth / 8 ≤ 3
      → Fits frame p (p.pixels_per_line * (p.depth / 8)) h
      → (l2 : L) × (g : F) × (scan_to_file lib files e debug reads (suc (suc frames)) l file
          ≡ ret (saved, record { device = l2; done = true }, g))
        × (remaining l2 ≡ rest)
        × FileShows content g p
            (p.pixels_per_line * (p.depth / 8))
            h
            (gray (p.depth / 8))
            (line_byte frame p)
  unfolding decoder_of_main
  scan_to_file-gray bytewise small f =
      let (image, l2, g, ends, reads_back, shows, left) =
        file-Shows lib remaining feeds e debug starts f files content keeps reads frames file
          (p.pixels_per_line * (p.depth / 8)) (gray (p.depth / 8)) (line_byte frame p) enough small
          (write-gray e decoder_of_main refl bytewise format f (rows_fit f)) in
      (l2, g, ends, left, (image, reads_back, shows))

  -- A scan of one black and white frame of lines of whole bytes, over a library that hands out the
  -- bytes of the frame and files that keep what is written: the program ends in every build with the
  -- file saved, and the file is that of a black and white image of the frame's size, with a byte for
  -- each pixel, which is 0 where the bit of the pixel in the frame, from the top of its byte, is set,
  -- and else 1. The bytes behind the frame are left to the library.
  pub scan_to_file-bilevel :
      p.depth ≡ 1
      → p.pixels_per_line % 8 ≡ 0
      → All (λ b. b < 256) frame
      → Fits frame p (p.pixels_per_line / 8) h
      → (l2 : L) × (g : F) × (scan_to_file lib files e debug reads (suc (suc frames)) l file
          ≡ ret (saved, record { device = l2; done = true }, g))
        × (remaining l2 ≡ rest)
        × FileShows content g p p.pixels_per_line h black_and_white
            (λ y x. Option.map (λ b. 1 - black b (x % 8)) (line_byte frame p y (x / 8)))
  unfolding decoder_of_main
  scan_to_file-bilevel bilevel whole bytes f =
      let (image, l2, g, ends, reads_back, shows, left) =
        file-Shows lib remaining feeds e debug starts f files content keeps reads frames file
          p.pixels_per_line black_and_white
          (λ y x. Option.map (λ b. 1 - black b (x % 8)) (line_byte frame p y (x / 8))) enough tt
          (write-as_bytes e decoder_of_main refl (format, bilevel) whole f refl bytes
            (pixels_fit whole f)) in
      (l2, g, ends, left, (image, reads_back, shows))
