-- ===== src/Page/PamFormat/Keyword.antt =====
-- The keyword of the type of the tuples in the files that `write_pam_image` of
-- libsane/examples/scan_a_page.rs writes.
use libsane_rs.Common.{
  ℕ, zero, suc, ◌*◌, ◌-◌, ◌^◌, ◌≤◌, ◌≡◌, refl, ap, ◌∙◌, arith, none, some, List, ◌++◌, length, drop,
  le→leb, ret, ok,
}
use libsane_rs.Common.Decimal.{show}
use libsane_rs.Common.Text.{text, strip_prefix}
use libsane_rs.Common.Vec.{Env}
use libsane_rs.Decoder.Types.{DecodedImage, DecodedImageFormat, black_and_white, gray, rgb}
use libsane_rs.Page.Pam.{Files, header, write_pam_image}
use libsane_rs.Page.PamFile.{
  SmallSamples, Keeps, depth_of, greatest, tuple_of, tuple_of-line, pam_of, write_pam_image-join,
}
use libsane_rs.Page.PamFormat.{
  Fields, no_fields, joined, complete, finish, read_lines, behind_magic, read_file, OfSamples, line,
  pam_file, Standard,
}
use libsane_rs.Page.PamFormat.Lines.{
  read_lines-width, read_lines-height, read_lines-depth, read_lines-maxval, read_lines-tupltype,
  read_lines-tupletype, read_lines-endhdr,
}

greatest-two : (n : ℕ) → 1 ≤ n → n ≤ 2 → (1 ≤ 2 ^ (n * 8) - 1) × (2 ^ (n * 8) - 1 ≤ 65535)
greatest-two zero h k = absurd (omega (arith, h))
greatest-two (suc zero) h k = (omega arith, omega arith)
greatest-two (suc (suc zero)) h k = (omega arith, omega arith)
greatest-two (suc (suc (suc n))) h k = absurd (omega (arith, k))

greatest-range : (f : DecodedImageFormat) → OfSamples f → (1 ≤ greatest f) × (greatest f ≤ 65535)
greatest-range black_and_white s = (omega arith, omega arith)
greatest-range (gray n) s = greatest-two n s.0 s.1
greatest-range (rgb n) s = greatest-two n s.0 s.1

OfSamples-small : (f : DecodedImageFormat) → OfSamples f → SmallSamples f
OfSamples-small black_and_white s = tt
OfSamples-small (gray n) s = omega (arith, s.1)
OfSamples-small (rgb n) s = omega (arith, s.1)

module _ (image : DecodedImage) where
  -- What the lines of the numbers say of an image.
  abbrev numbers : Fields
  numbers = record {
    width = some image.width;
    height = some image.height;
    depth = some (depth_of image.format);
    maxval = some (greatest image.format);
    tuple_type = none;
  }

  read_lines-numbers :
      (fuel : ℕ) (rest : List ℕ)
      → read_lines
          (suc (suc (suc (suc fuel))))
          (line (text "WIDTH ") (show image.width) (
            line (text "HEIGHT ") (show image.height) (
              line
                (text "DEPTH ")
                (show (depth_of image.format))
                (line (text "MAXVAL ") (show (greatest image.format)) rest))))
          no_fields
        ≡ read_lines fuel rest numbers
  read_lines-numbers fuel rest =
      read_lines-width (suc (suc (suc fuel))) image.width _ _
      ∙ read_lines-height (suc (suc fuel)) image.height _ _
      ∙ read_lines-depth (suc fuel) (depth_of image.format) _ _
      ∙ read_lines-maxval fuel (greatest image.format) _ _

  depth_positive : 1 ≤ depth_of image.format
  depth_positive = positive image.format
    where
      positive : (f : DecodedImageFormat) → 1 ≤ depth_of f
      positive black_and_white = omega arith
      positive (gray n) = omega arith
      positive (rgb n) = omega arith

  complete-numbers :
      Standard image
      → complete
          (some image.width)
          (some image.height)
          (some (depth_of image.format))
          (some (greatest image.format))
          (some (tuple_of image.format))
          image.bytes
        ≡ some (pam_of image)
  unfolding complete
  complete-numbers (w, h, s) =
      rw (le→leb 1 image.width w, le→leb 1 image.height h)
        (rw (le→leb 1 (depth_of image.format) depth_positive) (
          rw (le→leb 1 (greatest image.format) (greatest-range image.format s).0)
            (rw (le→leb (greatest image.format) 65535 (greatest-range image.format s).1) refl)))

  -- The two last lines, and the bytes.
  abbrev last_lines : List ℕ → List ℕ
  last_lines keyword = line keyword (tuple_of image.format) (text "ENDHDR\n" ++ image.bytes)

  -- The characters behind the first nine, and three more: lines enough for the rest of the header.
  abbrev spare : List ℕ → ℕ
  spare keyword = suc (suc (suc (length (drop 9 (pam_file keyword image)))))

  read_file-tupltype :
      Standard image → read_file (pam_file (text "TUPLTYPE ") image) ≡ some (pam_of image)
  unfolding read_file behind_magic strip_prefix joined finish
  read_file-tupltype standard =
      read_lines-numbers (suc (suc (spare (text "TUPLTYPE ")))) (last_lines (text "TUPLTYPE "))
      ∙ read_lines-tupltype (suc (spare (text "TUPLTYPE "))) (tuple_of image.format)
          (text "ENDHDR\n" ++ image.bytes) numbers (tuple_of-line image.format)
      ∙ read_lines-endhdr (spare (text "TUPLTYPE ")) image.bytes
          (record numbers { tuple_type = some (tuple_of image.format) })
      ∙ complete-numbers standard

  read_file-tupletype : read_file (pam_file (text "TUPLETYPE ") image) ≡ none
  unfolding read_file behind_magic strip_prefix
  read_file-tupletype =
      read_lines-numbers (suc (suc (spare (text "TUPLETYPE ")))) (last_lines (text "TUPLETYPE "))
      ∙ read_lines-tupletype (suc (spare (text "TUPLETYPE "))) (tuple_of image.format)
          (text "ENDHDR\n" ++ image.bytes) numbers (tuple_of-line image.format)

module _ {F Error : Type 0} (files : Files F Error) where
  -- Where nothing fails, `write_pam_image` of an image with pixels, of samples of one or two
  -- bytes, succeeds in every build, whatever the file held before, but the file is none of the
  -- PAM format as Netpbm documents it: it holds the header of the image, with the word
  -- `TUPLETYPE`, and the bytes of the image, and a reader of the format refuses it. From the same
  -- file with the keyword `TUPLTYPE` of the format in the place of that word, the reader gets the
  -- width and the height of the image, the number of samples of a pixel, their greatest value,
  -- the type of the tuples that the image's format names, and its bytes.
  pub write_pam_image-refused :
      (content : F → List ℕ) (keeps : Keeps files content) (e : Env) (image : DecodedImage) (f : F)
      → Standard image
      → (g : F) × (write_pam_image files e image f ≡ ret (ok tt, g))
        × (content g ≡ pam_file (text "TUPLETYPE ") image)
        × (read_file (content g) ≡ none)
        × (read_file (pam_file (text "TUPLTYPE ") image) ≡ some (pam_of image))
  unfolding header
  write_pam_image-refused content keeps e image f standard =
      let (g, written, held) =
        write_pam_image-join files content keeps e image f
          (OfSamples-small image.format standard.2) in
      let held' : content g ≡ pam_file (text "TUPLETYPE ") image = held in
      (
        g,
        written,
        held',
        ap read_file held' ∙ read_file-tupletype image,
        read_file-tupltype image standard,
      )
