-- ===== src/Page/Pam.antt =====
-- `write_pam_image` of libsane/examples/scan_a_page.rs, over parameters that stand for the file system.
use libsane_rs.Common.{
  ℕ, ◌-◌, ◌%◌, ◌^◌, List, [], ◌∷◌, ltb, if◌then◌else◌, Outcome, ret, panic, ◌>>=◌, Result, ok, err,
}
use libsane_rs.Common.Decimal.{show}
use libsane_rs.Common.Text.{text}
use libsane_rs.Common.Vec.{Env, mul_u32}
use libsane_rs.Decoder.Types.{DecodedImage, DecodedImageFormat, black_and_white, gray, rgb}

-- A file that is created or emptied and write_opened, and the writing of all of some bytes, which may be
-- done in part when it fails.
pub record Files (F Error : Type 0) : Type 0 where
  pub open_truncated : F → Result (Unit {0}) Error × F
  pub write_all : F → List ℕ → Result (Unit {0}) Error × F

-- `1 << n` at 32 bits: a distance of 32 or more panics, or wraps round.
unfoldable pub shl_u32 : Env → ℕ → Outcome ℕ
shl_u32 e n =
    if ltb n 32 then ret (2 ^ n) else if e.overflow_checks then panic else ret (2 ^ (n % 32))

unfoldable pub maxval_of : Env → ℕ → Outcome ℕ
unfolding shl_u32
maxval_of e bytes = do n ← mul_u32 e bytes 8; one ← shl_u32 e n; ret (one - 1)

-- The match on the format: the depth, the type of the tuples and the greatest value.
unfoldable pub described : Env → DecodedImageFormat → Outcome (ℕ × List ℕ × ℕ)
unfolding maxval_of
described e black_and_white = ret (1, text "BLACKANDWHITE", 1)
described e (gray bytes_per_pixel) =
    maxval_of e bytes_per_pixel >>= λ maxval. ret (1, text "GRAYSCALE", maxval)
described e (rgb bytes_per_channel) =
    maxval_of e bytes_per_channel >>= λ maxval. ret (3, text "RGB", maxval)

-- The pieces of `write!`, in the order in which they are written.
unfoldable pub header : ℕ → ℕ → ℕ × List ℕ × ℕ → List (List ℕ)
header width height (depth, pam_tupletype, maxval) =
    text "P7\nWIDTH "
    ∷ show width
    ∷ text "\nHEIGHT "
    ∷ show height
    ∷ text "\nDEPTH "
    ∷ show depth
    ∷ text "\nMAXVAL "
    ∷ show maxval
    ∷ text "\nTUPLETYPE "
    ∷ pam_tupletype
    ∷ text "\nENDHDR\n"
    ∷ []

module _ {F Error : Type 0} (files : Files F Error) where
  -- What follows a write, unless it failed: `?`.
  unless_failed :
      (F → Result (Unit {0}) Error × F) → Result (Unit {0}) Error × F → Result (Unit {0}) Error × F
  unless_failed next (err x, f) = (err x, f)
  unless_failed next (ok u, f) = next f

  unfoldable pub write_pieces : List (List ℕ) → F → Result (Unit {0}) Error × F
  unfolding unless_failed
  write_pieces [] f = (ok tt, f)
  write_pieces (piece ∷ pieces) f = unless_failed (write_pieces pieces) (files.write_all f piece)

  write_to :
      DecodedImage → ℕ × List ℕ × ℕ → Result (Unit {0}) Error × F → Result (Unit {0}) Error × F
  unfolding write_pieces header unless_failed
  write_to image d (err x, f) = (err x, f)
  write_to image d (ok u, f) =
      unless_failed (λ g. files.write_all g image.bytes)
        (write_pieces (header image.width image.height d) f)

  -- The file is write_opened before the header is made up.
  write_opened :
      Env → DecodedImage → Result (Unit {0}) Error × F → Outcome (Result (Unit {0}) Error × F)
  unfolding described write_to
  write_opened e image (err x, f) = ret (err x, f)
  write_opened e image (ok u, f) =
      described e image.format >>= λ d. ret (write_to image d (ok u, f))

  unfoldable pub write_pam_image : Env → DecodedImage → F → Outcome (Result (Unit {0}) Error × F)
  unfolding write_opened
  write_pam_image e image f = write_opened e image (files.open_truncated f)
