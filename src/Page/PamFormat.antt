-- ===== src/Page/PamFormat.antt =====
-- The PAM format as Netpbm documents it, and the files that `write_pam_image` of
-- libsane/examples/scan_a_page.rs writes against it.
pub mod Lines
pub mod Keyword
use libsane_rs.Common.{
  ℕ, zero, suc, ◌*◌, ◌-◌, ◌^◌, ◌≤◌, ◌<◌, ◌≡◌, ◌≢◌, refl, sym, ap, subst, ◌∙◌, arith, Bool, true,
  false, ◌&&◌, Option, none, some, List, [], ◌∷◌, ◌++◌, append-nil, All, All-map, length, drop, ltb,
  leb, le→leb, ◌==◌, if◌then◌else◌, ret, ok,
}
use libsane_rs.Common.Decimal.{is_digit, show, show-All, read_number, read_number-show}
use libsane_rs.Common.Text.{text, same_text, strip_prefix, unwrap_or}
use libsane_rs.Common.Vec.{Env}
use libsane_rs.Decoder.Types.{DecodedImage, DecodedImageFormat, black_and_white, gray, rgb}
use libsane_rs.Page.Pam.{Files, header, write_pam_image}
use libsane_rs.Page.PamReader.{Pam, join, until_newline, until_newline-append}
use libsane_rs.Page.PamFile.{depth_of, greatest, tuple_of}

-- What the lines of a header have said so far.
pub record Fields : Type 0 where
  pub width : Option ℕ
  pub height : Option ℕ
  pub depth : Option ℕ
  pub maxval : Option ℕ
  pub tuple_type : Option (List ℕ)

abbrev pub no_fields : Fields
no_fields = record { width = none; height = none; depth = none; maxval = none; tuple_type = none }

-- A number that is a whole value.
exact : ℕ × List ℕ → Option ℕ
exact (n, []) = some n
exact (n, c ∷ cs) = none

pub whole_number : List ℕ → Option ℕ
unfolding read_number exact
whole_number s = exact (read_number s 0)

with_number : Option ℕ → (ℕ → Fields) → Option Fields
with_number none set = none
with_number (some n) set = some (set n)

-- Tuple types on several lines are joined by a space.
pub joined : Option (List ℕ) → List ℕ → List ℕ
joined none value = value
joined (some t) value = t ++ (b' ' ∷ value)

-- The value behind a keyword, if the line starts with it; else what is tried next.
either : Option (List ℕ) → (List ℕ → Option Fields) → Option Fields → Option Fields
either none found next = next
either (some value) found next = found value

-- A line of the header: one of the five keywords of the format with its value, a comment, or nothing;
-- any other line is an error.
pub read_field : List ℕ → Fields → Option Fields
unfolding strip_prefix whole_number with_number joined either
read_field [] f = some f
read_field (c ∷ line) f =
    either (strip_prefix (text "WIDTH ") (c ∷ line))
      (λ v. with_number (whole_number v) (λ n. record f { width = some n }))
      (either (strip_prefix (text "HEIGHT ") (c ∷ line))
        (λ v. with_number (whole_number v) (λ n. record f { height = some n }))
        (either (strip_prefix (text "DEPTH ") (c ∷ line))
          (λ v. with_number (whole_number v) (λ n. record f { depth = some n }))
          (either (strip_prefix (text "MAXVAL ") (c ∷ line))
            (λ v. with_number (whole_number v) (λ n. record f { maxval = some n }))
            (either (strip_prefix (text "TUPLTYPE ") (c ∷ line))
              (λ v. some (record f { tuple_type = some (joined f.tuple_type v) }))
              (if c == b'#' then some f else none)))))

-- The four numbers have to be given, at least 1, and the greatest value of a sample at most 65535.
pub complete : Option ℕ → Option ℕ → Option ℕ → Option ℕ → Option (List ℕ) → List ℕ → Option Pam
complete (some w) (some h) (some d) (some m) t bytes =
    if leb 1 w && (leb 1 h && (leb 1 d && (leb 1 m && leb m 65535)))
    then some (record {
      width = w;
      height = h;
      depth = d;
      maxval = m;
      tuple_type = unwrap_or t [];
      data_bytes = bytes;
    })
    else none
complete _ _ _ _ t bytes = none

-- What follows a line: the rest of the lines, or the bytes behind the last one.
then_lines : (Fields → Option Pam) → Option Fields → Option Pam
then_lines next none = none
then_lines next (some f) = next f

pub finish : Fields → List ℕ → Option Pam
unfolding complete
finish f bytes = complete f.width f.height f.depth f.maxval f.tuple_type bytes

pub after_line : (List ℕ → Fields → Option Pam) → Fields → List ℕ × List ℕ → Option Pam
unfolding same_text read_field then_lines finish
after_line next f (line, rest) =
    if same_text line (text "ENDHDR")
    then finish f (drop 1 rest)
    else then_lines (next (drop 1 rest)) (read_field line f)

-- The lines of the header, at most so many.
pub read_lines : ℕ → List ℕ → Fields → Option Pam
unfolding until_newline after_line
read_lines zero s f = none
read_lines (suc fuel) s f = after_line (read_lines fuel) f (until_newline s)

behind_magic : ℕ → Option (List ℕ) → Option Pam
unfolding read_lines
behind_magic n none = none
behind_magic n (some s) = read_lines n s no_fields

-- A file of the format: there are fewer lines than characters.
pub read_file : List ℕ → Option Pam
unfolding behind_magic strip_prefix
read_file s = behind_magic (length s) (strip_prefix (text "P7\n") s)

-- Samples of one or two bytes.
abbrev OfSamples : DecodedImageFormat → Type 0
OfSamples black_and_white = Unit
OfSamples (gray n) = (1 ≤ n) × (n ≤ 2)
OfSamples (rgb n) = (1 ≤ n) × (n ≤ 2)

-- A line of a keyword and a value.
abbrev pub line : List ℕ → List ℕ → List ℕ → List ℕ
line keyword value rest = keyword ++ (value ++ (b'\n' ∷ rest))

-- The file of an image, with a keyword for the type of the tuples.
abbrev pub pam_file : List ℕ → DecodedImage → List ℕ
pam_file keyword image =
    text "P7\n"
    ++ line (text "WIDTH ") (show image.width) (
        line (text "HEIGHT ") (show image.height) (
          line (text "DEPTH ") (show (depth_of image.format)) (
            line (text "MAXVAL ") (show (greatest image.format))
              (line keyword (tuple_of image.format) (text "ENDHDR\n" ++ image.bytes)))))

-- An image of the format: it has pixels, of samples of one or two bytes.
abbrev pub Standard : DecodedImage → Type 0
Standard image = (1 ≤ image.width) × (1 ≤ image.height) × OfSamples image.format
