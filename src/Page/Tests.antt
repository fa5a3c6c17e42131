-- ===== src/Page/Tests.antt =====
-- The example program at small inputs.
use mathlib.Core.Option
use libsane_rs.Common.{
  ℕ, ◌-◌, ◌/◌, ◌%◌, ◌<◌, ◌≡◌, refl, arith, ◌==◌, true, false, some, List, [], ◌∷◌, ◌++◌, map, ret,
  ok, err, none,
}
use libsane_rs.Common.Decimal.{show, parse_usize}
use libsane_rs.Common.Slice.{slice_to, slice}
use libsane_rs.Common.Text.{text}
use libsane_rs.Common.Vec.{Env}
use libsane_rs.Sys.{Frame}
use libsane_rs.Parameters.{FrameParameters}
use libsane_rs.Scan.Reader.{other}
use libsane_rs.Scan.Session.{Library, start_frame}
use libsane_rs.Scan.Samples.{deliver, left, deliver-Feeds}
use libsane_rs.Decoder.Types.{DecodedImage, black_and_white, gray}
use libsane_rs.Decoder.Image.{line_byte}
use libsane_rs.Decoder.Unpack.{black}
use libsane_rs.Decoder.Rows.{Fits}
use libsane_rs.Enumerate.Description.{SysDevice, DeviceDescription, name, vendor, model, type_}
use libsane_rs.Enumerate.Contents.{Describes, Proper}
use libsane_rs.Page.Prompt.{strip_cr, picked, ask_for_device}
use libsane_rs.Page.Choice.{typed}
use libsane_rs.Page.Listing.{listing_from, ask_for_device-picked}
use libsane_rs.Page.Pam.{Files, write_pam_image}
use libsane_rs.Page.PamFile.{Keeps, pam_of}
use libsane_rs.Page.PamFormat.{read_file, pam_file}
use libsane_rs.Page.PamFormat.Keyword.{write_pam_image-refused}
use libsane_rs.Page.Scanning.{saved, scan_to_file}
use libsane_rs.Page.OneFrame.{Starts}
use libsane_rs.Page.Files.{FileShows, scan_to_file-bilevel}

-- A device that starts at once and reports a frame of two lines of three bytes.
abbrev page : ℕ → ℕ → Library (List ℕ)
page pixels depth = record {
  start = λ l. (ok tt, l);
  set_io_mode = λ l. (err (other 1), l);
  get_parameters = λ l. (
    ok (record {
      format = Frame.gray;
      last_frame = 1;
      bytes_per_line = 3;
      pixels_per_line = pixels;
      lines = 2;
      depth = depth;
    }),
    l,
  );
  read = deliver;
  cancel = λ l. l;
  sys_false = 0;
  unsupported = 1;
}

abbrev params : ℕ → ℕ → FrameParameters
params pixels depth = record {
  format = Frame.gray;
  last_frame = true;
  bytes_per_line = 3;
  pixels_per_line = pixels;
  lines = some 2;
  depth = depth;
}

-- A file is its bytes.
abbrev disk : Files (List ℕ) (Unit {0})
disk = record { open_truncated = λ f. (ok tt, []); write_all = λ f bytes. (ok tt, f ++ bytes) }

abbrev content : List ℕ → List ℕ
content f = f

disk-Keeps : Keeps disk content
disk-Keeps = record { opens = λ f. ([], refl, refl); writes = λ f bytes. (f ++ bytes, refl, refl) }

abbrev env : Env
env = record { overflow_checks = true; slack = 0 }

abbrev image : DecodedImage
image = record { bytes = 5 ∷ 6 ∷ []; format = gray 1; width = 2; height = 1 }

write_pam_image-refused_example :
    (g : List ℕ) × (write_pam_image disk env image (7 ∷ []) ≡ ret (ok tt, g))
    × (g ≡ pam_file (text "TUPLETYPE ") image)
    × (read_file g ≡ none)
    × (read_file (pam_file (text "TUPLTYPE ") image) ≡ some (pam_of image))
write_pam_image-refused_example =
    write_pam_image-refused disk content disk-Keeps env image (7 ∷ [])
      (omega arith, omega arith, (omega arith, omega arith))

abbrev sheet : List ℕ
sheet = 1 ∷ 2 ∷ 9 ∷ 3 ∷ 4 ∷ 9 ∷ 8 ∷ []

abbrev frame : List ℕ
frame = 1 ∷ 2 ∷ 9 ∷ 3 ∷ 4 ∷ 9 ∷ []

page-Starts : (n m : ℕ) → Starts (page n m) left sheet sheet (params n m) 2 frame (8 ∷ [])
unfolding start_frame
page-Starts n m = record { started = refl; single = refl; known = refl; sends = refl }

bilevel-Fits : Fits frame (params 16 1) 2 2
bilevel-Fits = record {
  lined = record { size = refl; line = omega arith; row_fits = omega arith };
  small = omega arith;
  line32 = omega arith;
  wide = omega arith;
  deep = omega arith;
  depth32 = omega arith;
  agreed = refl;
}

scan_to_file-bilevel_example :
    (l2 : List ℕ) × (g : List ℕ) × (scan_to_file (page 16 1) disk env true 6 2 sheet (7 ∷ [])
      ≡ ret (saved, record { device = l2; done = true }, g))
    × (l2 ≡ 8 ∷ [])
    × FileShows content g
        (params 16 1)
        16
        2
        black_and_white
        (λ y x. Option.map (λ b. 1 - black b (x % 8)) (line_byte frame (params 16 1) y (x / 8)))
scan_to_file-bilevel_example =
    scan_to_file-bilevel (page 16 1) left deliver-Feeds disk content disk-Keeps env true 6 0
      (7 ∷ []) (page-Starts 16 1) (omega arith) refl refl refl
      (omega arith, (omega arith, (omega arith, (omega arith, (omega arith, (omega arith, tt))))))
      bilevel-Fits

-- Two scanners, and their descriptions.
abbrev scanner : ℕ → SysDevice
scanner c = record {
  name = record { bytes = c ∷ [] };
  vendor = record { bytes = [] };
  model = record { bytes = b'm' ∷ c ∷ [] };
  type_ = record { bytes = [] };
}

abbrev described : ℕ → DeviceDescription
described c = record {
  buf = record { bytes = c ∷ 0 ∷ 0 ∷ b'm' ∷ c ∷ 0 ∷ 0 ∷ []; spare = [] };
  name_end = 2;
  vendor_end = 3;
  model_end = 6;
}

described-Describes : (c : ℕ) → (c == 0) ≡ false → Describes (scanner c) (described c)
unfolding name vendor model type_ slice_to slice
described-Describes c h = record {
  by_name = rw h refl;
  by_vendor = refl;
  by_model = rw h refl;
  by_type = refl;
}

scanner-Proper : (c : ℕ) → 0 < c → Proper (scanner c)
scanner-Proper c h = record {
  name_non_nul = (h, tt);
  vendor_non_nul = tt;
  model_non_nul = (omega arith, (h, tt));
  type_non_nul = tt;
  small = omega arith;
}

-- The first line is no number, and the second one is out of range; `1` comes with the line `2`.
ask_for_device-picked_example :
    (more : List ℕ) × (ask_for_device true 3 (described b'x' ∷ described b'y' ∷ []) (record {
      input =
          map typed ((text "x", []) ∷ (text "3", []) ∷ [])
          ++ (typed (show 2, text "1\n") ∷ (text "1\n" ∷ []));
      printed = [];
    })
      ≡ ret (
        picked (described b'y'),
        record {
          input = text "1\n" ∷ [];
          printed =
              (text "Pick a device from the list:" ++ (b'\n' ∷ []))
              ++ listing_from 1 (scanner b'x' ∷ scanner b'y' ∷ [])
              ++ more;
        },
      ))
unfolding parse_usize strip_cr
ask_for_device-picked_example =
    ask_for_device-picked true (scanner b'x' ∷ scanner b'y' ∷ [])
      (described b'x' ∷ described b'y' ∷ []) 1 (described b'y')
      (scanner-Proper b'x' (omega arith), (scanner-Proper b'y' (omega arith), tt))
      (((refl, tt), (refl, (refl, tt))), (((refl, tt), (refl, (refl, tt))), tt))
      (described-Describes b'x' refl, (described-Describes b'y' refl, tt)) refl (omega arith) 3
      ((text "x", []) ∷ (text "3", []) ∷ []) (text "1\n") (text "1\n" ∷ []) []
      (((refl, tt), refl), (((refl, tt), refl), tt)) (omega arith)
