-- ===== src/Page/RunTests.antt =====
-- The example program on a library of two scanners, the second of which sends a small page.
use libsane_rs.Common.{
  ℕ, ◌≤◌, ◌<◌, ◌≡◌, refl, arith, true, none, some, List, [], ◌∷◌, ◌++◌, map, min, length, ◌==◌,
  ==_ne, if◌then◌else◌, ret, ok, err,
}
use libsane_rs.Common.Decimal.{show, parse_usize}
use libsane_rs.Common.Text.{text}
use libsane_rs.Common.Vec.{Env}
use libsane_rs.Sys.{Frame}
use libsane_rs.Parameters.{FrameParameters}
use libsane_rs.Errors.Samples.{codes}
use libsane_rs.Errors.Status.{status_result}
use libsane_rs.Calls.Api.{Api, null}
use libsane_rs.Calls.Access.{done}
use libsane_rs.Calls.Proxied.{
  sys_get_devices, sys_open, sys_close, sys_start, sys_set_io_mode, sys_get_parameters, with_value,
  non_null,
}
use libsane_rs.Enumerate.Description.{SysDevice}
use libsane_rs.Enumerate.Contents.{Proper}
use libsane_rs.Devices.Scanning.{library_of}
use libsane_rs.Decoder.Types.{gray}
use libsane_rs.Decoder.Image.{line_byte}
use libsane_rs.Decoder.Rows.{Fits}
use libsane_rs.Scan.Reader.{eof, int_max}
use libsane_rs.Scan.Session.{start_frame}
use libsane_rs.Scan.Feeding.{Feeds}
use libsane_rs.Page.Pam.{Files}
use libsane_rs.Page.PamFile.{Keeps}
use libsane_rs.Page.Prompt.{strip_cr}
use libsane_rs.Page.Choice.{typed}
use libsane_rs.Page.OneFrame.{Starts}
use libsane_rs.Page.Files.{FileShows}
use libsane_rs.Page.Scanning.{saved}
use libsane_rs.Page.Main.{main_ended, main}
use libsane_rs.Page.WholeRun.{main-gray}

abbrev scanner : ℕ → SysDevice
scanner c = record {
  name = record { bytes = c ∷ [] };
  vendor = record { bytes = [] };
  model = record { bytes = b'm' ∷ c ∷ [] };
  type_ = record { bytes = [] };
}

scanner-Proper : (c : ℕ) → 0 < c → Proper (scanner c)
scanner-Proper c h = record {
  name_non_nul = (h, tt);
  vendor_non_nul = tt;
  model_non_nul = (omega arith, (h, tt));
  type_non_nul = tt;
  small = omega arith;
}

-- One byte for each call, and then the end of the frame.
abbrev one_byte : List ℕ → ℕ → ℕ × List ℕ × ℕ × List ℕ
one_byte [] n = (5, [], 0, [])
one_byte (b ∷ bs) n = if n == 0 then (0, [], 0, b ∷ bs) else (0, b ∷ [], 1, bs)

-- The state is what the open device still sends.
abbrev library : Api ℕ (List ℕ)
library = record {
  codes = codes;
  bools = record { sys_false = 0; sys_true = 1 };
  sane_get_devices = λ l b. (0, some (some (scanner b'x') ∷ some (scanner b'y') ∷ none ∷ []), l);
  sane_open = λ l name. (0, some 7, 1 ∷ 2 ∷ 9 ∷ 3 ∷ 4 ∷ 9 ∷ []);
  sane_close = λ l h. [];
  sane_get_option_descriptor = λ l h i. (none, l);
  sane_control_option = λ l h i a m. (4, null, 0, l);
  sane_get_parameters = λ l h. (
    0,
    record {
      format = Frame.gray;
      last_frame = 1;
      bytes_per_line = 3;
      pixels_per_line = 2;
      lines = 2;
      depth = 8;
    },
    l,
  );
  sane_start = λ l h. (0, l);
  sane_read = λ l h n. one_byte l n;
  sane_cancel = λ l h. l;
  sane_set_io_mode = λ l h m. (0, l);
  sane_get_select_fd = λ l h. (1, 0, l);
}

abbrev left : List ℕ → List ℕ
left l = l

library-chunk :
    (l : List ℕ) (n : ℕ)
    → 0 < n
    → 0 < length (left l)
    → (bytes : List ℕ) × (l1 : List ℕ) × (0 < length bytes)
      × (length bytes ≤ n)
      × ((library_of library 7).read l n ≡ (ok bytes, l1))
      × (left l ≡ bytes ++ left l1)
unfolding library_of
library-chunk [] n pos some_left = absurd (omega arith)
library-chunk (b ∷ bs) n pos some_left =
    (b ∷ [], bs, omega arith, omega arith, rw (==_ne (min n int_max) 0 (omega arith)), refl)

library-last :
    (l : List ℕ) (n : ℕ)
    → 0 < n
    → left l ≡ []
    → (l1 : List ℕ) × ((library_of library 7).read l n ≡ (err eof, l1)) × (left l1 ≡ [])
unfolding library_of
library-last [] n pos none_left = ([], refl, refl)
library-last (b ∷ bs) n pos none_left = cc

library-Feeds : Feeds (library_of library 7).read left
library-Feeds = record { chunk = library-chunk; last = library-last }

abbrev params : FrameParameters
params = record {
  format = Frame.gray;
  last_frame = true;
  bytes_per_line = 3;
  pixels_per_line = 2;
  lines = some 2;
  depth = 8;
}

abbrev frame : List ℕ
frame = 1 ∷ 2 ∷ 9 ∷ 3 ∷ 4 ∷ 9 ∷ []

library-Starts : Starts (library_of library 7) left frame frame params 2 frame []
unfolding library_of start_frame sys_start sys_set_io_mode sys_get_parameters with_value
    status_result
library-Starts = record { started = refl; single = refl; known = refl; sends = refl }

frame-Fits : Fits frame params 2 2
frame-Fits = record {
  lined = record { size = refl; line = omega arith; row_fits = omega arith };
  small = omega arith;
  line32 = omega arith;
  wide = omega arith;
  deep = omega arith;
  depth32 = omega arith;
  agreed = refl;
}

abbrev disk : Files (List ℕ) (Unit {0})
disk = record { open_truncated = λ f. (ok tt, []); write_all = λ f bytes. (ok tt, f ++ bytes) }

abbrev content : List ℕ → List ℕ
content f = f

disk-Keeps : Keeps disk content
disk-Keeps = record { opens = λ f. ([], refl, refl); writes = λ f bytes. (f ++ bytes, refl, refl) }

abbrev env : Env
env = record { overflow_checks = true; slack = 0 }

-- The user types a word, and then the number of the second scanner.
main-gray_example :
    (l4 : List ℕ) × (g : List ℕ) × (printed : List ℕ) × (main library disk env true true 2 6 2
        (record {
          library = [];
          console = record {
            input = map typed ((text "y", []) ∷ []) ++ (typed (show 2, []) ∷ []);
            printed = [];
          };
          files = [];
        })
      ≡ done (
          ret (
            main_ended saved,
            record {
              library = sys_close library l4 7;
              console = record { input = []; printed = printed };
              files = g;
            },
          )))
    × (l4 ≡ [])
    × FileShows content g params 2 2 (gray 1) (line_byte frame params)
unfolding sys_get_devices sys_open non_null status_result parse_usize strip_cr
main-gray_example =
    main-gray library disk content disk-Keeps left 7 library-Feeds env true true 2 6 0 [] [] frame
      frame (scanner b'x' ∷ scanner b'y' ∷ []) 1 (scanner b'y') refl (omega arith) []
      ((text "y", []) ∷ []) [] [] [] [] refl
      (scanner-Proper b'x' (omega arith), (scanner-Proper b'y' (omega arith), tt))
      (((refl, tt), (refl, (refl, tt))), (((refl, tt), (refl, (refl, tt))), tt)) (omega arith)
      (((refl, tt), refl), tt) (omega arith) refl library-Starts (omega arith) refl refl
      (omega arith) frame-Fits
