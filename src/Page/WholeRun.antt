-- ===== src/Page/WholeRun.antt =====
-- A run of libsane/examples/scan_a_page.rs on a gray page, from the initialised library to the closed
-- device.
use libsane_rs.Common.{
  ℕ, zero, suc, ◌+◌, ◌*◌, ◌/◌, ◌%◌, ◌^◌, ◌≤◌, ◌<◌, ◌≡◌, refl, sym, ◌∙◌, subst, Bool, true, some,
  List, [], ◌∷◌, ◌++◌, map, length, get_elem?, All, All-at, ap, ret, ok,
}
use libsane_rs.Common.Decimal.{show}
use libsane_rs.Common.Text.{text, Console, print, println}
use libsane_rs.Common.Vec.{Env, isize_max}
use libsane_rs.Sys.{Frame}
use libsane_rs.Parameters.{FrameParameters}
use libsane_rs.Calls.Api.{Api}
use libsane_rs.Calls.Access.{done, with_sane, sane, reference}
use libsane_rs.Calls.Proxied.{sys_get_devices, sys_open, sys_close}
use libsane_rs.Enumerate.Description.{SysDevice, DeviceDescription}
use libsane_rs.Enumerate.Devices.{Pointers}
use libsane_rs.Enumerate.Contents.{Proper, Describes}
use libsane_rs.Enumerate.Copies.{DescribeAll, listing, get_devices-DescribeAll}
use libsane_rs.Devices.Handle.{connect_with, connected, drop_handle}
use libsane_rs.Devices.Scanning.{library_of}
use libsane_rs.Decoder.Types.{gray}
use libsane_rs.Decoder.Image.{line_byte}
use libsane_rs.Decoder.Rows.{Fits}
use libsane_rs.Scan.Feeding.{Feeds}
use libsane_rs.Page.Pam.{Files}
use libsane_rs.Page.PamFile.{Keeps}
use libsane_rs.Page.Prompt.{picked}
use libsane_rs.Page.Choice.{typed, Rejected}
use libsane_rs.Page.Listing.{
  question, listing_from, Printable, display-bytes, ask_for_device-picked,
}
use libsane_rs.Page.OneFrame.{Starts}
use libsane_rs.Page.Files.{FileShows, scan_to_file-gray}
use libsane_rs.Page.Scanning.{saved, scan_to_file}
use libsane_rs.Page.Main.{main_ended, on_devices, on_choice, on_device, main}

-- The description of a device in its place.
DescribeAll-at :
    (values : List SysDevice) (ds : List DeviceDescription) (i : ℕ) {value : SysDevice}
    → DescribeAll values ds
    → get_elem? values i ≡ some value
    → (d : DeviceDescription) × (get_elem? ds i ≡ some d) × Describes value d
DescribeAll-at [] ds i h at = cc
DescribeAll-at (v ∷ vs) [] i h at = absurd h
DescribeAll-at (v ∷ vs) (d ∷ ds) zero h at = (d, refl, subst (λ t. Describes t d) (same at) h.0)
  where
    same : {a b : SysDevice} → some a ≡ some b → a ≡ b
    same e = cc
DescribeAll-at (v ∷ vs) (d ∷ ds) (suc i) h at = DescribeAll-at vs ds i h.1 at

length-DescribeAll :
    (values : List SysDevice) (ds : List DeviceDescription)
    → DescribeAll values ds
    → length ds ≡ length values
length-DescribeAll [] [] h = refl
length-DescribeAll [] (d ∷ ds) h = absurd h
length-DescribeAll (v ∷ vs) [] h = absurd h
length-DescribeAll (v ∷ vs) (d ∷ ds) h = ap suc (length-DescribeAll vs ds h.1)

module _ {H L F Error : Type 0} (api : Api H L) (files : Files F Error) (e : Env)
    (debug signed : Bool) (asks reads frames : ℕ) where
  -- The drop closes the device.
  on_device-saved :
      (c : Console) (f g : F) (h : H) (l2 l4 : L)
      → scan_to_file (library_of api h) files e debug reads frames l2 f
        ≡ ret (saved, record { device = l4; done = true }, g)
      → on_device api files e debug signed asks reads frames c f
          (ok (record { inner = record { handle = h; sane = reference sane } }), l2)
        ≡ done (
            ret (main_ended saved, record { library = sys_close api l4 h; console = c; files = g }))
  unfolding on_device drop_handle with_sane
  on_device-saved c f g h l2 l4 ends = rw ends refl

  -- The device that was picked is opened by its name.
  on_choice-opened :
      (c : Console) (f : F) (h : H) (l1 l2 : L) (value : SysDevice) (d : DeviceDescription)
      → Describes value d
      → Proper value
      → Printable signed value
      → sys_open api debug l1 value.name ≡ ret (ok h, l2)
      → on_choice api files e debug signed asks reads frames l1 f (picked d, c)
        ≡ on_device api files e debug signed asks reads frames
            (println (text "Scanning with device " ++ value.name.bytes) c)
            f
            (ok (record { inner = record { handle = h; sane = reference sane } }), l2)
  unfolding on_choice connect_with connected with_sane
  on_choice-opened c f h l1 l2 value d reads_as proper printable opens =
      rw (reads_as.by_name, display-bytes signed value.name proper.name_non_nul printable.0)
        (rw opens refl)

module _ {H L F Error : Type 0} (api : Api H L) (files : Files F Error) (content : F → List ℕ)
    (keeps : Keeps files content) (remaining : L → List ℕ) (h : H)
    (feeds : Feeds (library_of api h).read remaining) (e : Env) (debug signed : Bool)
    (asks reads frames : ℕ) (l l1 l2 l3 : L) (values : List SysDevice) (i : ℕ) (value : SysDevice)
    (at : get_elem? values i ≡ some value) (small : i + 1 < 2 ^ 64) where
  -- The program, over a library that lists devices with proper and printable strings and opens the
  -- one that the user picks by its number, after lines that are no numbers in the list; the device
  -- sends one gray frame of known height, of whole bytes per pixel, three at most, whose lines hold
  -- their pixels, and the files keep what is written. It returns from `main` in every build, with the
  -- file saved and the device closed when the bytes behind the frame are left; the file is that of a
  -- grayscale image of the frame's size whose bytes are, row by row, the pixel bytes of each line.
  pub main-gray :
      (behind : Pointers) (bad : List (List ℕ × List ℕ)) (lost : List ℕ) (later : List (List ℕ))
      (out : List ℕ) (file : F) {p : FrameParameters} {lines : ℕ} {frame rest : List ℕ}
      → sys_get_devices api debug l true ≡ ret (ok (listing values behind), l1)
      → All Proper values
      → All (Printable signed) values
      → length values * 48 ≤ isize_max
      → All (Rejected (length values)) bad
      → length bad < asks
      → sys_open api debug l1 value.name ≡ ret (ok h, l2)
      → Starts (library_of api h) remaining l2 l3 p lines frame rest
      → length frame ≤ reads
      → p.format ≡ Frame.gray
      → p.depth % 8 ≡ 0
      → p.depth / 8 ≤ 3
      → Fits frame p (p.pixels_per_line * (p.depth / 8)) lines
      → (l4 : L) × (g : F) × (printed : List ℕ) × (main api files e debug signed asks reads
            (suc (suc frames))
            (record {
              library = l;
              console = record {
                input = map typed bad ++ (typed (show (i + 1), lost) ∷ later);
                printed = out;
              };
              files = file;
            })
          ≡ done (
              ret (
                main_ended saved,
                record {
                  library = sys_close api l4 h;
                  console = record { input = later; printed = printed };
                  files = g;
                },
              )))
        × (remaining l4 ≡ rest)
        × FileShows content g p
            (p.pixels_per_line * (p.depth / 8))
            lines
            (gray (p.depth / 8))
            (line_byte frame p)
  unfolding main on_devices println print
  main-gray behind bad lost later out file {p} {lines} {frame} {rest} listed proper printable room
        refused asked opens starts enough format bytewise deep fits =
      let (ds, as_vec, boxed, described) =
        get_devices-DescribeAll e (sys_get_devices api debug) l l1 true values behind listed proper
          room in
      let (d, at_d, reads_as) = DescribeAll-at values ds i described at in
      let (more, picks) =
        ask_for_device-picked signed values ds i d proper printable described at_d small asks bad
          lost later out
          (subst (λ n. All (Rejected n) bad) (sym (length-DescribeAll values ds described)) refused)
          asked in
      let said = out ++ ((question ++ listing_from 1 values) ++ more) in
      let (l4, g, ends, left, shows) =
        scan_to_file-gray (library_of api h) remaining feeds files content keeps e debug reads
          frames file starts enough format bytewise deep fits in
      (
        l4,
        g,
        said ++ ((text "Scanning with device " ++ value.name.bytes) ++ (b'\n' ∷ [])),
        rw boxed (
            rw picks (
              on_choice-opened api files e debug signed asks reads (suc (suc frames))
                (record { input = later; printed = said }) file h l1 l2 value d reads_as
                (All-at Proper values i proper at) (All-at (Printable signed) values i printable at)
                opens
              ∙ on_device-saved api files e debug signed asks reads (suc (suc frames))
                  (println (text "Scanning with device " ++ value.name.bytes)
                    (record { input = later; printed = said }))
                  file g h l2 l4 ends)),
        left,
        shows,
      )
