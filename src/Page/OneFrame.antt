-- ===== src/Page/OneFrame.antt =====
-- The scan of a page that comes as one frame of known height, libsane/examples/scan_a_page.rs.
use libsane_rs.Common.{
  ℕ, suc, ◌+◌, ◌*◌, ◌/◌, ◌%◌, ◌≤◌, ◌≡◌, refl, sym, ap, subst, ◌∙◌, arith, Bool, true, false, ◌||◌,
  Option, some, List, [], ◌++◌, length, take, drop, length-append, Outcome, ret, ok, take-append,
  drop-append,
}
use native.Mathlib.Nat.{mul-le-mul_left}
use libsane_rs.Common.Vec.{Env, Vec, isize_max, clear}
use libsane_rs.Parameters.{FrameParameters}
use libsane_rs.Scan.Reader.{finished, read_full_frame}
use libsane_rs.Scan.Session.{Library, ScanReader, start_frame, next_frame}
use libsane_rs.Scan.Feeding.{Feeds, read_full_frame-known}
use libsane_rs.Decoder.Types.{FrameDecoder, DecodedImage, DecodedImageFormat, empty_vec}
use libsane_rs.Decoder.Write.{write}
use libsane_rs.Decoder.Image.{Completes, Shows}
use libsane_rs.Decoder.Rows.{Fits}
use libsane_rs.Page.Pam.{Files}
use libsane_rs.Page.PamReader.{read_pam}
use libsane_rs.Page.PamFile.{Keeps, SmallSamples, pam_of, write_pam_image-read_pam}
use libsane_rs.Page.Scanning.{saved, Scan, no_more, decoder_of_main, scan_loop, scan_to_file}

-- The device starts one frame, the last one, whose lines are known to be `h`; the bytes of it that
-- the library then has are `frame`, and `rest` behind them.
pub record Starts {L : Type 0} (lib : Library L) (remaining : L → List ℕ) (l l1 : L)
    (p : FrameParameters) (h : ℕ) (frame rest : List ℕ) : Type 0 where
  pub started : start_frame lib l ≡ (ok p, l1)
  pub single : p.last_frame ≡ true
  pub known : p.lines ≡ some h
  pub sends : remaining l1 ≡ frame ++ rest

append-cancel : (a b c d : List ℕ) → a ++ b ≡ c ++ d → length a ≡ length c → (a ≡ c) × (b ≡ d)
append-cancel a b c d e k = (
  sym (take-append (length c) a b k) ∙ ap (take (length c)) e ∙ take-append (length c) c d refl,
  sym (drop-append (length c) a b k) ∙ ap (drop (length c)) e ∙ drop-append (length c) c d refl,
)

or_last : (done last : Bool) → last ≡ true → (done || last) ≡ true
or_last true last h = refl
or_last false last h = h

-- The rows of an image fit an allocation, since the lines of the frame do.
pub rows_fit :
    {frame : List ℕ} {p : FrameParameters} {row h : ℕ}
    → Fits frame p row h
    → 0 + h * row ≤ isize_max
rows_fit {p = p} {row = row} {h = h} f =
    let k : h * row ≤ h * p.bytes_per_line = mul-le-mul_left h f.row_fits in
    omega (arith, k, f.size, f.small)

pub pixels_fit :
    {frame : List ℕ} {p : FrameParameters} {h : ℕ}
    → p.pixels_per_line % 8 ≡ 0
    → Fits frame p (p.pixels_per_line / 8) h
    → 0 + h * p.pixels_per_line ≤ isize_max
pixels_fit {p = p} {h = h} whole f =
    let k : h * (p.pixels_per_line / 8) ≤ h * p.bytes_per_line = mul-le-mul_left h f.row_fits in
    let eight : p.pixels_per_line ≡ p.pixels_per_line / 8 * 8 = omega arith in
    omega (arith, k, f.size, f.small, ap (λ t. h * t) eight)

module _ {L : Type 0} (lib : Library L) (remaining : L → List ℕ) (feeds : Feeds lib.read remaining)
    (e : Env) (debug : Bool) {l l1 : L} {p : FrameParameters} {h row : ℕ} {frame rest : List ℕ}
    (starts : Starts lib remaining l l1 p h frame rest) (f : Fits frame p row h) where
  size : length frame ≡ p.bytes_per_line * h
  size = f.size ∙ omega arith

  -- The frame is read as it is.
  frame_read :
      (reads : ℕ) (done : Bool) (v : Vec)
      → length frame ≤ reads
      → v.bytes ≡ []
      → (l2 : L) × (w : Vec) × (read_full_frame lib.read e debug reads l1 p false done v
          ≡ ret (finished, w, l2, done || p.last_frame))
        × (w.bytes ≡ frame)
        × (remaining l2 ≡ rest)
  frame_read reads done v enough empty =
      let count : length (remaining l1) ≡ length frame + length rest =
        ap length starts.sends ∙ length-append frame rest in
      let (bytes, l2, w, e1, same, len, left) =
        read_full_frame-known lib.read remaining feeds e debug reads h l1 p done v starts.known
          (omega (arith, size, f.small)) (omega (arith, size, count)) (omega (arith, size, enough))
          (omega (arith, size, f.small, ap length empty)) in
      let (first, others) =
        append-cancel bytes (remaining l2) frame rest (sym left ∙ starts.sends) (len ∙ sym size) in
      (l2, w, e1, same ∙ ap (λ b. b ++ bytes) empty ∙ first, others)

  next_round : ℕ → ℕ → L → Vec → FrameDecoder → Bool → Outcome (Scan × ScanReader L)
  next_round reads frames l2 w d' done =
      scan_loop lib e debug reads (suc frames) (record { device = l2; done = done }) w d'

  -- The loop makes two rounds: the frame, and the end of the scan.
  loop_ends :
      (reads frames : ℕ) (v : Vec) (d d' : FrameDecoder)
      → length frame ≤ reads
      → write e d frame p ≡ ret (ok tt, d')
      → (l2 : L) × (scan_loop lib e debug reads
            (suc (suc frames))
            (record { device = l; done = false })
            v
            d
          ≡ ret (no_more d', record { device = l2; done = true }))
        × (remaining l2 ≡ rest)
  unfolding scan_loop next_frame clear next_round
  loop_ends reads frames v d d' enough writes =
      let (l2, w, e1, same, left) = frame_read reads false (clear v) enough refl in
      (
        l2,
        rw (starts.started) (
            rw (e1) (
              rw (ap (λ b. write e d b p) same ∙ writes)
                (ap (next_round reads frames l2 w d') (or_last false p.last_frame starts.single)))),
        left,
      )

  -- The file shows the image that the decoder makes of the frame.
  pub file-Shows :
      {F Error : Type 0} (files : Files F Error) (content : F → List ℕ)
      (keeps : Keeps files content) (reads frames : ℕ) (file : F) (wide : ℕ)
      (format : DecodedImageFormat) (sample : ℕ → ℕ → Option ℕ)
      → length frame ≤ reads
      → SmallSamples format
      → Completes e decoder_of_main frame p wide h format sample
      → (image : DecodedImage) × (l2 : L) × (g : F) × (scan_to_file lib files e debug reads
            (suc (suc frames))
            l
            file
          ≡ ret (saved, record { device = l2; done = true }, g))
        × (read_pam (content g) ≡ some (pam_of image))
        × Shows [] p.pixels_per_line wide h format sample image
        × (remaining l2 ≡ rest)
  unfolding scan_to_file decoder_of_main
  file-Shows files content keeps reads frames file wide format sample enough small completes =
      let (d', image, writes, made, shows) = completes in
      let (l2, ends, left) = loop_ends reads frames empty_vec decoder_of_main d' enough writes in
      let (g, saves, reads_back) =
        write_pam_image-read_pam files content keeps e image file
          (subst SmallSamples (sym shows.formatted) small) in
      (image, l2, g, rw ends (rw made (rw saves)), reads_back, shows, left)
