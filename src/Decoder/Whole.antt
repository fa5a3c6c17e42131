-- ===== src/Decoder/Whole.antt =====
-- A frame that is a whole image, grayscale or rgb: which image `FrameDecoder::write` makes of it.
use libsane_rs.Common.{
  ℕ, ◌+◌, ◌*◌, ◌/◌, ◌%◌, ◌^◌, ◌≤◌, ◌≡◌, refl, ap, ◌∙◌, arith, List, [], ◌∷◌, ◌++◌, map, length,
  take, drop, Outcome, ret, ◌>>=◌, some, ==_ne, length-take,
}
use libsane_rs.Common.Iter.{of_list}
use libsane_rs.Common.Vec.{
  Env, Vec, MaybeUninit, isize_max, mul_usize, mul_at-ret, reserve_exact, write_spare, set_len,
  reserve_exact-Reserved, set_len-write_spare,
}
use libsane_rs.Sys.{Frame}
use libsane_rs.Parameters.{FrameParameters}
use libsane_rs.Decoder.Types.{FrameDecoder, initial, done, DecodedImage, gray, rgb, into_image}
use libsane_rs.Decoder.Loops.{copy}
use libsane_rs.Decoder.Branches.{copy_lines, write_gray, write_rgb}
use libsane_rs.Decoder.Write.{decode_by}
use libsane_rs.Decoder.Image.{Completes, append-Shows, line_byte}
use libsane_rs.Decoder.Rows.{
  Fits, write-decode_by, is_done-initial, whole_bytes, crop, length-crop, get_elem?-crop, row_bytes,
  chunks_exact-lines, area-lt, height-lt, mul-lt,
}

-- The copying loop fills a destination that is as long as its source.
pub copy-of_list :
    (f : ℕ → ℕ) (src : List ℕ) (dst : List MaybeUninit)
    → length dst ≡ length src
    → copy f (of_list src) dst ≡ ret (map some (map f src))
unfolding copy of_list
copy-of_list f [] [] h = refl
copy-of_list f [] (d ∷ dst) h = absurd (omega arith)
copy-of_list f (b ∷ src) [] h = absurd (omega arith)
copy-of_list f (b ∷ src) (d ∷ dst) h = rw (copy-of_list f src dst (omega arith))

map_id : (xs : List ℕ) → map (λ b. b) xs ≡ xs
map_id [] = refl
map_id (x ∷ xs) = ap (◌∷◌ x) (map_id xs)

-- Room is reserved, a loop fills it with `bs`, and the vector takes these bytes over.
pub append_bytes :
    (e : Env) (n : ℕ) (v : Vec) (body : List MaybeUninit → Outcome (List MaybeUninit)) (bs : List ℕ)
    → length v.bytes + n ≤ isize_max
    → length bs ≡ n
    → ((dst : List MaybeUninit) → length dst ≡ n → body dst ≡ ret (map some bs))
    → (w : Vec) × ((reserve_exact e n v >>= λ r. write_spare n body r >>= set_len n) ≡ ret w)
      × (w.bytes ≡ v.bytes ++ bs)
append_bytes e n v body bs room len fills =
    let (r, e1, res) = reserve_exact-Reserved e n v room in
    (
      record { bytes = r.bytes ++ bs; spare = drop n r.spare },
      rw e1 (
          set_len-write_spare n r body bs res.room len
            (fills (take n r.spare) (omega (arith, length-take n r.spare, res.room)))),
      ap (λ b. b ++ bs) res.same,
    )

module _ (e : Env) (v : Vec) {frame : List ℕ} {p : FrameParameters} {h : ℕ} (bpp : ℕ)
    (f : Fits frame p (p.pixels_per_line * bpp) h)
    (room : length v.bytes + h * (p.pixels_per_line * bpp) ≤ isize_max) where
  pub copy_lines-crop :
      (w : Vec) × (copy_lines e v frame p h bpp ≡ ret w)
      × (w.bytes ≡ v.bytes ++ crop p.bytes_per_line (p.pixels_per_line * bpp) h frame)
  unfolding copy_lines
  copy_lines-crop =
      let area : p.pixels_per_line * h * bpp ≡ h * (p.pixels_per_line * bpp) = omega arith in
      let size = length-crop f.lined in
      let (w, e1, e2) =
        append_bytes e (p.pixels_per_line * h * bpp) v
          (copy (λ b. b) (of_list (crop p.bytes_per_line (p.pixels_per_line * bpp) h frame)))
          (crop p.bytes_per_line (p.pixels_per_line * bpp) h frame) (omega arith) (omega arith)
          (λ dst len.
            rw
              (copy-of_list (λ b. b) (crop p.bytes_per_line (p.pixels_per_line * bpp) h frame) dst
                (omega arith))
              (ap (λ l. ret (map some l)) (map_id _))) in
      (
        w,
        rw (chunks_exact-lines f.lined) (
            rw
              (
                row_bytes f.lined (mul_usize e p.pixels_per_line bpp) (
                    mul_at-ret (2 ^ 64) e p.pixels_per_line bpp
                      (omega (arith, f.row_fits, f.line32))),
                mul_at-ret (2 ^ 64) e p.pixels_per_line h
                    (mul-lt p.pixels_per_line h f.wide (height-lt f)),
                mul_at-ret (2 ^ 64) e (p.pixels_per_line * h) bpp (omega (arith, area-lt f)),
              )
              e1),
        e2,
      )

module _ (e : Env) (d : FrameDecoder) {frame : List ℕ} {p : FrameParameters} {h : ℕ}
    (fresh : d.state ≡ initial) (bytewise : p.depth % 8 ≡ 0) where
  -- On a fresh decoder, `write` of a grayscale frame of whole bytes per pixel, whose lines hold their
  -- pixels and for which the buffer has room, succeeds in every build: the decoder is done with a
  -- grayscale image of the frame's size, whose bytes are what the buffer held and then, row by row,
  -- the pixel bytes of each line without the padding.
  pub write-gray :
      p.format ≡ Frame.gray
      → Fits frame p (p.pixels_per_line * (p.depth / 8)) h
      → length d.buffer.bytes + h * (p.pixels_per_line * (p.depth / 8)) ≤ isize_max
      → Completes e d frame p
          (p.pixels_per_line * (p.depth / 8))
          h
          (gray (p.depth / 8))
          (line_byte frame p)
  unfolding decode_by write_gray into_image
  write-gray fmt f room =
      let (w, e1, e2) = copy_lines-crop e d.buffer (p.depth / 8) f room in
      let image : DecodedImage = record {
        bytes = w.bytes;
        format = gray (p.depth / 8);
        width = p.pixels_per_line;
        height = h;
      } in
      (
        record d {
          buffer = w;
          width = p.pixels_per_line;
          height = h;
          state = done (gray (p.depth / 8));
        },
        image,
        write-decode_by e d (is_done-initial d fresh) f
            ∙ rw
                (fresh, fmt, decode_by, ==_ne p.depth 1 (omega arith), whole_bytes p.depth bytewise)
                (rw e1),
        refl,
        append-Shows d.buffer.bytes _ image e2 (length-crop f.lined) (get_elem?-crop f.lined) refl
            refl refl,
      )

  -- The same of an rgb frame, whose pixels take three times the bytes of a channel.
  pub write-rgb :
      p.format ≡ Frame.rgb
      → Fits frame p (p.pixels_per_line * (p.depth / 8 * 3)) h
      → length d.buffer.bytes + h * (p.pixels_per_line * (p.depth / 8 * 3)) ≤ isize_max
      → Completes e d frame p
          (p.pixels_per_line * (p.depth / 8 * 3))
          h
          (rgb (p.depth / 8))
          (line_byte frame p)
  unfolding decode_by write_rgb into_image
  write-rgb fmt f room =
      let (w, e1, e2) = copy_lines-crop e d.buffer (p.depth / 8 * 3) f room in
      let image : DecodedImage = record {
        bytes = w.bytes;
        format = rgb (p.depth / 8);
        width = p.pixels_per_line;
        height = h;
      } in
      (
        record d {
          buffer = w;
          width = p.pixels_per_line;
          height = h;
          state = done (rgb (p.depth / 8));
        },
        image,
        write-decode_by e d (is_done-initial d fresh) f
            ∙ rw
                (
                  fresh,
                  fmt,
                  decode_by,
                  whole_bytes p.depth bytewise,
                  mul_at-ret (2 ^ 32) e (p.depth / 8) 3 (omega (arith, f.depth32)),
                )
                (rw e1),
        refl,
        append-Shows d.buffer.bytes _ image e2 (length-crop f.lined) (get_elem?-crop f.lined) refl
            refl refl,
      )
