-- ===== src/Decoder/Bilevel.antt =====
-- A black and white frame, packed or as one byte per pixel: which image `FrameDecoder::write` makes.
use mathlib.Core.Option
use libsane_rs.Common.{
  ℕ, ◌+◌, ◌-◌, ◌*◌, ◌/◌, ◌%◌, ◌^◌, ◌≤◌, ◌<◌, ◌≡◌, refl, sym, ap, ◌∙◌, arith, true, false, List, [],
  ◌++◌, map, flatten, length, take, drop, get_elem?, All, All-get_elem?, Outcome, ret, >>=-continue,
  ok, some, length-take, length-map, get_elem?-map_option,
}
use libsane_rs.Common.Iter.{Iter, of_list}
use libsane_rs.Common.Vec.{
  Env, Vec, MaybeUninit, isize_max, mul_at-ret, write_spare, set_len, reserve_exact-Reserved,
  set_len-write_spare,
}
use libsane_rs.Sys.{Frame}
use libsane_rs.Parameters.{FrameParameters}
use libsane_rs.Decoder.Types.{
  FrameDecoder, initial, done, DecodedImage, black_and_white, into_image,
}
use libsane_rs.Decoder.Loops.{copy, unpack_bytes}
use libsane_rs.Decoder.Branches.{write_bits, write_black_and_white}
use libsane_rs.Decoder.Write.{write, decode_by}
use libsane_rs.Decoder.Image.{Completes, append-Shows, line_byte}
use libsane_rs.Decoder.Rows.{
  Fits, write-decode_by, is_done-initial, whole_bytes, crop, length-crop, get_elem?-crop, row_bytes,
  chunks_exact-lines, height-lt, mul-lt, eighths, index-lt,
}
use libsane_rs.Decoder.Whole.{copy-of_list}
use libsane_rs.Decoder.Unpack.{
  bits, length-bits, get_elem?-bits, unpack_bytes-of_list, black, pixel_of-black,
}

-- Either loop over the rows of a frame that fits: the buffer takes over what the loop has written.
write_bits-bytes :
    (e : Env) (d : FrameDecoder) {frame : List ℕ} {p : FrameParameters} {h : ℕ} (n : ℕ)
    (loop : Iter ℕ → List MaybeUninit → Outcome (List MaybeUninit)) (bs : List ℕ)
    → Fits frame p (p.pixels_per_line / 8) h
    → length d.buffer.bytes + n ≤ isize_max
    → length bs ≡ n
    → ((dst : List MaybeUninit)
        → length dst ≡ n
        → loop (of_list (crop p.bytes_per_line (p.pixels_per_line / 8) h frame)) dst
          ≡ ret (map some bs))
    → (w : Vec) × (write_bits e d frame p h n loop
        ≡ ret (
          ok tt,
          record d {
            buffer = w;
            width = p.pixels_per_line;
            height = h;
            state = done black_and_white;
          },
        ))
      × (w.bytes ≡ d.buffer.bytes ++ bs)
unfolding write_bits
write_bits-bytes e d {frame} {p} {h} n loop bs f room len fills =
    let it = of_list (crop p.bytes_per_line (p.pixels_per_line / 8) h frame) in
    let (r, e1, res) = reserve_exact-Reserved e n d.buffer room in
    (
      record { bytes = r.bytes ++ bs; spare = drop n r.spare },
      rw e1 (
          rw (chunks_exact-lines f.lined) (
            rw (row_bytes f.lined (ret (p.pixels_per_line / 8)) refl) (
              >>=-continue (write_spare n (loop it) r) (set_len n)
                (λ v. ret (
                  ok tt,
                  record d {
                    buffer = v;
                    width = p.pixels_per_line;
                    height = h;
                    state = done black_and_white;
                  },
                ))
                (set_len-write_spare n r (loop it) bs res.room len
                  (fills (take n r.spare) (omega (arith, length-take n r.spare, res.room))))))),
      ap (λ b. b ++ bs) res.same,
    )

module _ (e : Env) (d : FrameDecoder) {frame : List ℕ} {p : FrameParameters} {h : ℕ}
    (fresh : d.state ≡ initial) (bilevel : (p.format ≡ Frame.gray) × (p.depth ≡ 1))
    (whole : p.pixels_per_line % 8 ≡ 0) (f : Fits frame p (p.pixels_per_line / 8) h) where
  -- The branch that such a frame takes.
  to_packed :
      d.black_and_white_as_bytes ≡ false
      → write e d frame p
        ≡ write_bits e d frame p h (p.pixels_per_line * h / 8) (copy (λ b. 255 - b))
  unfolding decode_by write_black_and_white
  to_packed packed =
      write-decode_by e d (is_done-initial d fresh) f
      ∙ rw
          (
            fresh,
            bilevel.0,
            decode_by,
            bilevel.1,
            whole_bytes p.pixels_per_line whole,
            mul_at-ret (2 ^ 64) e p.pixels_per_line h
                (mul-lt p.pixels_per_line h f.wide (height-lt f)),
          )
          (rw packed)

  to_as_bytes :
      d.black_and_white_as_bytes ≡ true
      → write e d frame p ≡ write_bits e d frame p h (p.pixels_per_line * h) (unpack_bytes 0)
  unfolding decode_by write_black_and_white
  to_as_bytes unpacked =
      write-decode_by e d (is_done-initial d fresh) f
      ∙ rw
          (
            fresh,
            bilevel.0,
            decode_by,
            bilevel.1,
            whole_bytes p.pixels_per_line whole,
            mul_at-ret (2 ^ 64) e p.pixels_per_line h
                (mul-lt p.pixels_per_line h f.wide (height-lt f)),
          )
          (rw unpacked)

  -- A pixel of the unpacked rows.
  unpacked_pixel :
      All (λ b. b < 256) frame
      → (y x : ℕ) → y < h
      → x < p.pixels_per_line
      → get_elem?
          (flatten (map bits (crop p.bytes_per_line (p.pixels_per_line / 8) h frame)))
          (y * p.pixels_per_line + x)
        ≡ Option.map (λ b. 1 - black b (x % 8)) (line_byte frame p y (x / 8))
  unpacked_pixel bytes y x yh xr =
      let q : ℕ = y * (p.pixels_per_line / 8) + x / 8 in
      let k : p.pixels_per_line ≡ p.pixels_per_line / 8 * 8 = omega arith in
      let at : y * p.pixels_per_line + x ≡ q * 8 + x % 8 = omega (arith, ap (λ t. y * t) k) in
      let (b, e1, small) =
        All-get_elem? frame (y * p.bytes_per_line + x / 8) bytes
          (index-lt f.lined y (x / 8) yh (omega arith)) in
      rw
        (
          at,
          get_elem?-bits _ q (x % 8) (get_elem?-crop f.lined y (x / 8) yh (omega arith) ∙ e1)
              (omega arith),
          e1,
        )
        (ap some (pixel_of-black b (x % 8) small (omega arith)))

  -- A fresh decoder that is not told otherwise makes of a black and white frame a packed image, in
  -- every build: behind what the buffer held, byte `x` of row `y` is the complement of byte `x` of
  -- line `y`, so that a pixel is 1 where the scanner sent 0.
  pub write-packed :
      d.black_and_white_as_bytes ≡ false
      → length d.buffer.bytes + h * (p.pixels_per_line / 8) ≤ isize_max
      → Completes e d frame p
          (p.pixels_per_line / 8)
          h
          black_and_white
          (λ y x. Option.map (λ b. 255 - b) (line_byte frame p y x))
  unfolding into_image
  write-packed packed room =
      let src = crop p.bytes_per_line (p.pixels_per_line / 8) h frame in
      let area : p.pixels_per_line * h / 8 ≡ h * (p.pixels_per_line / 8) =
        eighths p.pixels_per_line h whole in
      let (w, e1, e2) =
        write_bits-bytes e d (p.pixels_per_line * h / 8) (copy (λ b. 255 - b))
          (map (λ b. 255 - b) src) f (omega arith)
          (length-map _ src ∙ length-crop f.lined ∙ sym area)
          (λ dst len. copy-of_list (λ b. 255 - b) src dst (omega (arith, length-crop f.lined))) in
      let image : DecodedImage = record {
        bytes = w.bytes;
        format = black_and_white;
        width = p.pixels_per_line;
        height = h;
      } in
      (
        record d {
          buffer = w;
          width = p.pixels_per_line;
          height = h;
          state = done black_and_white;
        },
        image,
        to_packed packed ∙ e1,
        refl,
        append-Shows d.buffer.bytes _ image e2 (length-map _ src ∙ length-crop f.lined)
            (λ y x yh xr.
              get_elem?-map_option (λ b. 255 - b) src (y * (p.pixels_per_line / 8) + x)
              ∙ ap (Option.map (λ b. 255 - b)) (get_elem?-crop f.lined y x yh xr))
            refl refl refl,
      )

  -- A fresh decoder that is told to store a byte per pixel does so, in every build: behind what the
  -- buffer held, pixel `x` of row `y` is 0 where bit `x % 8`, from the top, of byte `x / 8` of line
  -- `y` is set, and else 1.
  pub write-as_bytes :
      d.black_and_white_as_bytes ≡ true
      → All (λ b. b < 256) frame
      → length d.buffer.bytes + h * p.pixels_per_line ≤ isize_max
      → Completes e d frame p p.pixels_per_line h black_and_white
          (λ y x. Option.map (λ b. 1 - black b (x % 8)) (line_byte frame p y (x / 8)))
  unfolding into_image
  write-as_bytes unpacked bytes room =
      let src = crop p.bytes_per_line (p.pixels_per_line / 8) h frame in
      let k : p.pixels_per_line ≡ p.pixels_per_line / 8 * 8 = omega arith in
      let area : h * (p.pixels_per_line / 8) * 8 ≡ h * p.pixels_per_line =
        omega (arith, ap (λ t. h * t) k) in
      let len : length (flatten (map bits src)) ≡ h * p.pixels_per_line =
        length-bits src ∙ ap (λ n. n * 8) (length-crop f.lined) ∙ area in
      let (w, e1, e2) =
        write_bits-bytes e d (p.pixels_per_line * h) (unpack_bytes 0) (flatten (map bits src)) f
          (omega arith) (omega (arith, len))
          (λ dst l. unpack_bytes-of_list 0 src [] dst refl (omega (arith, length-crop f.lined))) in
      let image : DecodedImage = record {
        bytes = w.bytes;
        format = black_and_white;
        width = p.pixels_per_line;
        height = h;
      } in
      (
        record d {
          buffer = w;
          width = p.pixels_per_line;
          height = h;
          state = done black_and_white;
        },
        image,
        to_as_bytes unpacked ∙ e1,
        refl,
        append-Shows d.buffer.bytes _ image e2 len (unpacked_pixel bytes) refl refl refl,
      )
