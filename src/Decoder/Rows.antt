-- ===== src/Decoder/Rows.antt =====
-- What the guards of `FrameDecoder::write` accept, and the rows that its loops then read.
use libsane_rs.Common.{
  ℕ, ◌+◌, ◌*◌, ◌/◌, ◌%◌, ◌^◌, ◌≤◌, ◌<◌, ◌≡◌, ap, ◌∙◌, arith, false, ==_ne, lt→ltb, List, [], ◌∷◌,
  map, flatten, length, take, get_elem?, All, All-map, Outcome, ret, ◌>>=◌, ok, Bool, true, bit_and,
  ◌==◌, length-take, length-map, get_elem?-take, get_elem?-drop, get_elem?-map,
}
use native.Mathlib.Nat.{mul-div_cancel, mul-mod_left}
use libsane_rs.Common.Iter.{of_list, flat_map, flat_map-of_list}
use libsane_rs.Common.Slice.{
  chunks, chunks_exact, slice_to, slice_to-ret, chunks-All, length-chunks, length-flatten,
  get_elem?-flatten, get_elem?-chunks,
}
use libsane_rs.Parameters.{FrameParameters}
use libsane_rs.Decoder.Types.{FrameDecoder, is_done, lines_differ, initial, rgb_parts}
use libsane_rs.Decoder.Write.{check_frame, write, decode, decode_by}
use libsane_rs.Common.Bits.{bit_and-seven}
use libsane_rs.Common.Vec.{Env}

-- A frame of `h` lines, each of which holds `row` bytes of pixels.
pub record Lined (frame : List ℕ) (p : FrameParameters) (row h : ℕ) : Type 0 where
  pub size : length frame ≡ h * p.bytes_per_line
  pub line : 0 < p.bytes_per_line
  pub row_fits : row ≤ p.bytes_per_line

-- Such a frame that agrees with its parameters, which are 32-bit numbers.
pub record Fits (frame : List ℕ) (p : FrameParameters) (row h : ℕ) : Type 0 where
  pub lined : Lined frame p row h
  pub open lined use *
  pub small : length frame < 2 ^ 32
  pub line32 : p.bytes_per_line < 2 ^ 32
  pub wide : p.pixels_per_line < 2 ^ 32
  pub deep : 0 < p.depth
  pub depth32 : p.depth < 2 ^ 32
  pub agreed : lines_differ p.lines h ≡ false

-- The guards let a frame that fits through, with the height of the frame.
pub check_frame-ok :
    (d : FrameDecoder) {frame : List ℕ} {p : FrameParameters} {row h : ℕ}
    → is_done d ≡ false
    → Fits frame p row h
    → check_frame d frame p ≡ ret (ok h)
unfolding check_frame
check_frame-ok d {frame} {p} {row} {h} fresh f =
    let height : length frame / p.bytes_per_line ≡ h =
      ap (λ l. l / p.bytes_per_line) f.size ∙ mul-div_cancel h f.line in
    let whole : length frame % p.bytes_per_line ≡ 0 =
      ap (λ l. l % p.bytes_per_line) f.size ∙ mul-mod_left h p.bytes_per_line in
    rw (
      fresh,
      ==_ne p.depth 0 (omega arith),
      lt→ltb _ _ f.small,
      ==_ne p.bytes_per_line 0 (omega arith),
      whole,
      height,
      f.agreed,
    )

-- So `write` goes on with the state and the format.
pub write-decode_by :
    (e : Env) (d : FrameDecoder) {frame : List ℕ} {p : FrameParameters} {row h : ℕ}
    → is_done d ≡ false
    → Fits frame p row h
    → write e d frame p ≡ decode_by e d frame p h d.state p.format
unfolding write decode
write-decode_by e d fresh f = rw (check_frame-ok d fresh f)

pub is_done-initial : (d : FrameDecoder) → d.state ≡ initial → is_done d ≡ false
unfolding is_done
is_done-initial d h = rw h

pub is_done-rgb_parts :
    (d : FrameDecoder) {n : ℕ} {r g b : Bool} → d.state ≡ rgb_parts n r g b → is_done d ≡ false
unfolding is_done
is_done-rgb_parts d h = rw h

-- The test of the code for whole bytes.
pub whole_bytes : (n : ℕ) → n % 8 ≡ 0 → (bit_and n 7 == 0) ≡ true
whole_bytes n h = rw (bit_and-seven, h)

-- The first `row` bytes of each of `h` lines.
unfoldable pub crop : ℕ → ℕ → ℕ → List ℕ → List ℕ
crop bytes_per_line row h frame = flatten (map (take row) (chunks h bytes_per_line frame))

take-All :
    (row n : ℕ) (lines : List (List ℕ))
    → row ≤ n
    → All (λ l. length l ≡ n) lines
    → All (λ l. length l ≡ row) (map (take row) lines)
take-All row n [] h a = tt
take-All row n (l ∷ lines) h a = (omega (arith, length-take row l, a.0), take-All row n lines h a.1)

module _ {frame : List ℕ} {p : FrameParameters} {row h : ℕ} (f : Lined frame p row h) where
  pub lines-All : All (λ l. length l ≡ p.bytes_per_line) (chunks h p.bytes_per_line frame)
  lines-All = chunks-All h p.bytes_per_line frame (omega (arith, f.size))

  rows-All : All (λ l. length l ≡ row) (map (take row) (chunks h p.bytes_per_line frame))
  rows-All = take-All row p.bytes_per_line _ f.row_fits lines-All

  pub length-crop : length (crop p.bytes_per_line row h frame) ≡ h * row
  unfolding crop
  length-crop =
      length-flatten _ row rows-All
      ∙ ap (λ n. n * row) (length-map (take row) _ ∙ length-chunks h p.bytes_per_line frame)

  -- Byte `x` of row `y` is byte `x` of line `y`.
  pub get_elem?-crop :
      (y x : ℕ)
      → y < h
      → x < row
      → get_elem? (crop p.bytes_per_line row h frame) (y * row + x)
        ≡ get_elem? frame (y * p.bytes_per_line + x)
  unfolding crop
  get_elem?-crop y x yh xr =
      get_elem?-flatten _ row y x rows-All
        (get_elem?-map (take row) _ y (get_elem?-chunks h p.bytes_per_line frame y yh)) xr
      ∙ get_elem?-take row _ x xr
      ∙ get_elem?-take p.bytes_per_line _ x (omega (arith, f.row_fits))
      ∙ get_elem?-drop (y * p.bytes_per_line) frame x

  -- The iterator over the rows is the list of their bytes.
  pub row_bytes :
      (n : Outcome ℕ)
      → n ≡ ret row
      → flat_map (λ line. n >>= λ k. slice_to k line) (chunks h p.bytes_per_line frame)
        ≡ of_list (crop p.bytes_per_line row h frame)
  unfolding crop
  row_bytes n e = flat_map-of_list _ (take row) _ (
      All-map (chunks h p.bytes_per_line frame)
        (λ l len. rw e (slice_to-ret row l (omega (arith, len, f.row_fits)))) lines-All)

  pub chunks_exact-lines :
      chunks_exact p.bytes_per_line frame ≡ ret (chunks h p.bytes_per_line frame)
  unfolding chunks_exact
  chunks_exact-lines = rw (==_ne p.bytes_per_line 0 (omega (arith, f.line))) (
      ap (λ k. ret (chunks k p.bytes_per_line frame))
        (ap (λ l. l / p.bytes_per_line) f.size ∙ mul-div_cancel h f.line))

module _ {frame : List ℕ} {p : FrameParameters} {row h : ℕ} (f : Fits frame p row h) where
  -- Rows that fit into their lines are fewer bytes than the frame, so no product of the sizes wraps.
  pub area-lt : h * row < 2 ^ 32
  area-lt = grind (arith, f.size, f.small, f.row_fits)

  -- The height is at most the number of bytes, so it is a `u32` as well.
  pub height-lt : h < 2 ^ 32
  height-lt = grind (arith, f.size, f.small, f.line)

module _ {frame : List ℕ} {p : FrameParameters} {row h : ℕ} (f : Lined frame p row h) where
  -- A byte of a row stands inside the frame.
  pub index-lt : (y x : ℕ) → y < h → x < row → y * p.bytes_per_line + x < length frame
  index-lt y x yh xr = grind (arith, f.size, f.row_fits)

-- A width of whole bytes: an eighth of the pixels is the rows of an eighth of the width.
pub eighths : (w h : ℕ) → w % 8 ≡ 0 → w * h / 8 ≡ h * (w / 8)
eighths w h e =
    let k : w ≡ w / 8 * 8 = omega arith in
    let area : w * h ≡ h * (w / 8) * 8 = omega (arith, ap (λ t. t * h) k) in
    ap (λ n. n / 8) area ∙ mul-div_cancel (h * (w / 8)) (omega arith)

-- Two numbers of 32 bits have a product of 64.
pub mul-lt : (a b : ℕ) → a < 2 ^ 32 → b < 2 ^ 32 → a * b < 2 ^ 64
mul-lt a b h k = grind arith
