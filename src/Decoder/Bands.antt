-- ===== src/Decoder/Bands.antt =====
-- One band of an image: the pieces that `write_channel` cuts a frame into, and that it puts them
-- into the pixels.
use native.Mathlib.Nat.{mul-div_cancel, le_refl}
use libsane_rs.Common.{
  ◌/◌, ℕ, ◌+◌, ◌*◌, ◌^◌, ◌≤◌, ◌<◌, ◌≡◌, sym, ap, ◌∙◌, arith, some, List, [], ◌∷◌, map, flatten,
  length, take, drop, get_elem?, All, All-map, All-append, ret, ◌>>=◌, length-map, length-take,
  get_elem?-map, get_elem?-take, get_elem?-drop, append-nil, drop_all,
}
use libsane_rs.Common.Iter.{of_list, flat_map, flat_map-of_list}
use libsane_rs.Common.Slice.{
  chunks, chunks_exact, chunks_exact-ret, slice_to, slice_to-ret, chunks-All, chunks-flatten,
  length-chunks, length-flatten, get_elem?-flatten, get_elem?-chunks,
}
use libsane_rs.Common.Vec.{Env, mul_usize, mul_at-ret}
use libsane_rs.Parameters.{FrameParameters}
use libsane_rs.Decoder.Types.{Channel, channel_index}
use libsane_rs.Decoder.Loops.{write_channel}
use libsane_rs.Decoder.Rows.{Fits, lines-All, chunks_exact-lines}
use libsane_rs.Decoder.Pixels.{
  Pixel, Sized, in_memory, length-in_memory, put_all, write_pixels-put_all,
}

-- The pieces of `n` bytes of the first `w` pixels of each of `h` lines.
unfoldable pub pieces : ℕ → ℕ → ℕ → ℕ → List ℕ → List (List ℕ)
pieces bytes_per_line w n h frame =
    flatten (map (λ l. chunks w n (take (w * n) l)) (chunks h bytes_per_line frame))

pub memory-All :
    (n : ℕ) (ps : List Pixel) → All (Sized n) ps → All (λ l. length l ≡ 3 * n) (map in_memory ps)
memory-All n [] h = tt
memory-All n (p ∷ ps) h = (length-in_memory n p h.0, memory-All n ps h.1)

cut_rows-All :
    (w n m : ℕ) (lines : List (List ℕ))
    → All (λ l. length l ≡ m) lines
    → All (λ r. length r ≡ w) (map (λ l. chunks w n (take (w * n) l)) lines)
cut_rows-All w n m [] h = tt
cut_rows-All w n m (l ∷ lines) h =
    (length-chunks w n (take (w * n) l), cut_rows-All w n m lines h.1)

pieces_in-All :
    (w n m : ℕ) (lines : List (List ℕ))
    → w * n ≤ m
    → All (λ l. length l ≡ m) lines
    → All (All (λ x. length x ≡ n)) (map (λ l. chunks w n (take (w * n) l)) lines)
pieces_in-All w n m [] fits h = tt
pieces_in-All w n m (l ∷ lines) fits h = (
  chunks-All w n (take (w * n) l) (omega (arith, length-take (w * n) l, h.0)),
  pieces_in-All w n m lines fits h.1,
)

flatten-All :
    (n : ℕ) (rows : List (List (List ℕ)))
    → All (All (λ x. length x ≡ n)) rows
    → All (λ x. length x ≡ n) (flatten rows)
unfolding flatten
flatten-All n [] h = tt
flatten-All n (r ∷ rows) h =
    All-append (λ x. length x ≡ n) r (flatten rows) (h.0, flatten-All n rows h.1)

module _ {frame : List ℕ} {p : FrameParameters} (w n h : ℕ) (pos : 0 < n)
    (f : Fits frame p (w * n) h) where
  abbrev cut : List ℕ → List (List ℕ)
  cut l = chunks w n (take (w * n) l)

  pub length-pieces : length (pieces p.bytes_per_line w n h frame) ≡ h * w
  unfolding pieces
  length-pieces =
      length-flatten _ w (cut_rows-All w n p.bytes_per_line _ (lines-All f.lined))
      ∙ ap (λ k. k * w)
          (length-map _ (chunks h p.bytes_per_line frame) ∙ length-chunks h p.bytes_per_line frame)

  -- Byte `k` of piece `i` of line `y`.
  pub get_elem?-piece :
      (y i k : ℕ)
      → y < h
      → i < w
      → k < n
      → (piece : List ℕ) × (get_elem? (pieces p.bytes_per_line w n h frame) (y * w + i)
          ≡ some piece)
        × (get_elem? piece k ≡ get_elem? frame (y * p.bytes_per_line + (i * n + k)))
  unfolding pieces
  get_elem?-piece y i k yh iw kn =
      let line = take p.bytes_per_line (drop (y * p.bytes_per_line) frame) in
      (
        take n (drop (i * n) (take (w * n) line)),
        get_elem?-flatten _ w y i (cut_rows-All w n p.bytes_per_line _ (lines-All f.lined))
              (get_elem?-map _ _ y (get_elem?-chunks h p.bytes_per_line frame y yh)) iw
            ∙ get_elem?-chunks w n (take (w * n) line) i iw,
        get_elem?-take n _ k kn
            ∙ get_elem?-drop (i * n) (take (w * n) line) k
            ∙ get_elem?-take (w * n) line (i * n + k) (grind arith)
            ∙ get_elem?-take p.bytes_per_line _ (i * n + k) (grind (arith, f.row_fits))
            ∙ get_elem?-drop (y * p.bytes_per_line) frame (i * n + k),
      )

  pub pieces-All : All (λ x. length x ≡ n) (pieces p.bytes_per_line w n h frame)
  unfolding pieces
  pieces-All = flatten-All n _ (pieces_in-All w n p.bytes_per_line _ f.row_fits (lines-All f.lined))

  -- The iterator of `write_channel` over the lines is the list of the pieces.
  piece_iter :
      (e : Env)
      → w * n < 2 ^ 64
      → flat_map
          (λ line. mul_usize e w n >>= λ k. slice_to k line >>= λ used. chunks_exact n used)
          (chunks h p.bytes_per_line frame)
        ≡ of_list (pieces p.bytes_per_line w n h frame)
  unfolding pieces
  piece_iter e small = flat_map-of_list _ cut _ (
      All-map (chunks h p.bytes_per_line frame)
        (λ l len.
          rw
            (
              mul_at-ret (2 ^ 64) e w n small,
              slice_to-ret (w * n) l (omega (arith, len, f.row_fits)),
            )
            (chunks_exact-ret w n (take (w * n) l) pos
              (omega (arith, length-take (w * n) l, len, f.row_fits))))
        (lines-All f.lined))

  -- Given the offset of channel `c`, `write_channel` puts the pieces of a frame that fits into the
  -- pixels that the destination is made of, one piece to a pixel, and changes nothing else of them.
  pub write_channel-put_all :
      (e : Env) (c : Channel) (ps : List Pixel)
      → n < 2 ^ 32
      → length ps ≡ h * w
      → All (Sized n) ps
      → write_channel e frame p.bytes_per_line w n
          (channel_index c * n)
          (flatten (map in_memory ps))
        ≡ ret (flatten (map in_memory (put_all c ps (pieces p.bytes_per_line w n h frame))))
  unfolding write_channel
  write_channel-put_all e c ps n32 len s =
      let mem = memory-All n ps s in
      let count : length (map in_memory ps) ≡ length ps = length-map in_memory ps in
      let size : length (flatten (map in_memory ps)) ≡ length ps * (3 * n) =
        length-flatten (map in_memory ps) (3 * n) mem ∙ ap (λ k. k * (3 * n)) count in
      let exact : length (flatten (map in_memory ps)) / (3 * n) * (3 * n)
          ≡ length (flatten (map in_memory ps)) =
        ap (λ l. l / (3 * n) * (3 * n)) size
        ∙ ap (λ k. k * (3 * n)) (mul-div_cancel (length ps) (omega arith))
        ∙ sym size in
      rw (chunks_exact-lines f.lined, mul_at-ret (2 ^ 64) e 3 n (omega arith))
        (rw
          (
            chunks_exact-ret (length ps) (3 * n) _ (omega arith) size,
            ← count,
            chunks-flatten (map in_memory ps) (3 * n) mem,
            piece_iter e (omega (arith, f.row_fits, f.line32)),
          )
          (rw (
            write_pixels-put_all n c ps _ s pieces-All,
            exact,
            drop_all _ _ (le_refl _),
            append-nil,
          )))
