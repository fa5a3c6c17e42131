-- ===== src/Decoder/Assembly.antt =====
-- Three bands put together by `write_channel`, given the offset of each channel inside a pixel.
use libsane_rs.Common.{
  ℕ, ◌+◌, ◌*◌, ◌^◌, ◌<◌, ◌≡◌, ◌⊎◌, inl, inr, refl, sym, subst, ap, ◌∙◌, arith, some, List, ◌++◌,
  map, flatten, length, get_elem?, All-at, ret, ◌>>=◌, length-map, get_elem?-append_left,
  get_elem?-append_right,
}
use libsane_rs.Common.Slice.{get_elem?-flatten}
use libsane_rs.Common.Vec.{Env, MaybeUninit}
use libsane_rs.Parameters.{FrameParameters}
use libsane_rs.Decoder.Types.{Channel, red, green, blue, channel_index}
use libsane_rs.Decoder.Loops.{write_channel}
use libsane_rs.Decoder.Rows.{Fits}
use libsane_rs.Decoder.Pixels.{
  Pixel, in_memory, Has, Has-put_all, Has-put_all_ne, put_all, length-put_all, put_all-Sized,
}
use libsane_rs.Decoder.Bands.{
  pieces, length-pieces, pieces-All, get_elem?-piece, write_channel-put_all,
}
use libsane_rs.Decoder.Interleave.{
  Channel-discrete, Pixels, Pixels-length, to_pixels, interleave, Has-interleave,
  get_elem?-interleave, interleave-All,
}

abbrev pick : Channel → List ℕ → List ℕ → List ℕ → List ℕ
pick red r g b = r
pick green r g b = g
pick blue r g b = b

pick-of : (f : Channel → List ℕ) (c : Channel) → pick c (f red) (f green) (f blue) ≡ f c
pick-of f red = refl
pick-of f green = refl
pick-of f blue = refl

inside : (n k : ℕ) (c : Channel) → k < n → channel_index c * n + k < 3 * n
inside n k red h = omega arith
inside n k green h = omega arith
inside n k blue h = omega arith

get_elem?-pick :
    (n k : ℕ) (c : Channel) (r g b : List ℕ)
    → length r ≡ n
    → length g ≡ n
    → length b ≡ n
    → k < n
    → get_elem? (r ++ (g ++ b)) (channel_index c * n + k) ≡ get_elem? (pick c r g b) k
get_elem?-pick n k red r g b hr hg hb h =
    ap (get_elem? (r ++ (g ++ b))) (omega arith) ∙ get_elem?-append_left r (g ++ b) k (omega arith)
get_elem?-pick n k green r g b hr hg hb h =
    get_elem?-append_right r (g ++ b) (1 * n + k) k (omega arith)
    ∙ get_elem?-append_left g b k (omega arith)
get_elem?-pick n k blue r g b hr hg hb h =
    get_elem?-append_right r (g ++ b) (2 * n + k) (n + k) (omega arith)
    ∙ get_elem?-append_right g b (n + k) k (omega arith)

module _ (w n h : ℕ) (pos : 0 < n) (n32 : n < 2 ^ 32) (frames : Channel → List ℕ)
    (params : Channel → FrameParameters)
    (fits : (c : Channel) → Fits (frames c) (params c) (w * n) h) where
  abbrev band : Channel → List (List ℕ)
  band c = pieces (params c).bytes_per_line w n h (frames c)

  length-band : (c : Channel) → length (band c) ≡ h * w
  length-band c = length-pieces w n h pos (fits c)

  -- One call of `write_channel`, on pixels.
  put_band :
      (e : Env) (c : Channel) {l : List MaybeUninit} {ps : List Pixel}
      → Pixels (h * w) n l ps
      → (l' : List MaybeUninit) × (write_channel e
            (frames c)
            (params c).bytes_per_line
            w
            n
            (channel_index c * n)
            l
          ≡ ret l')
        × Pixels (h * w) n l' (put_all c ps (band c))
  put_band e c {l} {ps} x = (
    flatten (map in_memory (put_all c ps (band c))),
    ap (write_channel e (frames c) (params c).bytes_per_line w n (channel_index c * n))
          (sym x.memory)
        ∙ write_channel-put_all w n h pos (fits c) e c ps n32 x.count x.sized,
    record {
      memory = refl;
      count = length-put_all c ps (band c) ∙ x.count;
      sized = put_all-Sized n c ps (band c) (pieces-All w n h pos (fits c)) x.sized;
    },
  )

  -- A call keeps the band that stands, unless it writes that channel anew.
  Has-put_band :
      (c k : Channel) (ps : List Pixel)
      → length ps ≡ h * w
      → (c ≡ k) ⊎ Has k ps (band k)
      → Has k (put_all c ps (band c)) (band k)
  Has-put_band c k ps len had = elim (Channel-discrete c k) [
    | yes e ↦
        subst (λ j. Has j (put_all c ps (band c)) (band j)) e
          (Has-put_all c ps (band c) (len ∙ sym (length-band c)))
    | no ne ↦ elim had [
      | inl e ↦ absurd (ne e)
      | inr has ↦ Has-put_all_ne c k ps (band c) (band k) ne has
    ]
  ]

  -- After three calls that cover the channels, each channel holds its band.
  Has-three :
      (c1 c2 c3 k : Channel) (ps : List Pixel)
      → length ps ≡ h * w
      → (c1 ≡ k) ⊎ ((c2 ≡ k) ⊎ (c3 ≡ k))
      → Has k (put_all c3 (put_all c2 (put_all c1 ps (band c1)) (band c2)) (band c3)) (band k)
  Has-three c1 c2 c3 k ps len cover =
      let one = put_all c1 ps (band c1) in
      let two = put_all c2 one (band c2) in
      let len1 : length one ≡ h * w = length-put_all c1 ps (band c1) ∙ len in
      let len2 : length two ≡ h * w = length-put_all c2 one (band c2) ∙ len1 in
      elim cover [
        | inl e ↦
            Has-put_band c3 k two len2
              (inr (Has-put_band c2 k one len1 (inr (Has-put_band c1 k ps len (inl e)))))
        | inr (inl e) ↦ Has-put_band c3 k two len2 (inr (Has-put_band c2 k one len1 (inl e)))
        | inr (inr e) ↦ Has-put_band c3 k two len2 (inl e)
      ]

  -- Byte `k` of channel `c` of pixel `i` in row `y` of the interleaved bands.
  interleave_sample :
      (y i : ℕ) (c : Channel) (k : ℕ)
      → y < h
      → i < w
      → k < n
      → get_elem?
          (flatten (interleave (band red) (band green) (band blue)))
          ((y * w + i) * (3 * n) + (channel_index c * n + k))
        ≡ get_elem? (frames c) (y * (params c).bytes_per_line + (i * n + k))
  interleave_sample y i c k yh iw kn =
      let at : (d : Channel)
          → (x : List ℕ) × (get_elem? (band d) (y * w + i) ≡ some x)
            × (get_elem? x k ≡ get_elem? (frames d) (y * (params d).bytes_per_line + (i * n + k))) =
        λ d. get_elem?-piece w n h pos (fits d) y i k yh iw kn in
      let sized : (d : Channel) → length (at d).0 ≡ n = λ d.
        All-at (λ x. length x ≡ n) (band d) (y * w + i) (pieces-All w n h pos (fits d)) (at d).1 in
      get_elem?-flatten _ (3 * n) (y * w + i) (channel_index c * n + k)
        (interleave-All n (band red) (band green) (band blue) (pieces-All w n h pos (fits red))
          (pieces-All w n h pos (fits green)) (pieces-All w n h pos (fits blue)))
        (get_elem?-interleave (band red) (band green) (band blue) (y * w + i) (at red).1
          (at green).1 (at blue).1)
        (inside n k c kn)
      ∙ get_elem?-pick n k c (at red).0 (at green).0 (at blue).0 (sized red) (sized green)
          (sized blue) kn
      ∙ ap (λ x. get_elem? x k) (pick-of (λ d. (at d).0) c)
      ∙ (at c).2

  -- Three calls of `write_channel`, one for each channel in any order, at offsets of 0, 1 and 2 times
  -- the bytes of a channel, initialise a destination of `h * w` pixels, whatever it held: byte `k` of
  -- channel `c` of pixel `i` in row `y` is byte `i * n + k` of line `y` of that channel's frame.
  pub write_channel-three :
      (e : Env) (c1 c2 c3 : Channel) (dst : List MaybeUninit)
      → ((k : Channel) → (c1 ≡ k) ⊎ ((c2 ≡ k) ⊎ (c3 ≡ k)))
      → length dst ≡ h * w * (3 * n)
      → (image : List ℕ) × ((write_channel e
              (frames c1)
              (params c1).bytes_per_line
              w
              n
              (channel_index c1 * n)
              dst
            >>= λ dst1.
                write_channel e
                  (frames c2)
                  (params c2).bytes_per_line
                  w
                  n
                  (channel_index c2 * n)
                  dst1
                >>= write_channel e
                    (frames c3)
                    (params c3).bytes_per_line
                    w
                    n
                    (channel_index c3 * n))
          ≡ ret (map some image))
        × (length image ≡ h * w * (3 * n))
        × ((y i : ℕ) (c : Channel) (k : ℕ)
            → y < h
            → i < w
            → k < n
            → get_elem? image ((y * w + i) * (3 * n) + (channel_index c * n + k))
              ≡ get_elem? (frames c) (y * (params c).bytes_per_line + (i * n + k)))
  write_channel-three e c1 c2 c3 dst cover len =
      let (ps, x) = to_pixels (h * w) n dst len in
      let (l1, e1, x1) = put_band e c1 x in
      let (l2, e2, x2) = put_band e c2 x1 in
      let (l3, e3, x3) = put_band e c3 x2 in
      let image = flatten (interleave (band red) (band green) (band blue)) in
      let all : l3 ≡ map some image =
        sym x3.memory
        ∙ Has-interleave _ _ _ _ (Has-three c1 c2 c3 red ps x.count (cover red))
            (Has-three c1 c2 c3 green ps x.count (cover green))
            (Has-three c1 c2 c3 blue ps x.count (cover blue)) in
      (
        image,
        rw (e1, e2) (e3 ∙ ap ret all),
        sym (length-map some image) ∙ ap length (sym all) ∙ Pixels-length (h * w) n l3 x3,
        interleave_sample,
      )
