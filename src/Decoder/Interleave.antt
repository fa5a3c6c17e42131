-- ===== src/Decoder/Interleave.antt =====
-- Pixels of a destination, and the bytes of three bands interleaved, for
-- `FrameDecoder::write_channel` of libsane/src/device/scan/frame_decoder.rs.
use libsane_rs.Common.{
  ℕ, zero, suc, ◌*◌, ◌≡◌, refl, sym, ap, ap₂, ◌∙◌, arith, some, List, [], ◌∷◌, ◌++◌, map, flatten,
  length, take, drop, get_elem?, All, length-map, length-take, length-drop, length-append,
  take-append-drop, append_assoc, map-append,
}
use libsane_rs.Common.Slice.{length-flatten}
use libsane_rs.Common.Vec.{MaybeUninit}
use libsane_rs.Decoder.Types.{Channel, red, green, blue}
use libsane_rs.Decoder.Pixels.{Pixel, Sized, in_memory, Has}
use libsane_rs.Decoder.Bands.{memory-All}

pub Channel-discrete : Discrete Channel
Channel-discrete = hlevel

-- Any destination of the right size is a list of pixels.
split_pixels : ℕ → ℕ → List MaybeUninit → List Pixel
split_pixels zero n l = []
split_pixels (suc k) n l =
    record { r = take n l; g = take n (drop n l); b = take n (drop n (drop n l)) }
    ∷ split_pixels k n (drop n (drop n (drop n l)))

-- `k` pixels of three times `n` bytes.
pub record Pixels (k n : ℕ) (l : List MaybeUninit) (ps : List Pixel) : Type 0 where
  pub memory : flatten (map in_memory ps) ≡ l
  pub count : length ps ≡ k
  pub sized : All (Sized n) ps

pub Pixels-length :
    (k n : ℕ) (l : List MaybeUninit) {ps : List Pixel} → Pixels k n l ps → length l ≡ k * (3 * n)
Pixels-length k n l {ps} x =
    ap length (sym x.memory)
    ∙ length-flatten (map in_memory ps) (3 * n) (memory-All n ps x.sized)
    ∙ ap (λ m. m * (3 * n)) (length-map in_memory ps ∙ x.count)

split_pixels-Pixels :
    (k n : ℕ) (l : List MaybeUninit) → length l ≡ k * (3 * n) → Pixels k n l (split_pixels k n l)
unfolding split_pixels flatten
split_pixels-Pixels zero n [] h = record { memory = refl; count = refl; sized = tt }
split_pixels-Pixels zero n (x ∷ l) h = absurd (omega arith)
split_pixels-Pixels (suc k) n l h =
    let l1 = drop n l in
    let l2 = drop n l1 in
    let l3 = drop n l2 in
    let rest =
      split_pixels-Pixels k n l3
        (omega (arith, length-drop n l, length-drop n l1, length-drop n l2)) in
    record {
      memory =
          ap (λ t. (take n l ++ (take n l1 ++ take n l2)) ++ t) rest.memory
          ∙ append_assoc (take n l) (take n l1 ++ take n l2) l3
          ∙ ap (λ t. take n l ++ t)
              (append_assoc (take n l1) (take n l2) l3
                ∙ ap (λ t. take n l1 ++ t) (take-append-drop n l2)
                ∙ take-append-drop n l1)
          ∙ take-append-drop n l;
      count = ap suc rest.count;
      sized = (
        record {
          red_size = omega (arith, length-take n l);
          green_size = omega (arith, length-take n l1, length-drop n l);
          blue_size = omega (arith, length-take n l2, length-drop n l, length-drop n l1);
        },
        rest.sized,
      );
    }

pub to_pixels :
    (k n : ℕ) (l : List MaybeUninit) → length l ≡ k * (3 * n) → (ps : List Pixel) × Pixels k n l ps
to_pixels k n l h = (split_pixels k n l, split_pixels-Pixels k n l h)

-- The pieces of three bands, pixel by pixel.
pub interleave : List (List ℕ) → List (List ℕ) → List (List ℕ) → List (List ℕ)
interleave [] gs bs = []
interleave (r ∷ rs) [] bs = []
interleave (r ∷ rs) (g ∷ gs) [] = []
interleave (r ∷ rs) (g ∷ gs) (b ∷ bs) = (r ++ (g ++ b)) ∷ interleave rs gs bs

-- Pixels that have all three bands are initialised, and hold the bands interleaved.
pub Has-interleave :
    (ps : List Pixel) (rs gs bs : List (List ℕ))
    → Has red ps rs
    → Has green ps gs
    → Has blue ps bs
    → flatten (map in_memory ps) ≡ map some (flatten (interleave rs gs bs))
unfolding interleave flatten
Has-interleave [] [] [] [] hr hg hb = refl
Has-interleave [] (r ∷ rs) gs bs hr hg hb = absurd hr
Has-interleave [] [] (g ∷ gs) bs hr hg hb = absurd hg
Has-interleave [] [] [] (b ∷ bs) hr hg hb = absurd hb
Has-interleave (p ∷ ps) [] gs bs hr hg hb = absurd hr
Has-interleave (p ∷ ps) (r ∷ rs) [] bs hr hg hb = absurd hg
Has-interleave (p ∷ ps) (r ∷ rs) (g ∷ gs) [] hr hg hb = absurd hb
Has-interleave (p ∷ ps) (r ∷ rs) (g ∷ gs) (b ∷ bs) hr hg hb =
    ap₂ ◌++◌
      (ap₂ ◌++◌ hr.0 (ap₂ ◌++◌ hg.0 hb.0 ∙ sym (map-append some g b))
        ∙ sym (map-append some r (g ++ b)))
      (Has-interleave ps rs gs bs hr.1 hg.1 hb.1)
    ∙ sym (map-append some (r ++ (g ++ b)) (flatten (interleave rs gs bs)))

pub get_elem?-interleave :
    (rs gs bs : List (List ℕ)) (j : ℕ) {r g b : List ℕ}
    → get_elem? rs j ≡ some r
    → get_elem? gs j ≡ some g
    → get_elem? bs j ≡ some b
    → get_elem? (interleave rs gs bs) j ≡ some (r ++ (g ++ b))
unfolding interleave
get_elem?-interleave [] gs bs j hr hg hb = cc
get_elem?-interleave (x ∷ rs) [] bs j hr hg hb = cc
get_elem?-interleave (x ∷ rs) (y ∷ gs) [] j hr hg hb = cc
get_elem?-interleave (x ∷ rs) (y ∷ gs) (z ∷ bs) zero hr hg hb = cc
get_elem?-interleave (x ∷ rs) (y ∷ gs) (z ∷ bs) (suc j) hr hg hb =
    get_elem?-interleave rs gs bs j hr hg hb

pub interleave-All :
    (n : ℕ) (rs gs bs : List (List ℕ))
    → All (λ x. length x ≡ n) rs
    → All (λ x. length x ≡ n) gs
    → All (λ x. length x ≡ n) bs
    → All (λ x. length x ≡ 3 * n) (interleave rs gs bs)
unfolding interleave
interleave-All n [] gs bs hr hg hb = tt
interleave-All n (r ∷ rs) [] bs hr hg hb = tt
interleave-All n (r ∷ rs) (g ∷ gs) [] hr hg hb = tt
interleave-All n (r ∷ rs) (g ∷ gs) (b ∷ bs) hr hg hb = (
  omega (arith, length-append r (g ++ b), length-append g b, hr.0, hg.0, hb.0),
  interleave-All n rs gs bs hr.1 hg.1 hb.1,
)
