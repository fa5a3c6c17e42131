-- ===== src/Decoder/Pixels.antt =====
-- The spare capacity of the buffer while the bands of an image arrive: for each pixel the bytes of
-- its three channels, and what the loop of `write_channel` does to them.
use libsane_rs.Common.{
  ℕ, suc, ◌+◌, ◌*◌, ◌≤◌, ◌≡◌, ◌≢◌, refl, sym, ap, ap₂, ◌∙◌, arith, some, List, [], ◌∷◌, ◌++◌, map,
  length, take, drop, ==_refl, length-append, length-map, length-take, length-drop, take-append,
  drop-append, append_assoc, append-nil, ◌-◌, All, ret,
}
use libsane_rs.Common.Iter.{of_list}
use libsane_rs.Common.Slice.{slice, slice-ret}
use libsane_rs.Common.Vec.{MaybeUninit}
use libsane_rs.Decoder.Types.{Channel, red, green, blue, channel_index}
use libsane_rs.Decoder.Loops.{write_pixels}
use libsane_rs.Common.Vec.{copy_from_slice}

pub record Pixel : Type 0 where
  pub r : List MaybeUninit
  pub g : List MaybeUninit
  pub b : List MaybeUninit

-- The bytes of a pixel as they lie in memory.
abbrev pub in_memory : Pixel → List MaybeUninit
in_memory p = p.r ++ (p.g ++ p.b)

abbrev pub part : Channel → Pixel → List MaybeUninit
part red p = p.r
part green p = p.g
part blue p = p.b

abbrev pub put : Channel → List MaybeUninit → Pixel → Pixel
put red x p = record p { r = x }
put green x p = record p { g = x }
put blue x p = record p { b = x }

pub record Sized (n : ℕ) (p : Pixel) : Type 0 where
  pub red_size : length p.r ≡ n
  pub green_size : length p.g ≡ n
  pub blue_size : length p.b ≡ n

pub length-in_memory : (n : ℕ) (p : Pixel) → Sized n p → length (in_memory p) ≡ 3 * n
length-in_memory n p s = omega (arith, length-append p.r (p.g ++ p.b), length-append p.g p.b, s)

-- One band of pieces goes into the pixels.
abbrev pub put_all : Channel → List Pixel → List (List ℕ) → List Pixel
put_all c [] xs = []
put_all c (p ∷ ps) [] = p ∷ ps
put_all c (p ∷ ps) (x ∷ xs) = put c (map some x) p ∷ put_all c ps xs

-- Channel `c` of the pixels holds the pieces, all of them initialised.
abbrev pub Has : Channel → List Pixel → List (List ℕ) → Type 0
Has c [] [] = Unit
Has c [] (x ∷ xs) = ⊥
Has c (p ∷ ps) [] = ⊥
Has c (p ∷ ps) (x ∷ xs) = (part c p ≡ map some x) × Has c ps xs

part-put : (c : Channel) (x : List MaybeUninit) (p : Pixel) → part c (put c x p) ≡ x
part-put red x p = refl
part-put green x p = refl
part-put blue x p = refl

part-put_ne :
    (c k : Channel) (x : List MaybeUninit) (p : Pixel) → c ≢ k → part k (put c x p) ≡ part k p
part-put_ne red red x p h = absurd (h refl)
part-put_ne red green x p h = refl
part-put_ne red blue x p h = refl
part-put_ne green red x p h = refl
part-put_ne green green x p h = absurd (h refl)
part-put_ne green blue x p h = refl
part-put_ne blue red x p h = refl
part-put_ne blue green x p h = refl
part-put_ne blue blue x p h = absurd (h refl)

pub Has-put_all :
    (c : Channel) (ps : List Pixel) (xs : List (List ℕ))
    → length ps ≡ length xs
    → Has c (put_all c ps xs) xs
Has-put_all c [] [] h = tt
Has-put_all c [] (x ∷ xs) h = absurd (omega arith)
Has-put_all c (p ∷ ps) [] h = absurd (omega arith)
Has-put_all c (p ∷ ps) (x ∷ xs) h = (part-put c (map some x) p, Has-put_all c ps xs (omega arith))

pub Has-put_all_ne :
    (c k : Channel) (ps : List Pixel) (xs ys : List (List ℕ))
    → c ≢ k
    → Has k ps ys
    → Has k (put_all c ps xs) ys
Has-put_all_ne c k [] xs ys n h = h
Has-put_all_ne c k (p ∷ ps) [] ys n h = h
Has-put_all_ne c k (p ∷ ps) (x ∷ xs) [] n h = h
Has-put_all_ne c k (p ∷ ps) (x ∷ xs) (y ∷ ys) n h =
    (part-put_ne c k (map some x) p n ∙ h.0, Has-put_all_ne c k ps xs ys n h.1)

pub length-put_all :
    (c : Channel) (ps : List Pixel) (xs : List (List ℕ)) → length (put_all c ps xs) ≡ length ps
length-put_all c [] xs = refl
length-put_all c (p ∷ ps) [] = refl
length-put_all c (p ∷ ps) (x ∷ xs) = ap suc (length-put_all c ps xs)

put-Sized :
    (n : ℕ) (c : Channel) (x : List MaybeUninit) (p : Pixel)
    → length x ≡ n
    → Sized n p
    → Sized n (put c x p)
put-Sized n red x p h s = record {
  red_size = h;
  green_size = s.green_size;
  blue_size = s.blue_size;
}
put-Sized n green x p h s = record {
  red_size = s.red_size;
  green_size = h;
  blue_size = s.blue_size;
}
put-Sized n blue x p h s = record {
  red_size = s.red_size;
  green_size = s.green_size;
  blue_size = h;
}

pub put_all-Sized :
    (n : ℕ) (c : Channel) (ps : List Pixel) (xs : List (List ℕ))
    → All (λ x. length x ≡ n) xs
    → All (Sized n) ps
    → All (Sized n) (put_all c ps xs)
put_all-Sized n c [] xs h s = tt
put_all-Sized n c (p ∷ ps) [] h s = s
put_all-Sized n c (p ∷ ps) (x ∷ xs) h s =
    (put-Sized n c (map some x) p (length-map some x ∙ h.0) s.0, put_all-Sized n c ps xs h.1 s.1)

-- What the loop writes into one pixel: the range of the channel takes the piece.
patch : ℕ → ℕ → List MaybeUninit → List MaybeUninit → List MaybeUninit
patch from to x px = take from px ++ (x ++ drop to px)

patch-middle :
    (from to : ℕ) (a m z x : List MaybeUninit)
    → length a ≡ from
    → from + length m ≡ to
    → patch from to x (a ++ (m ++ z)) ≡ a ++ (x ++ z)
unfolding patch
patch-middle from to a m z x h k =
    ap₂ (λ l t. l ++ (x ++ t)) (take-append from a (m ++ z) h)
      (ap (drop to) (sym (append_assoc a m z))
        ∙ drop-append to (a ++ m) z (omega (arith, length-append a m)))

channel_index-le : (c : Channel) (n : ℕ) → channel_index c * n + n ≤ 3 * n
channel_index-le red n = omega arith
channel_index-le green n = omega arith
channel_index-le blue n = omega arith

patch-in_memory :
    (n : ℕ) (c : Channel) (x : List MaybeUninit) (p : Pixel)
    → Sized n p
    → patch (channel_index c * n) (channel_index c * n + n) x (in_memory p) ≡ in_memory (put c x p)
patch-in_memory n red x p s =
    patch-middle (0 * n) (0 * n + n) [] p.r (p.g ++ p.b) x (omega arith) (omega arith)
patch-in_memory n green x p s =
    patch-middle (1 * n) (1 * n + n) p.r p.g p.b x (omega arith) (omega arith)
patch-in_memory n blue x p s =
    ap (patch (2 * n) (2 * n + n) x) (split p.b)
    ∙ patch-middle (2 * n) (2 * n + n) (p.r ++ p.g) p.b [] x (omega (arith, length-append p.r p.g))
        (omega arith)
    ∙ sym (split x)
  where
    split : (t : List MaybeUninit) → p.r ++ (p.g ++ t) ≡ (p.r ++ p.g) ++ (t ++ [])
    split t = sym (append_assoc p.r p.g t) ∙ ap (λ l. (p.r ++ p.g) ++ l) (sym (append-nil t))

-- The range of a channel lies in the pixel and is as long as a piece.
channel_slice :
    (n : ℕ) (c : Channel) (p : Pixel)
    → Sized n p
    → (l : List MaybeUninit) × (slice (channel_index c * n) (channel_index c * n + n) (in_memory p)
        ≡ ret l)
      × (length l ≡ n)
channel_slice n c p s =
    let from : ℕ = channel_index c * n in
    let inside : from + n ≤ length (in_memory p) =
      omega (arith, length-in_memory n p s, channel_index-le c n) in
    (
      take (from + n - from) (drop from (in_memory p)),
      slice-ret from (from + n) (in_memory p) (omega arith) inside,
      omega (
        arith,
        length-take (from + n - from) (drop from (in_memory p)),
        length-drop from (in_memory p),
        inside,
      ),
    )

copy_from_slice-ret :
    (dst : List MaybeUninit) (src : List ℕ)
    → length dst ≡ length src
    → copy_from_slice dst src ≡ ret (map some src)
unfolding copy_from_slice
copy_from_slice-ret dst src h = rw (h, ==_refl (length src))

-- The loop puts the pieces of a band into the pixels, one each.
pub write_pixels-put_all :
    (n : ℕ) (c : Channel) (ps : List Pixel) (xs : List (List ℕ))
    → All (Sized n) ps
    → All (λ x. length x ≡ n) xs
    → write_pixels (channel_index c * n) (channel_index c * n + n) (map in_memory ps) (of_list xs)
      ≡ ret (map in_memory (put_all c ps xs))
unfolding write_pixels of_list patch
write_pixels-put_all n c [] xs s h = refl
write_pixels-put_all n c (p ∷ ps) [] s h =
    let (l, e, len) = channel_slice n c p s.0 in rw (e, write_pixels)
write_pixels-put_all n c (p ∷ ps) (x ∷ xs) s h =
    let (l, e, len) = channel_slice n c p s.0 in
    rw (e, write_pixels)
      (rw (copy_from_slice-ret l x (len ∙ sym h.0), write_pixels-put_all n c ps xs s.1 h.1)
        (ap (λ px. ret (px ∷ map in_memory (put_all c ps xs)))
          (patch-in_memory n c (map some x) p s.0)))
