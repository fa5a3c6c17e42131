-- ===== src/Decoder/Unpack.antt =====
-- The loop of `FrameDecoder::write` that turns the bits of a black and white frame into bytes.
use native.Mathlib.Nat.{add-zero}
use libsane_rs.Common.{
  if◌then◌else◌, false, ℕ, zero, suc, ◌+◌, ◌-◌, ◌*◌, ◌/◌, ◌%◌, ◌^◌, ◌≤◌, ◌<◌, ◌≡◌, refl, sym, ap,
  ◌∙◌, arith, Bool, true, List, [], ◌∷◌, ◌++◌, map, flatten, append_assoc, map-append, length, drop,
  set, get_elem?, All, ret, some, ◌==◌, ==_iff, lt→ltb, length-append, length-drop, length-map,
  get_elem?-map,
}
use libsane_rs.Common.Iter.{of_list}
use libsane_rs.Common.Slice.{length-flatten, get_elem?-flatten}
use libsane_rs.Common.Vec.{MaybeUninit}
use libsane_rs.Decoder.Loops.{pixel_of, unpack_byte, unpack_bytes}

-- The `k` pixels of a byte from pixel `j` on.
pub bits_from : ℕ → ℕ → ℕ → List ℕ
bits_from zero j byte = []
bits_from (suc k) j byte = pixel_of byte j ∷ bits_from k (j + 1) byte

set-append :
    (pre : List MaybeUninit) (x : MaybeUninit) (rest : List MaybeUninit) (n : ℕ) (v : MaybeUninit)
    → length pre ≡ n
    → set (pre ++ x ∷ rest) n v ≡ pre ++ v ∷ rest
set-append [] x rest zero v h = refl
set-append [] x rest (suc n) v h = absurd (omega arith)
set-append (y ∷ pre) x rest zero v h = absurd (omega arith)
set-append (y ∷ pre) x rest (suc n) v h = ap (◌∷◌ y) (set-append pre x rest n v (omega arith))

-- The inner loop writes its pixels behind those that stand, and leaves the rest.
unpack_byte-bits_from :
    (k j i byte : ℕ) (pre rest : List MaybeUninit)
    → length pre ≡ 8 * i + j
    → k ≤ length rest
    → unpack_byte k j i byte (pre ++ rest)
      ≡ ret (pre ++ (map some (bits_from k j byte) ++ drop k rest))
unfolding unpack_byte bits_from
unpack_byte-bits_from zero j i byte pre rest e h = refl
unpack_byte-bits_from (suc k) j i byte pre [] e h = absurd (omega arith)
unpack_byte-bits_from (suc k) j i byte pre (x ∷ rest) e h =
    rw
      (
        lt→ltb (8 * i + j) (length (pre ++ x ∷ rest)) (omega (arith, length-append pre (x ∷ rest))),
        set-append pre x rest (8 * i + j) (some (pixel_of byte j)) e,
      )
      (ap (unpack_byte k (j + 1) i byte) (sym (append_assoc pre (some (pixel_of byte j) ∷ []) rest))
        ∙ unpack_byte-bits_from k (j + 1) i byte (pre ++ (some (pixel_of byte j) ∷ [])) rest
            (omega (arith, length-append pre (some (pixel_of byte j) ∷ []))) (omega arith)
        ∙ ap ret (append_assoc pre (some (pixel_of byte j) ∷ []) _))

abbrev pub bits : ℕ → List ℕ
bits byte = bits_from 8 0 byte

pub length-bits_from : (k j byte : ℕ) → length (bits_from k j byte) ≡ k
unfolding bits_from
length-bits_from zero j byte = refl
length-bits_from (suc k) j byte = ap suc (length-bits_from k (j + 1) byte)

pub bits-All : (bs : List ℕ) → All (λ l. length l ≡ 8) (map bits bs)
bits-All [] = tt
bits-All (b ∷ bs) = (length-bits_from 8 0 b, bits-All bs)

add_one_add : (j r : ℕ) → j + 1 + r ≡ j + suc r
add_one_add j r = omega arith

pub get_elem?-bits_from :
    (k j byte r : ℕ) → r < k → get_elem? (bits_from k j byte) r ≡ some (pixel_of byte (j + r))
unfolding bits_from
get_elem?-bits_from zero j byte r h = absurd (omega arith)
get_elem?-bits_from (suc k) j byte zero h = ap (λ m. some (pixel_of byte m)) (sym (add-zero j))
get_elem?-bits_from (suc k) j byte (suc r) h =
    get_elem?-bits_from k (j + 1) byte r (omega arith)
    ∙ ap (λ m. some (pixel_of byte m)) (add_one_add j r)

-- The outer loop: eight pixels for each byte.
pub unpack_bytes-of_list :
    (i : ℕ) (bs : List ℕ) (pre rest : List MaybeUninit)
    → length pre ≡ 8 * i
    → length rest ≡ length bs * 8
    → unpack_bytes i (of_list bs) (pre ++ rest) ≡ ret (pre ++ map some (flatten (map bits bs)))
unfolding unpack_bytes of_list flatten
unpack_bytes-of_list i [] pre [] e h = refl
unpack_bytes-of_list i [] pre (x ∷ rest) e h = absurd (omega arith)
unpack_bytes-of_list i (b ∷ bs) pre rest e h =
    rw (unpack_byte-bits_from 8 0 i b pre rest (omega arith) (omega arith)) (
      ap (unpack_bytes (i + 1) (of_list bs))
        (sym (append_assoc pre (map some (bits b)) (drop 8 rest)))
      ∙ unpack_bytes-of_list (i + 1) bs (pre ++ map some (bits b)) (drop 8 rest)
          (omega (
            arith,
            length-append pre (map some (bits b)),
            length-map {0, 0} some (bits b),
            length-bits_from 8 0 b,
          ))
          (omega (arith, length-drop 8 rest))
      ∙ ap ret (
          append_assoc pre (map some (bits b)) (map some (flatten (map bits bs)))
          ∙ ap (λ l. pre ++ l) (sym (map-append some (bits b) (flatten (map bits bs))))))

-- The bit for pixel `j` of a byte, most significant first, with 1 for black, as SANE sends it.
abbrev pub black : ℕ → ℕ → ℕ
black byte j = byte / 2 ^ (7 - j) % 2

-- A test that holds of the number `m` and of all numbers below it, from the top.
up_to : (ℕ → Bool) → ℕ → Bool
up_to test zero = test 0
up_to test (suc m) = if test (suc m) then up_to test m else false

tested : (test : ℕ → Bool) (m k : ℕ) → up_to test m ≡ true → k ≤ m → test k ≡ true
unfolding up_to
tested test zero zero all h = all
tested test zero (suc k) all h = absurd (omega arith)
tested test (suc m) k all h = ground (arith, tested test m k)

pixel_table : up_to (λ j. up_to (λ b. pixel_of b j == 1 - black b j) 255) 7 ≡ true
unfolding up_to pixel_of
pixel_table = refl

pub pixel_of-black : (b j : ℕ) → b < 256 → j < 8 → pixel_of b j ≡ 1 - black b j
pixel_of-black b j hb hj =
    (==_iff _ _).0 (tested _ 255 b (tested _ 7 j pixel_table (omega arith)) (omega arith))

complement_table : up_to (λ j. up_to (λ b. black (255 - b) j == 1 - black b j) 255) 7 ≡ true
unfolding up_to
complement_table = refl

pub black-complement : (b j : ℕ) → b < 256 → j < 8 → black (255 - b) j ≡ 1 - black b j
black-complement b j hb hj =
    (==_iff _ _).0 (tested _ 255 b (tested _ 7 j complement_table (omega arith)) (omega arith))

-- Bit `r` of byte `q`, in the bytes of the pixels.
pub get_elem?-bits :
    (bs : List ℕ) (q r : ℕ) {b : ℕ}
    → get_elem? bs q ≡ some b
    → r < 8
    → get_elem? (flatten (map bits bs)) (q * 8 + r) ≡ some (pixel_of b r)
get_elem?-bits bs q r {b} e h =
    get_elem?-flatten (map bits bs) 8 q r (bits-All bs) (get_elem?-map bits bs q e) h
    ∙ get_elem?-bits_from 8 0 b r h
    ∙ ap (λ m. some (pixel_of b m)) (omega arith)

pub length-bits : (bs : List ℕ) → length (flatten (map bits bs)) ≡ length bs * 8
length-bits bs = length-flatten (map bits bs) 8 (bits-All bs) ∙ ap (λ n. n * 8) (length-map bits bs)
