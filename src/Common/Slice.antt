-- ===== src/Common/Slice.antt =====
-- Rust's slices as lists: prefixes and ranges with their bounds checks, and `chunks_exact`.
use Prim.Native.Nat.{ℕ, zero, suc, ◌+◌, ◌-◌, ◌*◌, ◌/◌, ◌≤◌, ◌<◌}
use mathlib.Core.Path.{◌≡◌, refl, ap, ap₂, ◌∙◌}
use mathlib.Core.Bool.{◌&&◌}
use mathlib.Core.List.{List, [], ◌∷◌, flatten}
use mathlib.Core.Option.{some}
use native.Mathlib.Nat.{mul-div_cancel}
use native.Mathlib.Omega.{arith}
use libsane_rs.Common.Tests.{leb, ◌==◌, if◌then◌else◌, le→leb, ==_ne}
use libsane_rs.Common.Lists.{
  length, take, drop, get_elem?, All, length-take, length-drop, length-append, take-append-drop,
  take-append, drop-append, drop-drop, get_elem?-append_left, get_elem?-append_right,
}
use libsane_rs.Common.Effects.{Outcome, ret, panic}

zero-eq-mul : (n : ℕ) → 0 ≡ 0 * n
zero-eq-mul n = omega arith

module _ {ℓ} {A : Type ℓ} where
  -- `&xs[..n]`
  unfoldable pub slice_to : ℕ → List A → Outcome (List A)
  slice_to n xs = if leb n (length xs) then ret (take n xs) else panic

  -- `&xs[i..j]`
  unfoldable pub slice : ℕ → ℕ → List A → Outcome (List A)
  slice i j xs = if leb i j && leb j (length xs) then ret (take (j - i) (drop i xs)) else panic

  -- `k` pieces of `n` entries from the front.
  unfoldable pub chunks : ℕ → ℕ → List A → List (List A)
  chunks zero n xs = []
  chunks (suc k) n xs = take n xs ∷ chunks k n (drop n xs)

  -- `xs.chunks_exact(n)`, which panics at a size of 0 and leaves a shorter remainder out.
  unfoldable pub chunks_exact : ℕ → List A → Outcome (List (List A))
  chunks_exact n xs = if n == 0 then panic else ret (chunks (length xs / n) n xs)

  pub slice_to-ret : (n : ℕ) (xs : List A) → n ≤ length xs → slice_to n xs ≡ ret (take n xs)
  unfolding slice_to
  slice_to-ret n xs h = rw (le→leb n (length xs) h)

  pub slice-ret :
      (i j : ℕ) (xs : List A)
      → i ≤ j
      → j ≤ length xs
      → slice i j xs ≡ ret (take (j - i) (drop i xs))
  unfolding slice
  slice-ret i j xs h k = rw (le→leb i j h, le→leb j (length xs) k)

  pub length-chunks : (k n : ℕ) (xs : List A) → length (chunks k n xs) ≡ k
  unfolding chunks
  length-chunks zero n xs = refl
  length-chunks (suc k) n xs = ap suc (length-chunks k n (drop n xs))

  pub chunks-All :
      (k n : ℕ) (xs : List A) → k * n ≤ length xs → All (λ c. length c ≡ n) (chunks k n xs)
  unfolding chunks
  chunks-All zero n xs h = tt
  chunks-All (suc k) n xs h = (
    omega (arith, length-take n xs),
    chunks-All k n (drop n xs) (omega (arith, length-drop n xs)),
  )

  pub flatten-chunks : (k n : ℕ) (xs : List A) → k * n ≡ length xs → flatten (chunks k n xs) ≡ xs
  unfolding chunks flatten
  flatten-chunks zero n [] h = refl
  flatten-chunks zero n (x ∷ xs) h = absurd (omega arith)
  flatten-chunks (suc k) n xs h =
      rw (flatten-chunks k n (drop n xs) (omega (arith, length-drop n xs))) (take-append-drop n xs)

  pub get_elem?-chunks :
      (k n : ℕ) (xs : List A) (y : ℕ)
      → y < k
      → get_elem? (chunks k n xs) y ≡ some (take n (drop (y * n) xs))
  unfolding chunks
  get_elem?-chunks zero n xs y h = absurd (omega arith)
  get_elem?-chunks (suc k) n xs zero h = ap (λ m. some (take n (drop m xs))) (zero-eq-mul n)
  get_elem?-chunks (suc k) n xs (suc y) h =
      get_elem?-chunks k n (drop n xs) y (omega arith)
      ∙ ap (λ l. some (take n l)) (drop-drop (y * n) n xs ∙ ap (λ m. drop m xs) (omega arith))

  some_eq : {r s : List A} → some r ≡ some s → r ≡ s
  some_eq e = cc

  -- Where the entry `x` of row `y` stands, if the rows have one length.
  pub get_elem?-flatten :
      (rows : List (List A)) (n y x : ℕ) {row : List A}
      → All (λ r. length r ≡ n) rows
      → get_elem? rows y ≡ some row
      → x < n
      → get_elem? (flatten rows) (y * n + x) ≡ get_elem? row x
  unfolding flatten
  get_elem?-flatten [] n y x h e l = cc
  get_elem?-flatten (r ∷ rows) n zero x h e l =
      get_elem?-append_left r (flatten rows) (0 * n + x) (omega (arith, h.0))
      ∙ ap₂ get_elem? (some_eq e) (omega arith)
  get_elem?-flatten (r ∷ rows) n (suc y) x h e l =
      get_elem?-append_right r (flatten rows) (suc y * n + x) (y * n + x) (omega (arith, h.0))
      ∙ get_elem?-flatten rows n y x h.1 e l

  pub length-flatten :
      (rows : List (List A)) (n : ℕ)
      → All (λ r. length r ≡ n) rows
      → length (flatten rows) ≡ length rows * n
  unfolding flatten
  length-flatten [] n h = omega arith
  length-flatten (r ∷ rows) n h =
      omega (arith, length-append r (flatten rows), length-flatten rows n h.1, h.0)

  -- Cutting a list of pieces of one length gives the pieces back.
  pub chunks-flatten :
      (rows : List (List A)) (n : ℕ)
      → All (λ r. length r ≡ n) rows
      → chunks (length rows) n (flatten rows) ≡ rows
  unfolding chunks flatten
  chunks-flatten [] n h = refl
  chunks-flatten (r ∷ rows) n h =
      ap₂ ◌∷◌ (take-append n r (flatten rows) h.0) (
        ap (chunks (length rows) n) (drop-append n r (flatten rows) h.0)
        ∙ chunks-flatten rows n h.1)

  pub chunks_exact-ret :
      (k n : ℕ) (xs : List A) → 0 < n → length xs ≡ k * n → chunks_exact n xs ≡ ret (chunks k n xs)
  unfolding chunks_exact
  chunks_exact-ret k n xs pos e =
      rw (==_ne n 0 (omega arith))
        (ap (λ m. ret (chunks m n xs)) (ap (λ l. l / n) e ∙ mul-div_cancel k pos))
