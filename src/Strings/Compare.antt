-- ===== src/Strings/Compare.antt =====
-- `==` and `cmp` of `SaneString`, libsane/src/string.rs, on strings that hold bytes.
use libsane_rs.Common.{
  ℕ, ◌<◌, ◌≡◌, inl, inr, refl, arith, Bool, true, false, ◌&&◌, some, List, [], ◌∷◌, ◌++◌, map, leb,
  ◌==◌, ==_ne, Outcome, ret, Bool-cases,
}
use libsane_rs.Common.Vec.{MaybeUninit}
use libsane_rs.Strings.Buffer.{
  SaneString, char_of, next_byte, next_char, all_equal, eq, Ordering, less, equal, greater,
  cmp_char, unless_equal, first_difference, cmp,
}
use libsane_rs.Strings.Content.{Holds, NonNul, Latin}

unfoldable pub agree : List ℕ → List ℕ → Bool
agree [] ys = true
agree (x ∷ xs) [] = true
agree (x ∷ xs) (y ∷ ys) = x == y && agree xs ys

-- An order, or where it is equal the next one.
unfoldable pub then_by : Ordering → Ordering → Ordering
then_by less next = less
then_by equal next = next
then_by greater next = greater

-- The order of the first bytes that differ.
unfoldable pub differ : List ℕ → List ℕ → Ordering
unfolding cmp_char then_by
differ [] ys = equal
differ (x ∷ xs) [] = equal
differ (x ∷ xs) (y ∷ ys) = then_by (cmp_char x y) (differ xs ys)

unless_equal-ret :
    (o : Ordering) (m : Outcome Ordering) (k : Ordering)
    → m ≡ ret k
    → unless_equal o m ≡ ret (then_by o k)
unfolding unless_equal then_by
unless_equal-ret less m k e = refl
unless_equal-ret equal m k e = e
unless_equal-ret greater m k e = refl

module _ (signed : Bool) where
  next_char-some :
      (y : ℕ) (m : List MaybeUninit)
      → 0 < y
      → (signed && leb 128 y) ≡ false
      → next_char signed (some y ∷ m) ≡ ret (some (y, m))
  unfolding next_char next_byte char_of
  next_char-some y m pos latin = rw (==_ne y 0 (omega arith), latin)

  char_of-ret : (y : ℕ) → (signed && leb 128 y) ≡ false → char_of signed y ≡ ret y
  unfolding char_of
  char_of-ret y latin = rw latin

  all_equal-agree :
      (xs ys : List ℕ) (r s : List MaybeUninit)
      → NonNul xs × NonNul ys
      → Latin signed xs × Latin signed ys
      → all_equal signed (map some xs ++ (some 0 ∷ r)) (map some ys ++ (some 0 ∷ s))
        ≡ ret (agree xs ys)
  unfolding all_equal next_char next_byte char_of agree
  all_equal-agree [] ys r s n l = refl
  all_equal-agree (x ∷ xs) [] r s n l = rw (==_ne x 0 (omega (arith, n.0.0)), l.0.0)
  all_equal-agree (x ∷ xs) (y ∷ ys) r s n l =
      rw (==_ne x 0 (omega (arith, n.0.0)), ==_ne y 0 (omega (arith, n.1.0)), l.0.0, l.1.0)
        (elim (Bool-cases (x == y)) [
          | inl e ↦ rw e (all_equal-agree xs ys r s (n.0.1, n.1.1) (l.0.1, l.1.1))
          | inr e ↦ rw e
        ])

  first_difference-differ :
      (xs ys : List ℕ) (r s : List MaybeUninit)
      → NonNul xs × NonNul ys
      → Latin signed xs × Latin signed ys
      → first_difference signed (map some xs ++ (some 0 ∷ r)) (map some ys ++ (some 0 ∷ s))
        ≡ ret (differ xs ys)
  unfolding first_difference differ
  first_difference-differ [] ys r s n l = refl
  first_difference-differ (x ∷ xs) [] r s n l =
      rw (==_ne x 0 (omega (arith, n.0.0)), char_of-ret x l.0.0)
  first_difference-differ (x ∷ xs) (y ∷ ys) r s n l =
      rw (==_ne x 0 (omega (arith, n.0.0)), char_of-ret x l.0.0)
        (rw (next_char-some y (map some ys ++ (some 0 ∷ s)) n.1.0 l.1.0) (
          unless_equal-ret (cmp_char x y) _ (differ xs ys)
            (first_difference-differ xs ys r s (n.0.1, n.1.1) (l.0.1, l.1.1))))

  -- What `==` and `cmp` return for strings that hold bytes.
  pub eq-agree :
      (s t : SaneString) (xs ys : List ℕ)
      → Holds s.buf xs
      → Holds t.buf ys
      → Latin signed xs × Latin signed ys
      → eq signed s t ≡ ret (agree xs ys)
  unfolding eq
  eq-agree s t xs ys h k l =
      rw (h.shape, k.shape) (all_equal-agree xs ys h.rest k.rest (h.non_nul, k.non_nul) l)

  pub cmp-differ :
      (s t : SaneString) (xs ys : List ℕ)
      → Holds s.buf xs
      → Holds t.buf ys
      → Latin signed xs × Latin signed ys
      → cmp signed s t ≡ ret (differ xs ys)
  unfolding cmp
  cmp-differ s t xs ys h k l =
      rw (h.shape, k.shape) (first_difference-differ xs ys h.rest k.rest (h.non_nul, k.non_nul) l)
