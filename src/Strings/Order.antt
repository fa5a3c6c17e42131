-- ===== src/Strings/Order.antt =====
-- `==` and `cmp` of `SaneString`, libsane/src/string.rs, on strings that hold bytes.
use libsane_rs.Common.{
  ℕ, ◌<◌, ◌≤◌, ◌≡◌, ◌≢◌, ◌↔◌, ◌⊎◌, inl, inr, refl, sym, ap, ◌∙◌, arith, Bool, true, false, List, [],
  ◌∷◌, ◌++◌, ltb, ◌==◌, ==_ne, ==_iff, ==_refl, lt→ltb, ltb→lt, ret, Bool-cases,
}
use libsane_rs.Strings.Buffer.{SaneString, eq, Ordering, less, equal, greater, cmp_char, cmp}
use libsane_rs.Strings.Content.{Holds, Latin}
use libsane_rs.Strings.Compare.{eq-agree, cmp-differ, agree, then_by, differ}

-- The bytes agree as far as the shorter string goes.
-- The converse of an order.
unfoldable pub swap : Ordering → Ordering
swap less = greater
swap equal = equal
swap greater = less

cmp_char-cases :
    (x y : ℕ)
    → ((x < y) × (cmp_char x y ≡ less) × (cmp_char y x ≡ greater) × ((x == y) ≡ false))
      ⊎ (((x ≡ y) × (cmp_char x y ≡ equal) × (cmp_char y x ≡ equal) × ((x == y) ≡ true))
          ⊎ ((y < x) × (cmp_char x y ≡ greater) × (cmp_char y x ≡ less) × ((x == y) ≡ false)))
unfolding cmp_char
cmp_char-cases x y = elim (Bool-cases (ltb x y)) [
  | inl a ↦
      let lt : x < y = ltb→lt x y a in
      inl (
        lt,
        rw a,
        rw (not_less y x (omega arith), ==_ne y x (omega arith)),
        ==_ne x y (omega arith),
      )
  | inr a ↦ elim (Bool-cases (x == y)) [
    | inl b ↦
        let same : x ≡ y = (==_iff x y).0 b in
        inr (inl (same, rw (a, b), rw (not_less y x (omega arith), sym same, ==_refl x), b))
    | inr b ↦ let lt : y < x = ltb-false x y a b in inr (inr (lt, rw (a, b), rw (lt→ltb y x lt), b))
  ]
]
  where
    not_less : (a b : ℕ) → b ≤ a → ltb a b ≡ false
    not_less a b h = ground arith

    ltb-false : (a b : ℕ) → ltb a b ≡ false → (a == b) ≡ false → b < a
    ltb-false a b h k = ground arith

pub differ-swap : (xs ys : List ℕ) → differ ys xs ≡ swap (differ xs ys)
unfolding differ swap then_by
differ-swap [] [] = refl
differ-swap [] (y ∷ ys) = refl
differ-swap (x ∷ xs) [] = refl
differ-swap (x ∷ xs) (y ∷ ys) = elim (cmp_char-cases x y) [
  | inl (a, b, c, d) ↦ rw (differ, b, c)
  | inr (inl (a, b, c, d)) ↦ rw (differ, b, c) (differ-swap xs ys)
  | inr (inr (a, b, c, d)) ↦ rw (differ, b, c)
]

-- The order calls two strings equal just where they agree.
unfoldable pub is_equal : Ordering → Bool
is_equal less = false
is_equal equal = true
is_equal greater = false

pub differ-agree : (xs ys : List ℕ) → is_equal (differ xs ys) ≡ agree xs ys
unfolding differ agree is_equal then_by
differ-agree [] ys = refl
differ-agree (x ∷ xs) [] = refl
differ-agree (x ∷ xs) (y ∷ ys) = elim (cmp_char-cases x y) [
  | inl (a, b, c, d) ↦ rw (differ, agree, b, d)
  | inr (inl (a, b, c, d)) ↦ rw (differ, agree, b, d) (differ-agree xs ys)
  | inr (inr (a, b, c, d)) ↦ rw (differ, agree, b, d)
]

-- What one agreement says of the lists: one of them is the beginning of the other.
agree-split :
    (xs ys : List ℕ)
    → agree xs ys ≡ true
    → ((zs : List ℕ) × (ys ≡ xs ++ zs)) ⊎ ((zs : List ℕ) × (xs ≡ ys ++ zs))
unfolding agree
agree-split [] ys h = inl (ys, refl)
agree-split (x ∷ xs) [] h = inr (x ∷ xs, refl)
agree-split (x ∷ xs) (y ∷ ys) h = elim (Bool-cases (x == y)) [
  | inl e ↦ elim (agree-split xs ys (sym (rw e) ∙ h)) [
    | inl (zs, k) ↦ inl (zs, rw ((==_iff x y).0 e, k))
    | inr (zs, k) ↦ inr (zs, rw ((==_iff x y).0 e, k))
  ]
  | inr e ↦ absurd (true-false (sym h ∙ rw e))
]
  where
    true-false : true ≢ false
    true-false k = grind (arith, k)

agree-append : (xs zs : List ℕ) → agree xs (xs ++ zs) ≡ true
unfolding agree
agree-append [] zs = refl
agree-append (x ∷ xs) zs = rw (==_refl x) (agree-append xs zs)

agree-append_left : (ys zs : List ℕ) → agree (ys ++ zs) ys ≡ true
unfolding agree
agree-append_left [] [] = refl
agree-append_left [] (z ∷ zs) = refl
agree-append_left (y ∷ ys) zs = rw (==_refl y) (agree-append_left ys zs)

-- For strings that hold bytes which are characters, `==` returns, and it returns `true` just where
-- one of the strings is the beginning of the other.
pub eq-prefix :
    (signed : Bool) (s t : SaneString) (xs ys : List ℕ)
    → Holds s.buf xs
    → Holds t.buf ys
    → Latin signed xs × Latin signed ys
    → (b : Bool) × (eq signed s t ≡ ret b)
      × ((b ≡ true) ↔ (((zs : List ℕ) × (ys ≡ xs ++ zs)) ⊎ ((zs : List ℕ) × (xs ≡ ys ++ zs))))
eq-prefix signed s t xs ys h k l = (
  agree xs ys,
  eq-agree signed s t xs ys h k l,
  (
    agree-split xs ys,
    λ p. elim p [
      | inl (zs, e) ↦ rw e (agree-append xs zs)
      | inr (zs, e) ↦ rw e (agree-append_left ys zs)
    ],
  ),
)

-- For such strings `cmp` returns, the converse order with the arguments swapped, and it calls two of
-- them equal just where `==` does.
pub cmp-eq :
    (signed : Bool) (s t : SaneString) (xs ys : List ℕ)
    → Holds s.buf xs
    → Holds t.buf ys
    → Latin signed xs × Latin signed ys
    → (o : Ordering) × (cmp signed s t ≡ ret o)
      × (cmp signed t s ≡ ret (swap o))
      × (eq signed s t ≡ ret (is_equal o))
cmp-eq signed s t xs ys h k l = (
  differ xs ys,
  cmp-differ signed s t xs ys h k l,
  cmp-differ signed t s ys xs k h (l.1, l.0) ∙ ap ret (differ-swap xs ys),
  eq-agree signed s t xs ys h k l ∙ ap ret (sym (differ-agree xs ys)),
)
