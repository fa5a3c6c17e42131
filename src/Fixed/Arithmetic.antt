-- ===== src/Fixed/Arithmetic.antt =====
-- The arithmetic of `Fixed`, libsane/src/fixed.rs.
use libsane_rs.Common.{
  ℕ, ◌+◌, ◌-◌, ◌%◌, ◌^◌, ◌<◌, ◌≡◌, refl, sym, ap, ◌∙◌, inl, inr, ◌⊎◌, Bool-cases, arith, Bool, true,
  false, if◌then◌else◌, Outcome, ret, panic,
}
use libsane_rs.Common.Int.{◌+ℤ◌, ◌-ℤ◌, signed, is_i32, word_of}
use libsane_rs.Common.Vec.{Env}
use libsane_rs.Fixed.{Fixed, from_bits, exact_or_wrapped, add, sub}

-- In range, the exact value is that of the word that wraps round.
sum_word :
    (a b : ℕ)
    → a < 2 ^ 32
    → b < 2 ^ 32
    → is_i32 (signed a +ℤ signed b) ≡ true
    → word_of (signed a +ℤ signed b) ≡ (a + b) % 2 ^ 32
unfolding ◌+ℤ◌
sum_word a b ha hb h = ground arith

difference_word :
    (a b : ℕ)
    → a < 2 ^ 32
    → b < 2 ^ 32
    → is_i32 (signed a -ℤ signed b) ≡ true
    → word_of (signed a -ℤ signed b) ≡ (a + (2 ^ 32 - b)) % 2 ^ 32
unfolding ◌-ℤ◌
difference_word a b ha hb h = ground arith

back : (a b : ℕ) → a < 2 ^ 32 → b < 2 ^ 32 → ((a + b) % 2 ^ 32 + (2 ^ 32 - b)) % 2 ^ 32 ≡ a
back a b ha hb = ground arith

still_in_range :
    (a b : ℕ)
    → a < 2 ^ 32
    → b < 2 ^ 32
    → is_i32 (signed a +ℤ signed b) ≡ true
    → is_i32 (signed ((a + b) % 2 ^ 32) -ℤ signed b) ≡ true
unfolding ◌+ℤ◌ ◌-ℤ◌
still_in_range a b ha hb h = ground arith

value_eq : {x y : Fixed} → ◌≡◌ {A = Outcome Fixed} (ret x) (ret y) → x ≡ y
value_eq h = cc

-- What a checked operation returned: the exact value, or the one that wraps round.
returned :
    (in_range checks : Bool) (exact wrapped c : Fixed)
    → (if in_range then ret exact else if checks then panic else ret wrapped) ≡ ret c
    → ((in_range ≡ true) × (exact ≡ c)) ⊎ ((checks ≡ false) × (wrapped ≡ c))
returned true checks exact wrapped c h = inl (refl, value_eq h)
returned false true exact wrapped c h = cc
returned false false exact wrapped c h = inr (refl, value_eq h)

sub-ret :
    (e : Env) (x y : Fixed)
    → x.word < 2 ^ 32
    → y.word < 2 ^ 32
    → (is_i32 (signed x.word -ℤ signed y.word) ≡ true) ⊎ (e.overflow_checks ≡ false)
    → sub e x y ≡ ret (record { word = (x.word + (2 ^ 32 - y.word)) % 2 ^ 32 })
unfolding sub exact_or_wrapped
sub-ret e x y hx hy (inl fits) = rw (fits, difference_word x.word y.word hx hy fits)
sub-ret e x y hx hy (inr wraps) = elim (Bool-cases (is_i32 (signed x.word -ℤ signed y.word))) [
  | inl fits ↦ rw (fits, difference_word x.word y.word hx hy fits)
  | inr large ↦ rw (large, wraps)
]

-- Where `+` of two words returns, in any build, `-` takes the second one off again.
pub add-sub :
    (e : Env) (x y c : Fixed)
    → x.word < 2 ^ 32
    → y.word < 2 ^ 32
    → add e x y ≡ ret c
    → sub e c y ≡ ret x
unfolding add exact_or_wrapped from_bits
add-sub e x y c hx hy h =
    let sum = (x.word + y.word) % 2 ^ 32 in
    let z = signed x.word +ℤ signed y.word in
    let original : record { word = (sum + (2 ^ 32 - y.word)) % 2 ^ 32 } ≡ x =
      ap from_bits (back x.word y.word hx hy) in
    elim (returned (is_i32 z) e.overflow_checks (record { word = word_of z })
      (record { word = sum }) c h) [
        | inl (fits, same) ↦
            let k : c ≡ record { word = sum } =
              sym same ∙ ap from_bits (sum_word x.word y.word hx hy fits) in
            ap (λ d. sub e d y) k
            ∙ sub-ret e (record { word = sum }) y (omega arith) hy
                (inl (still_in_range x.word y.word hx hy fits))
            ∙ ap ret original
        | inr (wraps, same) ↦
            ap (λ d. sub e d y) (sym same)
            ∙ sub-ret e (record { word = sum }) y (omega arith) hy (inr wraps)
            ∙ ap ret original
      ]
