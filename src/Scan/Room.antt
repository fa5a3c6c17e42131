-- ===== src/Scan/Room.antt =====
-- The room that the loop for a frame of unknown height asks a vector for, `read_full_frame` of
-- libsane/src/device/scan.rs.
use libsane_rs.Common.{
  ℕ, zero, suc, ◌+◌, ◌-◌, ◌*◌, ◌/◌, ◌≤◌, ◌<◌, ◌≡◌, refl, ◌∙◌, arith, ◌⊎◌, inl, inr, none, List, [],
  ◌∷◌, ◌++◌, append_assoc, length, drop, replicate, ltb, leb, le→leb, leb→le, ltb→lt, leb-false,
  Bool-cases, ret, length-drop, length-replicate,
}
use native.Mathlib.Nat.{mul-le-mul_left}
use libsane_rs.Common.Vec.{Env, Vec, MaybeUninit, isize_max, reserve, grown}
use libsane_rs.Scan.Reader.{next_try}

-- There is room to read into after the reservation: something is reserved, or the vector had room.
pub reserve-room :
    (e : Env) (n : ℕ) (v : Vec)
    → (0 < n) ⊎ (0 < length v.spare)
    → 2 * (length v.bytes + n) ≤ isize_max
    → (w : Vec) × (reserve e n v ≡ ret w)
      × (w.bytes ≡ v.bytes)
      × (n ≤ length w.spare)
      × (0 < length w.spare)
unfolding reserve
reserve-room e n v some_room fits = elim (Bool-cases (leb n (length v.spare))) [
  | inl enough ↦ (
    v,
    rw enough,
    refl,
    leb→le _ _ enough,
    positive n (length v.spare) some_room (leb→le _ _ enough),
  )
  | inr short ↦
      let k = grown v n - length v.bytes + e.slack in
      let size : length (replicate {A = MaybeUninit} k none) ≡ k = length-replicate k none in
      let larger : length v.spare < n = leb-false _ _ short in
      (
        record v { spare = replicate k none },
        rw (short, le→leb (grown v n) isize_max (omega arith)),
        refl,
        omega (arith, size),
        omega (arith, size),
      )
]
  where
    positive : (n m : ℕ) → (0 < n) ⊎ (0 < m) → n ≤ m → 0 < m
    positive n m (inl pos) h = omega arith
    positive n m (inr pos) h = pos

-- The number of lines grows by one at most; it falls to 0 only where room is left.
pub next_try-le : (k n t : ℕ) → next_try k n t ≤ suc t
unfolding next_try
next_try-le k n t = ground arith

pub next_try-room : (k n t spare : ℕ) → n ≤ spare → (0 < next_try k n t) ⊎ (0 < spare - k)
unfolding next_try
next_try-room k n t spare h = elim (Bool-cases (ltb k (n / 2))) [
  | inl short ↦ inr (omega (arith, ltb→lt _ _ short))
  | inr long ↦ inl (rw long (omega arith))
]

-- What the loop still asks the vector for, at most.
abbrev pub Budget : ℕ → Vec → ℕ → ℕ → Type 0
Budget line v left t = 2 * (length v.bytes + left + line * (t + left)) ≤ isize_max

pub Budget-now :
    (line : ℕ) (v : Vec) (left t : ℕ)
    → Budget line v left t
    → 2 * (length v.bytes + line * t) ≤ isize_max
Budget-now line v left t h =
    let k : line * t ≤ line * (t + left) = mul-le-mul_left line (omega arith) in omega arith

-- A round that reads something keeps within the budget.
pub Budget-next :
    (line k n t left more : ℕ) (bytes rest : List ℕ) (spare : List MaybeUninit)
    → left ≡ k + more
    → 0 < k
    → length rest ≡ length bytes + k
    → 2 * (length bytes + left + line * (t + left)) ≤ isize_max
    → Budget line (record { bytes = rest; spare = spare }) more (next_try k n t)
Budget-next line k n t left more bytes rest spare e pos size h =
    let few : next_try k n t + more ≤ t + left = omega (arith, next_try-le k n t) in
    let m : line * (next_try k n t + more) ≤ line * (t + left) = mul-le-mul_left line few in
    omega arith

pub line_room : (line t spare : ℕ) → 0 < line → (0 < t) ⊎ (0 < spare) → (0 < line * t) ⊎ (0 < spare)
line_room line zero spare pos (inl k) = absurd (omega arith)
line_room line (suc t) spare pos (inl k) = inl (omega arith)
line_room line t spare pos (inr k) = inr k

pub spare_room :
    (k n t : ℕ) (spare : List MaybeUninit)
    → n ≤ length spare
    → (0 < next_try k n t) ⊎ (0 < length (drop k spare))
spare_room k n t spare h = elim (next_try-room k n t (length spare) h) [
  | inl pos ↦ inl pos
  | inr left ↦ inr (omega (arith, left, length-drop k spare))
]

pub nil_of_length : (xs : List ℕ) → length xs ≡ 0 → xs ≡ []
nil_of_length [] h = refl
nil_of_length (x ∷ xs) h = absurd (omega arith)

pub taken_in :
    {a b c r : List ℕ} (r1 k : List ℕ) → a ≡ b → c ≡ (a ++ k) ++ r1 → r ≡ k ++ r1 → c ≡ b ++ r
taken_in {b = b} r1 k e whole rest = rw rest (whole ∙ rw e (append_assoc b k r1))
