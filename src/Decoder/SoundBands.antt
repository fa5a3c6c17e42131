-- ===== src/Decoder/SoundBands.antt =====
-- Undefined behaviour in `FrameDecoder::write_channel`,
-- libsane/src/device/scan/frame_decoder.rs, in a build that checks arithmetic.
use libsane_rs.Common.{
  ℕ, zero, suc, ◌+◌, ◌*◌, ◌-◌, ◌/◌, ◌^◌, ◌≤◌, ◌<◌, ◌≡◌, ◌⊎◌, inl, inr, refl, arith, Bool, true,
  false, ◌&&◌, List, [], ◌∷◌, length, take, drop, ret, panic, ◌>>=◌, ◌==◌, leb, lt→leb, Bool-cases,
  length-take,
}
use libsane_rs.Common.Iter.{Iter, nil, crash, fault, cons, NoFault, flat_map-NoFault}
use libsane_rs.Common.Safe.{Safe, Safe->>=, Safe-mul_at, mul_at-cases}
use libsane_rs.Common.Slice.{chunks, chunks_exact, slice_to, slice, chunks_exact-ret}
use libsane_rs.Common.Vec.{Env, MaybeUninit, mul_usize}
use libsane_rs.Parameters.{FrameParameters}
use libsane_rs.Decoder.Loops.{write_channel, write_pixels}
use libsane_rs.Common.Vec.{copy_from_slice}
use libsane_rs.Decoder.Safety.{Any}

-- A call that can only panic.
abbrev pub Never {ℓ} : {A : Type ℓ} → A → Type 0
Never a = ⊥

slice_cases {ℓ} :
    {A : Type ℓ} (i j : ℕ) (xs : List A)
    → (slice i j xs ≡ panic) ⊎ ((ys : List A) × (slice i j xs ≡ ret ys))
unfolding slice
slice_cases i j xs = elim (Bool-cases (leb i j && leb j (length xs))) [
  | inl inside ↦ inr (take (j - i) (drop i xs), rw inside)
  | inr outside ↦ inl (rw outside)
]

copy_from_slice-Safe : (dst : List MaybeUninit) (src : List ℕ) → Safe Any (copy_from_slice dst src)
unfolding copy_from_slice
copy_from_slice-Safe dst src = elim (Bool-cases (length dst == length src)) [
  | inl e ↦ rw e tt
  | inr e ↦ rw e tt
]

write_pixels-Safe :
    (from to : ℕ) (pixels : List (List MaybeUninit)) (it : Iter (List ℕ))
    → NoFault it
    → Safe Any (write_pixels from to pixels it)
unfolding write_pixels
write_pixels-Safe from to [] it h = tt
write_pixels-Safe from to (px ∷ pixels) nil h = elim (slice_cases from to px) [
  | inl e ↦ rw e tt
  | inr (ys, e) ↦ rw e tt
]
write_pixels-Safe from to (px ∷ pixels) crash h = elim (slice_cases from to px) [
  | inl e ↦ rw e tt
  | inr (ys, e) ↦ rw e tt
]
write_pixels-Safe from to (px ∷ pixels) fault h = absurd h
write_pixels-Safe from to (px ∷ pixels) (cons src it) h = elim (slice_cases from to px) [
  | inl e ↦ rw e tt
  | inr (ys, e) ↦ rw e (
      Safe->>= Any Any (copy_from_slice ys src) _ (copy_from_slice-Safe ys src) λ part _.
        Safe->>= Any Any (write_pixels from to pixels it) _ (write_pixels-Safe from to pixels it h)
          λ others _. tt)
]

and_false : (b : Bool) → (b && false) ≡ false
and_false true = refl
and_false false = refl

-- A range that ends behind a pixel stops the loop at its first pixel.
pub write_pixels_out :
    (from to : ℕ) (px : List MaybeUninit) (pixels : List (List MaybeUninit)) (it : Iter (List ℕ))
    → length px < to
    → write_pixels from to (px ∷ pixels) it ≡ panic
unfolding write_pixels slice
write_pixels_out from to px pixels it h = rw (lt→leb to (length px) h, and_false)

module _ (e : Env) (checks : e.overflow_checks ≡ true) (frame : List ℕ) (p : FrameParameters)
    (h : ℕ) (size : length frame ≡ h * p.bytes_per_line) (line : 0 < p.bytes_per_line) where
  chunks_exact_cases :
      (n : ℕ) (l : List ℕ)
      → (chunks_exact n l ≡ panic) ⊎ ((ys : List (List ℕ)) × (chunks_exact n l ≡ ret ys))
  unfolding chunks_exact
  chunks_exact_cases n l = elim (Bool-cases (n == 0)) [
    | inl z ↦ inl (rw z)
    | inr z ↦ inr (chunks (length l / n) n l, rw z)
  ]

  -- What the closure of `write_channel` makes of a line.
  cut_line :
      (w n : ℕ) (l : List ℕ)
      → let m = mul_usize e w n >>= λ k. slice_to k l >>= λ used. chunks_exact n used in
        (m ≡ panic) ⊎ ((ys : List (List ℕ)) × (m ≡ ret ys))
  unfolding slice_to
  cut_line w n l = elim (mul_at-cases (2 ^ 64) e w n checks) [
    | inl small ↦ elim (Bool-cases (leb (w * n) (length l))) [
      | inl inside ↦ elim (chunks_exact_cases n (take (w * n) l)) [
        | inl z ↦ inl (rw (small, inside) z)
        | inr (ys, z) ↦ inr (ys, rw (small, inside) z)
      ]
      | inr outside ↦ inl (rw (small, outside))
    ]
    | inr large ↦ inl (rw large)
  ]

  pub write_channel-Safe :
      (w n offset k : ℕ) (dst : List MaybeUninit)
      → 0 < n
      → length dst ≡ k * (3 * n)
      → Safe Any (write_channel e frame p.bytes_per_line w n offset dst)
  unfolding write_channel
  write_channel-Safe w n offset k dst pos len =
      rw (chunks_exact-ret h p.bytes_per_line frame line size) (
        Safe-mul_at Any (2 ^ 64) e 3 n _ checks λ _.
          rw (chunks_exact-ret k (3 * n) dst (omega arith) len) (
            Safe->>= Any Any (write_pixels offset (offset + n) (chunks k (3 * n) dst) _) _
              (write_pixels-Safe offset (offset + n) (chunks k (3 * n) dst) _
                (flat_map-NoFault _ (chunks h p.bytes_per_line frame) (cut_line w n)))
              (λ _ _. tt)))

  -- At an offset behind the first pixel the call panics.
  pub write_channel_out :
      (w n offset k : ℕ) (dst : List MaybeUninit)
      → 0 < n
      → 0 < k
      → 3 * n ≤ offset
      → length dst ≡ k * (3 * n)
      → Safe Never (write_channel e frame p.bytes_per_line w n offset dst)
  unfolding write_channel chunks
  write_channel_out w n offset zero dst pos some_pixels far len = absurd (omega arith)
  write_channel_out w n offset (suc k) dst pos some_pixels far len =
      rw (chunks_exact-ret h p.bytes_per_line frame line size) (
        Safe-mul_at Never (2 ^ 64) e 3 n _ checks λ _.
          rw (chunks_exact-ret (suc k) (3 * n) dst (omega arith) len) (
            rw
              (write_pixels_out offset (offset + n) (take (3 * n) dst)
                (chunks k (3 * n) (drop (3 * n) dst)) _ (omega (arith, length-take (3 * n) dst)))
              tt))
