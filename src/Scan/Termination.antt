-- ===== src/Scan/Termination.antt =====
-- The end of the loop of `FrameReader::read_full_frame`, libsane/src/device/scan.rs, over a buffer of
-- known size.
use libsane_rs.Common.{
  ℕ, zero, suc, ◌*◌, ◌^◌, ◌≤◌, ◌<◌, ◌≡◌, arith, Bool, ◌&&◌, some, List, [], ◌∷◌, min, length, drop,
  ltb, leb, ◌==◌, inl, inr, Bool-cases, Outcome, Result, ok, err, length-drop, length-take,
}
use libsane_rs.Common.Slice.{slice_to}
use libsane_rs.Common.Vec.{Env, Vec, MaybeUninit, mul_at, mul_u32, reserve_exact, set_len}
use libsane_rs.Common.Returns.{Returns, Returns->>=, Returns-then, Returns-if}
use libsane_rs.Parameters.{FrameParameters}
use libsane_rs.Scan.Reader.{
  Status, eof, cancelled, other, SaneRead, int_max, End, finished, failed, out_of_fuel, into_buffer,
  sys_read_uninit, after_read, fill, take_over, read_lines, read_by, read_full_frame,
}

-- The library gives at least one byte, or fails, where it is asked for some.
abbrev pub AtLeastOne : Result (List ℕ) Status → Type 0
AtLeastOne (err s) = Unit
AtLeastOne (ok bytes) = 0 < length bytes

abbrev pub Ended : End → Type 0
Ended finished = Unit
Ended (failed s) = Unit
Ended out_of_fuel = ⊥

product_le : (e : Env) (a b : ℕ) → Returns (λ n. n ≤ a * b) (mul_u32 e a b)
unfolding mul_at
product_le e a b = elim (Bool-cases (ltb (a * b) (2 ^ 32))) [
  | inl small ↦ rw small (omega arith)
  | inr large ↦ elim (Bool-cases e.overflow_checks) [
    | inl checks ↦ rw (large, checks) tt
    | inr wraps ↦ rw (large, wraps) (omega arith)
  ]
]

slice-length : (n : ℕ) (xs : List MaybeUninit) → Returns (λ ys. length ys ≤ n) (slice_to n xs)
unfolding slice_to
slice-length n xs = elim (Bool-cases (leb n (length xs))) [
  | inl inside ↦ rw inside (omega (arith, length-take n xs))
  | inr outside ↦ rw outside tt
]

module _ {L : Type 0} (sane_read : SaneRead L)
    (lively : (l : L) (n : ℕ) → 0 < n → AtLeastOne ((sane_read l n).0)) where
  into_buffer-AtLeastOne :
      (buf : List MaybeUninit) (r : Result (List ℕ) Status × L)
      → AtLeastOne r.0
      → Returns (λ s. AtLeastOne s.0) (into_buffer sane_read buf r)
  unfolding into_buffer
  into_buffer-AtLeastOne buf (err s, l) h = tt
  into_buffer-AtLeastOne buf (ok bytes, l) h = elim (Bool-cases (leb (length bytes) (length buf))) [
    | inl inside ↦ rw inside h
    | inr outside ↦ rw outside tt
  ]

  after_read-Ended :
      (debug : Bool) (next : L → List MaybeUninit → Outcome (End × List MaybeUninit × L))
      (buf : List MaybeUninit) (fuel : ℕ) (r : Result (List ℕ) Status × L)
      → ((l1 : L) (m : List MaybeUninit) → length m ≤ fuel → Returns (λ s. Ended s.0) (next l1 m))
      → length buf ≤ suc fuel
      → AtLeastOne r.0
      → Returns (λ s. Ended s.0) (after_read sane_read debug next buf r)
  unfolding after_read
  after_read-Ended debug next buf fuel (err eof, l) ih h k = tt
  after_read-Ended debug next buf fuel (err cancelled, l) ih h k = tt
  after_read-Ended debug next buf fuel (err (other s), l) ih h k = tt
  after_read-Ended debug next buf fuel (ok bytes, l) ih h k =
      Returns-if (λ s. Ended s.0) (debug && (length bytes == 0)) _ _ (λ _. tt)
        λ _.
          Returns-then (λ s. Ended s.0) (λ s. Ended s.0) (next l (drop (length bytes) buf)) _
            (ih l (drop (length bytes) buf) (omega (arith, length-drop (length bytes) buf, h, k)))
            (λ s m. m)

  fill-Ended :
      (debug : Bool) (fuel : ℕ) (l : L) (buf : List MaybeUninit)
      → length buf ≤ fuel
      → Returns (λ s. Ended s.0) (fill sane_read debug fuel l buf)
  unfolding fill sys_read_uninit
  fill-Ended debug fuel l [] h = tt
  fill-Ended debug zero l (b ∷ buf) h = absurd (omega arith)
  fill-Ended debug (suc fuel) l (b ∷ buf) h =
      Returns-then (λ s. Ended s.0) (λ r. AtLeastOne r.0) (sys_read_uninit sane_read l (b ∷ buf)) _
        (into_buffer-AtLeastOne (b ∷ buf) (sane_read l (min (length (b ∷ buf)) int_max))
          (lively l (min (length (b ∷ buf)) int_max) (omega arith)))
        (λ r k.
          after_read-Ended debug _ (b ∷ buf) fuel r (λ l1 m j. fill-Ended debug fuel l1 m j) h k)

  take_over-Ended :
      (n : ℕ) (v : Vec) (r : End × List MaybeUninit × L)
      → Ended r.0
      → Returns (λ s. Ended s.0) (take_over sane_read n v r)
  unfolding take_over
  take_over-Ended n v (finished, m, l) h = Returns->>= (λ s. Ended s.0) (set_len n _) _ (λ w. tt)
  take_over-Ended n v (failed s, m, l) h = tt
  take_over-Ended n v (out_of_fuel, m, l) h = absurd h

  -- Over a library that gives at least one byte or fails where it is asked for some, a fuel of the
  -- bytes of a frame of known height is enough for `read_full_frame`: in every build, whatever it
  -- returns is not the end of the fuel.
  pub read_full_frame-Ended :
      (e : Env) (debug : Bool) (fuel : ℕ) (l : L) (p : FrameParameters) (started done : Bool)
      (v : Vec) (lines : ℕ)
      → p.lines ≡ some lines
      → p.bytes_per_line * lines ≤ fuel
      → Returns (λ s. Ended s.0) (read_full_frame sane_read e debug fuel l p started done v)
  unfolding read_full_frame read_by read_lines
  read_full_frame-Ended e debug fuel l p started done v lines known enough =
      Returns-if (λ s. Ended s.0) started _ _ (λ _. tt)
        λ _.
          Returns-then (λ s. Ended s.0) (λ s. Ended s.0)
            (read_by sane_read e debug fuel l v p p.lines) _
            (rw known (
              Returns-then (λ s. Ended s.0) (λ n. n ≤ p.bytes_per_line * lines)
                (mul_u32 e p.bytes_per_line lines) _ (product_le e p.bytes_per_line lines)
                λ n small.
                  Returns->>= (λ s. Ended s.0) (reserve_exact e n v) _
                    λ w.
                      Returns-then (λ s. Ended s.0) (λ b. length b ≤ n) (slice_to n w.spare) _
                        (slice-length n w.spare)
                        λ buf short.
                          Returns-then (λ s. Ended s.0) (λ s. Ended s.0)
                            (fill sane_read debug fuel l buf) _
                            (fill-Ended debug fuel l buf (omega (arith, short, small, enough)))
                            (λ r k. take_over-Ended n w r k)))
            (λ s k. k)
