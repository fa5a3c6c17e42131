-- ===== src/Decoder/Safety.antt =====
-- Undefined behaviour in the loops of `FrameDecoder::write`, libsane/src/device/scan/frame_decoder.rs:
-- what they write before `set_len` takes it over.
use native.Mathlib.Nat.{zero-mul}
use libsane_rs.Common.{
  leb-false, ℕ, zero, suc, ◌*◌, ◌≤◌, ◌<◌, ◌≡◌, ◌⊎◌, inl, inr, refl, sym, ap, ◌∙◌, arith, false,
  some, List, [], ◌∷◌, map, flatten, length, take, ret, panic, Outcome, ◌>>=◌, ◌==◌, leb, leb→le,
  lt→leb, Bool-cases, length-map, length-take, ==_iff,
}
use libsane_rs.Common.Iter.{Iter, nil, crash, of_list, flat_map}
use libsane_rs.Common.Safe.{Safe}
use libsane_rs.Common.Slice.{chunks, slice_to, slice_to-ret}
use libsane_rs.Common.Vec.{Vec, MaybeUninit, write_spare, set_len, set_len-write_spare}
use libsane_rs.Parameters.{FrameParameters}
use libsane_rs.Decoder.Loops.{copy, unpack_bytes}
use libsane_rs.Decoder.Rows.{Lined, crop, length-crop, row_bytes}
use libsane_rs.Decoder.Whole.{copy-of_list}
use libsane_rs.Decoder.Unpack.{bits, length-bits, unpack_bytes-of_list}

-- A frame whose lines are too short for their pixels makes the iterator panic at once, unless there
-- is no line.
short_lines :
    (frame : List ℕ) (bpl n h : ℕ) (m : Outcome ℕ)
    → bpl < n
    → 0 < h
    → (m ≡ ret n) ⊎ (m ≡ panic)
    → flat_map (λ line. m >>= λ k. slice_to k line) (chunks h bpl frame) ≡ crash
unfolding flat_map chunks slice_to
short_lines frame bpl n zero m short pos known = absurd (omega arith)
short_lines frame bpl n (suc h) m short pos (inr e) = rw (e, flat_map)
short_lines frame bpl n (suc h) m short pos (inl e) =
    rw (e, lt→leb n (length (take bpl frame)) (omega (arith, length-take bpl frame)), flat_map)

-- A loop that fills every destination of `n` bytes, or panics on each of them.
abbrev pub Fills : (List MaybeUninit → Outcome (List MaybeUninit)) → ℕ → Type 0
Fills body n =
    (bs : List ℕ) × (length bs ≡ n)
    × ((dst : List MaybeUninit) → length dst ≡ n → body dst ≡ ret (map some bs))

abbrev pub Stops : (List MaybeUninit → Outcome (List MaybeUninit)) → ℕ → Type 0
Stops body n = (dst : List MaybeUninit) → length dst ≡ n → body dst ≡ panic

abbrev pub Any {ℓ} : {A : Type ℓ} → A → Type 0
Any a = Unit

pub write_spare-panic :
    (n : ℕ) (v : Vec) (body : List MaybeUninit → Outcome (List MaybeUninit))
    → n ≤ length v.spare
    → body (take n v.spare) ≡ panic
    → write_spare n body v ≡ panic
unfolding write_spare
write_spare-panic n v body h e = rw (slice_to-ret n v.spare h, e)

pub write_spare-short :
    (n : ℕ) (v : Vec) (body : List MaybeUninit → Outcome (List MaybeUninit))
    → leb n (length v.spare) ≡ false
    → write_spare n body v ≡ panic
unfolding write_spare slice_to
write_spare-short n v body h = rw h

-- After such a loop, taking over the bytes is defined.
pub fill-Safe :
    (n : ℕ) (v : Vec) (body : List MaybeUninit → Outcome (List MaybeUninit))
    → Fills body n ⊎ Stops body n
    → Safe Any (write_spare n body v >>= set_len n)
fill-Safe n v body known = elim (Bool-cases (leb n (length v.spare))) [
  | inl enough ↦ elim known [
    | inl (bs, len, fills) ↦
        rw
          (set_len-write_spare n v body bs (leb→le _ _ enough) len
            (fills (take n v.spare) (omega (arith, length-take n v.spare, leb→le _ _ enough))))
          tt
    | inr stops ↦
        rw
          (write_spare-panic n v body (leb→le _ _ enough)
            (stops (take n v.spare) (omega (arith, length-take n v.spare, leb→le _ _ enough))))
          tt
  ]
  | inr short ↦ rw (write_spare-short n v body short) tt
]

copy-empty :
    (f : ℕ → ℕ) (it : Iter ℕ) (dst : List MaybeUninit) → length dst ≡ 0 → copy f it dst ≡ ret []
unfolding copy
copy-empty f it [] h = refl
copy-empty f it (d ∷ dst) h = absurd (omega arith)

-- The two loops over an iterator that panics at once, or that is over at once.
copy-crash : (f : ℕ → ℕ) (n : ℕ) → Fills (copy f crash) n ⊎ Stops (copy f crash) n
unfolding copy
copy-crash f zero = inl ([], refl, λ dst h. copy-empty f crash dst h)
copy-crash f (suc n) = inr (λ dst h. stop dst h)
  where
    stop : (dst : List MaybeUninit) → length dst ≡ suc n → copy f crash dst ≡ panic
    stop [] h = absurd (omega arith)
    stop (d ∷ dst) h = refl

nothing_to_copy :
    (f : ℕ → ℕ) (it : Iter ℕ) (n : ℕ) → n ≡ 0 → Fills (copy f it) n ⊎ Stops (copy f it) n
nothing_to_copy f it n e = inl ([], sym e, λ dst h. copy-empty f it dst (h ∙ e))

nothing_to_unpack : (n : ℕ) → n ≡ 0 → Fills (unpack_bytes 0 nil) n ⊎ Stops (unpack_bytes 0 nil) n
unfolding unpack_bytes
nothing_to_unpack n e = inl ([], sym e, λ dst h. ap ret (length-zero dst (h ∙ e)))
  where
    length-zero : (dst : List MaybeUninit) → length dst ≡ 0 → dst ≡ []
    length-zero [] h = refl
    length-zero (d ∷ dst) h = absurd (omega arith)

no_rows : (h row : ℕ) → h ≡ 0 → h * row ≡ 0
no_rows h row e = ap (λ k. k * row) e ∙ zero-mul row

pub positive : (h : ℕ) → (h == 0) ≡ false → 0 < h
positive h e = ground arith

abbrev pub rows : List ℕ → FrameParameters → ℕ → Outcome ℕ → Iter ℕ
rows frame p h m = flat_map (λ l. m >>= λ k. slice_to k l) (chunks h p.bytes_per_line frame)

-- A panic in the closure shows when the first line is pulled.
rows_panic :
    (frame : List ℕ) (p : FrameParameters) (h : ℕ) (m : Outcome ℕ)
    → m ≡ panic
    → (h ≡ 0) × (rows frame p h m ≡ nil) ⊎ (rows frame p h m ≡ crash)
unfolding chunks flat_map
rows_panic frame p zero m e = inl (refl, refl)
rows_panic frame p (suc h) m e = inr (rw (e, flat_map))

module _ (frame : List ℕ) (p : FrameParameters) (h : ℕ) (size : length frame ≡ h * p.bytes_per_line)
    (line : 0 < p.bytes_per_line) where
  rows_over : (m : Outcome ℕ) → h ≡ 0 → rows frame p h m ≡ nil
  unfolding chunks flat_map
  rows_over m e = rw e

  -- The iterator over the rows is the list of their bytes, or over, or panics at once.
  rows_cases :
      (row : ℕ) (m : Outcome ℕ)
      → (m ≡ ret row) ⊎ (m ≡ panic)
      → Lined frame p row h × (rows frame p h m ≡ of_list (crop p.bytes_per_line row h frame))
        ⊎ ((h ≡ 0) × (rows frame p h m ≡ nil) ⊎ (rows frame p h m ≡ crash))
  rows_cases row m known = elim (Bool-cases (leb row p.bytes_per_line)) [
    | inl fits ↦ elim known [
      | inl e ↦
          let lined : Lined frame p row h = record {
            size = size;
            line = line;
            row_fits = leb→le _ _ fits;
          } in
          inl (lined, row_bytes lined m e)
      | inr e ↦ inr (rows_panic frame p h m e)
    ]
    | inr short ↦ elim (Bool-cases (h == 0)) [
      | inl none_left ↦
          let over : h ≡ 0 = (==_iff h 0).0 none_left in inr (inl (over, rows_over m over))
      | inr some_left ↦ inr (
          inr (
            short_lines frame p.bytes_per_line row h m (leb-false row _ short)
              (positive h some_left) known))
    ]
  ]

  pub copy-rows :
      (f : ℕ → ℕ) (row : ℕ) (m : Outcome ℕ)
      → (m ≡ ret row) ⊎ (m ≡ panic)
      → Fills (copy f (rows frame p h m)) (h * row) ⊎ Stops (copy f (rows frame p h m)) (h * row)
  copy-rows f row m known = elim (rows_cases row m known) [
    | inl (lined, e) ↦ rw e (
        inl (
          map f (crop p.bytes_per_line row h frame),
          length-map f _ ∙ length-crop lined,
          λ dst len. copy-of_list f _ dst (len ∙ sym (length-crop lined)),
        ))
    | inr (inl (over, e)) ↦ nothing_to_copy f (rows frame p h m) (h * row) (no_rows h row over)
    | inr (inr e) ↦ rw e (copy-crash f (h * row))
  ]

  pub unpack_rows :
      (row : ℕ) (m : Outcome ℕ)
      → (m ≡ ret row) ⊎ (m ≡ panic)
      → Fills (unpack_bytes 0 (rows frame p h m)) (h * row * 8)
        ⊎ Stops (unpack_bytes 0 (rows frame p h m)) (h * row * 8)
  unfolding unpack_bytes
  unpack_rows row m known = elim (rows_cases row m known) [
    | inl (lined, e) ↦ rw e (
        inl (
          flatten (map bits (crop p.bytes_per_line row h frame)),
          length-bits _ ∙ ap (λ n. n * 8) (length-crop lined),
          λ dst len.
              unpack_bytes-of_list 0 _ [] dst refl
                (len ∙ ap (λ n. n * 8) (sym (length-crop lined))),
        ))
    | inr (inl (over, e)) ↦
        rw e (nothing_to_unpack (h * row * 8) (ap (λ n. n * 8) (no_rows h row over)))
    | inr (inr e) ↦ rw e (inr (λ dst len. refl))
  ]
