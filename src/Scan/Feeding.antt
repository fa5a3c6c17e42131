-- ===== src/Scan/Feeding.antt =====
-- `FrameReader::read_full_frame`, libsane/src/device/scan.rs, over a library that hands out the bytes
-- of a frame as the SANE standard says `sane_read` does.
use libsane_rs.Common.{
  ℕ, zero, suc, ◌+◌, ◌-◌, ◌*◌, ◌^◌, ◌≤◌, ◌<◌, ◌≡◌, refl, sym, ap, ◌∙◌, arith, Bool, false, ◌&&◌,
  ◌||◌, some, List, [], ◌∷◌, ◌++◌, map, append_assoc, map-append, min, length, take, drop, ◌==◌,
  le→leb, Outcome, ret, ok, err, length-append, length-take, length-drop,
}
use libsane_rs.Common.Slice.{slice_to-ret}
use libsane_rs.Common.Vec.{
  Env, Vec, MaybeUninit, isize_max, mul_at-ret, reserve_exact-Reserved, set_len-map,
}
use libsane_rs.Parameters.{FrameParameters}
use libsane_rs.Scan.Reader.{
  eof, SaneRead, int_max, End, finished, sys_read_uninit, into_buffer, after_read, fill, take_over,
  read_lines, read_by, read_full_frame,
}

-- What the standard says of `sane_read` between the start and the end of a frame: while bytes of
-- the frame remain, it writes the next ones, no more than it is asked for and at least one, and the
-- others remain; when none remain, it reports the end of the frame.
pub record Feeds {L : Type 0} (sane_read : SaneRead L) (remaining : L → List ℕ) : Type 0 where
  pub chunk :
      (l : L) (n : ℕ)
      → 0 < n
      → 0 < length (remaining l)
      → (bytes : List ℕ) × (l1 : L) × (0 < length bytes)
        × (length bytes ≤ n)
        × (sane_read l n ≡ (ok bytes, l1))
        × (remaining l ≡ bytes ++ remaining l1)
  pub last :
      (l : L) (n : ℕ)
      → 0 < n
      → remaining l ≡ []
      → (l1 : L) × (sane_read l n ≡ (err eof, l1)) × (remaining l1 ≡ [])

-- The debug assertion holds.
pub some_read :
    (debug : Bool) (bytes : List ℕ) → 0 < length bytes → (debug && (length bytes == 0)) ≡ false
some_read debug bytes pos = ground arith

pub two_pieces : {r r1 : List ℕ} (r2 a b : List ℕ) → r ≡ a ++ r1 → r1 ≡ b ++ r2 → r ≡ (a ++ b) ++ r2
two_pieces r2 a b e1 e2 = e1 ∙ ap (λ r. a ++ r) e2 ∙ sym (append_assoc a b r2)

finished_with :
    {L : Type 0} (a b : List ℕ) (l : L)
    → ◌≡◌ {A = Outcome (End × List MaybeUninit × L)}
        (ret (finished, map some a ++ map some b, l))
        (ret (finished, map some (a ++ b), l))
finished_with a b l = ap (λ m. ret (finished, m, l)) (sym (map-append some a b))

module _ {L : Type 0} (sane_read : SaneRead L) where
  -- One round of the loop, when the library has written something.
  after_read-finished :
      (debug : Bool) (next : L → List MaybeUninit → Outcome (End × List MaybeUninit × L))
      (buf : List MaybeUninit) (bytes : List ℕ) (l1 l2 : L) (m : List MaybeUninit)
      → 0 < length bytes
      → next l1 (drop (length bytes) buf) ≡ ret (finished, m, l2)
      → after_read sane_read debug next buf (ok bytes, l1) ≡ ret (finished, map some bytes ++ m, l2)
  unfolding after_read
  after_read-finished debug next buf bytes l1 l2 m pos e = rw (some_read debug bytes pos, e)

  module _ (remaining : L → List ℕ) (feeds : Feeds sane_read remaining) where
    -- A read into a buffer that is not empty, while bytes remain.
    pub sys_read_uninit-chunk :
        (l : L) (buf : List MaybeUninit)
        → 0 < length buf
        → 0 < length (remaining l)
        → (bytes : List ℕ) × (l1 : L) × (0 < length bytes)
          × (length bytes ≤ length buf)
          × (sys_read_uninit sane_read l buf ≡ ret (ok bytes, l1))
          × (remaining l ≡ bytes ++ remaining l1)
    unfolding sys_read_uninit into_buffer
    sys_read_uninit-chunk l buf room left =
        let (bytes, l1, pos, most, read, rest) =
          feeds.chunk l (min (length buf) int_max) (omega arith) left in
        (
          bytes,
          l1,
          pos,
          omega arith,
          rw (read, le→leb (length bytes) (length buf) (omega arith)),
          rest,
        )

    -- The loop over a buffer fills it with the next bytes.
    fill-finished :
        (debug : Bool) (fuel : ℕ) (l : L) (buf : List MaybeUninit)
        → length buf ≤ fuel
        → length buf ≤ length (remaining l)
        → (bytes : List ℕ) × (l1 : L) × (length bytes ≡ length buf)
          × (fill sane_read debug fuel l buf ≡ ret (finished, map some bytes, l1))
          × (remaining l ≡ bytes ++ remaining l1)
    unfolding fill
    fill-finished debug fuel l [] enough have = ([], l, refl, refl, refl)
    fill-finished debug zero l (b ∷ buf) enough have = absurd (omega arith)
    fill-finished debug (suc fuel) l (b ∷ buf) enough have =
        let (bytes, l1, pos, most, read, rest) =
          sys_read_uninit-chunk l (b ∷ buf) (omega arith) (omega arith) in
        let left : length (drop (length bytes) (b ∷ buf)) ≡ length (b ∷ buf) - length bytes =
          length-drop (length bytes) (b ∷ buf) in
        let (more, l2, size, over, rest2) =
          fill-finished debug fuel l1 (drop (length bytes) (b ∷ buf)) (omega (arith, left))
            (omega (arith, left, ap length rest, length-append bytes (remaining l1))) in
        (
          bytes ++ more,
          l2,
          omega (arith, length-append bytes more, size, left),
          rw
              (
                read,
                after_read-finished debug (fill sane_read debug fuel) (b ∷ buf) bytes l1 l2
                    (map some more) pos over,
              )
              (finished_with bytes more l2),
          two_pieces (remaining l2) bytes more rest rest2,
        )

    -- Over a library that hands out the bytes of a frame as the standard says: the bytes of a frame of
    -- known height, the number of which does not wrap round and which the library has, are put behind
    -- those that the vector holds, in every build, if a vector can hold them and the fuel is not
    -- below their number.
    pub read_full_frame-known :
        (e : Env) (debug : Bool) (fuel lines : ℕ) (l : L) (p : FrameParameters) (done : Bool)
        (v : Vec)
        → p.lines ≡ some lines
        → p.bytes_per_line * lines < 2 ^ 32
        → p.bytes_per_line * lines ≤ length (remaining l)
        → p.bytes_per_line * lines ≤ fuel
        → length v.bytes + p.bytes_per_line * lines ≤ isize_max
        → (bytes : List ℕ) × (l1 : L) × (w : Vec) × (read_full_frame sane_read e debug fuel l p
              false done v
            ≡ ret (finished, w, l1, done || p.last_frame))
          × (w.bytes ≡ v.bytes ++ bytes)
          × (length bytes ≡ p.bytes_per_line * lines)
          × (remaining l ≡ bytes ++ remaining l1)
    unfolding read_full_frame read_by read_lines take_over
    read_full_frame-known e debug fuel lines l p done v known fits have enough room =
        let n = p.bytes_per_line * lines in
        let (w, reserved, res) = reserve_exact-Reserved e n v room in
        let size : length (take n w.spare) ≡ n = omega (arith, length-take n w.spare, res.room) in
        let (bytes, l1, taken, over, rest) =
          fill-finished debug fuel l (take n w.spare) (omega (arith, size)) (omega (arith, size)) in
        (
          bytes,
          l1,
          record { bytes = w.bytes ++ bytes; spare = drop n w.spare },
          simp (
            known,
            mul_at-ret (2 ^ 32) e p.bytes_per_line lines fits,
            reserved,
            slice_to-ret n w.spare res.room,
            over,
            set_len-map n w bytes (drop n w.spare) (taken ∙ size),
          ),
          ap (λ b. b ++ bytes) res.same,
          taken ∙ size,
          rest,
        )
