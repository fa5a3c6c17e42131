-- ===== src/Scan/Delivery.antt =====
-- `FrameReader::read_full_frame`, libsane/src/device/scan.rs, over a library that writes no more than
-- it is asked for.
use libsane_rs.Common.{
  ℕ, zero, suc, ◌^◌, ◌≤◌, ◌≡◌, refl, sym, ap, ◌∙◌, arith, Bool, ◌&&◌, ◌||◌, Option, none, some,
  List, [], ◌++◌, append_assoc, append-nil, min, length, take, drop, ◌==◌, Outcome, ret, Result, ok,
  err, length-take,
}
use libsane_rs.Common.Safe.{
  Safe-value, Safe-weaken, mul_at-defined, Safe, Safe->>=, Safe-if, Safe-slice_to,
  Safe-reserve_exact, Safe-reserve,
}
use libsane_rs.Common.Vec.{Env, Vec, MaybeUninit, mul_u32, mul_usize, set_len-map}
use libsane_rs.Parameters.{FrameParameters}
use libsane_rs.Scan.Reader.{
  Status, eof, cancelled, other, SaneRead, int_max, End, finished, failed, out_of_fuel,
  sys_read_uninit, after_growth, read_by, fill, take_over, read_lines, next_try, grow,
  read_full_frame,
}
use libsane_rs.Scan.Filling.{
  Delivers, stop, more, AtMost, Read, sys_read_uninit-Safe, Broken, Broken-more, Filled,
  fill-Filled,
}

module _ {L : Type 0} (sane_read : SaneRead L)
    (bounded : (l : L) (n : ℕ) → AtMost n ((sane_read l n).0)) where
  -- What a call leaves of a frame of known height: behind the bytes of the vector those that the
  -- library delivered, as many as the product counts, if the call ends in `Ok`; otherwise the bytes of
  -- the vector alone, and what was delivered until the read that failed is lost.
  abbrev Whole : Env → FrameParameters → ℕ → L → Vec → End × Vec × L → Type 0
  Whole e p lines l v (finished, w, l2) =
      (bytes : List ℕ) × (w.bytes ≡ v.bytes ++ bytes)
      × Delivers sane_read l bytes l2
      × (mul_u32 e p.bytes_per_line lines ≡ ret (length bytes))
  Whole e p lines l v (failed s, w, l2) =
      (w.bytes ≡ v.bytes) × (lost : List ℕ) × Broken sane_read bounded l lost s l2
  Whole e p lines l v (out_of_fuel, w, l2) =
      (w.bytes ≡ v.bytes) × (lost : List ℕ) × Delivers sane_read l lost l2

  -- The reads of a call that end it: `Eof` for `Ok`, and the error that it returns.
  abbrev Ended : L → List ℕ → End → L → Type 0
  Ended l bytes finished l2 = Broken sane_read bounded l bytes eof l2
  Ended l bytes (failed s) l2 = Broken sane_read bounded l bytes s l2
  Ended l bytes out_of_fuel l2 = Delivers sane_read l bytes l2

  -- What it leaves of a frame of unknown height: behind the bytes of the vector all those that the
  -- library delivered.
  abbrev Grown : L → Vec → End × Vec × L → Type 0
  Grown l v r = (bytes : List ℕ) × (r.1.bytes ≡ v.bytes ++ bytes) × Ended l bytes r.0 r.2

  abbrev pub Appended : Env → FrameParameters → Option ℕ → L → Vec → End × Vec × L → Type 0
  Appended e p none l v r = Grown l v r
  Appended e p (some lines) l v r = Whole e p lines l v r

  Ended-more :
      (l l1 l2 : L) (n : ℕ) (bytes rest : List ℕ) (end : End)
      → sane_read l n ≡ (ok bytes, l1)
      → Ended l1 rest end l2
      → Ended l (bytes ++ rest) end l2
  Ended-more l l1 l2 n bytes rest finished e k = Broken-more sane_read bounded n bytes rest eof e k
  Ended-more l l1 l2 n bytes rest (failed s) e k = Broken-more sane_read bounded n bytes rest s e k
  Ended-more l l1 l2 n bytes rest out_of_fuel e k = more n bytes rest e k

  take_over-Appended :
      (e : Env) (p : FrameParameters) (lines n : ℕ) (l : L) (v w : Vec)
      (r : End × List MaybeUninit × L)
      → mul_u32 e p.bytes_per_line lines ≡ ret n
      → w.bytes ≡ v.bytes
      → n ≤ length w.spare
      → Filled sane_read bounded l (take n w.spare) r
      → Safe (Appended e p (some lines) l v) (take_over sane_read n w r)
  unfolding take_over
  take_over-Appended e p lines n l v w (failed s, m, l2) count same room k = (same, k.0, k.1)
  take_over-Appended e p lines n l v w (out_of_fuel, m, l2) count same room k = (same, k.0, k.1)
  take_over-Appended e p lines n l v w (finished, m, l2) count same room (bytes, shape, size, d) =
      let k : length bytes ≡ n = omega (arith, size, length-take n w.spare, room) in
      rw (shape, set_len-map n w bytes (drop n w.spare) k)
        (bytes, ap (λ b. b ++ bytes) same, d, count ∙ ap ret (sym k))

  read_lines-Appended :
      (e : Env) (debug : Bool) (fuel : ℕ) (l : L) (v : Vec) (p : FrameParameters) (lines : ℕ)
      → Safe (Appended e p (some lines) l v) (read_lines sane_read e debug fuel l v p lines)
  unfolding read_lines
  read_lines-Appended e debug fuel l v p lines =
      Safe-value (Appended e p (some lines) l v) (mul_u32 e p.bytes_per_line lines) _
        (mul_at-defined (2 ^ 32) e _ _)
        λ n count. Safe-reserve_exact (Appended e p (some lines) l v) e n v _ λ w r.
          Safe-slice_to (Appended e p (some lines) l v) n w.spare _ λ room.
            Safe->>= (Filled sane_read bounded l (take n w.spare)) (Appended e p (some lines) l v)
              (fill sane_read debug fuel l (take n w.spare)) _
              (fill-Filled sane_read bounded debug fuel l (take n w.spare))
              (λ result k. take_over-Appended e p lines n l v w result count r.same room k)

  Grown-more :
      (l l1 : L) (n : ℕ) (bytes : List ℕ) (v w : Vec) (r : End × Vec × L)
      → sane_read l n ≡ (ok bytes, l1)
      → w.bytes ≡ v.bytes ++ bytes
      → Grown l1 w r
      → Grown l v r
  Grown-more l l1 n bytes v w r read same (rest, shape, ended) = (
    bytes ++ rest,
    shape ∙ ap (λ b. b ++ rest) same ∙ append_assoc v.bytes bytes rest,
    Ended-more l l1 r.2 n bytes rest r.0 read ended,
  )

  after_growth-Grown :
      (debug : Bool) (next : L → Vec → ℕ → Outcome (End × Vec × L)) (reserved try_lines : ℕ) (l : L)
      (v w : Vec) (r : Result (List ℕ) Status × L)
      → ((l1 : L) (u : Vec) (k : ℕ) → Safe (Grown l1 u) (next l1 u k))
      → w.bytes ≡ v.bytes
      → Read sane_read bounded l w.spare r
      → Safe (Grown l v) (after_growth sane_read debug next reserved try_lines w r)
  unfolding after_growth
  after_growth-Grown debug next reserved try_lines l v w (err eof, l1) ih same k =
      ([], same ∙ sym (append-nil v.bytes), (l, min (length w.spare) int_max, stop l, k.0))
  after_growth-Grown debug next reserved try_lines l v w (err cancelled, l1) ih same k =
      ([], same ∙ sym (append-nil v.bytes), (l, min (length w.spare) int_max, stop l, k.0))
  after_growth-Grown debug next reserved try_lines l v w (err (other s), l1) ih same k =
      ([], same ∙ sym (append-nil v.bytes), (l, min (length w.spare) int_max, stop l, k.0))
  after_growth-Grown debug next reserved try_lines l v w (ok bytes, l1) ih same k =
      Safe-if (Grown l v) (debug && (length bytes == 0)) _ _ (λ _. tt)
        λ _. rw (set_len-map (length bytes) w bytes (drop (length bytes) w.spare) refl) (
          Safe-weaken
            (Grown l1 (record { bytes = w.bytes ++ bytes; spare = drop (length bytes) w.spare }))
            (Grown l v) _
            (λ s m.
              Grown-more l l1 (min (length w.spare) int_max) bytes v
                (record { bytes = w.bytes ++ bytes; spare = drop (length bytes) w.spare }) s k.0
                (ap (λ b. b ++ bytes) same) m)
            (ih l1 _ (next_try (length bytes) reserved try_lines)))

  grow-Grown :
      (e : Env) (debug : Bool) (fuel : ℕ) (p : FrameParameters) (l : L) (v : Vec) (try_lines : ℕ)
      → Safe (Grown l v) (grow sane_read e debug fuel p l v try_lines)
  unfolding grow
  grow-Grown e debug zero p l v try_lines = ([], sym (append-nil v.bytes), stop l)
  grow-Grown e debug (suc fuel) p l v try_lines =
      Safe-value (Grown l v) (mul_usize e p.bytes_per_line try_lines) _
        (mul_at-defined (2 ^ 64) e _ _)
        λ n _. Safe-reserve (Grown l v) e n v _ λ w r.
          Safe->>= (Read sane_read bounded l w.spare) (Grown l v)
            (sys_read_uninit sane_read l w.spare) _
            (sys_read_uninit-Safe sane_read bounded l w.spare)
            λ s k.
              after_growth-Grown debug _ n try_lines l v w s
                (λ l1 u j. grow-Grown e debug fuel p l1 u j) r.same k

  -- What `read_full_frame` leaves: a buffer that was appended to, and whether the scanner is done.
  abbrev pub Received : Env → FrameParameters → Bool → L → Vec → End × Vec × L × Bool → Type 0
  Received e p done l v r =
      Appended e p p.lines l v (r.0, r.1, r.2) × (r.3 ≡ (done || p.last_frame))

  read_by-Appended :
      (e : Env) (debug : Bool) (fuel : ℕ) (l : L) (v : Vec) (p : FrameParameters) (lines : Option ℕ)
      → Safe (Appended e p lines l v) (read_by sane_read e debug fuel l v p lines)
  unfolding read_by
  read_by-Appended e debug fuel l v p none = grow-Grown e debug fuel p l v 32
  read_by-Appended e debug fuel l v p (some lines) = read_lines-Appended e debug fuel l v p lines

  -- Over a library that writes at most as many bytes as it is asked for, `read_full_frame`
  -- reaches no undefined behaviour in any build, for all parameters, buffers and bounds of its
  -- loops. Where it does not panic, the library is left after the reads that were made, whose
  -- bytes are taken in order. If the number of lines is known and the call ends in `Ok`, these
  -- bytes stand behind what the buffer held, as many as the product of the bytes of a line and
  -- the lines is at 32 bits; if it ends in an error, the last read failed with this error and the
  -- buffer holds what it did, without the bytes delivered before. If the number of lines is
  -- unknown, all bytes delivered stand behind what the buffer held, and the last read failed with
  -- `Eof` if the call ends in `Ok`, and with the error that the call ends in otherwise. The
  -- scanner is done if it was or if the frame is the last one.
  pub read_full_frame-Received :
      (e : Env) (debug : Bool) (fuel : ℕ) (l : L) (p : FrameParameters) (started done : Bool)
      (v : Vec)
      → Safe (Received e p done l v) (read_full_frame sane_read e debug fuel l p started done v)
  unfolding read_full_frame
  read_full_frame-Received e debug fuel l p started done v =
      Safe-if (Received e p done l v) started _ _ (λ _. tt)
        λ _.
          Safe->>= (Appended e p p.lines l v) (Received e p done l v)
            (read_by sane_read e debug fuel l v p p.lines) _
            (read_by-Appended e debug fuel l v p p.lines) (λ r k. (k, refl))
