-- ===== src/Scan/Growing.antt =====
-- `FrameReader::read_full_frame`, libsane/src/device/scan.rs, on a frame of unknown height: the loop
-- that tries more or fewer lines, until the library reports the end of the frame.
use libsane_rs.Common.{
  ℕ, zero, suc, ◌+◌, ◌*◌, ◌^◌, ◌≤◌, ◌<◌, ◌≡◌, refl, sym, ap, ◌∙◌, arith, Bool, false, ◌||◌, ◌⊎◌,
  inl, inr, none, List, [], ◌++◌, append-nil, min, length, drop, ltb, ltb→lt, ltb-false, Bool-cases,
  Outcome, ret, ok, err, length-append,
}
use libsane_rs.Common.Vec.{Env, Vec, MaybeUninit, mul_at-ret, reserve, set_len-map}
use libsane_rs.Parameters.{FrameParameters}
use libsane_rs.Scan.Reader.{
  eof, SaneRead, int_max, End, finished, sys_read_uninit, into_buffer, next_try, after_growth, grow,
  read_by, read_full_frame,
}
use libsane_rs.Scan.Feeding.{Feeds, some_read, sys_read_uninit-chunk}
use libsane_rs.Scan.Room.{
  reserve-room, Budget, Budget-now, Budget-next, line_room, spare_room, nil_of_length, taken_in,
}

module _ {L : Type 0} (sane_read : SaneRead L) where
  -- One round of the loop, when the library has written something.
  after_growth-next :
      (debug : Bool) (next : L → Vec → ℕ → Outcome (End × Vec × L)) (n t : ℕ) (w : Vec)
      (bytes : List ℕ) (l1 : L)
      → 0 < length bytes
      → after_growth sane_read debug next n t w (ok bytes, l1)
        ≡ next l1
            (record { bytes = w.bytes ++ bytes; spare = drop (length bytes) w.spare })
            (next_try (length bytes) n t)
  unfolding after_growth
  after_growth-next debug next n t w bytes l1 pos =
      rw (some_read debug bytes pos)
        (rw (set_len-map (length bytes) w bytes (drop (length bytes) w.spare) refl))

  module _ (remaining : L → List ℕ) (feeds : Feeds sane_read remaining) where
    -- A read into room, when no bytes remain.
    sys_read_uninit-last :
        (l : L) (buf : List MaybeUninit)
        → 0 < length buf
        → remaining l ≡ []
        → (l1 : L) × (sys_read_uninit sane_read l buf ≡ ret (err eof, l1)) × (remaining l1 ≡ [])
    unfolding sys_read_uninit into_buffer
    sys_read_uninit-last l buf room none_left =
        let (l1, read, over) = feeds.last l (min (length buf) int_max) (omega arith) none_left in
        (l1, rw read, over)

    -- The loop appends all the bytes that remain.
    abbrev Grows : Env → Bool → ℕ → FrameParameters → L → Vec → ℕ → Type 0
    Grows e debug fuel p l v t =
        (w : Vec) × (l1 : L) × (grow sane_read e debug fuel p l v t ≡ ret (finished, w, l1))
        × (w.bytes ≡ v.bytes ++ remaining l)
        × (remaining l1 ≡ [])

    -- A round after the reservation, when no bytes remain.
    round-last :
        (e : Env) (debug : Bool) (fuel : ℕ) (p : FrameParameters) (l : L) (v w : Vec) (t : ℕ)
        → p.bytes_per_line * t < 2 ^ 64
        → reserve e (p.bytes_per_line * t) v ≡ ret w
        → w.bytes ≡ v.bytes
        → 0 < length w.spare
        → remaining l ≡ []
        → Grows e debug (suc fuel) p l v t
    unfolding grow after_growth
    round-last e debug fuel p l v w t fits reserved same room none_left =
        let (l1, read, over) = sys_read_uninit-last l w.spare room none_left in
        (
          w,
          l1,
          rw (mul_at-ret (2 ^ 64) e p.bytes_per_line t fits, reserved, read),
          rw none_left (same ∙ sym (append-nil v.bytes)),
          over,
        )

    -- A round that reads something, before the rest of the loop.
    round-more :
        (e : Env) (debug : Bool) (fuel : ℕ) (p : FrameParameters) (l : L) (v w : Vec) (t : ℕ)
        → ((l1 : L) (u : Vec) (t1 : ℕ)
            → length (remaining l1) < fuel
            → (0 < t1) ⊎ (0 < length u.spare)
            → Budget p.bytes_per_line u (length (remaining l1)) t1
            → Grows e debug fuel p l1 u t1)
        → length (remaining l) < suc fuel
        → p.bytes_per_line * t < 2 ^ 64
        → reserve e (p.bytes_per_line * t) v ≡ ret w
        → w.bytes ≡ v.bytes
        → p.bytes_per_line * t ≤ length w.spare
        → 0 < length w.spare
        → Budget p.bytes_per_line v (length (remaining l)) t
        → 0 < length (remaining l)
        → Grows e debug (suc fuel) p l v t
    unfolding grow
    round-more e debug fuel p l v w t ih enough fits reserved same has room budget left =
        let n = p.bytes_per_line * t in
        let (bytes, l1, pos, most, read, rest) =
          sys_read_uninit-chunk sane_read remaining feeds l w.spare room left in
        let count : length (remaining l) ≡ length bytes + length (remaining l1) =
          ap length rest ∙ length-append bytes (remaining l1) in
        let u : Vec = record { bytes = w.bytes ++ bytes; spare = drop (length bytes) w.spare } in
        let size : length u.bytes ≡ length v.bytes + length bytes =
          omega (arith, length-append w.bytes bytes, ap length same) in
        let t1 = next_try (length bytes) n t in
        let (z, l2, over, whole, empty) =
          ih l1 u t1 (omega arith) (spare_room (length bytes) n t w.spare has) (
            Budget-next p.bytes_per_line (length bytes) n t (length (remaining l))
              (length (remaining l1)) v.bytes u.bytes u.spare count pos size budget) in
        (
          z,
          l2,
          rw (
            mul_at-ret (2 ^ 64) e p.bytes_per_line t fits,
            reserved,
            read,
            after_growth-next debug (grow sane_read e debug fuel p) n t w bytes l1 pos,
            over,
          ),
          taken_in (remaining l1) bytes same whole rest,
          empty,
        )

    grow-Grows :
        (e : Env) (debug : Bool) (fuel : ℕ) (p : FrameParameters) (l : L) (v : Vec) (t : ℕ)
        → 0 < p.bytes_per_line
        → length (remaining l) < fuel
        → (0 < t) ⊎ (0 < length v.spare)
        → Budget p.bytes_per_line v (length (remaining l)) t
        → Grows e debug fuel p l v t
    grow-Grows e debug zero p l v t line enough some_room budget = absurd (omega arith)
    grow-Grows e debug (suc fuel) p l v t line enough some_room budget =
        let now = Budget-now p.bytes_per_line v (length (remaining l)) t budget in
        let fits : p.bytes_per_line * t < 2 ^ 64 = omega arith in
        let (w, reserved, same, has, room) =
          reserve-room e (p.bytes_per_line * t) v
            (line_room p.bytes_per_line t (length v.spare) line some_room) now in
        elim (Bool-cases (ltb 0 (length (remaining l)))) [
          | inl more ↦
              round-more e debug fuel p l v w t
                (λ l1 u t1 k some budget1. grow-Grows e debug fuel p l1 u t1 line k some budget1)
                enough fits reserved same has room budget (ltb→lt _ _ more)
          | inr no_more ↦
              round-last e debug fuel p l v w t fits reserved same room
                (nil_of_length (remaining l) (omega (arith, ltb-false _ _ no_more)))
        ]

    -- Over a library that hands out the bytes of a frame as the standard says: a frame of unknown
    -- height is read until the library reports its end, and all its bytes are put behind those that
    -- the vector holds, in every build, if the lines have bytes, the fuel is above the number of
    -- bytes, and a vector can hold twice what it holds, these bytes, 32 lines and a further line for
    -- each byte.
    pub read_full_frame-unknown :
        (e : Env) (debug : Bool) (fuel : ℕ) (l : L) (p : FrameParameters) (done : Bool) (v : Vec)
        → p.lines ≡ none
        → 0 < p.bytes_per_line
        → length (remaining l) < fuel
        → Budget p.bytes_per_line v (length (remaining l)) 32
        → (l1 : L) × (w : Vec) × (read_full_frame sane_read e debug fuel l p false done v
            ≡ ret (finished, w, l1, done || p.last_frame))
          × (w.bytes ≡ v.bytes ++ remaining l)
          × (remaining l1 ≡ [])
    unfolding read_full_frame read_by
    read_full_frame-unknown e debug fuel l p done v unknown line enough budget =
        let (w, l1, over, whole, empty) =
          grow-Grows e debug fuel p l v 32 line enough (inl (omega arith)) budget in
        (l1, w, simp (unknown, over), whole, empty)
