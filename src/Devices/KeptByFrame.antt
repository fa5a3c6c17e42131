-- ===== src/Devices/KeptByFrame.antt =====
-- The reads of `FrameReader::read_full_frame`, libsane/src/device/scan.rs, against a property of the
-- library that a read keeps.
use libsane_rs.Common.{
  ℕ, zero, suc, Bool, ◌&&◌, Option, none, some, List, [], ◌∷◌, length, drop, min, leb, ◌==◌,
  Outcome, ret, panic, ub, Result, ok, err,
}
use libsane_rs.Common.Returns.{Returns, Returns->>=, Returns-then, Returns-if}
use libsane_rs.Common.Slice.{slice_to}
use libsane_rs.Common.Vec.{
  Env, Vec, MaybeUninit, mul_u32, mul_usize, reserve, reserve_exact, set_len,
}
use libsane_rs.Parameters.{FrameParameters}
use libsane_rs.Scan.Reader.{
  Status, eof, cancelled, other, SaneRead, int_max, End, finished, failed, out_of_fuel, into_buffer,
  sys_read_uninit, after_read, fill, take_over, read_lines, after_growth, next_try, grow, read_by,
  read_full_frame,
}

module _ {L : Type 0} (sane_read : SaneRead L) (P : L → Type 0)
    (steady : (l : L) (n : ℕ) → P l → P ((sane_read l n).1)) where
  -- What a loop leaves, and what a read does.
  abbrev Kept {ℓ} : {A : Type ℓ} → End × A × L → Type 0
  Kept r = P r.2

  abbrev ReadKept : Result (List ℕ) Status × L → Type 0
  ReadKept r = P r.1

  into_buffer-Kept :
      (buf : List MaybeUninit) (r : Result (List ℕ) Status × L)
      → P r.1
      → Returns ReadKept (into_buffer sane_read buf r)
  unfolding into_buffer
  into_buffer-Kept buf (err s, l) k = k
  into_buffer-Kept buf (ok bytes, l) k =
      Returns-if ReadKept (leb (length bytes) (length buf)) (ret (ok bytes, l)) ub (λ e. k)
        (λ e. tt)

  sys_read_uninit-Kept :
      (l : L) (buf : List MaybeUninit) → P l → Returns ReadKept (sys_read_uninit sane_read l buf)
  unfolding sys_read_uninit
  sys_read_uninit-Kept l buf k = into_buffer-Kept buf _ (steady l (min (length buf) int_max) k)

  after_read-Kept :
      (debug : Bool) (next : L → List MaybeUninit → Outcome (End × List MaybeUninit × L))
      (buf : List MaybeUninit) (r : Result (List ℕ) Status × L)
      → ((l : L) (m : List MaybeUninit) → P l → Returns (Kept {A = List MaybeUninit}) (next l m))
      → P r.1
      → Returns (Kept {A = List MaybeUninit}) (after_read sane_read debug next buf r)
  unfolding after_read
  after_read-Kept debug next buf (err eof, l) ih k = tt
  after_read-Kept debug next buf (err cancelled, l) ih k = k
  after_read-Kept debug next buf (err (other s), l) ih k = k
  after_read-Kept debug next buf (ok bytes, l) ih k =
      Returns-if (Kept {A = List MaybeUninit}) (debug && (length bytes == 0)) panic _ (λ e. tt)
        (λ e.
          Returns-then (Kept {A = List MaybeUninit}) (Kept {A = List MaybeUninit})
            (next l (drop (length bytes) buf)) _ (ih l (drop (length bytes) buf) k) (λ rest j. j))

  fill-Kept :
      (debug : Bool) (fuel : ℕ) (l : L) (buf : List MaybeUninit)
      → P l
      → Returns (Kept {A = List MaybeUninit}) (fill sane_read debug fuel l buf)
  unfolding fill
  fill-Kept debug fuel l [] k = k
  fill-Kept debug zero l (b ∷ buf) k = k
  fill-Kept debug (suc fuel) l (b ∷ buf) k =
      Returns-then (Kept {A = List MaybeUninit}) ReadKept (sys_read_uninit sane_read l (b ∷ buf)) _
        (sys_read_uninit-Kept l (b ∷ buf) k)
        (λ r j. after_read-Kept debug _ (b ∷ buf) r (λ l1 m h. fill-Kept debug fuel l1 m h) j)

  take_over-Kept :
      (n : ℕ) (v : Vec) (r : End × List MaybeUninit × L)
      → P r.2
      → Returns (Kept {A = Vec}) (take_over sane_read n v r)
  unfolding take_over
  take_over-Kept n v (finished, m, l) k = Returns->>= (Kept {A = Vec}) (set_len n _) _ (λ w. k)
  take_over-Kept n v (failed s, m, l) k = k
  take_over-Kept n v (out_of_fuel, m, l) k = k

  read_lines-Kept :
      (e : Env) (debug : Bool) (fuel : ℕ) (l : L) (v : Vec) (p : FrameParameters) (lines : ℕ)
      → P l
      → Returns (Kept {A = Vec}) (read_lines sane_read e debug fuel l v p lines)
  unfolding read_lines
  read_lines-Kept e debug fuel l v p lines k =
      Returns->>= (Kept {A = Vec}) (mul_u32 e p.bytes_per_line lines) _ λ n.
        Returns->>= (Kept {A = Vec}) (reserve_exact e n v) _ λ w.
          Returns->>= (Kept {A = Vec}) (slice_to n w.spare) _ λ buf.
            Returns-then (Kept {A = Vec}) (Kept {A = List MaybeUninit})
              (fill sane_read debug fuel l buf) _ (fill-Kept debug fuel l buf k)
              (take_over-Kept n w)

  after_growth-Kept :
      (debug : Bool) (next : L → Vec → ℕ → Outcome (End × Vec × L)) (reserved try_lines : ℕ)
      (w : Vec) (r : Result (List ℕ) Status × L)
      → ((l : L) (u : Vec) (n : ℕ) → P l → Returns (Kept {A = Vec}) (next l u n))
      → P r.1
      → Returns (Kept {A = Vec}) (after_growth sane_read debug next reserved try_lines w r)
  unfolding after_growth
  after_growth-Kept debug next reserved try_lines w (err eof, l) ih k = k
  after_growth-Kept debug next reserved try_lines w (err cancelled, l) ih k = k
  after_growth-Kept debug next reserved try_lines w (err (other s), l) ih k = k
  after_growth-Kept debug next reserved try_lines w (ok bytes, l) ih k =
      Returns-if (Kept {A = Vec}) (debug && (length bytes == 0)) panic _ (λ e. tt)
        (λ e.
          Returns->>= (Kept {A = Vec}) (set_len (length bytes) _) _
            (λ u. ih l u (next_try (length bytes) reserved try_lines) k))

  grow-Kept :
      (e : Env) (debug : Bool) (fuel : ℕ) (p : FrameParameters) (l : L) (v : Vec) (try_lines : ℕ)
      → P l
      → Returns (Kept {A = Vec}) (grow sane_read e debug fuel p l v try_lines)
  unfolding grow
  grow-Kept e debug zero p l v try_lines k = k
  grow-Kept e debug (suc fuel) p l v try_lines k =
      Returns->>= (Kept {A = Vec}) (mul_usize e p.bytes_per_line try_lines) _ λ n.
        Returns->>= (Kept {A = Vec}) (reserve e n v) _ λ w.
          Returns-then (Kept {A = Vec}) ReadKept (sys_read_uninit sane_read l w.spare) _
            (sys_read_uninit-Kept l w.spare k)
            (λ r j.
              after_growth-Kept debug _ n try_lines w r
                (λ l1 u i h. grow-Kept e debug fuel p l1 u i h) j)

  read_by-Kept :
      (e : Env) (debug : Bool) (fuel : ℕ) (l : L) (v : Vec) (p : FrameParameters) (lines : Option ℕ)
      → P l
      → Returns (Kept {A = Vec}) (read_by sane_read e debug fuel l v p lines)
  unfolding read_by
  read_by-Kept e debug fuel l v p none k = grow-Kept e debug fuel p l v 32 k
  read_by-Kept e debug fuel l v p (some lines) k = read_lines-Kept e debug fuel l v p lines k

  -- The state of the library at the end of a call.
  pub read_full_frame-Kept :
      (e : Env) (debug : Bool) (fuel : ℕ) (l : L) (p : FrameParameters) (started over : Bool)
      (v : Vec)
      → P l
      → Returns (λ r. P r.2) (read_full_frame sane_read e debug fuel l p started over v)
  unfolding read_full_frame
  read_full_frame-Kept e debug fuel l p started over v k =
      Returns-if (λ (r : End × Vec × L × Bool). P r.2) started panic _ (λ e. tt)
        (λ free.
          Returns-then (λ (r : End × Vec × L × Bool). P r.2) (Kept {A = Vec})
            (read_by sane_read e debug fuel l v p p.lines) _
            (read_by-Kept e debug fuel l v p p.lines k) (λ r j. j))
