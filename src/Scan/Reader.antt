-- ===== src/Scan/Reader.antt =====
-- `FrameReader::read_full_frame` of libsane/src/device/scan.rs, with `sys_read_uninit` of
-- libsane/src/proxied_sys.rs over a parameter that stands for `sane_read` of the C library.
use libsane_rs.Common.{
  ℕ, zero, suc, ◌+◌, ◌-◌, ◌/◌, ◌^◌, min, Bool, ◌&&◌, ◌||◌, Option, none, some, List, [], ◌∷◌, ◌++◌,
  map, length, drop, ltb, leb, ◌==◌, if◌then◌else◌, Outcome, ret, panic, ub, ◌>>=◌, Result, ok, err,
}
use libsane_rs.Common.Slice.{slice_to}
use libsane_rs.Common.Vec.{
  Env, Vec, MaybeUninit, mul_u32, mul_usize, reserve, reserve_exact, set_len,
}
use libsane_rs.Parameters.{FrameParameters}

-- The status codes that the reader tells apart.
pub data Status : Type 0 where
  eof cancelled : Status
  other : ℕ → Status

-- `sane_read` on a state of the library: asked for at most so many bytes, it writes some and returns
-- their number, or fails.
abbrev pub SaneRead : Type 0 → Type 0
SaneRead L = L → ℕ → Result (List ℕ) Status × L

-- `sys::Int::MAX`.
abbrev pub int_max : ℕ
int_max = 2 ^ 31 - 1

-- How a call ends: in `Ok`, in an error that it returns, or not within the fuel.
pub data End : Type 0 where
  finished : End
  failed : Status → End
  out_of_fuel : End

-- The next number of lines to try.
unfoldable pub next_try : ℕ → ℕ → ℕ → ℕ
next_try read_len reserved try_lines =
    if ltb read_len (reserved / 2) then try_lines / 2 else try_lines + 1

module _ {L : Type 0} (sane_read : SaneRead L) where
  -- What the library wrote, at the start of a buffer; a write behind its end is undefined.
  unfoldable pub into_buffer :
      List MaybeUninit → Result (List ℕ) Status × L → Outcome (Result (List ℕ) Status × L)
  into_buffer buf (err s, l) = ret (err s, l)
  into_buffer buf (ok bytes, l) = if leb (length bytes) (length buf) then ret (ok bytes, l) else ub

  unfoldable pub sys_read_uninit : L → List MaybeUninit → Outcome (Result (List ℕ) Status × L)
  unfolding into_buffer
  sys_read_uninit l buf = into_buffer buf (sane_read l (min (length buf) int_max))

  -- The body of the loop over a buffer of known size, after a read: `buf = &mut buf[read_len..]`.
  -- `next` is the rest of the loop.
  unfoldable pub after_read :
      Bool
      → (L → List MaybeUninit → Outcome (End × List MaybeUninit × L))
      → List MaybeUninit
      → Result (List ℕ) Status × L
      → Outcome (End × List MaybeUninit × L)
  after_read debug next buf (err eof, l) = panic
  after_read debug next buf (err cancelled, l) = ret (failed cancelled, buf, l)
  after_read debug next buf (err (other s), l) = ret (failed (other s), buf, l)
  after_read debug next buf (ok bytes, l) =
      if debug && (length bytes == 0)
      then panic
      else (next l (drop (length bytes) buf) >>= λ rest.
          ret (rest.0, map some bytes ++ rest.1, rest.2))

  -- The loop, until the buffer is empty. With how it ends come the memory and the library that it
  -- leaves.
  unfoldable pub fill : Bool → ℕ → L → List MaybeUninit → Outcome (End × List MaybeUninit × L)
  unfolding sys_read_uninit after_read
  fill debug fuel l [] = ret (finished, [], l)
  fill debug zero l (b ∷ buf) = ret (out_of_fuel, b ∷ buf, l)
  fill debug (suc fuel) l (b ∷ buf) =
      sys_read_uninit l (b ∷ buf) >>= after_read debug (fill debug fuel) (b ∷ buf)

  -- What the calls after the loop make of its end.
  unfoldable pub take_over : ℕ → Vec → End × List MaybeUninit × L → Outcome (End × Vec × L)
  take_over n v (finished, memory, l) =
      set_len n (record v { spare = memory ++ drop n v.spare }) >>= λ w. ret (finished, w, l)
  take_over n v (failed s, memory, l) =
      ret (failed s, record v { spare = memory ++ drop n v.spare }, l)
  take_over n v (out_of_fuel, memory, l) =
      ret (out_of_fuel, record v { spare = memory ++ drop n v.spare }, l)

  -- The branch of `read_full_frame` for a known number of lines.
  unfoldable pub read_lines :
      Env → Bool → ℕ → L → Vec → FrameParameters → ℕ → Outcome (End × Vec × L)
  unfolding fill take_over
  read_lines e debug fuel l v p lines = do
    bytes_to_read ← mul_u32 e p.bytes_per_line lines
    reserved ← reserve_exact e bytes_to_read v
    buf ← slice_to bytes_to_read reserved.spare
    result ← fill debug fuel l buf
    take_over bytes_to_read reserved result

  -- The body of the loop for an unknown number of lines, after a read into all of the spare capacity.
  -- `next` is the rest of the loop, from a vector and a number of lines to try on.
  unfoldable pub after_growth :
      Bool
      → (L → Vec → ℕ → Outcome (End × Vec × L))
      → ℕ
      → ℕ
      → Vec
      → Result (List ℕ) Status × L
      → Outcome (End × Vec × L)
  unfolding next_try
  after_growth debug next reserved try_lines w (err eof, l) = ret (finished, w, l)
  after_growth debug next reserved try_lines w (err cancelled, l) = ret (failed cancelled, w, l)
  after_growth debug next reserved try_lines w (err (other s), l) = ret (failed (other s), w, l)
  after_growth debug next reserved try_lines w (ok bytes, l) =
      if debug && (length bytes == 0)
      then panic
      else (set_len (length bytes)
            (record w { spare = map some bytes ++ drop (length bytes) w.spare })
          >>= λ u. next l u (next_try (length bytes) reserved try_lines))

  -- The loop, until `Eof`.
  unfoldable pub grow : Env → Bool → ℕ → FrameParameters → L → Vec → ℕ → Outcome (End × Vec × L)
  unfolding sys_read_uninit after_growth
  grow e debug zero p l v try_lines = ret (out_of_fuel, v, l)
  grow e debug (suc fuel) p l v try_lines =
      mul_usize e p.bytes_per_line try_lines >>= λ reserved_bytes.
      reserve e reserved_bytes v >>= λ w.
      sys_read_uninit l w.spare
      >>= after_growth debug (grow e debug fuel p) reserved_bytes try_lines w

  unfoldable pub read_by :
      Env → Bool → ℕ → L → Vec → FrameParameters → Option ℕ → Outcome (End × Vec × L)
  unfolding read_lines grow
  read_by e debug fuel l v p (some lines) = read_lines e debug fuel l v p lines
  read_by e debug fuel l v p none = grow e debug fuel p l v 32

  -- `read_full_frame`, with the reader's `started` and the scanner's `done`, on which it starts and
  -- which it sets where the frame is the last one. `debug` says whether the build checks
  -- `debug_assert_ne!`, and `fuel` bounds the calls of the library.
  unfoldable pub read_full_frame :
      Env → Bool → ℕ → L → FrameParameters → Bool → Bool → Vec → Outcome (End × Vec × L × Bool)
  unfolding read_by
  read_full_frame e debug fuel l p started done buf_vec =
      if started
      then panic
      else (read_by e debug fuel l buf_vec p p.lines >>= λ res.
          ret (res.0, res.1, res.2, done || p.last_frame))
