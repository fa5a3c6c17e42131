-- ===== src/Decoder/Loops.antt =====
-- The loops of `FrameDecoder::write`, libsane/src/device/scan/frame_decoder.rs, over the spare
-- capacity of the buffer, and `write_channel`.
use libsane_rs.Common.{
  ℕ, zero, suc, ◌+◌, ◌*◌, ◌/◌, ◌^◌, not, some, List, [], ◌∷◌, ◌++◌, flatten, ltb, ◌==◌,
  if◌then◌else◌, bit_and, length, take, drop, set, Outcome, ret, panic, ub, ◌>>=◌,
}
use libsane_rs.Common.Iter.{Iter, nil, crash, fault, cons, flat_map}
use libsane_rs.Common.Slice.{slice_to, slice, chunks_exact}
use libsane_rs.Common.Vec.{copy_from_slice, Env, MaybeUninit, mul_usize}

-- `for (dst, src) in dst.iter_mut().zip(bytes) { *dst = f(*src) }`: the destination is asked first.
unfoldable pub copy : (ℕ → ℕ) → Iter ℕ → List MaybeUninit → Outcome (List MaybeUninit)
copy f it [] = ret []
copy f nil (d ∷ dst) = ret (d ∷ dst)
copy f crash (d ∷ dst) = panic
copy f fault (d ∷ dst) = ub
copy f (cons b it) (d ∷ dst) = do rest ← copy f it dst; ret (some (f b) ∷ rest)

-- The bit of a packed byte that stands for pixel `j`: 0 for black, 1 for white.
unfoldable pub pixel_of : ℕ → ℕ → ℕ
pixel_of byte j = if not (bit_and byte (0x80 / 2 ^ j) == 0) then 0 else 1

unfoldable pub set_at : List MaybeUninit → ℕ → MaybeUninit → Outcome (List MaybeUninit)
set_at dst i v = if ltb i (length dst) then ret (set dst i v) else panic

-- `for j in 0..8 { dst[8 * i + j] = … }`, with the rounds that are left.
unfoldable pub unpack_byte : ℕ → ℕ → ℕ → ℕ → List MaybeUninit → Outcome (List MaybeUninit)
unfolding pixel_of set_at
unpack_byte zero j i byte dst = ret dst
unpack_byte (suc k) j i byte dst = do
  dst' ← set_at dst (8 * i + j) (some (pixel_of byte j))
  unpack_byte k (j + 1) i byte dst'

-- `for (i, byte) in bytes.enumerate()`.
unfoldable pub unpack_bytes : ℕ → Iter ℕ → List MaybeUninit → Outcome (List MaybeUninit)
unfolding unpack_byte
unpack_bytes i nil dst = ret dst
unpack_bytes i crash dst = panic
unpack_bytes i fault dst = ub
unpack_bytes i (cons byte it) dst = do
  dst' ← unpack_byte 8 0 i byte dst
  unpack_bytes (i + 1) it dst'

-- The loop of `write_channel`: each pixel's range `from..to` takes the next piece of the frame.
unfoldable pub write_pixels :
    ℕ → ℕ → List (List MaybeUninit) → Iter (List ℕ) → Outcome (List (List MaybeUninit))
unfolding copy_from_slice
write_pixels from to [] it = ret []
write_pixels from to (pixel ∷ pixels) it = slice from to pixel >>= λ part. elim it [
  | nil ↦ ret (pixel ∷ pixels)
  | crash ↦ panic
  | fault ↦ ub
  | cons src rest ↦ copy_from_slice part src >>= λ part'.
      write_pixels from to pixels rest >>= λ others.
      ret ((take from pixel ++ (part' ++ drop to pixel)) ∷ others)
]

unfoldable pub write_channel :
    Env → List ℕ → ℕ → ℕ → ℕ → ℕ → List MaybeUninit → Outcome (List MaybeUninit)
unfolding write_pixels
write_channel e frame bytes_per_line width bytes_per_channel offset dst = do
  lines ← chunks_exact bytes_per_line frame
  let channels =
      flat_map
        (λ line. mul_usize e width bytes_per_channel >>= λ n.
          slice_to n line >>= λ used. chunks_exact bytes_per_channel used)
        lines
  size ← mul_usize e 3 bytes_per_channel
  pixels ← chunks_exact size dst
  written ← write_pixels offset (offset + bytes_per_channel) pixels channels
  ret (flatten written ++ drop (length dst / size * size) dst)
