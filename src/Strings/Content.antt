-- ===== src/Strings/Content.antt =====
-- What a `SaneString` of libsane/src/string.rs holds, the bytes before its first NUL, against the
-- functions that write and read it.
use libsane_rs.Common.{
  leb-false, ℕ, ◌+◌, ◌<◌, ◌≤◌, ◌≡◌, refl, sym, ap, ◌∙◌, arith, Bool, false, ◌&&◌, none, some, List,
  [], ◌∷◌, ◌++◌, map, length, drop, All, replicate, leb, le→leb, ==_ne, ret, panic, ◌>>=◌, ◌⊎◌, inl,
  inr, length-drop, length-append, length-map, length-replicate, take-append, Bool-cases, leb→le,
}
use libsane_rs.Common.Slice.{slice_to, slice_to-ret}
use libsane_rs.Common.Vec.{MaybeUninit, isize_max, all_init-map, write_prefix, write_prefix-ret}
use libsane_rs.Strings.Buffer.{
  SaneStr, SaneString, to_bytes_with_nul, new_uninit_boxed_slice, with_capacity, overwrite,
  from_cstr, set_contents, capacity, count_from, count_with_nul_from, count_bytes,
  count_bytes_with_nul, assume_init_slice, hashed, hash, to_bytes, owned_bytes_with_nul, chars,
  char_of,
}

-- The bytes of a string are not NUL.
abbrev pub NonNul : List ℕ → Type 0
NonNul bs = All (λ b. 0 < b) bs

-- A memory that begins with the bytes of a string and its NUL.
pub record Holds (m : List MaybeUninit) (bs : List ℕ) : Type 0 where
  pub rest : List MaybeUninit
  pub shape : m ≡ map some bs ++ (some 0 ∷ rest)
  pub non_nul : NonNul bs

count_from-ret :
    (bs : List ℕ) (rest : List MaybeUninit) (i : ℕ)
    → NonNul bs
    → count_from i (map some bs ++ (some 0 ∷ rest)) ≡ ret (i + length bs)
unfolding count_from
count_from-ret [] rest i h = ap ret (omega arith)
count_from-ret (b ∷ bs) rest i h =
    rw (==_ne b 0 (omega (arith, h.0))) (count_from-ret bs rest (i + 1) h.1 ∙ ap ret (omega arith))

count_with_nul_from-ret :
    (bs : List ℕ) (rest : List MaybeUninit) (i : ℕ)
    → NonNul bs
    → count_with_nul_from i (map some bs ++ (some 0 ∷ rest)) ≡ ret (i + length bs + 1)
unfolding count_with_nul_from
count_with_nul_from-ret [] rest i h = ap ret (omega arith)
count_with_nul_from-ret (b ∷ bs) rest i h =
    rw (==_ne b 0 (omega (arith, h.0)))
      (count_with_nul_from-ret bs rest (i + 1) h.1 ∙ ap ret (omega arith))

-- Reading back a range of initialised bytes.
assume_init_slice-map :
    (bs : List ℕ) (rest : List MaybeUninit) (n : ℕ)
    → length bs ≡ n
    → (slice_to n (map some bs ++ rest) >>= assume_init_slice) ≡ ret bs
unfolding assume_init_slice
assume_init_slice-map bs rest n h =
    let k : length (map some bs) ≡ n = length-map some bs ∙ h in
    rw
      (
        slice_to-ret n (map some bs ++ rest) (omega (arith, k, length-append (map some bs) rest)),
        take-append n (map some bs) rest k,
      )
      (rw (all_init-map bs) refl)

with_nul-shape :
    (bs : List ℕ) (rest : List MaybeUninit)
    → map some (bs ++ (0 ∷ [])) ++ rest ≡ map some bs ++ (some 0 ∷ rest)
with_nul-shape [] rest = refl
with_nul-shape (b ∷ bs) rest = ap (◌∷◌ (some b)) (with_nul-shape bs rest)

pub length-with_nul : (c : SaneStr) → length (to_bytes_with_nul c) ≡ length c.bytes + 1
unfolding to_bytes_with_nul
length-with_nul c = length-append c.bytes (0 ∷ [])

-- A string and its NUL at the start of a memory with room for them.
pub write_prefix-Holds :
    (target : List MaybeUninit) (value : SaneStr)
    → NonNul value.bytes
    → length value.bytes < length target
    → (t : List MaybeUninit) × (write_prefix target (to_bytes_with_nul value) ≡ ret t)
      × Holds t value.bytes
      × (length t ≡ length target)
unfolding to_bytes_with_nul
write_prefix-Holds target value h room =
    let bs = value.bytes ++ (0 ∷ []) in
    let n : length bs ≡ length value.bytes + 1 = length-append value.bytes (0 ∷ []) in
    (
      map some bs ++ drop (length bs) target,
      write_prefix-ret target bs (omega (arith, n)),
      record { rest = drop (length bs) target; shape = with_nul-shape value.bytes _; non_nul = h },
      length-append (map some bs) _
          ∙ omega (
            arith,
            n,
            length-map {0, 0} {A = ℕ} {B = MaybeUninit} some bs,
            length-drop (length bs) target,
          ),
    )

overwrite-Holds :
    (s : SaneString) (value : SaneStr)
    → NonNul value.bytes
    → length value.bytes < length s.buf
    → (t : SaneString) × (overwrite s (to_bytes_with_nul value) ≡ ret t)
      × Holds t.buf value.bytes
      × (capacity t ≡ capacity s)
unfolding overwrite capacity
overwrite-Holds s value h room =
    let (t, e, holds, same) = write_prefix-Holds s.buf value h room in
    (record { buf = t }, rw e, holds, same)

-- `set_contents` of a string without inner NUL, on any buffer, initialised or not: where the string
-- and its NUL fit, the buffer holds the string and keeps its capacity, and where they do not, the
-- call panics.
pub set_contents-Holds :
    (s : SaneString) (value : SaneStr)
    → NonNul value.bytes
    → ((length value.bytes < capacity s)
        × (t : SaneString) × (set_contents s value ≡ ret t)
        × Holds t.buf value.bytes
        × (capacity t ≡ capacity s))
      ⊎ ((capacity s ≤ length value.bytes) × (set_contents s value ≡ panic))
unfolding set_contents capacity to_bytes_with_nul
set_contents-Holds s value h =
    elim (Bool-cases (leb (length (to_bytes_with_nul value)) (capacity s))) [
      | inl fits ↦
          let room : length value.bytes < length s.buf =
            omega (arith, leb→le _ _ fits, length-append value.bytes (0 ∷ [])) in
          let (t, e, holds, same) = overwrite-Holds s value h room in
          inl (room, t, rw fits e, holds, same)
      | inr short ↦
          inr (omega (arith, leb-false _ _ short, length-append value.bytes (0 ∷ [])), rw short)
    ]

length-capacity : (s : SaneString) → capacity s ≡ length s.buf
unfolding capacity
length-capacity s = refl

-- `from_cstr` of a string without inner NUL that an allocation can hold: the new string holds its
-- bytes, in a buffer of just their number and the NUL.
pub from_cstr-Holds :
    (c : SaneStr)
    → NonNul c.bytes
    → length c.bytes < isize_max
    → (t : SaneString) × (from_cstr c ≡ ret t)
      × Holds t.buf c.bytes
      × (capacity t ≡ length c.bytes + 1)
unfolding from_cstr with_capacity new_uninit_boxed_slice
from_cstr-Holds c h small =
    let n : length (to_bytes_with_nul c) ≡ length c.bytes + 1 = length-with_nul c in
    let fresh : SaneString = record { buf = replicate (length (to_bytes_with_nul c)) none } in
    let size : length fresh.buf ≡ length c.bytes + 1 =
      length-replicate (length (to_bytes_with_nul c)) none ∙ n in
    let (t, e, holds, same) = overwrite-Holds fresh c h (omega (arith, size)) in
    (
      t,
      rw
          (
            ==_ne (length (to_bytes_with_nul c)) 0 (omega (arith, n)),
            le→leb (length (to_bytes_with_nul c)) isize_max (omega (arith, n, small)),
          )
          e,
      holds,
      same ∙ length-capacity fresh ∙ size,
    )

hashed-ret :
    (bs : List ℕ) (rest : List MaybeUninit)
    → NonNul bs
    → hashed (map some bs ++ (some 0 ∷ rest)) ≡ ret bs
unfolding hashed
hashed-ret [] rest h = refl
hashed-ret (b ∷ bs) rest h = rw (==_ne b 0 (omega (arith, h.0))) (rw (hashed-ret bs rest h.1) refl)

-- A string that holds bytes is read as these: by both counts, which are the index of the first NUL
-- and one more, by both slices, without and with the NUL, and by a hasher, whatever stands behind the
-- NUL. None of the reads of memory that may not be initialised is undefined.
pub reads-Holds :
    (s : SaneString) (bs : List ℕ)
    → Holds s.buf bs
    → (count_bytes s ≡ ret (length bs))
      × (count_bytes_with_nul s ≡ ret (length bs + 1))
      × (to_bytes s ≡ ret bs)
      × (owned_bytes_with_nul s ≡ ret (bs ++ (0 ∷ [])))
      × (hash s ≡ ret bs)
unfolding count_bytes count_bytes_with_nul to_bytes owned_bytes_with_nul hash
reads-Holds s bs h =
    let n : count_from 0 (map some bs ++ (some 0 ∷ h.rest)) ≡ ret (length bs) =
      count_from-ret bs h.rest 0 h.non_nul ∙ ap ret (omega arith) in
    let m : count_with_nul_from 0 (map some bs ++ (some 0 ∷ h.rest)) ≡ ret (length bs + 1) =
      count_with_nul_from-ret bs h.rest 0 h.non_nul ∙ ap ret (omega arith) in
    rw h.shape (
      n,
      m,
      rw n (assume_init_slice-map bs (some 0 ∷ h.rest) (length bs) refl),
      rw (m, sym (with_nul-shape bs h.rest))
          (assume_init_slice-map (bs ++ (0 ∷ [])) h.rest (length bs + 1)
            (length-append bs (0 ∷ []))),
      hashed-ret bs h.rest h.non_nul,
    )

-- Bytes that are characters where `c_char` is signed or not.
abbrev pub Latin : Bool → List ℕ → Type 0
Latin signed bs = All (λ b. (signed && leb 128 b) ≡ false) bs

-- The characters of a string that holds such bytes are the bytes.
pub chars-Holds :
    (signed : Bool) (bs : List ℕ) (rest : List MaybeUninit)
    → NonNul bs
    → Latin signed bs
    → chars signed (map some bs ++ (some 0 ∷ rest)) ≡ ret bs
unfolding chars char_of
chars-Holds signed [] rest h l = refl
chars-Holds signed (b ∷ bs) rest h l =
    rw (==_ne b 0 (omega (arith, h.0)), l.0) (rw (chars-Holds signed bs rest h.1 l.1))
