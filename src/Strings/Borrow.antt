-- ===== src/Strings/Borrow.antt =====
-- Borrowed and owned strings of libsane/src/string.rs: the methods of `SaneStr`, `from_ptr`, `Borrow`
-- and `ToOwned`.
use libsane_rs.Common.{
  ℕ, ◌+◌, ◌<◌, ◌≡◌, refl, ap, ◌∙◌, arith, Bool, none, some, List, [], ◌∷◌, ◌++◌, map, length, ◌==◌,
  ==_ne, if◌then◌else◌, Outcome, ret, ub, ◌>>=◌,
}
use libsane_rs.Common.Text.{same_text}
use libsane_rs.Common.Vec.{MaybeUninit, isize_max}
use libsane_rs.Strings.Buffer.{SaneStr, SaneString, capacity, from_cstr}
use libsane_rs.Strings.Content.{Holds, NonNul, from_cstr-Holds}

unfoldable pub str_count_bytes : SaneStr → ℕ
str_count_bytes s = length s.bytes

unfoldable pub str_count_bytes_with_nul : SaneStr → ℕ
unfolding str_count_bytes
str_count_bytes_with_nul s = str_count_bytes s + 1

unfoldable pub str_to_bytes : SaneStr → List ℕ
str_to_bytes s = s.bytes

-- `CStr::from_ptr` reads up to the NUL, which has to come before memory that is not initialised.
unfoldable pub str_from_ptr : List MaybeUninit → Outcome SaneStr
str_from_ptr [] = ub
str_from_ptr (none ∷ xs) = ub
str_from_ptr (some ch ∷ xs) =
    if ch == 0
    then ret (record { bytes = [] })
    else (str_from_ptr xs >>= λ s. ret (record { bytes = ch ∷ s.bytes }))

-- `AsRef<CStr>`, `AsRef<SaneStr>` and `Borrow<SaneStr>` of an owned string.
unfoldable pub borrow : SaneString → Outcome SaneStr
unfolding str_from_ptr
borrow s = str_from_ptr s.buf

unfoldable pub to_owned : SaneStr → Outcome SaneString
unfolding from_cstr
to_owned s = from_cstr s

-- The derived `==` of borrowed strings, that of their bytes.
unfoldable pub str_eq : SaneStr → SaneStr → Bool
unfolding same_text
str_eq s other = same_text s.bytes other.bytes

str_from_ptr-bytes :
    (bs : List ℕ) (rest : List MaybeUninit)
    → NonNul bs
    → str_from_ptr (map some bs ++ (some 0 ∷ rest)) ≡ ret (record { bytes = bs })
unfolding str_from_ptr
str_from_ptr-bytes [] rest h = refl
str_from_ptr-bytes (b ∷ bs) rest h =
    rw (==_ne b 0 (omega (arith, h.0))) (rw (str_from_ptr-bytes bs rest h.1))

pub borrow-Holds :
    (s : SaneString) (bs : List ℕ) → Holds s.buf bs → borrow s ≡ ret (record { bytes = bs })
unfolding borrow
borrow-Holds s bs h = ap str_from_ptr h.shape ∙ str_from_ptr-bytes bs h.rest h.non_nul

-- A borrowed string without inner NUL that an allocation can hold is owned and borrowed again as it
-- was, in a buffer of just its bytes and the NUL.
pub to_owned-borrow :
    (s : SaneStr)
    → NonNul s.bytes
    → length s.bytes < isize_max
    → (t : SaneString) × (to_owned s ≡ ret t)
      × (borrow t ≡ ret s)
      × (capacity t ≡ str_count_bytes_with_nul s)
unfolding to_owned str_count_bytes_with_nul str_count_bytes
to_owned-borrow s h small =
    let (t, e, holds, size) = from_cstr-Holds s h small in
    (t, e, borrow-Holds t s.bytes holds, size)
