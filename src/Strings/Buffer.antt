-- ===== src/Strings/Buffer.antt =====
-- `SaneStr` and `SaneString` of libsane/src/string.rs, with the allocation and the casts of
-- libsane/src/slice_util.rs.
use libsane_rs.Common.{
  ℕ, ◌+◌, Bool, true, false, ◌&&◌, Option, none, some, List, [], ◌∷◌, ◌++◌, length, replicate, ltb,
  leb, ◌==◌, if◌then◌else◌, Outcome, ret, panic, ub, ◌>>=◌,
}
use libsane_rs.Common.Slice.{slice_to}
use libsane_rs.Common.Vec.{MaybeUninit, isize_max, all_init, write_prefix}

-- A borrowed string: the bytes before the NUL.
pub record SaneStr : Type 0 where
  pub bytes : List ℕ

unfoldable pub to_bytes_with_nul : SaneStr → List ℕ
to_bytes_with_nul s = s.bytes ++ (0 ∷ [])

pub record SaneString : Type 0 where
  pub buf : List MaybeUninit

unfoldable pub capacity : SaneString → ℕ
capacity s = length s.buf

-- `Layout::array(len).unwrap()` panics on a length that no allocation can have.
unfoldable pub new_uninit_boxed_slice : ℕ → Outcome (List MaybeUninit)
new_uninit_boxed_slice n = if leb n isize_max then ret (replicate n none) else panic

unfoldable pub with_capacity : ℕ → Outcome SaneString
unfolding new_uninit_boxed_slice
with_capacity reserve =
    if reserve == 0
    then panic
    else do buf ← new_uninit_boxed_slice reserve; ret (record { buf = buf })

-- `self.0[..bytes.len()].copy_from_slice(slice_as_maybe_uninit(bytes))`.
unfoldable pub overwrite : SaneString → List ℕ → Outcome SaneString
unfolding write_prefix
overwrite s bytes = write_prefix s.buf bytes >>= λ buf. ret (record { buf = buf })

unfoldable pub from_cstr : SaneStr → Outcome SaneString
unfolding with_capacity overwrite to_bytes_with_nul
from_cstr c = do s ← with_capacity (length (to_bytes_with_nul c)); overwrite s (to_bytes_with_nul c)

unfoldable pub set_contents : SaneString → SaneStr → Outcome SaneString
unfolding overwrite capacity to_bytes_with_nul
set_contents s value =
    if leb (length (to_bytes_with_nul value)) (capacity s)
    then overwrite s (to_bytes_with_nul value)
    else panic

-- The loops of `count_bytes` and `count_bytes_with_nul` from index `i` on.
unfoldable pub count_from : ℕ → List MaybeUninit → Outcome ℕ
count_from i [] = panic
count_from i (none ∷ xs) = ub
count_from i (some ch ∷ xs) = if ch == 0 then ret i else count_from (i + 1) xs

unfoldable pub count_with_nul_from : ℕ → List MaybeUninit → Outcome ℕ
count_with_nul_from i [] = panic
count_with_nul_from i (none ∷ xs) = ub
count_with_nul_from i (some ch ∷ xs) =
    if ch == 0 then ret (i + 1) else count_with_nul_from (i + 1) xs

unfoldable pub count_bytes : SaneString → Outcome ℕ
unfolding count_from
count_bytes s = count_from 0 s.buf

unfoldable pub count_bytes_with_nul : SaneString → Outcome ℕ
unfolding count_with_nul_from
count_bytes_with_nul s = count_with_nul_from 0 s.buf

initialised : Option (List ℕ) → Outcome (List ℕ)
initialised none = ub
initialised (some bs) = ret bs

-- `assume_init_slice`, defined where every byte is initialised.
unfoldable pub assume_init_slice : List MaybeUninit → Outcome (List ℕ)
unfolding initialised
assume_init_slice xs = initialised (all_init xs)

unfoldable pub to_bytes : SaneString → Outcome (List ℕ)
unfolding count_bytes assume_init_slice
to_bytes s = count_bytes s >>= λ len. slice_to len s.buf >>= assume_init_slice

unfoldable pub owned_bytes_with_nul : SaneString → Outcome (List ℕ)
unfolding count_bytes_with_nul assume_init_slice
owned_bytes_with_nul s = count_bytes_with_nul s >>= λ len. slice_to len s.buf >>= assume_init_slice

-- `Bytes::next` at a pointer, given by the memory from there to the end of the allocation.
unfoldable pub next_byte : List MaybeUninit → Outcome (Option (ℕ × List MaybeUninit))
next_byte [] = ub
next_byte (none ∷ xs) = ub
next_byte (some ch ∷ xs) = if ch == 0 then ret none else ret (some (ch, xs))

-- `Hash::hash`: what an iteration over `bytes()` hands to the hasher.
unfoldable pub hashed : List MaybeUninit → Outcome (List ℕ)
hashed [] = ub
hashed (none ∷ xs) = ub
hashed (some ch ∷ xs) = if ch == 0 then ret [] else (hashed xs >>= λ rest. ret (ch ∷ rest))

unfoldable pub hash : SaneString → Outcome (List ℕ)
unfolding hashed
hash s = hashed s.buf

-- `char::from_u32_unchecked(ch as u32)`: where `c_char` is signed, a byte from 128 on is extended to
-- a number that is no character.
unfoldable pub char_of : Bool → ℕ → Outcome ℕ
char_of signed ch = if signed && leb 128 ch then ub else ret ch

char_then : Bool → Option (ℕ × List MaybeUninit) → Outcome (Option (ℕ × List MaybeUninit))
unfolding char_of
char_then signed none = ret none
char_then signed (some (ch, xs)) = char_of signed ch >>= λ c. ret (some (c, xs))

-- `Chars::next`.
unfoldable pub next_char : Bool → List MaybeUninit → Outcome (Option (ℕ × List MaybeUninit))
unfolding next_byte char_then
next_char signed xs = next_byte xs >>= char_then signed

-- The characters that an iteration over `chars()` yields.
unfoldable pub chars : Bool → List MaybeUninit → Outcome (List ℕ)
unfolding char_of
chars signed [] = ub
chars signed (none ∷ xs) = ub
chars signed (some ch ∷ xs) =
    if ch == 0 then ret [] else (char_of signed ch >>= λ c. chars signed xs >>= λ cs. ret (c ∷ cs))

-- `self.chars().zip(other.chars()).all(|(a, b)| a == b)`.
unfoldable pub all_equal : Bool → List MaybeUninit → List MaybeUninit → Outcome Bool
unfolding next_char
all_equal signed [] ys = ub
all_equal signed (none ∷ xs) ys = ub
all_equal signed (some ch ∷ xs) ys =
    if ch == 0
    then ret true
    else (char_of signed ch >>= λ a. next_char signed ys >>= λ r. elim r [
      | none ↦ ret true
      | some b_rest ↦ if a == b_rest.0 then all_equal signed xs b_rest.1 else ret false
    ])

unfoldable pub eq : Bool → SaneString → SaneString → Outcome Bool
unfolding all_equal
eq signed s other = all_equal signed s.buf other.buf

pub data Ordering : Type 0 where
  less equal greater : Ordering

unfoldable pub cmp_char : ℕ → ℕ → Ordering
cmp_char a b = if ltb a b then less else if a == b then equal else greater

-- The closure of `find_map`: an order that is not equal ends the search.
unfoldable pub unless_equal : Ordering → Outcome Ordering → Outcome Ordering
unless_equal less rest = ret less
unless_equal equal rest = rest
unless_equal greater rest = ret greater

-- The zip of `Ord::cmp`, with `find_map` and `unwrap_or(Ordering::Equal)`.
unfoldable pub first_difference : Bool → List MaybeUninit → List MaybeUninit → Outcome Ordering
unfolding next_char cmp_char unless_equal
first_difference signed [] ys = ub
first_difference signed (none ∷ xs) ys = ub
first_difference signed (some ch ∷ xs) ys =
    if ch == 0
    then ret equal
    else (char_of signed ch >>= λ a. next_char signed ys >>= λ r. elim r [
      | none ↦ ret equal
      | some b_rest ↦ unless_equal (cmp_char a b_rest.0) (first_difference signed xs b_rest.1)
    ])

unfoldable pub cmp : Bool → SaneString → SaneString → Outcome Ordering
unfolding first_difference
cmp signed s other = first_difference signed s.buf other.buf
