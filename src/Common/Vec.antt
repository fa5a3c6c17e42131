-- ===== src/Common/Vec.antt =====
-- Rust's `Vec<u8>`: its bytes, and the spare capacity behind them, whose bytes may not be
-- initialised (`MaybeUninit<u8>`). `usize` has 64 bits.
use Prim.Native.Nat.{max, ℕ, ◌+◌, ◌-◌, ◌*◌, ◌%◌, ◌^◌, ◌≤◌, ◌<◌}
use mathlib.Core.Path.{◌≡◌, refl, ap, ◌∙◌}
use mathlib.Core.Bool.{Bool}
use mathlib.Core.List.{List, [], ◌∷◌, ◌++◌, map}
use mathlib.Core.Logic.{inl, inr, ◌⊎◌}
use mathlib.Core.Option
use mathlib.Core.Option.{Option, none, some}
use native.Mathlib.Omega.{arith}
use libsane_rs.Common.Tests.{
  ==_refl, ◌==◌, leb, ltb, if◌then◌else◌, le→leb, leb→le, lt→ltb, Bool-cases,
}
use libsane_rs.Common.Lists.{
  length, take, drop, replicate, length-take, length-append, length-map, length-replicate,
  take-append, drop-append,
}
use libsane_rs.Common.Effects.{Outcome, ret, panic, ub, ◌>>=◌}
use libsane_rs.Common.Slice.{slice_to, slice_to-ret}

-- What a run of the program depends on beside its arguments: whether the build checks arithmetic
-- for overflow, and how many bytes more than it was asked for the allocator grants.
pub record Env : Type 0 where
  pub overflow_checks : Bool
  pub slack : ℕ

abbrev pub MaybeUninit : Type 0
MaybeUninit = Option ℕ

pub record Vec : Type 0 where
  pub bytes : List ℕ
  pub spare : List MaybeUninit

abbrev pub isize_max : ℕ
isize_max = 2 ^ 63 - 1

-- A product at a width: in range, or a panic, or wrapped round.
unfoldable pub mul_at : ℕ → Env → ℕ → ℕ → Outcome ℕ
mul_at modulus e a b =
    if ltb (a * b) modulus
    then ret (a * b)
    else if e.overflow_checks
    then panic
    else ret (a * b % modulus)

-- A sum of `usize`s.
unfoldable pub add_usize : Env → ℕ → ℕ → Outcome ℕ
add_usize e a b =
    if ltb (a + b) (2 ^ 64)
    then ret (a + b)
    else if e.overflow_checks
    then panic
    else ret ((a + b) % 2 ^ 64)

pub add_usize-ret : (e : Env) (a b : ℕ) → a + b < 2 ^ 64 → add_usize e a b ≡ ret (a + b)
unfolding add_usize
add_usize-ret e a b h = rw (lt→ltb (a + b) (2 ^ 64) h)

abbrev pub mul_u32 : Env → ℕ → ℕ → Outcome ℕ
mul_u32 = mul_at (2 ^ 32)

abbrev pub mul_usize : Env → ℕ → ℕ → Outcome ℕ
mul_usize = mul_at (2 ^ 64)

pub mul_at-ret : (m : ℕ) (e : Env) (a b : ℕ) → a * b < m → mul_at m e a b ≡ ret (a * b)
unfolding mul_at
mul_at-ret m e a b h = rw (lt→ltb (a * b) m h)

-- `dst.copy_from_slice(src)`.
unfoldable pub copy_from_slice : List MaybeUninit → List ℕ → Outcome (List MaybeUninit)
copy_from_slice dst src = if length dst == length src then ret (map some src) else panic

-- `target[..bytes.len()].copy_from_slice(bytes)`: the target afterwards.
unfoldable pub write_prefix : List MaybeUninit → List ℕ → Outcome (List MaybeUninit)
unfolding copy_from_slice
write_prefix target bytes = do
  dst ← slice_to (length bytes) target
  written ← copy_from_slice dst bytes
  ret (written ++ drop (length bytes) target)

pub write_prefix-ret :
    (target : List MaybeUninit) (bs : List ℕ)
    → length bs ≤ length target
    → write_prefix target bs ≡ ret (map some bs ++ drop (length bs) target)
unfolding write_prefix
write_prefix-ret target bs h =
    let k : length (take (length bs) target) ≡ length bs =
      omega (arith, length-take (length bs) target) in
    rw (slice_to-ret (length bs) target h, k, ==_refl (length bs))

-- `reserve_exact`: nothing happens if the spare capacity suffices, else the vector moves to new
-- memory, and what stood in the spare capacity is lost.
unfoldable pub reserve_exact : Env → ℕ → Vec → Outcome Vec
reserve_exact e n v =
    if leb n (length v.spare)
    then ret v
    else if leb (length v.bytes + n) isize_max
    then ret (record v { spare = replicate (n + e.slack) none })
    else panic

-- The capacity that `reserve` goes to: room for `n` more bytes, at least twice what there is, and no
-- less than 8.
abbrev pub grown : Vec → ℕ → ℕ
grown v n = max 8 (max (2 * (length v.bytes + length v.spare)) (length v.bytes + n))

-- `reserve`, which does the same and may ask for more.
unfoldable pub reserve : Env → ℕ → Vec → Outcome Vec
reserve e n v =
    if leb n (length v.spare)
    then ret v
    else if leb (grown v n) isize_max
    then ret (record v { spare = replicate (grown v n - length v.bytes + e.slack) none })
    else panic

-- `clear`: the bytes become spare capacity.
unfoldable pub clear : Vec → Vec
clear v = record { bytes = []; spare = map some v.bytes ++ v.spare }

-- `extend_from_slice`, which asks for room as `reserve` does.
unfoldable pub extend_from_slice : Env → List ℕ → Vec → Outcome Vec
unfolding reserve
extend_from_slice e src v = reserve e (length src) v >>= λ w.
    ret (record { bytes = w.bytes ++ src; spare = drop (length src) w.spare })

pub extend_from_slice-ret :
    (e : Env) (src bytes : List ℕ) (spare : List MaybeUninit)
    → length src ≤ length spare
    → extend_from_slice e src (record { bytes = bytes; spare = spare })
      ≡ ret (record { bytes = bytes ++ src; spare = drop (length src) spare })
unfolding extend_from_slice reserve
extend_from_slice-ret e src bytes spare room = rw (le→leb (length src) (length spare) room)

-- `for (dst, src) in dst.iter_mut().zip(src)`-like loops over `&mut spare_capacity_mut()[..n]`.
unfoldable pub write_spare : ℕ → (List MaybeUninit → Outcome (List MaybeUninit)) → Vec → Outcome Vec
write_spare n body v = do
  dst ← slice_to n v.spare
  written ← body dst
  ret (record v { spare = written ++ drop n v.spare })

unfoldable pub all_init : List MaybeUninit → Option (List ℕ)
all_init [] = some []
all_init (none ∷ xs) = none
all_init (some b ∷ xs) = Option.map (◌∷◌ b) (all_init xs)

-- `v.set_len(v.len() + n)`, sound only where `n` bytes of the spare capacity are initialised.
set_len_if : ℕ → Vec → Option (List ℕ) → Outcome Vec
set_len_if n v none = ub
set_len_if n v (some bs) = ret (record { bytes = v.bytes ++ bs; spare = drop n v.spare })

unfoldable pub set_len : ℕ → Vec → Outcome Vec
unfolding set_len_if
set_len n v = if leb n (length v.spare) then set_len_if n v (all_init (take n v.spare)) else ub

pub all_init-map : (bs : List ℕ) → all_init (map some bs) ≡ some bs
unfolding all_init
all_init-map [] = refl
all_init-map (b ∷ bs) = ap (Option.map (◌∷◌ b)) (all_init-map bs)

-- What a vector is after `n` bytes are reserved: the same bytes, and room.
pub record Reserved (v : Vec) (n : ℕ) (w : Vec) : Type 0 where
  pub same : w.bytes ≡ v.bytes
  pub room : n ≤ length w.spare

pub reserve_exact-Reserved :
    (e : Env) (n : ℕ) (v : Vec)
    → length v.bytes + n ≤ isize_max
    → (w : Vec) × (reserve_exact e n v ≡ ret w) × Reserved v n w
unfolding reserve_exact
reserve_exact-Reserved e n v h = elim (Bool-cases (leb n (length v.spare))) [
  | inl enough ↦ (v, rw enough, record { same = refl; room = leb→le _ _ enough })
  | inr short ↦ (
    record v { spare = replicate (n + e.slack) none },
    rw (short, le→leb _ _ h),
    record {
      same = refl;
      room = omega (arith, length-replicate {0} {A = MaybeUninit} (n + e.slack) none);
    },
  )
]

-- A loop that fills the bytes that `set_len` then takes over.
pub set_len-write_spare :
    (n : ℕ) (v : Vec) (body : List MaybeUninit → Outcome (List MaybeUninit)) (bs : List ℕ)
    → n ≤ length v.spare
    → length bs ≡ n
    → body (take n v.spare) ≡ ret (map some bs)
    → (write_spare n body v >>= set_len n)
      ≡ ret (record { bytes = v.bytes ++ bs; spare = drop n v.spare })
unfolding write_spare set_len set_len_if
set_len-write_spare n v body bs h l e =
    let k : length (map some bs) ≡ n = length-map some bs ∙ l in
    let room : n ≤ length (map some bs ++ drop n v.spare) =
      omega (arith, k, length-append (map some bs) (drop n v.spare)) in
    rw
      (slice_to-ret n v.spare h, e, le→leb _ _ room, take-append n (map some bs) (drop n v.spare) k)
      (rw (all_init-map bs) (rw (drop-append n (map some bs) (drop n v.spare) k)))

-- With no bound known, the call panics or returns some vector.
pub reserve_exact-cases :
    (e : Env) (n : ℕ) (v : Vec)
    → (reserve_exact e n v ≡ panic) ⊎ ((w : Vec) × (reserve_exact e n v ≡ ret w))
unfolding reserve_exact
reserve_exact-cases e n v = elim (Bool-cases (leb n (length v.spare))) [
  | inl enough ↦ inr (v, rw enough)
  | inr short ↦ elim (Bool-cases (leb (length v.bytes + n) isize_max)) [
    | inl fits ↦ inr (record v { spare = replicate (n + e.slack) none }, rw (short, fits))
    | inr large ↦ inl (rw (short, large))
  ]
]

-- `set_len` over bytes that are initialised.
pub set_len-map :
    (n : ℕ) (v : Vec) (bs : List ℕ) (rest : List MaybeUninit)
    → length bs ≡ n
    → set_len n (record v { spare = map some bs ++ rest })
      ≡ ret (record { bytes = v.bytes ++ bs; spare = rest })
unfolding set_len set_len_if
set_len-map n v bs rest l =
    let k : length (map some bs) ≡ n = length-map some bs ∙ l in
    let room : n ≤ length (map some bs ++ rest) =
      omega (arith, k, length-append (map some bs) rest) in
    rw (le→leb _ _ room, take-append n (map some bs) rest k)
      (rw (all_init-map bs) (rw (drop-append n (map some bs) rest k)))
