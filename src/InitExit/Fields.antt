-- ===== src/InitExit/Fields.antt =====
-- The writers of `Authorizer`, libsane/src/init_exit.rs, against what the C library reads from the
-- buffers.
use libsane_rs.Common.{
  ℕ, zero, suc, ◌+◌, ◌^◌, ◌<◌, ◌≤◌, ◌≡◌, ◌⊎◌, inl, inr, refl, ap, arith, none, some, List, [], ◌∷◌,
  ◌++◌, map, length, drop, replicate, All, leb, leb→le, leb-false, lt→ltb, Bool-cases, ret, ub, ok,
  err, ==_ne,
}
use libsane_rs.Common.Vec.{MaybeUninit}
use libsane_rs.Strings.Buffer.{SaneStr, to_bytes_with_nul, count_from}
use libsane_rs.Strings.Content.{Holds, NonNul, length-with_nul, write_prefix-Holds}
use libsane_rs.InitExit.Credentials.{too_long, write_nul, write_str, write_str_latin1}

-- Characters that Latin-1 has.
abbrev pub Latin1 : List ℕ → Type 0
Latin1 source = All (λ ch. ch < 2 ^ 8) source

-- Where `write_str` succeeds: the characters, one place of the target as it was, the NUL, and the
-- rest of the target.
pub record Written (target : List MaybeUninit) (source : List ℕ) (left : List MaybeUninit)
    : Type 0 where
  pub kept : MaybeUninit
  pub before_nul : MaybeUninit
  pub rest : List MaybeUninit
  pub shape : left ≡ map some source ++ (kept ∷ some 0 ∷ rest)
  pub place : drop (length source) target ≡ kept ∷ before_nul ∷ rest

-- `write_str` on characters of Latin-1 succeeds where the target has room for two places more than
-- they take, and leaves the place behind them as it was; else it returns that they are too long.
pub write_str-Written :
    (target : List MaybeUninit) (source : List ℕ)
    → Latin1 source
    → ((length source + 1 < length target)
        × (left : List MaybeUninit) × (write_str target source ≡ (ok tt, left))
        × Written target source left)
      ⊎ ((length target ≤ length source + 1) × ((write_str target source).0 ≡ err too_long))
unfolding write_str write_nul
write_str-Written [] source h = inr (omega arith, refl)
write_str-Written (d ∷ []) [] h = inr (omega arith, refl)
write_str-Written (d ∷ e ∷ target) [] h = inl (
  omega arith,
  d ∷ some 0 ∷ target,
  refl,
  record { kept = d; before_nul = e; rest = target; shape = refl; place = refl },
)
write_str-Written (d ∷ target) (c ∷ source) h =
    rw (lt→ltb c (2 ^ 8) h.0) (elim (write_str-Written target source h.1) [
      | inl (room, left, e, w) ↦ inl (
        omega (arith, room),
        some c ∷ left,
        rw e,
        record {
          kept = w.kept;
          before_nul = w.before_nul;
          rest = w.rest;
          shape = ap (◌∷◌ (some c)) w.shape;
          place = w.place;
        },
      )
      | inr (short, e) ↦ inr (omega (arith, short), e)
    ])

write_str-count_from_at :
    (n : ℕ) (source : List ℕ) (i : ℕ)
    → NonNul source
    → Latin1 source
    → length source + 1 < n
    → (left : List MaybeUninit) × (write_str (replicate n none) source ≡ (ok tt, left))
      × (count_from i left ≡ ub)
unfolding write_str write_nul count_from
write_str-count_from_at zero source i h l room = absurd (omega arith)
write_str-count_from_at (suc zero) source i h l room = absurd (omega arith)
write_str-count_from_at (suc (suc n)) [] i h l room = (none ∷ some 0 ∷ replicate n none, refl, refl)
write_str-count_from_at (suc (suc n)) (c ∷ source) i h l room =
    let (left, e, u) =
      write_str-count_from_at (suc n) source (i + 1) h.1 l.1 (omega (arith, room)) in
    (some c ∷ left, rw (lt→ltb c (2 ^ 8) l.0) (rw e), rw (==_ne c 0 (omega (arith, h.0))) u)

-- Into a buffer with no initialised byte, `write_str` reports success on every text of Latin-1
-- characters other than NUL that is shorter by two than the buffer, and to read the buffer as a C
-- string is then undefined: the byte behind the text is none that was written.
pub write_str-count_from :
    (n : ℕ) (source : List ℕ)
    → NonNul source
    → Latin1 source
    → length source + 1 < n
    → (left : List MaybeUninit) × (write_str (replicate n none) source ≡ (ok tt, left))
      × (count_from 0 left ≡ ub)
write_str-count_from n source h l room = write_str-count_from_at n source 0 h l room

-- `write_str_latin1` of a string without inner NUL: where the string and its NUL fit, the target
-- holds the string and keeps its size, and where they do not, it is left as it was and the error says
-- that they are too long.
pub write_str_latin1-Holds :
    (target : List MaybeUninit) (source : SaneStr)
    → NonNul source.bytes
    → ((length source.bytes < length target)
        × (left : List MaybeUninit) × (write_str_latin1 target source ≡ ret (ok tt, left))
        × Holds left source.bytes
        × (length left ≡ length target))
      ⊎ ((length target ≤ length source.bytes)
          × (write_str_latin1 target source ≡ ret (err too_long, target)))
unfolding write_str_latin1
write_str_latin1-Holds target source h =
    elim (Bool-cases (leb (length (to_bytes_with_nul source)) (length target))) [
      | inl fits ↦
          let room : length source.bytes < length target =
            omega (arith, leb→le _ _ fits, length-with_nul source) in
          let (left, e, holds, same) = write_prefix-Holds target source h room in
          inl (room, left, rw (fits, e), holds, same)
      | inr short ↦ inr (omega (arith, leb-false _ _ short, length-with_nul source), rw short)
    ]
