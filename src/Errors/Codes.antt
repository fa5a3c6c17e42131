-- ===== src/Errors/Codes.antt =====
-- The codes of libsane/src/error.rs against their names.
use libsane_rs.Common.{
  ℕ, ◌≡◌, ◌≢◌, ◌⊎◌, ◌↔◌, ◌⊎◌, inl, inr, subst, refl, arith, List, [], ◌∷◌, All, if◌then◌else◌,
  Result, ok, err,
}
use libsane_rs.Errors.Status.{
  StatusCodes, Status, from_sys, ErrorKind, read_error_to_io, read, is_eof, kind_of,
}

-- The codes that have a name.
abbrev pub named : StatusCodes → List ℕ
named c =
    c.unsupported ∷ c.cancelled ∷ c.device_busy ∷ c.inval ∷ c.eof ∷ c.jammed ∷ c.no_docs
    ∷ c.cover_open ∷ c.io_error ∷ c.no_mem ∷ c.access_denied ∷ []

-- The code that a name stands for, for a name that has one.
abbrev pub IsCodeOf : StatusCodes → ℕ → Status → Type 0
IsCodeOf c s Status.unsupported = s ≡ c.unsupported
IsCodeOf c s Status.cancelled = s ≡ c.cancelled
IsCodeOf c s Status.device_busy = s ≡ c.device_busy
IsCodeOf c s Status.inval = s ≡ c.inval
IsCodeOf c s Status.eof = s ≡ c.eof
IsCodeOf c s Status.jammed = s ≡ c.jammed
IsCodeOf c s Status.no_docs = s ≡ c.no_docs
IsCodeOf c s Status.cover_open = s ≡ c.cover_open
IsCodeOf c s Status.io_error = s ≡ c.io_error
IsCodeOf c s Status.no_mem = s ≡ c.no_mem
IsCodeOf c s Status.access_denied = s ≡ c.access_denied
IsCodeOf c s Status.unknown = All (λ k. s ≢ k) (named c)

-- No code twice.
abbrev pub Apart : List ℕ → Type 0
Apart [] = Unit
Apart (k ∷ ks) = All (λ j. k ≢ j) ks × Apart ks

from_sys_sound : (c : StatusCodes) (s : ℕ) → IsCodeOf c s (from_sys c s)
unfolding from_sys
from_sys_sound c s = ground arith

from_sys_complete :
    (c : StatusCodes) (s : ℕ) (name : Status)
    → Apart (named c)
    → IsCodeOf c s name
    → from_sys c s ≡ name
unfolding from_sys
from_sys_complete c s Status.unsupported apart h = ground arith
from_sys_complete c s Status.cancelled apart h = ground arith
from_sys_complete c s Status.device_busy apart h = ground arith
from_sys_complete c s Status.inval apart h = ground arith
from_sys_complete c s Status.eof apart h = ground arith
from_sys_complete c s Status.jammed apart h = ground arith
from_sys_complete c s Status.no_docs apart h = ground arith
from_sys_complete c s Status.cover_open apart h = ground arith
from_sys_complete c s Status.io_error apart h = ground arith
from_sys_complete c s Status.no_mem apart h = ground arith
from_sys_complete c s Status.access_denied apart h = ground arith
from_sys_complete c s Status.unknown apart h = ground arith

-- Where the constants of the bindings differ, `from_sys` gives a code just the name that stands for
-- it, and the name for unknown codes just where no other does.
pub from_sys-IsCodeOf :
    (c : StatusCodes) (s : ℕ) (name : Status)
    → Apart (named c)
    → (from_sys c s ≡ name) ↔ IsCodeOf c s name
from_sys-IsCodeOf c s name apart =
    (λ e. subst (IsCodeOf c s) e (from_sys_sound c s), from_sys_complete c s name apart)

-- What `io::Read::read` makes of an error by its name.
abbrev read_name : Status → Result ℕ ErrorKind
unfolding is_eof kind_of
read_name n = if is_eof n then ok 0 else err (kind_of n)

read_name-cases :
    (n : Status)
    → ((n ≡ Status.eof) × (read_name n ≡ ok 0))
      ⊎ ((n ≢ Status.eof)
          × (k : ErrorKind) × (read_name n ≡ err k)
          × (k ≢ ErrorKind.unexpected_eof))
unfolding is_eof kind_of
read_name-cases Status.unsupported = inr ((λ e. cc), _, refl, (λ e. cc))
read_name-cases Status.cancelled = inr ((λ e. cc), _, refl, (λ e. cc))
read_name-cases Status.device_busy = inr ((λ e. cc), _, refl, (λ e. cc))
read_name-cases Status.inval = inr ((λ e. cc), _, refl, (λ e. cc))
read_name-cases Status.eof = inl (refl, refl)
read_name-cases Status.jammed = inr ((λ e. cc), _, refl, (λ e. cc))
read_name-cases Status.no_docs = inr ((λ e. cc), _, refl, (λ e. cc))
read_name-cases Status.cover_open = inr ((λ e. cc), _, refl, (λ e. cc))
read_name-cases Status.io_error = inr ((λ e. cc), _, refl, (λ e. cc))
read_name-cases Status.no_mem = inr ((λ e. cc), _, refl, (λ e. cc))
read_name-cases Status.access_denied = inr ((λ e. cc), _, refl, (λ e. cc))
read_name-cases Status.unknown = inr ((λ e. cc), _, refl, (λ e. cc))

-- Where the constants of the bindings differ: `io::Read::read` turns an error of `read_frame` into
-- the end of the data, 0 bytes, just if its code is that of the end; no other error is reported as an
-- unexpected end.
pub read-eof :
    (c : StatusCodes) (s : ℕ)
    → Apart (named c)
    → ((s ≡ c.eof) × (read c (err s) ≡ ok 0))
      ⊎ ((s ≢ c.eof) × (k : ErrorKind) × (read c (err s) ≡ err k) × (k ≢ ErrorKind.unexpected_eof))
unfolding read read_error_to_io
read-eof c s apart = elim (read_name-cases (from_sys c s)) [
  | inl (e, r) ↦ inl ((from_sys-IsCodeOf c s Status.eof apart).0 e, r)
  | inr (ne, k, r, d) ↦ inr ((λ e. ne ((from_sys-IsCodeOf c s Status.eof apart).1 e)), k, r, d)
]
