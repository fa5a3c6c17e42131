-- ===== src/Common/Text.antt =====
-- Texts as lists of characters, and what a program has printed and reads.
use Prim.Native.Char.{code}
use Prim.Native.String.{String}
use Prim.Native.Nat.{ℕ}
use mathlib.Core.Path.{◌≡◌, refl}
use mathlib.Core.Bool.{Bool, true, false, ◌&&◌}
use mathlib.Core.Option.{Option, none, some}
use mathlib.Core.List.{List, [], ◌∷◌, ◌++◌}
use libsane_rs.Common.Tests.{◌==◌, ==_refl, if◌then◌else◌}

-- The characters of a literal of the source.
abbrev pub text : String → List ℕ
text String.[] = []
text (String.◌∷◌ c rest) = code c ∷ text rest

-- The standard streams of a process: what further reads of the input give, each of them some
-- characters, and what has been printed.
pub record Console : Type 0 where
  pub input : List (List ℕ)
  pub printed : List ℕ

unfoldable pub print : List ℕ → Console → Console
print s c = record c { printed = c.printed ++ s }

unfoldable pub println : List ℕ → Console → Console
unfolding print
println s c = print (s ++ (b'\n' ∷ [])) c

-- Two texts that are the same.
unfoldable pub same_text : List ℕ → List ℕ → Bool
same_text [] [] = true
same_text [] (d ∷ ds) = false
same_text (c ∷ cs) [] = false
same_text (c ∷ cs) (d ∷ ds) = c == d && same_text cs ds

-- `strip_prefix`
unfoldable pub strip_prefix : List ℕ → List ℕ → Option (List ℕ)
strip_prefix [] s = some s
strip_prefix (c ∷ cs) [] = none
strip_prefix (c ∷ cs) (d ∷ ds) = if c == d then strip_prefix cs ds else none

pub strip_prefix-append : (p s : List ℕ) → strip_prefix p (p ++ s) ≡ some s
unfolding strip_prefix
strip_prefix-append [] s = refl
strip_prefix-append (c ∷ p) s = rw (==_refl c, strip_prefix-append p s)

-- `unwrap_or`
abbrev pub unwrap_or : Option (List ℕ) → List ℕ → List ℕ
unwrap_or none s = s
unwrap_or (some t) s = t
