-- ===== src/Version/Text.antt =====
-- `Display` of `Version`, libsane/src/lib.rs.
use libsane_rs.Common.{
  ℕ, ◌≡◌, refl, sym, ap, ◌∙◌, Option, none, some, List, [], ◌∷◌, ◌++◌, append-nil, ◌==◌,
  if◌then◌else◌,
}
use libsane_rs.Common.Decimal.{is_digit, show, read_number, read_number-show}
use libsane_rs.Common.Text.{text}
use libsane_rs.Version.Code.{Version, major, minor, build}
use libsane_rs.Version.Numbers.{Numbers, of, new-Numbers}

-- `write!(f, "{}.{}.{}", …)`
unfoldable pub fmt : Version → List ℕ
unfolding show major minor build
fmt v = show (major v) ++ (text "." ++ (show (minor v) ++ (text "." ++ show (build v))))

-- What follows a point.
after_point {ℓ} : {A : Type ℓ} → (List ℕ → Option A) → List ℕ → Option A
after_point next [] = none
after_point next (c ∷ cs) = if c == b'.' then next cs else none

at_end : ℕ → ℕ → ℕ × List ℕ → Option (ℕ × ℕ × ℕ)
at_end a b (c, []) = some (a, b, c)
at_end a b (c, x ∷ rest) = none

third : ℕ → ℕ → List ℕ → Option (ℕ × ℕ × ℕ)
unfolding read_number at_end
third a b s = at_end a b (read_number s 0)

with_second : ℕ → ℕ × List ℕ → Option (ℕ × ℕ × ℕ)
unfolding third after_point
with_second a (b, s) = after_point (third a b) s

second : ℕ → List ℕ → Option (ℕ × ℕ × ℕ)
unfolding read_number with_second
second a s = with_second a (read_number s 0)

with_first : ℕ × List ℕ → Option (ℕ × ℕ × ℕ)
unfolding second after_point
with_first (a, s) = after_point (second a) s

-- Three numbers with points between them and nothing behind.
unfoldable pub read_version : List ℕ → Option (ℕ × ℕ × ℕ)
unfolding read_number with_first
read_version s = with_first (read_number s 0)

read_version-three :
    (a b c : ℕ)
    → read_version (show a ++ (text "." ++ (show b ++ (text "." ++ show c)))) ≡ some (a, b, c)
unfolding read_version with_first after_point second with_second third at_end is_digit
read_version-three a b c =
    ap with_first (read_number-show a (text "." ++ (show b ++ (text "." ++ show c))) (refl, tt))
    ∙ ap (with_second a) (read_number-show b (text "." ++ show c) (refl, tt))
    ∙ ap (λ s. at_end a b (read_number s 0)) (sym (append-nil (show c)))
    ∙ ap (at_end a b) (read_number-show c [] tt)

-- The text of a version of a `u8`, a `u8` and a `u16` is read back as these three numbers, in decimal
-- and with points between them.
pub fmt-new : (n : Numbers) → read_version (fmt (of n)) ≡ some (n.first, n.second, n.third)
unfolding fmt
fmt-new n =
    let (a, b, c) = new-Numbers n in rw (a, b, c) (read_version-three n.first n.second n.third)
