-- ===== src/Strings/Display.antt =====
-- `Display` and `Debug` of the strings of libsane/src/string.rs, over a writer that may fail.
use libsane_rs.Common.{
  ℕ, ◌≡◌, refl, sym, ap, ◌∙◌, arith, Bool, none, some, List, [], ◌∷◌, ◌++◌, map, flatten, ◌==◌,
  ==_ne, if◌then◌else◌, Outcome, ret, panic, ub, ◌>>=◌, Result, ok, err,
}
use libsane_rs.Common.Vec.{MaybeUninit}
use libsane_rs.Strings.Buffer.{SaneStr, SaneString, to_bytes_with_nul, char_of}
use libsane_rs.Strings.Content.{Holds, NonNul, Latin}

module _ {W Error : Type 0} (write_char : W → ℕ → Result (Unit {0}) Error × W) where
  -- `?` on the result of a write.
  then_write :
      (W → Outcome (Result (Unit {0}) Error × W))
      → Result (Unit {0}) Error × W
      → Outcome (Result (Unit {0}) Error × W)
  then_write next (err x, w) = ret (err x, w)
  then_write next (ok u, w) = next w

  -- `Display` of `Chars`, at a pointer.
  unfoldable pub fmt_chars : Bool → List MaybeUninit → W → Outcome (Result (Unit {0}) Error × W)
  unfolding then_write char_of
  fmt_chars signed [] w = ub
  fmt_chars signed (none ∷ xs) w = ub
  fmt_chars signed (some ch ∷ xs) w =
      if ch == 0
      then ret (ok tt, w)
      else (char_of signed ch >>= λ c. then_write (fmt_chars signed xs) (write_char w c))

  unfoldable pub fmt_str : Bool → SaneStr → W → Outcome (Result (Unit {0}) Error × W)
  unfolding fmt_chars to_bytes_with_nul
  fmt_str signed s w = fmt_chars signed (map some (to_bytes_with_nul s)) w

  unfoldable pub fmt_string : Bool → SaneString → W → Outcome (Result (Unit {0}) Error × W)
  unfolding fmt_chars
  fmt_string signed s w = fmt_chars signed s.buf w

  -- Characters written one by one, until one fails.
  unfoldable pub write_each : List ℕ → W → Outcome (Result (Unit {0}) Error × W)
  unfolding then_write
  write_each [] w = ret (ok tt, w)
  write_each (c ∷ cs) w = then_write (write_each cs) (write_char w c)

  -- The loop of `Debug` over the escaped characters; `escape` is `char::escape_debug`.
  unfoldable pub debug_chars :
      (ℕ → List ℕ) → Bool → List MaybeUninit → W → Outcome (Result (Unit {0}) Error × W)
  unfolding then_write char_of write_each
  debug_chars escape signed [] w = ub
  debug_chars escape signed (none ∷ xs) w = ub
  debug_chars escape signed (some ch ∷ xs) w =
      if ch == 0
      then ret (ok tt, w)
      else (char_of signed ch >>= λ c.
          write_each (escape c) w >>= then_write (debug_chars escape signed xs))

  unfoldable pub debug_at :
      (ℕ → List ℕ) → Bool → List MaybeUninit → W → Outcome (Result (Unit {0}) Error × W)
  unfolding debug_chars then_write
  debug_at escape signed xs w =
      then_write
        (λ w1. debug_chars escape signed xs w1 >>= then_write λ w2. ret (write_char w2 b'"'))
        (write_char w b'"')

  abbrev Writer : Type 0
  Writer = W → Outcome (Result (Unit {0}) Error × W)

  then_write-cong :
      (f g : Writer) (r : Result (Unit {0}) Error × W)
      → ((v : W) → f v ≡ g v)
      → then_write f r ≡ then_write g r
  unfolding then_write
  then_write-cong f g (err x, v) h = refl
  then_write-cong f g (ok u, v) h = h v

  then_write-bind :
      (f g k : Writer) (r : Result (Unit {0}) Error × W)
      → ((v : W) → f v ≡ (g v >>= then_write k))
      → then_write f r ≡ (then_write g r >>= then_write k)
  unfolding then_write
  then_write-bind f g k (err x, v) h = refl
  then_write-bind f g k (ok u, v) h = h v

  bind-cong :
      (f g : Writer) (m : Outcome (Result (Unit {0}) Error × W))
      → ((v : W) → f v ≡ g v)
      → (m >>= then_write f) ≡ (m >>= then_write g)
  bind-cong f g (ret r) h = then_write-cong f g r h
  bind-cong f g panic h = refl
  bind-cong f g ub h = refl

  fmt_chars-bytes :
      (signed : Bool) (bs : List ℕ) (rest : List MaybeUninit) (w : W)
      → NonNul bs
      → Latin signed bs
      → fmt_chars signed (map some bs ++ (some 0 ∷ rest)) w ≡ write_each bs w
  unfolding fmt_chars write_each char_of
  fmt_chars-bytes signed [] rest w h k = refl
  fmt_chars-bytes signed (b ∷ bs) rest w h k =
      rw (==_ne b 0 (omega (arith, h.0)), k.0)
        (then_write-cong (fmt_chars signed (map some bs ++ (some 0 ∷ rest))) (write_each bs)
          (write_char w b) (λ v. fmt_chars-bytes signed bs rest v h.1 k.1))

  write_each-append :
      (a b : List ℕ) (w : W)
      → write_each (a ++ b) w ≡ (write_each a w >>= then_write (write_each b))
  unfolding write_each then_write
  write_each-append [] b w = refl
  write_each-append (c ∷ a) b w =
      then_write-bind (write_each (a ++ b)) (write_each a) (write_each b) (write_char w c)
        (λ v. write_each-append a b v)

  debug_chars-bytes :
      (escape : ℕ → List ℕ) (signed : Bool) (bs : List ℕ) (rest : List MaybeUninit) (w : W)
      → NonNul bs
      → Latin signed bs
      → debug_chars escape signed (map some bs ++ (some 0 ∷ rest)) w
        ≡ write_each (flatten (map escape bs)) w
  unfolding debug_chars write_each char_of flatten
  debug_chars-bytes escape signed [] rest w h k = refl
  debug_chars-bytes escape signed (b ∷ bs) rest w h k =
      rw (==_ne b 0 (omega (arith, h.0)), k.0)
        (bind-cong (debug_chars escape signed (map some bs ++ (some 0 ∷ rest)))
            (write_each (flatten (map escape bs))) (write_each (escape b) w)
            (λ v. debug_chars-bytes escape signed bs rest v h.1 k.1)
          ∙ sym (write_each-append (escape b) (flatten (map escape bs)) w))

  last_write :
      (r : Result (Unit {0}) Error × W)
      → ◌≡◌ {A = Outcome (Result (Unit {0}) Error × W)} (ret r) (then_write (λ v. ret (ok tt, v)) r)
  unfolding then_write
  last_write (err x, v) = refl
  last_write (ok u, v) = refl

  quoted : (w : W) → ret (write_char w b'"') ≡ write_each (b'"' ∷ []) w
  unfolding write_each
  quoted w = last_write (write_char w b'"')

  in_quotes :
      (escape : ℕ → List ℕ) (signed : Bool) (s : SaneString) (bs : List ℕ) (w : W)
      → Holds s.buf bs
      → Latin signed bs
      → (debug_chars escape signed s.buf w >>= then_write λ v. ret (write_char v b'"'))
        ≡ write_each (flatten (map escape bs) ++ (b'"' ∷ [])) w
  in_quotes escape signed s bs w h k =
      ap (λ m. debug_chars escape signed m w >>= then_write λ v. ret (write_char v b'"')) h.shape
      ∙ ap (λ r. r >>= then_write λ v. ret (write_char v b'"'))
          (debug_chars-bytes escape signed bs h.rest w h.non_nul k)
      ∙ bind-cong (λ v. ret (write_char v b'"')) (write_each (b'"' ∷ []))
          (write_each (flatten (map escape bs)) w) quoted
      ∙ sym (write_each-append (flatten (map escape bs)) (b'"' ∷ []) w)

  -- A string that holds characters is displayed as these, and in debug form as what each of them is
  -- escaped to, between quotation marks, in both cases no further than the first error of the writer.
  pub fmt_string-debug_at :
      (escape : ℕ → List ℕ) (signed : Bool) (s : SaneString) (bs : List ℕ) (w : W)
      → Holds s.buf bs
      → Latin signed bs
      → (fmt_string signed s w ≡ write_each bs w)
        × (debug_at escape signed s.buf w
            ≡ write_each (b'"' ∷ (flatten (map escape bs) ++ (b'"' ∷ []))) w)
  unfolding fmt_string debug_at write_each
  fmt_string-debug_at escape signed s bs w h k = (
    ap (λ m. fmt_chars signed m w) h.shape ∙ fmt_chars-bytes signed bs h.rest w h.non_nul k,
    then_write-cong
        (λ v. debug_chars escape signed s.buf v >>= then_write λ u. ret (write_char u b'"'))
        (write_each (flatten (map escape bs) ++ (b'"' ∷ []))) (write_char w b'"')
        (λ v. in_quotes escape signed s bs v h k),
  )
