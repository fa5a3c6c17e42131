-- ===== src/Page/PamFormat/Lines.antt =====
-- The lines of a header of the PAM format, as `write_pam_image` of libsane/examples/scan_a_page.rs
-- writes them, to the reader of the format.
use libsane_rs.Common.{
  ℕ, suc, ◌≡◌, refl, sym, ap, ◌∙◌, arith, true, false, none, some, List, [], ◌∷◌, ◌++◌, append-nil,
  All, All-map, ◌==◌,
}
use libsane_rs.Common.Decimal.{is_digit, show, show-All, read_number, read_number-show}
use libsane_rs.Common.Text.{text, same_text, strip_prefix}
use libsane_rs.Page.PamReader.{until_newline-append}
use libsane_rs.Page.PamFormat.{
  Fields, exact, whole_number, with_number, joined, either, read_field, then_lines, finish,
  after_line, read_lines, line,
}

abbrev NotNewline : ℕ → Type 0
NotNewline c = (c == b'\n') ≡ false

digit-newline : (c : ℕ) → is_digit c ≡ true → NotNewline c
unfolding is_digit
digit-newline c h = ground (arith, h)

line-append : (xs ys : List ℕ) → All NotNewline xs → All NotNewline ys → All NotNewline (xs ++ ys)
line-append [] ys h k = k
line-append (x ∷ xs) ys h k = (h.0, line-append xs ys h.1 k)

-- The line of a number has no end inside.
number_line :
    (keyword : List ℕ) (n : ℕ) → All NotNewline keyword → All NotNewline (keyword ++ show n)
number_line keyword n h =
    line-append keyword (show n) h (All-map (show n) digit-newline (show-All n))

whole_number-show : (n : ℕ) → whole_number (show n) ≡ some n
unfolding whole_number exact
whole_number-show n =
    ap (λ s. exact (read_number s 0)) (sym (append-nil (show n)))
    ∙ ap exact (read_number-show n [] tt)

read_lines-line :
    (fuel : ℕ) (s rest : List ℕ) (f : Fields)
    → All NotNewline s
    → read_lines (suc fuel) (s ++ (b'\n' ∷ rest)) f
      ≡ after_line (read_lines fuel) f (s, b'\n' ∷ rest)
unfolding read_lines
read_lines-line fuel s rest f h =
    ap (after_line (read_lines fuel) f) (until_newline-append s rest h)

module _ (fuel : ℕ) (n : ℕ) (rest : List ℕ) (f : Fields) where
  -- The lines of the four numbers.
  pub read_lines-width :
      read_lines (suc fuel) (line (text "WIDTH ") (show n) rest) f
      ≡ read_lines fuel rest (record f { width = some n })
  unfolding after_line read_field same_text strip_prefix then_lines either with_number
  read_lines-width =
      read_lines-line fuel (text "WIDTH " ++ show n) rest f
        (number_line (text "WIDTH ") n (ground arith))
      ∙ rw (whole_number-show n) refl

  pub read_lines-height :
      read_lines (suc fuel) (line (text "HEIGHT ") (show n) rest) f
      ≡ read_lines fuel rest (record f { height = some n })
  unfolding after_line read_field same_text strip_prefix then_lines either with_number
  read_lines-height =
      read_lines-line fuel (text "HEIGHT " ++ show n) rest f
        (number_line (text "HEIGHT ") n (ground arith))
      ∙ rw (whole_number-show n) refl

  pub read_lines-depth :
      read_lines (suc fuel) (line (text "DEPTH ") (show n) rest) f
      ≡ read_lines fuel rest (record f { depth = some n })
  unfolding after_line read_field same_text strip_prefix then_lines either with_number
  read_lines-depth =
      read_lines-line fuel (text "DEPTH " ++ show n) rest f
        (number_line (text "DEPTH ") n (ground arith))
      ∙ rw (whole_number-show n) refl

  pub read_lines-maxval :
      read_lines (suc fuel) (line (text "MAXVAL ") (show n) rest) f
      ≡ read_lines fuel rest (record f { maxval = some n })
  unfolding after_line read_field same_text strip_prefix then_lines either with_number
  read_lines-maxval =
      read_lines-line fuel (text "MAXVAL " ++ show n) rest f
        (number_line (text "MAXVAL ") n (ground arith))
      ∙ rw (whole_number-show n) refl

module _ (fuel : ℕ) (value rest : List ℕ) (f : Fields) (h : All NotNewline value) where
  -- The type of the tuples, with the keyword of the format and with the one of the program.
  pub read_lines-tupltype :
      read_lines (suc fuel) (line (text "TUPLTYPE ") value rest) f
      ≡ read_lines fuel rest (record f { tuple_type = some (joined f.tuple_type value) })
  unfolding after_line read_field same_text strip_prefix then_lines either
  read_lines-tupltype =
      read_lines-line fuel (text "TUPLTYPE " ++ value) rest f
        (line-append (text "TUPLTYPE ") value (ground arith) h)

  pub read_lines-tupletype : read_lines (suc fuel) (line (text "TUPLETYPE ") value rest) f ≡ none
  unfolding after_line read_field same_text strip_prefix then_lines either
  read_lines-tupletype =
      read_lines-line fuel (text "TUPLETYPE " ++ value) rest f
        (line-append (text "TUPLETYPE ") value (ground arith) h)

pub read_lines-endhdr :
    (fuel : ℕ) (bytes : List ℕ) (f : Fields)
    → read_lines (suc fuel) (text "ENDHDR\n" ++ bytes) f ≡ finish f bytes
unfolding after_line same_text
read_lines-endhdr fuel bytes f = read_lines-line fuel (text "ENDHDR") bytes f (ground arith)
