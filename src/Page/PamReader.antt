-- ===== src/Page/PamReader.antt =====
-- A reader of the files that `write_pam_image` of libsane/examples/scan_a_page.rs writes.
use libsane_rs.Common.{
  ℕ, ◌≡◌, refl, ap, ◌∙◌, false, Option, none, some, List, [], ◌∷◌, ◌++◌, flatten, append_assoc, All,
  take, ◌==◌, if◌then◌else◌,
}
use libsane_rs.Common.Decimal.{is_digit, show, read_number, read_number-show}
use libsane_rs.Common.Text.{text, strip_prefix, strip_prefix-append}
use libsane_rs.Page.Pam.{header}

-- What a file in this format says.
pub record Pam : Type 0 where
  pub width : ℕ
  pub height : ℕ
  pub depth : ℕ
  pub maxval : ℕ
  pub tuple_type : List ℕ
  pub data_bytes : List ℕ

-- A word of the header, and what follows it.
continue {ℓ} : {A : Type ℓ} → (List ℕ → Option A) → Option (List ℕ) → Option A
continue next none = none
continue next (some rest) = next rest

expect {ℓ} : {A : Type ℓ} → List ℕ → List ℕ → (List ℕ → Option A) → Option A
unfolding strip_prefix continue
expect word s next = continue next (strip_prefix word s)

number {ℓ} : {A : Type ℓ} → List ℕ → List ℕ → (ℕ → List ℕ → Option A) → Option A
unfolding expect
number word s next = expect word s λ rest. next ((read_number rest 0).0) ((read_number rest 0).1)

unfoldable pub until_newline : List ℕ → List ℕ × List ℕ
until_newline [] = ([], [])
until_newline (c ∷ cs) =
    let rest = until_newline cs in if c == b'\n' then ([], c ∷ cs) else (c ∷ rest.0, rest.1)

-- The rest of the file, behind the four numbers and the type of the tuples.
finish : ℕ → ℕ → ℕ → ℕ → List ℕ × List ℕ → Option Pam
unfolding expect
finish width height depth maxval (tuple_type, s) = expect (text "\nENDHDR\n") s λ data_bytes.
    some (record {
      width = width;
      height = height;
      depth = depth;
      maxval = maxval;
      tuple_type = tuple_type;
      data_bytes = data_bytes;
    })

read_tuple : ℕ → ℕ → ℕ → ℕ → List ℕ → Option Pam
unfolding finish until_newline
read_tuple width height depth maxval s =
    expect (text "\nTUPLETYPE ") s λ rest. finish width height depth maxval (until_newline rest)

read_maxval : ℕ → ℕ → ℕ → List ℕ → Option Pam
unfolding number read_number read_tuple
read_maxval width height depth s = number (text "\nMAXVAL ") s (read_tuple width height depth)

read_depth : ℕ → ℕ → List ℕ → Option Pam
unfolding read_maxval
read_depth width height s = number (text "\nDEPTH ") s (read_maxval width height)

read_height : ℕ → List ℕ → Option Pam
unfolding read_depth
read_height width s = number (text "\nHEIGHT ") s (read_depth width)

-- A reader of the header's lines, in their order, and of the bytes behind them.
unfoldable pub read_pam : List ℕ → Option Pam
unfolding read_height
read_pam s = number (text "P7\nWIDTH ") s read_height

expect-append {ℓ} :
    {A : Type ℓ} (word s : List ℕ) (next : List ℕ → Option A)
    → expect word (word ++ s) next ≡ next s
unfolding expect
expect-append word s next = rw (strip_prefix-append word s)

number-append {ℓ} :
    {A : Type ℓ} (word : List ℕ) (n : ℕ) (s : List ℕ) (next : ℕ → List ℕ → Option A)
    → All (λ c. is_digit c ≡ false) (take 1 s)
    → number word (word ++ (show n ++ s)) next ≡ next n s
unfolding number
number-append word n s next stops =
    expect-append word (show n ++ s) _ ∙ ap (λ r. next r.0 r.1) (read_number-show n s stops)

-- Pieces in front of a text.
abbrev pub join : List (List ℕ) → List ℕ → List ℕ
join [] s = s
join (p ∷ ps) s = p ++ join ps s

pub flatten-join : (ps : List (List ℕ)) (s : List ℕ) → flatten ps ++ s ≡ join ps s
unfolding flatten
flatten-join [] s = refl
flatten-join (p ∷ ps) s = append_assoc p (flatten ps) s ∙ ap (λ r. p ++ r) (flatten-join ps s)

pub until_newline-append :
    (s rest : List ℕ)
    → All (λ c. (c == b'\n') ≡ false) s
    → until_newline (s ++ (b'\n' ∷ rest)) ≡ (s, b'\n' ∷ rest)
unfolding until_newline
until_newline-append [] rest h = refl
until_newline-append (c ∷ cs) rest h = rw (h.0, until_newline-append cs rest h.1)

module _ (width height depth maxval : ℕ) (tuple_type bytes : List ℕ)
    (line : All (λ c. (c == b'\n') ≡ false) tuple_type) where
  after_tuple : List ℕ
  after_tuple = text "\nENDHDR\n" ++ bytes

  after_maxval : List ℕ
  after_maxval = text "\nTUPLETYPE " ++ (tuple_type ++ after_tuple)

  after_depth : List ℕ
  after_depth = text "\nMAXVAL " ++ (show maxval ++ after_maxval)

  after_height : List ℕ
  after_height = text "\nDEPTH " ++ (show depth ++ after_depth)

  after_width : List ℕ
  after_width = text "\nHEIGHT " ++ (show height ++ after_height)

  pub read_pam-header :
      read_pam (join (header width height (depth, tuple_type, maxval)) bytes)
      ≡ some (record {
        width = width;
        height = height;
        depth = depth;
        maxval = maxval;
        tuple_type = tuple_type;
        data_bytes = bytes;
      })
  unfolding read_pam header after_tuple after_maxval after_depth after_height after_width
  read_pam-header =
      number-append (text "P7\nWIDTH ") width after_width read_height (refl, tt)
      ∙ number-append (text "\nHEIGHT ") height after_height (read_depth width) (refl, tt)
      ∙ number-append (text "\nDEPTH ") depth after_depth (read_maxval width height) (refl, tt)
      ∙ number-append (text "\nMAXVAL ") maxval after_maxval (read_tuple width height depth)
          (refl, tt)
      ∙ expect-append (text "\nTUPLETYPE ") (tuple_type ++ after_tuple)
          (λ rest. finish width height depth maxval (until_newline rest))
      ∙ ap (finish width height depth maxval)
          (until_newline-append tuple_type (text "ENDHDR\n" ++ bytes) line)
      ∙ expect-append (text "\nENDHDR\n") bytes (λ b. some (record {
        width = width;
        height = height;
        depth = depth;
        maxval = maxval;
        tuple_type = tuple_type;
        data_bytes = b;
      }))
