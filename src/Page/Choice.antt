-- ===== src/Page/Choice.antt =====
-- The choice of a device in libsane/examples/scan_a_page.rs, by what is typed.
use libsane_rs.Common.{
  ℕ, zero, suc, ◌+◌, ◌-◌, ◌^◌, ◌<◌, ◌≡◌, refl, ap, ◌∙◌, arith, Bool, true, false, ◌&&◌, Option,
  none, some, List, [], ◌∷◌, ◌++◌, map, append_assoc, length, get_elem?, All, leb, ◌==◌, le→leb,
  Outcome, ret,
}
use libsane_rs.Common.Decimal.{is_digit, show, show-All, parse_usize, parse_usize-show}
use libsane_rs.Common.Text.{text, Console, print, println}
use libsane_rs.Enumerate.Description.{DeviceDescription}
use libsane_rs.Page.Prompt.{
  first_line, strip_cr, next_line, prompt, Picked, picked, device_at, match_number, ask_loop,
}

-- Characters on one line.
abbrev pub OneLine : List ℕ → Type 0
OneLine cs = All (λ c. (c == b'\n') ≡ false) cs

-- What one read of the input gives: a line that was typed, its end, and what follows at once.
abbrev pub typed : List ℕ × List ℕ → List ℕ
typed t = t.0 ++ (b'\n' ∷ t.1)

first_line-typed :
    (line lost : List ℕ) → OneLine line → first_line (line ++ (b'\n' ∷ lost)) ≡ some line
unfolding first_line
first_line-typed [] lost h = refl
first_line-typed (c ∷ cs) lost h = rw (h.0, first_line-typed cs lost h.1)

next_line-typed :
    (t : List ℕ × List ℕ) (reads : List (List ℕ))
    → OneLine t.0
    → next_line [] (typed t ∷ reads) ≡ (some (strip_cr t.0), reads)
unfolding next_line
next_line-typed ([], lost) reads h = rw (first_line-typed [] lost h)
next_line-typed (c ∷ cs, lost) reads h = rw (first_line-typed (c ∷ cs) lost h)

-- A prompt takes the line, and loses what came with it.
prompt-typed :
    (msg : List ℕ) (t : List ℕ × List ℕ) (reads : List (List ℕ)) (out : List ℕ)
    → OneLine t.0
    → prompt msg (record { input = typed t ∷ reads; printed = out })
      ≡ ret (strip_cr t.0, record { input = reads; printed = out ++ msg })
unfolding prompt print
prompt-typed msg t reads out h = rw (next_line-typed t reads h)

digit-OneLine : (cs : List ℕ) → All (λ c. is_digit c ≡ true) cs → OneLine cs
unfolding is_digit
digit-OneLine [] h = tt
digit-OneLine (c ∷ cs) h = (ground (arith, h.0), digit-OneLine cs h.1)

strip_cr-digits : (cs : List ℕ) → All (λ c. is_digit c ≡ true) cs → strip_cr cs ≡ cs
unfolding strip_cr is_digit
strip_cr-digits [] h = refl
strip_cr-digits (c ∷ []) h = ground (arith, h.0)
strip_cr-digits (c ∷ d ∷ cs) h = ap (◌∷◌ c) (strip_cr-digits (d ∷ cs) h.1)

abbrev pub in_range : ℕ → Option ℕ → Bool
in_range count none = false
in_range count (some n) = leb 1 n && leb n count

-- Lines that the loop does not take for the number of one of so many devices.
abbrev pub Rejected : ℕ → List ℕ × List ℕ → Type 0
Rejected count t = OneLine t.0 × (in_range count (parse_usize (strip_cr t.0)) ≡ false)

-- After a number that is no device, the loop goes on with what was printed.
match_number-again :
    (devices : List DeviceDescription) (again : Console → Outcome (Picked × Console)) (o : Option ℕ)
    (reads : List (List ℕ)) (out : List ℕ)
    → in_range (length devices) o ≡ false
    → (more : List ℕ) × (match_number devices again o (record { input = reads; printed = out })
        ≡ again (record { input = reads; printed = out ++ more }))
unfolding match_number println print
match_number-again devices again none reads out h =
    (text "Not a number. Try again." ++ (b'\n' ∷ []), refl)
match_number-again devices again (some n) reads out h =
    (text "Not a device. Try again." ++ (b'\n' ∷ []), rw h)

pub get_elem?-lt :
    (devices : List DeviceDescription) (i : ℕ) {d : DeviceDescription}
    → get_elem? devices i ≡ some d
    → i < length devices
get_elem?-lt [] i h = cc
get_elem?-lt (x ∷ xs) zero h = omega arith
get_elem?-lt (x ∷ xs) (suc i) h = omega (arith, get_elem?-lt xs i h)

device_at-some :
    (devices : List DeviceDescription) (k i : ℕ) (d : DeviceDescription)
    → k ≡ i
    → get_elem? devices i ≡ some d
    → device_at devices k ≡ ret d
unfolding device_at
device_at-some devices k i d e h = rw (e, h)

match_number-picked :
    (devices : List DeviceDescription) (again : Console → Outcome (Picked × Console)) (i : ℕ)
    (d : DeviceDescription) (c : Console)
    → get_elem? devices i ≡ some d
    → match_number devices again (some (i + 1)) c ≡ ret (picked d, c)
unfolding match_number
match_number-picked devices again i d c h = rw (
  le→leb 1 (i + 1) (omega arith),
  le→leb (i + 1) (length devices) (omega (arith, get_elem?-lt devices i h)),
  device_at-some devices (i + 1 - 1) i d (omega arith) h,
)

module _ (devices : List DeviceDescription) (i : ℕ) (d : DeviceDescription)
    (at : get_elem? devices i ≡ some d) (small : i + 1 < 2 ^ 64) where
  -- The loop goes past the lines that are no numbers of devices to the first that is one.
  pub ask_loop-picked :
      (fuel : ℕ) (bad : List (List ℕ × List ℕ)) (lost : List ℕ) (reads : List (List ℕ))
      (out : List ℕ)
      → All (Rejected (length devices)) bad
      → length bad < fuel
      → (more : List ℕ) × (ask_loop fuel devices (record {
        input = map typed bad ++ (typed (show (i + 1), lost) ∷ reads);
        printed = out;
      })
          ≡ ret (picked d, record { input = reads; printed = out ++ more }))
  unfolding ask_loop
  ask_loop-picked zero bad lost reads out h k = absurd (omega arith)
  ask_loop-picked (suc fuel) [] lost reads out h k = (
    text "Device number: ",
    rw
        (prompt-typed (text "Device number: ") (show (i + 1), lost) reads out
          (digit-OneLine (show (i + 1)) (show-All (i + 1))))
        (rw (strip_cr-digits (show (i + 1)) (show-All (i + 1)), parse_usize-show (i + 1) small)
          (match_number-picked devices (ask_loop fuel devices) i d _ at)),
  )
  ask_loop-picked (suc fuel) (t ∷ bad) lost reads out h k =
      let later = map typed bad ++ (typed (show (i + 1), lost) ∷ reads) in
      let msg = text "Device number: " in
      let (said, e1) =
        match_number-again devices (ask_loop fuel devices) (parse_usize (strip_cr t.0)) later
          (out ++ msg) h.0.1 in
      let (more, e2) =
        ask_loop-picked fuel bad lost reads ((out ++ msg) ++ said) h.1 (omega arith) in
      (
        msg ++ (said ++ more),
        rw (prompt-typed msg t later out h.0.0) (
            e1
            ∙ e2
            ∙ ap (λ p. ret (picked d, record { input = reads; printed = p }))
                (append_assoc (out ++ msg) said more ∙ append_assoc out msg (said ++ more))),
      )
