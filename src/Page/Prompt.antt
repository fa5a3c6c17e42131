-- ===== src/Page/Prompt.antt =====
-- `prompt` and `ask_for_device` of libsane/examples/scan_a_page.rs. Writing to the standard output
-- succeeds, and the input is UTF-8.
use libsane_rs.Common.{
  ℕ, zero, suc, ◌+◌, ◌-◌, Bool, ◌&&◌, Option, none, some, List, [], ◌∷◌, ◌++◌, map, length,
  get_elem?, leb, ◌==◌, if◌then◌else◌, Outcome, ret, panic, ◌>>=◌,
}
use libsane_rs.Common.Decimal.{show, parse_usize}
use libsane_rs.Common.Text.{text, Console, print, println}
use libsane_rs.Strings.Buffer.{SaneStr, to_bytes_with_nul, chars}
use libsane_rs.Enumerate.Description.{DeviceDescription, name, model}

-- The characters before the first end of a line.
unfoldable pub first_line : List ℕ → Option (List ℕ)
first_line [] = none
first_line (c ∷ cs) =
    let rest = first_line cs in
    if c == b'\n' then some [] else elim rest [ none ↦ none | some line ↦ some (c ∷ line) ]

-- A line without the carriage return at its end.
unfoldable pub strip_cr : List ℕ → List ℕ
strip_cr [] = []
strip_cr (c ∷ []) = if c == b'\r' then [] else c ∷ []
strip_cr (c ∷ d ∷ cs) = c ∷ strip_cr (d ∷ cs)

unfoldable pub last_line : List ℕ → Option (List ℕ)
last_line [] = none
last_line (c ∷ cs) = some (c ∷ cs)

-- `lines().next()` of a new `BufReader`: it reads until the end of a line or of the input, from what
-- it has so far. What it has read behind the line goes with the reader. `next` reads on.
at_line :
    (List ℕ → Option (List ℕ) × List (List ℕ))
    → List ℕ
    → List ℕ
    → List (List ℕ)
    → Option (List ℕ)
    → Option (List ℕ) × List (List ℕ)
unfolding strip_cr
at_line next so_far chunk reads none = next (so_far ++ chunk)
at_line next so_far chunk reads (some line) = (some (strip_cr (so_far ++ line)), reads)

unfoldable pub next_line : List ℕ → List (List ℕ) → Option (List ℕ) × List (List ℕ)
unfolding first_line last_line at_line
next_line so_far [] = (last_line so_far, [])
next_line so_far ([] ∷ reads) = (last_line so_far, reads)
next_line so_far ((c ∷ cs) ∷ reads) =
    at_line (λ s. next_line s reads) so_far (c ∷ cs) reads (first_line (c ∷ cs))

expect_line : Console → Option (List ℕ) × List (List ℕ) → Outcome (List ℕ × Console)
expect_line c (none, reads) = panic
expect_line c (some line, reads) = ret (line, record c { input = reads })

unfoldable pub prompt : List ℕ → Console → Outcome (List ℕ × Console)
unfolding next_line print expect_line
prompt msg c = expect_line (print msg c) (next_line [] c.input)

-- `Display` of a borrowed string.
unfoldable pub display : Bool → SaneStr → Outcome (List ℕ)
unfolding chars to_bytes_with_nul
display signed s = chars signed (map some (to_bytes_with_nul s))

-- The loop that lists the devices, from index `i` on.
unfoldable pub list_from : Bool → ℕ → List DeviceDescription → Console → Outcome Console
unfolding display name model show println
list_from signed i [] c = ret c
list_from signed i (dev ∷ devices) c = do
  m ← model dev
  model_text ← display signed m
  n ← name dev
  name_text ← display signed n
  let line = show (i + 1) ++ text ". " ++ model_text ++ text " (" ++ name_text ++ text ")"
  list_from signed (i + 1) devices (println line c)

-- How the choice ends: with a device, in the exit of the process, or not within the fuel.
pub data Picked : Type 0 where
  picked : DeviceDescription → Picked
  exited : Picked
  waiting : Picked

element : Option DeviceDescription → Outcome DeviceDescription
element none = panic
element (some d) = ret d

-- `&devices[i]`
unfoldable pub device_at : List DeviceDescription → ℕ → Outcome DeviceDescription
unfolding element
device_at devices i = element (get_elem? devices i)

-- The match on the number that was typed; `again` is the rest of the loop.
unfoldable pub match_number :
    List DeviceDescription
    → (Console → Outcome (Picked × Console))
    → Option ℕ
    → Console
    → Outcome (Picked × Console)
unfolding device_at println
match_number devices again none c = again (println (text "Not a number. Try again.") c)
match_number devices again (some n) c =
    if leb 1 n && leb n (length devices)
    then (device_at devices (n - 1) >>= λ d. ret (picked d, c))
    else again (println (text "Not a device. Try again.") c)

unfoldable pub ask_loop : ℕ → List DeviceDescription → Console → Outcome (Picked × Console)
unfolding prompt parse_usize match_number
ask_loop zero devices c = ret (waiting, c)
ask_loop (suc fuel) devices c = prompt (text "Device number: ") c >>= λ r.
    match_number devices (ask_loop fuel devices) (parse_usize r.0) r.1

unfoldable pub ask_for_device :
    Bool → ℕ → List DeviceDescription → Console → Outcome (Picked × Console)
unfolding ask_loop list_from
ask_for_device signed fuel [] c = ret (exited, println (text "No devices available.") c)
ask_for_device signed fuel (d ∷ devices) c =
    list_from signed 0 (d ∷ devices) (println (text "Pick a device from the list:") c)
    >>= ask_loop fuel (d ∷ devices)
