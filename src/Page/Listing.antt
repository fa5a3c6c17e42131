-- ===== src/Page/Listing.antt =====
-- `ask_for_device` of libsane/examples/scan_a_page.rs: what it prints before it asks.
use libsane_rs.Common.{
  ℕ, ◌+◌, ◌^◌, ◌<◌, ◌≡◌, refl, ap, ◌∙◌, arith, Bool, some, List, [], ◌∷◌, ◌++◌, map, append_assoc,
  append-nil, map-append, length, get_elem?, All, ret, ◌>>=◌,
}
use libsane_rs.Common.Decimal.{show}
use libsane_rs.Common.Text.{text, Console, print, println}
use libsane_rs.Strings.Buffer.{SaneStr, to_bytes_with_nul}
use libsane_rs.Strings.Content.{NonNul, Latin, chars-Holds}
use libsane_rs.Enumerate.Description.{SysDevice, DeviceDescription}
use libsane_rs.Enumerate.Contents.{Proper}
use libsane_rs.Enumerate.Copies.{DescribeAll}
use libsane_rs.Page.Prompt.{display, list_from, ask_for_device, ask_loop, picked}
use libsane_rs.Page.Choice.{typed, Rejected, get_elem?-lt, ask_loop-picked}

-- The line of the list for a device.
abbrev listed : ℕ → SysDevice → List ℕ
listed n value =
    (show n ++ text ". " ++ value.model.bytes ++ text " (" ++ value.name.bytes ++ text ")")
    ++ (b'\n' ∷ [])

abbrev pub listing_from : ℕ → List SysDevice → List ℕ
listing_from n [] = []
listing_from n (value ∷ values) = listed n value ++ listing_from (n + 1) values

-- Strings whose bytes are all characters.
abbrev pub Printable : Bool → SysDevice → Type 0
Printable signed value = Latin signed value.name.bytes × Latin signed value.model.bytes

pub display-bytes :
    (signed : Bool) (s : SaneStr)
    → NonNul s.bytes
    → Latin signed s.bytes
    → display signed s ≡ ret s.bytes
unfolding display to_bytes_with_nul
display-bytes signed s h k =
    rw (map-append some s.bytes (0 ∷ [])) (chars-Holds signed s.bytes [] h k)

list_from-listing :
    (signed : Bool) (n : ℕ) (values : List SysDevice) (devices : List DeviceDescription)
    (c : Console)
    → All Proper values
    → All (Printable signed) values
    → DescribeAll values devices
    → list_from signed n devices c
      ≡ ret (record c { printed = c.printed ++ listing_from (n + 1) values })
unfolding list_from println print
list_from-listing signed n [] [] c p k h = rw (append-nil c.printed)
list_from-listing signed n [] (d ∷ ds) c p k h = absurd h
list_from-listing signed n (v ∷ vs) [] c p k h = absurd h
list_from-listing signed n (v ∷ vs) (d ∷ ds) c p k h =
    rw
      (
        h.0.by_model,
        display-bytes signed v.model p.0.model_non_nul k.0.1,
        h.0.by_name,
        display-bytes signed v.name p.0.name_non_nul k.0.0,
        list_from-listing signed (n + 1) vs ds _ p.1 k.1 h.1,
      )
      (ap (λ out. ret (record { input = c.input; printed = out }))
        (append_assoc c.printed (listed (n + 1) v) (listing_from (n + 1 + 1) vs)))

abbrev pub question : List ℕ
question = text "Pick a device from the list:" ++ (b'\n' ∷ [])

ask_for_device-some :
    (signed : Bool) (fuel : ℕ) (devices : List DeviceDescription) (reads : List (List ℕ))
    (out : List ℕ)
    → 0 < length devices
    → ask_for_device signed fuel devices (record { input = reads; printed = out }) ≡ (
        list_from signed 0 devices (record { input = reads; printed = out ++ question })
        >>= ask_loop fuel devices)
unfolding ask_for_device println print
ask_for_device-some signed fuel [] reads out h = absurd (omega arith)
ask_for_device-some signed fuel (d ∷ devices) reads out h = refl

module _ (signed : Bool) (values : List SysDevice) (devices : List DeviceDescription) (i : ℕ)
    (d : DeviceDescription) (proper : All Proper values) (printable : All (Printable signed) values)
    (described : DescribeAll values devices) (at : get_elem? devices i ≡ some d)
    (small : i + 1 < 2 ^ 64) where
  -- `ask_for_device` over descriptions that read as devices lists these, numbered from 1. Lines
  -- that are no numbers in the list are refused, and the first line that is one, printed in decimal,
  -- gives the device of this number; what came with a line in one read is lost.
  pub ask_for_device-picked :
      (fuel : ℕ) (bad : List (List ℕ × List ℕ)) (lost : List ℕ) (reads : List (List ℕ))
      (out : List ℕ)
      → All (Rejected (length devices)) bad
      → length bad < fuel
      → (more : List ℕ) × (ask_for_device signed fuel devices (record {
        input = map typed bad ++ (typed (show (i + 1), lost) ∷ reads);
        printed = out;
      })
          ≡ ret (
            picked d,
            record {
              input = reads;
              printed = out ++ ((question ++ listing_from 1 values) ++ more);
            },
          ))
  ask_for_device-picked fuel bad lost reads out h k =
      let lines = listing_from 1 values in
      let input = map typed bad ++ (typed (show (i + 1), lost) ∷ reads) in
      let (more, e) =
        ask_loop-picked devices i d at small fuel bad lost reads ((out ++ question) ++ lines) h k in
      (
        more,
        ask_for_device-some signed fuel devices input out (omega (arith, get_elem?-lt devices i at))
            ∙ rw
                (list_from-listing signed 0 values devices
                  (record { input = input; printed = out ++ question }) proper printable described)
                e
            ∙ ap (λ p. ret (picked d, record { input = reads; printed = p }))
                (ap (λ p. p ++ more) (append_assoc out question lines)
                  ∙ append_assoc out (question ++ lines) more),
      )
