-- ===== src/Devices/KeptByScan.antt =====
-- A scan, libsane/src/device/scan.rs, against whether the handle that it reads from is open.
use libsane_rs.Common.{
  ℕ, ◌≡◌, refl, ap, ◌∙◌, ◌⊎◌, inl, inr, Bool, true, false, Bool-cases, List, [], ◌∷◌, ◌==◌, min,
  if◌then◌else◌, ret, Result, ok, err,
}
use libsane_rs.Errors.Status.{StatusCodes}
use libsane_rs.Parameters.{FrameParameters}
use libsane_rs.Common.Vec.{Vec}
use libsane_rs.Scan.Reader.{int_max, End, finished, failed, out_of_fuel, read_full_frame}
use libsane_rs.Scan.Session.{
  Library, ScanReader, Call, next, read, stop, next_frame, start_frame, set_blocking, report,
  is_unsupported, read_frame, cancel,
}
use libsane_rs.Calls.Api.{Api}
use libsane_rs.Calls.Access.{Attempt, done, WithSane}
use libsane_rs.Calls.Ends.{Ends, Ends-and_then, Ends-with_sane}
use libsane_rs.Calls.Proxied.{blocking, sys_start, sys_set_io_mode, sys_get_parameters, sys_cancel}
use libsane_rs.Devices.Kept.{Handles, Kept}
use libsane_rs.Devices.KeptByFrame.{read_full_frame-Kept}
use libsane_rs.Devices.Scanning.{
  with_status, bytes_read, library_of, ScanCall, of_reader, full, after_full, scan_call, any_call,
  scan_calls, scan,
}

with_status-state {ℓ κ} :
    {A : Type ℓ} {L : Type κ} (c : StatusCodes) (r : Result A ℕ × L) → (with_status c r).1 ≡ r.1
with_status-state c (ok a, l) = refl
with_status-state c (err s, l) = refl

bytes_read-state :
    {L : Type 0} (c : StatusCodes) (r : ℕ × List ℕ × ℕ × L) → (bytes_read c r).1 ≡ r.3
bytes_read-state c (s, bytes, len, l) = elim (Bool-cases (s == c.good)) [
  | inl good ↦ rw good refl
  | inr bad ↦ rw bad refl
]

Ends-if {ℓ} :
    {A : Type ℓ} (P : A → Type 0) (b : Bool) (m n : Attempt A)
    → Ends P m
    → Ends P n
    → Ends P (if b then m else n)
Ends-if P true m n h k = h
Ends-if P false m n h k = k

Result-cases {ℓ κ} :
    {A : Type ℓ} {E : Type κ} (r : Result A E) → ((a : A) × (r ≡ ok a)) ⊎ ((s : E) × (r ≡ err s))
Result-cases (ok a) = inl (a, refl)
Result-cases (err s) = inr (s, refl)

-- What the calls of a reader leave as it was.
record Steady {L : Type 0} (lib : Library L) (P : L → Type 0) : Type 0 where
  by_start : (l : L) → P l → P ((lib.start l).1)
  by_mode : (l : L) → P l → P ((lib.set_io_mode l).1)
  by_parameters : (l : L) → P l → P ((lib.get_parameters l).1)
  by_read : (l : L) (n : ℕ) → P l → P ((lib.read l n).1)
  by_cancel : (l : L) → P l → P (lib.cancel l)

module _ {L : Type 0} (lib : Library L) (P : L → Type 0) (steady : Steady lib P) where
  report-state : (l : L) → P l → P ((report lib l).1)
  unfolding report
  report-state l k = elim (Result-cases ((lib.get_parameters l).0)) [
    | inl (v, e) ↦ rw (e, report) (steady.by_parameters l k)
    | inr (s, e) ↦ rw (e, report) (steady.by_parameters l k)
  ]

  set_blocking-state : (l : L) → P l → P ((set_blocking lib l).1)
  unfolding set_blocking
  set_blocking-state l k = elim (Result-cases ((lib.set_io_mode l).0)) [
    | inl (u, e) ↦ rw (e, set_blocking) (report-state _ (steady.by_mode l k))
    | inr (s, e) ↦ elim (Bool-cases (is_unsupported lib s)) [
      | inl fine ↦ rw (e, set_blocking) (rw fine (report-state _ (steady.by_mode l k)))
      | inr bad ↦ rw (e, set_blocking) (rw bad (steady.by_mode l k))
    ]
  ]

  start_frame-state : (l : L) → P l → P ((start_frame lib l).1)
  unfolding start_frame
  start_frame-state l k = elim (Result-cases ((lib.start l).0)) [
    | inl (u, e) ↦ rw (e, start_frame) (set_blocking-state _ (steady.by_start l k))
    | inr (s, e) ↦ rw (e, start_frame) (steady.by_start l k)
  ]

  next_frame-state : (s : ScanReader L) → P s.device → P (((next_frame lib s).1).device)
  unfolding next_frame
  next_frame-state s k = elim (Bool-cases s.done) [
    | inl over ↦ simp over k
    | inr runs ↦ simp runs (start_frame-state s.device k)
  ]

  read_frame-state :
      (p : FrameParameters) (n : ℕ) (s : ScanReader L)
      → P s.device
      → P (((read_frame lib p n s).1).device)
  unfolding read_frame
  read_frame-state p n s k = steady.by_read s.device (min n int_max) k

module _ {H L : Type 0} (api : Api H L) (hs : Handles api) (access : WithSane) (h : H) (l : L) where
  abbrev StillOpen : L → Type 0
  StillOpen l' = Kept api hs h l l'

  library_of-Steady : Steady (library_of api h) StillOpen
  unfolding library_of sys_start sys_set_io_mode sys_get_parameters sys_cancel
  library_of-Steady = record {
    by_start = λ l k.
        ap (λ x. hs.is_open x h) (with_status-state api.codes (sys_start api l h))
        ∙ hs.started l h
        ∙ k;
    by_mode = λ l k.
        ap (λ x. hs.is_open x h) (with_status-state api.codes (sys_set_io_mode api l h blocking))
        ∙ hs.mode_set l h _
        ∙ k;
    by_parameters = λ l k.
        ap (λ x. hs.is_open x h) (with_status-state api.codes (sys_get_parameters api l h))
        ∙ hs.asked l h
        ∙ k;
    by_read = λ l n k.
        ap (λ x. hs.is_open x h) (bytes_read-state api.codes (api.sane_read l h (min n int_max)))
        ∙ hs.read_from l h _
        ∙ k;
    by_cancel = λ l k. hs.cancelled l h ∙ k;
  }

  abbrev Reading : ScanReader L → Type 0
  Reading s = StillOpen s.device

  scan_call-Reading :
      (s : ScanReader L) (call : Call) → Reading s → Ends Reading (scan_call api access h s call)
  unfolding scan_call cancel library_of sys_cancel
  scan_call-Reading s next k = Ends-if Reading s.done (done (ret s)) _ k (
      Ends-with_sane Reading access false (λ u. done (ret ((next_frame (library_of api h) s).1)))
        (next_frame-state (library_of api h) StillOpen library_of-Steady s k))
  scan_call-Reading s (read p n) k =
      Ends-with_sane Reading access false
        (λ u. done (ret ((read_frame (library_of api h) p n s).1)))
        (read_frame-state (library_of api h) StillOpen library_of-Steady p n s k)
  scan_call-Reading s stop k = hs.cancelled s.device h ∙ k

  after_full-Reading : (r : End × Vec × L × Bool) → StillOpen r.2 → Ends Reading (after_full r)
  unfolding after_full
  after_full-Reading (finished, v, l', over) k = k
  after_full-Reading (failed s, v, l', over) k = k
  after_full-Reading (out_of_fuel, v, l', over) k = tt

  any_call-Reading :
      (s : ScanReader L) (call : ScanCall) → Reading s → Ends Reading (any_call api access h s call)
  unfolding any_call
  any_call-Reading s (of_reader call) k = scan_call-Reading s call k
  any_call-Reading s (full e debug fuel p started v) k = Ends-with_sane Reading access false _ (
      Ends-and_then Reading (λ (r : End × Vec × L × Bool). StillOpen r.2)
        (done (read_full_frame (library_of api h).read e debug fuel s.device p started s.done v))
        after_full
        (read_full_frame-Kept (library_of api h).read StillOpen library_of-Steady.by_read e debug
          fuel s.device p started s.done v k)
        after_full-Reading)

  scan_calls-Reading :
      (s : ScanReader L) (calls : List ScanCall)
      → Reading s
      → Ends Reading (scan_calls api access h s calls)
  unfolding scan_calls
  scan_calls-Reading s [] k = k
  scan_calls-Reading s (call ∷ calls) k =
      Ends-and_then Reading Reading (any_call api access h s call) _ (any_call-Reading s call k)
        (λ s' k'. scan_calls-Reading s' calls k')

  pub scan-Kept : (calls : List ScanCall) → Ends (Kept api hs h l) (scan api access h l calls)
  unfolding scan cancel library_of sys_cancel
  scan-Kept calls =
      Ends-and_then (Kept api hs h l) Reading _ _
        (scan_calls-Reading (record { device = l; done = false }) calls refl)
        (λ s k. hs.cancelled s.device h ∙ k)
