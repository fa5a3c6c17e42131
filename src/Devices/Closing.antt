-- ===== src/Devices/Closing.antt =====
-- `connect_with`, the methods and the drop of a `DeviceHandle` of libsane/src/device.rs, in a row.
use libsane_rs.Common.{
  ℕ, ◌≡◌, refl, sym, ap, subst, ◌∙◌, inl, inr, Bool-cases, Bool, true, false, Option, none, some,
  List, [], ◌∷◌, ret, panic, ub, ◌>>=◌, Result, ok, err,
}
use libsane_rs.Common.Returns.{Returns, Returns->>=, Returns-then}
use libsane_rs.Strings.Buffer.{SaneStr}
use libsane_rs.Parameters.{FrameParameters}
use libsane_rs.Errors.Status.{status_result}
use libsane_rs.Calls.Api.{Api}
use libsane_rs.Calls.Access.{Attempt, done, blocked, WithSane, Clean, with_sane-Clean}
use libsane_rs.Calls.Proxied.{
  sys_open, sys_close, non_null, sys_get_parameters, sys_get_option_descriptor, checked_index,
  sys_cancel,
}
use libsane_rs.Options.Access
use libsane_rs.Options.Accessors.{DeviceOption}
use libsane_rs.Options.Access.{option_of, get, set, set_auto}
use libsane_rs.Options.Contract.{status_result-cases}
use libsane_rs.Devices.Handle.{
  RawDeviceHandle, DeviceHandle, map_raw, map_sane, get_parameters, cancel, get_option, drop_handle,
  connected, connect_with,
}
use libsane_rs.Devices.Session.{
  Use, change_access, ask_parameters, stop, look_up, read_option, write_option, automatic,
  scan_frames, on_option, call, handle_after, run,
}
use libsane_rs.Calls.Ends.{Ends, Ends-and_then, Ends-with_sane}
use libsane_rs.Devices.Kept.{Handles, Kept, Left, get-Kept}
use libsane_rs.Devices.KeptByScan.{scan-Kept}
use libsane_rs.Devices.KeptBySet.{set-Kept, set_auto-Kept}

-- What holds of a call that ends with a value.
Ends-done {ℓ} :
    {A : Type ℓ} (P : A → Type 0) (m : Attempt A) {a : A} → Ends P m → m ≡ done (ret a) → P a
Ends-done P m h e = subst (Ends P) e h

module _ {H L : Type 0} (api : Api H L) (hs : Handles api) where
  -- An option that was found belongs to the handle.
  abbrev Found : H → L → Option (DeviceOption H) × L → Type 0
  Found h l (none, l') = Kept api hs h l l'
  Found h l (some o, l') = Kept api hs h l l' × (o.handle ≡ h)

  Found-Kept : (h : H) (l : L) (r : Option (DeviceOption H) × L) → Found h l r → Kept api hs h l r.1
  Found-Kept h l (none, l') k = k
  Found-Kept h l (some o, l') k = k.0

  option_of-Found :
      (access : WithSane) (h : H) (l : L) (i : ℕ) (r : Option _ × L)
      → Kept api hs h l r.1
      → Returns (Found h l) (option_of api access h i r)
  unfolding option_of
  option_of-Found access h l i (none, l') k = k
  option_of-Found access h l i (some d, l') k = (k, refl)

  get_option-Found :
      (d : RawDeviceHandle H) (l : L) (i : ℕ) → Ends (Found d.handle l) (get_option api d l i)
  unfolding get_option Access.option sys_get_option_descriptor
  get_option-Found d l i =
      Ends-with_sane (Found d.handle l) d.sane false
        (λ u. done (sys_get_option_descriptor api l d.handle i >>= option_of api d.sane d.handle i))
        (Returns-then (Found d.handle l) (λ r. Kept api hs d.handle l r.1) _ _
          (Returns->>= (λ r. Kept api hs d.handle l r.1) (checked_index i) _
            (λ j. hs.found l d.handle j))
          (option_of-Found d.sane d.handle l i))

  -- A method on the option that was found.
  on_option-Kept {ℓ} :
      {A : Type ℓ} (f : L → DeviceOption H → Attempt (A × L)) (h : H) (l : L)
      → ((l : L) (o : DeviceOption H) → Ends (Left api hs {A = A} o.handle l) (f l o))
      → (r : Option (DeviceOption H) × L) → Found h l r
      → Ends (Kept api hs h l) (on_option api f r)
  unfolding on_option
  on_option-Kept f h l keeps (none, l') k = k
  on_option-Kept {A} f h l keeps (some o, l') (k, same) =
      Ends-and_then (Kept api hs h l) (Left api hs {A = A} o.handle l') (f l' o) _ (keeps l' o)
        (λ r left. subst (λ h'. Kept api hs h' l' r.1) same left ∙ k)

  call-Kept :
      (d : RawDeviceHandle H) (l : L) (u : Use) → Ends (Kept api hs d.handle l) (call api d l u)
  unfolding call get_parameters sys_get_parameters cancel sys_cancel
  call-Kept d l (change_access f) = refl
  call-Kept d l ask_parameters =
      Ends-and_then (Kept api hs d.handle l) (Left api hs {A = Result FrameParameters ℕ} d.handle l)
        _ _
        (Ends-with_sane (Left api hs {A = Result FrameParameters ℕ} d.handle l) d.sane false _
          (hs.asked l d.handle))
        (λ r k. k)
  call-Kept d l stop = hs.cancelled l d.handle
  call-Kept d l (look_up i) =
      Ends-and_then (Kept api hs d.handle l) (Found d.handle l) _ _ (get_option-Found d l i)
        (Found-Kept d.handle l)
  call-Kept d l (read_option i) =
      Ends-and_then (Kept api hs d.handle l) (Found d.handle l) _ _ (get_option-Found d l i)
        (on_option-Kept (get api) d.handle l (get-Kept api hs))
  call-Kept d l (write_option i v) =
      Ends-and_then (Kept api hs d.handle l) (Found d.handle l) _ _ (get_option-Found d l i)
        (on_option-Kept (λ l o. set api l o v) d.handle l (λ l o. set-Kept api hs l o v))
  call-Kept d l (automatic i) =
      Ends-and_then (Kept api hs d.handle l) (Found d.handle l) _ _ (get_option-Found d l i)
        (on_option-Kept (set_auto api) d.handle l (set_auto-Kept api hs))
  call-Kept d l (scan_frames calls) = scan-Kept api hs d.sane d.handle l calls

  -- The handle stays the same, and open if it was.
  abbrev Same : DeviceHandle H → L → DeviceHandle H × L → Type 0
  Same d l r = (r.0.inner.handle ≡ d.inner.handle) × Kept api hs d.inner.handle l r.1

  handle_after-handle :
      (d : DeviceHandle H) (u : Use) → (handle_after d u).inner.handle ≡ d.inner.handle
  unfolding handle_after map_sane map_raw
  handle_after-handle d (change_access f) = refl
  handle_after-handle d ask_parameters = refl
  handle_after-handle d stop = refl
  handle_after-handle d (look_up i) = refl
  handle_after-handle d (read_option i) = refl
  handle_after-handle d (write_option i v) = refl
  handle_after-handle d (automatic i) = refl
  handle_after-handle d (scan_frames calls) = refl

  Same-after :
      (d : DeviceHandle H) (l next : L) (u : Use)
      → Kept api hs d.inner.handle l next
      → (m : Attempt (DeviceHandle H × L)) → Ends (Same (handle_after d u) next) m
      → Ends (Same d l) m
  Same-after d l next u k (done (ret r)) (same, left) = (
    same ∙ handle_after-handle d u,
    subst (λ h. Kept api hs h next r.1) (handle_after-handle d u) left ∙ k,
  )
  Same-after d l next u k (done panic) h = tt
  Same-after d l next u k (done ub) h = tt
  Same-after d l next u k blocked h = tt

  run-Same : (d : DeviceHandle H) (l : L) (uses : List Use) → Ends (Same d l) (run api d l uses)
  unfolding run
  run-Same d l [] = (refl, refl)
  run-Same d l (u ∷ uses) =
      Ends-and_then (Same d l) (Kept api hs d.inner.handle l) _ _ (call-Kept d.inner l u)
        (λ next k. Same-after d l next u k _ (run-Same (handle_after d u) next uses))

  -- A device that was opened.
  abbrev Opened : Result (DeviceHandle H) ℕ × L → Type 0
  Opened (ok d, l) = hs.is_open l d.inner.handle ≡ true
  Opened (err s, l) = Unit

  abbrev OpenedRaw : Result H ℕ × L → Type 0
  OpenedRaw (ok h, l) = hs.is_open l h ≡ true
  OpenedRaw (err s, l) = Unit

  sys_open-Opened :
      (debug : Bool) (l : L) (name : SaneStr) (r : ℕ × Option H × L)
      → api.sane_open l name ≡ r
      → Returns OpenedRaw
          (non_null debug (status_result api.codes r.0) r.1 >>= λ handle. ret (handle, r.2))
  unfolding non_null
  sys_open-Opened debug l name (s, none, l') e = elim (status_result-cases api.codes s) [
    | inl (good, f) ↦
        rw f (elim (Bool-cases debug) [ inl checks ↦ rw checks tt | inr trusts ↦ rw trusts tt ])
    | inr (bad, f) ↦ rw f tt
  ]
  sys_open-Opened debug l name (s, some h, l') e = elim (status_result-cases api.codes s) [
    | inl (good, f) ↦ rw f (hs.opens l l' name s h good e)
    | inr (bad, f) ↦ rw f tt
  ]

  connected-Opened :
      (access : WithSane) (r : Result H ℕ × L)
      → OpenedRaw r
      → Returns Opened (connected api access r)
  unfolding connected
  connected-Opened access (ok h, l) k = k
  connected-Opened access (err s, l) k = tt

  connect_with-Opened :
      (debug : Bool) (access : WithSane) (name : SaneStr) (l : L)
      → Ends Opened (connect_with api debug access name l)
  unfolding connect_with sys_open
  connect_with-Opened debug access name l =
      Ends-and_then Opened OpenedRaw _ _
        (Ends-with_sane OpenedRaw access false (λ u. done (sys_open api debug l name))
          (sys_open-Opened debug l name (api.sane_open l name) refl))
        (connected-Opened access)

  -- Over a library whose handles are open from a successful `sane_open` until they are closed: a
  -- device that `connect_with` returned is open, and is open still after any methods of it, of
  -- the options that it finds, and scans with any calls of `next_frame`, `read_frame`,
  -- `read_full_frame` and `cancel`, that return, in any order and with any change of the access
  -- by `map_sane`; its handle is the same throughout. If the access then has no poisoned lock,
  -- the drop returns, and the handle is closed.
  pub connect_with-drop_handle :
      (debug : Bool) (access : WithSane) (name : SaneStr) (l : L) {d : DeviceHandle H} {l1 : L}
      → connect_with api debug access name l ≡ done (ret (ok d, l1))
      → (uses : List Use) {e : DeviceHandle H} {l2 : L} → run api d l1 uses ≡ done (ret (e, l2))
      → Clean e.inner.sane
      → (hs.is_open l1 d.inner.handle ≡ true)
        × (e.inner.handle ≡ d.inner.handle)
        × (hs.is_open l2 e.inner.handle ≡ true)
        × (l3 : L) × (drop_handle api e.inner l2 ≡ done (ret l3))
        × (hs.is_open l3 d.inner.handle ≡ false)
  unfolding drop_handle sys_close
  connect_with-drop_handle debug access name l {d} {l1} opened uses {e} {l2} ran clean =
      let up = Ends-done Opened _ (connect_with-Opened debug access name l) opened in
      let (same, kept) = Ends-done (Same d l1) _ (run-Same d l1 uses) ran in
      (
        up,
        same,
        ap (hs.is_open l2) same ∙ kept ∙ up,
        api.sane_close l2 e.inner.handle,
        with_sane-Clean e.inner.sane (λ u. done (ret (sys_close api l2 e.inner.handle))) clean,
        ap (hs.is_open (api.sane_close l2 e.inner.handle)) (sym same) ∙ hs.closes l2 e.inner.handle,
      )
