-- ===== src/Enumerate/Contents.antt =====
-- What `DeviceDescription::from_sys_into` of libsane/src/device/enumerate.rs stores, against the four
-- functions that read it.
use libsane_rs.Common.{
  ℕ, ◌+◌, ◌-◌, ◌≤◌, ◌≡◌, refl, sym, ap, ◌∙◌, arith, List, [], ◌∷◌, ◌++◌, append_assoc, append-nil,
  length, take, drop, length-append, length-drop, take-append, drop-append, ret, ◌>>=◌, ==_ne,
}
use libsane_rs.Common.Slice.{slice_to, slice_to-ret, slice, slice-ret}
use libsane_rs.Common.Vec.{
  isize_max, Env, reserve_exact-Reserved, clear, extend_from_slice-ret, add_usize-ret,
}
use libsane_rs.Strings.Buffer.{SaneStr, to_bytes_with_nul}
use libsane_rs.Strings.Content.{NonNul, length-with_nul}
use libsane_rs.Enumerate.Description.{
  SysDevice, DeviceDescription, new_unchecked, name, vendor, model, type_, from_sys_into,
}

new_unchecked-bytes :
    (bs : List ℕ) → NonNul bs → new_unchecked (bs ++ (0 ∷ [])) ≡ ret (record { bytes = bs })
unfolding new_unchecked
new_unchecked-bytes [] h = refl
new_unchecked-bytes (b ∷ []) h = rw (==_ne b 0 (omega (arith, h.0))) refl
new_unchecked-bytes (b ∷ c ∷ bs) h =
    rw (==_ne b 0 (omega (arith, h.0))) (rw (new_unchecked-bytes (c ∷ bs) h.1) refl)

new_unchecked-with_nul :
    (s : SaneStr) → NonNul s.bytes → new_unchecked (to_bytes_with_nul s) ≡ ret s
unfolding to_bytes_with_nul
new_unchecked-with_nul s h = new_unchecked-bytes s.bytes h

-- A range of a list that is known in three parts.
slice-append :
    (front mid back : List ℕ) (i j : ℕ)
    → length front ≡ i
    → i + length mid ≡ j
    → slice i j (front ++ (mid ++ back)) ≡ ret mid
slice-append front mid back i j e f =
    slice-ret i j (front ++ (mid ++ back)) (omega arith)
      (omega (arith, length-append front (mid ++ back), length-append mid back))
    ∙ ap ret (
        ap (take (j - i)) (drop-append i front (mid ++ back) e)
        ∙ take-append (j - i) mid back (omega arith))

slice_to-append : (front back : List ℕ) → slice_to (length front) (front ++ back) ≡ ret front
slice_to-append front back =
    slice_to-ret (length front) (front ++ back) (omega (arith, length-append front back))
    ∙ ap ret (take-append (length front) front back refl)

-- The four strings in a buffer, and where they end.
abbrev laid_out : SysDevice → List ℕ
laid_out value =
    to_bytes_with_nul value.name
    ++ (to_bytes_with_nul value.vendor
        ++ (to_bytes_with_nul value.model ++ to_bytes_with_nul value.type_))

abbrev after_name : SysDevice → ℕ
after_name value = length (to_bytes_with_nul value.name)

abbrev after_vendor : SysDevice → ℕ
after_vendor value = after_name value + length (to_bytes_with_nul value.vendor)

abbrev after_model : SysDevice → ℕ
after_model value = after_vendor value + length (to_bytes_with_nul value.model)

abbrev size_of : SysDevice → ℕ
size_of value = after_model value + length (to_bytes_with_nul value.type_)

-- A description that reads as a device of the C library.
pub record Describes (value : SysDevice) (d : DeviceDescription) : Type 0 where
  pub by_name : name d ≡ ret value.name
  pub by_vendor : vendor d ≡ ret value.vendor
  pub by_model : model d ≡ ret value.model
  pub by_type : type_ d ≡ ret value.type_

-- Strings without inner NUL that fit one allocation.
pub record Proper (value : SysDevice) : Type 0 where
  pub name_non_nul : NonNul value.name.bytes
  pub vendor_non_nul : NonNul value.vendor.bytes
  pub model_non_nul : NonNul value.model.bytes
  pub type_non_nul : NonNul value.type_.bytes
  pub small :
      length value.name.bytes
        + length value.vendor.bytes
        + length value.model.bytes
        + length value.type_.bytes
        + 4
      ≤ isize_max

read_at :
    (s : SaneStr)
    → NonNul s.bytes
    → (xs front back : List ℕ) {i j : ℕ} → xs ≡ front ++ (to_bytes_with_nul s ++ back)
    → length front ≡ i
    → i + length (to_bytes_with_nul s) ≡ j
    → (slice i j xs >>= new_unchecked) ≡ ret s
read_at s h xs front back {i} {j} e f g =
    rw (e, slice-append front (to_bytes_with_nul s) back i j f g) (new_unchecked-with_nul s h)

laid_out-Describes :
    (value : SysDevice) (d : DeviceDescription)
    → Proper value
    → d.buf.bytes ≡ laid_out value
    → d.name_end ≡ after_name value
    → d.vendor_end ≡ after_vendor value
    → d.model_end ≡ after_model value
    → Describes value d
unfolding name vendor model type_
laid_out-Describes value d p e a b c =
    let x = to_bytes_with_nul value.name in
    let y = to_bytes_with_nul value.vendor in
    let z = to_bytes_with_nul value.model in
    let w = to_bytes_with_nul value.type_ in
    record {
      by_name =
          rw (a, e, slice_to-append x (y ++ (z ++ w)))
            (new_unchecked-with_nul value.name p.name_non_nul);
      by_vendor =
          read_at value.vendor p.vendor_non_nul d.buf.bytes x (z ++ w) e (sym a)
            (ap (λ i. i + length y) a ∙ sym b);
      by_model =
          read_at value.model p.model_non_nul d.buf.bytes (x ++ y) w
            (e ∙ sym (append_assoc x y (z ++ w))) (length-append x y ∙ sym b)
            (ap (λ i. i + length z) b ∙ sym c);
      by_type =
          read_at value.type_ p.type_non_nul d.buf.bytes (x ++ (y ++ z)) []
            (e
              ∙ ap (λ k. x ++ (y ++ (z ++ k))) (sym (append-nil w))
              ∙ ap (λ k. x ++ k) (sym (append_assoc y z (w ++ [])))
              ∙ sym (append_assoc x (y ++ z) (w ++ [])))
            (omega (arith, length-append x (y ++ z), length-append y z, c))
            (omega (
              arith,
              ap {A = List ℕ} length e,
              length-append x (y ++ (z ++ w)),
              length-append y (z ++ w),
              length-append z w,
              c,
            ));
    }

sizes :
    (value : SysDevice)
    → Proper value
    → size_of value
      ≡ length value.name.bytes
        + length value.vendor.bytes
        + length value.model.bytes
        + length value.type_.bytes
        + 4
sizes value p = omega (
  arith,
  length-with_nul value.name,
  length-with_nul value.vendor,
  length-with_nul value.model,
  length-with_nul value.type_,
)

-- Whatever a description held before, with or without room: `from_sys_into` of a device whose strings
-- have no inner NUL and fit one allocation succeeds in every build, and the description then reads as
-- the device's name, vendor, model and type; none of the reads panics or is undefined.
pub from_sys_into-Describes :
    (e : Env) (into : DeviceDescription) (value : SysDevice)
    → Proper value
    → (d : DeviceDescription) × (from_sys_into e into value ≡ ret d) × Describes value d
unfolding from_sys_into clear
from_sys_into-Describes e into value p =
    let x = to_bytes_with_nul value.name in
    let y = to_bytes_with_nul value.vendor in
    let z = to_bytes_with_nul value.model in
    let w = to_bytes_with_nul value.type_ in
    let n : size_of value ≤ isize_max = omega (arith, sizes value p, p.small) in
    let (v, got, r) =
      reserve_exact-Reserved e (size_of value) (clear into.buf) (omega (arith, n)) in
    let d : DeviceDescription = record {
      buf = record {
        bytes = (((v.bytes ++ x) ++ y) ++ z) ++ w;
        spare = drop (length w) (drop (length z) (drop (length y) (drop (length x) v.spare)));
      };
      name_end = after_name value;
      vendor_end = after_vendor value;
      model_end = after_model value;
    } in
    (
      d,
      rw (
        add_usize-ret e (length x) (length y) (omega (arith, n)),
        add_usize-ret e (length x + length y) (length z) (omega (arith, n)),
        add_usize-ret e (length x + length y + length z) (length w) (omega (arith, n)),
        got,
        extend_from_slice-ret e x v.bytes v.spare (omega (arith, r.room)),
        extend_from_slice-ret e y (v.bytes ++ x) (drop (length x) v.spare)
            (omega (arith, r.room, length-drop (length x) v.spare)),
        extend_from_slice-ret e z ((v.bytes ++ x) ++ y) (drop (length y) (drop (length x) v.spare))
            (omega (
              arith,
              r.room,
              length-drop (length x) v.spare,
              length-drop (length y) (drop (length x) v.spare),
            )),
        extend_from_slice-ret e w (((v.bytes ++ x) ++ y) ++ z)
            (drop (length z) (drop (length y) (drop (length x) v.spare)))
            (omega (
              arith,
              r.room,
              length-drop (length x) v.spare,
              length-drop (length y) (drop (length x) v.spare),
              length-drop (length z) (drop (length y) (drop (length x) v.spare)),
            )),
      ),
      laid_out-Describes value d p
          (ap (λ k. (((k ++ x) ++ y) ++ z) ++ w) r.same
            ∙ append_assoc (x ++ y) z w
            ∙ append_assoc x y (z ++ w))
          refl refl refl,
    )
