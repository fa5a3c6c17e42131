-- ===== src/Decoder/SoundSteps.antt =====
-- The steps that the branches for bands in `FrameDecoder::write`,
-- libsane/src/device/scan/frame_decoder.rs, have in common.
use libsane_rs.Common.{
  ℕ, ◌*◌, ◌≤◌, ◌<◌, ◌≡◌, ◌≢◌, ◌⊎◌, inl, inr, refl, sym, ap, ◌∙◌, arith, Bool, true, false, not,
  ◌&&◌, ◌||◌, List, length, take, ret, panic, ub, Outcome, ◌==◌, le→leb, Bool-cases, length-take,
  ==_iff,
}
use libsane_rs.Common.Safe.{Safe, Safe->>=, Safe-slice_to}
use libsane_rs.Common.Vec.{Vec, MaybeUninit, write_spare, set_len, all_init}
use libsane_rs.Decoder.Types.{
  FrameDecoder, FrameDecoderState, rgb_parts, Channel, red, green, blue, channel_index,
}
use libsane_rs.Decoder.Safety.{Any, positive}
use libsane_rs.Decoder.Sound.{SoundState}
use libsane_rs.Decoder.SoundBands.{Never}

Safe-Never {ℓ} : {A : Type ℓ} (P : A → Type 0) (m : Outcome A) → Safe Never m → Safe P m
Safe-Never P (ret a) h = absurd h
Safe-Never P panic h = tt
Safe-Never P ub h = absurd h

-- A loop over the spare capacity is as safe as its body.
pub write_spare-Safe :
    (n : ℕ) (v : Vec) (body : List MaybeUninit → Outcome (List MaybeUninit))
    → ((dst : List MaybeUninit) → length dst ≡ n → Safe Any (body dst))
    → Safe Any (write_spare n body v)
unfolding write_spare
write_spare-Safe n v body h = Safe-slice_to Any n v.spare _ λ inside.
    Safe->>= Any Any (body (take n v.spare)) _
      (h (take n v.spare) (omega (arith, length-take n v.spare))) (λ l _. tt)

pub write_spare_out :
    (n : ℕ) (v : Vec) (body : List MaybeUninit → Outcome (List MaybeUninit))
    → ((dst : List MaybeUninit) → length dst ≡ n → Safe Never (body dst))
    → Safe Never (write_spare n body v)
unfolding write_spare
write_spare_out n v body h = Safe-slice_to Never n v.spare _ λ inside.
    Safe->>= Never Never (body (take n v.spare)) _
      (h (take n v.spare) (omega (arith, length-take n v.spare))) (λ l e. absurd e)

-- Taking over no byte is defined.
pub set_len-zero : (n : ℕ) (v : Vec) → n ≡ 0 → Safe Any (set_len n v)
unfolding set_len all_init
set_len-zero n v e = rw (e, le→leb 0 (length v.spare) (omega arith)) tt

-- The pixels of a band, counted in bytes.
pub bytes_of : (w h n : ℕ) → w * h * (n * 3) ≡ w * h * (3 * n)
bytes_of w h n = omega arith

-- The code's offset of green and blue lies behind the pixel.
pub far : (n : ℕ) (c : Channel) → c ≢ red → 3 * n ≤ n * 3 * channel_index c
far n red h = absurd (h refl)
far n green h = omega arith
far n blue h = omega arith

pub same_area : (w h w2 h2 : ℕ) → (not (w == w2) || not (h == h2)) ≡ false → w * h ≡ w2 * h2
same_area w h w2 h2 e = elim (Bool-cases (w == w2)) [
  | inl a ↦ elim (Bool-cases (h == h2)) [
    | inl b ↦ rw ((==_iff w w2).0 a, (==_iff h h2).0 b)
    | inr b ↦ absurd (true-false (sym (rw (a, b)) ∙ e))
  ]
  | inr a ↦ absurd (true-false (sym (rw a) ∙ e))
]
  where
    true-false : true ≢ false
    true-false x = grind (arith, x)

pub green-red : green ≢ red
green-red x = omega (arith, ap channel_index x)

pub blue-red : blue ≢ red
blue-red x = omega (arith, ap channel_index x)

-- What is known before a further band is written.
abbrev pub Next : FrameDecoder → Channel → Bool → Bool → FrameDecoderState → Type 0
Next d c other1 other2 marked =
    ((d.width * d.height ≡ 0) × SoundState marked d.width d.height)
    ⊎ ((((other1 && other2) ≡ false) × SoundState marked d.width d.height)
        ⊎ ((c ≢ red) × (0 < d.width * d.height)))

-- Where the band is green or blue, its channel's `offset` decides.
pub behind :
    (d : FrameDecoder) (n : ℕ) (c : Channel) (other1 other2 r g b : Bool)
    → 0 < n
    → c ≢ red
    → Next d c other1 other2 (rgb_parts n r g b)
behind d n c other1 other2 r g b pos other = elim (Bool-cases (d.width * d.height == 0)) [
  | inl none_left ↦
      let z : d.width * d.height ≡ 0 = (==_iff (d.width * d.height) 0).0 none_left in
      inl (z, (pos, inl z))
  | inr some_left ↦ inr (inr (other, positive _ some_left))
]

-- Where it is red, neither green nor blue has been received, or the image has no pixel.
pub beside :
    (d : FrameDecoder) (n : ℕ) (g b : Bool)
    → 0 < n
    → (d.width * d.height ≡ 0) ⊎ ((g ≡ false) × (b ≡ false))
    → Next d red g b (rgb_parts n true g b)
beside d n g b pos (inl none_left) = inl (none_left, (pos, inl none_left))
beside d n true b pos (inr (no_green, no_blue)) = absurd (grind (arith, no_green))
beside d n false b pos (inr (no_green, no_blue)) = inr (inl (refl, (pos, inr (no_green, no_blue))))
