-- ===== src/Options/Contract.antt =====
-- What libsane documents of `sane_control_option`, and what the wrappers of
-- libsane/src/proxied_sys.rs return then.
use libsane_rs.Common.{
  ℕ, ◌^◌, ◌<◌, ◌≡◌, ◌≢◌, ◌⊎◌, inl, inr, refl, arith, true, List, length, ◌==◌, ==_iff, lt→ltb,
  Bool-cases, ret, ok, err,
}
use libsane_rs.Common.Vec.{MaybeUninit}
use libsane_rs.Sys.{Action, get_value, set_value}
use libsane_rs.Strings.Content.{Holds}
use libsane_rs.Errors.Status.{StatusCodes, status_result}
use libsane_rs.Values.Value.{ValueType, is_word_sized}
use libsane_rs.Calls.Api.{Api, OptionDescriptor, Memory, word, buffer, null, same_shape}
use libsane_rs.Calls.Proxied.{checked_index, control_option}
use libsane_rs.Options.Descriptor.{size, type_}
use libsane_rs.Options.Accessors.{DeviceOption}

-- A memory for the value of an option: a word, or as many bytes as the descriptor says.
abbrev pub Suits : OptionDescriptor → Memory → Type 0
Suits d (word w) = is_word_sized (type_ d) ≡ true
Suits d (buffer buf) = (type_ d ≡ ValueType.string) × (length buf ≡ size d)
Suits d null = ⊥

module _ {H L : Type 0} (api : Api H L) where
  -- The memory of a value after a call.
  abbrev pub left_by : L → DeviceOption H → Action → Memory → Memory
  left_by l d action m = (api.sane_control_option l d.handle d.index action m).1

  abbrev pub status_of : L → DeviceOption H → Action → Memory → ℕ
  status_of l d action m = (api.sane_control_option l d.handle d.index action m).0

  abbrev pub info_of : L → DeviceOption H → Action → Memory → ℕ
  info_of l d action m = (api.sane_control_option l d.handle d.index action m).2

  abbrev pub state_after : L → DeviceOption H → Action → Memory → L
  state_after l d action m = (api.sane_control_option l d.handle d.index action m).3

  -- The library writes only to the memory of a value; where it returns a string, this is a C string,
  -- and so it leaves one that it has set.
  pub record Obeys (d : DeviceOption H) : Type 0 where
    pub keeps :
        (l : L) (action : Action) (m : Memory)
        → Suits d.descriptor m
        → same_shape m (left_by l d action m) ≡ true
    pub fills :
        (l : L) (buf after : List MaybeUninit)
        → Suits d.descriptor (buffer buf)
        → status_of l d get_value (buffer buf) ≡ api.codes.good
        → left_by l d get_value (buffer buf) ≡ buffer after
        → (bytes : List ℕ) × Holds after bytes
    pub leaves :
        (l : L) (buf after : List MaybeUninit) (bytes : List ℕ)
        → Suits d.descriptor (buffer buf)
        → Holds buf bytes
        → status_of l d set_value (buffer buf) ≡ api.codes.good
        → left_by l d set_value (buffer buf) ≡ buffer after
        → (others : List ℕ) × Holds after others

  pub control_option-ret :
      (l : L) (d : DeviceOption H) (action : Action) (m : Memory)
      → d.index < 2 ^ 31
      → same_shape m (left_by l d action m) ≡ true
      → control_option api l d.handle d.index action m
        ≡ ret (
          status_result api.codes (status_of l d action m),
          left_by l d action m,
          info_of l d action m,
          state_after l d action m,
        )
  unfolding control_option checked_index
  control_option-ret l d action m small shape = rw (lt→ltb d.index (2 ^ 31) small) (rw shape)

pub same_shape-word : (w : ℕ) (m : Memory) → same_shape (word w) m ≡ true → (v : ℕ) × (m ≡ word v)
unfolding same_shape
same_shape-word w (word v) h = (v, refl)
same_shape-word w (buffer buf) h = cc
same_shape-word w null h = cc

pub same_shape-buffer :
    (xs : List MaybeUninit) (m : Memory)
    → same_shape (buffer xs) m ≡ true
    → (ys : List MaybeUninit) × (m ≡ buffer ys)
unfolding same_shape
same_shape-buffer xs (word v) h = cc
same_shape-buffer xs (buffer ys) h = (ys, refl)
same_shape-buffer xs null h = cc

pub status_result-cases :
    (c : StatusCodes) (s : ℕ)
    → ((s ≡ c.good) × (status_result c s ≡ ok tt)) ⊎ ((s ≢ c.good) × (status_result c s ≡ err s))
unfolding status_result
status_result-cases c s = elim (Bool-cases (s == c.good)) [
  | inl same ↦ inl ((==_iff s c.good).0 same, rw same)
  | inr differs ↦ inr ((λ e. ground arith), rw differs)
]
