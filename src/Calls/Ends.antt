-- ===== src/Calls/Ends.antt =====
-- What holds of the value of a call through `WithSane`, libsane/src/lib.rs, if it returns one.
use libsane_rs.Common.{Bool, true, false, ret, panic, ub}
use libsane_rs.Common.Returns.{Returns}
use libsane_rs.Calls.Access.{Attempt, done, blocked, and_then, WithSane, with_sane}
use libsane_rs.Calls.Access

-- What holds of the value of a call, if it ends and returns one.
abbrev pub Ends {ℓ} : {A : Type ℓ} → (A → Type 0) → Attempt A → Type 0
Ends P (done o) = Returns P o
Ends P blocked = Unit

module _ {ℓ κ} {A : Type ℓ} {B : Type κ} (P : B → Type 0) where
  pub Ends-and_then :
      (Q : A → Type 0) (m : Attempt A) (f : A → Attempt B)
      → Ends Q m
      → ((a : A) → Q a → Ends P (f a))
      → Ends P (and_then m f)
  Ends-and_then Q (done (ret a)) f h k = k a h
  Ends-and_then Q (done panic) f h k = tt
  Ends-and_then Q (done ub) f h k = tt
  Ends-and_then Q blocked f h k = tt

module _ {ℓ} {A : Type ℓ} (P : A → Type 0) where
  pub Ends-with_sane :
      (s : WithSane) (inside : Bool) (cb : Unit {0} → Attempt A)
      → Ends P (cb tt)
      → Ends P (with_sane s inside cb)
  unfolding with_sane
  Ends-with_sane Access.sane inside cb h = h
  Ends-with_sane (Access.reference s) inside cb h = Ends-with_sane s inside cb h
  Ends-with_sane (Access.boxed s) inside cb h = Ends-with_sane s inside cb h
  Ends-with_sane (Access.rc s) inside cb h = Ends-with_sane s inside cb h
  Ends-with_sane (Access.arc s) inside cb h = Ends-with_sane s inside cb h
  Ends-with_sane (Access.mutex_guard s) inside cb h = Ends-with_sane s inside cb h
  Ends-with_sane (Access.parking_lot_mutex s) true cb h = tt
  Ends-with_sane (Access.parking_lot_mutex s) false cb h = Ends-with_sane s false cb h
  Ends-with_sane (Access.mutex poisoned s) true cb h = tt
  Ends-with_sane (Access.mutex true s) false cb h = tt
  Ends-with_sane (Access.mutex false s) false cb h = Ends-with_sane s false cb h
