-- ===== src/Calls/Access.antt =====
-- `WithSane` of libsane/src/lib.rs: the values that grant access to the library, and what a call of
-- `with_sane` waits for.
use libsane_rs.Common.{Bool, true, false, ◌≡◌, refl, Outcome, ret, panic, ub}

-- A call that ends, or one that does not: it waits for a lock which its own thread holds, or is not
-- over within the bound of a loop.
pub data Attempt {ℓ} (A : Type ℓ) : Type ℓ where
  done : Outcome A → Attempt A
  blocked : Attempt A

abbrev pub and_then {ℓ κ} : {A : Type ℓ} {B : Type κ} → Attempt A → (A → Attempt B) → Attempt B
and_then (done (ret a)) f = f a
and_then (done panic) f = done panic
and_then (done ub) f = done ub
and_then blocked f = blocked

-- The implementors of the trait. A `std::sync::Mutex` may be poisoned.
pub data WithSane : Type 0 where
  sane : WithSane
  reference : WithSane → WithSane
  boxed : WithSane → WithSane
  rc : WithSane → WithSane
  arc : WithSane → WithSane
  mutex_guard : WithSane → WithSane
  parking_lot_mutex : WithSane → WithSane
  mutex : Bool → WithSane → WithSane

-- `with_sane`, with `inside` for a call from the closure of another `with_sane` on the same value,
-- which holds its locks. The body is under a binder, since it runs only when the locks are held.
unfoldable pub with_sane {ℓ} : {A : Type ℓ} → WithSane → Bool → (Unit {0} → Attempt A) → Attempt A
with_sane sane inside cb = cb tt
with_sane (reference s) inside cb = with_sane s inside cb
with_sane (boxed s) inside cb = with_sane s inside cb
with_sane (rc s) inside cb = with_sane s inside cb
with_sane (arc s) inside cb = with_sane s inside cb
with_sane (mutex_guard s) inside cb = with_sane s inside cb
with_sane (parking_lot_mutex s) true cb = blocked
with_sane (parking_lot_mutex s) false cb = with_sane s false cb
with_sane (mutex poisoned s) true cb = blocked
with_sane (mutex true s) false cb = done panic
with_sane (mutex false s) false cb = with_sane s false cb

-- Values with a lock on the way to the library.
abbrev pub Locks : WithSane → Type 0
Locks sane = ⊥
Locks (reference s) = Locks s
Locks (boxed s) = Locks s
Locks (rc s) = Locks s
Locks (arc s) = Locks s
Locks (mutex_guard s) = Locks s
Locks (parking_lot_mutex s) = Unit
Locks (mutex poisoned s) = Unit

-- Values whose locks are not poisoned.
abbrev pub Clean : WithSane → Type 0
Clean sane = Unit
Clean (reference s) = Clean s
Clean (boxed s) = Clean s
Clean (rc s) = Clean s
Clean (arc s) = Clean s
Clean (mutex_guard s) = Clean s
Clean (parking_lot_mutex s) = Clean s
Clean (mutex poisoned s) = (poisoned ≡ false) × Clean s

module _ {ℓ} {A : Type ℓ} where
  pub with_sane-Clean :
      (s : WithSane) (cb : Unit {0} → Attempt A) → Clean s → with_sane s false cb ≡ cb tt
  unfolding with_sane
  with_sane-Clean sane cb h = refl
  with_sane-Clean (reference s) cb h = with_sane-Clean s cb h
  with_sane-Clean (boxed s) cb h = with_sane-Clean s cb h
  with_sane-Clean (rc s) cb h = with_sane-Clean s cb h
  with_sane-Clean (arc s) cb h = with_sane-Clean s cb h
  with_sane-Clean (mutex_guard s) cb h = with_sane-Clean s cb h
  with_sane-Clean (parking_lot_mutex s) cb h = with_sane-Clean s cb h
  with_sane-Clean (mutex poisoned s) cb h = rw h.0 (with_sane-Clean s cb h.1)

  pub with_sane-Locks :
      (s : WithSane) (cb : Unit {0} → Attempt A) → Locks s → with_sane s true cb ≡ blocked
  unfolding with_sane
  with_sane-Locks sane cb h = absurd h
  with_sane-Locks (reference s) cb h = with_sane-Locks s cb h
  with_sane-Locks (boxed s) cb h = with_sane-Locks s cb h
  with_sane-Locks (rc s) cb h = with_sane-Locks s cb h
  with_sane-Locks (arc s) cb h = with_sane-Locks s cb h
  with_sane-Locks (mutex_guard s) cb h = with_sane-Locks s cb h
  with_sane-Locks (parking_lot_mutex s) cb h = refl
  with_sane-Locks (mutex true s) cb h = refl
  with_sane-Locks (mutex false s) cb h = refl

  pub with_sane-free :
      (s : WithSane) (inside : Bool) (cb : Unit {0} → Attempt A)
      → (Locks s → ⊥)
      → with_sane s inside cb ≡ cb tt
  unfolding with_sane
  with_sane-free sane inside cb h = refl
  with_sane-free (reference s) inside cb h = with_sane-free s inside cb h
  with_sane-free (boxed s) inside cb h = with_sane-free s inside cb h
  with_sane-free (rc s) inside cb h = with_sane-free s inside cb h
  with_sane-free (arc s) inside cb h = with_sane-free s inside cb h
  with_sane-free (mutex_guard s) inside cb h = with_sane-free s inside cb h
  with_sane-free (parking_lot_mutex s) inside cb h = absurd (h tt)
  with_sane-free (mutex poisoned s) inside cb h = absurd (h tt)
