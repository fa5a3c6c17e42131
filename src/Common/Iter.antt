-- ===== src/Common/Iter.antt =====
-- What the code uses of Rust's lazy iterators over slices: an iterator is the list of what it will
-- yield, with the panic that pulling its next item would raise.
use mathlib.Core.Path.{◌≡◌, refl, ap}
use mathlib.Core.Logic.{◌⊎◌, inl, inr}
use mathlib.Core.List.{List, [], ◌∷◌, ◌++◌, map, flatten}
use libsane_rs.Common.Lists.{All}
use libsane_rs.Common.Effects.{Outcome, ret, panic, ub}

pub data Iter {ℓ} (A : Type ℓ) : Type ℓ where
  nil : Iter A
  crash : Iter A
  fault : Iter A
  cons : A → Iter A → Iter A

module _ {ℓ} {A : Type ℓ} where
  unfoldable pub of_list : List A → Iter A
  of_list [] = nil
  of_list (x ∷ xs) = cons x (of_list xs)

  -- A list of items that are ready, before the rest of an iterator.
  unfoldable pub chain : List A → Iter A → Iter A
  chain [] it = it
  chain (x ∷ xs) it = cons x (chain xs it)

  pub chain-of_list : (xs ys : List A) → chain xs (of_list ys) ≡ of_list (xs ++ ys)
  unfolding chain of_list
  chain-of_list [] ys = refl
  chain-of_list (x ∷ xs) ys = ap (cons x) (chain-of_list xs ys)

-- `iter.flat_map(f)`: the closure runs when its first item is pulled.
module _ {ℓ κ} {A : Type ℓ} {B : Type κ} (f : A → Outcome (List B)) where
  unfoldable pub flat_map : List A → Iter B
  unfolding chain
  flat_map [] = nil
  flat_map (x ∷ xs) =
      let rest = flat_map xs in elim (f x) [ ret ys ↦ chain ys rest | panic ↦ crash | ub ↦ fault ]

  -- Where no call of the closure fails, the iterator is a list.
  pub flat_map-of_list :
      (g : A → List B) (xs : List A)
      → All (λ x. f x ≡ ret (g x)) xs
      → flat_map xs ≡ of_list (flatten (map g xs))
  unfolding flat_map of_list flatten
  flat_map-of_list g [] h = refl
  flat_map-of_list g (x ∷ xs) h =
      rw (h.0, flat_map) (rw (flat_map-of_list g xs h.1) (chain-of_list (g x) (flatten (map g xs))))

-- No pull of the iterator is undefined.
abbrev pub NoFault {ℓ} : {A : Type ℓ} → Iter A → Type 0
NoFault nil = Unit
NoFault crash = Unit
NoFault fault = ⊥
NoFault (cons x it) = NoFault it

pub chain-NoFault {ℓ} :
    {A : Type ℓ} (xs : List A) (it : Iter A) → NoFault it → NoFault (chain xs it)
unfolding chain
chain-NoFault [] it h = h
chain-NoFault (x ∷ xs) it h = chain-NoFault xs it h

pub flat_map-NoFault {ℓ κ} :
    {A : Type ℓ} {B : Type κ} (f : A → Outcome (List B)) (xs : List A)
    → ((x : A) → (f x ≡ panic) ⊎ ((ys : List B) × (f x ≡ ret ys)))
    → NoFault (flat_map f xs)
unfolding flat_map
flat_map-NoFault f [] h = tt
flat_map-NoFault f (x ∷ xs) h = elim (h x) [
  | inl e ↦ rw (e, flat_map) tt
  | inr (ys, e) ↦ rw (e, flat_map) (chain-NoFault ys (flat_map f xs) (flat_map-NoFault f xs h))
]
