-- ===== src/CLists/Iterator.antt =====
-- `SaneStrListIter` of libsane/src/list.rs as a state: its constructors, `next`, and `Debug`.
use libsane_rs.Common.{
  ℕ, ◌+◌, ◌≡◌, ap, ◌∙◌, Option, none, some, List, [], ◌∷◌, Outcome, ret, ub, ◌>>=◌,
}
use libsane_rs.Strings.Buffer.{SaneStr}
use libsane_rs.CLists.Items.{items, count_items, count_from}

pub record SaneStrListIter : Type 0 where
  pub ptr : List (Option SaneStr)

unfoldable pub new_iter : List (Option SaneStr) → SaneStrListIter
new_iter ptr = record { ptr = ptr }

unfoldable pub clone_iter : SaneStrListIter → SaneStrListIter
clone_iter it = record { ptr = it.ptr }

-- The null pointer leads to no memory.
unfoldable pub default_iter : SaneStrListIter
default_iter = record { ptr = [] }

next_at : List (Option SaneStr) → Outcome (Option SaneStr × SaneStrListIter)
next_at [] = ub
next_at (none ∷ ptr) = ret (none, record { ptr = none ∷ ptr })
next_at (some item ∷ ptr) = ret (some item, record { ptr = ptr })

unfoldable pub next_item : SaneStrListIter → Outcome (Option SaneStr × SaneStrListIter)
unfolding next_at
next_item it = next_at it.ptr

-- The entries that `Debug` lists: the items of a clone.
unfoldable pub debug_entries : SaneStrListIter → Outcome (List SaneStr)
unfolding items clone_iter
debug_entries it = items (clone_iter it).ptr

value {ℓ} : {A : Type ℓ} {a b : A} → ret a ≡ ret b → a ≡ b
value h = cc

item_eq : {s t : SaneStr} → some s ≡ some t → s ≡ t
item_eq h = cc

count_from-suc :
    (ptr : List (Option SaneStr)) (k n : ℕ)
    → count_from k ptr ≡ ret n
    → count_from (k + 1) ptr ≡ ret (n + 1)
unfolding count_from
count_from-suc [] k n h = cc
count_from-suc (none ∷ ptr) k n h = ap (λ m. ret (m + 1)) (value h)
count_from-suc (some s ∷ ptr) k n h = count_from-suc ptr (k + 1) n h

at_ptr :
    (ptr : List (Option SaneStr)) (rest : SaneStrListIter) (item : SaneStr) (others : List SaneStr)
    (n : ℕ)
    → next_at ptr ≡ ret (some item, rest)
    → items rest.ptr ≡ ret others
    → count_items rest.ptr ≡ ret n
    → (items ptr ≡ ret (item ∷ others)) × (count_items ptr ≡ ret (n + 1))
unfolding next_at items count_items
at_ptr [] rest item others n step entries count = cc
at_ptr (none ∷ ptr) rest item others n step entries count = cc
at_ptr (some s ∷ ptr) rest item others n step entries count =
    let same : s ≡ item = item_eq (ap (λ r. r.0) (value step)) in
    let left : ptr ≡ rest.ptr = ap (λ r. r.1.ptr) (value step) in
    (
      ap (λ p. items p >>= λ others'. ret (s ∷ others')) left
          ∙ rw entries (ap (λ t. ret (t ∷ others)) same),
      count_from-suc ptr 0 n (ap (count_from 0) left ∙ count),
    )

-- Where `next` yields a string, the rest of the list is shorter by it: the string is the first entry
-- that `Debug` lists, and the other entries and their count are those of the iterator that it leaves.
pub next_item-count_items :
    (it rest : SaneStrListIter) (item : SaneStr) (others : List SaneStr) (n : ℕ)
    → next_item it ≡ ret (some item, rest)
    → debug_entries rest ≡ ret others
    → count_items rest.ptr ≡ ret n
    → (debug_entries it ≡ ret (item ∷ others)) × (count_items it.ptr ≡ ret (n + 1))
unfolding next_item debug_entries clone_iter
next_item-count_items it rest item others n step entries count =
    at_ptr it.ptr rest item others n step entries count
