-- ===== src/CLists/Items.antt =====
-- `new_word_list` and `SaneStrListIter` of libsane/src/list.rs. A pointer is the memory from there to
-- the end of what the C library allocated; the null pointer of an iterator has none.
use libsane_rs.Common.{
  ℕ, ◌+◌, ◌^◌, ◌<◌, ◌≡◌, refl, ap, ◌∙◌, arith, Bool, Option, none, some, List, [], ◌∷◌, ◌++◌, map,
  length, take, leb, ltb, le→leb, lt→ltb, if◌then◌else◌, Outcome, ret, panic, ub, ◌>>=◌,
  take-append, length-append,
}
use libsane_rs.Strings.Buffer.{SaneStr}

-- `new_word_list`, with `debug` for a build that checks `debug_assert!`. A word is its 32 bits, so a
-- negative length is one from 2 ^ 31 on, which `as usize` extends to a length that no memory has.
unfoldable pub new_word_list : Bool → List ℕ → Outcome (List ℕ)
new_word_list debug [] = ub
new_word_list debug (len ∷ ptr) =
    if ltb len (2 ^ 31)
    then (if leb len (length ptr) then ret (take len ptr) else ub)
    else if debug
    then panic
    else ub

-- The loop of `count_items` from a count on.
unfoldable pub count_from : ℕ → List (Option SaneStr) → Outcome ℕ
count_from len [] = ub
count_from len (none ∷ ptr) = ret len
count_from len (some s ∷ ptr) = count_from (len + 1) ptr

unfoldable pub count_items : List (Option SaneStr) → Outcome ℕ
unfolding count_from
count_items ptr = count_from 0 ptr

-- The items that an iteration by `next` yields.
unfoldable pub items : List (Option SaneStr) → Outcome (List SaneStr)
items [] = ub
items (none ∷ ptr) = ret []
items (some s ∷ ptr) = items ptr >>= λ rest. ret (s ∷ rest)

count_from-ret :
    (xs : List SaneStr) (rest : List (Option SaneStr)) (len : ℕ)
    → count_from len (map some xs ++ (none ∷ rest)) ≡ ret (len + length xs)
unfolding count_from
count_from-ret [] rest len = ap ret (omega arith)
count_from-ret (x ∷ xs) rest len = count_from-ret xs rest (len + 1) ∙ ap ret (omega arith)

items-ret :
    (xs : List SaneStr) (rest : List (Option SaneStr))
    → items (map some xs ++ (none ∷ rest)) ≡ ret xs
unfolding items
items-ret [] rest = refl
items-ret (x ∷ xs) rest = rw (items-ret xs rest)

-- Of a list that ends in a null pointer, `count_items` counts the strings before it, whatever stands
-- behind it, and an iteration yields just these.
pub items-count_items :
    (xs : List SaneStr) (rest : List (Option SaneStr))
    → (items (map some xs ++ (none ∷ rest)) ≡ ret xs)
      × (count_items (map some xs ++ (none ∷ rest)) ≡ ret (length xs))
unfolding count_items
items-count_items xs rest = (items-ret xs rest, count_from-ret xs rest 0 ∙ ap ret (omega arith))

-- A word list whose first word is the number of words that follow it is read as these, in every
-- build, whatever stands behind them; the number is one of 31 bits.
pub new_word_list-append :
    (debug : Bool) (words rest : List ℕ)
    → length words < 2 ^ 31
    → new_word_list debug (length words ∷ (words ++ rest)) ≡ ret words
unfolding new_word_list
new_word_list-append debug words rest small = rw (
  lt→ltb (length words) (2 ^ 31) small,
  le→leb (length words) (length (words ++ rest)) (omega (arith, length-append words rest)),
  take-append (length words) words rest refl,
)
