-- ===== src/Scan/Samples.antt =====
-- A library that hands out a list of bytes one at a time, and then reports the end of the frame.
use libsane_rs.Common.{
  ℕ, zero, suc, ◌≤◌, ◌<◌, ◌≡◌, refl, arith, List, [], ◌∷◌, ◌++◌, length, ok, err,
}
use libsane_rs.Scan.Reader.{eof, SaneRead}
use libsane_rs.Scan.Feeding.{Feeds}

unfoldable pub deliver : SaneRead (List ℕ)
deliver [] n = (err eof, [])
deliver (b ∷ bs) zero = (ok [], b ∷ bs)
deliver (b ∷ bs) (suc n) = (ok (b ∷ []), bs)

abbrev pub left : List ℕ → List ℕ
left l = l

deliver-chunk :
    (l : List ℕ) (n : ℕ)
    → 0 < n
    → 0 < length (left l)
    → (bytes : List ℕ) × (l1 : List ℕ) × (0 < length bytes)
      × (length bytes ≤ n)
      × (deliver l n ≡ (ok bytes, l1))
      × (left l ≡ bytes ++ left l1)
unfolding deliver
deliver-chunk [] n pos some_left = absurd (omega arith)
deliver-chunk (b ∷ bs) zero pos some_left = absurd (omega arith)
deliver-chunk (b ∷ bs) (suc n) pos some_left = (b ∷ [], bs, omega arith, omega arith, refl, refl)

deliver-last :
    (l : List ℕ) (n : ℕ)
    → 0 < n
    → left l ≡ []
    → (l1 : List ℕ) × (deliver l n ≡ (err eof, l1)) × (left l1 ≡ [])
unfolding deliver
deliver-last [] n pos none_left = ([], refl, refl)
deliver-last (b ∷ bs) n pos none_left = cc

pub deliver-Feeds : Feeds deliver left
deliver-Feeds = record { chunk = deliver-chunk; last = deliver-last }
