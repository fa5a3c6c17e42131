-- ===== src/Scan/Filling.antt =====
-- The reads of `FrameReader::read_full_frame`, libsane/src/device/scan.rs, and the loop that fills a
-- buffer of known size.
use libsane_rs.Common.{
  ℕ, zero, suc, ◌≤◌, ◌≡◌, refl, sym, ap, ◌∙◌, arith, Bool, ◌&&◌, some, List, [], ◌∷◌, ◌++◌, map,
  map-append, min, length, drop, le→leb, ◌==◌, Outcome, Result, ok, err, length-append, length-drop,
}
use libsane_rs.Common.Safe.{Safe, Safe->>=, Safe-if}
use libsane_rs.Common.Vec.{MaybeUninit}
use libsane_rs.Scan.Reader.{
  Status, eof, cancelled, other, SaneRead, int_max, End, finished, failed, out_of_fuel, into_buffer,
  sys_read_uninit, after_read, fill,
}

-- The bytes of successful calls of the library, in order.
pub data Delivers {L : Type 0} (sane_read : SaneRead L) : L → List ℕ → L → Type 0 where
  stop : (l : L) → Delivers sane_read l [] l
  more :
      {l l1 l2 : L} (n : ℕ) (bytes rest : List ℕ)
      → sane_read l n ≡ (ok bytes, l1)
      → Delivers sane_read l1 rest l2
      → Delivers sane_read l (bytes ++ rest) l2

-- The library writes at most as many bytes as it is asked for.
abbrev pub AtMost : ℕ → Result (List ℕ) Status → Type 0
AtMost n (err s) = Unit
AtMost n (ok bytes) = length bytes ≤ n

module _ {L : Type 0} (sane_read : SaneRead L)
    (bounded : (l : L) (n : ℕ) → AtMost n ((sane_read l n).0)) where
  -- What a read of a buffer is.
  abbrev pub Read : L → List MaybeUninit → Result (List ℕ) Status × L → Type 0
  Read l buf r = (sane_read l (min (length buf) int_max) ≡ r) × AtMost (length buf) r.0

  AtMost-mono : (n m : ℕ) (r : Result (List ℕ) Status) → n ≤ m → AtMost n r → AtMost m r
  AtMost-mono n m (err s) h k = tt
  AtMost-mono n m (ok bytes) h k = omega (arith, h, k)

  into_buffer-Safe :
      (buf : List MaybeUninit) (r : Result (List ℕ) Status × L)
      → AtMost (length buf) r.0
      → Safe (λ s. (r ≡ s) × AtMost (length buf) s.0) (into_buffer sane_read buf r)
  unfolding into_buffer
  into_buffer-Safe buf (err s, l) h = (refl, tt)
  into_buffer-Safe buf (ok bytes, l) h = rw (le→leb (length bytes) (length buf) h) (refl, h)

  pub sys_read_uninit-Safe :
      (l : L) (buf : List MaybeUninit) → Safe (Read l buf) (sys_read_uninit sane_read l buf)
  unfolding sys_read_uninit
  sys_read_uninit-Safe l buf =
      into_buffer-Safe buf (sane_read l (min (length buf) int_max))
        (AtMost-mono (min (length buf) int_max) (length buf) _ (omega arith) (bounded l _))

  -- Bytes that the library delivered, and then a read that failed.
  abbrev pub Broken : L → List ℕ → Status → L → Type 0
  Broken l bytes s l2 =
      (l1 : L) × (n : ℕ) × Delivers sane_read l bytes l1 × (sane_read l1 n ≡ (err s, l2))

  pub Broken-more :
      {l l1 l2 : L} (n : ℕ) (bytes rest : List ℕ) (s : Status)
      → sane_read l n ≡ (ok bytes, l1)
      → Broken l1 rest s l2
      → Broken l (bytes ++ rest) s l2
  Broken-more n bytes rest s e (l3, k, d, f) = (l3, k, more n bytes rest e d, f)

  -- What the loop leaves in a buffer, if it comes to its end: the bytes delivered, as many as it has
  -- place for; and in each case the state of the library, after the reads that were made.
  abbrev pub Filled : L → List MaybeUninit → End × List MaybeUninit × L → Type 0
  Filled l buf (finished, memory, l2) =
      (bytes : List ℕ) × (memory ≡ map some bytes)
      × (length bytes ≡ length buf)
      × Delivers sane_read l bytes l2
  Filled l buf (failed s, memory, l2) = (bytes : List ℕ) × Broken l bytes s l2
  Filled l buf (out_of_fuel, memory, l2) = (bytes : List ℕ) × Delivers sane_read l bytes l2

  Filled-more :
      (l l1 : L) (buf : List MaybeUninit) (n : ℕ) (bytes : List ℕ)
      (rest : End × List MaybeUninit × L)
      → sane_read l n ≡ (ok bytes, l1)
      → length bytes ≤ length buf
      → Filled l1 (drop (length bytes) buf) rest
      → Filled l buf (rest.0, map some bytes ++ rest.1, rest.2)
  Filled-more l l1 buf n bytes (failed s, m, l2) e h (ds, k) =
      (bytes ++ ds, Broken-more n bytes ds s e k)
  Filled-more l l1 buf n bytes (out_of_fuel, m, l2) e h (ds, k) = (bytes ++ ds, more n bytes ds e k)
  Filled-more l l1 buf n bytes (finished, m, l2) e h (ds, shape, size, d) = (
    bytes ++ ds,
    ap (◌++◌ (map some bytes)) shape ∙ sym (map-append some bytes ds),
    omega (arith, length-append bytes ds, size, length-drop (length bytes) buf, h),
    more n bytes ds e d,
  )

  after_read-Filled :
      (debug : Bool) (next : L → List MaybeUninit → Outcome (End × List MaybeUninit × L)) (l : L)
      (buf : List MaybeUninit) (r : Result (List ℕ) Status × L)
      → ((l1 : L) (m : List MaybeUninit) → Safe (Filled l1 m) (next l1 m))
      → Read l buf r
      → Safe (Filled l buf) (after_read sane_read debug next buf r)
  unfolding after_read
  after_read-Filled debug next l buf (err eof, l1) ih k = tt
  after_read-Filled debug next l buf (err cancelled, l1) ih k =
      ([], (l, min (length buf) int_max, stop l, k.0))
  after_read-Filled debug next l buf (err (other s), l1) ih k =
      ([], (l, min (length buf) int_max, stop l, k.0))
  after_read-Filled debug next l buf (ok bytes, l1) ih k =
      Safe-if (Filled l buf) (debug && (length bytes == 0)) _ _ (λ _. tt)
        λ _.
          Safe->>= (Filled l1 (drop (length bytes) buf)) (Filled l buf)
            (next l1 (drop (length bytes) buf)) _ (ih l1 (drop (length bytes) buf))
            λ rest m. Filled-more l l1 buf (min (length buf) int_max) bytes rest k.0 k.1 m

  pub fill-Filled :
      (debug : Bool) (fuel : ℕ) (l : L) (buf : List MaybeUninit)
      → Safe (Filled l buf) (fill sane_read debug fuel l buf)
  unfolding fill
  fill-Filled debug fuel l [] = ([], refl, refl, stop l)
  fill-Filled debug zero l (b ∷ buf) = ([], stop l)
  fill-Filled debug (suc fuel) l (b ∷ buf) =
      Safe->>= (Read l (b ∷ buf)) (Filled l (b ∷ buf)) (sys_read_uninit sane_read l (b ∷ buf)) _
        (sys_read_uninit-Safe l (b ∷ buf))
        (λ r k. after_read-Filled debug _ l (b ∷ buf) r (λ l1 m. fill-Filled debug fuel l1 m) k)
