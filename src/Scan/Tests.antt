-- ===== src/Scan/Tests.antt =====
-- A library that delivers a list of bytes one at a time, and the theorems about the reader over it.
use libsane_rs.Common.{
  ℕ, zero, suc, ◌++◌, length, ret, ◌-◌, ◌^◌, ◌≡◌, All, none, refl, arith, true, false, some, List,
  [], ◌∷◌, ok, err,
}
use libsane_rs.Common.Safe.{Safe}
use libsane_rs.Common.Returns.{Returns}
use libsane_rs.Common.Vec.{Env, Vec}
use libsane_rs.Sys.{Frame}
use libsane_rs.Parameters.{FrameParameters}
use libsane_rs.Scan.Session.{Library, next, read, stop, frames, frames-Ends}
use libsane_rs.Scan.Reader.{other, finished, read_full_frame}
use libsane_rs.Scan.Filling.{AtMost}
use libsane_rs.Scan.Delivery.{Received, read_full_frame-Received}
use libsane_rs.Scan.FrameReader.{part, whole, reads, reads-whole}
use libsane_rs.Scan.Samples.{deliver, left, deliver-Feeds}
use libsane_rs.Scan.Feeding.{read_full_frame-known}
use libsane_rs.Scan.Growing.{read_full_frame-unknown}

deliver-AtMost : (l : List ℕ) (n : ℕ) → AtMost n ((deliver l n).0)
unfolding deliver
deliver-AtMost [] n = tt
deliver-AtMost (b ∷ bs) zero = omega arith
deliver-AtMost (b ∷ bs) (suc n) = omega arith

abbrev env : Env
env = record { overflow_checks = true; slack = 1 }

abbrev params : FrameParameters
params = record {
  format = Frame.gray;
  last_frame = true;
  bytes_per_line = 2;
  pixels_per_line = 2;
  lines = some 2;
  depth = 8;
}

abbrev start : Vec
start = record { bytes = 9 ∷ []; spare = [] }

read_full_frame-Received_example :
    Safe
      (Received deliver deliver-AtMost env params false (1 ∷ 2 ∷ 3 ∷ 4 ∷ []) start)
      (read_full_frame deliver env true 4 (1 ∷ 2 ∷ 3 ∷ 4 ∷ []) params false false start)
read_full_frame-Received_example =
    read_full_frame-Received deliver deliver-AtMost env true 4 (1 ∷ 2 ∷ 3 ∷ 4 ∷ []) params false
      false start

-- A device that starts at once and delivers the bytes above.
abbrev device : Library (List ℕ)
device = record {
  start = λ l. (ok tt, l);
  set_io_mode = λ l. (err (other 1), l);
  get_parameters = λ l. (
    ok (record {
      format = Frame.gray;
      last_frame = 1;
      bytes_per_line = 2;
      pixels_per_line = 2;
      lines = 2 ^ 32 - 1;
      depth = 8;
    }),
    l,
  );
  read = deliver;
  cancel = λ l. l;
  sys_false = 0;
  unsupported = 1;
}

frames-Ends_example :
    All
      (λ r. r ≡ ok none)
      (frames device
        (record { device = []; done = false })
        (read params 4 ∷ next ∷ stop ∷ next ∷ []))
unfolding deliver
frames-Ends_example =
    frames-Ends device (record { device = []; done = false }) (read params 4)
      (next ∷ stop ∷ next ∷ []) (refl, refl)

read_full_frame-known_example :
    (bytes : List ℕ) × (l1 : List ℕ) × (w : Vec) × (read_full_frame deliver env true 4
        (1 ∷ 2 ∷ 3 ∷ 4 ∷ 5 ∷ [])
        params
        false
        false
        start
      ≡ ret (finished, w, l1, true))
    × (w.bytes ≡ 9 ∷ bytes)
    × (length bytes ≡ 4)
    × (1 ∷ 2 ∷ 3 ∷ 4 ∷ 5 ∷ [] ≡ bytes ++ left l1)
read_full_frame-known_example =
    read_full_frame-known deliver left deliver-Feeds env true 4 2 (1 ∷ 2 ∷ 3 ∷ 4 ∷ 5 ∷ []) params
      false start refl (omega arith) (omega arith) (omega arith) (omega arith)

abbrev tall : FrameParameters
tall = record params { lines = none }

read_full_frame-unknown_example :
    (l1 : List ℕ) × (w : Vec) × (read_full_frame deliver env true 4
        (1 ∷ 2 ∷ 3 ∷ [])
        tall
        false
        false
        start
      ≡ ret (finished, w, l1, true))
    × (w.bytes ≡ 9 ∷ 1 ∷ 2 ∷ 3 ∷ [])
    × (left l1 ≡ [])
read_full_frame-unknown_example =
    read_full_frame-unknown deliver left deliver-Feeds env true 4 (1 ∷ 2 ∷ 3 ∷ []) tall false start
      refl (omega arith) (omega arith) (omega arith)

reads-whole_example :
    Returns
      (λ _. ⊥)
      (reads device env true 9
        (record {
          scanner = record { device = 1 ∷ 2 ∷ []; done = false };
          params = params;
          started = false;
        })
        (part 1 ∷ (part 1 ∷ []) ++ (whole start ∷ [])))
reads-whole_example =
    reads-whole device env true 9
      (record {
        scanner = record { device = 1 ∷ 2 ∷ []; done = false };
        params = params;
        started = false;
      })
      (part 1) (part 1 ∷ []) [] start
