-- ===== src/Scan/FrameReader.antt =====
-- `FrameReader` of libsane/src/device/scan.rs, which borrows the scanner: its reads of a part of a
-- frame and of a whole one, on one state.
use libsane_rs.Common.{
  ℕ, ◌≡◌, refl, Bool, true, false, List, [], ◌∷◌, ◌++◌, Outcome, ret, ◌>>=◌, Result,
}
use libsane_rs.Common.Returns.{Returns, Returns-then, Returns->>=}
use libsane_rs.Common.Vec.{Env, Vec}
use libsane_rs.Parameters.{FrameParameters}
use libsane_rs.Scan.Reader.{Status, End}
use libsane_rs.Scan.Reader
use libsane_rs.Scan.Session.{Library, ScanReader, next_frame}
use libsane_rs.Scan.Session

pub record FrameReader (L : Type 0) : Type 0 where
  pub scanner : ScanReader L
  pub params : FrameParameters
  pub started : Bool

module _ {L : Type 0} (lib : Library L) where
  -- `FrameReader::new`
  unfoldable pub new_reader : ScanReader L → FrameParameters → FrameReader L
  new_reader scanner params = record { scanner = scanner; params = params; started = false }

  unfoldable pub reader_read_frame : ℕ → FrameReader L → Result (List ℕ) Status × FrameReader L
  unfolding Session.read_frame
  reader_read_frame n r =
      let s = Session.read_frame lib r.params n r.scanner in
      (s.0, record r { scanner = s.1; started = true })

  unfoldable pub reader_read_full_frame :
      Env → Bool → ℕ → FrameReader L → Vec → Outcome (End × Vec × FrameReader L)
  unfolding Reader.read_full_frame
  reader_read_full_frame e debug fuel r buf_vec =
      Reader.read_full_frame lib.read e debug fuel r.scanner.device r.params r.started
        r.scanner.done buf_vec
      >>= λ s.
          ret (s.0, s.1, record r { scanner = record { device = s.2; done = s.3 }; started = true })

  -- The reads that a client makes of one frame.
  pub data ReadCall : Type 0 where
    part : ℕ → ReadCall
    whole : Vec → ReadCall

  unfoldable pub reads : Env → Bool → ℕ → FrameReader L → List ReadCall → Outcome (FrameReader L)
  unfolding reader_read_frame reader_read_full_frame
  reads e debug fuel r [] = ret r
  reads e debug fuel r (part n ∷ rest) = reads e debug fuel ((reader_read_frame n r).1) rest
  reads e debug fuel r (whole v ∷ rest) =
      reader_read_full_frame e debug fuel r v >>= λ s. reads e debug fuel s.2 rest

  full_frame-started :
      (e : Env) (debug : Bool) (fuel : ℕ) (r : FrameReader L) (v : Vec)
      → Returns (λ s. s.2.started ≡ true) (reader_read_full_frame e debug fuel r v)
  unfolding reader_read_full_frame
  full_frame-started e debug fuel r v =
      Returns->>= (λ s. s.2.started ≡ true)
        (Reader.read_full_frame lib.read e debug fuel r.scanner.device r.params r.started
          r.scanner.done v)
        _ (λ s. refl)

  reads-started :
      (e : Env) (debug : Bool) (fuel : ℕ) (r : FrameReader L) (before after : List ReadCall)
      (v : Vec)
      → r.started ≡ true
      → Returns (λ _. ⊥) (reads e debug fuel r (before ++ (whole v ∷ after)))
  unfolding reads reader_read_frame reader_read_full_frame Reader.read_full_frame
  reads-started e debug fuel r [] after v h = simp h tt
  reads-started e debug fuel r (part n ∷ before) after v h =
      reads-started e debug fuel ((reader_read_frame n r).1) before after v refl
  reads-started e debug fuel r (whole w ∷ before) after v h = simp h tt

  -- After any read, of a part of the frame or of the whole, a read of the whole panics, whatever
  -- parts are read in between: no reads with a read of the whole behind the first one return.
  pub reads-whole :
      (e : Env) (debug : Bool) (fuel : ℕ) (r : FrameReader L) (first : ReadCall)
      (before after : List ReadCall) (v : Vec)
      → Returns (λ _. ⊥) (reads e debug fuel r (first ∷ (before ++ (whole v ∷ after))))
  unfolding reads reader_read_frame reader_read_full_frame
  reads-whole e debug fuel r (part n) before after v =
      reads-started e debug fuel ((reader_read_frame n r).1) before after v refl
  reads-whole e debug fuel r (whole w) before after v =
      Returns-then (λ _. ⊥) (λ s. s.2.started ≡ true) (reader_read_full_frame e debug fuel r w) _
        (full_frame-started e debug fuel r w)
        (λ s started. reads-started e debug fuel s.2 before after v started)
