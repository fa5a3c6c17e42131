-- ===== src/Decoder/Calls.antt =====
-- Several calls of `FrameDecoder::write` on one decoder, as a client makes them: each call gets the
-- decoder that the one before left, whatever that one returned.
use libsane_rs.Common.{
  ℕ, ◌+◌, ◌≤◌, ◌≡◌, arith, subst, true, List, [], ◌∷◌, Outcome, ret, ◌>>=◌, Result, ok, err,
}
use libsane_rs.Common.Safe.{Safe, Safe->>=}
use libsane_rs.Common.Vec.{Env}
use libsane_rs.Parameters.{FrameParameters}
use libsane_rs.Decoder.Types.{FrameDecoder, FrameDecodeError, Builder, build, Written}
use libsane_rs.Decoder.Write.{write}
use libsane_rs.Decoder.Sound.{IsSound, Keeps}
use libsane_rs.Decoder.NoUb.{write-IsSound}
use libsane_rs.Common.Returns.{Returns, Returns-then}
use libsane_rs.Decoder.States.{Follows, write-Follows, remaining, Step-remaining}

-- The results of the calls, and the decoder in the end.
abbrev Results : Type 0
Results = List (Result (Unit {0}) FrameDecodeError) × FrameDecoder

unfoldable pub write_all : Env → FrameDecoder → List (List ℕ × FrameParameters) → Outcome Results
unfolding write
write_all e d [] = ret ([], d)
write_all e d ((frame, p) ∷ frames) =
    write e d frame p >>= λ r. write_all e r.1 frames >>= λ rest. ret (r.0 ∷ rest.0, rest.1)

abbrev pub successes : List (Result (Unit {0}) FrameDecodeError) → ℕ
successes [] = 0
successes (ok u ∷ rs) = 1 + successes rs
successes (err x ∷ rs) = successes rs

abbrev SoundAfter : Results → Type 0
SoundAfter r = IsSound r.1

write_all-Safe :
    (e : Env) (d : FrameDecoder) (frames : List (List ℕ × FrameParameters))
    → e.overflow_checks ≡ true
    → IsSound d
    → Safe SoundAfter (write_all e d frames)
unfolding write_all
write_all-Safe e d [] checks sound = sound
write_all-Safe e d ((frame, p) ∷ frames) checks sound =
    Safe->>= Keeps SoundAfter (write e d frame p) _ (write-IsSound e checks d frame p sound) λ r k.
      Safe->>= SoundAfter SoundAfter (write_all e r.1 frames) _
        (write_all-Safe e r.1 frames checks k) (λ rest m. m)

-- In a build that checks arithmetic, no sequence of calls of `write` on a decoder that `build`
-- made reaches undefined behaviour, for all frames and parameters and every initial buffer: each
-- call returns, with or without an error, or panics, and a decoder that is left by calls that all
-- return is sound again.
pub write_all-build :
    (e : Env) (b : Builder) (frames : List (List ℕ × FrameParameters))
    → e.overflow_checks ≡ true
    → Safe SoundAfter (write_all e (build b) frames)
unfolding build
write_all-build e b frames checks = write_all-Safe e (build b) frames checks tt

abbrev Within : FrameDecoder → Results → Type 0
Within d r = successes r.0 + remaining r.1.state ≤ remaining d.state

one_more :
    (d : FrameDecoder) (r : Written) (rest : Results)
    → Follows d d.state r
    → Within r.1 rest
    → Within d (r.0 ∷ rest.0, rest.1)
one_more d (err x, d2) rest same h = subst (λ t. Within t rest) same h
one_more d (ok u, d2) rest (moved, kept) h = omega (arith, Step-remaining d.state d2.state moved, h)

-- In every build, of any sequence of calls of `write` that all return, at most as many succeed as
-- the decoder's state has left, which is 3 for a fresh decoder, one less for each band received and
-- 0 for a decoder that is done; what is left in the end is what these calls have not used up.
pub write_all-remaining :
    (e : Env) (d : FrameDecoder) (frames : List (List ℕ × FrameParameters))
    → Returns (Within d) (write_all e d frames)
unfolding write_all
write_all-remaining e d [] = omega arith
write_all-remaining e d ((frame, p) ∷ frames) =
    Returns-then (Within d) (Follows d d.state) (write e d frame p) _ (write-Follows e d frame p)
      λ r k.
        Returns-then (Within d) (Within r.1) (write_all e r.1 frames) _
          (write_all-remaining e r.1 frames) (λ rest m. one_more d r rest k m)
