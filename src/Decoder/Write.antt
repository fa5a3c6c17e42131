-- ===== src/Decoder/Write.antt =====
-- `FrameDecoder::write`, libsane/src/device/scan/frame_decoder.rs: the checks at its head, and the
-- match on the decoder's state and the frame's format.
use libsane_rs.Common.{
  ℕ, ◌/◌, ◌%◌, ◌^◌, true, not, List, ◌==◌, ltb, if◌then◌else◌, length, Outcome, ret, panic, ◌>>=◌,
  Result, ok, err,
}
use libsane_rs.Common.Vec.{Env}
use libsane_rs.Sys.{Frame}
use libsane_rs.Parameters.{FrameParameters}
use libsane_rs.Decoder.Types.{
  FrameDecoder, Written, red, green, blue, FrameDecoderState, initial, rgb_parts, FrameDecodeError,
  already_done, unsupported_parameters, invalid_parameters, is_done, lines_differ,
}
use libsane_rs.Decoder.Branches.{
  write_black_and_white, write_gray, write_rgb, write_first_part, write_next_part,
}

-- The checks at the head of `write`; the result is `f_height`.
unfoldable pub check_frame :
    FrameDecoder → List ℕ → FrameParameters → Outcome (Result ℕ FrameDecodeError)
unfolding is_done
check_frame d frame p =
    if is_done d
    then ret (err already_done)
    else if p.depth == 0
    then ret (err invalid_parameters)
    else if not (ltb (length frame) (2 ^ 32))
    then ret (err invalid_parameters)
    else if p.bytes_per_line == 0
    then panic
    else if not (length frame % p.bytes_per_line == 0)
    then ret (err invalid_parameters)
    else if lines_differ p.lines (length frame / p.bytes_per_line)
    then ret (err invalid_parameters)
    else ret (ok (length frame / p.bytes_per_line))

unfoldable pub decode_by :
    Env → FrameDecoder → List ℕ → FrameParameters → ℕ → FrameDecoderState → Frame → Outcome Written
unfolding write_black_and_white write_gray write_rgb write_first_part write_next_part
decode_by e d frame p h initial Frame.gray =
    if p.depth == 1 then write_black_and_white e d frame p h else write_gray e d frame p h
decode_by e d frame p h initial Frame.rgb = write_rgb e d frame p h
decode_by e d frame p h initial Frame.red = write_first_part e d frame p h red
decode_by e d frame p h initial Frame.green = write_first_part e d frame p h green
decode_by e d frame p h initial Frame.blue = write_first_part e d frame p h blue
decode_by e d frame p h (rgb_parts n r g b) Frame.red =
    write_next_part e d frame p h red n r g b (rgb_parts n true g b)
decode_by e d frame p h (rgb_parts n r g b) Frame.green =
    write_next_part e d frame p h green n g r b (rgb_parts n r true b)
decode_by e d frame p h (rgb_parts n r g b) Frame.blue =
    write_next_part e d frame p h blue n b r g (rgb_parts n r g true)
decode_by e d frame p h _ _ = ret (err unsupported_parameters, d)

unfoldable pub decode :
    Env → FrameDecoder → List ℕ → FrameParameters → Result ℕ FrameDecodeError → Outcome Written
unfolding decode_by
decode e d frame p (err x) = ret (err x, d)
decode e d frame p (ok f_height) = decode_by e d frame p f_height d.state p.format

unfoldable pub write : Env → FrameDecoder → List ℕ → FrameParameters → Outcome Written
unfolding check_frame decode
write e d frame p = check_frame d frame p >>= decode e d frame p
