-- ===== src/Runtime/Multistream.antt =====
-- erp-runtime/src/network/transport/multistream.rs: how two ends of a connection agree on a
-- protocol. A stream is the bytes that are still to come from the other end; what an end writes is
-- returned. Texts are their bytes.
pub mod Agree
use Prim.Native.Nat.{min}
use rust_proof.Base.{
  ℕ, ◌+◌, ◌*◌, ◌%◌, ◌^◌, Bool, true, false, not, ◌||◌, Option, none, some, List, [], ◌∷◌, ◌++◌,
  Bytes, Outcome, ok, err, panic, ◌>>=◌, map_err, ltb, eq_bytes, if◌then◌else◌, length, last, take,
  ◌-◌, ◌==◌,
}
use rust_proof.Runtime.Frame.{
  Varint, FrameError, encode_length_prefixed, decode_length_prefix, read_length_prefixed_frame,
}
use rust_proof.Runtime.Utf8.{is_utf8}

-- "/multistream/1.0.0" and "na"
abbrev pub multistream_v1 : Bytes
multistream_v1 =
    47 ∷ 109 ∷ 117 ∷ 108 ∷ 116 ∷ 105 ∷ 115 ∷ 116 ∷ 114 ∷ 101 ∷ 97 ∷ 109 ∷ 47 ∷ 49 ∷ 46 ∷ 48 ∷ 46
    ∷ 48 ∷ []

abbrev pub not_available : Bytes
not_available = 110 ∷ 97 ∷ []

abbrev pub max_protocol_frame_len : ℕ
max_protocol_frame_len = 16384

pub data SelectError : Type 0 where
  frame_error : FrameError → SelectError
  line_too_long not_terminated not_utf8 no_header rejected unexpected unsupported : SelectError

-- `line.ends_with(b"\n")`
unfoldable pub ends_with_newline : Bytes → Bool
ends_with_newline line = elim (last line) [ none ↦ false | some b ↦ b == 10 ]

-- `line.pop()`
unfoldable pub without_last : Bytes → Bytes
without_last line = take (length line - 1) line

module _ ⦃v : Varint⦄ where
  -- The bytes that are written.
  unfoldable pub write_protocol : Bytes → Outcome SelectError Bytes
  write_protocol protocol =
      let line = if ends_with_newline protocol then protocol else protocol ++ 10 ∷ [] in
      if ltb max_protocol_frame_len (length line)
      then err line_too_long
      else map_err frame_error (encode_length_prefixed line max_protocol_frame_len)

  -- The text that is read, and the bytes behind it.
  unfoldable pub read_protocol : Bytes → ℕ → Outcome SelectError (Bytes × Bytes)
  read_protocol stream max_len =
      let frame_limit = min max_len max_protocol_frame_len % 2 ^ 32 in
      map_err frame_error (read_length_prefixed_frame stream frame_limit) >>= λ (frame, rest).
      map_err frame_error (decode_length_prefix frame frame_limit) >>= λ (header_len, line).
      if not (ends_with_newline line)
      then err not_terminated
      else if is_utf8 (without_last line)
      then ok (without_last line, rest)
      else err not_utf8

  -- What the dialer writes, and the bytes that it leaves in the stream.
  unfoldable pub dialer_select : Bytes → Bytes → Outcome SelectError (Bytes × Bytes)
  dialer_select stream protocol = write_protocol multistream_v1 >>= λ header.
      read_protocol stream max_protocol_frame_len >>= λ (remote_header, stream1).
      if not (eq_bytes remote_header multistream_v1)
      then err no_header
      else (write_protocol protocol >>= λ request.
          read_protocol stream1 max_protocol_frame_len >>= λ (selected, stream2).
          if eq_bytes selected protocol
          then ok (header ++ request, stream2)
          else if eq_bytes selected not_available
          then err rejected
          else err unexpected)

  -- `supported.iter().any(|candidate| *candidate == requested)`
  unfoldable pub any_equals : List Bytes → Bytes → Bool
  any_equals [] requested = false
  any_equals (candidate ∷ supported) requested =
      eq_bytes candidate requested || any_equals supported requested

  -- The protocol if it is supported, what the listener writes, and the bytes that it leaves.
  unfoldable pub listener_select_optional :
      Bytes → List Bytes → Outcome SelectError (Option Bytes × Bytes × Bytes)
  listener_select_optional stream supported =
      read_protocol stream max_protocol_frame_len >>= λ (remote_header, stream1).
      if not (eq_bytes remote_header multistream_v1)
      then err no_header
      else (write_protocol multistream_v1 >>= λ header.
          read_protocol stream1 max_protocol_frame_len >>= λ (requested, stream2).
          if any_equals supported requested
          then (write_protocol requested >>= λ answer.
              ok (some requested, header ++ answer, stream2))
          else (write_protocol not_available >>= λ answer. ok (none, header ++ answer, stream2)))

  unfoldable pub listener_select : Bytes → List Bytes → Outcome SelectError (Bytes × Bytes × Bytes)
  listener_select stream supported =
      listener_select_optional stream supported >>= λ (selected, written, rest). elim selected [
        | none ↦ err unsupported
        | some protocol ↦ ok (protocol, written, rest)
      ]
