-- ===== src/Runtime/Multistream/Agree.antt =====
-- erp-runtime/src/network/transport/multistream.rs: the two ends of a negotiation.
use rust_proof.Base.{
  ℕ, ◌-◌, ◌≡◌, refl, sym, ◌∙◌, ap, inl, inr, true, false, none, some, List, [], ◌∷◌, ◌++◌, Bytes,
  ok, err, arith, eq_bytes, eq_bytes_iff, length, last, append-nil, length-append, take-append,
  Outcome-cases,
}
use rust_proof.Runtime.Frame.{
  Varint, encode_length_prefixed, decode_length_prefix, decode_length_prefix-encode,
  read_length_prefixed_frame-encode,
}
use rust_proof.Runtime.Utf8.{is_utf8}
use rust_proof.Runtime.Multistream.{
  rejected, multistream_v1, not_available, max_protocol_frame_len, ends_with_newline, without_last,
  write_protocol, read_protocol, dialer_select, any_equals, listener_select_optional,
  listener_select,
}

-- The text of a protocol: UTF-8 without a line feed at its end.
pub record IsText (protocol : Bytes) : Type 0 where
  pub unterminated : ends_with_newline protocol ≡ false
  pub utf8 : is_utf8 protocol ≡ true

last_of : (xs : Bytes) (b : ℕ) → last (xs ++ b ∷ []) ≡ some b
last_of [] b = refl
last_of (x ∷ []) b = refl
last_of (x ∷ y ∷ xs) b = last_of (y ∷ xs) b

terminated : (xs : Bytes) → ends_with_newline (xs ++ 10 ∷ []) ≡ true
unfolding ends_with_newline
terminated xs = rw (last_of xs 10, ends_with_newline) refl

without_last-line : (xs : Bytes) → without_last (xs ++ 10 ∷ []) ≡ xs
unfolding without_last
without_last-line xs =
    let n : length (xs ++ 10 ∷ []) - 1 ≡ length xs = omega (arith, length-append xs (10 ∷ [])) in
    rw (n, without_last) (take-append xs (10 ∷ []))

module _ ⦃v : Varint⦄ where
  line_framed :
      (protocol frame : Bytes)
      → IsText protocol
      → write_protocol protocol ≡ ok frame
      → encode_length_prefixed (protocol ++ 10 ∷ []) max_protocol_frame_len ≡ ok frame
  unfolding write_protocol
  line_framed protocol frame t h =
      elim (Outcome-cases (encode_length_prefixed (protocol ++ 10 ∷ []) max_protocol_frame_len)) [
        | inl (x, q) ↦ ground (arith, t.unterminated)
        | inr (inl (x, q)) ↦ absurd (ground (arith, t.unterminated))
        | inr (inr q) ↦ absurd (ground (arith, t.unterminated))
      ]

  -- A text that one end writes is the text that the other reads, and the bytes behind it stay.
  pub read_protocol-write_protocol :
      (protocol frame rest : Bytes)
      → IsText protocol
      → write_protocol protocol ≡ ok frame
      → read_protocol (frame ++ rest) max_protocol_frame_len ≡ ok (protocol, rest)
  unfolding read_protocol
  read_protocol-write_protocol protocol frame rest t h =
      let line = protocol ++ 10 ∷ [] in
      let e = line_framed protocol frame t h in
      let r =
        read_length_prefixed_frame-encode line frame rest max_protocol_frame_len (omega arith) e in
      let d =
        ap (λ x. decode_length_prefix x max_protocol_frame_len) (sym (append-nil frame))
        ∙ decode_length_prefix-encode line frame [] max_protocol_frame_len (omega arith) e in
      rw (r, d, terminated protocol, without_last-line protocol, t.utf8, read_protocol) refl

  module _ (header request rest : Bytes) (protocol : Bytes) (supported : List Bytes)
      (v1_text : IsText multistream_v1) (text : IsText protocol)
      (header_written : write_protocol multistream_v1 ≡ ok header)
      (request_written : write_protocol protocol ≡ ok request) where
    header_read :
        (stream : Bytes)
        → read_protocol (header ++ stream) max_protocol_frame_len ≡ ok (multistream_v1, stream)
    header_read stream =
        read_protocol-write_protocol multistream_v1 header stream v1_text header_written

    request_read :
        (stream : Bytes)
        → read_protocol (request ++ stream) max_protocol_frame_len ≡ ok (protocol, stream)
    request_read stream = read_protocol-write_protocol protocol request stream text request_written

    same_text : (x : Bytes) → eq_bytes x x ≡ true
    same_text x = (eq_bytes_iff x x).1 refl

    -- The dialer asks for a protocol that the listener supports: given what the other end writes,
    -- each selects the protocol, writes what the other expects, and leaves the bytes behind.
    pub dialer_select-listener_select :
        any_equals supported protocol ≡ true
        → (listener_select (header ++ (request ++ rest)) supported
            ≡ ok (protocol, header ++ request, rest))
          × (dialer_select (header ++ (request ++ rest)) protocol ≡ ok (header ++ request, rest))
    unfolding listener_select listener_select_optional dialer_select
    dialer_select-listener_select offered = (
      rw
          (
            header_read (request ++ rest),
            same_text multistream_v1,
            header_written,
            request_read rest,
            offered,
            request_written,
            listener_select,
            listener_select_optional,
          )
          refl,
      rw
          (
            header_written,
            header_read (request ++ rest),
            same_text multistream_v1,
            request_written,
            request_read rest,
            same_text protocol,
            dialer_select,
          )
          refl,
    )

    -- The dialer asks for a protocol that the listener does not support: the listener answers "na",
    -- selects nothing, and the dialer reports that it was rejected.
    pub dialer_select-listener_select_optional :
        (refusal : Bytes)
        → IsText not_available
        → write_protocol not_available ≡ ok refusal
        → any_equals supported protocol ≡ false
        → eq_bytes not_available protocol ≡ false
        → (listener_select_optional (header ++ (request ++ rest)) supported
            ≡ ok (none, header ++ refusal, rest))
          × (dialer_select (header ++ (refusal ++ rest)) protocol ≡ err rejected)
    unfolding listener_select_optional dialer_select
    dialer_select-listener_select_optional refusal na_text refused missing differs =
        let refusal_read =
          read_protocol-write_protocol not_available refusal rest na_text refused in
        (
          rw
              (
                header_read (request ++ rest),
                same_text multistream_v1,
                header_written,
                request_read rest,
                missing,
                refused,
                listener_select_optional,
              )
              refl,
          rw
              (
                header_written,
                header_read (refusal ++ rest),
                same_text multistream_v1,
                request_written,
                refusal_read,
                differs,
                same_text not_available,
                dialer_select,
              )
              refl,
        )
