-- ===== src/Runtime/Session/Exchange.antt =====
-- erp-runtime/src/network/session.rs: what one end writes and the other end reads when a session
-- asks for blocks.
use rust_proof.Base.{
  ℕ, cmp_bytes, ◌<◌, ◌^◌, ◌≡◌, refl, sym, ap, ◌∙◌, true, some, List, [], ◌++◌, Bytes, Outcome, ok,
  >>=-eq-ok, map_err, append-nil, arith, inl, inr, Option-cases, Outcome-cases,
}
use rust_proof.Core.Crypto.{Crypto}
use rust_proof.Node.Network.{
  Postcard, SyncRequest, SyncResponse, sync_request, sync_response, to_bytes, from_bytes,
}
use rust_proof.Host.Contract.{frame_received}
use rust_proof.Runtime.Frame.{
  Varint, encode_length_prefixed, decode_length_prefix, read_length_prefixed_frame,
  decode_length_prefix-encode, read_length_prefixed_frame-encode,
}
use rust_proof.Runtime.Multistream.{
  write_protocol, multistream_v1, ends_with_newline, listener_select, listener_select_optional,
  any_equals,
}
use rust_proof.Runtime.Utf8.{is_utf8}
use rust_proof.Runtime.Multistream.Agree.{IsText, dialer_select-listener_select}
use rust_proof.Runtime.Network.{SessionCommand}
use rust_proof.Runtime.Session.{
  PayloadCodec, Payloads, encode_message, decode_message, encode_sync_request, encode_sync_response,
  wait_for_sync_response, handle_outbound_frame, serve_sync, SessionError, frame_error,
}
use rust_proof.Runtime.Session.Protocols.{sync_protocol, inbound_session_protocols}

module _ ⦃v : Varint⦄ {A : Type 0} (codec : PayloadCodec A) where
  -- The payload of a message that is encoded.
  pub encode_message-payload :
      (x : A) (frame : Bytes) (max_len : ℕ)
      → encode_message codec x max_len ≡ ok frame
      → (payload : Bytes) × (codec.to_allocvec x ≡ some payload)
        × (encode_length_prefixed payload max_len ≡ ok frame)
  unfolding encode_message
  encode_message-payload x frame max_len h = elim (Option-cases (codec.to_allocvec x)) [
    | inl e ↦ absurd (ground (arith, e))
    | inr (payload, e) ↦
        let framed : ◌≡◌ {A = Outcome SessionError Bytes}
            (map_err frame_error (encode_length_prefixed payload max_len)) (ok frame) =
          rw (e, encode_message) at h in
        elim (Outcome-cases (encode_length_prefixed payload max_len)) [
          | inl (written, q) ↦ (payload, e, ground (arith, q, framed))
          | inr (inl (why, q)) ↦ absurd (ground (arith, q, framed))
          | inr (inr q) ↦ absurd (ground (arith, q, framed))
        ]
  ]

  -- A message that is encoded is read from the front of a stream, and decodes.
  pub decode_message-encode_message :
      (x : A) (frame rest : Bytes) (max_len : ℕ)
      → max_len < 2 ^ 32
      → encode_message codec x max_len ≡ ok frame
      → (read_length_prefixed_frame (frame ++ rest) max_len ≡ ok (frame, rest))
        × (decode_message codec frame max_len ≡ ok x)
  unfolding decode_message
  decode_message-encode_message x frame rest max_len small h =
      let (payload, encoded, framed) = encode_message-payload x frame max_len h in
      let whole =
        ap (λ bytes. decode_length_prefix bytes max_len) (sym (append-nil frame))
        ∙ decode_length_prefix-encode payload frame [] max_len small framed in
      (
        read_length_prefixed_frame-encode payload frame rest max_len small framed,
        rw (whole, codec.reads_back x payload encoded, decode_message) refl,
      )

module _ ⦃v : Varint⦄ where
  -- A listener that must select a protocol has asked the one that may select none.
  listener_select-optional :
      (stream protocol written rest : Bytes) (supported : List Bytes)
      → listener_select stream supported ≡ ok (protocol, written, rest)
      → listener_select_optional stream supported ≡ ok (some protocol, written, rest)
  unfolding listener_select
  listener_select-optional stream protocol written rest supported h =
      let (answer, e, go) = >>=-eq-ok (listener_select_optional stream supported) _ h in
      elim (Option-cases answer.0) [
        | inl q ↦ absurd (ground (arith, q, go))
        | inr (chosen, q) ↦ ground (arith, e, q, go)
      ]

  sync_offered : any_equals inbound_session_protocols sync_protocol ≡ true
  unfolding any_equals cmp_bytes
  sync_offered = refl

pub multistream_v1-IsText : IsText multistream_v1
unfolding ends_with_newline is_utf8
multistream_v1-IsText = record { unterminated = refl; utf8 = refl }

sync_protocol-IsText : IsText sync_protocol
unfolding ends_with_newline is_utf8
sync_protocol-IsText = record { unterminated = refl; utf8 = refl }

module _ ⦃c : Crypto⦄ ⦃p : Postcard⦄ ⦃v : Varint⦄ ⦃q : Payloads⦄ where
  -- A session asks the session at the other end for blocks. Both choose the protocol; the other end
  -- reads the request that was asked, and tells its node of it; and when the first sync response
  -- among its commands is `answer`, the asking end reads that answer and tells its node of it. Both
  -- messages fit into the frames and can be encoded for the nodes, which hear their events.
  pub handle_outbound_frame-serve_sync :
      (max_frame_len : ℕ) (header request : Bytes) (asking asked : Bytes) (frame : Bytes)
      (question : SyncRequest) (answer : SyncResponse) (question_frame answer_frame : Bytes)
      (deferred channel deferred' channel' : List SessionCommand)
      (answer_message question_message : Bytes)
      → max_frame_len < 2 ^ 32
      → write_protocol multistream_v1 ≡ ok header
      → write_protocol sync_protocol ≡ ok request
      → from_bytes frame ≡ some (sync_request question)
      → encode_sync_request question max_frame_len ≡ ok question_frame
      → encode_sync_response answer max_frame_len ≡ ok answer_frame
      → wait_for_sync_response deferred channel ≡ ok (answer, deferred', channel')
      → p.to_allocvec (sync_response answer) ≡ some answer_message
      → p.to_allocvec (sync_request question) ≡ some question_message
      → (handle_outbound_frame true max_frame_len asked
            (some (header ++ (request ++ answer_frame)))
            frame
          ≡ ok ((header ++ request) ++ question_frame, frame_received asked answer_message))
        × (listener_select_optional
              (header ++ (request ++ question_frame))
              inbound_session_protocols
            ≡ ok (some sync_protocol, header ++ request, question_frame))
        × (serve_sync true max_frame_len asking question_frame deferred channel
            ≡ ok (answer_frame, frame_received asking question_message, deferred', channel'))
  unfolding handle_outbound_frame serve_sync to_bytes
  handle_outbound_frame-serve_sync max_frame_len header request asking asked frame question answer
        question_frame answer_frame deferred channel deferred' channel' answer_message
        question_message small header_written request_written parsed_frame question_encoded
        answer_encoded waited answer_written question_written =
      let offered : any_equals inbound_session_protocols sync_protocol ≡ true = sync_offered in
      let agree = λ (rest : Bytes).
        dialer_select-listener_select header request rest sync_protocol inbound_session_protocols
          multistream_v1-IsText sync_protocol-IsText header_written request_written offered in
      let asks =
        decode_message-encode_message q.sync_requests question question_frame [] max_frame_len small
          question_encoded in
      let answers =
        decode_message-encode_message q.sync_responses answer answer_frame [] max_frame_len small
          answer_encoded in
      let ask_read =
        ap (λ stream. read_length_prefixed_frame stream max_frame_len)
          (sym (append-nil question_frame))
        ∙ asks.0 in
      let answer_read =
        ap (λ stream. read_length_prefixed_frame stream max_frame_len)
          (sym (append-nil answer_frame))
        ∙ answers.0 in
      (
        rw
            (
              parsed_frame,
              (agree answer_frame).1,
              question_encoded,
              answer_read,
              answers.1,
              answer_written,
              to_bytes,
              handle_outbound_frame,
            )
            refl,
        listener_select-optional _ _ _ _ _ (agree question_frame).0,
        rw (ask_read, asks.1, question_written, to_bytes, waited, answer_encoded, serve_sync) refl,
      )
