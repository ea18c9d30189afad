-- ===== src/Runtime/Session/Handshake.antt =====
-- erp-runtime/src/network/session.rs: the node hello between two honest ends of a session.
use rust_proof.Base.{
  ℕ, ◌<◌, ◌^◌, ◌≡◌, refl, sym, ap, ◌∙◌, true, some, List, [], ◌∷◌, ◌++◌, Bytes, ok, ok-injective,
  append-nil, arith, inl, inr, Option-cases, Outcome-cases, eq_bytes_iff, cmp_bytes, length, subst,
}
use rust_proof.Core.Crypto.{
  Crypto, VerifyingKey, Signature, verify, sha256, verifying_key_from_bytes, verifying_key_to_bytes,
}
use rust_proof.Host.Hello.{NodeHello, Signing, unless, some_or}
use rust_proof.Runtime.Frame.{
  Varint, decode_length_prefix, read_length_prefixed_frame-encode, decode_length_prefix-encode,
}
use rust_proof.Runtime.Utf8.{is_utf8}
use rust_proof.Runtime.Multistream.{
  write_protocol, multistream_v1, any_equals, listener_select, ends_with_newline,
}
use rust_proof.Runtime.Multistream.Agree.{IsText, dialer_select-listener_select}
use rust_proof.Runtime.Session.{PayloadCodec, encode_message}
use rust_proof.Runtime.Session.Protocols.{node_hello_protocol, identify_protocol, ping_protocol}
use rust_proof.Runtime.Session.Exchange.{multistream_v1-IsText, encode_message-payload}
use rust_proof.Runtime.Session.Hello.{
  Identity, NodeHelloBuilder, HelloCodecs, established, from_software_signing_key, transcript_for,
  hello_with, build, peer_of_hello, verify_remote, read_postcard_frame, request_node_hello,
  acceptance, answer_node_hello,
}

module _ ⦃c : Crypto⦄ ⦃s : Signing⦄ where
  -- An identity has the encoding of a key, its digest, and signs what verifies under that key.
  pub record IsIdentity (i : Identity) : Type 0 where
    pub key : VerifyingKey
    pub public : i.public_key ≡ verifying_key_to_bytes key
    pub digest : i.peer_id ≡ sha256 i.public_key
    pub signs :
        (message bytes : Bytes)
        → i.sign message ≡ ok bytes
        → (signature : Signature) × (s.signature_from_slice bytes ≡ some signature)
          × (verify key message signature ≡ true)

  pub from_software_signing_key-IsIdentity :
      (signing_key : c.SigningKey) → IsIdentity (from_software_signing_key signing_key)
  unfolding from_software_signing_key
  from_software_signing_key-IsIdentity signing_key = record {
    key = c.verifying_key signing_key;
    public = refl;
    digest = refl;
    signs = λ message bytes e.
        let same : s.signature_to_bytes (s.sign signing_key message) ≡ bytes = ok-injective e in
        (
          s.sign signing_key message,
          rw (sym same) (s.decode_signature (s.sign signing_key message)),
          s.verify_signed signing_key message,
        );
  }

  -- What `build` has made, from which transcript and which signature.
  build_lem :
      (b : NodeHelloBuilder) (hello : NodeHello)
      → build b ≡ ok hello
      → (transcript : Bytes) × (signature : Bytes) × (s.transcript_bytes (transcript_for b)
          ≡ some transcript)
        × (b.node_identity.sign transcript ≡ ok signature)
        × (hello ≡ hello_with b signature)
  unfolding build some_or
  build_lem b hello h = elim (Option-cases (s.transcript_bytes (transcript_for b))) [
    | inl e ↦ absurd (ground (arith, e))
    | inr (transcript, e) ↦ elim (Outcome-cases (b.node_identity.sign transcript)) [
      | inl (signature, q) ↦ (transcript, signature, e, q, ground (arith, e, q, h))
      | inr (inl (why, q)) ↦ absurd (ground (arith, e, q, h))
      | inr (inr q) ↦ absurd (ground (arith, e, q, h))
    ]
  ]

  -- A hello that an identity has built verifies over its transport peer.
  pub verify_remote-build :
      (b : NodeHelloBuilder) (hello : NodeHello)
      → IsIdentity b.node_identity
      → build b ≡ ok hello
      → verify_remote hello b.transport_peer_id ≡ ok (peer_of_hello hello)
  unfolding verify_remote unless some_or verifying_key_from_bytes verifying_key_to_bytes
  verify_remote-build b hello i h =
      let (transcript, signature, encoded, signed, same) = build_lem b hello h in
      let (checked, read, holds) = i.signs transcript signature signed in
      let long : length b.node_identity.public_key ≡ 33 =
        ap length i.public ∙ c.length_encoded i.key in
      let decoded : c.from_sec1_bytes b.node_identity.public_key ≡ some i.key =
        ap c.from_sec1_bytes i.public ∙ c.decode_encoded i.key in
      rw same (
        rw
          (
            (eq_bytes_iff b.transport_peer_id b.transport_peer_id).1 refl,
            (eq_bytes_iff _ _).1 (sym i.digest),
            long,
            decoded,
            encoded,
            read,
            holds,
          )
          refl)

module _ ⦃v : Varint⦄ {A : Type 0} (codec : PayloadCodec A) where
  read_postcard_frame-encode :
      (x : A) (frame rest : Bytes) (max_len : ℕ)
      → max_len < 2 ^ 32
      → encode_message codec x max_len ≡ ok frame
      → read_postcard_frame codec (frame ++ rest) max_len ≡ ok (x, rest)
  unfolding read_postcard_frame
  read_postcard_frame-encode x frame rest max_len small h =
      let (payload, encoded, framed) = encode_message-payload codec x frame max_len h in
      let front = read_length_prefixed_frame-encode payload frame rest max_len small framed in
      let whole =
        ap (λ bytes. decode_length_prefix bytes max_len) (sym (append-nil frame))
        ∙ decode_length_prefix-encode payload frame [] max_len small framed in
      rw (front, whole, codec.reads_back x payload encoded, read_postcard_frame) refl

node_hello_protocol-IsText : IsText node_hello_protocol
unfolding ends_with_newline is_utf8
node_hello_protocol-IsText = record { unterminated = refl; utf8 = refl }

module _ ⦃v : Varint⦄ where
  -- What the listener of a session offers before the hello.
  abbrev pub setup_protocols : List Bytes
  setup_protocols = identify_protocol ∷ node_hello_protocol ∷ ping_protocol ∷ []

  node_hello_offered : any_equals setup_protocols node_hello_protocol ≡ true
  unfolding any_equals cmp_bytes
  node_hello_offered = refl

module _ ⦃c : Crypto⦄ ⦃s : Signing⦄ ⦃v : Varint⦄ ⦃h : HelloCodecs⦄ where
  -- Two nodes with their own identities and the same limit of frames meet, each over the transport
  -- peer that the other names, and their hellos fit into the frames. Then the listener selects the
  -- protocol that the dialer asks for, and the handshake is established at both ends: each has
  -- verified the other's node peer, transport peer and limits.
  pub request_node_hello-answer_node_hello :
      (dialer listener : NodeHelloBuilder) (dialer_hello listener_hello : NodeHello)
      (header request asked answered : Bytes)
      → dialer.max_frame_len < 2 ^ 32
      → listener.max_frame_len ≡ dialer.max_frame_len
      → IsIdentity dialer.node_identity
      → IsIdentity listener.node_identity
      → build dialer ≡ ok dialer_hello
      → build listener ≡ ok listener_hello
      → write_protocol multistream_v1 ≡ ok header
      → write_protocol node_hello_protocol ≡ ok request
      → encode_message h.hellos dialer_hello dialer.max_frame_len ≡ ok asked
      → encode_message h.responses (acceptance listener_hello) dialer.max_frame_len ≡ ok answered
      → (request_node_hello dialer listener.transport_peer_id
            (some (header ++ (request ++ answered)))
          ≡ ok (established (peer_of_hello listener_hello), (header ++ request) ++ asked))
        × (listener_select (header ++ (request ++ asked)) setup_protocols
            ≡ ok (node_hello_protocol, header ++ request, asked))
        × (answer_node_hello listener dialer.transport_peer_id asked
            ≡ ok (established (peer_of_hello dialer_hello), answered))
  unfolding request_node_hello answer_node_hello
  request_node_hello-answer_node_hello dialer listener dialer_hello listener_hello header request
        asked answered small same dialer_ok listener_ok dialer_built listener_built header_written
        request_written asked_encoded answered_encoded =
      let agree = λ (rest : Bytes).
        dialer_select-listener_select header request rest node_hello_protocol setup_protocols
          multistream_v1-IsText node_hello_protocol-IsText header_written request_written
          node_hello_offered in
      let small' : listener.max_frame_len < 2 ^ 32 = subst (λ n. n < 2 ^ 32) (sym same) small in
      let asked_encoded' =
        subst (λ n. encode_message h.hellos dialer_hello n ≡ ok asked) (sym same) asked_encoded in
      let answered_encoded' =
        subst (λ n. encode_message h.responses (acceptance listener_hello) n ≡ ok answered)
          (sym same) answered_encoded in
      let asked_read =
        ap (λ stream. read_postcard_frame h.hellos stream listener.max_frame_len)
          (sym (append-nil asked))
        ∙ read_postcard_frame-encode h.hellos dialer_hello asked [] listener.max_frame_len small'
            asked_encoded' in
      let answered_read =
        ap (λ stream. read_postcard_frame h.responses stream dialer.max_frame_len)
          (sym (append-nil answered))
        ∙ read_postcard_frame-encode h.responses (acceptance listener_hello) answered []
            dialer.max_frame_len small answered_encoded in
      (
        rw
            (
              (agree answered).1,
              dialer_built,
              asked_encoded,
              answered_read,
              verify_remote-build listener listener_hello listener_ok listener_built,
              request_node_hello,
            )
            refl,
        (agree asked).0,
        rw
            (
              asked_read,
              verify_remote-build dialer dialer_hello dialer_ok dialer_built,
              listener_built,
              answered_encoded',
              answer_node_hello,
            )
            refl,
      )
