-- ===== src/Runtime/Session/Hello.antt =====
-- erp-runtime/src/network/protocol/node_hello.rs, identity/manager.rs and the node hello of
-- network/session.rs: how the two ends of a session learn each other's node peer. The hello and its
-- transcript are those of the desktop runtime (`Host/Hello`); `postcard` at them is `HelloCodecs`.
use rust_proof.Base.{
  ℕ, true, false, not, Option, none, some, [], ◌++◌, Bytes, Outcome, ok, err, panic, ◌>>=◌, ◌>>◌,
  map_err, length, ◌==◌, eq_bytes, if◌then◌else◌,
}
use rust_proof.Core.Crypto.{
  Crypto, verify, sha256, verifying_key_from_bytes, verifying_key_to_bytes, public_key_size,
}
use rust_proof.Host.Errors.{
  RuntimeError, ContractError, contract, crypto, config, transport_peer_mismatch, peer_id_mismatch,
  invalid_public_key_length, invalid_verifying_key, transcript_failed, invalid_signature_bytes,
  signature_verification_failed,
}
use rust_proof.Host.Hello.{
  PeerCapabilities, NodeHello, NodeHelloTranscript, NodeHelloResponse, Signing, transcript_of,
  unless, some_or, node_hello_reject_reason,
}
use rust_proof.Runtime.Frame.{Varint, decode_length_prefix, read_length_prefixed_frame}
use rust_proof.Runtime.Multistream.{dialer_select}
use rust_proof.Runtime.Network.{VerifiedPeer}
use rust_proof.Runtime.Session.{
  SessionError, frame_error, select_error, hello_error, invalid_payload, PayloadCodec,
  encode_message, opened,
}
use rust_proof.Runtime.Session.Protocols.{node_hello_protocol}

-- The trait of rp-node/src/contract.rs.
pub record Identity : Type 0 where
  pub peer_id : Bytes
  pub public_key : Bytes
  pub sign : Bytes → Outcome ContractError Bytes

pub record NodeHelloBuilder : Type 0 where
  pub node_identity : Identity
  -- what `transport_identity` tells
  pub transport_peer_id : Bytes
  pub max_frame_len : ℕ
  pub max_blocks_per_chunk : ℕ
  pub capabilities : PeerCapabilities

pub record HelloCodecs : Type 0 where
  pub hellos : PayloadCodec NodeHello
  pub responses : PayloadCodec NodeHelloResponse

pub data HandshakeOutcome : Type 0 where
  established : VerifiedPeer → HandshakeOutcome
  rejected : HandshakeOutcome

abbrev pub acceptance : NodeHello → NodeHelloResponse
acceptance local_hello = record { accepted = true; remote = local_hello; reject_reason = none }

abbrev pub rejection : NodeHello → RuntimeError → NodeHelloResponse
rejection local_hello why = record {
  accepted = false;
  remote = local_hello;
  reject_reason = some (node_hello_reject_reason why);
}

module _ ⦃c : Crypto⦄ ⦃s : Signing⦄ where
  -- `IdentityManager` with its software backend.
  unfoldable pub from_software_signing_key : c.SigningKey → Identity
  from_software_signing_key signing_key =
      let public_key = verifying_key_to_bytes (c.verifying_key signing_key) in
      record {
        peer_id = sha256 public_key;
        public_key = public_key;
        sign = λ message. ok (s.signature_to_bytes (s.sign signing_key message));
      }

  abbrev pub transcript_for : NodeHelloBuilder → NodeHelloTranscript
  transcript_for b = record {
    version = 1;
    node_peer_id = b.node_identity.peer_id;
    transport_peer_id = b.transport_peer_id;
    max_frame_len = b.max_frame_len;
    max_blocks_per_chunk = b.max_blocks_per_chunk;
    capabilities = b.capabilities;
  }

  abbrev pub hello_with : NodeHelloBuilder → Bytes → NodeHello
  hello_with b signature = record {
    version = 1;
    node_public_key = b.node_identity.public_key;
    node_peer_id = b.node_identity.peer_id;
    transport_peer_id = b.transport_peer_id;
    max_frame_len = b.max_frame_len;
    max_blocks_per_chunk = b.max_blocks_per_chunk;
    capabilities = b.capabilities;
    signature = signature;
  }

  unfoldable pub build : NodeHelloBuilder → Outcome RuntimeError NodeHello
  build b =
      some_or (s.transcript_bytes (transcript_for b)) (crypto transcript_failed)
      >>= λ transcript_bytes.
          map_err contract (b.node_identity.sign transcript_bytes) >>= λ signature.
          ok (hello_with b signature)

  abbrev pub peer_of_hello : NodeHello → VerifiedPeer
  peer_of_hello remote = record {
    node_peer_id = remote.node_peer_id;
    transport_peer_id = remote.transport_peer_id;
    max_frame_len = remote.max_frame_len;
    max_blocks_per_chunk = remote.max_blocks_per_chunk;
  }

  -- `NodeHelloVerifier::verify`
  unfoldable pub verify_remote : NodeHello → Bytes → Outcome RuntimeError VerifiedPeer
  verify_remote remote authenticated_transport_peer = do
    unless (eq_bytes remote.transport_peer_id authenticated_transport_peer)
        (config transport_peer_mismatch)
    unless (eq_bytes (sha256 remote.node_public_key) remote.node_peer_id) (config peer_id_mismatch)
    unless (length remote.node_public_key == public_key_size) (config invalid_public_key_length)
    key ← some_or (verifying_key_from_bytes remote.node_public_key) (crypto invalid_verifying_key)
    transcript ← some_or (s.transcript_bytes (transcript_of remote)) (crypto transcript_failed)
    signature ← some_or (s.signature_from_slice remote.signature) (crypto invalid_signature_bytes)
    unless (verify key transcript signature) (config signature_verification_failed)
    ok (peer_of_hello remote)

module _ ⦃v : Varint⦄ {A : Type 0} (codec : PayloadCodec A) where
  abbrev pub payload_read : Bytes → Option A → Outcome SessionError (A × Bytes)
  payload_read rest none = err invalid_payload
  payload_read rest (some x) = ok (x, rest)

  -- What is read, and the bytes behind it.
  unfoldable pub read_postcard_frame : Bytes → ℕ → Outcome SessionError (A × Bytes)
  read_postcard_frame stream max_len =
      map_err frame_error (read_length_prefixed_frame stream max_len) >>= λ (frame, rest).
      map_err frame_error (decode_length_prefix frame max_len) >>= λ (header_len, payload).
      payload_read rest (codec.decode payload)

module _ ⦃c : Crypto⦄ ⦃s : Signing⦄ ⦃v : Varint⦄ ⦃h : HelloCodecs⦄ where
  -- The outcome, and what is written.
  abbrev pub Shaken : Type 0
  Shaken = Outcome SessionError (HandshakeOutcome × Bytes)

  -- A remote hello that does not verify is a rejection, and not an error.
  abbrev pub outcome_of : Bytes → Outcome RuntimeError VerifiedPeer → Shaken
  outcome_of written (ok verified_peer) = ok (established verified_peer, written)
  outcome_of written (err why) = ok (rejected, written)
  outcome_of written panic = panic

  unfoldable pub request_node_hello : NodeHelloBuilder → Bytes → Option Bytes → Shaken
  request_node_hello b authenticated_transport_peer substream = opened substream >>= λ stream.
      map_err select_error (dialer_select stream node_hello_protocol) >>= λ (selected, stream1).
      map_err hello_error (build b) >>= λ local_hello.
      encode_message h.hellos local_hello b.max_frame_len >>= λ payload.
      read_postcard_frame h.responses stream1 b.max_frame_len >>= λ (response, rest).
      if not response.accepted
      then ok (rejected, selected ++ payload)
      else outcome_of (selected ++ payload)
          (verify_remote response.remote authenticated_transport_peer)

  -- That a rejection cannot be written is only logged.
  abbrev pub written_or_nothing : Outcome SessionError Bytes → Shaken
  written_or_nothing (ok frame) = ok (rejected, frame)
  written_or_nothing (err why) = ok (rejected, [])
  written_or_nothing panic = panic

  abbrev pub answer_with : NodeHelloBuilder → Outcome RuntimeError VerifiedPeer → Shaken
  answer_with b (ok verified_peer) = map_err hello_error (build b) >>= λ local_hello.
      encode_message h.responses (acceptance local_hello) b.max_frame_len >>= λ frame.
      ok (established verified_peer, frame)
  answer_with b (err why) = map_err hello_error (build b) >>= λ local_hello.
      written_or_nothing (encode_message h.responses (rejection local_hello why) b.max_frame_len)
  answer_with b panic = panic

  unfoldable pub answer_node_hello : NodeHelloBuilder → Bytes → Bytes → Shaken
  answer_node_hello b authenticated_transport_peer stream =
      read_postcard_frame h.hellos stream b.max_frame_len >>= λ (remote_hello, rest).
      answer_with b (verify_remote remote_hello authenticated_transport_peer)
