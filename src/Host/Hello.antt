-- ===== src/Host/Hello.antt =====
-- rp-runtime/src/network/manager.rs: the identity of the node and the hello by which two nodes
-- bind a node peer to an authenticated transport peer. `postcard` and the signatures of `p256` are
-- not code of the repository: they are the record `Signing`.
pub mod Verify
use rust_proof.Base.{
  ℕ, ◌≡◌, Bool, true, Option, none, some, Bytes, Outcome, ok, err, ◌>>=◌, ◌>>◌, length, ◌==◌,
  eq_bytes, if◌then◌else◌,
}
use rust_proof.Core.Crypto.{
  Crypto, Signature, verify, sha256, verifying_key_from_bytes, verifying_key_to_bytes,
  public_key_size, signing_key_from_bytes,
}
use rust_proof.Host.Errors.{
  RuntimeError, Message, crypto, config, transport_peer_mismatch, peer_id_mismatch,
  invalid_public_key_length, invalid_verifying_key, transcript_failed, invalid_signature_bytes,
  signature_verification_failed, invalid_node_identity_bytes, invalid_signing_key,
}

pub record PeerCapabilities : Type 0 where
  pub supports_sync_v1 : Bool
  pub supports_announce_v1 : Bool
  pub supports_ping : Bool

pub record NodeHello : Type 0 where
  pub version : ℕ
  pub node_public_key : Bytes
  pub node_peer_id : Bytes
  pub transport_peer_id : Bytes
  pub max_frame_len : ℕ
  pub max_blocks_per_chunk : ℕ
  pub capabilities : PeerCapabilities
  pub signature : Bytes

pub data NodeHelloRejectReason : Type 0 where
  version_mismatch invalid_signature reason_peer_id_mismatch : NodeHelloRejectReason
  transport_binding_mismatch unsupported_required_protocol : NodeHelloRejectReason

pub record NodeHelloResponse : Type 0 where
  pub accepted : Bool
  pub remote : NodeHello
  pub reject_reason : Option NodeHelloRejectReason

pub record NodeHelloTranscript : Type 0 where
  pub version : ℕ
  pub node_peer_id : Bytes
  pub transport_peer_id : Bytes
  pub max_frame_len : ℕ
  pub max_blocks_per_chunk : ℕ
  pub capabilities : PeerCapabilities

pub record VerifiedPeer : Type 0 where
  pub node_peer_id : Bytes
  pub max_blocks_per_chunk : ℕ

abbrev pub node_hello_reject_reason : RuntimeError → NodeHelloRejectReason
node_hello_reject_reason (config transport_peer_mismatch) = transport_binding_mismatch
node_hello_reject_reason (config peer_id_mismatch) = reason_peer_id_mismatch
node_hello_reject_reason _ = invalid_signature

module _ ⦃c : Crypto⦄ where
  -- What the hello takes from the crates, with the behaviour that they document: a signature has
  -- an encoding that decodes to it, and a signature made with a key verifies under its public key.
  pub record Signing : Type 0 where
    pub transcript_bytes : NodeHelloTranscript → Option Bytes
    pub signature_from_slice : Bytes → Option Signature
    pub signature_to_bytes : Signature → Bytes
    pub sign : c.SigningKey → Bytes → Signature
    pub decode_signature : (s : Signature) → signature_from_slice (signature_to_bytes s) ≡ some s
    pub verify_signed :
        (k : c.SigningKey) (m : Bytes) → verify (c.verifying_key k) m (sign k m) ≡ true

  pub record HostNodeIdentity : Type 0 where
    pub signing_key : c.SigningKey
    pub public_key : Bytes
    pub peer_id : Bytes

module _ ⦃c : Crypto⦄ ⦃s : Signing⦄ where
  unfoldable pub from_signing_key : c.SigningKey → HostNodeIdentity
  from_signing_key signing_key =
      let public_key = verifying_key_to_bytes (c.verifying_key signing_key) in
      record { signing_key = signing_key; public_key = public_key; peer_id = sha256 public_key }

  -- `HostNodeIdentity::load_or_create` for a file that is there, from its bytes.
  unfoldable pub load_identity : Bytes → Outcome RuntimeError HostNodeIdentity
  load_identity bytes =
      if length bytes == 32
      then elim (signing_key_from_bytes bytes) [
        | none ↦ err (crypto invalid_signing_key)
        | some signing_key ↦ ok (from_signing_key signing_key)
      ]
      else err (config invalid_node_identity_bytes)

  unfoldable pub build_signature : HostNodeIdentity → Bytes → Bytes
  build_signature identity message = s.signature_to_bytes (s.sign identity.signing_key message)

  abbrev pub transcript_of : NodeHello → NodeHelloTranscript
  transcript_of remote = record {
    version = remote.version;
    node_peer_id = remote.node_peer_id;
    transport_peer_id = remote.transport_peer_id;
    max_frame_len = remote.max_frame_len;
    max_blocks_per_chunk = remote.max_blocks_per_chunk;
    capabilities = remote.capabilities;
  }

  unfoldable pub unless : Bool → RuntimeError → Outcome RuntimeError Unit
  unless holds why = if holds then ok tt else err why

  -- `.ok_or(why)?`
  unfoldable pub some_or : {A : Type 0} → Option A → RuntimeError → Outcome RuntimeError A
  some_or none why = err why
  some_or (some value) why = ok value

  unfoldable pub verify_hello : NodeHello → Bytes → Outcome RuntimeError VerifiedPeer
  verify_hello remote authenticated_transport_peer = do
    unless (eq_bytes remote.transport_peer_id authenticated_transport_peer)
        (config transport_peer_mismatch)
    unless (eq_bytes (sha256 remote.node_public_key) remote.node_peer_id) (config peer_id_mismatch)
    unless (length remote.node_public_key == public_key_size) (config invalid_public_key_length)
    key ← some_or (verifying_key_from_bytes remote.node_public_key) (crypto invalid_verifying_key)
    transcript ← some_or (s.transcript_bytes (transcript_of remote)) (crypto transcript_failed)
    signature ← some_or (s.signature_from_slice remote.signature) (crypto invalid_signature_bytes)
    unless (verify key transcript signature) (config signature_verification_failed)
    ok (record {
      node_peer_id = remote.node_peer_id;
      max_blocks_per_chunk = remote.max_blocks_per_chunk;
    })

  abbrev pub local_transcript : HostNodeIdentity → Bytes → ℕ → ℕ → NodeHelloTranscript
  local_transcript identity transport_peer_id max_frame_len max_blocks_per_chunk = record {
    version = 1;
    node_peer_id = identity.peer_id;
    transport_peer_id = transport_peer_id;
    max_frame_len = max_frame_len;
    max_blocks_per_chunk = max_blocks_per_chunk;
    capabilities = record {
      supports_sync_v1 = true;
      supports_announce_v1 = true;
      supports_ping = true;
    };
  }

  -- The hello of a transcript, and of the bytes that are signed for it.
  abbrev pub signed_hello : HostNodeIdentity → NodeHelloTranscript → Bytes → NodeHello
  signed_hello identity transcript transcript_bytes = record {
    version = transcript.version;
    node_public_key = identity.public_key;
    node_peer_id = identity.peer_id;
    transport_peer_id = transcript.transport_peer_id;
    max_frame_len = transcript.max_frame_len;
    max_blocks_per_chunk = transcript.max_blocks_per_chunk;
    capabilities = transcript.capabilities;
    signature = build_signature identity transcript_bytes;
  }

  -- With the manager's identities, and with the limits of its configuration.
  unfoldable pub build_local_node_hello :
      HostNodeIdentity → Bytes → ℕ → ℕ → Outcome RuntimeError NodeHello
  build_local_node_hello identity transport_peer_id max_frame_len max_blocks_per_chunk =
      let transcript =
        local_transcript identity transport_peer_id max_frame_len max_blocks_per_chunk in
      some_or (s.transcript_bytes transcript) (crypto transcript_failed) >>= λ transcript_bytes.
      ok (signed_hello identity transcript transcript_bytes)
