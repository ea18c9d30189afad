-- ===== src/Host/Errors.antt =====
-- rp-runtime/src/runtime/errors.rs and the errors of rp-node/src/errors.rs that it wraps. A message
-- of the source is a constructor that is named after it.
use rust_proof.Node.Blockchain.{NodeError}

pub data ContractError : Type 0 where
  storage transport wake identity other : ContractError

pub data Message : Type 0 where
  -- `NodeHelloVerifier::verify` and `build_local_node_hello`
  transport_peer_mismatch peer_id_mismatch invalid_public_key_length : Message
  invalid_verifying_key transcript_failed invalid_signature_bytes : Message
  signature_verification_failed : Message
  -- `HostNodeIdentity` and `HostTransportIdentity`
  invalid_node_identity_bytes invalid_signing_key : Message
  -- `send_frame`
  invalid_outbound_frame : Message
  -- the answers to requests
  sync_response_failed fallback_sync_response_failed announce_response_failed : Message
  -- a failure of the file system
  file_system_failed : Message

pub data ChannelKind : Type 0 where
  event_channel network_channel storage_channel wake_channel : ChannelKind

pub data ChannelErrorKind : Type 0 where
  runtime_event_kind network_command_kind storage_command_kind wake_command_kind : ChannelErrorKind

pub data RuntimeError : Type 0 where
  node : NodeError → RuntimeError
  contract : ContractError → RuntimeError
  crypto config : Message → RuntimeError
  channel_send : ChannelKind → ChannelErrorKind → RuntimeError
  network_error : Message → RuntimeError

abbrev pub event_send : RuntimeError
event_send = channel_send event_channel runtime_event_kind

abbrev pub network_send : RuntimeError
network_send = channel_send network_channel network_command_kind

abbrev pub storage_send : RuntimeError
storage_send = channel_send storage_channel storage_command_kind

abbrev pub wake_send : RuntimeError
wake_send = channel_send wake_channel wake_command_kind

abbrev pub io_other : Message → RuntimeError
io_other message = network_error message
