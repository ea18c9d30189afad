-- ===== src/Runtime/Session.antt =====
-- erp-runtime/src/network/session.rs, protocol/sync.rs and protocol/announce.rs: the requests that a
-- session exchanges. A substream is the bytes that still come from the other end, which end early
-- when the connection breaks; what is written is returned. `postcard` at the single messages is the
-- record `Payloads`. What was written before an error is not told.
pub mod Protocols
pub mod Commands
pub mod Exchange
pub mod Hello
pub mod Handshake
pub mod Identify
use rust_proof.Base.{
  ℕ, ◌≡◌, Bool, true, Option, none, some, List, [], ◌∷◌, ◌++◌, Bytes, Outcome, ok, err, ◌>>=◌,
  map_err, if◌then◌else◌,
}
use rust_proof.Core.Crypto.{Crypto}
use rust_proof.Node.Network.{
  Postcard, NetworkMessage, SyncRequest, SyncResponse, AnnounceRequest, AnnounceResponse,
  announce_request, announce_response, sync_request, sync_response, to_bytes, from_bytes,
}
use rust_proof.Host.Errors.{RuntimeError}
use rust_proof.Host.Contract.{RuntimeEvent, frame_received}
use rust_proof.Runtime.Frame.{
  Varint, FrameError, encode_length_prefixed, decode_length_prefix, read_length_prefixed_frame,
}
use rust_proof.Runtime.Multistream.{SelectError, dialer_select}
use rust_proof.Runtime.Network.{SessionCommand, send, disconnect}
use rust_proof.Runtime.Session.Protocols.{announce_protocol, sync_protocol}

pub data SessionError : Type 0 where
  hello_error : RuntimeError → SessionError
  frame_error : FrameError → SessionError
  select_error : SelectError → SessionError
  serialize_failed deserialize_failed invalid_payload event_send no_substream
        invalid_outbound_frame :
      SessionError
  outbound_response invalid_runtime_frame disconnected_waiting channel_closed : SessionError

-- `muxer.open_substream()`
abbrev pub opened : Option Bytes → Outcome SessionError Bytes
opened none = err no_substream
opened (some stream) = ok stream

-- `postcard` at a type of messages.
pub record PayloadCodec (A : Type 0) : Type 0 where
  pub to_allocvec : A → Option Bytes
  pub decode : Bytes → Option A
  pub reads_back : (x : A) (bytes : Bytes) → to_allocvec x ≡ some bytes → decode bytes ≡ some x

module _ ⦃v : Varint⦄ {A : Type 0} (codec : PayloadCodec A) where
  abbrev pub serialized : Option Bytes → Outcome SessionError Bytes
  serialized none = err serialize_failed
  serialized (some payload) = ok payload

  abbrev pub deserialized : Option A → Outcome SessionError A
  deserialized none = err deserialize_failed
  deserialized (some x) = ok x

  unfoldable pub encode_message : A → ℕ → Outcome SessionError Bytes
  encode_message x max_len = serialized (codec.to_allocvec x) >>= λ payload.
      map_err frame_error (encode_length_prefixed payload max_len)

  unfoldable pub decode_message : Bytes → ℕ → Outcome SessionError A
  decode_message frame max_len =
      map_err frame_error (decode_length_prefix frame max_len) >>= λ (header_len, payload).
      deserialized (codec.decode payload)

module _ ⦃c : Crypto⦄ where
  pub record Payloads : Type 0 where
    pub sync_requests : PayloadCodec SyncRequest
    pub sync_responses : PayloadCodec SyncResponse
    pub announce_requests : PayloadCodec AnnounceRequest
    pub announce_responses : PayloadCodec AnnounceResponse

module _ ⦃c : Crypto⦄ ⦃v : Varint⦄ ⦃q : Payloads⦄ where
  abbrev pub encode_sync_request : SyncRequest → ℕ → Outcome SessionError Bytes
  encode_sync_request = encode_message q.sync_requests

  abbrev pub decode_sync_request : Bytes → ℕ → Outcome SessionError SyncRequest
  decode_sync_request = decode_message q.sync_requests

  abbrev pub encode_sync_response : SyncResponse → ℕ → Outcome SessionError Bytes
  encode_sync_response = encode_message q.sync_responses

  abbrev pub decode_sync_response : Bytes → ℕ → Outcome SessionError SyncResponse
  decode_sync_response = decode_message q.sync_responses

  abbrev pub encode_announce_request : AnnounceRequest → ℕ → Outcome SessionError Bytes
  encode_announce_request = encode_message q.announce_requests

  abbrev pub decode_announce_request : Bytes → ℕ → Outcome SessionError AnnounceRequest
  decode_announce_request = decode_message q.announce_requests

  abbrev pub encode_announce_response : AnnounceResponse → ℕ → Outcome SessionError Bytes
  encode_announce_response = encode_message q.announce_responses

  abbrev pub decode_announce_response : Bytes → ℕ → Outcome SessionError AnnounceResponse
  decode_announce_response = decode_message q.announce_responses

module _ ⦃c : Crypto⦄ ⦃p : Postcard⦄ where
  -- What a command is while a response is waited for: the response, or a command to keep.
  pub data Awaited : Type 0 where
    is_response : SyncResponse → Awaited
    is_other : SessionCommand → Awaited

  -- A command to keep is the message written again.
  abbrev pub kept_message : NetworkMessage → Outcome SessionError Awaited
  kept_message other = to_bytes other >>= λ frame. ok (is_other (send frame))

  abbrev pub awaited_message : NetworkMessage → Outcome SessionError Awaited
  awaited_message (sync_response r) = ok (is_response r)
  awaited_message (sync_request r) = kept_message (sync_request r)
  awaited_message (announce_request r) = kept_message (announce_request r)
  awaited_message (announce_response r) = kept_message (announce_response r)

  abbrev pub awaited_frame : Option NetworkMessage → Outcome SessionError Awaited
  awaited_frame none = err invalid_runtime_frame
  awaited_frame (some message) = awaited_message message

  unfoldable pub awaited : SessionCommand → Outcome SessionError Awaited
  awaited (send frame) = awaited_frame (from_bytes frame)
  awaited disconnect = err disconnected_waiting

  -- `retained_commands` is kept with the last command first: each is put in front in turn.
  unfoldable pub restore_deferred_commands :
      List SessionCommand → List SessionCommand → List SessionCommand
  restore_deferred_commands deferred [] = deferred
  restore_deferred_commands deferred (command ∷ retained_commands) =
      restore_deferred_commands (command ∷ deferred) retained_commands

  -- The response, the deferred commands, and what is still in the channel.
  abbrev pub Waited : Type 0
  Waited = Outcome SessionError (SyncResponse × List SessionCommand × List SessionCommand)

  -- The channel holds the commands that are still sent before it is closed.
  unfoldable pub wait_in_channel : List SessionCommand → List SessionCommand → Waited
  wait_in_channel [] retained_commands = err channel_closed
  wait_in_channel (command ∷ channel) retained_commands = awaited command >>= λ what. elim what [
    | is_response r ↦ ok (r, restore_deferred_commands [] retained_commands, channel)
    | is_other kept ↦ wait_in_channel channel (kept ∷ retained_commands)
  ]

  -- The deferred commands come first.
  unfoldable pub wait_in_deferred :
      List SessionCommand → List SessionCommand → List SessionCommand → Waited
  wait_in_deferred [] channel retained_commands = wait_in_channel channel retained_commands
  wait_in_deferred (command ∷ deferred) channel retained_commands = awaited command >>= λ what.
      elim what [
        | is_response r ↦ ok (r, restore_deferred_commands deferred retained_commands, channel)
        | is_other kept ↦ wait_in_deferred deferred channel (kept ∷ retained_commands)
      ]

  abbrev pub wait_for_sync_response : List SessionCommand → List SessionCommand → Waited
  wait_for_sync_response deferred channel = wait_in_deferred deferred channel []

module _ ⦃c : Crypto⦄ ⦃p : Postcard⦄ ⦃v : Varint⦄ ⦃q : Payloads⦄ where
  abbrev pub emit : Bool → RuntimeEvent → Outcome SessionError RuntimeEvent
  emit is_open event = if is_open then ok event else err event_send

  abbrev pub emit_message : Bool → Bytes → NetworkMessage → Outcome SessionError RuntimeEvent
  emit_message is_open peer message =
      to_bytes message >>= λ frame. emit is_open (frame_received peer frame)

  -- What is written, and the event.
  abbrev pub Sent : Type 0
  Sent = Outcome SessionError (Bytes × RuntimeEvent)

  -- `substream` is what comes from the other end, if a substream can be opened.
  abbrev pub send_message : Bool → ℕ → Bytes → Option Bytes → NetworkMessage → Sent
  send_message is_open max_frame_len peer substream (announce_request request) =
      opened substream >>= λ stream.
      map_err select_error (dialer_select stream announce_protocol) >>= λ (selected, stream1).
      encode_announce_request request max_frame_len >>= λ payload.
      map_err frame_error (read_length_prefixed_frame stream1 max_frame_len) >>= λ (frame, rest).
      decode_announce_response frame max_frame_len >>= λ response.
      emit_message is_open peer (announce_response response) >>= λ event.
      ok (selected ++ payload, event)
  send_message is_open max_frame_len peer substream (sync_request request) =
      opened substream >>= λ stream.
      map_err select_error (dialer_select stream sync_protocol) >>= λ (selected, stream1).
      encode_sync_request request max_frame_len >>= λ payload.
      map_err frame_error (read_length_prefixed_frame stream1 max_frame_len) >>= λ (frame, rest).
      decode_sync_response frame max_frame_len >>= λ response.
      emit_message is_open peer (sync_response response) >>= λ event.
      ok (selected ++ payload, event)
  send_message is_open max_frame_len peer substream (announce_response response) =
      err outbound_response
  send_message is_open max_frame_len peer substream (sync_response response) = err outbound_response

  abbrev pub parsed : Option NetworkMessage → Outcome SessionError NetworkMessage
  parsed none = err invalid_outbound_frame
  parsed (some message) = ok message

  unfoldable pub handle_outbound_frame : Bool → ℕ → Bytes → Option Bytes → Bytes → Sent
  handle_outbound_frame is_open max_frame_len peer substream frame =
      parsed (from_bytes frame) >>= λ message.
      send_message is_open max_frame_len peer substream message

  -- The arms of `handle_inbound_substream` for the two protocols, behind the choice of the protocol.
  unfoldable pub serve_announce : Bool → ℕ → Bytes → Bytes → Sent
  serve_announce is_open max_frame_len peer stream =
      map_err frame_error (read_length_prefixed_frame stream max_frame_len) >>= λ (frame, rest).
      decode_announce_request frame max_frame_len >>= λ request.
      emit_message is_open peer (announce_request request) >>= λ event.
      encode_announce_response (record { accepted = true }) max_frame_len >>= λ response_frame.
      ok (response_frame, event)

  -- What is written, the event, the deferred commands, and what is still in the channel.
  abbrev pub Served : Type 0
  Served = Outcome SessionError (Bytes × RuntimeEvent × List SessionCommand × List SessionCommand)

  unfoldable pub serve_sync :
      Bool → ℕ → Bytes → Bytes → List SessionCommand → List SessionCommand → Served
  serve_sync is_open max_frame_len peer stream deferred channel =
      map_err frame_error (read_length_prefixed_frame stream max_frame_len) >>= λ (frame, rest).
      decode_sync_request frame max_frame_len >>= λ request.
      emit_message is_open peer (sync_request request) >>= λ event.
      wait_for_sync_response deferred channel >>= λ (response, deferred', channel').
      encode_sync_response response max_frame_len >>= λ response_frame.
      ok (response_frame, event, deferred', channel')
