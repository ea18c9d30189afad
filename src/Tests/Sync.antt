-- ===== src/Tests/Sync.antt =====
-- A session that asks another for blocks, and commands that come between.
use rust_proof.Base.{
  ℕ, ◌≡◌, refl, true, false, Option, none, some, List, [], ◌∷◌, ◌++◌, Bytes, arith, ok, subst, Bool,
  if◌then◌else◌, ◌==◌,
}
use rust_proof.Core.Models.{Block}
use rust_proof.Node.Network.{
  Postcard, NetworkMessage, SyncRequest, SyncResponse, announce_request, announce_response,
  sync_request, sync_response, to_bytes, from_bytes,
}
use rust_proof.Host.Contract.{frame_received}
use rust_proof.Runtime.Frame.{encode_length_prefixed}
use rust_proof.Runtime.Multistream.{write_protocol, listener_select_optional, ends_with_newline}
use rust_proof.Runtime.Network.{SessionCommand, send}
use rust_proof.Runtime.Session.{
  PayloadCodec, Payloads, encode_message, encode_sync_request, encode_sync_response, awaited,
  restore_deferred_commands, wait_in_channel, wait_in_deferred, wait_for_sync_response,
  handle_outbound_frame, serve_sync,
}
use rust_proof.Runtime.Session.Protocols.{sync_protocol, inbound_session_protocols}
use rust_proof.Runtime.Session.Exchange.{handle_outbound_frame-serve_sync}
use rust_proof.Tests.Toy.{toy}
use rust_proof.Tests.Desktop.{announced}
use rust_proof.Tests.Runtime.{toy_varint, header, header_written}

abbrev question : SyncRequest
question = record { from_height = 1; to_height = 5 }

abbrev answer : SyncResponse
answer = record { blocks = []; has_more = false; next_height = none }

-- One byte tells the message.
abbrev message_to_bytes : NetworkMessage → Bytes
message_to_bytes (announce_request r) = 1 ∷ []
message_to_bytes (announce_response r) = 2 ∷ []
message_to_bytes (sync_request r) = 3 ∷ []
message_to_bytes (sync_response r) = 4 ∷ []

abbrev message_from_bytes : Bytes → Option NetworkMessage
message_from_bytes (tag ∷ []) =
    if tag == 3
    then some (sync_request question)
    else if tag == 4
    then some (sync_response answer)
    else some (announce_request announced)
message_from_bytes _ = none

instance abbrev toy_messages : Postcard
toy_messages = record {
  to_allocvec = λ message. some (message_to_bytes message);
  from_bytes = message_from_bytes;
}

-- A request is its two heights, each as one byte.
abbrev heights : SyncRequest → Option Bytes
heights r = some (r.from_height ∷ r.to_height ∷ [])

abbrev read_heights : Bytes → Option SyncRequest
read_heights (a ∷ b ∷ []) = some (record { from_height = a; to_height = b })
read_heights _ = none

heights_read :
    (x : SyncRequest) (bytes : Bytes) → heights x ≡ some bytes → read_heights bytes ≡ some x
heights_read x bytes h =
    let same : x.from_height ∷ x.to_height ∷ [] ≡ bytes = cc in
    subst (λ b. read_heights b ≡ some x) same refl

-- Only the empty answer is written.
abbrev plain : List Block → Bool → Option ℕ → Option Bytes
plain [] false none = some (7 ∷ [])
plain _ _ _ = none

abbrev read_plain : Bytes → Option SyncResponse
read_plain bytes = some answer

plain_read :
    (blocks : List Block) (has_more : Bool) (next_height : Option ℕ) (bytes : Bytes)
    → plain blocks has_more next_height ≡ some bytes
    → read_plain bytes
      ≡ some (record { blocks = blocks; has_more = has_more; next_height = next_height })
plain_read [] false none bytes h = refl
plain_read [] false (some n) bytes h = cc
plain_read [] true n bytes h = cc
plain_read (b ∷ blocks) more n bytes h = cc

abbrev unwritten : {A : Type 0} → PayloadCodec A
unwritten = record { to_allocvec = λ x. none; decode = λ bytes. none; reads_back = λ x bytes h. cc }

instance abbrev toy_payloads : Payloads
toy_payloads = record {
  sync_requests = record {
    to_allocvec = heights;
    decode = read_heights;
    reads_back = heights_read;
  };
  sync_responses = record {
    to_allocvec = λ r. plain r.blocks r.has_more r.next_height;
    decode = read_plain;
    reads_back = λ r. plain_read r.blocks r.has_more r.next_height;
  };
  announce_requests = unwritten;
  announce_responses = unwritten;
}

-- The line that asks for the protocol, and the two frames.
abbrev sync_line : Bytes
sync_line = 147 ∷ 128 ∷ 128 ∷ 128 ∷ 0 ∷ (sync_protocol ++ 10 ∷ [])

abbrev question_frame : Bytes
question_frame = 130 ∷ 128 ∷ 128 ∷ 128 ∷ 0 ∷ 1 ∷ 5 ∷ []

abbrev answer_frame : Bytes
answer_frame = 129 ∷ 128 ∷ 128 ∷ 128 ∷ 0 ∷ 7 ∷ []

sync_written : write_protocol sync_protocol ≡ ok sync_line
unfolding write_protocol ends_with_newline encode_length_prefixed
sync_written = refl

question_encoded : encode_sync_request question 100 ≡ ok question_frame
unfolding encode_message encode_length_prefixed
question_encoded = refl

answer_encoded : encode_sync_response answer 100 ≡ ok answer_frame
unfolding encode_message encode_length_prefixed
answer_encoded = refl

-- An announcement and a request come before the response; another announcement is behind it.
abbrev deferred : List SessionCommand
deferred = send (1 ∷ []) ∷ []

abbrev channel : List SessionCommand
channel = send (3 ∷ []) ∷ send (4 ∷ []) ∷ send (1 ∷ []) ∷ []

waited :
    wait_for_sync_response deferred channel
    ≡ ok (answer, send (1 ∷ []) ∷ send (3 ∷ []) ∷ [], send (1 ∷ []) ∷ [])
unfolding wait_in_deferred wait_in_channel awaited restore_deferred_commands to_bytes from_bytes
waited = refl

question_parsed : from_bytes (3 ∷ []) ≡ some (sync_request question)
unfolding from_bytes
question_parsed = refl

answer_written : toy_messages.to_allocvec (sync_response answer) ≡ some (4 ∷ [])
answer_written = refl

question_written : toy_messages.to_allocvec (sync_request question) ≡ some (3 ∷ [])
question_written = refl

handle_outbound_frame-serve_sync_example :
    (handle_outbound_frame true 100 (2 ∷ []) (some (header ++ (sync_line ++ answer_frame))) (3 ∷ [])
      ≡ ok ((header ++ sync_line) ++ question_frame, frame_received (2 ∷ []) (4 ∷ [])))
    × (listener_select_optional (header ++ (sync_line ++ question_frame)) inbound_session_protocols
        ≡ ok (some sync_protocol, header ++ sync_line, question_frame))
    × (serve_sync true 100 (1 ∷ []) question_frame deferred channel
        ≡ ok (
          answer_frame,
          frame_received (1 ∷ []) (3 ∷ []),
          send (1 ∷ []) ∷ send (3 ∷ []) ∷ [],
          send (1 ∷ []) ∷ [],
        ))
handle_outbound_frame-serve_sync_example =
    handle_outbound_frame-serve_sync 100 header sync_line (1 ∷ []) (2 ∷ []) (3 ∷ []) question answer
      question_frame answer_frame deferred channel (send (1 ∷ []) ∷ send (3 ∷ []) ∷ [])
      (send (1 ∷ []) ∷ []) (4 ∷ []) (3 ∷ []) (omega arith) header_written sync_written
      question_parsed question_encoded answer_encoded waited answer_written question_written
