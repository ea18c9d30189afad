-- ===== src/Tests/Handshake.antt =====
-- Two nodes of the embedded runtime that meet.
use rust_proof.Base.{
  ℕ, ◌≡◌, refl, ap, subst, Bool, true, false, Option, none, some, [], ◌∷◌, ◌++◌, Bytes, arith, ok,
  length, take, drop, take-append, drop-append, ◌==◌,
}
use rust_proof.Core.Crypto.{verifying_key_to_bytes}
use rust_proof.Host.Hello.{NodeHello, NodeHelloResponse, NodeHelloRejectReason, some_or}
use rust_proof.Runtime.Frame.{encode_length_prefixed}
use rust_proof.Runtime.Multistream.{write_protocol, listener_select, ends_with_newline}
use rust_proof.Runtime.Session.{encode_message}
use rust_proof.Runtime.Session.Protocols.{node_hello_protocol}
use rust_proof.Runtime.Session.Hello.{
  NodeHelloBuilder, HelloCodecs, established, from_software_signing_key, build, peer_of_hello,
  hello_with, request_node_hello, acceptance, answer_node_hello,
}
use rust_proof.Runtime.Session.Handshake.{
  from_software_signing_key-IsIdentity, setup_protocols, request_node_hello-answer_node_hello,
}
use rust_proof.Tests.Toy.{Account, alice, bob, toy}
use rust_proof.Tests.Desktop.{toy_signing}
use rust_proof.Tests.Runtime.{toy_varint, header, header_written}

abbrev bit : Bool → ℕ
bit true = 1
bit false = 0

-- Lists go behind their lengths.
abbrev hello_bytes : NodeHello → Bytes
hello_bytes x =
    x.version
    ∷ x.max_frame_len
    ∷ x.max_blocks_per_chunk
    ∷ bit x.capabilities.supports_sync_v1
    ∷ bit x.capabilities.supports_announce_v1
    ∷ bit x.capabilities.supports_ping
    ∷ length x.node_public_key
    ∷ length x.node_peer_id
    ∷ length x.transport_peer_id
    ∷ (x.node_public_key ++ (x.node_peer_id ++ (x.transport_peer_id ++ x.signature)))

abbrev read_hello : Bytes → Option NodeHello
read_hello (v ∷ f ∷ m ∷ s ∷ a ∷ p ∷ i ∷ j ∷ k ∷ rest) =
    let rest1 = drop i rest in
    let rest2 = drop j rest1 in
    some (record {
      version = v;
      node_public_key = take i rest;
      node_peer_id = take j rest1;
      transport_peer_id = take k rest2;
      max_frame_len = f;
      max_blocks_per_chunk = m;
      capabilities = record {
        supports_sync_v1 = s == 1;
        supports_announce_v1 = a == 1;
        supports_ping = p == 1;
      };
      signature = drop k rest2;
    })
read_hello _ = none

bit_read : (b : Bool) → (bit b == 1) ≡ b
bit_read true = refl
bit_read false = refl

hello_read : (x : NodeHello) → read_hello (hello_bytes x) ≡ some x
hello_read x =
    rw
      (
        bit_read x.capabilities.supports_sync_v1,
        bit_read x.capabilities.supports_announce_v1,
        bit_read x.capabilities.supports_ping,
        take-append x.node_public_key (x.node_peer_id ++ (x.transport_peer_id ++ x.signature)),
        drop-append x.node_public_key (x.node_peer_id ++ (x.transport_peer_id ++ x.signature)),
        take-append x.node_peer_id (x.transport_peer_id ++ x.signature),
        drop-append x.node_peer_id (x.transport_peer_id ++ x.signature),
        take-append x.transport_peer_id x.signature,
        drop-append x.transport_peer_id x.signature,
      )
      refl

-- Only an acceptance is written.
abbrev response_bytes : Option NodeHelloRejectReason → Bool → NodeHello → Option Bytes
response_bytes none true remote = some (hello_bytes remote)
response_bytes _ _ remote = none

abbrev read_accepted : Option NodeHello → Option NodeHelloResponse
read_accepted none = none
read_accepted (some remote) = some (acceptance remote)

response_read :
    (reason : Option NodeHelloRejectReason) (accepted : Bool) (remote : NodeHello) (bytes : Bytes)
    → response_bytes reason accepted remote ≡ some bytes
    → read_accepted (read_hello bytes)
      ≡ some (record { accepted = accepted; remote = remote; reject_reason = reason })
response_read none true remote bytes h =
    let same : hello_bytes remote ≡ bytes = cc in
    subst (λ b. read_accepted (read_hello b) ≡ some (acceptance remote)) same
      (ap read_accepted (hello_read remote))
response_read none false remote bytes h = cc
response_read (some why) accepted remote bytes h = cc

pub hello_reads_back :
    (x : NodeHello) (bytes : Bytes) → some (hello_bytes x) ≡ some bytes → read_hello bytes ≡ some x
hello_reads_back x bytes h =
    let same : hello_bytes x ≡ bytes = cc in subst (λ b. read_hello b ≡ some x) same (hello_read x)

instance abbrev toy_hellos : HelloCodecs
toy_hellos = record {
  hellos = record {
    to_allocvec = λ x. some (hello_bytes x);
    decode = read_hello;
    reads_back = hello_reads_back;
  };
  responses = record {
    to_allocvec = λ r. response_bytes r.reject_reason r.accepted r.remote;
    decode = λ bytes. read_accepted (read_hello bytes);
    reads_back = λ r. response_read r.reject_reason r.accepted r.remote;
  };
}

abbrev node_of : Account → Bytes → NodeHelloBuilder
node_of key transport = record {
  node_identity = from_software_signing_key key;
  transport_peer_id = transport;
  max_frame_len = 1000;
  max_blocks_per_chunk = 8;
  capabilities = record {
    supports_sync_v1 = true;
    supports_announce_v1 = true;
    supports_ping = true;
  };
}

abbrev dialer : NodeHelloBuilder
dialer = node_of alice (7 ∷ 1 ∷ [])

abbrev listener : NodeHelloBuilder
listener = node_of bob (7 ∷ 2 ∷ [])

abbrev dialer_hello : NodeHello
dialer_hello =
    hello_with dialer (2 ∷ 1 ∷ 8 ∷ dialer.node_identity.peer_id ++ dialer.transport_peer_id)

abbrev listener_hello : NodeHello
listener_hello =
    hello_with listener (3 ∷ 1 ∷ 8 ∷ listener.node_identity.peer_id ++ listener.transport_peer_id)

dialer_built : build dialer ≡ ok dialer_hello
unfolding build some_or from_software_signing_key
dialer_built = refl

listener_built : build listener ≡ ok listener_hello
unfolding build some_or from_software_signing_key
listener_built = refl

-- The line that asks for the protocol, and the two frames.
abbrev hello_line : Bytes
hello_line = 153 ∷ 128 ∷ 128 ∷ 128 ∷ 0 ∷ (node_hello_protocol ++ 10 ∷ [])

abbrev asked : Bytes
asked = 241 ∷ 128 ∷ 128 ∷ 128 ∷ 0 ∷ hello_bytes dialer_hello

abbrev answered : Bytes
answered = 241 ∷ 128 ∷ 128 ∷ 128 ∷ 0 ∷ hello_bytes listener_hello

hello_line_written : write_protocol node_hello_protocol ≡ ok hello_line
unfolding write_protocol ends_with_newline encode_length_prefixed
hello_line_written = refl

asked_encoded : encode_message toy_hellos.hellos dialer_hello 1000 ≡ ok asked
unfolding encode_message encode_length_prefixed from_software_signing_key verifying_key_to_bytes
asked_encoded = refl

answered_encoded :
    encode_message toy_hellos.responses (acceptance listener_hello) 1000 ≡ ok answered
unfolding encode_message encode_length_prefixed from_software_signing_key verifying_key_to_bytes
answered_encoded = refl

request_node_hello-answer_node_hello_example :
    (request_node_hello dialer (7 ∷ 2 ∷ []) (some (header ++ (hello_line ++ answered)))
      ≡ ok (established (peer_of_hello listener_hello), (header ++ hello_line) ++ asked))
    × (listener_select (header ++ (hello_line ++ asked)) setup_protocols
        ≡ ok (node_hello_protocol, header ++ hello_line, asked))
    × (answer_node_hello listener (7 ∷ 1 ∷ []) asked
        ≡ ok (established (peer_of_hello dialer_hello), answered))
request_node_hello-answer_node_hello_example =
    request_node_hello-answer_node_hello dialer listener dialer_hello listener_hello header
      hello_line asked answered (omega arith) refl (from_software_signing_key-IsIdentity alice)
      (from_software_signing_key-IsIdentity bob) dialer_built listener_built header_written
      hello_line_written asked_encoded answered_encoded
