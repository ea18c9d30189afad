-- ===== src/Tests/Runtime.antt =====
-- The runtimes' parts at concrete inputs.
use rust_proof.Base.{
  ℕ, ◌+◌, ◌-◌, ◌*◌, ◌/◌, ◌%◌, ◌^◌, cmp_bytes, eq_bytes, err, false, ◌<◌, ◌≡◌, refl, ap, true, none,
  some, Option, List, [], ◌∷◌, ◌++◌, Bytes, arith, ok,
}
use rust_proof.BTreeMap
use rust_proof.Node.Contract.{NodeAction, request_blocks, schedule_wake}
use rust_proof.Runtime.Frame.{
  Varint, encode_length_prefixed, read_length_prefixed_frame, read_prefix, read_body,
  decode_length_prefixed_payload_len, read_length_prefixed_frame-encode, IsVarint,
}
use rust_proof.Runtime.Utf8.{is_utf8}
use rust_proof.Runtime.Multistream.{
  multistream_v1, not_available, max_protocol_frame_len, rejected, ends_with_newline,
  write_protocol, read_protocol, any_equals, dialer_select, listener_select,
  listener_select_optional,
}
use rust_proof.Runtime.Multistream.Agree.{
  IsText, read_protocol-write_protocol, dialer_select-listener_select,
  dialer_select-listener_select_optional,
}
use rust_proof.Runtime.PeerRegistry.{
  PeerRegistry, alloc, register_node_peer, remove, fresh_session, session_at, set_slot, free_slot,
}
use rust_proof.Runtime.PeerRegistry
use rust_proof.Runtime.PeerRegistry.Index.{IsIndexed}
use rust_proof.Tests.Toy.{toy}

-- A stand-in for `unsigned_varint` that always writes five groups of seven bits.
abbrev toy_encode : ℕ → Bytes
toy_encode n =
    (128 + n % 128)
    ∷ (128 + n / 128 % 128)
    ∷ (128 + n / 16384 % 128)
    ∷ (128 + n / 2097152 % 128)
    ∷ (n / 268435456 % 128)
    ∷ []

abbrev toy_decode : Bytes → Option (ℕ × Bytes)
toy_decode (a ∷ b ∷ d ∷ e ∷ f ∷ rest) =
    some (a - 128 + (b - 128) * 128 + (d - 128) * 16384 + (e - 128) * 2097152 + f * 268435456, rest)
toy_decode _ = none

pub toy_decodes :
    (n : ℕ) (rest : Bytes) → n < 2 ^ 32 → toy_decode (toy_encode n ++ rest) ≡ some (n, rest)
toy_decodes n rest h = ap (λ k. some (k, rest)) (omega arith)

pub toy_shape : (n : ℕ) → n < 2 ^ 32 → IsVarint (toy_encode n)
toy_shape n h = record {
  init =
      (128 + n % 128)
      ∷ (128 + n / 128 % 128)
      ∷ (128 + n / 16384 % 128)
      ∷ (128 + n / 2097152 % 128)
      ∷ [];
  final = n / 268435456 % 128;
  parts = refl;
  goes_on = (omega arith, (omega arith, (omega arith, (omega arith, tt))));
  ends = omega arith;
  short = omega arith;
}

instance abbrev pub toy_varint : Varint
toy_varint = record {
  encode = toy_encode;
  decode = toy_decode;
  decodes = toy_decodes;
  shape = toy_shape;
}

abbrev payload : Bytes
payload = 7 ∷ 8 ∷ []

abbrev frame : Bytes
frame = 130 ∷ 128 ∷ 128 ∷ 128 ∷ 0 ∷ 7 ∷ 8 ∷ []

framed : encode_length_prefixed payload 4 ≡ ok frame
unfolding encode_length_prefixed
framed = refl

read_one : read_length_prefixed_frame (frame ++ 9 ∷ []) 4 ≡ ok (frame, 9 ∷ [])
unfolding read_length_prefixed_frame read_prefix read_body decode_length_prefixed_payload_len
read_one = refl

read_length_prefixed_frame-encode_example :
    read_length_prefixed_frame (frame ++ 9 ∷ []) 4 ≡ ok (frame, 9 ∷ [])
read_length_prefixed_frame-encode_example =
    read_length_prefixed_frame-encode payload frame (9 ∷ []) 4 (omega arith) framed

-- The protocols "a" and "b", and the lines that the two ends write.
abbrev a_text : Bytes
a_text = 97 ∷ []

abbrev b_text : Bytes
b_text = 98 ∷ []

abbrev pub header : Bytes
header = 147 ∷ 128 ∷ 128 ∷ 128 ∷ 0 ∷ (multistream_v1 ++ 10 ∷ [])

abbrev a_line : Bytes
a_line = 130 ∷ 128 ∷ 128 ∷ 128 ∷ 0 ∷ 97 ∷ 10 ∷ []

abbrev refusal : Bytes
refusal = 131 ∷ 128 ∷ 128 ∷ 128 ∷ 0 ∷ 110 ∷ 97 ∷ 10 ∷ []

pub header_written : write_protocol multistream_v1 ≡ ok header
unfolding write_protocol ends_with_newline encode_length_prefixed
header_written = refl

a_written : write_protocol a_text ≡ ok a_line
unfolding write_protocol ends_with_newline encode_length_prefixed
a_written = refl

refusal_written : write_protocol not_available ≡ ok refusal
unfolding write_protocol ends_with_newline encode_length_prefixed
refusal_written = refl

v1-IsText : IsText multistream_v1
unfolding ends_with_newline is_utf8
v1-IsText = record { unterminated = refl; utf8 = refl }

a-IsText : IsText a_text
unfolding ends_with_newline is_utf8
a-IsText = record { unterminated = refl; utf8 = refl }

not_available-IsText : IsText not_available
unfolding ends_with_newline is_utf8
not_available-IsText = record { unterminated = refl; utf8 = refl }

offers_a : any_equals (a_text ∷ []) a_text ≡ true
unfolding any_equals cmp_bytes
offers_a = refl

offers_b : any_equals (b_text ∷ []) a_text ≡ false
unfolding any_equals cmp_bytes
offers_b = refl

other_than_a : eq_bytes not_available a_text ≡ false
unfolding cmp_bytes
other_than_a = refl

read_protocol-write_protocol_example :
    read_protocol (a_line ++ 5 ∷ []) max_protocol_frame_len ≡ ok (a_text, 5 ∷ [])
read_protocol-write_protocol_example =
    read_protocol-write_protocol a_text a_line (5 ∷ []) a-IsText a_written

dialer_select-listener_select_example :
    (listener_select (header ++ (a_line ++ 5 ∷ [])) (a_text ∷ [])
      ≡ ok (a_text, header ++ a_line, 5 ∷ []))
    × (dialer_select (header ++ (a_line ++ 5 ∷ [])) a_text ≡ ok (header ++ a_line, 5 ∷ []))
dialer_select-listener_select_example =
    dialer_select-listener_select header a_line (5 ∷ []) a_text (a_text ∷ []) v1-IsText a-IsText
      header_written a_written offers_a

dialer_select-listener_select_optional_example :
    (listener_select_optional (header ++ (a_line ++ 5 ∷ [])) (b_text ∷ [])
      ≡ ok (none, header ++ refusal, 5 ∷ []))
    × (dialer_select (header ++ (refusal ++ 5 ∷ [])) a_text ≡ err rejected)
dialer_select-listener_select_optional_example =
    dialer_select-listener_select_optional header a_line (5 ∷ []) a_text (b_text ∷ []) v1-IsText
      a-IsText header_written a_written refusal not_available-IsText refusal_written offers_b
      other_than_a

abbrev wake_actions : List NodeAction
wake_actions = request_blocks (1 ∷ []) 1 5 ∷ schedule_wake 30000 ∷ []

abbrev registry : PeerRegistry
registry = PeerRegistry.new 2

registry-IsIndexed : IsIndexed registry
unfolding BTreeMap.get session_at
registry-IsIndexed = record {
  ordered = tt;
  named = λ q j e. absurd (ground arith);
  found = λ q j s e name. absurd (ground arith);
}

abbrev with_one : PeerRegistry
with_one = record registry { sessions = some (fresh_session 0 (5 ∷ []) true none) ∷ [] }

one_allocated : alloc registry (5 ∷ []) true none ≡ ok (with_one, 0)
unfolding alloc free_slot
one_allocated = refl

abbrev peer_nine : Bytes
peer_nine = 9 ∷ []

abbrev with_peer : PeerRegistry
with_peer = record registry {
  sessions =
      some (record (fresh_session 0 (5 ∷ []) true none) { node_peer_id = some peer_nine }) ∷ [];
  by_node_peer = (peer_nine, 0) ∷ [];
}

peer_registered : register_node_peer with_one 0 peer_nine ≡ ok with_peer
unfolding register_node_peer session_at set_slot BTreeMap.get BTreeMap.insert
peer_registered = refl

known_session : session_at 0 with_one.sessions ≡ some (fresh_session 0 (5 ∷ []) true none)
unfolding session_at
known_session = refl
