-- ===== src/Runtime/Session/Identify.antt =====
-- erp-runtime/src/network/protocol/identify.rs: the message of the identify protocol and its reader
-- and writer. The crate `quick_protobuf` is the record `Protobuf`. A text is its bytes.
pub mod Roundtrip
pub mod Total
use rust_proof.Base.{
  ℕ, zero, suc, ◌≡◌, ◌<◌, ◌≤◌, true, Option, none, some, List, [], ◌∷◌, ◌++◌, Bytes, Outcome, ok,
  err, panic, ◌>>=◌, if◌then◌else◌, ◌==◌, length,
}
use rust_proof.Runtime.Utf8.{is_utf8}

-- Tags and length-delimited values: what is written is read back, whatever follows; a tag takes at
-- least one byte, and reading leaves no more than there was.
pub record Protobuf : Type 0 where
  pub next_tag : Bytes → Option (ℕ × Bytes)
  pub read_bytes : Bytes → Option (Bytes × Bytes)
  pub read_string : Bytes → Option (Bytes × Bytes)
  pub read_unknown : ℕ → Bytes → Option Bytes
  pub write_tag : ℕ → Bytes
  pub write_value : Bytes → Bytes
  pub reads_tag :
      (tag : ℕ) (rest : Bytes) → tag < 128 → next_tag (write_tag tag ++ rest) ≡ some (tag, rest)
  pub reads_bytes :
      (value rest : Bytes) → read_bytes (write_value value ++ rest) ≡ some (value, rest)
  pub reads_string :
      (value rest : Bytes)
      → is_utf8 value ≡ true
      → read_string (write_value value ++ rest) ≡ some (value, rest)
  pub takes_tag :
      (stream : Bytes) (tag : ℕ) (rest : Bytes)
      → next_tag stream ≡ some (tag, rest)
      → length rest < length stream
  pub takes_bytes :
      (stream value rest : Bytes)
      → read_bytes stream ≡ some (value, rest)
      → length rest ≤ length stream
  pub takes_string :
      (stream value rest : Bytes)
      → read_string stream ≡ some (value, rest)
      → length rest ≤ length stream
  pub takes_unknown :
      (tag : ℕ) (stream rest : Bytes)
      → read_unknown tag stream ≡ some rest
      → length rest ≤ length stream

pub record IdentifyMessage : Type 0 where
  pub protocol_version : Option Bytes
  pub agent_version : Option Bytes
  pub public_key : Option Bytes
  pub listen_addrs : List Bytes
  pub observed_addr : Option Bytes
  pub protocols : List Bytes
  pub signed_peer_record : Option Bytes

-- `Self::default()`
abbrev pub empty_message : IdentifyMessage
empty_message = record {
  protocol_version = none;
  agent_version = none;
  public_key = none;
  listen_addrs = [];
  observed_addr = none;
  protocols = [];
  signed_peer_record = none;
}

pub data ProtobufError : Type 0 where
  malformed : ProtobufError

abbrev pub read_or : {A : Type 0} → Option A → Outcome ProtobufError A
read_or none = err malformed
read_or (some x) = ok x

module _ ⦃b : Protobuf⦄ where
  abbrev pub Field : Type 0
  Field = Outcome ProtobufError (IdentifyMessage × Bytes)

  abbrev pub with_value : (Bytes → IdentifyMessage) → Option (Bytes × Bytes) → Field
  with_value set none = err malformed
  with_value set (some (value, rest)) = ok (set value, rest)

  abbrev pub unchanged : IdentifyMessage → Option Bytes → Field
  unchanged message none = err malformed
  unchanged message (some rest) = ok (message, rest)

  -- One turn of the loop, behind the tag.
  unfoldable pub read_field : IdentifyMessage → ℕ → Bytes → Field
  read_field message tag stream =
      if tag == 42
      then with_value (λ value. record message { protocol_version = some value })
          (b.read_string stream)
      else if tag == 50
      then with_value (λ value. record message { agent_version = some value })
          (b.read_string stream)
      else if tag == 10
      then with_value (λ value. record message { public_key = some value }) (b.read_bytes stream)
      else if tag == 18
      then with_value
          (λ value. record message { listen_addrs = message.listen_addrs ++ value ∷ [] })
          (b.read_bytes stream)
      else if tag == 34
      then with_value (λ value. record message { observed_addr = some value }) (b.read_bytes stream)
      else if tag == 26
      then with_value (λ value. record message { protocols = message.protocols ++ value ∷ [] })
          (b.read_string stream)
      else if tag == 66
      then with_value (λ value. record message { signed_peer_record = some value })
          (b.read_bytes stream)
      else unchanged message (b.read_unknown tag stream)

  -- The loop, with fuel. It ends at the end of the payload.
  unfoldable pub read_fields : ℕ → IdentifyMessage → Bytes → Outcome ProtobufError IdentifyMessage
  read_fields fuel message [] = ok message
  read_fields zero message (x ∷ stream) = panic
  read_fields (suc fuel) message (x ∷ stream) =
      read_or (b.next_tag (x ∷ stream)) >>= λ (tag, stream1).
      read_field message tag stream1 >>= λ (message1, stream2). read_fields fuel message1 stream2

  -- `from_reader`: each turn takes a byte at least.
  abbrev pub from_reader : Bytes → Outcome ProtobufError IdentifyMessage
  from_reader bytes = read_fields (length bytes) empty_message bytes

  abbrev pub write_with_tag : ℕ → Bytes → Bytes
  write_with_tag tag value = b.write_tag tag ++ b.write_value value

  abbrev pub write_option : ℕ → Option Bytes → Bytes
  write_option tag none = []
  write_option tag (some value) = write_with_tag tag value

  unfoldable pub write_each : ℕ → List Bytes → Bytes
  write_each tag [] = []
  write_each tag (value ∷ values) = write_with_tag tag value ++ write_each tag values

  unfoldable pub write_message : IdentifyMessage → Bytes
  write_message message =
      write_option 42 message.protocol_version
      ++ (write_option 50 message.agent_version
          ++ (write_option 10 message.public_key
              ++ (write_each 18 message.listen_addrs
                  ++ (write_option 34 message.observed_addr
                      ++ (write_each 26 message.protocols
                          ++ write_option 66 message.signed_peer_record)))))
