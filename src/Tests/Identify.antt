-- ===== src/Tests/Identify.antt =====
-- An identify message, with a stand-in for `quick_protobuf`.
use rust_proof.Base.{
  ℕ, zero, suc, ◌≤◌, ◌<◌, ◌≡◌, refl, subst, Bool, true, false, Option, none, some, [], ◌∷◌, ◌++◌,
  Bytes, arith, ok, length, take, drop, take-append, drop-append, ltb, if◌then◌else◌, length-append,
  Bool-cases, inl, inr,
}
use rust_proof.Runtime.Utf8.{is_utf8}
use rust_proof.Runtime.Session.Identify.{
  Protobuf, IdentifyMessage, empty_message, from_reader, write_message,
}
use rust_proof.Runtime.Session.Identify.Roundtrip.{IsEncodable, from_reader-write_message}

-- A tag is one byte, and so is the length of a value.
abbrev first_byte : Bytes → Option (ℕ × Bytes)
first_byte [] = none
first_byte (x ∷ rest) = some (x, rest)

abbrev value_bytes : Bytes → Bytes
value_bytes value = length value ∷ value

abbrev read_value : Bytes → Option (Bytes × Bytes)
read_value [] = none
read_value (n ∷ stream) =
    if ltb (length stream) n then none else some (take n stream, drop n stream)

abbrev only_text : Bool → Bytes × Bytes → Option (Bytes × Bytes)
only_text true read = some read
only_text false read = none

abbrev checked : Option (Bytes × Bytes) → Option (Bytes × Bytes)
checked none = none
checked (some read) = only_text (is_utf8 read.0) read

value_read : (value rest : Bytes) → read_value (value_bytes value ++ rest) ≡ some (value, rest)
value_read value rest =
    let enough : ltb (length (value ++ rest)) (length value) ≡ false =
      ground (arith, length-append value rest) in
    rw (enough, take-append value rest, drop-append value rest) refl

text_read :
    (value rest : Bytes)
    → is_utf8 value ≡ true
    → checked (read_value (value_bytes value ++ rest)) ≡ some (value, rest)
text_read value rest text = rw (value_read value rest, text) refl

length-drop_le : (n : ℕ) (xs : Bytes) → length (drop n xs) ≤ length xs
length-drop_le zero xs = omega arith
length-drop_le (suc n) [] = omega arith
length-drop_le (suc n) (x ∷ xs) = omega (arith, length-drop_le n xs)

value_taken :
    (stream value rest : Bytes)
    → read_value stream ≡ some (value, rest)
    → length rest ≤ length stream
value_taken [] value rest e = absurd cc
value_taken (n ∷ stream) value rest e =
    let same : drop n stream ≡ rest = ground arith in
    subst (λ r. length r ≤ suc (length stream)) same (omega (arith, length-drop_le n stream))

unchecked :
    (read : Option (Bytes × Bytes)) (value : Bytes × Bytes)
    → checked read ≡ some value
    → read ≡ some value
unchecked none value e = cc
unchecked (some read) value e = elim (Bool-cases (is_utf8 read.0)) [
  | inl q ↦ ground (arith, q, e)
  | inr q ↦ absurd (ground (arith, q, e))
]

first_taken :
    (stream : Bytes) (tag : ℕ) (rest : Bytes)
    → first_byte stream ≡ some (tag, rest)
    → length rest < length stream
first_taken [] tag rest e = absurd cc
first_taken (x ∷ stream) tag rest e =
    let same : stream ≡ rest = cc in subst (λ r. length r < suc (length stream)) same (omega arith)

instance abbrev toy_protobuf : Protobuf
toy_protobuf = record {
  next_tag = first_byte;
  read_bytes = read_value;
  read_string = λ stream. checked (read_value stream);
  read_unknown = λ tag stream. none;
  write_tag = λ tag. tag ∷ [];
  write_value = value_bytes;
  reads_tag = λ tag rest small. refl;
  reads_bytes = value_read;
  reads_string = text_read;
  takes_tag = first_taken;
  takes_bytes = value_taken;
  takes_string = λ stream value rest e. value_taken stream value rest (unchecked _ _ e);
  takes_unknown = λ tag stream rest e. absurd cc;
}

-- "rp", a key, two addresses and the protocols "a" and "b".
abbrev message : IdentifyMessage
message = record empty_message {
  agent_version = some (114 ∷ 112 ∷ []);
  public_key = some (200 ∷ 1 ∷ []);
  listen_addrs = (4 ∷ 10 ∷ []) ∷ (4 ∷ 11 ∷ []) ∷ [];
  protocols = (97 ∷ []) ∷ (98 ∷ []) ∷ [];
}

agent_text : is_utf8 (114 ∷ 112 ∷ []) ≡ true
unfolding is_utf8
agent_text = refl

message-IsEncodable : IsEncodable message
unfolding is_utf8
message-IsEncodable = record {
  version = λ value e. absurd cc;
  agent = λ value e.
      let same : 114 ∷ 112 ∷ [] ≡ value = cc in subst (λ v. is_utf8 v ≡ true) same agent_text;
  names = (refl, (refl, tt));
}

from_reader-write_message_example : from_reader (write_message message) ≡ ok message
from_reader-write_message_example = from_reader-write_message message message-IsEncodable
