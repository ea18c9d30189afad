-- ===== src/Tests/Toy.antt =====
-- A concrete stand-in for the two crates behind `Crypto`: three accounts, a signature that names
-- its signer and what was signed, and a polynomial digest of 32 bytes.
use rust_proof.Base.{
  ℕ, zero, suc, ◌+◌, ◌*◌, ◌/◌, ◌%◌, ◌^◌, ◌≡◌, ◌↔◌, refl, Bool, true, false, ◌&&◌, Option, none,
  some, [], ◌∷◌, Bytes, arith, length, replicate, eq_bytes, ap,
}
use rust_proof.Core.Crypto.{Crypto}

pub data Account : Type 0 where
  alice bob carol : Account

abbrev pub number : Account → ℕ
number alice = 2
number bob = 3
number carol = 4

abbrev pub same : Account → Account → Bool
same alice alice = true
same bob bob = true
same carol carol = true
same _ _ = false

pub same_iff : (a b : Account) → (same a b ≡ true) ↔ (a ≡ b)
same_iff a b = ground arith

pub record Signed : Type 0 where
  pub signer : Account
  pub message : Bytes

abbrev pub encode : Account → Bytes
encode a = number a ∷ replicate 32 0

abbrev pub decode : Bytes → Option Account
decode [] = none
decode (b ∷ bs) = elim b [
  | zero ↦ none
  | suc n ↦ elim n [
    | zero ↦ none
    | suc n1 ↦ elim n1 [
      | zero ↦ some alice
      | suc n2 ↦ elim n2 [
        | zero ↦ some bob
        | suc n3 ↦ elim n3 [ zero ↦ some carol | suc n4 ↦ none ]
      ]
    ]
  ]
]

pub decode-encode : (a : Account) → decode (encode a) ≡ some a
decode-encode alice = refl
decode-encode bob = refl
decode-encode carol = refl

pub length-encode : (a : Account) → length (encode a) ≡ 33
length-encode alice = refl
length-encode bob = refl
length-encode carol = refl

abbrev absorb : ℕ → Bytes → ℕ
absorb acc [] = acc
absorb acc (b ∷ bs) = absorb ((acc * 1000003 + b + 1) % 2 ^ 256) bs

abbrev bytes_of : ℕ → ℕ → Bytes
bytes_of zero n = []
bytes_of (suc k) n = n % 256 ∷ bytes_of k (n / 256)

length-bytes_of : (k n : ℕ) → length (bytes_of k n) ≡ k
length-bytes_of zero n = refl
length-bytes_of (suc k) n = ap suc (length-bytes_of k (n / 256))

abbrev pub digest : Bytes → Bytes
digest m = bytes_of 32 (absorb 7 m)

pub length-digest : (m : Bytes) → length (digest m) ≡ 32
length-digest m = length-bytes_of 32 (absorb 7 m)

instance abbrev pub toy : Crypto
toy = record {
  VerifyingKey = Account;
  SigningKey = Account;
  Signature = Signed;
  eq_key = same;
  eq_key_iff = same_iff;
  to_encoded_point = encode;
  from_sec1_bytes = decode;
  from_slice = λ _. some alice;
  verifying_key = λ a. a;
  verify = λ k m s. same k s.signer && eq_bytes m s.message;
  sha256 = digest;
  decode_encoded = decode-encode;
  length_encoded = length-encode;
  length_digest = length-digest;
}
