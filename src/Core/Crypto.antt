-- ===== src/Core/Crypto.antt =====
-- rp-core/src/crypto.rs. P-256 (the crate `p256`) and SHA-256 (the crate `sha2`) are not code of
-- the repository: they are the record `Crypto`, an instance argument of whatever uses them.
use rust_proof.Base.{
  ℕ, ◌≡◌, ◌↔◌, Bool, true, Option, none, some, Bytes, Outcome, ok, panic, length, replicate,
  eq_bytes, eq_bytes_iff, arith, ap, true,
}

-- What the program takes from the two crates, with the behaviour that they document: keys have a
-- decidable equality and a compressed encoding of 33 bytes that decodes to the key, and a digest
-- has 32 bytes.
pub record Crypto : Type 1 where
  pub VerifyingKey : Type 0
  pub SigningKey : Type 0
  pub Signature : Type 0
  pub eq_key : VerifyingKey → VerifyingKey → Bool
  pub eq_key_iff : (a b : VerifyingKey) → (eq_key a b ≡ true) ↔ (a ≡ b)
  pub to_encoded_point : VerifyingKey → Bytes
  pub from_sec1_bytes : Bytes → Option VerifyingKey
  pub from_slice : Bytes → Option SigningKey
  pub verifying_key : SigningKey → VerifyingKey
  pub verify : VerifyingKey → Bytes → Signature → Bool
  pub sha256 : Bytes → Bytes
  pub decode_encoded : (k : VerifyingKey) → from_sec1_bytes (to_encoded_point k) ≡ some k
  pub length_encoded : (k : VerifyingKey) → length (to_encoded_point k) ≡ 33
  pub length_digest : (m : Bytes) → length (sha256 m) ≡ 32

abbrev pub public_key_size : ℕ
public_key_size = 33

module _ ⦃c : Crypto⦄ where
  abbrev pub VerifyingKey : Type 0
  VerifyingKey = c.VerifyingKey

  abbrev pub Signature : Type 0
  Signature = c.Signature

  abbrev pub eq_key : VerifyingKey → VerifyingKey → Bool
  eq_key = c.eq_key

  abbrev pub verify : VerifyingKey → Bytes → Signature → Bool
  verify = c.verify

  abbrev pub sha256 : Bytes → Bytes
  sha256 = c.sha256

  -- `copy_from_slice` panics unless the encoding has 33 bytes, which `length_encoded` gives.
  unfoldable pub verifying_key_to_bytes : VerifyingKey → Bytes
  verifying_key_to_bytes key = c.to_encoded_point key

  unfoldable pub verifying_key_from_bytes : Bytes → Option VerifyingKey
  verifying_key_from_bytes bytes = c.from_sec1_bytes bytes

  unfoldable pub signing_key_from_bytes : Bytes → Option c.SigningKey
  signing_key_from_bytes bytes = c.from_slice bytes

  unfoldable pub genesis_verifying_key : Outcome (Unit {0}) VerifyingKey
  unfolding signing_key_from_bytes
  genesis_verifying_key = elim (signing_key_from_bytes (replicate 32 1)) [
    | none ↦ panic
    | some key ↦ ok (c.verifying_key key)
  ]

  pub verifying_key_to_bytes-injective :
      (a b : VerifyingKey) → verifying_key_to_bytes a ≡ verifying_key_to_bytes b → a ≡ b
  unfolding verifying_key_to_bytes
  verifying_key_to_bytes-injective a b e = cc (c.decode_encoded a, c.decode_encoded b)

  -- Accounts are compared by the bytes of their keys, which is to compare the keys.
  pub eq_bytes-verifying_key_to_bytes :
      (a b : VerifyingKey)
      → eq_bytes (verifying_key_to_bytes a) (verifying_key_to_bytes b) ≡ eq_key a b
  eq_bytes-verifying_key_to_bytes a b =
      let same = eq_bytes_iff (verifying_key_to_bytes a) (verifying_key_to_bytes b) in
      ground (
        arith,
        same,
        verifying_key_to_bytes-injective a b,
        c.eq_key_iff a b,
        ap verifying_key_to_bytes,
      )
