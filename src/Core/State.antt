-- ===== src/Core/State.antt =====
-- rp-core/src/state.rs: balances, sequence numbers, stakes and funds that wait to be unlocked.
pub mod Merkle
pub mod Election
pub mod Supply
pub mod Accounts
pub mod Codec
use rust_proof.Base.{
  ℕ, ◌+◌, ◌*◌, Bool, true, false, not, Option, none, some, List, [], ◌∷◌, ◌++◌, Bytes, Outcome, ok,
  err, panic, ltb, ◌==◌, if◌then◌else◌, ◌>>=◌,
}
use rust_proof.U64.{wrapping_add, wrapping_sub}
use rust_proof.BTreeMap
use rust_proof.BTreeMap.{BTreeMap}
use rust_proof.Core.Crypto.{Crypto, VerifyingKey, verifying_key_to_bytes}
use rust_proof.Core.Models.{
  Transaction, TransactionData, SlashProof, transfer, stake, unstake, slash,
}
use rust_proof.Core.Transaction
use rust_proof.Core.Slashing
use rust_proof.Core.Slashing.{SlashError, validate}

abbrev pub epoch_length : ℕ
epoch_length = 32

abbrev pub unstake_lock_epochs : ℕ
unstake_lock_epochs = 2

pub record UnstakeRequest : Type 0 where
  pub amount : ℕ
  pub unlock_slot : ℕ

pub record State : Type 0 where
  pub balances : BTreeMap ℕ
  pub nonces : BTreeMap ℕ
  pub stakes : BTreeMap ℕ
  pub unstaking : BTreeMap (List UnstakeRequest)

-- `State::new()`
abbrev pub empty : State
empty = record { balances = []; nonces = []; stakes = []; unstaking = [] }

module _ ⦃c : Crypto⦄ where
  unfoldable pub get_balance : State → VerifyingKey → ℕ
  get_balance s account = BTreeMap.get_or (verifying_key_to_bytes account) 0 s.balances

  unfoldable pub get_nonce : State → VerifyingKey → ℕ
  get_nonce s account = BTreeMap.get_or (verifying_key_to_bytes account) 0 s.nonces

  abbrev pub is_ok {ℓ} : {E A : Type ℓ} → Outcome E A → Bool
  is_ok (ok a) = true
  is_ok (err e) = false
  is_ok panic = false

  -- The checks that `is_valid_tx` makes on the kind of transaction.
  unfoldable pub payload_allowed : State → VerifyingKey → TransactionData → Bool
  payload_allowed s sender (transfer receiver amount) = not (ltb (get_balance s sender) amount)
  payload_allowed s sender (stake amount) = not (ltb (get_balance s sender) amount)
  payload_allowed s sender (unstake amount) =
      not (ltb (BTreeMap.get_or (verifying_key_to_bytes sender) 0 s.stakes) amount)
  payload_allowed s sender (slash proof) = is_ok (validate proof)

  unfoldable pub is_valid_tx : State → Transaction → Bool
  is_valid_tx s tx =
      if not (payload_allowed s (Transaction.sender tx) (Transaction.payload tx))
      then false
      else if not (Transaction.sequence tx == get_nonce s (Transaction.sender tx))
      then false
      else Transaction.is_valid tx

  unfoldable pub apply_slash : State → SlashProof → Outcome SlashError State
  apply_slash s proof = validate proof >>= λ _.
      let key = verifying_key_to_bytes (Slashing.validator proof) in
      ok (record s {
        stakes = BTreeMap.remove key s.stakes;
        unstaking = BTreeMap.remove key s.unstaking;
      })

  -- `*self.nonces.entry(sender_key_array).or_insert(0) += 1`
  unfoldable pub bump_nonce : State → Bytes → State
  bump_nonce s key = record s { nonces = BTreeMap.update key 0 (λ n. wrapping_add n 1) s.nonces }

  -- What `apply_tx` does with the kind of transaction, before it counts the sequence number.
  unfoldable pub apply_payload : State → Bytes → TransactionData → ℕ → State
  apply_payload s key (transfer receiver amount) current_slot = record s {
    balances =
        BTreeMap.update (verifying_key_to_bytes receiver) 0 (λ b. wrapping_add b amount)
          (BTreeMap.update key 0 (λ b. wrapping_sub b amount) s.balances);
  }
  apply_payload s key (stake amount) current_slot = record s {
    balances = BTreeMap.update key 0 (λ b. wrapping_sub b amount) s.balances;
    stakes = BTreeMap.update key 0 (λ b. wrapping_add b amount) s.stakes;
  }
  apply_payload s key (unstake amount) current_slot = record s {
    stakes = BTreeMap.update key 0 (λ b. wrapping_sub b amount) s.stakes;
    unstaking =
        BTreeMap.update key []
          (λ requests.
            requests
            ++ record {
              amount = amount;
              unlock_slot = wrapping_add current_slot (unstake_lock_epochs * epoch_length);
            }
              ∷ [])
          s.unstaking;
  }
  -- `let _ = self.apply_slash(…)`: a refused proof is ignored.
  apply_payload s key (slash proof) current_slot = elim (apply_slash s proof) [
    | ok s' ↦ s'
    | err e ↦ s
    | panic ↦ s
  ]

  unfoldable pub apply_tx : State → Transaction → ℕ → State
  unfolding apply_payload bump_nonce
  apply_tx s tx current_slot =
      let key = verifying_key_to_bytes (Transaction.sender tx) in
      bump_nonce (apply_payload s key (Transaction.payload tx) current_slot) key
