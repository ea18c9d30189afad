-- ===== src/Core/State/Supply.antt =====
-- rp-core/src/state.rs: the coins in a state, and the order of its four maps.
use rust_proof.Base.{
  ℕ, suc, ◌+◌, ◌≤◌, ◌<◌, ◌≡◌, refl, Bytes, List, [], ◌∷◌, ◌++◌, arith, true, ok, length,
}
use rust_proof.U64.{u64_limit, wrapping_add, wrapping_sub, wrapping_add-exact, wrapping_sub-exact}
use rust_proof.BTreeMap.{BTreeMap, IsSorted, get_or, update}
use rust_proof.BTreeMap.Weight.{weight, weight-update, weight-get_or, weight-remove}
use rust_proof.Core.Crypto.{Crypto, VerifyingKey, verifying_key_to_bytes}
use rust_proof.Core.Models.{
  Transaction, TransactionData, SlashProof, transfer, stake, unstake, slash,
}
use rust_proof.Core.Transaction
use rust_proof.Core.Slashing
use rust_proof.Core.Slashing.{validate}
use rust_proof.Core.State.{
  State, UnstakeRequest, get_balance, payload_allowed, is_valid_tx, apply_slash, apply_payload,
  apply_tx,
}

abbrev pub coins : ℕ → ℕ
coins n = n

abbrev pub requested : List UnstakeRequest → ℕ
requested [] = 0
requested (r ∷ rs) = r.amount + requested rs

requested-append :
    (rs : List UnstakeRequest) (r : UnstakeRequest)
    → requested (rs ++ r ∷ []) ≡ requested rs + r.amount
requested-append [] r = omega arith
requested-append (q ∷ rs) r = omega (arith, requested-append rs r)

-- Every coin is a balance, a stake, or waits to be unlocked.
unfoldable pub supply : State → ℕ
supply s = weight coins s.balances + weight coins s.stakes + weight requested s.unstaking

-- What `BTreeMap` guarantees of the four maps.
pub record IsOrdered (s : State) : Type 0 where
  pub balances : IsSorted s.balances
  pub nonces : IsSorted s.nonces
  pub stakes : IsSorted s.stakes
  pub unstaking : IsSorted s.unstaking

-- Keys of 33 bytes and amounts of 64 bits, as the program's types have it.
abbrev pub InRange : BTreeMap ℕ → Type 0
InRange [] = Unit
InRange ((k, v) ∷ m) = (length k ≡ 33) × (suc v ≤ u64_limit) × InRange m

-- A debit that the balance covers and a credit that fits change the sum by the amount.
pub debit :
    (k : Bytes) (a : ℕ) (m : BTreeMap ℕ)
    → a ≤ get_or k 0 m
    → weight coins m < u64_limit
    → weight coins (update k 0 (λ b. wrapping_sub b a) m) + a ≡ weight coins m
debit k a m h small =
    let room = weight-get_or coins k 0 m refl in
    omega (
      arith,
      weight-update coins k 0 (λ b. wrapping_sub b a) m refl,
      wrapping_sub-exact (get_or k 0 m) a (omega (arith, room)) h,
      room,
    )

pub credit :
    (k : Bytes) (a : ℕ) (m : BTreeMap ℕ)
    → weight coins m + a < u64_limit
    → weight coins (update k 0 (λ b. wrapping_add b a) m) ≡ weight coins m + a
credit k a m small =
    let room = weight-get_or coins k 0 m refl in
    omega (
      arith,
      weight-update coins k 0 (λ b. wrapping_add b a) m refl,
      wrapping_add-exact (get_or k 0 m) a (omega (arith, room)),
      room,
    )

lock :
    (k : Bytes) (r : UnstakeRequest) (m : BTreeMap (List UnstakeRequest))
    → weight requested (update k [] (λ rs. rs ++ r ∷ []) m) ≡ weight requested m + r.amount
lock k r m = omega (
  arith,
  weight-update requested k [] (λ rs. rs ++ r ∷ []) m refl,
  requested-append (get_or k [] m) r,
)

module _ ⦃c : Crypto⦄ where
  -- What a slashed validator had at stake or waiting.
  unfoldable pub at_stake : State → VerifyingKey → ℕ
  at_stake s v =
      get_or (verifying_key_to_bytes v) 0 s.stakes
      + requested (get_or (verifying_key_to_bytes v) [] s.unstaking)

  -- An accepted proof burns all that its validator has at stake or waiting, and nothing else.
  pub supply-apply_slash :
      (s s' : State) (p : SlashProof)
      → apply_slash s p ≡ ok s'
      → supply s' + at_stake s (Slashing.validator p) ≡ supply s
  unfolding supply apply_slash at_stake
  supply-apply_slash s s' p h =
      let key = verifying_key_to_bytes (Slashing.validator p) in
      ground (
        arith,
        weight-remove coins key 0 s.stakes refl,
        weight-remove requested key [] s.unstaking refl,
      )

  -- The coins that the kind of transaction burns: only a slash burns any.
  abbrev pub burned : State → TransactionData → ℕ
  burned s (slash p) = elim (validate p) [ ok _ ↦ at_stake s (Slashing.validator p) | _ ↦ 0 ]
  burned s _ = 0

  supply-slash :
      (s : State) (key : Bytes) (p : SlashProof) (slot : ℕ)
      → supply (apply_payload s key (slash p) slot) + burned s (slash p) ≡ supply s
  unfolding supply apply_payload apply_slash at_stake
  supply-slash s key p slot =
      let k = verifying_key_to_bytes (Slashing.validator p) in
      ground (
        arith,
        weight-remove coins k 0 s.stakes refl,
        weight-remove requested k [] s.unstaking refl,
      )

  supply-apply_payload :
      (s : State) (k : VerifyingKey) (d : TransactionData) (slot : ℕ)
      → payload_allowed s k d ≡ true
      → supply s < u64_limit
      → supply (apply_payload s (verifying_key_to_bytes k) d slot) + burned s d ≡ supply s
  unfolding supply apply_payload payload_allowed get_balance
  supply-apply_payload s k (transfer r a) slot h small =
      let key = verifying_key_to_bytes k in
      let paid = update key 0 (λ b. wrapping_sub b a) s.balances in
      ground (
        arith,
        debit key a s.balances (ground arith) (omega arith),
        credit (verifying_key_to_bytes r) a paid,
      )
  supply-apply_payload s k (stake a) slot h small =
      let key = verifying_key_to_bytes k in
      ground (
        arith,
        weight-get_or coins key 0 s.balances refl,
        debit key a s.balances (ground arith) (omega arith),
        credit key a s.stakes,
      )
  supply-apply_payload s k (unstake a) slot h small =
      let key = verifying_key_to_bytes k in
      ground (
        arith,
        debit key a s.stakes (ground arith) (omega arith),
        lock key (record { amount = a; unlock_slot = wrapping_add slot 64 }) s.unstaking,
      )
  supply-apply_payload s k (slash p) slot h small = supply-slash s (verifying_key_to_bytes k) p slot

  -- A transaction that the checks accept conserves the coins, except those that a slash burns, if
  -- there are fewer than 2^64 of them: no balance, stake or sum wraps around.
  pub supply-apply_tx :
      (s : State) (tx : Transaction) (slot : ℕ)
      → is_valid_tx s tx ≡ true
      → supply s < u64_limit
      → supply (apply_tx s tx slot) + burned s (Transaction.payload tx) ≡ supply s
  unfolding is_valid_tx apply_tx supply
  supply-apply_tx s tx slot h small =
      supply-apply_payload s (Transaction.sender tx) (Transaction.payload tx) slot (ground arith)
        small
