-- ===== src/Core/State/Accounts.antt =====
-- rp-core/src/state.rs: what `apply_tx` does to each account.
use rust_proof.Base.{
  ℕ, ◌+◌, ◌<◌, ◌≡◌, refl, Bytes, [], arith, true, false, ok, eq_bytes, if◌then◌else◌,
}
use rust_proof.U64.{u64_limit, wrapping_add, wrapping_sub, wrapping_add-exact, wrapping_sub-exact}
use rust_proof.BTreeMap.{BTreeMap, get_or, update}
use rust_proof.BTreeMap.Laws.{update-IsSorted, remove-IsSorted, get_or-insert}
use rust_proof.Core.Crypto.{
  Crypto, VerifyingKey, verifying_key_to_bytes, eq_key, eq_bytes-verifying_key_to_bytes,
}
use rust_proof.Core.Models.{
  Transaction, TransactionData, SlashProof, transfer, stake, unstake, slash,
}
use rust_proof.Core.Transaction
use rust_proof.Core.Slashing
use rust_proof.Core.State.{
  State, get_balance, get_nonce, payload_allowed, is_valid_tx, apply_slash, apply_payload, apply_tx,
}
use rust_proof.BTreeMap.Weight.{weight-get_or}
use rust_proof.Core.State.Supply.{IsOrdered, supply, coins, debit}

module _ {V : Type 0} where
  pub get_or-update :
      (k i : Bytes) (d : V) (f : V → V) (m : BTreeMap V)
      → get_or i d (update k d f m) ≡ (if eq_bytes i k then f (get_or k d m) else get_or i d m)
  unfolding update
  get_or-update k i d f m = get_or-insert k i (f (get_or k d m)) d m

module _ ⦃c : Crypto⦄ where
  apply_slash-IsOrdered :
      (s s' : State) (p : SlashProof) → apply_slash s p ≡ ok s' → IsOrdered s → IsOrdered s'
  unfolding apply_slash
  apply_slash-IsOrdered s s' p h o =
      let key = verifying_key_to_bytes (Slashing.validator p) in
      ground (arith, remove-IsSorted key s.stakes, remove-IsSorted key s.unstaking)

  slash_payload-IsOrdered :
      (s : State) (key : Bytes) (p : SlashProof) (slot : ℕ)
      → IsOrdered s
      → IsOrdered (apply_payload s key (slash p) slot)
  unfolding apply_payload apply_slash
  slash_payload-IsOrdered s key p slot o =
      let k = verifying_key_to_bytes (Slashing.validator p) in
      ground (arith, remove-IsSorted k s.stakes, remove-IsSorted k s.unstaking)

  apply_payload-IsOrdered :
      (s : State) (key : Bytes) (d : TransactionData) (slot : ℕ)
      → IsOrdered s
      → IsOrdered (apply_payload s key d slot)
  unfolding apply_payload
  apply_payload-IsOrdered s key (transfer r a) slot o = record {
    balances = update-IsSorted _ 0 _ _ (update-IsSorted key 0 _ s.balances o.balances);
    nonces = o.nonces;
    stakes = o.stakes;
    unstaking = o.unstaking;
  }
  apply_payload-IsOrdered s key (stake a) slot o = record {
    balances = update-IsSorted key 0 _ s.balances o.balances;
    nonces = o.nonces;
    stakes = update-IsSorted key 0 _ s.stakes o.stakes;
    unstaking = o.unstaking;
  }
  apply_payload-IsOrdered s key (unstake a) slot o = record {
    balances = o.balances;
    nonces = o.nonces;
    stakes = update-IsSorted key 0 _ s.stakes o.stakes;
    unstaking = update-IsSorted key [] _ s.unstaking o.unstaking;
  }
  apply_payload-IsOrdered s key (slash p) slot o = slash_payload-IsOrdered s key p slot o

  -- Applying a transaction, valid or not, keeps the four maps in order.
  pub apply_tx-IsOrdered :
      (s : State) (tx : Transaction) (slot : ℕ) → IsOrdered s → IsOrdered (apply_tx s tx slot)
  unfolding apply_tx
  apply_tx-IsOrdered s tx slot o =
      let key = verifying_key_to_bytes (Transaction.sender tx) in
      let paid = apply_payload-IsOrdered s key (Transaction.payload tx) slot o in
      record {
        balances = paid.balances;
        nonces = update-IsSorted key 0 _ _ paid.nonces;
        stakes = paid.stakes;
        unstaking = paid.unstaking;
      }

  nonces-apply_payload :
      (s : State) (key : Bytes) (d : TransactionData) (slot : ℕ)
      → (apply_payload s key d slot).nonces ≡ s.nonces
  unfolding apply_payload apply_slash
  nonces-apply_payload s key (transfer r a) slot = refl
  nonces-apply_payload s key (stake a) slot = refl
  nonces-apply_payload s key (unstake a) slot = refl
  nonces-apply_payload s key (slash p) slot = ground arith

  -- The sequence number of the sender goes up by one, modulo 2^64, and no other changes.
  pub get_nonce-apply_tx :
      (s : State) (tx : Transaction) (slot : ℕ) (k : VerifyingKey)
      → get_nonce (apply_tx s tx slot) k ≡ (
          if eq_key k (Transaction.sender tx)
          then wrapping_add (get_nonce s (Transaction.sender tx)) 1
          else get_nonce s k)
  unfolding apply_tx get_nonce
  get_nonce-apply_tx s tx slot k =
      let key = verifying_key_to_bytes (Transaction.sender tx) in
      rw (
        get_or-update key (verifying_key_to_bytes k) 0 (λ n. wrapping_add n 1)
            (apply_payload s key (Transaction.payload tx) slot).nonces,
        nonces-apply_payload s key (Transaction.payload tx) slot,
        eq_bytes-verifying_key_to_bytes k (Transaction.sender tx),
      )

  -- A valid transaction is refused in the state behind it: it cannot be replayed there.
  pub is_valid_tx-apply_tx :
      (s : State) (tx : Transaction) (slot : ℕ)
      → is_valid_tx s tx ≡ true
      → is_valid_tx (apply_tx s tx slot) tx ≡ false
  unfolding is_valid_tx wrapping_add
  is_valid_tx-apply_tx s tx slot h = ground (
    arith,
    get_nonce-apply_tx s tx slot (Transaction.sender tx),
    c.eq_key_iff (Transaction.sender tx) (Transaction.sender tx),
  )

  -- What the kind of transaction takes from the balance of an account, and adds to it.
  abbrev pub paid_by : VerifyingKey → TransactionData → VerifyingKey → ℕ
  paid_by sender (transfer r a) i = if eq_key i sender then a else 0
  paid_by sender (stake a) i = if eq_key i sender then a else 0
  paid_by sender _ i = 0

  abbrev pub paid_to : TransactionData → VerifyingKey → ℕ
  paid_to (transfer r a) i = if eq_key i r then a else 0
  paid_to _ i = 0

  balance_of_payload :
      (s : State) (k : VerifyingKey) (d : TransactionData) (slot : ℕ) (i : VerifyingKey)
      → payload_allowed s k d ≡ true
      → supply s < u64_limit
      → get_balance (apply_payload s (verifying_key_to_bytes k) d slot) i + paid_by k d i
        ≡ get_balance s i + paid_to d i
  unfolding apply_payload apply_slash payload_allowed get_balance supply
  balance_of_payload s k (transfer r a) slot i h small =
      let key = verifying_key_to_bytes k in
      let sub = λ (b : ℕ). wrapping_sub b a in
      let add = λ (b : ℕ). wrapping_add b a in
      let paid = update key 0 sub s.balances in
      let dst = verifying_key_to_bytes r in
      let at = verifying_key_to_bytes i in
      ground (
        arith,
        get_or-update dst at 0 add paid,
        get_or-update key at 0 sub s.balances,
        get_or-update key dst 0 sub s.balances,
        eq_bytes-verifying_key_to_bytes i r,
        eq_bytes-verifying_key_to_bytes i k,
        eq_bytes-verifying_key_to_bytes r k,
        c.eq_key_iff i r,
        c.eq_key_iff i k,
        c.eq_key_iff r k,
        weight-get_or coins key 0 s.balances refl,
        weight-get_or coins dst 0 paid refl,
        debit key a s.balances (ground arith) (omega arith),
        wrapping_add-exact (get_or dst 0 paid) a,
        wrapping_sub-exact (get_or key 0 s.balances) a,
      )
  balance_of_payload s k (stake a) slot i h small =
      let key = verifying_key_to_bytes k in
      ground (
        arith,
        get_or-update key (verifying_key_to_bytes i) 0 (λ b. wrapping_sub b a) s.balances,
        eq_bytes-verifying_key_to_bytes i k,
        c.eq_key_iff i k,
        weight-get_or coins key 0 s.balances refl,
        wrapping_sub-exact (get_or key 0 s.balances) a,
      )
  balance_of_payload s k (unstake a) slot i h small = refl
  balance_of_payload s k (slash p) slot i h small = ground arith

  -- An accepted transaction moves exactly its amount, if there are fewer than 2^64 coins: every
  -- balance changes by what the account pays and is paid, also when the sender is the receiver.
  -- The fee is neither charged nor paid.
  pub get_balance-apply_tx :
      (s : State) (tx : Transaction) (slot : ℕ) (i : VerifyingKey)
      → is_valid_tx s tx ≡ true
      → supply s < u64_limit
      → get_balance (apply_tx s tx slot) i
          + paid_by (Transaction.sender tx) (Transaction.payload tx) i
        ≡ get_balance s i + paid_to (Transaction.payload tx) i
  unfolding is_valid_tx apply_tx get_balance
  get_balance-apply_tx s tx slot i h small =
      balance_of_payload s (Transaction.sender tx) (Transaction.payload tx) slot i (ground arith)
        small
