-- ===== src/Core/Blockchain/Accept.antt =====
-- rp-core/src/blockchain.rs: the blocks that `validate_and_apply_block` accepts.
use rust_proof.Base.{
  ℕ, ◌≤◌, ◌<◌, ◌≡◌, ◌↔◌, List, [], ◌∷◌, arith, true, ok, eq_bytes_iff, some, inl, inr,
  Outcome-cases, Option-cases, Bool-cases,
}
use rust_proof.U64.{u64_limit, wrapping_add}
use rust_proof.Core.Crypto.{Crypto, VerifyingKey, verifying_key_to_bytes}
use rust_proof.Core.Models.{Block, Transaction, SlashProof}
use rust_proof.Core.Block
use rust_proof.Core.Transaction
use rust_proof.Core.Slashing
use rust_proof.Core.Slashing.{validate}
use rust_proof.BTreeMap
use rust_proof.Core.State.{State, apply_tx, apply_slash, is_valid_tx, payload_allowed, get_nonce}
use rust_proof.Core.State.Merkle.{compute_state_root}
use rust_proof.Core.State.Election.{get_expected_validator}
use rust_proof.Core.State.Supply.{supply, supply-apply_tx, supply-apply_slash}
use rust_proof.Core.Blockchain.{
  apply_transactions, apply_slashes, check_validator, validate_and_apply_block,
}

module _ ⦃c : Crypto⦄ where
  -- A transaction that may stand next in a block on top of the state: its sender can afford it, its
  -- sequence number is the sender's next one, and it is signed.
  pub record IsPayable (s : State) (tx : Transaction) : Type 0 where
    pub affordable : payload_allowed s (Transaction.sender tx) (Transaction.payload tx) ≡ true
    pub next_sequence : Transaction.sequence tx ≡ get_nonce s (Transaction.sender tx)
    pub signed : Transaction.is_valid tx ≡ true

  -- Each transaction is payable where those before it have been applied, and all lead to `next`.
  abbrev pub ArePaid : State → List Transaction → ℕ → State → Type 0
  ArePaid s [] slot next = s ≡ next
  ArePaid s (tx ∷ txs) slot next = IsPayable s tx × ArePaid (apply_tx s tx slot) txs slot next

  abbrev pub slashed : State → SlashProof → State
  slashed s proof = record s {
    stakes = BTreeMap.remove (verifying_key_to_bytes (Slashing.validator proof)) s.stakes;
    unstaking = BTreeMap.remove (verifying_key_to_bytes (Slashing.validator proof)) s.unstaking;
  }

  -- Each proof shows its validator's equivocation, whose stake and waiting funds are taken.
  abbrev pub AreSlashed : State → List SlashProof → State → Type 0
  AreSlashed s [] next = s ≡ next
  AreSlashed s (proof ∷ proofs) next =
      (validate proof ≡ ok tt) × AreSlashed (slashed s proof) proofs next

  -- The rules, one field for each check.
  pub record IsAccepted (parent_block : Block) (parent_state : State) (b : Block) (next : State)
      : Type 0 where
    pub signed : Block.is_valid b ≡ true
    pub height : Block.height b ≡ wrapping_add (Block.height parent_block) 1
    pub slot : Block.slot parent_block < Block.slot b
    pub elected :
        (v : VerifyingKey)
        → get_expected_validator parent_state (Block.height b) ≡ some v
        → Block.validator b ≡ v
    pub paid : State
    pub transactions : ArePaid parent_state (Block.transactions b) (Block.slot b) paid
    pub slashes : AreSlashed paid (Block.slash_proofs b) next
    pub state_root : Block.state_root b ≡ compute_state_root next

  is_valid_tx-IsPayable :
      (s : State) (tx : Transaction) → (is_valid_tx s tx ≡ true) ↔ IsPayable s tx
  unfolding is_valid_tx
  is_valid_tx-IsPayable s tx = (
    λ h. record { affordable = ground arith; next_sequence = ground arith; signed = ground arith },
    λ i. ground (arith, i.affordable, i.next_sequence, i.signed),
  )

  apply_transactions_iff :
      (s next : State) (txs : List Transaction) (slot : ℕ)
      → (apply_transactions s txs slot ≡ ok next) ↔ ArePaid s txs slot next
  unfolding apply_transactions
  apply_transactions_iff s next [] slot = (λ h. cc, λ h. cc)
  apply_transactions_iff s next (tx ∷ txs) slot =
      let payable = is_valid_tx-IsPayable s tx in
      let rest = apply_transactions_iff (apply_tx s tx slot) next txs slot in
      elim (Bool-cases (is_valid_tx s tx)) [
        | inl q ↦ (
          λ h. (payable.0 q, rest.0 (rw (q, apply_transactions) at h)),
          λ a. rw (q, apply_transactions) (rest.1 a.1),
        )
        | inr q ↦
            (λ h. absurd (ground (arith, q, h)), λ a. absurd (ground (arith, q, payable.1 a.0)))
      ]

  apply_slashes_iff :
      (s next : State) (proofs : List SlashProof)
      → (apply_slashes s proofs ≡ ok next) ↔ AreSlashed s proofs next
  unfolding apply_slashes apply_slash
  apply_slashes_iff s next [] = (λ h. cc, λ h. cc)
  apply_slashes_iff s next (proof ∷ proofs) =
      let rest = apply_slashes_iff (slashed s proof) next proofs in
      elim (Outcome-cases (validate proof)) [
        | inl (u, q) ↦ (
          λ h. (q, rest.0 (rw (q, apply_slashes, apply_slash) at h)),
          λ a. rw (q, apply_slashes, apply_slash) (rest.1 a.1),
        )
        | inr (inl (why, q)) ↦ (λ h. absurd (ground (arith, q, h)), λ a. absurd (cc (q, a.0)))
        | inr (inr q) ↦ (λ h. absurd (ground (arith, q, h)), λ a. absurd (cc (q, a.0)))
      ]

  check_validator_iff :
      (s : State) (b : Block)
      → (check_validator s b ≡ true) ↔ (
          (v : VerifyingKey)
          → get_expected_validator s (Block.height b) ≡ some v
          → Block.validator b ≡ v)
  unfolding check_validator
  check_validator_iff s b = elim (Option-cases (get_expected_validator s (Block.height b))) [
    | inl e ↦ (λ h v p. cc (e, p), λ h. rw (e, check_validator))
    | inr (w, e) ↦ (
      λ h v p. ground (arith, e, p, c.eq_key_iff (Block.validator b) w),
      λ h. rw (e, check_validator) ((c.eq_key_iff (Block.validator b) w).1 (h w e)),
    )
  ]

  accepted :
      (parent_block : Block) (parent_state : State) (b : Block) (next : State)
      → validate_and_apply_block parent_block parent_state b ≡ ok next
      → IsAccepted parent_block parent_state b next
  unfolding validate_and_apply_block
  accepted parent_block parent_state b next h =
      elim (Outcome-cases (apply_transactions parent_state (Block.transactions b) (Block.slot b))) [
        | inl (paid, e) ↦ record {
          signed = ground arith;
          height = ground arith;
          slot = ground arith;
          elected = (check_validator_iff parent_state b).0 (ground arith);
          paid = paid;
          transactions =
              (apply_transactions_iff parent_state paid (Block.transactions b) (Block.slot b)).0 e;
          slashes = (apply_slashes_iff paid next (Block.slash_proofs b)).0 (ground arith);
          state_root = ground (arith, eq_bytes_iff (Block.state_root b) (compute_state_root next));
        }
        | inr (inl (x, e)) ↦ absurd (ground arith)
        | inr (inr e) ↦ absurd (ground arith)
      ]

  -- A block is accepted, with this next state, exactly if it keeps all the rules: it is signed, has
  -- the next height and a later slot, and the elected validator if there is one; each of its
  -- transactions can be afforded, has the next sequence number and is signed, where those before it
  -- have been applied; each of its proofs shows an equivocation; and its state root is that of the
  -- next state, which the transactions and then the slashes lead to.
  pub validate_and_apply_block_iff :
      (parent_block : Block) (parent_state : State) (b : Block) (next : State)
      → (validate_and_apply_block parent_block parent_state b ≡ ok next)
        ↔ IsAccepted parent_block parent_state b next
  unfolding validate_and_apply_block
  validate_and_apply_block_iff parent_block parent_state b next = (
    λ h. accepted parent_block parent_state b next h,
    λ a. ground (
      arith,
      (check_validator_iff parent_state b).1 a.elected,
      (apply_transactions_iff parent_state a.paid (Block.transactions b) (Block.slot b)).1
          a.transactions,
      (apply_slashes_iff a.paid next (Block.slash_proofs b)).1 a.slashes,
      eq_bytes_iff (Block.state_root b) (compute_state_root next),
    ),
  )

  apply_transactions-supply :
      (s s' : State) (txs : List Transaction) (slot : ℕ)
      → apply_transactions s txs slot ≡ ok s'
      → supply s < u64_limit
      → supply s' ≤ supply s
  unfolding apply_transactions
  apply_transactions-supply s s' [] slot h small = ground arith
  apply_transactions-supply s s' (tx ∷ txs) slot h small =
      ground (
        arith,
        supply-apply_tx s tx slot,
        apply_transactions-supply (apply_tx s tx slot) s' txs slot,
      )

  first_slash :
      (s s' : State) (p : SlashProof) (ps : List SlashProof)
      → apply_slashes s (p ∷ ps) ≡ ok s'
      → (m : State) × (apply_slash s p ≡ ok m) × (apply_slashes m ps ≡ ok s')
  unfolding apply_slashes
  first_slash s s' p ps h = elim (Outcome-cases (apply_slash s p)) [
    | inl (m, e) ↦ (m, e, ground arith)
    | inr (inl (x, e)) ↦ absurd (ground arith)
    | inr (inr e) ↦ absurd (ground arith)
  ]

  apply_slashes-supply :
      (s s' : State) (proofs : List SlashProof)
      → apply_slashes s proofs ≡ ok s'
      → supply s' ≤ supply s
  unfolding apply_slashes
  apply_slashes-supply s s' [] h = ground arith
  apply_slashes-supply s s' (p ∷ ps) h =
      let (m, first, rest) = first_slash s s' p ps h in
      omega (arith, supply-apply_slash s m p first, apply_slashes-supply m s' ps rest)

  -- An accepted block makes no coins, if there are fewer than 2^64 of them before it.
  pub validate_and_apply_block-supply :
      (parent_block : Block) (parent_state : State) (b : Block) (next : State)
      → validate_and_apply_block parent_block parent_state b ≡ ok next
      → supply parent_state < u64_limit
      → supply next ≤ supply parent_state
  validate_and_apply_block-supply parent_block parent_state b next h small =
      let a = accepted parent_block parent_state b next h in
      omega (
        arith,
        apply_transactions-supply parent_state a.paid (Block.transactions b) (Block.slot b)
            ((apply_transactions_iff parent_state a.paid (Block.transactions b) (Block.slot b)).1
              a.transactions)
            small,
        apply_slashes-supply a.paid next (Block.slash_proofs b)
            ((apply_slashes_iff a.paid next (Block.slash_proofs b)).1 a.slashes),
      )
