-- ===== src/Core/State/Election.antt =====
-- rp-core/src/state.rs: `get_expected_validator`, the validator that a stake-weighted lottery picks.
use rust_proof.Base.{
  ℕ, ◌+◌, ◌%◌, ◌≤◌, ◌<◌, ◌≡◌, ◌≢◌, ◌↔◌, refl, ap, List, [], ◌∷◌, ◌++◌, Option, none, some, arith,
  ltb, ◌==◌, if◌then◌else◌, Bool-cases, inl, inr,
}
use rust_proof.U64.{u64_limit, wrapping_add, wrapping_add-exact}
use rust_proof.BTreeMap.{BTreeMap}
use rust_proof.Core.Crypto.{Crypto, VerifyingKey, verifying_key_from_bytes}
use rust_proof.Core.State.{State}

module _ ⦃c : Crypto⦄ where
  -- The stakes under keys that decode.
  unfoldable pub valid_stakes : BTreeMap ℕ → List (ℕ × VerifyingKey)
  valid_stakes [] = []
  valid_stakes ((key_bytes, stake) ∷ m) =
      let rest = valid_stakes m in
      elim (verifying_key_from_bytes key_bytes) [
        | none ↦ rest
        | some verifying_key ↦ (stake, verifying_key) ∷ rest
      ]

  -- `.sum()`
  unfoldable pub sum_stakes : ℕ → List (ℕ × VerifyingKey) → ℕ
  sum_stakes acc [] = acc
  sum_stakes acc ((stake, v) ∷ rest) = sum_stakes (wrapping_add acc stake) rest

  -- The loop over the stakes.
  unfoldable pub draw : ℕ → ℕ → List (ℕ × VerifyingKey) → Option VerifyingKey
  draw winning_ticket cumulative [] = none
  draw winning_ticket cumulative ((stake, v) ∷ rest) =
      let cumulative' = wrapping_add cumulative stake in
      if ltb winning_ticket cumulative' then some v else draw winning_ticket cumulative' rest

  -- The part of `get_expected_validator` behind the collected stakes.
  unfoldable pub lottery : List (ℕ × VerifyingKey) → ℕ → Option VerifyingKey
  unfolding sum_stakes draw
  lottery stakes next_block_height =
      let total_stake = sum_stakes 0 stakes in
      if total_stake == 0 then none else draw (next_block_height % total_stake) 0 stakes

  unfoldable pub get_expected_validator : State → ℕ → Option VerifyingKey
  unfolding lottery
  get_expected_validator s next_block_height = elim s.stakes [
    | [] ↦ none
    | e ∷ m ↦ lottery (valid_stakes (e ∷ m)) next_block_height
  ]

  -- The stake in the lottery, as an exact sum.
  abbrev pub stake_total : List (ℕ × VerifyingKey) → ℕ
  stake_total [] = 0
  stake_total ((stake, v) ∷ rest) = stake + stake_total rest

  sum_stakes-exact :
      (acc : ℕ) (l : List (ℕ × VerifyingKey))
      → acc + stake_total l < u64_limit
      → sum_stakes acc l ≡ acc + stake_total l
  unfolding sum_stakes
  sum_stakes-exact acc [] h = omega arith
  sum_stakes-exact acc ((n, v) ∷ l) h =
      let e = wrapping_add-exact acc n (omega arith) in
      omega (arith, sum_stakes-exact (wrapping_add acc n) l (omega (arith, e)), e)

  draw-ne-none :
      (t acc : ℕ) (l : List (ℕ × VerifyingKey))
      → acc + stake_total l < u64_limit
      → t < acc + stake_total l
      → acc ≤ t
      → draw t acc l ≢ none
  unfolding draw
  draw-ne-none t acc [] h lt le = absurd (omega arith)
  draw-ne-none t acc ((n, v) ∷ l) h lt le =
      let e = wrapping_add-exact acc n (omega arith) in
      ground (arith, e, draw-ne-none t (wrapping_add acc n) l)

  draw-hit :
      (t acc : ℕ) (before : List (ℕ × VerifyingKey)) (n : ℕ) (v : VerifyingKey)
      (after : List (ℕ × VerifyingKey))
      → acc + stake_total (before ++ (n, v) ∷ after) < u64_limit
      → acc + stake_total before ≤ t
      → t < acc + stake_total before + n
      → draw t acc (before ++ (n, v) ∷ after) ≡ some v
  unfolding draw
  draw-hit t acc [] n v after h le lt =
      let e = wrapping_add-exact acc n (omega arith) in ground (arith, e)
  draw-hit t acc ((m, w) ∷ before) n v after h le lt =
      let e = wrapping_add-exact acc m (omega arith) in
      ground (arith, e, draw-hit t (wrapping_add acc m) before n v after)

  stake_total-ge :
      (before : List (ℕ × VerifyingKey)) (n : ℕ) (v : VerifyingKey)
      (after : List (ℕ × VerifyingKey))
      → n ≤ stake_total (before ++ (n, v) ∷ after)
  stake_total-ge [] n v after = omega arith
  stake_total-ge ((m, w) ∷ before) n v after = omega (arith, stake_total-ge before n v after)

  -- The test for no stakes is one that the total of 0 makes again.
  lottery-get_expected_validator :
      (s : State) (h : ℕ) → get_expected_validator s h ≡ lottery (valid_stakes s.stakes) h
  unfolding get_expected_validator valid_stakes
  lottery-get_expected_validator s h = by_stakes s.stakes
    where
      by_stakes :
          (m : BTreeMap ℕ)
          → (elim m [ [] ↦ none | e ∷ m' ↦ lottery (valid_stakes (e ∷ m')) h ])
            ≡ lottery (valid_stakes m) h
      by_stakes [] = refl
      by_stakes (e ∷ m) = refl

  lottery-none_iff :
      (l : List (ℕ × VerifyingKey)) (h : ℕ)
      → stake_total l < u64_limit
      → (lottery l h ≡ none) ↔ (stake_total l ≡ 0)
  unfolding lottery
  lottery-none_iff l h small =
      let e = sum_stakes-exact 0 l (omega arith) in
      (
        λ none_drawn. elim (Bool-cases (sum_stakes 0 l == 0)) [
          | inl z ↦ ground (arith, e)
          | inr nz ↦ absurd (
              draw-ne-none (h % sum_stakes 0 l) 0 l (omega arith) (ground (arith, e)) (omega arith)
                (ground (arith, e)))
        ],
        λ z. ground (arith, e),
      )

  -- If the stakes under keys that decode sum to less than 2^64, then there is no expected
  -- validator exactly if that sum is 0.
  pub get_expected_validator-none_iff :
      (s : State) (h : ℕ)
      → stake_total (valid_stakes s.stakes) < u64_limit
      → (get_expected_validator s h ≡ none) ↔ (stake_total (valid_stakes s.stakes) ≡ 0)
  get_expected_validator-none_iff s h small =
      rw (lottery-get_expected_validator s h) (lottery-none_iff (valid_stakes s.stakes) h small)

  -- If the stakes under keys that decode sum to less than 2^64, then each unit of stake owns one
  -- ticket: the validator whose stake stands behind the stakes `before` in the list is expected at
  -- the heights that are, modulo the sum, at least the sum of `before`, and less than that and its
  -- own stake.
  pub get_expected_validator-eq :
      (s : State) (h : ℕ) (before : List (ℕ × VerifyingKey)) (n : ℕ) (v : VerifyingKey)
      (after : List (ℕ × VerifyingKey))
      → valid_stakes s.stakes ≡ before ++ (n, v) ∷ after
      → stake_total (valid_stakes s.stakes) < u64_limit
      → stake_total before ≤ h % stake_total (valid_stakes s.stakes)
      → h % stake_total (valid_stakes s.stakes) < stake_total before + n
      → get_expected_validator s h ≡ some v
  unfolding lottery
  get_expected_validator-eq s h before n v after e small le lt =
      let l = valid_stakes s.stakes in
      let sum = sum_stakes-exact 0 l (omega arith) in
      let drawn =
        draw-hit (h % stake_total l) 0 before n v after (omega (arith, ap stake_total e))
          (omega arith) (omega arith) in
      ground (
        arith,
        lottery-get_expected_validator s h,
        sum,
        ap stake_total e,
        stake_total-ge before n v after,
        rw (← e) at drawn,
      )
