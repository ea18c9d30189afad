-- ===== src/Core/Blockchain/Fork.antt =====
-- rp-core/src/blockchain.rs: `should_replace_head` as a relation between blocks with their hashes.
use rust_proof.Base.{
  ◌≡◌, ◌⊎◌, true, false, Bytes, arith, cmp_bytes_refl, cmp_bytes-swap, cmp_bytes_trans,
  cmp_bytes-eq, ◌≢◌,
}
use rust_proof.Core.Crypto.{Crypto}
use rust_proof.Core.Models.{Block}
use rust_proof.Core.Blockchain.{should_replace_head}

module _ ⦃c : Crypto⦄ where
  -- A head never replaces itself.
  pub should_replace_head_irrefl : (b : Block) (h : Bytes) → should_replace_head h b b h ≡ false
  unfolding should_replace_head
  should_replace_head_irrefl b h = ground (arith, cmp_bytes_refl h)

  -- Of two blocks with different hashes exactly one replaces the other.
  pub should_replace_head_total :
      (a b : Block) (ha hb : Bytes)
      → ha ≢ hb
      → ((should_replace_head ha a b hb ≡ true) × (should_replace_head hb b a ha ≡ false))
        ⊎ ((should_replace_head ha a b hb ≡ false) × (should_replace_head hb b a ha ≡ true))
  unfolding should_replace_head
  should_replace_head_total a b ha hb ne = ground (arith, cmp_bytes-swap ha hb, cmp_bytes-eq ha hb)

  -- If one head replaces a second, and that a third, then the first replaces the third.
  pub should_replace_head_trans :
      (a b d : Block) (ha hb hd : Bytes)
      → should_replace_head ha a b hb ≡ true
      → should_replace_head hb b d hd ≡ true
      → should_replace_head ha a d hd ≡ true
  unfolding should_replace_head
  should_replace_head_trans a b d ha hb hd p q = ground (
    arith,
    cmp_bytes-swap ha hb,
    cmp_bytes-swap hb hd,
    cmp_bytes-swap ha hd,
    cmp_bytes_trans hd hb ha,
  )
