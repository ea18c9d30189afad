-- ===== src/Core/Transaction/Order.antt =====
-- rp-core/src/models/transaction.rs: `Ord`, by falling fee and then by rising hash.
use rust_proof.Base.{
  ◌≡◌, ◌≤◌, arith, Ordering, swap, cmp_bytes_refl, cmp_bytes-swap, cmp_bytes_trans, cmp_bytes-eq,
}
use rust_proof.BTreeSet.{Ord}
use rust_proof.Core.Crypto.{Crypto}
use rust_proof.Core.Models.{Transaction}
use rust_proof.Core.Transaction.{cmp, fee, hash}

module _ ⦃c : Crypto⦄ where
  pub cmp_refl : (a : Transaction) → cmp a a ≡ Ordering.eq
  unfolding cmp
  cmp_refl a = ground (arith, cmp_bytes_refl (hash a))

  pub cmp-swap : (a b : Transaction) → cmp b a ≡ swap (cmp a b)
  unfolding cmp
  cmp-swap a b = ground (arith, cmp_bytes-swap (hash a) (hash b))

  pub cmp_trans :
      (a b d : Transaction) → cmp a b ≡ Ordering.lt → cmp b d ≡ Ordering.lt → cmp a d ≡ Ordering.lt
  unfolding cmp
  cmp_trans a b d h k = ground (arith, cmp_bytes_trans (hash a) (hash b) (hash d))

  -- Equal transactions have one fee and one hash.
  pub cmp-eq : (a b : Transaction) → cmp a b ≡ Ordering.eq → (fee a ≡ fee b) × (hash a ≡ hash b)
  unfolding cmp
  cmp-eq a b h = ground (arith, cmp_bytes-eq (hash a) (hash b))

  -- Who compares alike with one of two equal transactions compares alike with the other.
  pub cmp-cong : (a b d : Transaction) → cmp a b ≡ Ordering.eq → cmp a d ≡ cmp b d
  unfolding cmp
  cmp-cong a b d h = ground (arith, cmp_bytes-eq (hash a) (hash b))

  pub fee-le : (a b : Transaction) → cmp a b ≡ Ordering.lt → fee b ≤ fee a
  unfolding cmp
  fee-le a b h = ground arith

  instance abbrev pub transaction_ord : Ord Transaction
  transaction_ord = record {
    cmp = cmp;
    reflexive = cmp_refl;
    swapped = cmp-swap;
    transitive = cmp_trans;
    congruent = cmp-cong;
  }
