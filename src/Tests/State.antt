-- ===== src/Tests/State.antt =====
-- States and snapshots at concrete inputs.
use rust_proof.Base.{
  ◌+◌, ◌<◌, ◌^◌, ◌≡◌, ◌↔◌, ◌⊎◌, refl, true, false, some, [], ◌∷◌, ◌++◌, arith, ok, panic, cmp_bytes,
}
use rust_proof.BTreeMap
use rust_proof.U64.{u64_limit, to_be_bytes}
use rust_proof.Core.Crypto.{verifying_key_to_bytes, verifying_key_from_bytes}
use rust_proof.Core.Transaction
use rust_proof.Core.Block
use rust_proof.Core.Models.{transaction_bytes, block_bytes}
use rust_proof.Core.Slashing.{validate, IsEquivocation}
use rust_proof.Core.Slashing.Equivocation.{validate_iff}
use rust_proof.Core.State.{
  State, is_valid_tx, apply_tx, get_nonce, payload_allowed, get_balance, apply_slash,
}
use rust_proof.Core.State.Supply.{
  supply, supply-apply_tx, supply-apply_slash, burned, at_stake, IsOrdered,
}
use rust_proof.Core.State.Accounts.{is_valid_tx-apply_tx, get_balance-apply_tx, paid_by, paid_to}
use rust_proof.Core.State.Election.{
  stake_total, get_expected_validator-none_iff, get_expected_validator-eq,
}
use rust_proof.Core.State.Election
use rust_proof.Core.State.Merkle.{compute_state_root}
use rust_proof.Core.State.Merkle.Binding.{compute_state_root-binding, Collision}
use rust_proof.Core.State.Codec.{from_bytes, to_bytes}
use rust_proof.Core.State.Codec.Roundtrip.{from_bytes-to_bytes, Fits}
use rust_proof.Core.State.Codec.Capacity.{announcing, from_bytes-announcing}
use rust_proof.Tests.Toy.{alice, bob, encode, toy}
use rust_proof.Tests.Data.{funded, payment, double_sign}

payment_valid : is_valid_tx funded payment ≡ true
unfolding is_valid_tx payload_allowed get_balance get_nonce Transaction.is_valid Transaction.hash
    transaction_bytes verifying_key_to_bytes BTreeMap.get_or BTreeMap.get cmp_bytes to_be_bytes
payment_valid = refl

supply-apply_tx_example :
    supply (apply_tx funded payment 1) + burned funded (Transaction.payload payment) ≡ supply funded
unfolding supply
supply-apply_tx_example = supply-apply_tx funded payment 1 payment_valid (omega arith)

get_balance-apply_tx_example :
    get_balance (apply_tx funded payment 1) bob + paid_by alice (Transaction.payload payment) bob
    ≡ get_balance funded bob + paid_to (Transaction.payload payment) bob
unfolding supply
get_balance-apply_tx_example = get_balance-apply_tx funded payment 1 bob payment_valid (omega arith)

is_valid_tx-apply_tx_example : is_valid_tx (apply_tx funded payment 1) payment ≡ false
is_valid_tx-apply_tx_example = is_valid_tx-apply_tx funded payment 1 payment_valid

pub funded-IsOrdered : IsOrdered funded
funded-IsOrdered = record { balances = (tt, tt); nonces = tt; stakes = (tt, tt); unstaking = tt }

abbrev slashed : State
slashed = record funded { stakes = [] }

double_sign_burns : apply_slash funded double_sign ≡ ok slashed
unfolding apply_slash validate Block.is_valid Block.hash block_bytes verifying_key_to_bytes
    BTreeMap.remove cmp_bytes to_be_bytes
double_sign_burns = refl

supply-apply_slash_example : supply slashed + at_stake funded alice ≡ supply funded
supply-apply_slash_example = supply-apply_slash funded slashed double_sign double_sign_burns

validate_iff_example : (validate double_sign ≡ ok tt) ↔ IsEquivocation double_sign
validate_iff_example = validate_iff double_sign

small_stakes : stake_total (Election.valid_stakes funded.stakes) < u64_limit
unfolding Election.valid_stakes verifying_key_from_bytes
small_stakes = omega arith

get_expected_validator-eq_example : Election.get_expected_validator funded 12 ≡ some alice
unfolding Election.valid_stakes verifying_key_from_bytes
get_expected_validator-eq_example =
    get_expected_validator-eq funded 12 [] 7 alice [] refl small_stakes (omega arith) (omega arith)

-- The root does not commit to the stakes.
abbrev unstaked : State
unstaked = record funded { stakes = [] }

same_root : compute_state_root funded ≡ compute_state_root unstaked
unfolding compute_state_root
same_root = refl

compute_state_root-binding_example : (funded.balances ≡ unstaked.balances) ⊎ Collision
compute_state_root-binding_example =
    compute_state_root-binding funded unstaked (tt, tt) (tt, tt) (refl, omega arith, tt)
      (refl, omega arith, tt) refl same_root

pub funded-Fits : Fits funded
funded-Fits = record {
  balances = ((refl, omega arith, tt), omega arith);
  nonces = (tt, omega arith);
  stakes = ((refl, omega arith, tt), omega arith);
  unstaking = (tt, omega arith);
}

from_bytes-to_bytes_example : from_bytes (to_bytes funded ++ 9 ∷ []) ≡ ok funded
from_bytes-to_bytes_example = from_bytes-to_bytes funded (9 ∷ []) funded-IsOrdered funded-Fits

from_bytes-announcing_example : from_bytes (announcing 0 (encode alice) (2 ^ 60) []) ≡ panic
from_bytes-announcing_example =
    from_bytes-announcing 0 (encode alice) (2 ^ 60) [] (omega arith) refl (omega arith)
      (omega arith)
