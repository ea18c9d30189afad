-- ===== src/Host/Storage/Restart.antt =====
-- rp-runtime/src/storage/manager.rs and rp-runtime/src/runtime/manager.rs: a node that stops and
-- starts again.
use rust_proof.Base.{
  ◌≡◌, ◌⊎◌, refl, sym, ap, ◌∙◌, inl, inr, Bool, true, some, List, [], ◌∷◌, append-nil, Bytes, ok,
  err, >>=-eq-ok, ok-injective, Outcome, map_err, eq_bytes_iff,
}
use rust_proof.Core.Crypto.{Crypto}
use rust_proof.Core.Models.{Block}
use rust_proof.Core.Block
use rust_proof.Core.State.{State}
use rust_proof.Core.State.Merkle.{compute_state_root}
use rust_proof.Core.State.Supply.{IsOrdered}
use rust_proof.Core.State.Codec.{to_bytes, from_bytes}
use rust_proof.Core.State.Codec.Roundtrip.{Fits, from_bytes-to_bytes}
use rust_proof.Node.Report.{startup_restored}
use rust_proof.Node.Network.{Postcard}
use rust_proof.Node.Blockchain.{rooted, restore_head}
use rust_proof.Node.Engine.{NodeEngine}
use rust_proof.Node.Engine.Step.{restore_latest_snapshot, reported}
use rust_proof.Host.Errors.{ContractError, storage, contract}
use rust_proof.Host.Contract.{
  RuntimeEvent, latest_snapshot_loaded, load_latest_snapshot, persist_block, persist_snapshot,
}
use rust_proof.Host.Nodes.{take_event}
use rust_proof.Host.Storage.{Sled, BlockCodec, save_block, save_snapshot, storage_turn}
use rust_proof.Host.Storage.Saved.{load_latest_snapshot_bundle-saved}

map_err_ok :
    {A : Type 0} (call : Outcome ContractError A) (value : A)
    → map_err contract call ≡ ok value
    → call ≡ ok value
map_err_ok (ok x) value h = ap ok (ok-injective h)
map_err_ok (err why) value h = absurd cc
map_err_ok Outcome.panic value h = absurd cc

module _ ⦃c : Crypto⦄ ⦃p : Postcard⦄ where
  -- The engine takes a snapshot of a state with the state root of its block.
  take_event-restores :
      (e : NodeEngine) (b : Block) (s : State)
      → IsOrdered s
      → Fits s
      → Block.state_root b ≡ compute_state_root s
      → take_event e (latest_snapshot_loaded (some b) (some (to_bytes s)))
        ≡ ok (record e { blockchain = rooted b s }, reported startup_restored)
  unfolding take_event restore_latest_snapshot restore_head
  take_event-restores e b s ordered fits root =
      let read : from_bytes (to_bytes s) ≡ ok s =
        ap from_bytes (sym (append-nil (to_bytes s))) ∙ from_bytes-to_bytes s [] ordered fits in
      rw
        (
          read,
          (eq_bytes_iff (Block.state_root b) (compute_state_root s)).1 root,
          restore_latest_snapshot,
        )
        refl

module _ ⦃c : Crypto⦄ ⦃p : Postcard⦄ ⦃d : Sled⦄ ⦃k : BlockCodec⦄ where
  persist_block-save_block :
      (is_open : Bool) (db db' : d.Db) (b : Block)
      → storage_turn is_open db (persist_block b) ≡ ok (db', [])
      → save_block db b ≡ ok db'
  unfolding storage_turn
  persist_block-save_block is_open db db' b h =
      let (x, called, go) = >>=-eq-ok (map_err contract (save_block db b)) _ h in
      map_err_ok (save_block db b) x called
      ∙ ap (λ (done : d.Db × List RuntimeEvent). ok done.0) (ok-injective go)

  persist_snapshot-save_snapshot :
      (is_open : Bool) (db db' : d.Db) (block_hash state_bytes : Bytes)
      → storage_turn is_open db (persist_snapshot block_hash state_bytes) ≡ ok (db', [])
      → save_snapshot db block_hash state_bytes ≡ ok db'
  unfolding storage_turn
  persist_snapshot-save_snapshot is_open db db' block_hash state_bytes h =
      let (x, called, go) =
        >>=-eq-ok (map_err contract (save_snapshot db block_hash state_bytes)) _ h in
      map_err_ok (save_snapshot db block_hash state_bytes) x called
      ∙ ap (λ (done : d.Db × List RuntimeEvent). ok done.0) (ok-injective go)

  -- Let the storage manager have carried out the two commands for an imported block and the state
  -- behind it, where the block has the root of that state, and the state is in order and fits the
  -- types of the program. When it is asked for the latest snapshot at the next start, it either
  -- reports that the storage has failed, or tells an event from which any engine restores exactly
  -- that block and that state.
  pub storage_turn-restores :
      (is_open : Bool) (db db1 db2 : d.Db) (e : NodeEngine) (b : Block) (s : State)
      → storage_turn is_open db (persist_block b) ≡ ok (db1, [])
      → storage_turn is_open db1 (persist_snapshot (Block.hash b) (to_bytes s)) ≡ ok (db2, [])
      → IsOrdered s
      → Fits s
      → Block.state_root b ≡ compute_state_root s
      → (storage_turn true db2 load_latest_snapshot ≡ err (contract storage))
        ⊎ ((event : RuntimeEvent) × (storage_turn true db2 load_latest_snapshot
              ≡ ok (db2, event ∷ []))
            × (take_event e event
                ≡ ok (record e { blockchain = rooted b s }, reported startup_restored)))
  unfolding storage_turn
  storage_turn-restores is_open db db1 db2 e b s saved snapped ordered fits root =
      let at_blocks = persist_block-save_block is_open db db1 b saved in
      let at_snapshots =
        persist_snapshot-save_snapshot is_open db1 db2 (Block.hash b) (to_bytes s) snapped in
      elim (load_latest_snapshot_bundle-saved db db1 db2 b (to_bytes s) at_blocks at_snapshots) [
        | inr failed ↦ inl (rw failed refl)
        | inl loaded ↦ inr (
          latest_snapshot_loaded (some b) (some (to_bytes s)),
          rw loaded refl,
          take_event-restores e b s ordered fits root,
        )
      ]
