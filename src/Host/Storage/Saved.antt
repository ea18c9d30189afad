-- ===== src/Host/Storage/Saved.antt =====
-- rp-runtime/src/storage/manager.rs: what is loaded after it has been saved.
use rust_proof.Base.{
  ◌≡◌, ◌⊎◌, refl, sym, ap, subst, inl, inr, Option, none, some, Bytes, ok, err, >>=-eq-ok,
  ok-injective, arith, length, eq_bytes, eq_bytes_iff, Bool-cases,
}
use rust_proof.Core.Crypto.{Crypto}
use rust_proof.Core.Models.{Block}
use rust_proof.Core.Block
use rust_proof.Host.Errors.{storage}
use rust_proof.Host.Storage.{
  Tree, meta, blocks, snapshots, Sled, BlockCodec, map_storage_error, latest_snapshot_key, flush,
  save_snapshot, find_snapshot, save_block, load_block, checked, read_block,
  load_latest_snapshot_bundle,
}

module _ ⦃d : Sled⦄ where
  map_storage_error_ok :
      {A : Type 0} (found : Option A) (value : A)
      → map_storage_error found ≡ ok value
      → found ≡ some value
  unfolding map_storage_error
  map_storage_error_ok none value h = cc
  map_storage_error_ok (some x) value h = ap some (ok-injective h)

  flush_same : (db db' : d.Db) → flush db ≡ ok db' → db ≡ db'
  unfolding flush
  flush_same db db' h = ground (arith, h)

  -- A read, if it succeeds, finds the value.
  abbrev Finds : d.Db → Tree → Bytes → Bytes → Type 0
  Finds db tree key value = (d.get db tree key ≡ some (some value)) ⊎ (d.get db tree key ≡ none)

  save_snapshot-Finds :
      (db db' : d.Db) (block_hash state_bytes : Bytes)
      → save_snapshot db block_hash state_bytes ≡ ok db'
      → Finds db' snapshots block_hash state_bytes × Finds db' meta latest_snapshot_key block_hash
  unfolding save_snapshot
  save_snapshot-Finds db db' block_hash state_bytes h =
      let (db1, at_snapshots, go) = >>=-eq-ok (map_storage_error _) _ h in
      let (db2, at_meta, last) = >>=-eq-ok (map_storage_error _) _ go in
      let same : db2 ≡ db' = flush_same db2 db' last in
      let first = map_storage_error_ok _ db1 at_snapshots in
      let second = map_storage_error_ok _ db2 at_meta in
      let found = d.read_written db db1 snapshots block_hash state_bytes first in
      rw (sym same) (
        d.read_other_tree db1 db2 meta snapshots _ _ block_hash state_bytes second (λ e. cc) found,
        d.read_written db1 db2 meta latest_snapshot_key block_hash second,
      )

  -- A snapshot leaves the blocks.
  save_snapshot-blocks :
      (db db' : d.Db) (block_hash state_bytes key value : Bytes)
      → save_snapshot db block_hash state_bytes ≡ ok db'
      → Finds db blocks key value
      → Finds db' blocks key value
  unfolding save_snapshot
  save_snapshot-blocks db db' block_hash state_bytes key value h found =
      let (db1, at_snapshots, go) = >>=-eq-ok (map_storage_error _) _ h in
      let (db2, at_meta, last) = >>=-eq-ok (map_storage_error _) _ go in
      let same : db2 ≡ db' = flush_same db2 db' last in
      let first = map_storage_error_ok _ db1 at_snapshots in
      let second = map_storage_error_ok _ db2 at_meta in
      let kept = d.read_other_tree db db1 snapshots blocks _ _ key value first (λ e. cc) found in
      rw (sym same) (d.read_other_tree db1 db2 meta blocks _ _ key value second (λ e. cc) kept)

module _ ⦃c : Crypto⦄ ⦃d : Sled⦄ ⦃k : BlockCodec⦄ where
  hash-length : (b : Block) → length (Block.hash b) ≡ 32
  unfolding Block.hash
  hash-length b = c.length_digest _

  save_block-Finds :
      (db db' : d.Db) (b : Block)
      → save_block db b ≡ ok db'
      → (bytes : Bytes) × (k.to_allocvec b ≡ some bytes) × Finds db' blocks (Block.hash b) bytes
  unfolding save_block
  save_block-Finds db db' b h =
      let (bytes, encoded, go) = >>=-eq-ok (map_storage_error _) _ h in
      let (db1, at_blocks, last) = >>=-eq-ok (map_storage_error _) _ go in
      let same : db1 ≡ db' = flush_same db1 db' last in
      let first = map_storage_error_ok _ db1 at_blocks in
      (
        bytes,
        map_storage_error_ok _ bytes encoded,
        rw (sym same) (d.read_written db db1 blocks (Block.hash b) bytes first),
      )

  hash_of_checked :
      (block_hash : Bytes) (read : Option Block) (b : Block)
      → checked block_hash read ≡ ok (some b)
      → Block.hash b ≡ block_hash
  hash_of_checked block_hash none b h = cc
  hash_of_checked block_hash (some x) b h = elim (Bool-cases (eq_bytes (Block.hash x) block_hash)) [
    | inl same ↦
        let is_b : x ≡ b = ground (arith, same, h) in
        subst (λ y. Block.hash y ≡ block_hash) is_b ((eq_bytes_iff _ block_hash).0 same)
    | inr other ↦ absurd (ground (arith, other, h))
  ]

  hash_of_read :
      (block_hash : Bytes) (found : Option Bytes) (b : Block)
      → read_block block_hash found ≡ ok (some b)
      → Block.hash b ≡ block_hash
  hash_of_read block_hash none b h = cc
  hash_of_read block_hash (some bytes) b h = hash_of_checked block_hash (k.from_bytes bytes) b h

  -- A block that is loaded under a hash has that hash.
  pub load_block-hash :
      (db : d.Db) (block_hash : Bytes) (b : Block)
      → load_block db block_hash ≡ ok (some b)
      → Block.hash b ≡ block_hash
  unfolding load_block
  load_block-hash db block_hash b h =
      let (found, _, go) = >>=-eq-ok (map_storage_error _) _ h in hash_of_read block_hash found b go

  load_block_found :
      (db : d.Db) (b : Block) (bytes : Bytes)
      → k.to_allocvec b ≡ some bytes
      → Finds db blocks (Block.hash b) bytes
      → (load_block db (Block.hash b) ≡ ok (some b)) ⊎ (load_block db (Block.hash b) ≡ err storage)
  unfolding load_block map_storage_error
  load_block_found db b bytes encoded (inr failed) = inr (rw failed refl)
  load_block_found db b bytes encoded (inl found) = inl (
      rw (found, k.reads_back b bytes encoded, (eq_bytes_iff (Block.hash b) (Block.hash b)).1 refl)
        refl)

  load_found :
      (db : d.Db) (b : Block) (state_bytes : Bytes)
      → Finds db meta latest_snapshot_key (Block.hash b)
      → Finds db snapshots (Block.hash b) state_bytes
      → (load_block db (Block.hash b) ≡ ok (some b)) ⊎ (load_block db (Block.hash b) ≡ err storage)
      → (load_latest_snapshot_bundle db ≡ ok (some (b, state_bytes)))
        ⊎ (load_latest_snapshot_bundle db ≡ err storage)
  unfolding load_latest_snapshot_bundle map_storage_error find_snapshot
  load_found db b state_bytes (inr failed) snapshot loaded = inr (rw failed refl)
  load_found db b state_bytes (inl pointer) snapshot (inr failed) =
      inr (rw (pointer, hash-length b, failed) refl)
  load_found db b state_bytes (inl pointer) (inr failed) (inl loaded) =
      inr (rw (pointer, hash-length b, loaded, failed) refl)
  load_found db b state_bytes (inl pointer) (inl found) (inl loaded) =
      inl (rw (pointer, hash-length b, loaded, found) refl)

  -- After a block has been saved, and then a snapshot under its hash, what is loaded at the next
  -- start is that block with that snapshot, or the load reports a failure of the storage: it does
  -- not start without a snapshot, nor from another.
  pub load_latest_snapshot_bundle-saved :
      (db db1 db2 : d.Db) (b : Block) (state_bytes : Bytes)
      → save_block db b ≡ ok db1
      → save_snapshot db1 (Block.hash b) state_bytes ≡ ok db2
      → (load_latest_snapshot_bundle db2 ≡ ok (some (b, state_bytes)))
        ⊎ (load_latest_snapshot_bundle db2 ≡ err storage)
  unfolding load_latest_snapshot_bundle
  load_latest_snapshot_bundle-saved db db1 db2 b state_bytes saved snapped =
      let (bytes, encoded, at_blocks) = save_block-Finds db db1 b saved in
      let (at_snapshots, at_meta) =
        save_snapshot-Finds db1 db2 (Block.hash b) state_bytes snapped in
      let still =
        save_snapshot-blocks db1 db2 (Block.hash b) state_bytes (Block.hash b) bytes snapped
          at_blocks in
      load_found db2 b state_bytes at_meta at_snapshots (load_block_found db2 b bytes encoded still)
