-- ===== src/Host/Storage.antt =====
-- rp-runtime/src/storage/manager.rs: blocks and snapshots in a database. The crates `sled` and
-- `postcard` are not code of the repository: they are the records `Sled` and `BlockCodec`.
pub mod Saved
pub mod Restart
use rust_proof.Base.{
  ℕ, ◌≡◌, ◌≢◌, ◌⊎◌, Bool, Option, none, some, List, [], ◌∷◌, Bytes, Outcome, ok, err, panic, ◌>>=◌,
  map_err, length, ◌==◌, eq_bytes, if◌then◌else◌,
}
use rust_proof.Core.Crypto.{Crypto}
use rust_proof.Core.Models.{Block}
use rust_proof.Core.Block
use rust_proof.Host.Errors.{ContractError, storage, RuntimeError, contract, event_send}
use rust_proof.Host.Contract.{
  RuntimeEvent, storage_loaded, latest_snapshot_loaded, StorageCommand, load_latest_snapshot,
  load_snapshot, persist_block, persist_snapshot,
}

pub data Tree : Type 0 where
  meta blocks snapshots : Tree

-- What storage takes from the database, with the behaviour that it documents: a read that succeeds
-- finds what was written last under the key, and a write changes no other tree. A failure is `none`.
pub record Sled : Type 1 where
  pub Db : Type 0
  pub get : Db → Tree → Bytes → Option (Option Bytes)
  pub insert : Db → Tree → Bytes → Bytes → Option Db
  pub flush : Db → Bool
  pub read_written :
      (db db' : Db) (tree : Tree) (key value : Bytes)
      → insert db tree key value ≡ some db'
      → (get db' tree key ≡ some (some value)) ⊎ (get db' tree key ≡ none)
  pub read_other_tree :
      (db db' : Db) (tree other : Tree) (key value kept found : Bytes)
      → insert db tree key value ≡ some db'
      → tree ≢ other
      → (get db other kept ≡ some (some found)) ⊎ (get db other kept ≡ none)
      → (get db' other kept ≡ some (some found)) ⊎ (get db' other kept ≡ none)

-- The database is written to in place: a call that writes gives the database behind it.
module _ ⦃d : Sled⦄ where
  -- `.map_err(Self::map_storage_error)?`
  unfoldable pub map_storage_error : {A : Type 0} → Option A → Outcome ContractError A
  map_storage_error none = err storage
  map_storage_error (some value) = ok value

  -- `b"latest_snapshot"`
  abbrev pub latest_snapshot_key : Bytes
  latest_snapshot_key =
      108 ∷ 97 ∷ 116 ∷ 101 ∷ 115 ∷ 116 ∷ 95 ∷ 115 ∷ 110 ∷ 97 ∷ 112 ∷ 115 ∷ 104 ∷ 111 ∷ 116 ∷ []

  unfoldable pub flush : d.Db → Outcome ContractError d.Db
  flush db = if d.flush db then ok db else err storage

  unfoldable pub save_snapshot : d.Db → Bytes → Bytes → Outcome ContractError d.Db
  save_snapshot db block_hash state_bytes =
      map_storage_error (d.insert db snapshots block_hash state_bytes) >>= λ db1.
      map_storage_error (d.insert db1 meta latest_snapshot_key block_hash) >>= λ db2. flush db2

  unfoldable pub find_snapshot : d.Db → Bytes → Outcome ContractError (Option Bytes)
  find_snapshot db block_hash = map_storage_error (d.get db snapshots block_hash)

module _ ⦃c : Crypto⦄ where
  -- `postcard` at a block.
  pub record BlockCodec : Type 0 where
    pub to_allocvec : Block → Option Bytes
    pub from_bytes : Bytes → Option Block
    pub reads_back :
        (b : Block) (bytes : Bytes) → to_allocvec b ≡ some bytes → from_bytes bytes ≡ some b

module _ ⦃c : Crypto⦄ ⦃d : Sled⦄ ⦃k : BlockCodec⦄ where
  unfoldable pub save_block : d.Db → Block → Outcome ContractError d.Db
  save_block db b = map_storage_error (k.to_allocvec b) >>= λ block_bytes.
      map_storage_error (d.insert db blocks (Block.hash b) block_bytes) >>= λ db1. flush db1

  -- The block that has been read, if it has the hash.
  abbrev pub checked : Bytes → Option Block → Outcome ContractError (Option Block)
  checked block_hash none = err storage
  checked block_hash (some b) =
      if eq_bytes (Block.hash b) block_hash then ok (some b) else err storage

  abbrev pub read_block : Bytes → Option Bytes → Outcome ContractError (Option Block)
  read_block block_hash none = ok none
  read_block block_hash (some block_bytes) = checked block_hash (k.from_bytes block_bytes)

  unfoldable pub load_block : d.Db → Bytes → Outcome ContractError (Option Block)
  load_block db block_hash =
      map_storage_error (d.get db blocks block_hash) >>= λ found. read_block block_hash found

  abbrev pub Bundle : Type 0
  Bundle = Outcome ContractError (Option (Block × Bytes))

  abbrev pub with_snapshot : Block → Option Bytes → Bundle
  with_snapshot b none = ok none
  with_snapshot b (some state_bytes) = ok (some (b, state_bytes))

  abbrev pub with_block : d.Db → Bytes → Option Block → Bundle
  with_block db block_hash none = ok none
  with_block db block_hash (some b) =
      find_snapshot db block_hash >>= λ state_bytes. with_snapshot b state_bytes

  abbrev pub with_pointer : d.Db → Option Bytes → Bundle
  with_pointer db none = ok none
  with_pointer db (some bytes) =
      if length bytes == 32
      then (load_block db bytes >>= λ found. with_block db bytes found)
      else ok none

  unfoldable pub load_latest_snapshot_bundle : d.Db → Bundle
  load_latest_snapshot_bundle db =
      map_storage_error (d.get db meta latest_snapshot_key) >>= λ found. with_pointer db found

  abbrev pub Stored : Type 0
  Stored = Outcome RuntimeError (d.Db × List RuntimeEvent)

  abbrev pub emit : Bool → d.Db → RuntimeEvent → Stored
  emit is_open db event = if is_open then ok (db, event ∷ []) else err event_send

  abbrev pub loaded_event : Option (Block × Bytes) → RuntimeEvent
  loaded_event none = latest_snapshot_loaded none none
  loaded_event (some (b, state_bytes)) = latest_snapshot_loaded (some b) (some state_bytes)

  -- One turn of the loop of `StorageManager::run`.
  unfoldable pub storage_turn : Bool → d.Db → StorageCommand → Stored
  storage_turn is_open db load_latest_snapshot =
      map_err contract (load_latest_snapshot_bundle db) >>= λ bundle.
      emit is_open db (loaded_event bundle)
  storage_turn is_open db (load_snapshot block_hash) =
      map_err contract (find_snapshot db block_hash) >>= λ state_bytes.
      emit is_open db (storage_loaded block_hash state_bytes)
  storage_turn is_open db (persist_block b) =
      map_err contract (save_block db b) >>= λ db'. ok (db', [])
  storage_turn is_open db (persist_snapshot block_hash state_bytes) =
      map_err contract (save_snapshot db block_hash state_bytes) >>= λ db'. ok (db', [])
