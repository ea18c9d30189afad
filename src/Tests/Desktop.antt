-- ===== src/Tests/Desktop.antt =====
-- Concrete stand-ins for what the desktop runtime takes from its crates.
use rust_proof.Base.{
  ℕ, suc, ◌≡◌, ◌≢◌, refl, sym, ap, inl, true, Option, none, some, [], ◌∷◌, ◌++◌, Bytes, length,
  take, drop, take-append, drop-append, ltb, eq_bytes_iff,
}
use rust_proof.BTreeMap
use rust_proof.BTreeMap.{BTreeMap}
use rust_proof.BTreeMap.Laws.{get-insert_self}
use rust_proof.Core.Crypto.{verify}
use rust_proof.Core.Models.{Block, block, no_transactions, and_transaction, no_proofs, and_proof}
use rust_proof.Node.Network.{
  Postcard, NetworkMessage, AnnounceRequest, announce_request, announce_block,
}
use rust_proof.Host.Hello.{Signing}
use rust_proof.Host.Network.{Libp2p}
use rust_proof.Host.Storage.{Tree, meta, blocks, snapshots, Sled, BlockCodec}
use rust_proof.Tests.Toy.{Account, alice, bob, carol, number, decode, same, Signed, toy}
use rust_proof.Tests.Data.{genesis}

abbrev account_of : ℕ → Option Account
account_of n = decode (n ∷ [])

account_of-number : (a : Account) → account_of (number a) ≡ some a
account_of-number alice = refl
account_of-number bob = refl
account_of-number carol = refl

abbrev read_signed : Bytes → Option Account → Option Signed
read_signed message none = none
read_signed message (some a) = some (record { signer = a; message = message })

abbrev read_signature : Bytes → Option Signed
read_signature [] = none
read_signature (n ∷ message) = read_signed message (account_of n)

pub read_signature_written : (g : Signed) → read_signature (number g.signer ∷ g.message) ≡ some g
read_signature_written g = ap (read_signed g.message) (account_of-number g.signer)

same_self : (a : Account) → same a a ≡ true
same_self alice = refl
same_self bob = refl
same_self carol = refl

pub verifies : (a : Account) (m : Bytes) → verify a m (record { signer = a; message = m }) ≡ true
verifies a m = rw (same_self a, (eq_bytes_iff m m).1 refl) refl

instance abbrev pub toy_signing : Signing
toy_signing = record {
  transcript_bytes =
      λ t. some (t.version ∷ t.max_blocks_per_chunk ∷ t.node_peer_id ++ t.transport_peer_id);
  signature_from_slice = read_signature;
  signature_to_bytes = λ g. number g.signer ∷ g.message;
  sign = λ a m. record { signer = a; message = m };
  decode_signature = read_signature_written;
  verify_signed = verifies;
}

-- Request ids are counted, and the first hundred channels can be answered on.
instance abbrev pub toy_libp2p : Libp2p
toy_libp2p = record {
  Swarm = ℕ;
  fresh_request = λ n. (suc n, n ∷ []);
  delivers = λ n channel. ltb channel 100;
}

-- A frame of one byte is read as the announcement of the genesis.
abbrev pub announced : AnnounceRequest
announced = announce_block genesis

abbrev read_message : Bytes → Option NetworkMessage
read_message (tag ∷ []) = some (announce_request announced)
read_message _ = none

instance abbrev pub toy_postcard : Postcard
toy_postcard = record { to_allocvec = λ message. some (9 ∷ []); from_bytes = read_message }

pub record Trees : Type 0 where
  pub meta_tree : BTreeMap Bytes
  pub blocks_tree : BTreeMap Bytes
  pub snapshots_tree : BTreeMap Bytes

abbrev tree_of : Trees → Tree → BTreeMap Bytes
tree_of db meta = db.meta_tree
tree_of db blocks = db.blocks_tree
tree_of db snapshots = db.snapshots_tree

abbrev pub write : Trees → Tree → Bytes → Bytes → Trees
write db meta k v = record db { meta_tree = BTreeMap.insert k v db.meta_tree }
write db blocks k v = record db { blocks_tree = BTreeMap.insert k v db.blocks_tree }
write db snapshots k v = record db { snapshots_tree = BTreeMap.insert k v db.snapshots_tree }

abbrev read : Trees → Tree → Bytes → Option (Option Bytes)
read db tree k = some (BTreeMap.get k (tree_of db tree))

pub written :
    (db : Trees) (tree : Tree) (k v : Bytes) → read (write db tree k v) tree k ≡ some (some v)
written db meta k v = ap some (get-insert_self k v db.meta_tree)
written db blocks k v = ap some (get-insert_self k v db.blocks_tree)
written db snapshots k v = ap some (get-insert_self k v db.snapshots_tree)

pub untouched :
    (db : Trees) (tree other : Tree) (k v kept : Bytes)
    → tree ≢ other
    → read (write db tree k v) other kept ≡ read db other kept
untouched db meta meta k v kept h = absurd (h refl)
untouched db meta blocks k v kept h = refl
untouched db meta snapshots k v kept h = refl
untouched db blocks meta k v kept h = refl
untouched db blocks blocks k v kept h = absurd (h refl)
untouched db blocks snapshots k v kept h = refl
untouched db snapshots meta k v kept h = refl
untouched db snapshots blocks k v kept h = refl
untouched db snapshots snapshots k v kept h = absurd (h refl)

pub some_same : {A : Type 0} (x y : A) → some x ≡ some y → x ≡ y
some_same x y h = cc

instance abbrev pub toy_sled : Sled
toy_sled = record {
  Db = Trees;
  get = read;
  insert = λ db tree k v. some (write db tree k v);
  flush = λ db. true;
  read_written = λ db db' tree k v h.
      inl (rw (sym (some_same (write db tree k v) db' h)) (written db tree k v));
  read_other_tree = λ db db' tree other k v kept found h differs before.
      rw (sym (some_same (write db tree k v) db' h), untouched db tree other k v kept differs)
        before;
}

abbrev pub empty_db : Trees
empty_db = record { meta_tree = []; blocks_tree = []; snapshots_tree = [] }

-- Unsigned blocks without transactions and proofs can be written.
abbrev pub write_block : Block → Option Bytes
write_block (block h s p v no_transactions none no_proofs r) =
    some (h ∷ s ∷ number v ∷ length p ∷ p ++ r)
write_block _ = none

abbrev block_by : ℕ → ℕ → Bytes → Bytes → Option Account → Option Block
block_by h s p r none = none
block_by h s p r (some v) = some (block h s p v no_transactions none no_proofs r)

abbrev parse_block : Bytes → Option Block
parse_block (h ∷ s ∷ v ∷ n ∷ rest) = block_by h s (take n rest) (drop n rest) (account_of v)
parse_block _ = none

pub parse_block_written :
    (b : Block) (bytes : Bytes) → write_block b ≡ some bytes → parse_block bytes ≡ some b
parse_block_written (block h s p v no_transactions none no_proofs r) bytes e =
    let same : h ∷ s ∷ number v ∷ length p ∷ p ++ r ≡ bytes = some_same _ bytes e in
    rw (sym same, take-append p r, drop-append p r, account_of-number v) refl
parse_block_written (block h s p v (and_transaction _ _) g ps r) bytes e = absurd cc
parse_block_written (block h s p v no_transactions (some g) ps r) bytes e = absurd cc
parse_block_written (block h s p v no_transactions none (and_proof _ _) r) bytes e = absurd cc

instance abbrev pub toy_block_codec : BlockCodec
toy_block_codec = record {
  to_allocvec = write_block;
  from_bytes = parse_block;
  reads_back = parse_block_written;
}
