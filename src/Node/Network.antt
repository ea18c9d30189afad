-- ===== src/Node/Network.antt =====
-- rp-node/src/network/message.rs. The crate `postcard` is not code of the repository: it is the
-- record `Postcard`, an instance argument of whatever sends or reads a frame.
use rust_proof.Base.{ℕ, ◌≡◌, refl, Bool, Option, none, some, List, Bytes, Outcome, ok, panic}
use rust_proof.Core.Crypto.{Crypto}
use rust_proof.Core.Models.{Block, Transaction}

pub record SyncRequest : Type 0 where
  pub from_height : ℕ
  pub to_height : ℕ

pub record AnnounceResponse : Type 0 where
  pub accepted : Bool

module _ ⦃c : Crypto⦄ where
  pub record SyncResponse : Type 0 where
    pub blocks : List Block
    pub has_more : Bool
    pub next_height : Option ℕ

  pub data AnnounceKind : Type 0 where
    new_transaction : Transaction → AnnounceKind
    new_block : Block → AnnounceKind

  pub record AnnounceRequest : Type 0 where
    pub kind : AnnounceKind

  pub data NetworkMessage : Type 0 where
    announce_request : AnnounceRequest → NetworkMessage
    sync_request : SyncRequest → NetworkMessage
    sync_response : SyncResponse → NetworkMessage
    announce_response : AnnounceResponse → NetworkMessage

  -- `AnnounceRequest::transaction`
  abbrev pub announce_transaction : Transaction → AnnounceRequest
  announce_transaction tx = record { kind = new_transaction tx }

  -- `AnnounceRequest::block`
  abbrev pub announce_block : Block → AnnounceRequest
  announce_block b = record { kind = new_block b }

  -- `to_allocvec` and `from_bytes` of postcard at a network message.
  pub record Postcard : Type 0 where
    pub to_allocvec : NetworkMessage → Option Bytes
    pub from_bytes : Bytes → Option NetworkMessage

module _ ⦃c : Crypto⦄ ⦃p : Postcard⦄ where
  -- `expect`: that the message cannot be encoded is a panic.
  unfoldable pub to_bytes : {E : Type 0} → NetworkMessage → Outcome E Bytes
  to_bytes message = elim (p.to_allocvec message) [ none ↦ panic | some frame ↦ ok frame ]

  -- The hypothesis that all messages can be encoded, which a vector that grows allows.
  abbrev pub AlwaysEncodes : Type 0
  AlwaysEncodes =
      (message : NetworkMessage) → (frame : Bytes) × (p.to_allocvec message ≡ some frame)

  pub to_bytes-returns :
      {E : Type 0} (message : NetworkMessage)
      → AlwaysEncodes
      → (frame : Bytes) × (to_bytes {E = E} message ≡ ok frame)
  unfolding to_bytes
  to_bytes-returns message encodes =
      let (frame, e) = encodes message in (frame, rw (e, to_bytes) refl)

  unfoldable pub from_bytes : Bytes → Option NetworkMessage
  from_bytes frame = p.from_bytes frame
