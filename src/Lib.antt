-- ===== src/Lib.antt =====
-- A verification library for rust-proof: a proof-of-stake blockchain engine (rp-core) and the node
-- engine around it (rp-node), which the desktop and the embedded runtimes share.
--
-- How the parts interact. A runtime feeds inputs (time, peers, frames, loaded snapshots, local
-- transactions) to the node engine, one at a time, and carries out the actions that each step
-- returns. The engine keeps a tree of known blocks with the state at its head and a pool of pending
-- transactions; a block on top of the head is imported at once, any other is parked until the state
-- of its parent has been loaded. Importing a block validates and applies it by the rules of rp-core,
-- and replaces the head by the fork choice.
-- On the desktop, a runtime is three tasks joined by channels. The network manager admits a peer
-- after a signed hello, turns the events of libp2p into events of the runtime, and carries out
-- commands to peers. The node manager feeds those events to the engine and dispatches its actions to
-- the network, the storage and the wake timer. A storage manager keeps blocks and snapshots. On the
-- embedded side a network manager keeps a registry of sessions, whose workers negotiate protocols
-- over length-prefixed frames, and there is one timer.
--
-- What models what. A method of the source is a function of the same name; one that changes `self`
-- returns the new value.
--   Base, U64                 lists, outcomes and orders; the u64 arithmetic of a release build
--   BTreeMap, BTreeSet        the ordered map and set of Rust's alloc, with their laws
--   Core/Crypto               rp-core/src/crypto.rs
--   Core/Models, Transaction, Block, Slashing
--                             rp-core/src/models/*.rs, hashing of rp-core/src/traits.rs
--   Core/State                rp-core/src/state.rs: get_balance, get_nonce, is_valid_tx, apply_tx,
--                             apply_slash; Election: get_expected_validator; Merkle:
--                             compute_state_root; Codec: to_bytes and from_bytes; Supply, Accounts:
--                             proofs
--   Core/Blockchain           rp-core/src/blockchain.rs: validate_and_apply_block and
--                             should_replace_head; Accept, Fork: proofs
--   Node/Mempool              rp-node/src/mempool.rs; Invariant: proofs
--   Node/Blockchain           rp-node/src/blockchain.rs; Links, Tree, Import, Serve, Returns: proofs
--   Node/Network, Contract    rp-node/src/network/message.rs, rp-node/src/contract.rs
--   Node/Engine               rp-node/src/node_engine.rs, its state and helpers; Step: the handlers
--                             and `step`; Wake, Quiet, Timer, Requests, Parked, Total,
--                             Restore: proofs
--   Runtime/Frame             rp-codec/src/length_prefixed.rs
--   Runtime/Multistream       erp-runtime/src/network/transport/multistream.rs; Agree: proofs; Utf8:
--                             which bytes `String::from_utf8` takes
--   Runtime/PeerRegistry      erp-runtime/src/network/peer_registry.rs; Index: proofs
--   Runtime/Wake              erp-runtime/src/wake/manager.rs
--   Runtime/Network           erp-runtime/src/network/manager.rs, bootstrap.rs and parts of config.rs
--                             and session.rs; Sessions: proofs
--   Runtime/Session           erp-runtime/src/network/session.rs: requests and their answers, with
--                             network/protocol/sync.rs and announce.rs; Protocols: the names of
--                             network/protocol; Hello: network/protocol/node_hello.rs and the hello
--                             of session.rs; Identify: the message of network/protocol/identify.rs;
--                             Commands, Exchange, Handshake and those of Identify: proofs
--   Host/Errors, Contract     rp-runtime/src/runtime/errors.rs; the events, commands and jobs of
--                             rp-runtime/src/runtime/manager.rs
--   Host/Hello                the hello of rp-runtime/src/network/manager.rs; Verify: proofs
--   Host/Network              the state and registration of rp-runtime/src/network/manager.rs;
--                             Events: events of the swarm; Handlers: commands and timers; Pairs,
--                             Session, Bindings, Steps, Protocols, Run, Requests, Broadcast,
--                             Failures, Unanswered: proofs
--   Host/Nodes                rp-runtime/src/runtime/manager.rs: one turn of the node manager, and
--                             runs of turns; Timer: proofs
--   Host/Wake                 the wake loop of rp-runtime/src/main.rs; Live: proofs
--   Host/Storage              rp-runtime/src/storage/manager.rs; Saved, Restart: proofs
--   Tests                     concrete inputs
--
-- Choices. Outcome is `Ok`, `Err`, or no return: a panic (an `expect`, a capacity overflow) or a
-- loop out of fuel. Integers are natural numbers with the wrap-around of a release build written
-- out. A BTreeMap is the list of its entries in the order of the keys, a BTreeSet that of its
-- members. The message of an error or a report is a constructor of Node/Report or
-- Host/Errors.
--
-- Fuel. The Merkle loop has as much as there are hashes, since a round at least halves them. The two
-- walks from the head have the height of the head, since heights fall by one. Importing parked
-- blocks has the number of parents that are waited for, since each call takes one out of the map.
-- Reading an identify message has the bytes of the payload, since a field takes at least one.
--
-- Parameters. The curve P-256 with ECDSA, and SHA-256, are the record Crypto (Core/Crypto): keys
-- decode from their encodings of 33 bytes, and digests have 32 bytes. The crate postcard is the
-- record Postcard (Node/Network): where it fails to encode a message, the source panics and so does
-- the model, and results that exclude a panic assume that it encodes all messages. The crate
-- unsigned_varint is the record Varint (Runtime/Frame): a number of 32 bits decodes from its
-- encoding, of at most five bytes whose high bits say whether another follows. For the desktop
-- runtime: libp2p is the record Libp2p, the signing of a hello the record Signing (Host/Hello), the
-- database the record Sled and the encoding of a block the record BlockCodec (Host/Storage). The
-- single messages of a session are written by the records Payloads (Runtime/Session) and HelloCodecs
-- (Runtime/Session/Hello), which stand for postcard as well. The crate quick_protobuf is the record
-- Protobuf (Runtime/Session/Identify).
--
-- Clocks. The wake loop sleeps on a monotonic clock and ticks with the wall-clock time. Runs of it
-- (Host/Wake/Live) assume that the wall clock is not set back while it sleeps.
--
-- Channels and hash maps. A send fails exactly when the receiver is gone, which is an argument of the
-- handler that sends. A HashMap is a map in the order of its keys, one of the orders in which the
-- source may iterate. What a handler had sent or written before it returned an error is not told.
--
-- Not modelled: the serde adapters of rp-core; the traits of rp-node/src/contract.rs but Identity,
-- which no code of the engine calls; of rp-runtime the reading of its configuration and the set-up of
-- the swarm, of the database and of the tasks; of erp-runtime the loop of a session's worker, the
-- addresses of identify, the noise and yamux transports, sockets, storage, the hardware identity and
-- the event loops; rp-client. They are input and output, threads and third-party protocols around the
-- parts above.
pub mod Base
pub mod BTreeMap
pub mod BTreeSet
pub mod U64
pub mod Core
pub mod Node
pub mod Runtime
pub mod Host
mod Tests
