-- ===== src/Host/Hello/Verify.antt =====
-- rp-runtime/src/network/manager.rs: what a node hello that verifies has shown.
use rust_proof.Base.{
  ℕ, ◌≡◌, refl, Bool, true, false, Option, none, some, Bytes, ok, >>=-eq-ok, ok-injective,
  >>=-returns, ◌≢◌, panic, arith, eq_bytes_iff, sym, ◌∙◌, Option-cases, ap, inl, inr,
}
use rust_proof.Core.Crypto.{
  Crypto, VerifyingKey, Signature, verify, sha256, verifying_key_from_bytes, verifying_key_to_bytes,
}
use rust_proof.Host.Errors.{RuntimeError}
use rust_proof.Host.Hello.{
  NodeHello, VerifiedPeer, Signing, HostNodeIdentity, from_signing_key, verify_hello, unless,
  some_or, transcript_of, build_local_node_hello, build_signature, local_transcript, signed_hello,
}

module _ ⦃c : Crypto⦄ ⦃s : Signing⦄ where
  unless_ok : (holds : Bool) (why : RuntimeError) → unless holds why ≡ ok tt → holds ≡ true
  unfolding unless
  unless_ok true why h = refl
  unless_ok false why h = cc

  some_or_ok :
      {A : Type 0} (found : Option A) (why : RuntimeError) (value : A)
      → some_or found why ≡ ok value
      → found ≡ some value
  unfolding some_or
  some_or_ok none why value h = cc
  some_or_ok (some x) why value h = cc

  -- The peer that a hello claims to be.
  abbrev claimed : NodeHello → VerifiedPeer
  claimed remote = record {
    node_peer_id = remote.node_peer_id;
    max_blocks_per_chunk = remote.max_blocks_per_chunk;
  }

  -- The hello is bound to the transport peer, its node peer is the digest of its key, and the key
  -- has signed its transcript.
  pub record IsBound (remote : NodeHello) (transport : Bytes) (peer : VerifiedPeer) : Type 0 where
    pub transport_peer : remote.transport_peer_id ≡ transport
    pub node_peer : sha256 remote.node_public_key ≡ peer.node_peer_id
    pub key : VerifyingKey
    pub decoded : verifying_key_from_bytes remote.node_public_key ≡ some key
    pub bytes : Bytes
    pub encoded : s.transcript_bytes (transcript_of remote) ≡ some bytes
    pub signature : Signature
    pub read : s.signature_from_slice remote.signature ≡ some signature
    pub signed : verify key bytes signature ≡ true
    pub named : peer.node_peer_id ≡ remote.node_peer_id
    pub limit : peer.max_blocks_per_chunk ≡ remote.max_blocks_per_chunk

  -- A node hello that verifies over a transport peer names that transport peer; its node peer is
  -- the digest of its public key; and its signature is one by that key over its transcript, which
  -- holds the node peer, the transport peer and the limits. The verified peer has the node peer and
  -- the limit of the hello.
  pub verify_hello-IsBound :
      (remote : NodeHello) (transport : Bytes) (peer : VerifiedPeer)
      → verify_hello remote transport ≡ ok peer
      → IsBound remote transport peer
  unfolding verify_hello
  verify_hello-IsBound remote transport peer h =
      let (_, at_transport, h1) = >>=-eq-ok (unless _ _) _ h in
      let (_, at_peer, h2) = >>=-eq-ok (unless _ _) _ h1 in
      let (_, at_length, h3) = >>=-eq-ok (unless _ _) _ h2 in
      let (key, at_key, h4) = >>=-eq-ok (some_or _ _) _ h3 in
      let (bytes, at_bytes, h5) = >>=-eq-ok (some_or _ _) _ h4 in
      let (signature, at_signature, h6) = >>=-eq-ok (some_or _ _) _ h5 in
      let (_, at_verify, h7) = >>=-eq-ok (unless _ _) _ h6 in
      let same : claimed remote ≡ peer = ok-injective h7 in
      let digest = (eq_bytes_iff _ _).0 (unless_ok _ _ at_peer) in
      record {
        transport_peer = (eq_bytes_iff _ _).0 (unless_ok _ _ at_transport);
        node_peer = digest ∙ ap VerifiedPeer.node_peer_id same;
        key = key;
        decoded = some_or_ok _ _ key at_key;
        bytes = bytes;
        encoded = some_or_ok _ _ bytes at_bytes;
        signature = signature;
        read = some_or_ok _ _ signature at_signature;
        signed = unless_ok _ _ at_verify;
        named = sym (ap VerifiedPeer.node_peer_id same);
        limit = sym (ap VerifiedPeer.max_blocks_per_chunk same);
      }

  signed_hello-verify_hello :
      (key : c.SigningKey) (transport bytes : Bytes) (max_frame_len max_blocks : ℕ)
      → s.transcript_bytes
          (local_transcript (from_signing_key key) transport max_frame_len max_blocks)
        ≡ some bytes
      → verify_hello
          (signed_hello
            (from_signing_key key)
            (local_transcript (from_signing_key key) transport max_frame_len max_blocks)
            bytes)
          transport
        ≡ ok (record {
          node_peer_id = (from_signing_key key).peer_id;
          max_blocks_per_chunk = max_blocks;
        })
  unfolding unless some_or verify_hello from_signing_key build_signature verifying_key_from_bytes
      verifying_key_to_bytes
  signed_hello-verify_hello key transport bytes max_frame_len max_blocks e =
      rw
        (
          (eq_bytes_iff transport transport).1 refl,
          (eq_bytes_iff _ _).1 refl,
          c.length_encoded (c.verifying_key key),
          c.decode_encoded (c.verifying_key key),
          e,
          s.decode_signature (s.sign key bytes),
          s.verify_signed key bytes,
        )
        refl

  -- The hello that a node builds, with an identity made from a signing key, is accepted by
  -- whoever receives it over the transport peer that it names, under the node peer and with the
  -- limit of its builder.
  pub verify_hello-build_local_node_hello :
      (key : c.SigningKey) (transport : Bytes) (max_frame_len max_blocks : ℕ) (hello : NodeHello)
      → build_local_node_hello (from_signing_key key) transport max_frame_len max_blocks ≡ ok hello
      → verify_hello hello transport
        ≡ ok (record {
          node_peer_id = (from_signing_key key).peer_id;
          max_blocks_per_chunk = max_blocks;
        })
  unfolding build_local_node_hello some_or
  verify_hello-build_local_node_hello key transport max_frame_len max_blocks hello h =
      let transcript = local_transcript (from_signing_key key) transport max_frame_len max_blocks in
      elim (Option-cases (s.transcript_bytes transcript)) [
        | inl e ↦ absurd (ground (arith, e))
        | inr (bytes, e) ↦
            let same : hello ≡ signed_hello (from_signing_key key) transcript bytes =
              ground (arith, e) in
            rw same (signed_hello-verify_hello key transport bytes max_frame_len max_blocks e)
      ]

  unless-returns : (holds : Bool) (why : RuntimeError) → unless holds why ≢ panic
  unfolding unless
  unless-returns true why e = cc
  unless-returns false why e = cc

  some_or-returns : {A : Type 0} (found : Option A) (why : RuntimeError) → some_or found why ≢ panic
  unfolding some_or
  some_or-returns none why e = cc
  some_or-returns (some x) why e = cc

  pub verify_hello-returns :
      (remote : NodeHello) (transport : Bytes) → verify_hello remote transport ≢ panic
  unfolding verify_hello
  verify_hello-returns remote transport = >>=-returns (unless _ _) _ (unless-returns _ _) (λ _.
      >>=-returns (unless _ _) _ (unless-returns _ _) (λ _.
        >>=-returns (unless _ _) _ (unless-returns _ _) (λ _.
          >>=-returns (some_or _ _) _ (some_or-returns _ _) (λ key.
            >>=-returns (some_or _ _) _ (some_or-returns _ _) (λ bytes.
              >>=-returns (some_or _ _) _ (some_or-returns _ _) (λ signature.
                >>=-returns (unless _ _) _ (unless-returns _ _) (λ _ e. absurd cc)))))))

  pub build_local_node_hello-returns :
      (identity : HostNodeIdentity) (transport : Bytes) (max_frame_len max_blocks : ℕ)
      → build_local_node_hello identity transport max_frame_len max_blocks ≢ panic
  unfolding build_local_node_hello
  build_local_node_hello-returns identity transport max_frame_len max_blocks =
      >>=-returns (some_or _ _) _ (some_or-returns _ _) (λ bytes e. absurd cc)
