-- ===== src/Runtime/Session/Protocols.antt =====
-- erp-runtime/src/network/protocol: the names of the protocols of a session, as their bytes.
use rust_proof.Base.{List, [], ◌∷◌, Bytes}

-- "/ipfs/id/1.0.0"
abbrev pub identify_protocol : Bytes
identify_protocol = 47 ∷ 105 ∷ 112 ∷ 102 ∷ 115 ∷ 47 ∷ 105 ∷ 100 ∷ 47 ∷ 49 ∷ 46 ∷ 48 ∷ 46 ∷ 48 ∷ []

-- "/ipfs/id/push/1.0.0"
abbrev pub identify_push_protocol : Bytes
identify_push_protocol =
    47 ∷ 105 ∷ 112 ∷ 102 ∷ 115 ∷ 47 ∷ 105 ∷ 100 ∷ 47 ∷ 112 ∷ 117 ∷ 115 ∷ 104 ∷ 47 ∷ 49 ∷ 46 ∷ 48
    ∷ 46 ∷ 48 ∷ []

-- "/rust-proof/node-hello/1"
abbrev pub node_hello_protocol : Bytes
node_hello_protocol =
    47 ∷ 114 ∷ 117 ∷ 115 ∷ 116 ∷ 45 ∷ 112 ∷ 114 ∷ 111 ∷ 111 ∷ 102 ∷ 47 ∷ 110 ∷ 111 ∷ 100 ∷ 101 ∷ 45
    ∷ 104 ∷ 101 ∷ 108 ∷ 108 ∷ 111 ∷ 47 ∷ 49 ∷ []

-- "/ipfs/ping/1.0.0"
abbrev pub ping_protocol : Bytes
ping_protocol =
    47 ∷ 105 ∷ 112 ∷ 102 ∷ 115 ∷ 47 ∷ 112 ∷ 105 ∷ 110 ∷ 103 ∷ 47 ∷ 49 ∷ 46 ∷ 48 ∷ 46 ∷ 48 ∷ []

-- "/rust-proof/announce/1"
abbrev pub announce_protocol : Bytes
announce_protocol =
    47 ∷ 114 ∷ 117 ∷ 115 ∷ 116 ∷ 45 ∷ 112 ∷ 114 ∷ 111 ∷ 111 ∷ 102 ∷ 47 ∷ 97 ∷ 110 ∷ 110 ∷ 111 ∷ 117
    ∷ 110 ∷ 99 ∷ 101 ∷ 47 ∷ 49 ∷ []

-- "/rust-proof/sync/1"
abbrev pub sync_protocol : Bytes
sync_protocol =
    47 ∷ 114 ∷ 117 ∷ 115 ∷ 116 ∷ 45 ∷ 112 ∷ 114 ∷ 111 ∷ 111 ∷ 102 ∷ 47 ∷ 115 ∷ 121 ∷ 110 ∷ 99 ∷ 47
    ∷ 49 ∷ []

abbrev pub inbound_session_protocols : List Bytes
inbound_session_protocols =
    identify_protocol ∷ identify_push_protocol ∷ node_hello_protocol ∷ ping_protocol
    ∷ announce_protocol ∷ sync_protocol ∷ []
