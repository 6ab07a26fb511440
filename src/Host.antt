-- ===== src/Host.antt =====
-- raft_app: the host outside the enclave. `Session` is one connection of a client or a peer.
pub mod Session
pub mod Handler
pub mod Client
