-- ===== src/Server.antt =====
-- raft_enclave/raft: the Raft server. `State` holds its state, `Monad` what a handler is; the other
-- children follow raft_enclave/raft/src, and those below them prove what they do.
pub mod State
pub mod Monad
pub mod Replicate
pub mod Elect
pub mod Members
pub mod Requests
pub mod Install
pub mod Responses
pub mod Joining
pub mod Background
pub mod Public
pub mod Start
pub mod Leader
pub mod Votes
