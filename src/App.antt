-- ===== src/App.antt =====
-- raft_enclave/app_impl: what the program gives the server to work with, besides the log store.
pub mod StateMgr
pub mod EchoMachine
