-- ===== src/Keys.antt =====
-- raft_enclave/system: the keys of the enclaves, and the reports that prove them.
pub mod CText
pub mod Certs
pub mod Report
pub mod Store
