-- ===== src/Port.antt =====
-- raft_enclave/port: the border of the enclave. `Crypto` hides what crosses it; `Listener` takes the
-- requests of other servers, `Client` sends them and takes the responses; `Tasks` runs the timers.
pub mod Crypto
pub mod Listener
pub mod Client
pub mod Remote
pub mod Tasks
pub mod Logs
pub mod Requests
pub mod Responses
