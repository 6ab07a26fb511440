-- ===== src/Lib.antt =====
-- A Raft server inside an enclave: the log, the messages, every handler of the protocol, and the way
-- of a request from one enclave to another.
--
-- The program is a Raft implementation in C++ (raft_enclave/raft) with an in-memory log
-- (raft_enclave/app_impl/in_memory_log_store.hxx) and a wire format
-- (raft_enclave/port/msg_serializer.cxx). A request comes to raft_server::process_req; a response, a
-- timeout or an error to a handler, each of which runs under the server's lock; a thread commits,
-- which takes the lock only for a configuration (raft_server.cxx:668). A run of the server is a
-- sequence of whole handlers and whole turns of that thread: what comes in the middle of a turn is not
-- modelled. Between two servers a request is written, hidden and given to the host, which sends it;
-- the other host reads it off a stream and gives it to its enclave, which reads it, processes it and
-- returns the response the same way. The paths below are in raft_enclave, but for Host and UrlDecode;
-- a file of raft/src is named by itself.
--
--   Prelude            shared names, Boolean tests on numbers, lists, results that may be an exception
--   Buffer             raft/src/buffer.cxx: a block of bytes with a position
--   Config             raft/include/srv_config.hxx, cluster_config.hxx
--   Entry              raft/include/contribution/log_entry.hxx, log_val_type.hxx
--   Snapshot           raft/include/contribution/snapshot.hxx, snapshot_sync_req.hxx,
--                      snapshot_sync_ctx.hxx and raft/include/srv_state.hxx
--   LogStore           app_impl/in_memory_log_store.hxx
--   Messages           raft/include/rpc/*.hxx and port/msg_serializer.cxx
--   AsyncResult        raft/include/rpc/async_result.hxx: a result that may come later
--   App.StateMgr       app_impl/in_memory_state_mgr.hxx
--   App.EchoMachine    app_impl/echo_state_machine.hxx
--   Server.State       raft/include/raft_server.hxx, peer.hxx, raft_params.hxx
--   Server.Start       raft_server.hxx: the constructor
--   Server.Monad       a handler: it reads and changes the server, and may throw
--   Server.Replicate   raft/src/raft_server.cxx: requests to the peers, the commit index
--   Server.Elect       raft_server.cxx and raft_server_handle_timeout.cxx: roles, votes, timers
--   Server.Members     raft_server.cxx: reconfigure and the servers that join or leave
--   Server.Requests    raft_server_handle_req.cxx: entries, votes, clients
--   Server.Install     raft_server_handle_req.cxx: members, snapshots
--   Server.Responses   raft_server_handle_resp.cxx and peer.hxx
--   Server.Joining     raft_server_handle_resp.cxx: servers that join or leave
--   Server.Background  raft_server.cxx: commit_in_bg and the creation of snapshots
--   Server.Public      raft_server_public.cxx: process_req
--   Server.Leader      raft_server_public.cxx and send_msg_to_leader: what is asked of the cluster
--   Server.Votes       runs of the server as sequences of events
--   Port.Crypto        port/crypto.cxx
--   Port.Listener      port/rpc_listener_port.cxx: the requests of other servers
--   Port.Client        port/rpc_client_port.hxx, rpc_client_port.cxx: requests and their handlers
--   Port.Requests      port/rpc_listener_port.cxx: every message, with those of clients (Port.Logs) and keys
--   Port.Responses     port/rpc_client_port.cxx: every response
--   Port.Remote        a request over the wire
--   Port.Tasks         port/service_port.hxx, service_port.cxx, raft/include/async_task: timers
--   Enclave            what the calls into an enclave share
--   Keys               system/key_store.hxx, key_store.cxx, cert_utils.cxx: keys, reports, certificates
--   UrlDecode          common/url_decode.cxx
--   Json               the libraries json11 and cppcodec, as interfaces
--   Host.Handler       raft_app/port/asio_rpc_listener.cxx: a message that comes to the host
--   Host.Client        raft_app/port/asio_rpc_client.hxx: the requests that the host sends
--   Host.Session       raft_app/port/asio_rpc_session.hxx: a connection of the host
--   Tests              concrete data
--
-- Each module of the program has its definitions in the file of that name and its theorems in files
-- below it: RoundTrip for a wire format, View for the log as a list, Packs for a part of it that is
-- sent and applied, Frames for what a handler leaves alone, Overlap, Merge and Append for the entries
-- of a leader, Restriction for the votes, Ballot and Quorum for the counts, Pace for the heartbeats,
-- Drained for the thread that commits, Declined for a request that is refused, Restart for the start,
-- Answers for the handlers of requests, Cancelled for the timers, Accepted and Attested for the
-- reports of other enclaves, Exchange for a request and its response between two hosts, Reported for
-- what the host's client accounts for, Once for a result and its handler in two threads, Links for the
-- configurations of the log, Frames, Waiting, Steps and Streams for a connection.
--
-- The state is one record, Server. A handler is a function from a server to a result, or an exception,
-- and a server; what was changed before an exception stays changed. What the server asks of its
-- environment (messages, timers, the state machine, the state manager) is a list of actions, the
-- latest first. What the state machine answers is a record in the server. Fresh memory holds what the
-- function fresh says.
--
-- A 64-bit or 32-bit number is a natural number, with the wrap-around written out where the code
-- subtracts below zero or narrows; an int32 is its bit pattern, so that -1 is 0xffffffff. Indices of
-- the log and counts are natural numbers: none comes near 2 ^ 64. A term is counted up on 64-bit
-- words, and the theorems on votes leave out an election in the last term. The order of an
-- unordered_map is that of its association list.
--
-- Loops recurse on their data. Six have fuel: the loop back over configurations has one more than the
-- index that the first links to, and says so when it is out, since links that form a circle never end;
-- the thread that commits has as many rounds as entries are left, since each round takes one; the
-- entries of a request have the size of their block, since each takes thirteen bytes at least; the
-- writes of a connection between two reads have the size of what is read, since each takes a header of
-- four bytes; a pack whose count is negative has one more than its size, since each entry takes four
-- bytes at least, and the loop ends with an exception; a chain of certificates has one more than its
-- characters, since each certificate takes one at least.
--
-- What other code provides is a parameter: the cipher, which is OpenSSL's, with decryption that undoes
-- encryption under the same key and block; the JSON of json11 and the base 64 of cppcodec; the reading
-- of certificates and the verification of chains and signatures by OpenSSL; the factory of clients;
-- what the state machine answers; the order in which the network delivers pieces of a stream, where a
-- read brings as many bytes as it asks for; and the timers that the host reports.
--
-- Not modelled: the command-line client, the timers and pools of the host and its calls for
-- attestation, how the keys of an enclave are made, locks, and the libraries of third parties. The
-- echoing state machine and the state manager stand by themselves; in the server they are interfaces.
pub mod Prelude
pub mod UrlDecode
pub mod Json
pub mod Keys
pub mod Buffer
pub mod Config
pub mod Entry
pub mod Snapshot
pub mod LogStore
pub mod Messages
pub mod AsyncResult
pub mod Server
pub mod Tests
pub mod App
pub mod Port
pub mod Enclave
pub mod Host
