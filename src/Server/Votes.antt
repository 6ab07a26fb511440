-- ===== src/Server/Votes.antt =====
-- The term and the vote of a server (raft/include/srv_state.hxx) over what can happen to it.
pub mod Kept
pub mod Answers
pub mod Runs
use enclave_raft.Prelude.{ℕ, ◌+◌, ◌^◌, ◌<◌, List, [], ◌∷◌, ◌≤◌, ◌≡◌, ◌≢◌, Bool, Option, none, some}
use enclave_raft.Entry.{LogEntry}
use enclave_raft.Messages.{Req, Resp, MsgType, join_cluster_request}
use enclave_raft.Snapshot.{Snapshot}
use enclave_raft.Server.State.{Server, Peer, no_server}
use enclave_raft.Server.Monad.{M, find_peer, on_peer}
use enclave_raft.Server.Elect.{handle_election_timeout, handle_hb_timeout}
use enclave_raft.Server.Responses.{handle_peer_resp}
use enclave_raft.Server.Joining.{handle_ext_resp, handle_ext_resp_err}
use enclave_raft.Server.Background.{commit_available, on_snapshot_completed}
use enclave_raft.Server.Public.{process_req}

-- From `s` to `t` the term does not fall, and a vote given in the term of `s` is still the vote of
-- that term.
abbrev pub VoteKept : Server → Server → Type 0
VoteKept s t =
    (s.state.term ≤ t.state.term)
    × (s.state.term ≡ t.state.term
        → s.state.voted_for ≢ no_server
        → t.state.voted_for ≡ s.state.voted_for)

-- What can happen to a server: requests and answers at a time of the clock, errors of the requests
-- of `handle_ext_resp_err`, timers, the thread that commits, and the state machine's answer.
pub data Event : Type 0 where
  request : ℕ → Req → Event
  response : ℕ → Resp → Event
  ext_response : Resp → Event
  ext_error : Req → Event
  election_timeout : Event
  hb_timeout : ℕ → Event
  commit_round : Event
  snapshot_completed : Snapshot → Bool → Event

-- A heartbeat timer is that of a peer.
abbrev hb_of : ℕ → Option Peer → Server → Server
hb_of k none s = s
hb_of k (some p) s = (on_peer k p handle_hb_timeout s).1

-- The server after an event.
unfoldable pub step : Event → Server → Server
step (request now req) s = (process_req now req s).1
step (response now resp) s = (handle_peer_resp now resp s).1
step (ext_response resp) s = (handle_ext_resp resp s).1
step (ext_error req) s = (handle_ext_resp_err req s).1
step election_timeout s = (handle_election_timeout s).1
step (hb_timeout k) s = hb_of k (find_peer k s.peers) s
step commit_round s = (commit_available s).1
step (snapshot_completed snp success) s = on_snapshot_completed snp success s

unfoldable pub run : List Event → Server → Server
run [] s = s
run (e ∷ es) s = run es (step e s)

-- What may happen to a server in a run: no request to join a cluster, which takes the leader's term as
-- it comes, and no election in the last term of a word, whose next one is 0.
abbrev pub IsSafe : Event → Server → Type 0
IsSafe (request now req) s = req.type ≢ join_cluster_request
IsSafe election_timeout s = s.state.term + 1 < 2 ^ 64
IsSafe e s = Unit {0}

-- Each event of the run is safe for the server that it finds.
abbrev pub AllSafe : List Event → Server → Type 0
AllSafe [] s = Unit {0}
AllSafe (e ∷ es) s = IsSafe e s × AllSafe es (step e s)
