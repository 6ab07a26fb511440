-- ===== src/Server/Votes/Runs.antt =====
-- The vote over runs of events.
use enclave_raft.Prelude.{
  ◌⊎◌, ℕ, ◌≡◌, ◌≢◌, true, Option, none, some, List, [], ◌∷◌, Result, ok, err, arith,
}
use enclave_raft.Messages.{Req, Resp, MsgType, request_vote_request}
use enclave_raft.Server.State.{Server, Peer, no_server}
use enclave_raft.Server.Monad.{when, continue, find_peer, on_peer}
use enclave_raft.Server.Elect.{handle_hb_timeout}
use enclave_raft.Server.Requests.{handle_vote_req, is_grant}
use enclave_raft.Server.Joining.{handle_ext_resp, handle_ext_resp_err}
use enclave_raft.Server.Background.{commit_available, on_snapshot_completed}
use enclave_raft.Server.Public.{process_req, dispatch_req, hear_term, has_term}
use enclave_raft.Server.Votes.{
  VoteKept, Event, request, response, ext_response, ext_error, election_timeout, hb_timeout,
  commit_round, snapshot_completed, hb_of, step, run, IsSafe, AllSafe,
}
use enclave_raft.Server.Votes.Kept.{
  VoteKept-same_state, when_hear-VoteKept, VoteKept-refl, VoteKept-trans, process_req-VoteKept,
  handle_election_timeout-VoteKept,
}
use enclave_raft.Server.Votes.Answers.{
  handle_peer_resp-VoteKept, handle_ext_resp_state, handle_ext_resp_err_state,
  handle_hb_timeout_state, on_snapshot_completed_state, commit_available_state,
}

hb_of-VoteKept : (k : ℕ) (p : Option Peer) (s : Server) → VoteKept s (hb_of k p s)
hb_of-VoteKept k none s = VoteKept-refl s
hb_of-VoteKept k (some p) s =
    VoteKept-same_state s (on_peer k p handle_hb_timeout s).1 (handle_hb_timeout_state k p s)

-- A safe event does not lower the term or take a vote back.
pub step-VoteKept : (e : Event) (s : Server) → IsSafe e s → VoteKept s (step e s)
unfolding step
step-VoteKept (request now req) s h = process_req-VoteKept now req s h
step-VoteKept (response now resp) s h = handle_peer_resp-VoteKept now resp s
step-VoteKept (ext_response resp) s h =
    VoteKept-same_state s (handle_ext_resp resp s).1 (handle_ext_resp_state resp s)
step-VoteKept (ext_error req) s h =
    VoteKept-same_state s (handle_ext_resp_err req s).1 (handle_ext_resp_err_state req s)
step-VoteKept election_timeout s h = handle_election_timeout-VoteKept s h
step-VoteKept (hb_timeout k) s h = hb_of-VoteKept k (find_peer k s.peers) s
step-VoteKept commit_round s h =
    VoteKept-same_state s (commit_available s).1 (commit_available_state s)
step-VoteKept (snapshot_completed snp b) s h =
    VoteKept-same_state s (on_snapshot_completed snp b s) (on_snapshot_completed_state snp b s)

-- Whatever events come, but for requests to join a cluster and elections in the last term of a word: the
-- term does not fall, and a vote given
-- in a term is the vote of that term as long as the term lasts.
pub run-VoteKept : (es : List Event) (s : Server) → AllSafe es s → VoteKept s (run es s)
unfolding run
run-VoteKept [] s h = VoteKept-refl s
run-VoteKept (e ∷ es) s (h, hs) =
    VoteKept-trans s (step e s) (run es (step e s)) (step-VoteKept e s h)
      (run-VoteKept es (step e s) hs)

-- The server answers the request with a vote.
abbrev pub Granted : ℕ → Req → Server → Type 0
Granted now req s = (resp : Resp) × ((process_req now req s).0 ≡ ok resp) × (resp.accepted ≡ true)

-- What a vote tells of the server before it and after.
abbrev Voted : Req → Server → Server → Type 0
Voted req s t =
    (s.state.term ≡ req.term)
    × ((s.state.voted_for ≡ req.src) ⊎ (s.state.voted_for ≡ no_server))
    × (t.state.term ≡ req.term)
    × (t.state.voted_for ≡ req.src)

handle_vote_req-Voted :
    (req : Req) (s : Server) (resp : Resp)
    → (handle_vote_req req s).0 ≡ ok resp
    → resp.accepted ≡ true
    → Voted req s (handle_vote_req req s).1
unfolding handle_vote_req is_grant
handle_vote_req-Voted req s resp h k = ground arith

dispatch_req-Voted :
    (now : ℕ) (m : MsgType) (req : Req) (s : Server) (resp : Resp)
    → m ≡ request_vote_request
    → (dispatch_req now m req s).0 ≡ ok resp
    → resp.accepted ≡ true
    → Voted req s (dispatch_req now m req s).1
unfolding dispatch_req
dispatch_req-Voted now request_vote_request req s resp h k l = handle_vote_req-Voted req s resp k l
dispatch_req-Voted now _ req s resp h k l = ground arith

heard-Voted :
    (now : ℕ) (req : Req) (r : Result (Unit {0})) (t : Server) (resp : Resp)
    → req.type ≡ request_vote_request
    → (continue (λ _. dispatch_req now req.type req) r t).0 ≡ ok resp
    → resp.accepted ≡ true
    → Voted req t (continue (λ _. dispatch_req now req.type req) r t).1
heard-Voted now req (ok u) t resp h k l = dispatch_req-Voted now req.type req t resp h k l
heard-Voted now req (err e) t resp h k l = ground arith

-- A vote is given in the term of the request, and to a candidate that no other vote of the term is in
-- the way of.
process_req-Voted :
    (now : ℕ) (req : Req) (s : Server)
    → req.type ≡ request_vote_request
    → Granted now req s
    → (t : Server) × VoteKept s t × Voted req t (process_req now req s).1
unfolding process_req
process_req-Voted now req s h (resp, k, l) = (
  (when (has_term req.type) (hear_term req) s).1,
  when_hear-VoteKept (has_term req.type) req s,
  heard-Voted now req (when (has_term req.type) (hear_term req) s).0
      (when (has_term req.type) (hear_term req) s).1 resp h k l,
)

-- Two candidates that a server votes for in the same term are the same, whatever happens between the
-- two requests, but for a request to join a cluster and an election in the last term of a word. The first has an id that is not that of no server.
pub one_vote_per_term :
    (now1 now2 : ℕ) (first second : Req) (es : List Event) (s : Server)
    → first.type ≡ request_vote_request
    → second.type ≡ request_vote_request
    → first.term ≡ second.term
    → first.src ≢ no_server
    → AllSafe es (process_req now1 first s).1
    → Granted now1 first s
    → Granted now2 second (run es (process_req now1 first s).1)
    → first.src ≡ second.src
one_vote_per_term now1 now2 first second es s h k e n j g1 g2 =
    let (t, kept, voted) = process_req-Voted now1 first s h g1 in
    let (u, kept2, voted2) =
      process_req-Voted now2 second (run es (process_req now1 first s).1) k g2 in
    let later = run-VoteKept es (process_req now1 first s).1 j in ground arith
