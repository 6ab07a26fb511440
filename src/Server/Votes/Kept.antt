-- ===== src/Server/Votes/Kept.antt =====
-- The vote in the handlers of requests and of the election timer.
use enclave_raft.Prelude.{
  ◌-◌, ◌==◌, ◌⊎◌, inl, inr, ℕ, ◌+◌, ◌<◌, ◌^◌, ◌≡◌, ◌≢◌, refl, ap, Bool, true, false, Result, ok,
  err, arith, ltb, if◌then◌else◌,
}
use enclave_raft.Messages.{
  Req, MsgType, request_vote_request, append_entries_request, client_request, add_server_request,
  remove_server_request, sync_log_request, join_cluster_request, leave_cluster_request,
  install_snapshot_request,
}
use enclave_raft.Server.State.{Server, no_server}
use enclave_raft.Server.Monad.{M, if_keeps, continue, ◌>>=◌, when}
use enclave_raft.Server.Replicate.Frames.{each_peer-Sent}
use enclave_raft.Server.Elect.{
  update_term, ask_vote, request_vote, start_election, leave_cluster, restart_election_timer,
  step_down, handle_election_timeout, inc_term,
}
use enclave_raft.Server.Elect.Frames.{
  become_follower-Followed, become_leader-Led, ask_vote-Traced, restart_election_timer-Timed,
}
use enclave_raft.Server.Requests.{handle_vote_req, handle_append_entries, handle_cli_req}
use enclave_raft.Server.Install.{
  handle_add_srv_req, handle_rm_srv_req, handle_log_sync_req, handle_leave_cluster_req,
  handle_install_snapshot_req,
}
use enclave_raft.Server.Requests.Frames.{
  state_of, handle_append_entries_state, handle_cli_req_state,
}
use enclave_raft.Server.Install.Frames.{
  handle_add_srv_req_state, handle_rm_srv_req_state, handle_log_sync_req_state,
  handle_leave_cluster_req_state, handle_install_snapshot_req_state,
}
use enclave_raft.Server.Public.{has_term, hear_term, dispatch_req, process_req}
use enclave_raft.Server.Votes.{VoteKept}

pub VoteKept-same_state : (s t : Server) → t.state ≡ s.state → VoteKept s t
VoteKept-same_state s t h = ground arith

pub VoteKept-refl : (s : Server) → VoteKept s s
VoteKept-refl s = VoteKept-same_state s s refl

pub VoteKept-trans : (s t u : Server) → VoteKept s t → VoteKept t u → VoteKept s u
VoteKept-trans s t u h k = ground arith

continue-VoteKept :
    {A B : Type 0} (f : A → M B) (r : Result A) (s : Server)
    → ((a : A) (t : Server) → VoteKept t (f a t).1)
    → VoteKept s (continue f r s).1
continue-VoteKept f (ok a) s h = h a s
continue-VoteKept f (err e) s h = VoteKept-refl s

pub bind-VoteKept :
    {A B : Type 0} (m : M A) (f : A → M B) (s : Server)
    → VoteKept s (m s).1
    → ((a : A) (t : Server) → VoteKept t (f a t).1)
    → VoteKept s ((m >>= f) s).1
bind-VoteKept m f s h k =
    VoteKept-trans s (m s).1 ((m >>= f) s).1 h (continue-VoteKept f (m s).0 (m s).1 k)

-- A higher term comes with no vote; otherwise nothing changes.
pub update_term_state :
    (term : ℕ) (s : Server)
    → (update_term term s).1.state
      ≡ (if ltb s.state.term term then record { term = term; voted_for = no_server } else s.state)
unfolding update_term
update_term_state term s = grind (arith, become_follower-Followed)

pub update_term-VoteKept : (term : ℕ) (s : Server) → VoteKept s (update_term term s).1
update_term-VoteKept term s = ground (arith, update_term_state term s)

pub handle_vote_req-VoteKept : (req : Req) (s : Server) → VoteKept s (handle_vote_req req s).1
unfolding handle_vote_req
handle_vote_req-VoteKept req s = ground arith

pub dispatch_req-VoteKept :
    (now : ℕ) (t : MsgType) (req : Req) (s : Server)
    → t ≢ join_cluster_request
    → VoteKept s (dispatch_req now t req s).1
unfolding dispatch_req
dispatch_req-VoteKept now append_entries_request req s h =
    VoteKept-same_state s (handle_append_entries req s).1 (handle_append_entries_state req s)
dispatch_req-VoteKept now request_vote_request req s h = handle_vote_req-VoteKept req s
dispatch_req-VoteKept now client_request req s h =
    VoteKept-same_state s (handle_cli_req now req s).1 (handle_cli_req_state now req s)
dispatch_req-VoteKept now add_server_request req s h =
    VoteKept-same_state s (handle_add_srv_req req s).1 (handle_add_srv_req_state req s)
dispatch_req-VoteKept now remove_server_request req s h =
    VoteKept-same_state s (handle_rm_srv_req req s).1 (handle_rm_srv_req_state req s)
dispatch_req-VoteKept now sync_log_request req s h =
    VoteKept-same_state s (handle_log_sync_req req s).1 (handle_log_sync_req_state req s)
dispatch_req-VoteKept now join_cluster_request req s h = absurd (h refl)
dispatch_req-VoteKept now leave_cluster_request req s h =
    VoteKept-same_state s (handle_leave_cluster_req req s).1 (handle_leave_cluster_req_state req s)
dispatch_req-VoteKept now install_snapshot_request req s h =
    VoteKept-same_state s (handle_install_snapshot_req req s).1
      (handle_install_snapshot_req_state req s)
dispatch_req-VoteKept now _ req s h = VoteKept-refl s

hear_term-VoteKept : (req : Req) (s : Server) → VoteKept s (hear_term req s).1
unfolding hear_term
hear_term-VoteKept req s =
    bind-VoteKept (update_term req.term) _ s (update_term-VoteKept req.term s) (λ b t. ground arith)

pub when_hear-VoteKept :
    (b : Bool) (req : Req) (s : Server) → VoteKept s (when b (hear_term req) s).1
when_hear-VoteKept true req s = hear_term-VoteKept req s
when_hear-VoteKept false req s = VoteKept-refl s

-- No request but one to join a cluster lowers the term or takes a vote back.
pub process_req-VoteKept :
    (now : ℕ) (req : Req) (s : Server)
    → req.type ≢ join_cluster_request
    → VoteKept s (process_req now req s).1
unfolding process_req
process_req-VoteKept now req s h =
    bind-VoteKept (when (has_term req.type) (hear_term req)) _ s
      (when_hear-VoteKept (has_term req.type) req s)
      (λ _ t. dispatch_req-VoteKept now req.type req t h)

-- A candidate votes for itself.
pub request_vote_state :
    (s : Server) → (request_vote s).1.state ≡ record { term = s.state.term; voted_for = s.id }
unfolding request_vote
request_vote_state s = grind (arith, become_leader-Led, each_peer-Sent ask_vote ask_vote-Traced)

-- An election takes the next term and gives the server's vote to itself.
pub start_election_state :
    (s : Server)
    → (start_election s).1.state ≡ record { term = inc_term s.state.term; voted_for = s.id }
unfolding start_election
start_election_state s = grind (arith, request_vote_state, restart_election_timer-Timed)

pub leave_cluster_state : (s : Server) → (leave_cluster s).1.state ≡ s.state
unfolding leave_cluster
leave_cluster_state s = grind arith

step_down_state : (s : Server) → (step_down s).1.state ≡ s.state
unfolding step_down
step_down_state s =
    if_keeps state_of (t.steps_to_down == 0) leave_cluster restart_election_timer t
      (leave_cluster_state t) (ap state_of (restart_election_timer-Timed t))
  where
    t : Server
    t = record s { steps_to_down = s.steps_to_down - 1 }

-- A timeout leaves the term and the vote, or starts an election.
pub handle_election_timeout_state :
    (s : Server)
    → ((handle_election_timeout s).1.state ≡ s.state)
      ⊎ ((handle_election_timeout s).1.state
          ≡ record { term = inc_term s.state.term; voted_for = s.id })
unfolding handle_election_timeout
handle_election_timeout_state s =
    ground (arith, step_down_state s, start_election_state s, restart_election_timer-Timed s)

word_next : (n : ℕ) → n + 1 < 2 ^ 64 → inc_term n ≡ n + 1
word_next n h = omega arith

pub handle_election_timeout-VoteKept :
    (s : Server) → s.state.term + 1 < 2 ^ 64 → VoteKept s (handle_election_timeout s).1
handle_election_timeout-VoteKept s k = elim (handle_election_timeout_state s) [
  | inl h ↦ VoteKept-same_state s (handle_election_timeout s).1 h
  | inr h ↦ ground (arith, word_next s.state.term k)
]
