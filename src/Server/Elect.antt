-- ===== src/Server/Elect.antt =====
-- raft_enclave/raft/src/raft_server.cxx and raft_server_handle_timeout.cxx: roles, terms, votes and
-- timers.
pub mod Frames
use enclave_raft.Prelude.{
  ◌%◌, ◌^◌, ℕ, zero, suc, ◌+◌, ◌-◌, ◌/◌, Bool, true, false, ◌&&◌, not, Option, none, some, List, [],
  ◌∷◌, ltb, ◌==◌, if◌then◌else◌, length, Result, ok, err,
}
use enclave_raft.Config
use enclave_raft.Config.{SrvConfig, ClusterConfig, set_log_idx}
use enclave_raft.Entry.{LogEntry, conf}
use enclave_raft.Snapshot.{SrvState}
use enclave_raft.LogStore.{next_slot}
use enclave_raft.LogStore
use enclave_raft.Messages.{Req, request_vote_request}
use enclave_raft.Server.State.{
  Server, Peer, PeerMap, SrvRole, leader, follower, candidate, no_server, resp_handler, send,
  schedule_election, cancel_election, schedule_hb, cancel_hb, save_state, save_config, system_exit,
  peer_id, set_snapshot_in_sync, resume_hb_speed,
}
use enclave_raft.Server.Monad.{
  M, ◌>>=◌, ◌>>◌, pure, done, lift, gets, modify, emit, act, fatal, when, PeerM, for_peers,
}
use enclave_raft.Server.Replicate.{
  is_leader, request_append_entries, request_append_entries_all, term_for_log,
}

-- A running timer is cancelled first; a server that catches up starts none.
unfoldable pub restart_election_timer : M (Unit {0})
restart_election_timer = do
  s ← gets (λ s. s)
  when (not s.catching_up) (do
    when s.election_task (act cancel_election)
    modify (λ s. record s { election_task = true })
    act schedule_election)

unfoldable pub stop_election_timer : M (Unit {0})
stop_election_timer s = when s.election_task (act cancel_election) s

-- `enable_hb_for_peer`
unfoldable pub enable_hb_for_peer : PeerM (Unit {0})
enable_hb_for_peer p s =
    (ok tt, resume_hb_speed (record p { hb_enabled = true }), emit (schedule_hb (peer_id p)) s)

-- `enable_hb(false)`
unfoldable pub disable_hb : PeerM (Unit {0})
disable_hb p s = (ok tt, record p { hb_enabled = false }, emit (cancel_hb (peer_id p)) s)

-- The body of the loop of `become_leader`.
unfoldable pub lead_peer : PeerM (Unit {0})
unfolding enable_hb_for_peer
lead_peer p s =
    enable_hb_for_peer
      (record p { next_log_idx = next_slot s.log_store; snp_sync_ctx = none; busy = false }) s

-- An entry in the server's term behind the log.
unfoldable pub append_entry : LogEntry → M ℕ
append_entry e s =
    let (idx, log) = LogStore.append e s.log_store in (ok idx, record s { log_store = log })

-- The first leader writes the initial configuration to the log.
unfoldable pub save_initial_config : M (Unit {0})
unfolding append_entry
save_initial_config = do
  modify (λ s. record s { config = set_log_idx (next_slot s.log_store) s.config })
  s ← gets (λ s. s)
  buf ← lift (Config.serialize s.fresh s.config)
  append_entry (record { term = s.state.term; val_type = conf; buf = buf })
  modify (λ s. record s { config_changing = true })

unfoldable pub become_leader : M (Unit {0})
become_leader = do
  stop_election_timer
  modify (λ s. record s { role = leader; leader_id = s.id; srv_to_join = none })
  for_peers lead_peer
  s ← gets (λ s. s)
  when (s.config.log_idx == 0) save_initial_config
  request_append_entries_all

unfoldable pub become_follower : M (Unit {0})
become_follower = do
  for_peers disable_hb
  modify (λ s. record s { srv_to_join = none; role = follower })
  restart_election_timer

abbrev pub persist : M (Unit {0})
persist s = act (save_state s.state) s

-- A higher term makes the server a follower that has not voted.
unfoldable pub update_term : ℕ → M Bool
update_term term s =
    if ltb s.state.term term
    then (do
      modify (λ s. record s {
        state = record { term = term; voted_for = no_server };
        election_completed = false;
        votes_granted = 0;
        voted_servers = [];
      })
      persist
      become_follower
      pure true)
        s
    else (ok false, s)

-- A set as a list without repetition.
unfoldable pub contains : ℕ → List ℕ → Bool
contains x [] = false
contains x (y ∷ ys) = if x == y then true else contains x ys

unfoldable pub add_voter : ℕ → List ℕ → List ℕ
unfolding contains
add_voter x ys = if contains x ys then ys else x ∷ ys

-- The body of the loop of `request_vote`: each peer is asked for its vote.
unfoldable pub ask_vote : PeerM (Unit {0})
ask_vote p s =
    let (r, t) = term_for_log (next_slot s.log_store - 1) s in
    elim r [
      | err e ↦ (err e, p, t)
      | ok last_term ↦ (
        ok tt,
        p,
        emit
            (send (peer_id p)
              (record {
                term = s.state.term;
                type = request_vote_request;
                src = s.id;
                dst = peer_id p;
                last_log_term = last_term;
                last_log_idx = next_slot s.log_store - 1;
                commit_idx = s.quick_commit_idx;
                log_entries = [];
              })
              resp_handler)
            t,
      )
    ]

-- The server votes for itself; alone it has won.
unfoldable pub request_vote : M (Unit {0})
request_vote = do
  modify (λ s. record s { state = record { term = s.state.term; voted_for = s.id } })
  persist
  modify (λ s. record s {
    votes_granted = s.votes_granted + 1;
    voted_servers = add_voter s.id s.voted_servers;
  })
  s ← gets (λ s. s)
  if ltb ((length s.peers + 1) / 2) s.votes_granted
      then (do modify (λ s. record s { election_completed = true }); become_leader)
      else for_peers ask_vote

-- The server taken out of the configuration, if it is in it.
unfoldable pub erase_server : ℕ → List SrvConfig → List SrvConfig
erase_server id [] = []
erase_server id (c ∷ cs) = if c.id == id then cs else c ∷ erase_server id cs

unfoldable pub has_server : ℕ → List SrvConfig → Bool
has_server id [] = false
has_server id (c ∷ cs) = if c.id == id then true else has_server id cs

-- The last step down: the server leaves its configuration and exits.
unfoldable pub leave_cluster : M (Unit {0})
unfolding erase_server has_server
leave_cluster = do
  s ← gets (λ s. s)
  when (has_server s.id s.config.servers) (do
    modify (λ s. record s {
      config = record (s.config) { servers = erase_server s.id s.config.servers };
    })
    t ← gets (λ s. s)
    act (save_config t.config))
  fatal

-- `inc_term`, on 64-bit words.
abbrev pub inc_term : ℕ → ℕ
inc_term term = (term + 1) % 2 ^ 64

-- A new term, and a vote for no one yet.
abbrev pub new_election : Server → Server
new_election s = record s {
  state = record { term = inc_term s.state.term; voted_for = no_server };
  role = candidate;
  votes_granted = 0;
  voted_servers = [];
  election_completed = false;
}

unfoldable pub start_election : M (Unit {0})
start_election = do
  modify new_election
  persist
  request_vote
  s ← gets (λ s. s)
  when (not (is_leader s.role)) restart_election_timer

-- A timeout closer to the end of the server's time in the cluster.
unfoldable pub step_down : M (Unit {0})
step_down = do
  modify (λ s. record s { steps_to_down = s.steps_to_down - 1 })
  t ← gets (λ s. s)
  if t.steps_to_down == 0 then leave_cluster else restart_election_timer

unfoldable pub handle_election_timeout : M (Unit {0})
handle_election_timeout s =
    if ltb 0 s.steps_to_down
    then step_down s
    else if s.catching_up
    then restart_election_timer s
    else if is_leader s.role
    then fatal s
    else start_election s

-- `handle_hb_timeout`: the peer gets a request, and its timer runs on while it is enabled.
unfoldable pub handle_hb_timeout : PeerM (Unit {0})
handle_hb_timeout p s =
    if is_leader s.role
    then (let (r, p', s') = request_append_entries p s in
        elim r [
          | err e ↦ (err e, p', s')
          | ok sent ↦ (ok tt, p', if p'.hb_enabled then emit (schedule_hb (peer_id p')) s' else s')
        ])
    else (ok tt, p, s)
