-- ===== src/Server/Elect/Frames.antt =====
-- What changes of role, elections and timers leave alone.
use enclave_raft.Prelude.{
  Result, ◌≡◌, refl, none, List, [], ◌∷◌, ◌++◌, ok, arith, ap, sym, ◌∙◌, append-nil, append_assoc,
  true, false, if◌then◌else◌,
}
use enclave_raft.Server.State.{
  Server, Peer, PeerMap, Action, follower, leader, peer_id, cancel_hb, schedule_election,
  cancel_election,
}
use enclave_raft.Server.Monad.{each_peer}
use enclave_raft.Server.Replicate.Frames.{
  Traced, each_peer-Sent, term_for_log-Traced, request_append_entries_all-Committed,
}
use enclave_raft.Server.Elect.{
  restart_election_timer, stop_election_timer, disable_hb, lead_peer, save_initial_config,
  become_leader, become_follower, ask_vote,
}

lead_peer-Traced : (p : Peer) (s : Server) → Traced s (lead_peer p s).2
unfolding lead_peer
lead_peer-Traced p s = refl

disable_hb-Traced : (p : Peer) (s : Server) → Traced s (disable_hb p s).2
unfolding disable_hb
disable_hb-Traced p s = refl

pub ask_vote-Traced : (p : Peer) (s : Server) → Traced s (ask_vote p s).2
unfolding ask_vote
ask_vote-Traced p s = grind (arith, term_for_log-Traced)

-- The server but for its trace and its election timer.
abbrev pub Timed : Server → Server → Type 0
Timed s s' = s' ≡ record s { trace = s'.trace; election_task = s'.election_task }

pub restart_election_timer-Timed : (s : Server) → Timed s (restart_election_timer s).1
unfolding restart_election_timer
restart_election_timer-Timed s = ground arith

-- What a new leader may change: the peers, the log (by the first configuration) and what it commits,
-- not its term, its vote or the votes for it.
abbrev pub Led : Server → Server → Type 0
Led s s' = s' ≡ record s {
  trace = s'.trace;
  peers = s'.peers;
  quick_commit_idx = s'.quick_commit_idx;
  role = s'.role;
  leader_id = s'.leader_id;
  srv_to_join = s'.srv_to_join;
  config = s'.config;
  config_changing = s'.config_changing;
  log_store = s'.log_store;
}

save_initial_config-Led : (s : Server) → Led s (save_initial_config s).1
unfolding save_initial_config
save_initial_config-Led s = ground arith

abbrev to_lead : Server → Server
to_lead s = record s { role = leader; leader_id = s.id; srv_to_join = none }

-- What a new leader leaves alone.
pub become_leader-Led : (s : Server) → Led s (become_leader s).1
unfolding become_leader stop_election_timer
become_leader-Led s = grind (
  arith,
  each_peer-Sent lead_peer lead_peer-Traced,
  save_initial_config-Led,
  request_append_entries_all-Committed,
)

-- What a follower may change on its way: its heartbeats, its role, its timer and the join.
abbrev pub Followed : Server → Server → Type 0
Followed s s' = s' ≡ record s {
  trace = s'.trace;
  peers = s'.peers;
  role = s'.role;
  srv_to_join = s'.srv_to_join;
  election_task = s'.election_task;
}

pub become_follower-Followed : (s : Server) → Followed s (become_follower s).1
unfolding become_follower
become_follower-Followed s =
    grind (arith, each_peer-Sent disable_hb disable_hb-Traced, restart_election_timer-Timed)

-- The peers without heartbeats.
abbrev pub stilled : PeerMap → PeerMap
stilled [] = []
stilled ((k, p) ∷ ps) = (k, record p { hb_enabled = false }) ∷ stilled ps

-- The trace after the heartbeats of all peers are cancelled, in the order of the peers.
abbrev pub cancels : PeerMap → List Action → List Action
cancels [] t = t
cancels ((k, p) ∷ ps) t = cancels ps (cancel_hb (peer_id p) ∷ t)

each_disable_hb :
    (front ps : PeerMap) (s : Server)
    → each_peer disable_hb front ps s
      ≡ (ok tt, record s { peers = front ++ stilled ps; trace = cancels ps s.trace })
unfolding each_peer disable_hb
each_disable_hb front [] s = ap (λ l. (ok tt, record s { peers = l })) (sym (append-nil front))
each_disable_hb front ((k, p) ∷ ps) s =
    each_disable_hb (front ++ ((k, record p { hb_enabled = false }) ∷ [])) ps
      (record s { trace = cancel_hb (peer_id p) ∷ s.trace })
    ∙ ap
        (λ l. (ok tt, record s { peers = l; trace = cancels ps (cancel_hb (peer_id p) ∷ s.trace) }))
        (append_assoc front ((k, record p { hb_enabled = false }) ∷ []) (stilled ps))

-- The election timer set anew: a running one is cancelled first, and a server that catches up has none.
abbrev pub timed : Server → Server
timed s = if s.catching_up then s else record s {
  election_task = true;
  trace = schedule_election ∷ (if s.election_task then cancel_election ∷ s.trace else s.trace);
}

restart_election_timer-timed : (s : Server) → restart_election_timer s ≡ (ok tt, timed s)
unfolding restart_election_timer
restart_election_timer-timed s = ground arith

pub restart_election_timer_ok : (s : Server) → (restart_election_timer s).0 ≡ ok tt
restart_election_timer_ok s =
    ap (λ (x : Result (Unit {0}) × Server). x.0) (restart_election_timer-timed s)

-- A server can always become a follower: the operation does not throw; it cancels the heartbeats of all
-- peers, drops a server that is to join, takes the role, sets the election timer anew unless the server
-- catches up, and changes nothing else.
pub become_follower_lem :
    (s : Server)
    → become_follower s ≡ (
      ok tt,
      timed (record s {
        peers = stilled s.peers;
        trace = cancels s.peers s.trace;
        srv_to_join = none;
        role = follower;
      }),
    )
unfolding become_follower
become_follower_lem s = rw (each_disable_hb [] s.peers s) (restart_election_timer-timed _)
