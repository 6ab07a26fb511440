-- ===== src/Server/Start.antt =====
-- raft_enclave/raft/include/raft_server.hxx: the constructor of the server. The random timeouts and
-- the locks have no part in the state.
pub mod Restart
use enclave_raft.Prelude.{
  ℕ, zero, suc, ◌+◌, ◌-◌, ◌%◌, ◌^◌, max, Bool, true, false, not, Option, none, some, List, [], ◌∷◌,
  ◌==◌, if◌then◌else◌,
}
use enclave_raft.Config.{SrvConfig}
use enclave_raft.Entry.{LogEntry, conf, val_eq}
use enclave_raft.Snapshot.{SrvState}
use enclave_raft.LogStore.{LogStore, entry_at, next_slot, start_index}
use enclave_raft.App.StateMgr.{StateMgr}
use enclave_raft.Server.State.{
  Server, Params, Machine, ClientFactory, PeerMap, no_server, follower, new_peer,
}
use enclave_raft.Server.Monad.{M, ◌>>=◌, ◌>>◌, gets, modify, or_fault}
use enclave_raft.Server.Elect.{restart_election_timer}
use enclave_raft.Server.Members.{insert_peer}

-- A server without a saved state starts in term 0 and has not voted.
unfoldable pub first_state : Option SrvState → SrvState
first_state none = record { term = 0; voted_for = no_server }
first_state (some st) = st

-- The members as the initializers leave them; `committed` is the state machine's last index.
unfoldable pub initial :
    Params → (ℕ → ℕ) → Machine → ClientFactory → ℕ → LogStore → StateMgr → Server
unfolding first_state
initial params fresh machine create_client committed log mgr = record {
  params = params;
  fresh = fresh;
  machine = machine;
  create_client = create_client;
  id = mgr.my_id;
  leader_id = no_server;
  votes_granted = 0;
  quick_commit_idx = committed;
  sm_commit_index = committed;
  election_completed = true;
  config_changing = false;
  catching_up = false;
  steps_to_down = 0;
  snp_in_progress = false;
  election_task = false;
  peers = [];
  rpc_clients = [];
  role = follower;
  state = first_state mgr.saved_state;
  log_store = log;
  config = mgr.saved_config;
  srv_to_join = none;
  conf_to_add = none;
  last_snapshot = machine.last_snapshot;
  voted_servers = [];
  quorum_elapsed = 2 ^ 31 - 1;
  trace = [];
}

-- The loop over `n` entries from `i` on: whether one of them is a configuration; `none` where there
-- is no entry.
unfoldable pub has_conf : ℕ → ℕ → LogStore → Option Bool
has_conf zero i log = some false
has_conf (suc n) i log =
    let more = has_conf n (i + 1) log in
    elim (entry_at i log) [
      | none ↦ none
      | some e ↦ if val_eq e.val_type conf then some true else more
    ]

-- The entries that are not committed yet.
unfoldable pub find_conf_change : M (Unit {0})
unfolding has_conf
find_conf_change = do
  s ← gets (λ s. s)
  let i = max ((s.sm_commit_index + 1) % 2 ^ 64) (start_index s.log_store)
  found ← or_fault (has_conf (next_slot s.log_store - i) i s.log_store)
  modify (λ s. if found then record s { config_changing = true } else s)

-- A peer for every server of the configuration but this one.
unfoldable pub config_peers : ℕ → Params → List SrvConfig → PeerMap → PeerMap
config_peers id params [] ps = ps
config_peers id params (c ∷ cs) ps =
    config_peers id params cs
      (if not (c.id == id) then insert_peer c.id (new_peer c params) ps else ps)

unfoldable pub start_server : M (Unit {0})
unfolding find_conf_change config_peers
start_server = do
  find_conf_change
  modify (λ s. record s { peers = config_peers s.id s.params s.config.servers s.peers })
  restart_election_timer
