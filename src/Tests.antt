-- ===== src/Tests.antt =====
-- Concrete data: a cluster of three servers, a log with three entries, and the theorems on it.
pub mod Codecs
pub mod Log
pub mod Raft
pub mod Commits
pub mod Ports
pub mod Members
pub mod Enclaves
use enclave_raft.Prelude.{ℕ, Bool, true, false, Option, none, some, List, [], ◌∷◌}
use enclave_raft.Buffer.{Buffer}
use enclave_raft.Config.{SrvConfig, ClusterConfig}
use enclave_raft.Entry.{LogEntry, app_log, conf}
use enclave_raft.Snapshot.{Snapshot}
use enclave_raft.LogStore.{LogStore}
use enclave_raft.LogStore.View.{store}
use enclave_raft.Messages.{Req, MsgType, request_vote_request, append_entries_request}
use enclave_raft.Server.State.{
  Server, SrvRole, Peer, PeerMap, Params, Machine, follower, candidate, new_peer,
}

-- What fresh memory holds.
abbrev pub fresh : ℕ → ℕ
fresh i = 205

abbrev pub srv : ℕ → SrvConfig
srv id = record { id = id; endpoint = 115 ∷ 118 ∷ [] }

abbrev pub cluster : ClusterConfig
cluster = record { log_idx = 1; prev_log_idx = 0; servers = srv 1 ∷ srv 2 ∷ srv 3 ∷ [] }

abbrev pub entry : ℕ → ℕ → LogEntry
entry term byte = record {
  term = term;
  val_type = app_log;
  buf = record { bytes = byte ∷ []; pos = 0 };
}

abbrev pub snp : Snapshot
snp = record { last_log_idx = 4; last_log_term = 2; size = 12; last_config = cluster }

abbrev pub dummy : LogEntry
dummy = record { term = 0; val_type = app_log; buf = record { bytes = []; pos = 0 } }

abbrev pub entries : List LogEntry
entries = entry 1 10 ∷ entry 1 11 ∷ entry 2 12 ∷ []

abbrev pub log : LogStore
log = store dummy 1 entries

abbrev pub params : Params
params = record {
  election_timeout_upper_bound = 500;
  election_timeout_lower_bound = 250;
  heart_beat_interval = 100;
  rpc_failure_backoff = 25;
  log_sync_batch_size = 1000;
  log_sync_stop_gap = 10;
  snapshot_distance = 0;
  snapshot_block_size = 0;
  max_append_size = 100;
  reserved_log_items = 0;
}

abbrev pub machine : Machine
machine = record {
  last_snapshot = none;
  can_apply = λ s. true;
  read_snapshot_data = λ s offset n. (n, []);
}

-- A peer that has matched the log up to an index.
abbrev pub peer : ℕ → ℕ → Peer
peer id matched = record (new_peer (srv id) params) { matched_idx = matched; next_log_idx = 4 }

abbrev pub peers : PeerMap
peers = (2, peer 2 3) ∷ (3, peer 3 1) ∷ []

-- Server 1 in term 2, in a role and with a vote.
abbrev pub node : SrvRole → ℕ → Server
node role voted_for = record {
  params = params;
  fresh = fresh;
  machine = machine;
  create_client = λ endpoint. some 7;
  id = 1;
  leader_id = 2;
  votes_granted = 0;
  quick_commit_idx = 0;
  sm_commit_index = 0;
  election_completed = false;
  config_changing = false;
  catching_up = false;
  steps_to_down = 0;
  snp_in_progress = false;
  election_task = false;
  peers = peers;
  rpc_clients = [];
  role = role;
  state = record { term = 2; voted_for = voted_for };
  log_store = log;
  config = cluster;
  srv_to_join = none;
  conf_to_add = none;
  last_snapshot = none;
  voted_servers = [];
  quorum_elapsed = 0;
  trace = [];
}

abbrev pub req : MsgType → ℕ → ℕ → ℕ → List LogEntry → Req
req type src last_term last_idx es = record {
  term = 3;
  type = type;
  src = src;
  dst = 1;
  last_log_term = last_term;
  last_log_idx = last_idx;
  commit_idx = 0;
  log_entries = es;
}
