-- ===== src/Server/State.antt =====
-- raft_enclave/raft/include/raft_server.hxx, peer.hxx, raft_params.hxx: the state of the server.
use enclave_raft.Prelude.{ℕ, ◌+◌, ◌-◌, ◌/◌, Bool, false, Option, none, some, List, max, min}
use enclave_raft.Buffer.{Buffer}
use enclave_raft.Config.{SrvConfig, ClusterConfig}
use enclave_raft.Snapshot.{Snapshot, SnapshotSyncCtx, SrvState}
use enclave_raft.LogStore.{LogStore}
use enclave_raft.Messages.{Req}

-- -1 as the bit pattern of an `int32`: no server.
abbrev pub no_server : ℕ
no_server = 0xffff_ffff

pub data SrvRole : Type 0 where
  follower candidate leader : SrvRole

-- `raft_params`: intervals and counts that a deployment sets to numbers from 0 on.
pub record Params : Type 0 where
  pub election_timeout_upper_bound : ℕ
  pub election_timeout_lower_bound : ℕ
  pub heart_beat_interval : ℕ
  pub rpc_failure_backoff : ℕ
  pub log_sync_batch_size : ℕ
  pub log_sync_stop_gap : ℕ
  pub snapshot_distance : ℕ
  pub snapshot_block_size : ℕ
  pub max_append_size : ℕ
  pub reserved_log_items : ℕ

unfoldable pub max_hb_interval : Params → ℕ
max_hb_interval p =
    max p.heart_beat_interval (p.election_timeout_lower_bound - p.heart_beat_interval / 2)

-- A peer. Its timer task and its rpc client show in the actions of the server.
pub record Peer : Type 0 where
  pub config : SrvConfig
  pub current_hb_interval : ℕ
  pub hb_interval : ℕ
  pub rpc_backoff : ℕ
  pub max_hb_interval : ℕ
  pub next_log_idx : ℕ
  pub matched_idx : ℕ
  pub last_resp : ℕ
  pub busy : Bool
  pub pending_commit : Bool
  pub hb_enabled : Bool
  pub snp_sync_ctx : Option SnapshotSyncCtx

unfoldable pub new_peer : SrvConfig → Params → Peer
unfolding max_hb_interval
new_peer c p = record {
  config = c;
  current_hb_interval = p.heart_beat_interval;
  hb_interval = p.heart_beat_interval;
  rpc_backoff = p.rpc_failure_backoff;
  max_hb_interval = max_hb_interval p;
  next_log_idx = 0;
  matched_idx = 0;
  last_resp = 0;
  busy = false;
  pending_commit = false;
  hb_enabled = false;
  snp_sync_ctx = none;
}

abbrev pub peer_id : Peer → ℕ
peer_id p = p.config.id

unfoldable pub slow_down_hb : Peer → Peer
slow_down_hb p = record p {
  current_hb_interval = min p.max_hb_interval (p.current_hb_interval + p.rpc_backoff);
}

unfoldable pub resume_hb_speed : Peer → Peer
resume_hb_speed p = record p { current_hb_interval = p.hb_interval }

-- `set_snapshot_in_sync`
unfoldable pub set_snapshot_in_sync : Option Snapshot → Peer → Peer
set_snapshot_in_sync none p = record p { snp_sync_ctx = none }
set_snapshot_in_sync (some s) p = record p {
  snp_sync_ctx = some (record { snapshot = s; offset = 0 });
}

-- The two response handlers that a request is sent with.
pub data Handler : Type 0 where
  resp_handler ex_resp_handler : Handler

-- What the server asks of its environment: the network, the timers, the state manager, the state
-- machine and the process. A timer or a request names its peer by the peer's id,
-- a request to the leader its client.
pub data Action : Type 0 where
  send : ℕ → Req → Handler → Action
  send_by_client : ℕ → Req → Action
  schedule_election cancel_election : Action
  schedule_hb cancel_hb : ℕ → Action
  schedule_retry : ℕ → Req → Action
  save_state : SrvState → Action
  save_config : ClusterConfig → Action
  system_exit : ℕ → Action
  notify_commit : Action
  pre_commit rollback sm_commit : ℕ → Buffer → Action
  save_snapshot_data : Snapshot → ℕ → Buffer → Action
  apply_snapshot create_snapshot : Snapshot → Action

-- What the state machine (an interface of the program) answers: its last snapshot, whether it can
-- apply one, and the bytes of a block with how many of them were read.
pub record Machine : Type 0 where
  pub last_snapshot : Option Snapshot
  pub can_apply : Snapshot → Bool
  pub read_snapshot_data : Snapshot → ℕ → ℕ → ℕ × List ℕ

-- The client factory (an interface of the program): a number that names the client it makes for an
-- endpoint, or a null pointer.
abbrev pub ClientFactory : Type 0
ClientFactory = List ℕ → Option ℕ

-- An `unordered_map` of peers, as an association list in the order of its iteration.
abbrev pub PeerMap : Type 0
PeerMap = List (ℕ × Peer)

-- The fields of `raft_server`; `quorum_elapsed` is the static variable of `handle_cli_req`,
-- `fresh` what fresh memory holds, and `trace` the actions so far, the latest first.
pub record Server : Type 0 where
  pub params : Params
  pub fresh : ℕ → ℕ
  pub machine : Machine
  pub create_client : ClientFactory
  pub id : ℕ
  pub leader_id : ℕ
  pub votes_granted : ℕ
  pub quick_commit_idx : ℕ
  pub sm_commit_index : ℕ
  pub election_completed : Bool
  pub config_changing : Bool
  pub catching_up : Bool
  pub steps_to_down : ℕ
  pub snp_in_progress : Bool
  pub election_task : Bool
  pub peers : PeerMap
  pub rpc_clients : List (ℕ × Option ℕ)
  pub role : SrvRole
  pub state : SrvState
  pub log_store : LogStore
  pub config : ClusterConfig
  pub srv_to_join : Option Peer
  pub conf_to_add : Option SrvConfig
  pub last_snapshot : Option Snapshot
  pub voted_servers : List ℕ
  pub quorum_elapsed : ℕ
  pub trace : List Action
