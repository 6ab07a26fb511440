-- ===== src/Server/Install/Frames.antt =====
-- What the requests that change the cluster or send a snapshot leave alone.
use enclave_raft.Prelude.{◌≡◌, arith}
use enclave_raft.Entry.{LogEntry}
use enclave_raft.Snapshot.{Snapshot, SnapshotSyncReq}
use enclave_raft.Messages.{Req, Resp}
use enclave_raft.Server.State.{Server}
use enclave_raft.Server.Replicate.Frames.{commit-Committed}
use enclave_raft.Server.Elect.Frames.{restart_election_timer-Timed}
use enclave_raft.Server.Elect.{stop_election_timer}
use enclave_raft.Server.Members.Frames.{reconfigure_state, invite_srv_to_join_cluster-Traced}
use enclave_raft.Server.Requests.Frames.{hear_leader-Followed}
use enclave_raft.Server.Install.{
  add_new_server, handle_add_srv_req, remove_server, handle_rm_srv_req, handle_log_sync_req,
  handle_leave_cluster_req, install_snapshot, handle_snapshot_sync_req, save_block,
  handle_install_snapshot_req,
}

add_new_server_state :
    (e : LogEntry) (r : Resp) (s : Server) → (add_new_server e r s).1.state ≡ s.state
unfolding add_new_server
add_new_server_state e r s = grind (arith, invite_srv_to_join_cluster-Traced)

pub handle_add_srv_req_state :
    (req : Req) (s : Server) → (handle_add_srv_req req s).1.state ≡ s.state
unfolding handle_add_srv_req
handle_add_srv_req_state req s = grind (arith, add_new_server_state)

remove_server_state :
    (e : LogEntry) (r : Resp) (s : Server) → (remove_server e r s).1.state ≡ s.state
unfolding remove_server
remove_server_state e r s = ground arith

pub handle_rm_srv_req_state : (req : Req) (s : Server) → (handle_rm_srv_req req s).1.state ≡ s.state
unfolding handle_rm_srv_req
handle_rm_srv_req_state req s = grind (arith, remove_server_state)

pub handle_log_sync_req_state :
    (req : Req) (s : Server) → (handle_log_sync_req req s).1.state ≡ s.state
unfolding handle_log_sync_req
handle_log_sync_req_state req s = grind (arith, commit-Committed)

pub handle_leave_cluster_req_state :
    (req : Req) (s : Server) → (handle_leave_cluster_req req s).1.state ≡ s.state
unfolding handle_leave_cluster_req
handle_leave_cluster_req_state req s = ground arith

install_snapshot_state : (snp : Snapshot) (s : Server) → (install_snapshot snp s).1.state ≡ s.state
unfolding install_snapshot stop_election_timer
install_snapshot_state snp s = grind (arith, reconfigure_state, restart_election_timer-Timed)

handle_snapshot_sync_req_state :
    (r : SnapshotSyncReq) (s : Server) → (handle_snapshot_sync_req r s).1.state ≡ s.state
unfolding handle_snapshot_sync_req
handle_snapshot_sync_req_state r s = grind (arith, install_snapshot_state)

save_block_state : (e : LogEntry) (r : Resp) (s : Server) → (save_block e r s).1.state ≡ s.state
unfolding save_block
save_block_state e r s = grind (arith, handle_snapshot_sync_req_state)

pub handle_install_snapshot_req_state :
    (req : Req) (s : Server) → (handle_install_snapshot_req req s).1.state ≡ s.state
unfolding handle_install_snapshot_req
handle_install_snapshot_req_state req s = grind (arith, hear_leader-Followed, save_block_state)
