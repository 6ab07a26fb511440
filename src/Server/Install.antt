-- ===== src/Server/Install.antt =====
-- raft_enclave/raft/src/raft_server_handle_req.cxx: the requests that change the cluster or send a
-- snapshot.
pub mod Frames
use enclave_raft.Prelude.{
  ℕ, zero, suc, ◌+◌, ◌-◌, Bool, true, false, ◌&&◌, ◌||◌, not, Option, none, some, List, [], ◌∷◌,
  ltb, leb, ◌==◌, if◌then◌else◌, length, Result, ok, err, raft_exception, pred64,
}
use enclave_raft.Buffer.{Buffer, size as buf_size, get_int}
use enclave_raft.Config.{SrvConfig, ClusterConfig, deserialize_srv}
use enclave_raft.Config
use enclave_raft.Entry.{LogEntry, LogValType, cluster_server, log_pack, conf, snp_sync_req, val_eq}
use enclave_raft.Snapshot.{Snapshot, SnapshotSyncReq, deserialize_sync}
use enclave_raft.LogStore.{LogStore, next_slot, apply_pack, compact}
use enclave_raft.Messages.{
  Req, Resp, MsgType, accept, add_server_response, remove_server_response, sync_log_response,
  join_cluster_response, leave_cluster_response, leave_cluster_request, install_snapshot_response,
}
use enclave_raft.Server.State.{
  Server, Peer, SrvRole, leader, follower, candidate, no_server, Action, send, ex_resp_handler,
  save_config, save_snapshot_data, apply_snapshot, new_peer, peer_id, system_exit,
}
use enclave_raft.Server.Monad.{
  M, ◌>>=◌, ◌>>◌, pure, done, lift, gets, modify, emit, act, fatal, or_fault, when, find_peer,
}
use enclave_raft.Server.Replicate.{commit, is_leader}
use enclave_raft.Server.Elect.{restart_election_timer, stop_election_timer, persist}
use enclave_raft.Server.Members.{is_some, reconfigure, invite_srv_to_join_cluster}
use enclave_raft.Server.Requests.{hear_leader}

-- A response that declines, until it is made to accept.
abbrev pub response : MsgType → ℕ → Server → Resp
response t dst s = record {
  term = s.state.term;
  type = t;
  src = s.id;
  dst = dst;
  next_idx = 0;
  accepted = false;
}

-- The one entry of a request, if it has exactly one.
abbrev pub only_entry : List LogEntry → Option LogEntry
only_entry [] = none
only_entry (e ∷ []) = some e
only_entry (e ∷ (f ∷ es)) = none

-- The only entry if it has the type that the request asks for.
abbrev pub entry_of : LogValType → Req → Option LogEntry
entry_of t req = elim (only_entry req.log_entries) [
  | none ↦ none
  | some e ↦ if val_eq e.val_type t then some e else none
]

abbrev accept_next : Resp → M Resp
accept_next resp = do s ← gets (λ s. s); pure (accept (next_slot s.log_store) resp)

unfoldable pub add_new_server : LogEntry → Resp → M Resp
add_new_server e resp = do
  conf_read ← lift (deserialize_srv e.buf)
  let srv = conf_read.0
  s ← gets (λ s. s)
  if is_some (find_peer srv.id s.peers) || (s.id == srv.id) || s.config_changing
      then pure resp
      else (do
        modify
            (λ s. record s { conf_to_add = some srv; srv_to_join = some (new_peer srv s.params) })
        invite_srv_to_join_cluster
        accept_next resp)

unfoldable pub handle_add_srv_req : Req → M Resp
unfolding add_new_server
handle_add_srv_req req = do
  s ← gets (λ s. s)
  let resp = response add_server_response s.leader_id s
  elim (entry_of cluster_server req) [
    | none ↦ pure resp
    | some e ↦ if is_leader s.role then add_new_server e resp else pure resp
  ]

-- The entry's payload is the id of the server to remove.
unfoldable pub remove_server : LogEntry → Resp → M Resp
remove_server e resp = do
  id_read ← lift (get_int e.buf)
  let srv_id = id_read.0
  s ← gets (λ s. s)
  if srv_id == s.id then pure resp else elim (find_peer srv_id s.peers) [
    | none ↦ pure resp
    | some p ↦ do
      act (
          send (peer_id p)
            (record {
              term = s.state.term;
              type = leave_cluster_request;
              src = s.id;
              dst = srv_id;
              last_log_term = 0;
              last_log_idx = next_slot s.log_store - 1;
              commit_idx = s.quick_commit_idx;
              log_entries = [];
            })
            ex_resp_handler)
      accept_next resp
  ]

unfoldable pub handle_rm_srv_req : Req → M Resp
unfolding remove_server
handle_rm_srv_req req = do
  s ← gets (λ s. s)
  let resp = response remove_server_response s.leader_id s
  elim (only_entry req.log_entries) [
    | none ↦ pure resp
    | some e ↦
        if not (buf_size e.buf == 4) || not (is_leader s.role) || s.config_changing
        then pure resp
        else remove_server e resp
  ]

-- `apply_pack` on the server's log: what it stored before a throw stays.
abbrev apply_to_log : ℕ → Buffer → M (Unit {0})
apply_to_log i b s =
    let (r, log) = apply_pack s.fresh i b s.log_store in (r, record s { log_store = log })

unfoldable pub handle_log_sync_req : Req → M Resp
handle_log_sync_req req = do
  s ← gets (λ s. s)
  let resp = response sync_log_response req.src s
  elim (entry_of log_pack req) [
    | none ↦ pure resp
    | some e ↦
        if s.catching_up
        then (do
          apply_to_log (req.last_log_idx + 1) e.buf
          t ← gets (λ s. s)
          commit (next_slot t.log_store - 1)
          accept_next resp)
        else pure resp
  ]

-- The state of a server that starts to catch up.
abbrev pub joining : Req → Server → Server
joining req s = record s {
  catching_up = true;
  role = follower;
  leader_id = req.src;
  sm_commit_index = 0;
  quick_commit_idx = 0;
  state = record { term = req.term; voted_for = no_server };
}

unfoldable pub handle_join_cluster_req : Req → M Resp
handle_join_cluster_req req = do
  s ← gets (λ s. s)
  let resp = response join_cluster_response req.src s
  elim (entry_of conf req) [
    | none ↦ pure resp
    | some e ↦ if s.catching_up then pure resp else (do
      modify (joining req)
      persist
      conf_read ← lift (Config.deserialize e.buf)
      modify (reconfigure conf_read.0)
      accept_next resp)
  ]

unfoldable pub handle_leave_cluster_req : Req → M Resp
handle_leave_cluster_req req = do
  s ← gets (λ s. s)
  let resp = response leave_cluster_response req.src s
  if s.config_changing
      then pure resp
      else (do modify (λ s. record s { steps_to_down = 2 }); accept_next resp)

abbrev is_follower : SrvRole → Bool
is_follower follower = true
is_follower _ = false

-- The snapshot's effect on the server: the log is cut, the configuration and the indices move.
unfoldable pub install_snapshot : Snapshot → M (Unit {0})
install_snapshot snp = do
  modify (λ s. record s { log_store = compact snp.last_log_idx s.log_store })
  stop_election_timer
  act (apply_snapshot snp)
  s ← gets (λ s. s)
  when (not (s.machine.can_apply snp)) fatal
  modify (reconfigure snp.last_config)
  t ← gets (λ s. s)
  act (save_config t.config)
  modify (λ s. record s { sm_commit_index = snp.last_log_idx; quick_commit_idx = snp.last_log_idx })
  persist
  modify (λ s. record s { last_snapshot = some (record snp { last_config = s.config }) })
  restart_election_timer

-- `catch (...)`: whatever was thrown, the process exits and an exception of its own goes out.
abbrev catch_fatal : M (Unit {0}) → M (Unit {0})
catch_fatal m s = let (r, s') = m s in elim r [ ok u ↦ (ok u, s') | err e ↦ fatal s' ]

unfoldable pub handle_snapshot_sync_req : SnapshotSyncReq → M (Unit {0})
unfolding install_snapshot
handle_snapshot_sync_req r = catch_fatal (do
  act (save_snapshot_data r.snapshot r.offset r.payload)
  when r.done
      (do s ← gets (λ s. s); when (not (is_follower s.role)) fatal; install_snapshot r.snapshot))

unfoldable pub save_block : LogEntry → Resp → M Resp
unfolding handle_snapshot_sync_req
save_block e resp = do
  s ← gets (λ s. s)
  r ← lift (deserialize_sync s.fresh e.buf)
  if leb r.snapshot.last_log_idx s.sm_commit_index
      then pure resp
      else (do handle_snapshot_sync_req r; pure (accept (r.offset + buf_size r.payload) resp))

unfoldable pub handle_install_snapshot_req : Req → M Resp
unfolding save_block
handle_install_snapshot_req req = do
  s ← gets (λ s. s)
  when ((req.term == s.state.term) && not s.catching_up) (hear_leader s.role)
  let resp = response install_snapshot_response req.src s
  if not s.catching_up && ltb req.term s.state.term
      then pure resp
      else elim (entry_of snp_sync_req req) [ none ↦ pure resp | some e ↦ save_block e resp ]
