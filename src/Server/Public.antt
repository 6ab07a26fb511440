-- ===== src/Server/Public.antt =====
-- raft_enclave/raft/src/raft_server_public.cxx: the entry point for requests.
use enclave_raft.Prelude.{ℕ, Bool, true, false, ltb, if◌then◌else◌}
use enclave_raft.Messages.{
  Req, Resp, MsgType, append_entries_request, request_vote_request, install_snapshot_request,
  client_request, add_server_request, remove_server_request, sync_log_request, join_cluster_request,
  leave_cluster_request,
}
use enclave_raft.Server.Monad.{M, ◌>>◌, modify, fatal, when}
use enclave_raft.Server.Elect.{update_term}
use enclave_raft.Server.Requests.{handle_append_entries, handle_vote_req, handle_cli_req}
use enclave_raft.Server.Install.{
  handle_add_srv_req, handle_rm_srv_req, handle_log_sync_req, handle_join_cluster_req,
  handle_leave_cluster_req, handle_install_snapshot_req,
}

-- The requests that carry the term of a leader or a candidate.
abbrev pub has_term : MsgType → Bool
has_term append_entries_request = true
has_term request_vote_request = true
has_term install_snapshot_request = true
has_term _ = false

-- Any sign of a leader puts the stepping down off.
unfoldable pub hear_term : Req → M (Unit {0})
hear_term req = do
  update_term req.term
  modify (λ s. if ltb 0 s.steps_to_down then record s { steps_to_down = 2 } else s)

-- `handle_extended_msg` is the part from `add_server_request` on.
unfoldable pub dispatch_req : ℕ → MsgType → Req → M Resp
dispatch_req now append_entries_request req = handle_append_entries req
dispatch_req now request_vote_request req = handle_vote_req req
dispatch_req now client_request req = handle_cli_req now req
dispatch_req now add_server_request req = handle_add_srv_req req
dispatch_req now remove_server_request req = handle_rm_srv_req req
dispatch_req now sync_log_request req = handle_log_sync_req req
dispatch_req now join_cluster_request req = handle_join_cluster_req req
dispatch_req now leave_cluster_request req = handle_leave_cluster_req req
dispatch_req now install_snapshot_request req = handle_install_snapshot_req req
dispatch_req now _ req = fatal

unfoldable pub process_req : ℕ → Req → M Resp
process_req now req = do when (has_term req.type) (hear_term req); dispatch_req now req.type req
