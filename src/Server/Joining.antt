-- ===== src/Server/Joining.antt =====
-- raft_enclave/raft/src/raft_server_handle_resp.cxx: the responses of servers that join or leave,
-- and the errors on the way.
use enclave_raft.Prelude.{
  ℕ, Bool, false, Option, none, some, leb, ◌==◌, if◌then◌else◌, length, pred64, ok,
}
use enclave_raft.Snapshot.{SnapshotSyncCtx}
use enclave_raft.Messages.{
  Req, Resp, MsgType, sync_log_response, join_cluster_response, leave_cluster_response,
  install_snapshot_response, sync_log_request, join_cluster_request, leave_cluster_request,
}
use enclave_raft.Server.State.{
  Server, Peer, schedule_retry, send, ex_resp_handler, cancel_hb, peer_id, slow_down_hb,
  resume_hb_speed, max_hb_interval,
}
use enclave_raft.Server.Monad.{
  M, ◌>>◌, done, modify, act, emit, fatal, when, find_peer, set_peer, erase_peer,
}
use enclave_raft.Server.Members.{sync_log_to_new_srv, rm_srv_from_cluster}
use enclave_raft.Server.Responses.{finish_transfer}

-- The server that joins, as its answer tells, at full heartbeat speed.
abbrev synced_to : ℕ → Peer → Peer
synced_to nxt p = record (resume_hb_speed p) { next_log_idx = nxt; matched_idx = pred64 nxt }

abbrev join_block : ℕ → Peer → Option SnapshotSyncCtx → M (Unit {0})
join_block nxt p none = fatal
join_block nxt p (some ctx) =
    let p' =
      if leb ctx.snapshot.size nxt
      then finish_transfer ctx.snapshot p
      else record p { snp_sync_ctx = some (record ctx { offset = nxt }) } in
    modify (λ s. record s { srv_to_join = some p' }) >> sync_log_to_new_srv p'.next_log_idx

unfoldable pub dispatch_join : MsgType → Resp → Option Peer → M (Unit {0})
dispatch_join sync_log_response resp none = done
dispatch_join sync_log_response resp (some p) = do
  modify (λ s. record s { srv_to_join = some (synced_to resp.next_idx p) })
  sync_log_to_new_srv resp.next_idx
dispatch_join join_cluster_response resp none = done
dispatch_join join_cluster_response resp (some p) =
    when resp.accepted (sync_log_to_new_srv resp.next_idx)
dispatch_join leave_cluster_response resp p = when resp.accepted (rm_srv_from_cluster resp.src)
dispatch_join install_snapshot_response resp none = done
dispatch_join install_snapshot_response resp (some p) =
    when resp.accepted (join_block resp.next_idx p p.snp_sync_ctx)
dispatch_join _ resp p = fatal

-- `handle_ext_resp` on an answer.
unfoldable pub handle_ext_resp : Resp → M (Unit {0})
handle_ext_resp resp s = dispatch_join resp.type resp s.srv_to_join s

-- With one peer alone it is taken out at once.
unfoldable pub drop_only_peer : ℕ → Server → Server
drop_only_peer k s =
    if length s.peers == 1
    then elim (find_peer k s.peers) [
      | none ↦ s
      | some p ↦ record (emit (cancel_hb (peer_id p)) s) { peers = erase_peer k s.peers }
    ]
    else s

-- The request fails, and its peer has reached the longest interval: no retry.
unfoldable pub give_up_leaving : Peer → M (Unit {0})
give_up_leaving p = do modify (drop_only_peer (peer_id p)); rm_srv_from_cluster (peer_id p)

abbrev retry : Req → Peer → M (Unit {0})
retry req p = act (schedule_retry (peer_id p) req)

abbrev is_slow : Peer → Server → Bool
is_slow p s = leb (max_hb_interval s.params) p.current_hb_interval

unfoldable pub leave_failed : Req → Option Peer → M (Unit {0})
leave_failed req none s = (ok tt, s)
leave_failed req (some p) s =
    if is_slow p s
    then give_up_leaving p s
    else (do
      modify (λ s. record s { peers = set_peer req.dst (slow_down_hb p) s.peers })
      retry req p)
        s

unfoldable pub join_failed : Req → Option Peer → M (Unit {0})
join_failed req none s = (ok tt, s)
join_failed req (some p) s =
    if is_slow p s
    then (ok tt, record s { config_changing = false; srv_to_join = none })
    else (do modify (λ s. record s { srv_to_join = some (slow_down_hb p) }); retry req p) s

-- `handle_ext_resp_err`: only three requests are retried; the interval of the heartbeat tells when
-- to stop.
unfoldable pub dispatch_ext_err : MsgType → Req → M (Unit {0})
dispatch_ext_err leave_cluster_request req s = leave_failed req (find_peer req.dst s.peers) s
dispatch_ext_err sync_log_request req s = join_failed req s.srv_to_join s
dispatch_ext_err join_cluster_request req s = join_failed req s.srv_to_join s
dispatch_ext_err _ req s = (ok tt, s)

unfoldable pub handle_ext_resp_err : Req → M (Unit {0})
handle_ext_resp_err req = dispatch_ext_err req.type req

unfoldable pub on_retryable_req_err : Peer → Req → M (Unit {0})
on_retryable_req_err p req = act (send (peer_id p) req ex_resp_handler)
