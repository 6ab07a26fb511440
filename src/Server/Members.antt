-- ===== src/Server/Members.antt =====
-- raft_enclave/raft/src/raft_server.cxx: the members of the cluster and how they change.
pub mod Frames
use enclave_raft.Prelude.{
  ℕ, zero, suc, ◌+◌, ◌-◌, ◌%◌, ◌^◌, Bool, true, false, ◌&&◌, not, Option, none, some, List, [], ◌∷◌,
  ◌++◌, ltb, leb, ◌==◌, pred64, if◌then◌else◌, length, min, Result, ok, err,
}
use enclave_raft.Config
use enclave_raft.Config.{SrvConfig, ClusterConfig, get_server}
use enclave_raft.Entry.{LogEntry, conf, log_pack}
use enclave_raft.LogStore.{next_slot, start_index, pack}
use enclave_raft.Messages.{Req, MsgType, join_cluster_request, sync_log_request}
use enclave_raft.Server.State.{
  Server, Peer, PeerMap, Params, SrvRole, ex_resp_handler, send, save_config, system_exit, peer_id,
  new_peer, cancel_hb,
}
use enclave_raft.Server.Monad.{
  M, ◌>>=◌, ◌>>◌, pure, done, lift, gets, modify, emit, act, fatal, or_fault, when, find_peer,
  erase_peer,
}
use enclave_raft.Server.Replicate.{is_leader, request_append_entries_all, create_sync_snapshot_req}
use enclave_raft.Server.Elect.{enable_hb_for_peer, append_entry}

abbrev pub is_some {ℓ} : {A : Type ℓ} → Option A → Bool
is_some none = false
is_some (some a) = true

-- The servers of a configuration that are no peers yet, without the server itself.
unfoldable pub srvs_added : ℕ → PeerMap → List SrvConfig → List SrvConfig
srvs_added id ps [] = []
srvs_added id ps (c ∷ cs) =
    if not (is_some (find_peer c.id ps)) && not (id == c.id)
    then c ∷ srvs_added id ps cs
    else srvs_added id ps cs

-- The peers that a configuration does not name.
unfoldable pub srvs_gone : ClusterConfig → PeerMap → List ℕ
srvs_gone c [] = []
srvs_gone c ((k, p) ∷ ps) =
    if not (is_some (get_server k c)) then k ∷ srvs_gone c ps else srvs_gone c ps

-- The same, and the server itself if it is not named.
unfoldable pub srvs_removed : ℕ → ClusterConfig → PeerMap → List ℕ
unfolding srvs_gone
srvs_removed id c ps = srvs_gone c ps ++ (if is_some (get_server id c) then [] else id ∷ [])

-- `insert` into a map keeps what is under the key.
unfoldable pub insert_peer : ℕ → Peer → PeerMap → PeerMap
insert_peer k p ps = if is_some (find_peer k ps) then ps else ps ++ ((k, p) ∷ [])

-- The server that joins, if it is the one added, hands its progress on.
abbrev take_progress : Option Peer → Peer → Server → Peer × Server
take_progress none p s = (p, s)
take_progress (some j) p s =
    if peer_id j == peer_id p
    then (record p { next_log_idx = j.next_log_idx }, record s { srv_to_join = none })
    else (p, s)

-- The body of the loop that adds servers. The peer that is inserted is the one that is changed.
unfoldable pub add_srv_peer : SrvConfig → Server → Server
unfolding insert_peer
add_srv_peer c s =
    let p = record (new_peer c s.params) { next_log_idx = next_slot s.log_store } in
    if is_leader s.role
    then (let (r, p1, s1) = enable_hb_for_peer p s in
        let (p2, s2) = take_progress s1.srv_to_join p1 s1 in
        record s2 { peers = insert_peer c.id p2 s2.peers })
    else record s { peers = insert_peer c.id p s.peers }

unfoldable pub add_srvs : List SrvConfig → Server → Server
unfolding add_srv_peer
add_srvs [] s = s
add_srvs (c ∷ cs) s = add_srvs cs (add_srv_peer c s)

-- One peer less, its heartbeat stopped.
unfoldable pub remove_peer : ℕ → Server → Server
remove_peer k s = elim (find_peer k s.peers) [
  | none ↦ s
  | some p ↦ record (emit (cancel_hb (peer_id p)) s) { peers = erase_peer k s.peers }
]

-- The loop that removes servers. Where the server itself goes, and is not catching up, it saves the
-- configuration and exits; `false` says that `reconfigure` has returned there.
unfoldable pub remove_srvs : ClusterConfig → List ℕ → Server → Bool × Server
unfolding remove_peer
remove_srvs new_config [] s = (true, s)
remove_srvs new_config (k ∷ ks) s =
    let rest = remove_srvs new_config ks (remove_peer k s) in
    if (k == s.id) && not s.catching_up
    then (false, emit (system_exit 0) (emit (save_config new_config) s))
    else rest

unfoldable pub reconfigure : ClusterConfig → Server → Server
unfolding srvs_added srvs_removed add_srvs remove_srvs
reconfigure new_config s =
    let added = srvs_added s.id s.peers new_config.servers in
    let removed = srvs_removed s.id new_config s.peers in
    let (finished, s') = remove_srvs new_config removed (add_srvs added s) in
    if finished then record s' { config = new_config } else s'

-- A configuration as the next entry of the log, sent to all peers.
unfoldable pub append_config : ClusterConfig → M (Unit {0})
append_config new_conf = do
  s ← gets (λ s. s)
  buf ← lift (Config.serialize s.fresh new_conf)
  append_entry (record { term = s.state.term; val_type = conf; buf = buf })
  modify (λ s. record s { config_changing = true })
  request_append_entries_all

-- The servers of the configuration and the one to add.
abbrev joined_config : SrvConfig → Server → ClusterConfig
joined_config c s = record {
  log_idx = next_slot s.log_store;
  prev_log_idx = s.config.log_idx;
  servers = s.config.servers ++ (c ∷ []);
}

-- `(int32)(quick_commit_idx_ - start_idx)`, as a bit pattern.
unfoldable pub sync_gap : ℕ → ℕ → ℕ
sync_gap quick start = (quick + 2 ^ 64 - start) % 2 ^ 32

-- `gap < log_sync_stop_gap_` on `int32`s: a negative gap is small.
abbrev is_synced : ℕ → Params → Bool
is_synced gap params = if leb (2 ^ 31) gap then true else ltb gap params.log_sync_stop_gap

unfoldable pub sync_log_req : ℕ → ℕ → Peer → M Req
sync_log_req start_idx gap p = do
  s ← gets (λ s. s)
  buf ← lift (pack s.fresh start_idx (min gap s.params.log_sync_batch_size) s.log_store)
  pure (record {
    term = s.state.term;
    type = sync_log_request;
    src = s.id;
    dst = peer_id p;
    last_log_term = 0;
    last_log_idx = pred64 start_idx;
    commit_idx = s.quick_commit_idx;
    log_entries = record { term = s.state.term; val_type = log_pack; buf = buf } ∷ [];
  })

-- The snapshot for the server that joins; a change of the peer stays with the server.
abbrev snapshot_for_new : ℕ → Peer → M Req
snapshot_for_new start_idx p s =
    let (r, p', s') = create_sync_snapshot_req start_idx s.state.term s.quick_commit_idx p s in
    (r, record s' { srv_to_join = some p' })

-- `sync_log_to_new_srv`: the server that joins gets a snapshot or a pack of the log, or is put into
-- the configuration when it lags little.
unfoldable pub sync_log_to_new_srv : ℕ → M (Unit {0})
unfolding sync_gap sync_log_req append_config
sync_log_to_new_srv start_idx = do
  s ← gets (λ s. s)
  p ← or_fault s.srv_to_join
  let gap = sync_gap s.quick_commit_idx start_idx
  if is_synced gap s.params
      then (do c ← or_fault s.conf_to_add; append_config (joined_config c s))
      else (do
        req ←
            if ltb 0 start_idx && ltb start_idx (start_index s.log_store)
            then snapshot_for_new start_idx p
            else sync_log_req start_idx gap p
        act (send (peer_id p) req ex_resp_handler))

unfoldable pub invite_srv_to_join_cluster : M (Unit {0})
invite_srv_to_join_cluster = do
  s ← gets (λ s. s)
  p ← or_fault s.srv_to_join
  buf ← lift (Config.serialize s.fresh s.config)
  act (
      send (peer_id p)
        (record {
          term = s.state.term;
          type = join_cluster_request;
          src = s.id;
          dst = peer_id p;
          last_log_term = 0;
          last_log_idx = next_slot s.log_store - 1;
          commit_idx = s.quick_commit_idx;
          log_entries = record { term = s.state.term; val_type = conf; buf = buf } ∷ [];
        })
        ex_resp_handler)

-- The servers but one.
unfoldable pub servers_without : ℕ → List SrvConfig → List SrvConfig
servers_without id [] = []
servers_without id (c ∷ cs) =
    if c.id == id then servers_without id cs else c ∷ servers_without id cs

unfoldable pub rm_srv_from_cluster : ℕ → M (Unit {0})
unfolding servers_without append_config
rm_srv_from_cluster srv_id = do
  s ← gets (λ s. s)
  modify (λ s. record s { config_changing = true })
  append_config (record {
    log_idx = next_slot s.log_store;
    prev_log_idx = s.config.log_idx;
    servers = servers_without srv_id s.config.servers;
  })
