-- ===== src/Server/Replicate/Frames.antt =====
-- What sending and committing leave alone.
use enclave_raft.Prelude.{ℕ, ◌-◌, ◌≡◌, refl, true, [], ◌∷◌, ◌++◌, arith, ltb, if◌then◌else◌}
use enclave_raft.Snapshot.{SnapshotSyncCtx}
use enclave_raft.LogStore.{next_slot}
use enclave_raft.Server.State.{Server, Peer, PeerMap}
use enclave_raft.Server.Monad.{PeerM, each_peer}
use enclave_raft.Server.Replicate.{
  term_for_log, read_block, sync_snapshot_req, create_sync_snapshot_req, entries_for,
  append_entries_req, create_append_entries_req, request_append_entries, notify_peer, notify_peers,
  commit, request_append_entries_all,
}

-- The server but for its trace.
abbrev pub Traced : Server → Server → Type 0
Traced s s' = s' ≡ record s { trace = s'.trace }

pub term_for_log-Traced : (i : ℕ) (s : Server) → Traced s (term_for_log i s).1
unfolding term_for_log
term_for_log-Traced i s = ground arith

read_block-Traced : (ctx : SnapshotSyncCtx) (s : Server) → Traced s (read_block ctx s).1
unfolding read_block
read_block-Traced ctx s = ground arith

sync_snapshot_req-Traced :
    (dst term idx : ℕ) (ctx : SnapshotSyncCtx) (s : Server)
    → Traced s (sync_snapshot_req dst term idx ctx s).1
unfolding sync_snapshot_req
sync_snapshot_req-Traced dst term idx ctx s = ground (arith, read_block-Traced ctx s)

entries_for-Traced : (i : ℕ) (s : Server) → Traced s (entries_for i s).1
unfolding entries_for
entries_for-Traced i s = ground arith

append_entries_req-Traced : (dst i : ℕ) (s : Server) → Traced s (append_entries_req dst i s).1
unfolding append_entries_req
append_entries_req-Traced dst i s =
    ground (arith, term_for_log-Traced i s, entries_for-Traced i (term_for_log i s).1)

pub create_sync_snapshot_req-Traced :
    (i term idx : ℕ) (p : Peer) (s : Server) → Traced s (create_sync_snapshot_req i term idx p s).2
unfolding create_sync_snapshot_req
create_sync_snapshot_req-Traced i term idx p s = grind (arith, sync_snapshot_req-Traced)

create_append_entries_req-Traced :
    (p : Peer) (s : Server) → Traced s (create_append_entries_req p s).2
unfolding create_append_entries_req
create_append_entries_req-Traced p s =
    grind (arith, create_sync_snapshot_req-Traced, append_entries_req-Traced)

-- A request to a peer leaves all of the server but its trace.
pub request_append_entries-Traced :
    (p : Peer) (s : Server) → Traced s (request_append_entries p s).2
unfolding request_append_entries
request_append_entries-Traced p s =
    ground (arith, create_append_entries_req-Traced (record p { busy = true }) s)

pub notify_peer-Traced : (p : Peer) (s : Server) → Traced s (notify_peer p s).2
unfolding notify_peer
notify_peer-Traced p s = ground (arith, request_append_entries-Traced p s)

-- The server but for its trace and its peers.
abbrev pub Sent : Server → Server → Type 0
Sent s s' = s' ≡ record s { trace = s'.trace; peers = s'.peers }

-- A loop over the peers by an operation that leaves all but the trace.
pub each_peer-Sent :
    {A : Type 0} (f : PeerM A) (frame : (p : Peer) (s : Server) → Traced s (f p s).2)
    (front ps : PeerMap) (s : Server)
    → Sent s (each_peer f front ps s).1
unfolding each_peer
each_peer-Sent f frame front [] s = refl
each_peer-Sent f frame front ((k, p) ∷ ps) s =
    ground (arith, frame p s, each_peer-Sent f frame (front ++ ((k, (f p s).1) ∷ [])) ps (f p s).2)

-- The server but for its trace, its peers and what it has committed.
abbrev pub Committed : Server → Server → Type 0
Committed s s' =
    s' ≡ record s { trace = s'.trace; peers = s'.peers; quick_commit_idx = s'.quick_commit_idx }

notify_peers-Sent : (s : Server) → Sent s (notify_peers s).1
unfolding notify_peers
notify_peers-Sent s = ground (arith, each_peer-Sent notify_peer notify_peer-Traced [] s.peers s)

pub commit-Committed : (i : ℕ) (s : Server) → Committed s (commit i s).1
unfolding commit
commit-Committed i s = ground (arith, notify_peers-Sent (record s { quick_commit_idx = i }))

-- The commit index becomes the larger of its old value and the target, also where a message to a peer
-- cannot be made.
pub commit_quick_commit_idx :
    (i : ℕ) (s : Server)
    → (commit i s).1.quick_commit_idx ≡ (if ltb s.quick_commit_idx i then i else s.quick_commit_idx)
unfolding commit
commit_quick_commit_idx i s = ground (arith, notify_peers-Sent (record s { quick_commit_idx = i }))

pub request_append_entries_all-Committed :
    (s : Server) → Committed s (request_append_entries_all s).1
unfolding request_append_entries_all
request_append_entries_all-Committed s = ground (
  arith,
  commit-Committed (next_slot s.log_store - 1) s,
  each_peer-Sent request_append_entries request_append_entries-Traced [] s.peers s,
)
