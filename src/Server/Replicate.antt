-- ===== src/Server/Replicate.antt =====
-- raft_enclave/raft/src/raft_server.cxx: what the leader sends to a peer, and `commit`.
pub mod Frames
use enclave_raft.Prelude.{
  ℕ, zero, suc, ◌+◌, ◌-◌, ◌%◌, ◌^◌, Bool, true, false, ◌&&◌, ◌||◌, not, Option, none, some, List,
  [], ◌∷◌, ltb, leb, ◌==◌, if◌then◌else◌, min, overlay, Result, ok, err, fault,
}
use enclave_raft.Buffer.{Buffer, size as buf_size, alloc}
use enclave_raft.Entry.{LogEntry, snp_sync_req}
use enclave_raft.Snapshot
use enclave_raft.Snapshot.{Snapshot, SnapshotSyncReq, SnapshotSyncCtx}
use enclave_raft.LogStore.{next_slot, start_index, term_at, log_entries}
use enclave_raft.Messages.{Req, MsgType, append_entries_request, install_snapshot_request}
use enclave_raft.Server.State.{
  Server, Peer, PeerMap, Params, SrvRole, leader, Handler, resp_handler, Action, send,
  notify_commit, peer_id, set_snapshot_in_sync,
}
use enclave_raft.Server.Monad.{
  M, ◌>>=◌, ◌>>◌, pure, done, lift, gets, modify, emit, act, fatal, or_fault, when, PeerM,
  each_peer, for_peers,
}

-- `term_for_log` below the start of the log, by the last snapshot of the state machine.
abbrev snapshot_term : ℕ → Option Snapshot → M ℕ
snapshot_term i none = fatal
snapshot_term i (some snp) = if i == snp.last_log_idx then pure snp.last_log_term else fatal

unfoldable pub term_for_log : ℕ → M ℕ
term_for_log i s =
    if i == 0
    then (ok 0, s)
    else if leb (start_index s.log_store) i
    then or_fault (term_at i s.log_store) s
    else snapshot_term i s.machine.last_snapshot s

abbrev default_snapshot_sync_block_size : ℕ
default_snapshot_sync_block_size = 4096

unfoldable pub get_snapshot_sync_block_size : Params → ℕ
get_snapshot_sync_block_size p =
    if p.snapshot_block_size == 0 then default_snapshot_sync_block_size else p.snapshot_block_size

-- Whether the transfer to a peer has to start with the server's last snapshot: there is no
-- transfer, or it is of an older one.
abbrev is_stale : Option SnapshotSyncCtx → Option Snapshot → Bool
is_stale none last = true
is_stale (some ctx) none = false
is_stale (some ctx) (some last) = ltb ctx.snapshot.last_log_idx last.last_log_idx

-- The last snapshot as the one to transfer. With none there is the message of the fatal error reads
-- through the null pointer.
abbrev start_transfer : ℕ → Option Snapshot → PeerM SnapshotSyncCtx
start_transfer last_log_idx none p s = (err fault, p, s)
start_transfer last_log_idx (some snp) p s =
    if ltb snp.last_log_idx last_log_idx || ltb snp.size 1
    then (let (r, s') = fatal {A = SnapshotSyncCtx} s in (r, p, s'))
    else (ok (record { snapshot = snp; offset = 0 }), set_snapshot_in_sync (some snp) p, s)

abbrev transfer_of : ℕ → Option SnapshotSyncCtx → PeerM SnapshotSyncCtx
transfer_of last_log_idx none p s = start_transfer last_log_idx s.last_snapshot p s
transfer_of last_log_idx (some ctx) p s =
    if is_stale (some ctx) s.last_snapshot
    then start_transfer last_log_idx s.last_snapshot p s
    else (ok ctx, p, s)

-- The size of the next block: `std::min` of two `int32`s, which a negative one wins and makes a
-- size that cannot be allocated.
unfoldable pub block_size : Params → SnapshotSyncCtx → ℕ
unfolding get_snapshot_sync_block_size
block_size params ctx =
    let sz_left = (ctx.snapshot.size + 2 ^ 64 - ctx.offset) % 2 ^ 32 in
    if leb (2 ^ 31) sz_left then sz_left else min (get_snapshot_sync_block_size params) sz_left

-- The block that is read from the state machine, or a fatal error if it is short.
unfoldable pub read_block : SnapshotSyncCtx → M Buffer
unfolding block_size
read_block ctx = do
  s ← gets (λ s. s)
  block ← lift (alloc s.fresh (block_size s.params ctx))
  let answer = s.machine.read_snapshot_data ctx.snapshot ctx.offset (buf_size block)
  if ltb answer.0 (buf_size block)
      then fatal
      else pure (record block { bytes = overlay answer.1 block.bytes })

unfoldable pub sync_snapshot_req : ℕ → ℕ → ℕ → SnapshotSyncCtx → M Req
unfolding read_block
sync_snapshot_req dst term commit_idx ctx = do
  s ← gets (λ s. s)
  block ← read_block ctx
  let finished = leb ctx.snapshot.size (ctx.offset + buf_size block)
  buf ← lift (
      Snapshot.serialize_sync s.fresh
        (record { snapshot = ctx.snapshot; offset = ctx.offset; payload = block; done = finished }))
  pure (record {
    term = term;
    type = install_snapshot_request;
    src = s.id;
    dst = dst;
    last_log_term = ctx.snapshot.last_log_term;
    last_log_idx = ctx.snapshot.last_log_idx;
    commit_idx = commit_idx;
    log_entries = record { term = term; val_type = snp_sync_req; buf = buf } ∷ [];
  })

unfoldable pub create_sync_snapshot_req : ℕ → ℕ → ℕ → PeerM Req
unfolding sync_snapshot_req
create_sync_snapshot_req last_log_idx term commit_idx p s =
    let (r, p', s') = transfer_of last_log_idx p.snp_sync_ctx p s in
    elim r [
      | err e ↦ (err e, p', s')
      | ok ctx ↦ let (q, t) = sync_snapshot_req (peer_id p) term commit_idx ctx s' in (q, p', t)
    ]

-- The entries of the request: none if the peer has all, at most `max_append_size` of them.
unfoldable pub entries_for : ℕ → M (List LogEntry)
entries_for last_log_idx s =
    let nxt = next_slot s.log_store in
    if leb nxt (last_log_idx + 1)
    then (ok [], s)
    else or_fault
        (log_entries (last_log_idx + 1) (min nxt (last_log_idx + 1 + s.params.max_append_size))
          s.log_store)
        s

unfoldable pub append_entries_req : ℕ → ℕ → M Req
unfolding term_for_log entries_for
append_entries_req dst last_log_idx = do
  s ← gets (λ s. s)
  last_log_term ← term_for_log last_log_idx
  es ← entries_for last_log_idx
  pure (record {
    term = s.state.term;
    type = append_entries_request;
    src = s.id;
    dst = dst;
    last_log_term = last_log_term;
    last_log_idx = last_log_idx;
    commit_idx = s.quick_commit_idx;
    log_entries = es;
  })

-- A peer whose next index is not known gets the next slot.
abbrev with_next_idx : ℕ → Peer → Peer
with_next_idx nxt p = if p.next_log_idx == 0 then record p { next_log_idx = nxt } else p

unfoldable pub create_append_entries_req : PeerM Req
unfolding create_sync_snapshot_req append_entries_req
create_append_entries_req p s =
    let nxt = next_slot s.log_store in
    let p' = with_next_idx nxt p in
    let last_log_idx = p'.next_log_idx - 1 in
    if leb nxt last_log_idx
    then (let (r, t) = fatal {A = Req} s in (r, p', t))
    else if ltb 0 last_log_idx && ltb last_log_idx (start_index s.log_store - 1)
    then create_sync_snapshot_req last_log_idx s.state.term s.quick_commit_idx p' s
    else (let (r, t) = append_entries_req (peer_id p') last_log_idx s in (r, p', t))

-- `request_append_entries(peer &)`: whether the request was sent. A busy peer is left alone.
unfoldable pub request_append_entries : PeerM Bool
unfolding create_append_entries_req
request_append_entries p s =
    if p.busy
    then (ok false, p, s)
    else (let (r, p', s') = create_append_entries_req (record p { busy = true }) s in
        elim r [
          | err e ↦ (err e, p', s')
          | ok req ↦ (ok true, p', emit (send (peer_id p') req resp_handler) s')
        ])

-- The body of the loop of `commit`: a peer that is busy learns of the commit later.
unfoldable pub notify_peer : PeerM (Unit {0})
unfolding request_append_entries
notify_peer p s =
    let (r, p', s') = request_append_entries p s in
    elim r [
      | err e ↦ (err e, p', s')
      | ok sent ↦ (ok tt, if sent then p' else record p' { pending_commit = true }, s')
    ]

abbrev pub is_leader : SrvRole → Bool
is_leader leader = true
is_leader _ = false

unfoldable pub notify_peers : M (Unit {0})
unfolding notify_peer
notify_peers s = if is_leader s.role then for_peers notify_peer s else (ok tt, s)

unfoldable pub commit : ℕ → M (Unit {0})
unfolding notify_peers
commit target_idx = do
  s ← gets (λ s. s)
  when (ltb s.quick_commit_idx target_idx)
      (do modify (λ s. record s { quick_commit_idx = target_idx }); notify_peers)
  t ← gets (λ s. s)
  when
      (ltb t.sm_commit_index (next_slot t.log_store - 1)
        && ltb t.sm_commit_index t.quick_commit_idx)
      (act notify_commit)

abbrev pub no_peers : PeerMap → Bool
no_peers [] = true
no_peers (p ∷ ps) = false

-- `request_append_entries()`: a server with no peers commits by itself.
unfoldable pub request_append_entries_all : M (Unit {0})
unfolding commit request_append_entries
request_append_entries_all s =
    if no_peers s.peers
    then commit (next_slot s.log_store - 1) s
    else for_peers request_append_entries s
