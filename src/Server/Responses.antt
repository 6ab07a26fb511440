-- ===== src/Server/Responses.antt =====
-- raft_enclave/raft/src/raft_server_handle_resp.cxx: the responses to votes, entries and snapshots;
-- and what raft_enclave/raft/include/peer.hxx does when an answer or an error comes.
pub mod Quorum
pub mod Ballot
pub mod Pace
use enclave_raft.Prelude.{
  ℕ, zero, suc, ◌+◌, ◌-◌, ◌/◌, Bool, true, false, ◌&&◌, ◌||◌, not, Option, none, some, List, [],
  ◌∷◌, ltb, leb, ◌==◌, if◌then◌else◌, length, pred64, Result, ok, err,
}
use enclave_raft.Snapshot.{Snapshot, SnapshotSyncCtx}
use enclave_raft.LogStore.{next_slot}
use enclave_raft.Messages.{
  Req, Resp, MsgType, request_vote_response, append_entries_response, install_snapshot_response,
  append_entries_request, install_snapshot_request,
}
use enclave_raft.Server.State.{Server, Peer, PeerMap, slow_down_hb, resume_hb_speed}
use enclave_raft.Server.Monad.{
  M, ◌>>=◌, ◌>>◌, pure, done, gets, modify, fatal, or_fault, when, PeerM, find_peer, set_peer,
  on_peer,
}
use enclave_raft.Server.Replicate.{commit, is_leader, request_append_entries}
use enclave_raft.Server.Elect.{update_term, contains, add_voter, become_leader}
use enclave_raft.Server.Requests.{nth_or}

-- A vote in the current election is counted once for each server, and a majority of the members
-- makes the server the leader.
unfoldable pub count_vote : Resp → M (Unit {0})
unfolding add_voter
count_vote resp = do
  modify (λ s. record s { voted_servers = add_voter resp.src s.voted_servers })
  modify (λ s. record s {
    votes_granted = if resp.accepted then s.votes_granted + 1 else s.votes_granted;
  })
  modify (λ s. record s {
    election_completed =
        if leb (length s.peers + 1) (length s.voted_servers) then true else s.election_completed;
  })

unfoldable pub handle_voting_resp : Resp → M (Unit {0})
handle_voting_resp resp s =
    if not (resp.term == s.state.term) || s.election_completed || contains resp.src s.voted_servers
    then (ok tt, s)
    else (do
      count_vote resp
      t ← gets (λ s. s)
      when (ltb ((length t.peers + 1) / 2) t.votes_granted)
          (do modify (λ s. record s { election_completed = true }); become_leader))
        s

abbrev pub matched_of : PeerMap → List ℕ
matched_of [] = []
matched_of ((k, p) ∷ ps) = p.matched_idx ∷ matched_of ps

-- `std::sort` with `std::greater`, downwards.
unfoldable pub insert_desc : ℕ → List ℕ → List ℕ
insert_desc x [] = x ∷ []
insert_desc x (y ∷ ys) = if leb y x then x ∷ (y ∷ ys) else y ∷ insert_desc x ys

unfoldable pub sort_desc : List ℕ → List ℕ
unfolding insert_desc
sort_desc [] = []
sort_desc (x ∷ xs) = insert_desc x (sort_desc xs)

-- The index that a majority has: the server's own last index and those that the peers match.
unfoldable pub quorum_idx : ℕ → PeerMap → ℕ
unfolding sort_desc
quorum_idx own ps = nth_or 0 (sort_desc (own ∷ matched_of ps)) ((length ps + 1) / 2)

-- The peer's progress, as its answer tells.
unfoldable pub advance_peer : ℕ → Peer → Peer
advance_peer nxt p = record p { next_log_idx = nxt; matched_idx = pred64 nxt }

-- A peer that declines is tried with its own next index if that is smaller, or else one further back.
unfoldable pub back_up_peer : ℕ → Peer → Peer
back_up_peer nxt p =
    if ltb 0 nxt && ltb nxt p.next_log_idx
    then record p { next_log_idx = nxt }
    else record p { next_log_idx = pred64 p.next_log_idx }

abbrev set_peer_in : ℕ → Peer → Server → Server
set_peer_in k p s = record s { peers = set_peer k p s.peers }

abbrev peer_under : ℕ → M Peer
peer_under k s = or_fault (find_peer k s.peers) s

-- `clear_pending_commit() || next_idx < next_slot()`, and the flag cleared.
unfoldable pub has_more : ℕ → ℕ → M Bool
has_more k nxt = do
  p ← peer_under k
  modify (set_peer_in k (record p { pending_commit = false }))
  s ← gets (λ s. s)
  pure (p.pending_commit || ltb nxt (next_slot s.log_store))

unfoldable pub accepted_entries : ℕ → ℕ → Peer → M Bool
unfolding advance_peer has_more quorum_idx
accepted_entries k nxt p = do
  modify (set_peer_in k (advance_peer nxt p))
  s ← gets (λ s. s)
  commit (quorum_idx (next_slot s.log_store - 1) s.peers)
  has_more k nxt

unfoldable pub declined_entries : ℕ → ℕ → Peer → M Bool
unfolding back_up_peer
declined_entries k nxt p = do modify (set_peer_in k (back_up_peer nxt p)); pure true

-- Only a leader goes on to the peer.
unfoldable pub catch_up : ℕ → Bool → M (Unit {0})
catch_up k need s =
    if is_leader s.role && need
    then (do p ← peer_under k; on_peer k p request_append_entries; done) s
    else (ok tt, s)

-- `handle_append_entries_resp` once the peer has been looked up: an unknown one is passed over.
abbrev pub entries_answered : Resp → Option Peer → M (Unit {0})
entries_answered resp none = done
entries_answered resp (some p) = do
  need ←
      if resp.accepted
      then accepted_entries resp.src resp.next_idx p
      else declined_entries resp.src resp.next_idx p
  catch_up resp.src need

unfoldable pub handle_append_entries_resp : Resp → M (Unit {0})
handle_append_entries_resp resp s = entries_answered resp (find_peer resp.src s.peers) s

-- The peer whose transfer of a snapshot is over.
unfoldable pub finish_transfer : Snapshot → Peer → Peer
finish_transfer snp p = record p {
  next_log_idx = snp.last_log_idx + 1;
  matched_idx = snp.last_log_idx;
  snp_sync_ctx = none;
}

abbrev with_offset : ℕ → SnapshotSyncCtx → Peer → Peer
with_offset offset ctx p = record p { snp_sync_ctx = some (record ctx { offset = offset }) }

unfoldable pub accepted_block : ℕ → ℕ → Peer → Option SnapshotSyncCtx → M Bool
unfolding finish_transfer has_more
accepted_block k nxt p none = pure false
accepted_block k nxt p (some ctx) =
    if leb ctx.snapshot.size nxt
    then (do modify (set_peer_in k (finish_transfer ctx.snapshot p)); has_more k nxt)
    else (do modify (set_peer_in k (with_offset nxt ctx p)); pure true)

abbrev pub block_answered : Resp → Option Peer → M (Unit {0})
block_answered resp none = done
block_answered resp (some p) = do
  need ← if resp.accepted then accepted_block resp.src resp.next_idx p p.snp_sync_ctx else pure true
  catch_up resp.src need

unfoldable pub handle_install_snapshot_resp : Resp → M (Unit {0})
handle_install_snapshot_resp resp s = block_answered resp (find_peer resp.src s.peers) s

-- The answer's time is noted for a known peer.
unfoldable pub note_resp : ℕ → ℕ → M (Unit {0})
note_resp now k s = elim (find_peer k s.peers) [
  | none ↦ (ok tt, s)
  | some p ↦ (ok tt, set_peer_in k (record p { last_resp = now }) s)
]

unfoldable pub dispatch_resp : MsgType → Resp → M (Unit {0})
dispatch_resp request_vote_response resp = handle_voting_resp resp
dispatch_resp append_entries_response resp = handle_append_entries_resp resp
dispatch_resp install_snapshot_response resp = handle_install_snapshot_resp resp
dispatch_resp _ resp = fatal

-- `handle_peer_resp` on an answer; on an error it does nothing. A higher term ends the matter.
unfoldable pub handle_peer_resp : ℕ → Resp → M (Unit {0})
handle_peer_resp now resp = do
  note_resp now resp.src
  newer ← update_term resp.term
  if newer then done else dispatch_resp resp.type resp

abbrev pub frees_peer : MsgType → Bool
frees_peer append_entries_request = true
frees_peer install_snapshot_request = true
frees_peer _ = false

-- `peer::handle_rpc_result`: the peer is free again after entries or a block of a snapshot, and its
-- heartbeat is back to its speed, or slower after an error.
unfoldable pub handle_rpc_result : Req → Bool → Peer → Peer
unfolding resume_hb_speed slow_down_hb
handle_rpc_result req answered p =
    let p' = if frees_peer req.type then record p { busy = false } else p in
    if answered then resume_hb_speed p' else slow_down_hb p'
