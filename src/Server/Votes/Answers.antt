-- ===== src/Server/Votes/Answers.antt =====
-- The vote in the handlers of responses and heartbeats, and in the thread that commits.
use enclave_raft.Prelude.{
  ℕ, zero, suc, ◌≡◌, refl, Bool, true, false, Option, none, some, arith, if◌then◌else◌,
}
use enclave_raft.Buffer.{Buffer}
use enclave_raft.Entry.{LogEntry, val_eq, app_log, conf}
use enclave_raft.Messages.{
  Req, Resp, MsgType, request_vote_response, append_entries_response, install_snapshot_response,
}
use enclave_raft.Snapshot.{Snapshot, SnapshotSyncCtx}
use enclave_raft.Server.State.{Server, Peer, sm_commit}
use enclave_raft.Server.Monad.{M, bind_keeps, if_keeps, pure, done, act, find_peer, on_peer}
use enclave_raft.Server.Replicate.Frames.{commit-Committed, request_append_entries-Traced}
use enclave_raft.Server.Elect.{update_term, handle_hb_timeout}
use enclave_raft.Server.Elect.Frames.{become_leader-Led}
use enclave_raft.Server.Members.Frames.{
  sync_log_to_new_srv_state, rm_srv_from_cluster_state, reconfigure_state,
}
use enclave_raft.Server.Requests.Frames.{state_of}
use enclave_raft.Server.Responses.{
  count_vote, handle_voting_resp, has_more, accepted_entries, declined_entries, catch_up,
  handle_append_entries_resp, entries_answered, block_answered, accepted_block,
  handle_install_snapshot_resp, note_resp, dispatch_resp, handle_peer_resp,
}
use enclave_raft.Server.Joining.{
  dispatch_join, handle_ext_resp, drop_only_peer, give_up_leaving, leave_failed, join_failed,
  dispatch_ext_err, handle_ext_resp_err,
}
use enclave_raft.Server.Background.{
  find_conf, conf_taken, ask_snapshot, take_snapshot, snapshot_and_compact, on_snapshot_completed,
  commit_conf, commit_entry, commit_next, loop_on, commit_loop, commit_available,
}
use enclave_raft.Server.Votes.{VoteKept}
use enclave_raft.Server.Votes.Kept.{VoteKept-same_state, bind-VoteKept, update_term-VoteKept}

handle_voting_resp_state :
    (resp : Resp) (s : Server) → (handle_voting_resp resp s).1.state ≡ s.state
unfolding handle_voting_resp count_vote
handle_voting_resp_state resp s = grind (arith, become_leader-Led)

has_more_state : (k nxt : ℕ) (s : Server) → (has_more k nxt s).1.state ≡ s.state
unfolding has_more
has_more_state k nxt s = grind arith

accepted_entries_state :
    (k nxt : ℕ) (p : Peer) (s : Server) → (accepted_entries k nxt p s).1.state ≡ s.state
unfolding accepted_entries
accepted_entries_state k nxt p s = grind (arith, commit-Committed, has_more_state)

declined_entries_state :
    (k nxt : ℕ) (p : Peer) (s : Server) → (declined_entries k nxt p s).1.state ≡ s.state
unfolding declined_entries
declined_entries_state k nxt p s = refl

catch_up_state : (k : ℕ) (b : Bool) (s : Server) → (catch_up k b s).1.state ≡ s.state
unfolding catch_up
catch_up_state k b s = grind (arith, request_append_entries-Traced)

entries_answered_state :
    (resp : Resp) (p : Option Peer) (s : Server) → (entries_answered resp p s).1.state ≡ s.state
entries_answered_state resp none s = refl
entries_answered_state resp (some p) s =
    bind_keeps state_of
      (if resp.accepted
        then accepted_entries resp.src resp.next_idx p
        else declined_entries resp.src resp.next_idx p)
      (catch_up resp.src) s
      (if_keeps state_of resp.accepted (accepted_entries resp.src resp.next_idx p)
        (declined_entries resp.src resp.next_idx p) s
        (accepted_entries_state resp.src resp.next_idx p s)
        (declined_entries_state resp.src resp.next_idx p s))
      (catch_up_state resp.src)

handle_append_entries_resp_state :
    (resp : Resp) (s : Server) → (handle_append_entries_resp resp s).1.state ≡ s.state
unfolding handle_append_entries_resp
handle_append_entries_resp_state resp s = entries_answered_state resp (find_peer resp.src s.peers) s

accepted_block_state :
    (k nxt : ℕ) (p : Peer) (c : Option SnapshotSyncCtx) (s : Server)
    → (accepted_block k nxt p c s).1.state ≡ s.state
unfolding accepted_block
accepted_block_state k nxt p none s = refl
accepted_block_state k nxt p (some c) s = grind (arith, has_more_state)

block_answered_state :
    (resp : Resp) (p : Option Peer) (s : Server) → (block_answered resp p s).1.state ≡ s.state
block_answered_state resp none s = refl
block_answered_state resp (some p) s =
    bind_keeps state_of
      (if resp.accepted then accepted_block resp.src resp.next_idx p p.snp_sync_ctx else pure true)
      (catch_up resp.src) s
      (if_keeps state_of resp.accepted (accepted_block resp.src resp.next_idx p p.snp_sync_ctx)
        (pure true) s (accepted_block_state resp.src resp.next_idx p p.snp_sync_ctx s) refl)
      (catch_up_state resp.src)

handle_install_snapshot_resp_state :
    (resp : Resp) (s : Server) → (handle_install_snapshot_resp resp s).1.state ≡ s.state
unfolding handle_install_snapshot_resp
handle_install_snapshot_resp_state resp s = block_answered_state resp (find_peer resp.src s.peers) s

note_resp_state : (now k : ℕ) (s : Server) → (note_resp now k s).1.state ≡ s.state
unfolding note_resp
note_resp_state now k s = ground arith

dispatch_resp_state :
    (t : MsgType) (resp : Resp) (s : Server) → (dispatch_resp t resp s).1.state ≡ s.state
unfolding dispatch_resp
dispatch_resp_state request_vote_response resp s = handle_voting_resp_state resp s
dispatch_resp_state append_entries_response resp s = handle_append_entries_resp_state resp s
dispatch_resp_state install_snapshot_response resp s = handle_install_snapshot_resp_state resp s
dispatch_resp_state _ resp s = refl

-- An answer can only raise the term.
pub handle_peer_resp-VoteKept :
    (now : ℕ) (resp : Resp) (s : Server) → VoteKept s (handle_peer_resp now resp s).1
unfolding handle_peer_resp
handle_peer_resp-VoteKept now resp s =
    bind-VoteKept (note_resp now resp.src) _ s
      (VoteKept-same_state s (note_resp now resp.src s).1 (note_resp_state now resp.src s))
      (λ _ t.
        bind-VoteKept (update_term resp.term) _ t (update_term-VoteKept resp.term t)
          (λ b u. ground (arith, dispatch_resp_state resp.type resp u)))

dispatch_join_state :
    (t : MsgType) (resp : Resp) (p : Option Peer) (s : Server)
    → (dispatch_join t resp p s).1.state ≡ s.state
unfolding dispatch_join
dispatch_join_state t resp p s = grind (arith, sync_log_to_new_srv_state, rm_srv_from_cluster_state)

pub handle_ext_resp_state : (resp : Resp) (s : Server) → (handle_ext_resp resp s).1.state ≡ s.state
unfolding handle_ext_resp
handle_ext_resp_state resp s = dispatch_join_state resp.type resp s.srv_to_join s

give_up_leaving_state : (p : Peer) (s : Server) → (give_up_leaving p s).1.state ≡ s.state
unfolding give_up_leaving drop_only_peer
give_up_leaving_state p s = grind (arith, rm_srv_from_cluster_state)

dispatch_ext_err_state :
    (t : MsgType) (req : Req) (s : Server) → (dispatch_ext_err t req s).1.state ≡ s.state
unfolding dispatch_ext_err leave_failed join_failed
dispatch_ext_err_state t req s = grind (arith, give_up_leaving_state)

pub handle_ext_resp_err_state :
    (req : Req) (s : Server) → (handle_ext_resp_err req s).1.state ≡ s.state
unfolding handle_ext_resp_err
handle_ext_resp_err_state req s = dispatch_ext_err_state req.type req s

pub handle_hb_timeout_state :
    (k : ℕ) (p : Peer) (s : Server) → (on_peer k p handle_hb_timeout s).1.state ≡ s.state
unfolding handle_hb_timeout
handle_hb_timeout_state k p s = grind (arith, request_append_entries-Traced)

find_conf_state : (fuel idx : ℕ) (c : _) (s : Server) → (find_conf fuel idx c s).1.state ≡ s.state
unfolding find_conf
find_conf_state zero idx c s = refl
find_conf_state (suc fuel) idx c s = grind (arith, find_conf_state fuel)

conf_taken_state : (idx : ℕ) (c : _) (s : Server) → (conf_taken idx c s).1.state ≡ s.state
unfolding conf_taken
conf_taken_state idx c s = grind arith

ask_snapshot_state : (idx : ℕ) (c : _) (s : Server) → (ask_snapshot idx c s).1.state ≡ s.state
unfolding ask_snapshot
ask_snapshot_state idx c s = grind (arith, conf_taken_state)

take_snapshot_state : (idx : ℕ) (s : Server) → (take_snapshot idx s).1.state ≡ s.state
unfolding take_snapshot
take_snapshot_state idx s = grind (arith, find_conf_state, ask_snapshot_state)

snapshot_and_compact_state : (idx : ℕ) (s : Server) → (snapshot_and_compact idx s).1.state ≡ s.state
unfolding snapshot_and_compact
snapshot_and_compact_state idx s = grind (arith, take_snapshot_state)

pub on_snapshot_completed_state :
    (snp : Snapshot) (b : Bool) (s : Server) → (on_snapshot_completed snp b s).state ≡ s.state
unfolding on_snapshot_completed
on_snapshot_completed_state snp b s = ground arith

commit_conf_state : (b : Buffer) (s : Server) → (commit_conf b s).1.state ≡ s.state
unfolding commit_conf
commit_conf_state b s = grind (arith, reconfigure_state)

commit_entry_state : (i : ℕ) (e : LogEntry) (s : Server) → (commit_entry i e s).1.state ≡ s.state
unfolding commit_entry
commit_entry_state i e s =
    if_keeps state_of (val_eq e.val_type app_log) (act (sm_commit i e.buf))
      (if val_eq e.val_type conf then commit_conf e.buf else done) s refl
      (if_keeps state_of (val_eq e.val_type conf) (commit_conf e.buf) done s
        (commit_conf_state e.buf s) refl)

commit_next_state : (s : Server) → (commit_next s).1.state ≡ s.state
unfolding commit_next
commit_next_state s = grind (arith, commit_entry_state, snapshot_and_compact_state)

loop_on_state :
    (m : M Bool) (b : Bool) (s : Server)
    → ((t : Server) → (m t).1.state ≡ t.state)
    → (loop_on m b s).1.state ≡ s.state
loop_on_state m true s h = h s
loop_on_state m false s h = refl

commit_loop_state : (fuel : ℕ) (s : Server) → (commit_loop fuel s).1.state ≡ s.state
unfolding commit_loop
commit_loop_state zero s = refl
commit_loop_state (suc fuel) s = ground (
  arith,
  bind_keeps state_of commit_next (loop_on (commit_loop fuel)) s (commit_next_state s)
      (λ b t. loop_on_state (commit_loop fuel) b t (commit_loop_state fuel)),
)

pub commit_available_state : (s : Server) → (commit_available s).1.state ≡ s.state
unfolding commit_available
commit_available_state s = grind (arith, commit_loop_state)
