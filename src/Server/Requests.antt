-- ===== src/Server/Requests.antt =====
-- raft_enclave/raft/src/raft_server_handle_req.cxx: the requests of a leader, a candidate and a
-- client.
pub mod Frames
pub mod Overlap
pub mod Merge
pub mod Append
pub mod Restriction
pub mod Declined
use enclave_raft.Prelude.{
  ℕ, zero, suc, ◌+◌, ◌*◌, ◌-◌, ◌/◌, ◌%◌, ◌^◌, Bool, true, false, ◌&&◌, ◌||◌, not, Option, none,
  some, List, [], ◌∷◌, ltb, leb, ◌==◌, if◌then◌else◌, length, Result, ok, err,
}
use enclave_raft.Buffer.{Buffer}
use enclave_raft.Entry.{LogEntry, LogValType, app_log, conf, val_eq}
use enclave_raft.LogStore.{LogStore, next_slot, term_at, entry_at, last_entry, write_at}
use enclave_raft.LogStore
use enclave_raft.Messages.{
  Req, Resp, MsgType, accept, append_entries_response, request_vote_response,
}
use enclave_raft.Server.State.{
  Server, Peer, PeerMap, SrvRole, leader, follower, candidate, no_server, Action, pre_commit,
  rollback,
}
use enclave_raft.Server.Monad.{M, ◌>>=◌, ◌>>◌, pure, done, gets, modify, act, fatal, or_fault, when}
use enclave_raft.Server.Replicate.{
  term_for_log, commit, is_leader, no_peers, request_append_entries_all,
}
use enclave_raft.Server.Elect.{become_follower, restart_election_timer, append_entry, persist}

-- A message of the leader of the current term, by the role of the server that gets it.
unfoldable pub hear_leader : SrvRole → M (Unit {0})
hear_leader candidate = become_follower
hear_leader leader = fatal
hear_leader follower = restart_election_timer

-- The test of the entry before the new ones; `&&` and `||` look no further than they must.
unfoldable pub is_log_okay : Req → M Bool
is_log_okay req s =
    if req.last_log_idx == 0
    then (ok true, s)
    else if ltb req.last_log_idx (next_slot s.log_store)
    then (do term ← term_for_log req.last_log_idx; pure (req.last_log_term == term)) s
    else (ok false, s)

-- The first loop: the entries that the log has already. It returns where the log and the request
-- part, and what the request has left there.
unfoldable pub skip_matching : LogStore → ℕ → List LogEntry → Option (ℕ × List LogEntry)
skip_matching log idx [] = some (idx, [])
skip_matching log idx (e ∷ es) =
    let more = skip_matching log (idx + 1) es in
    if ltb idx (next_slot log)
    then elim (term_at idx log) [
      | none ↦ none
      | some t ↦ if t == e.term then more else some (idx, e ∷ es)
    ]
    else some (idx, e ∷ es)

-- What the state machine and the configuration are told of an entry that goes.
unfoldable pub revert : ℕ → LogEntry → M (Unit {0})
revert idx e =
    if val_eq e.val_type app_log
    then act (rollback idx e.buf)
    else if val_eq e.val_type conf
    then modify (λ s. record s { config_changing = false })
    else done

-- And of an entry that comes.
unfoldable pub announce : ℕ → LogEntry → M (Unit {0})
announce idx e =
    if val_eq e.val_type app_log
    then act (pre_commit idx e.buf)
    else if val_eq e.val_type conf
    then modify (λ s. record s { config_changing = true })
    else done

unfoldable pub overwrite_entry : ℕ → LogEntry → M (Unit {0})
unfolding revert announce
overwrite_entry idx e = do
  s ← gets (λ s. s)
  old ← or_fault (entry_at idx s.log_store)
  revert idx old
  modify (λ s. record s { log_store = write_at idx e s.log_store })
  announce idx e

-- The second loop: entries of the log that the request contradicts are overwritten. It returns what
-- the request has left.
unfoldable pub overwrite : ℕ → List LogEntry → M (List LogEntry)
unfolding overwrite_entry
overwrite idx [] s = (ok [], s)
overwrite idx (e ∷ es) s =
    let more = (overwrite_entry idx e >> overwrite (idx + 1) es) s in
    if ltb idx (next_slot s.log_store) then more else (ok (e ∷ es), s)

-- The third loop: the rest is appended.
unfoldable pub append_rest : List LogEntry → M (Unit {0})
unfolding append_entry announce
append_rest [] = done
append_rest (e ∷ es) = do idx ← append_entry e; announce idx e; append_rest es

-- All three.
unfoldable pub write_entries : ℕ → List LogEntry → M (Unit {0})
unfolding skip_matching overwrite append_rest
write_entries idx es = do
  s ← gets (λ s. s)
  found ← or_fault (skip_matching s.log_store idx es)
  left ← overwrite found.0 found.1
  append_rest left

unfoldable pub accept_entries : Req → Resp → M Resp
unfolding write_entries
accept_entries req resp = do
  write_entries (req.last_log_idx + 1) req.log_entries
  modify (λ s. record s { leader_id = req.src })
  commit req.commit_idx
  pure (accept (req.last_log_idx + length req.log_entries + 1) resp)

-- The response that declines, with the next slot for the leader to go on from.
abbrev pub append_resp : Req → Server → Resp
append_resp req s = record {
  term = s.state.term;
  type = append_entries_response;
  src = s.id;
  dst = req.src;
  next_idx = next_slot s.log_store;
  accepted = false;
}

unfoldable pub handle_append_entries : Req → M Resp
unfolding hear_leader is_log_okay accept_entries
handle_append_entries req = do
  s ← gets (λ s. s)
  when (req.term == s.state.term) (hear_leader s.role)
  let resp = append_resp req s
  log_okay ← is_log_okay req
  if ltb req.term s.state.term || not log_okay then pure resp else accept_entries req resp

-- The candidate's log is not behind the server's, as far as its last entry tells.
unfoldable pub is_up_to_date : Req → LogEntry → ℕ → Bool
is_up_to_date req last nxt =
    ltb last.term req.last_log_term
    || ((req.last_log_term == last.term) && leb (nxt - 1) req.last_log_idx)

unfoldable pub is_grant : Req → LogEntry → Server → Bool
unfolding is_up_to_date
is_grant req last s =
    (req.term == s.state.term)
    && is_up_to_date req last (next_slot s.log_store)
    && ((s.state.voted_for == req.src) || (s.state.voted_for == no_server))

abbrev pub vote_resp : Req → Server → Resp
vote_resp req s = record {
  term = s.state.term;
  type = request_vote_response;
  src = s.id;
  dst = req.src;
  next_idx = 0;
  accepted = false;
}

unfoldable pub handle_vote_req : Req → M Resp
unfolding is_grant
handle_vote_req req = do
  s ← gets (λ s. s)
  last ← or_fault (last_entry s.log_store)
  let resp = vote_resp req s
  if is_grant req last s
      then (do
        modify (λ s. record s { state = record { term = s.state.term; voted_for = req.src } })
        persist
        pure (accept (next_slot s.log_store) resp))
      else pure resp

-- An entry of a client is given the current term; the state machine is told of each, whatever its
-- type.
unfoldable pub append_client_entries : List LogEntry → M (Unit {0})
unfolding append_entry
append_client_entries [] = done
append_client_entries (e ∷ es) = do
  s ← gets (λ s. s)
  append_entry (record e { term = s.state.term })
  t ← gets (λ s. s)
  act (pre_commit (next_slot t.log_store - 1) e.buf)
  append_client_entries es

abbrev last_resps : PeerMap → List ℕ
last_resps [] = []
last_resps ((k, p) ∷ ps) = p.last_resp ∷ last_resps ps

-- `std::sort`, upwards.
unfoldable pub insert_sorted : ℕ → List ℕ → List ℕ
insert_sorted x [] = x ∷ []
insert_sorted x (y ∷ ys) = if leb x y then x ∷ (y ∷ ys) else y ∷ insert_sorted x ys

unfoldable pub sort_up : List ℕ → List ℕ
unfolding insert_sorted
sort_up [] = []
sort_up (x ∷ xs) = insert_sorted x (sort_up xs)

abbrev pub nth_or : ℕ → List ℕ → ℕ → ℕ
nth_or d [] i = d
nth_or d (x ∷ xs) zero = x
nth_or d (x ∷ xs) (suc i) = nth_or d xs i

-- The time since a majority has answered, cut to the bit pattern of an `int32`.
unfoldable pub time_since_quorum : ℕ → PeerMap → ℕ
unfolding sort_up
time_since_quorum now ps =
    (now + 2 ^ 64 - nth_or 0 (sort_up (last_resps ps)) (length ps / 2)) % 2 ^ 32

-- A negative number is not expired.
abbrev is_expired : Server → Bool
is_expired s =
    ltb s.quorum_elapsed (2 ^ 31)
    && ltb (s.params.election_timeout_upper_bound * 2) s.quorum_elapsed

abbrev cli_resp : ℕ → Server → Resp
cli_resp dst s = record {
  term = s.state.term;
  type = append_entries_response;
  src = s.id;
  dst = dst;
  next_idx = 0;
  accepted = false;
}

unfoldable pub answer_client : Req → M Resp
unfolding append_client_entries
answer_client req = do
  s ← gets (λ s. s)
  if is_leader s.role
      then (do
        append_client_entries req.log_entries
        request_append_entries_all
        t ← gets (λ s. s)
        pure (accept (next_slot t.log_store) (cli_resp s.leader_id s)))
      else pure (cli_resp s.leader_id s)

-- A leader that a majority has not answered for long refuses the request.
unfoldable pub handle_cli_req : ℕ → Req → M Resp
unfolding time_since_quorum answer_client
handle_cli_req now req s =
    if is_leader s.role && not (no_peers s.peers) && is_expired s
    then (do
      modify (λ s. record s { quorum_elapsed = time_since_quorum now s.peers })
      t ← gets (λ s. s)
      if is_expired t then pure (cli_resp no_server t) else answer_client req)
        s
    else answer_client req s
