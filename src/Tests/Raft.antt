-- ===== src/Tests/Raft.antt =====
-- The server on concrete data.
use enclave_raft.Prelude.{
  ℕ, Bool, ◌≢◌, none, min, false, ◌⊎◌, ◌≤◌, take, drop, ◌+◌, ◌*◌, ◌/◌, ◌<◌, ◌≡◌, refl, true, List,
  [], ◌∷◌, arith, All, ok, length,
}
use enclave_raft.Entry.{LogEntry}
use enclave_raft.LogStore.View.{last, store}
use enclave_raft.Messages.{
  Req, Resp, request_vote_request, request_vote_response, append_entries_request,
}
use enclave_raft.Server.State.{Server, follower, candidate, leader, no_server}
use enclave_raft.Server.Replicate.{
  request_append_entries_all, request_append_entries, create_append_entries_req, append_entries_req,
  term_for_log, entries_for,
}
use enclave_raft.LogStore.{next_slot, start_index, term_at, last_entry, find_or_dummy, find}
use enclave_raft.Server.State.{resume_hb_speed, max_hb_interval, new_peer}
use enclave_raft.Server.Monad.{each_peer, find_peer, set_peer}
use enclave_raft.Server.Elect.{
  update_term, handle_hb_timeout, become_follower, contains, add_voter, become_leader,
  stop_election_timer, lead_peer, enable_hb_for_peer,
}
use enclave_raft.Server.Elect.Frames.{become_follower_lem, timed, stilled, cancels}
use enclave_raft.Server.Requests.{
  write_entries, handle_append_entries, handle_vote_req, is_grant, is_up_to_date,
}
use enclave_raft.Server.Requests.Overlap.{merge, terms}
use enclave_raft.Server.Requests.Merge.{Leaves, write_entries-store}
use enclave_raft.Server.Requests.Append.{
  handle_append_entries-store, write_entries-terms, write_entries-agree,
}
use enclave_raft.Server.Responses.{
  handle_rpc_result, handle_voting_resp, count_vote, quorum_idx, matched_of,
}
use enclave_raft.Server.Responses.Pace.{after_errors, handle_rpc_result_pace}
use enclave_raft.Server.Requests.Restriction.{handle_vote_req-up_to_date}
use enclave_raft.Server.Responses.Quorum.{count_ge, quorum_idx-majority}
use enclave_raft.Server.Responses.Ballot.{
  poll, is_set, Backs, handle_voting_resp-majority, handle_voting_resp_twice,
}
use enclave_raft.Server.Background.{commit_available, commit_loop}
use enclave_raft.Server.Public.{process_req, dispatch_req, hear_term}
use enclave_raft.Server.Votes.{
  Event, request, hb_timeout, commit_round, AllSafe, VoteKept, run, step,
}
use enclave_raft.Server.Votes.Runs.{Granted, run-VoteKept, one_vote_per_term}
use enclave_raft.Tests.{peer, dummy, entry, entries, log, peers, node, req}

-- A follower that has voted for no one in the term of two requests of the same candidate.
abbrev start : Server
start = record (node follower no_server) { state = record { term = 3; voted_for = no_server } }

abbrev vote_req : Req
vote_req = req request_vote_request 2 2 3 []

-- In between another candidate asks.
abbrev events : List Event
events = request 5 (req request_vote_request 3 2 3 []) ∷ hb_timeout 2 ∷ commit_round ∷ []

become_follower_lem_example : become_follower (node candidate 1) ≡ (
  ok tt,
  timed (record (node candidate 1) {
    peers = stilled peers;
    trace = cancels peers [];
    srv_to_join = none;
    role = follower;
  }),
)
become_follower_lem_example = become_follower_lem (node candidate 1)

quorum_idx-majority_example : 3 < 2 * count_ge (quorum_idx 3 peers) (3 ∷ matched_of peers)
quorum_idx-majority_example = quorum_idx-majority 3 peers

-- The entry 3 of term 2 gives way to one of term 3.
write_entries-store_example : Leaves (write_entries 2 (entry 1 11 ∷ entry 3 13 ∷ [])) start tt (
    store dummy 1
      (entry 1 10 ∷ merge (entry 1 11 ∷ entry 2 12 ∷ []) (entry 1 11 ∷ entry 3 13 ∷ [])))
write_entries-store_example =
    write_entries-store dummy 1 entries 1 (entry 1 11 ∷ entry 3 13 ∷ []) start (omega arith)
      (omega arith) refl

write_entries-terms_example :
    (es' : List LogEntry) × ((write_entries 2 (entry 1 11 ∷ entry 3 13 ∷ []) start).1.log_store
      ≡ store dummy 1 es')
    × (take 1 es' ≡ entry 1 10 ∷ [])
    × (terms (take 2 (drop 1 es')) ≡ 1 ∷ 3 ∷ [])
write_entries-terms_example =
    write_entries-terms dummy 1 entries 1 (entry 1 11 ∷ entry 3 13 ∷ []) start (omega arith)
      (omega arith) refl

write_entries-agree_example : (write_entries 2 (entry 1 11 ∷ []) start).1.log_store ≡ log
write_entries-agree_example =
    write_entries-agree dummy 1 entries 1 (entry 1 11 ∷ []) start (omega arith) (omega arith) refl
      refl

handle_append_entries-store_example :
    (handle_append_entries
      (req append_entries_request 2 1 1 (entry 1 11 ∷ entry 3 13 ∷ []))
      start).1.log_store
    ≡ store dummy 1
        (entry 1 10 ∷ merge (entry 1 11 ∷ entry 2 12 ∷ []) (entry 1 11 ∷ entry 3 13 ∷ []))
handle_append_entries-store_example =
    handle_append_entries-store dummy 1 entries 0 (entry 1 10)
      (req append_entries_request 2 1 1 (entry 1 11 ∷ entry 3 13 ∷ [])) start (omega arith) refl
      (omega arith) (omega arith) refl refl refl refl

-- A candidate among three servers that has voted for itself, and two answers: server 3 declines.
abbrev elected : Server
elected = record (node candidate 1) { votes_granted = 1; voted_servers = 1 ∷ [] }

abbrev answer : ℕ → Bool → Resp
answer src accepted = record {
  term = 2;
  type = request_vote_response;
  src = src;
  dst = 1;
  next_idx = 4;
  accepted = accepted;
}

abbrev yes : Resp
yes = answer 2 true

declined_first : (poll (answer 3 false ∷ []) elected).role ≢ leader
unfolding handle_voting_resp count_vote contains add_voter
declined_first = ground arith

elected_leads : (poll (yes ∷ answer 3 false ∷ []) elected).role ≡ leader
unfolding handle_voting_resp count_vote contains add_voter become_leader stop_election_timer
    lead_peer enable_hb_for_peer resume_hb_speed each_peer request_append_entries_all
    request_append_entries create_append_entries_req append_entries_req term_for_log entries_for
    next_slot start_index term_at
elected_leads = refl

handle_voting_resp-majority_example :
    (vs : List ℕ) × (is_set vs ≡ true)
    × All (Backs (yes ∷ answer 3 false ∷ []) elected) vs
    × ((length (poll (answer 3 false ∷ []) elected).peers + 1) / 2 < length vs)
handle_voting_resp-majority_example =
    handle_voting_resp-majority yes (answer 3 false ∷ []) elected refl refl declined_first
      elected_leads

handle_voting_resp_twice_example :
    (handle_voting_resp yes (handle_voting_resp yes elected).1).1
    ≡ (handle_voting_resp yes elected).1
handle_voting_resp_twice_example = handle_voting_resp_twice yes elected

-- The first event is a request for a vote; the others are always safe.
request_alone : (s : Server) → AllSafe events s
request_alone s = (ground arith, (tt, (tt, tt)))

run-VoteKept_example : VoteKept start (run events start)
run-VoteKept_example = run-VoteKept events start (request_alone start)

-- The vote, with the next slot of the log.
abbrev vote_answer : Resp
vote_answer = record {
  term = 3;
  type = request_vote_response;
  src = 1;
  dst = 2;
  next_idx = 4;
  accepted = true;
}

granted : Granted 5 vote_req start
unfolding process_req dispatch_req hear_term update_term handle_vote_req is_grant is_up_to_date
    last_entry find_or_dummy find next_slot
granted = (vote_answer, refl, refl)

second_vote : Granted 9 vote_req (run events (process_req 5 vote_req start).1)
unfolding process_req dispatch_req hear_term update_term handle_vote_req is_grant is_up_to_date
    last_entry find_or_dummy find next_slot run step find_peer set_peer handle_hb_timeout
    commit_available commit_loop
second_vote = (vote_answer, refl, refl)

one_vote_per_term_example : vote_req.src ≡ vote_req.src
one_vote_per_term_example =
    one_vote_per_term 5 9 vote_req vote_req events start refl refl refl (omega arith)
      (request_alone (process_req 5 vote_req start).1) granted second_vote

voted : (handle_vote_req vote_req start).0 ≡ ok vote_answer
unfolding handle_vote_req is_grant is_up_to_date last_entry find_or_dummy find next_slot
voted = refl

handle_vote_req-up_to_date_example :
    (2 < 2) ⊎ ((vote_req.last_log_term ≡ (last entries dummy).term) × (3 ≤ vote_req.last_log_idx))
handle_vote_req-up_to_date_example =
    handle_vote_req-up_to_date dummy 1 entries 2 vote_req vote_answer start (omega arith) refl refl
      voted refl

-- Two errors slow the heartbeat of a peer.
handle_rpc_result_pace_example :
    ((after_errors 2 vote_req (peer 2 3)).current_hb_interval
      ≡ min (peer 2 3).max_hb_interval ((peer 2 3).current_hb_interval + 2 * 25))
    × ((handle_rpc_result vote_req true (after_errors 2 vote_req (peer 2 3))).current_hb_interval
        ≡ 100)
unfolding max_hb_interval new_peer
handle_rpc_result_pace_example = handle_rpc_result_pace 2 vote_req (peer 2 3) (ground arith)
