-- ===== src/Server/Requests/Frames.antt =====
-- What the requests of a leader, a candidate and a client leave alone.
use enclave_raft.Prelude.{
  ℕ, ◌+◌, ◌≡◌, refl, ap, List, [], ◌∷◌, arith, ltb, Bool-cases, ◌==◌, ◌||◌, not, inl, inr,
}
use enclave_raft.Entry.{LogEntry}
use enclave_raft.LogStore.{next_slot}
use enclave_raft.Messages.{Req, Resp}
use enclave_raft.Server.State.{Server, SrvRole, follower, leader, candidate}
use enclave_raft.Server.Monad.{bind_keeps, when_keeps, if_keeps, when, pure, ◌>>=◌, ◌>>◌}
use enclave_raft.Snapshot.{SrvState}
use enclave_raft.Server.Replicate.Frames.{
  Traced, term_for_log-Traced, commit-Committed, request_append_entries_all-Committed,
}
use enclave_raft.Server.Elect.{append_entry}
use enclave_raft.Server.Elect.Frames.{
  Followed, restart_election_timer-Timed, become_follower-Followed,
}
use enclave_raft.Server.Requests.{
  hear_leader, is_log_okay, overwrite_entry, overwrite, announce, time_since_quorum, append_resp,
  append_rest, write_entries, accept_entries, handle_append_entries, append_client_entries,
  answer_client, handle_cli_req,
}

pub hear_leader-Followed : (r : SrvRole) (s : Server) → Followed s (hear_leader r s).1
unfolding hear_leader
hear_leader-Followed candidate s = become_follower-Followed s
hear_leader-Followed leader s = refl
hear_leader-Followed follower s = ground (arith, restart_election_timer-Timed s)

pub is_log_okay-Traced : (req : Req) (s : Server) → Traced s (is_log_okay req s).1
unfolding is_log_okay
is_log_okay-Traced req s = ground (arith, term_for_log-Traced req.last_log_idx s)

-- What the server has of its term and its vote.
abbrev pub state_of : Server → SrvState
state_of s = s.state

overwrite_entry_state :
    (i : ℕ) (e : LogEntry) (s : Server) → (overwrite_entry i e s).1.state ≡ s.state
unfolding overwrite_entry
overwrite_entry_state i e s = ground arith

overwrite_state : (i : ℕ) (es : List LogEntry) (s : Server) → (overwrite i es s).1.state ≡ s.state
unfolding overwrite
overwrite_state i [] s = refl
overwrite_state i (e ∷ es) s = elim (Bool-cases (ltb i (next_slot s.log_store))) [
  | inl h ↦ rw h (
      bind_keeps state_of (overwrite_entry i e) (λ _. overwrite (i + 1) es) s
        (overwrite_entry_state i e s) (λ _ t. overwrite_state (i + 1) es t))
  | inr h ↦ rw h refl
]

append_one_state :
    (e : LogEntry) (s : Server) → ((append_entry e >>= λ i. announce i e) s).1.state ≡ s.state
unfolding announce append_entry
append_one_state e s = ground arith

append_entry_state : (e : LogEntry) (s : Server) → (append_entry e s).1.state ≡ s.state
unfolding append_entry
append_entry_state e s = refl

announce_state : (i : ℕ) (e : LogEntry) (s : Server) → (announce i e s).1.state ≡ s.state
unfolding announce
announce_state i e s = ground arith

append_rest_state : (es : List LogEntry) (s : Server) → (append_rest es s).1.state ≡ s.state
unfolding append_rest
append_rest_state [] s = refl
append_rest_state (e ∷ es) s =
    bind_keeps state_of (append_entry e) (λ i. announce i e >> append_rest es) s
      (append_entry_state e s)
      (λ i t.
        bind_keeps state_of (announce i e) (λ _. append_rest es) t (announce_state i e t)
          (λ _ u. append_rest_state es u))

write_entries_state :
    (i : ℕ) (es : List LogEntry) (s : Server) → (write_entries i es s).1.state ≡ s.state
unfolding write_entries
write_entries_state i es s = grind (arith, overwrite_state, append_rest_state)

accept_entries_state :
    (req : Req) (r : Resp) (s : Server) → (accept_entries req r s).1.state ≡ s.state
unfolding accept_entries
accept_entries_state req r s =
    bind_keeps state_of (write_entries (req.last_log_idx + 1) req.log_entries) _ s
      (write_entries_state (req.last_log_idx + 1) req.log_entries s)
      (λ _ t. grind (arith, commit-Committed))

-- Neither the term nor the vote changes when entries come.
pub handle_append_entries_state :
    (req : Req) (s : Server) → (handle_append_entries req s).1.state ≡ s.state
unfolding handle_append_entries
handle_append_entries_state req s =
    bind_keeps state_of (when (req.term == s.state.term) (hear_leader s.role)) _ s
      (when_keeps state_of (req.term == s.state.term) (hear_leader s.role) s
        (ap state_of (hear_leader-Followed s.role s)))
      (λ _ t.
        bind_keeps state_of (is_log_okay req) _ t (ap state_of (is_log_okay-Traced req t))
          (λ okay u.
            if_keeps state_of (ltb req.term s.state.term || not okay) (pure (append_resp req s))
              (accept_entries req (append_resp req s)) u refl
              (accept_entries_state req (append_resp req s) u)))

append_client_entries_state :
    (es : List LogEntry) (s : Server) → (append_client_entries es s).1.state ≡ s.state
unfolding append_client_entries append_entry
append_client_entries_state [] s = refl
append_client_entries_state (e ∷ es) s = append_client_entries_state es _

answer_client_state : (req : Req) (s : Server) → (answer_client req s).1.state ≡ s.state
unfolding answer_client
answer_client_state req s =
    grind (arith, append_client_entries_state, request_append_entries_all-Committed)

-- Nor when a client's entries come.
pub handle_cli_req_state :
    (now : ℕ) (req : Req) (s : Server) → (handle_cli_req now req s).1.state ≡ s.state
unfolding handle_cli_req
handle_cli_req_state now req s = ground (
  arith,
  answer_client_state req s,
  answer_client_state req (record s { quorum_elapsed = time_since_quorum now s.peers }),
)
