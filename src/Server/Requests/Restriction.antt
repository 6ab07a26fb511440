-- ===== src/Server/Requests/Restriction.antt =====
-- What a vote says of the candidate's log.
use enclave_raft.Prelude.{ℕ, suc, ◌+◌, ◌≤◌, ◌<◌, ◌≡◌, ◌⊎◌, true, List, ok, arith, length}
use enclave_raft.Entry.{LogEntry}
use enclave_raft.LogStore.View.{store, last, last_entry-store, next_slot-store}
use enclave_raft.Messages.{Req, Resp}
use enclave_raft.Server.State.{Server}
use enclave_raft.Server.Requests.{handle_vote_req, is_grant, is_up_to_date}

-- A server with entries in its log, which starts at 1 or later, votes only for a candidate whose log
-- ends in a later term than its own, or in the same term and at no smaller index.
pub handle_vote_req-up_to_date :
    (d : LogEntry) (st : ℕ) (es : List LogEntry) (n : ℕ) (req : Req) (resp : Resp) (s : Server)
    → 1 ≤ st
    → length es ≡ suc n
    → s.log_store ≡ store d st es
    → (handle_vote_req req s).0 ≡ ok resp
    → resp.accepted ≡ true
    → ((last es d).term < req.last_log_term)
      ⊎ ((req.last_log_term ≡ (last es d).term) × (st + n ≤ req.last_log_idx))
unfolding handle_vote_req is_grant is_up_to_date
handle_vote_req-up_to_date d st es n req resp s h e l g a =
    ground (arith, next_slot-store d st es, last_entry-store d st es h)
