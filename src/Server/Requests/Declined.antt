-- ===== src/Server/Requests/Declined.antt =====
-- What a follower makes of a request that it declines.
use enclave_raft.Prelude.{ℕ, Bool, false, none, some, List, ◌==◌, get_elem?, if◌then◌else◌}
use enclave_raft.Entry.{LogEntry}
use enclave_raft.Messages.{Req}
use enclave_raft.Server.State.{Server}
use enclave_raft.Server.Elect.{restart_election_timer}

-- The entries have one at the position `i`, and it has this term.
abbrev pub has_term_at : ℕ → ℕ → List LogEntry → Bool
has_term_at term i es = elim (get_elem? es i) [ none ↦ false | some e ↦ term == e.term ]

-- A follower hears a request of its own term as one of its leader.
abbrev heard : Req → Server → Server
heard req s = if req.term == s.state.term then (restart_election_timer s).1 else s
