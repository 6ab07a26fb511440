-- ===== src/Server/Requests/Append.antt =====
-- What a follower's log is after the request of its leader.
use enclave_raft.Prelude.{
  drop-take, take-take_append, take-drop, ℕ, suc, ◌+◌, ◌≤◌, ◌<◌, ◌≡◌, ap, ◌∙◌, sym, true, false,
  some, List, ◌++◌, Result, ok, arith, ltb, ◌==◌, length, take, drop, get_elem?, subst,
}
use enclave_raft.Entry.{LogEntry}
use enclave_raft.LogStore.{start_index}
use enclave_raft.LogStore.View.{store, next_slot-store, entry_at-store}
use enclave_raft.Messages.{Req, Resp}
use enclave_raft.Server.State.{Server, SrvRole, follower}
use enclave_raft.Server.Replicate.{term_for_log}
use enclave_raft.Server.Replicate.Frames.{commit-Committed}
use enclave_raft.Server.Elect.{restart_election_timer}
use enclave_raft.Server.Elect.Frames.{restart_election_timer-Timed, restart_election_timer_ok}
use enclave_raft.Server.Requests.{
  hear_leader, is_log_okay, append_resp, accept_entries, handle_append_entries, write_entries,
}
use enclave_raft.Server.Requests.Overlap.{merge, terms, merge-terms, merge-agree, agree-terms}
use enclave_raft.Server.Requests.Merge.{write_entries-store}

pub accept_entries_log :
    (d : LogEntry) (st : ℕ) (es : List LogEntry) (j : ℕ) (req : Req) (r : Resp) (s : Server)
    → 1 ≤ st
    → j ≤ length es
    → req.last_log_idx + 1 ≡ st + j
    → s.log_store ≡ store d st es
    → (accept_entries req r s).1.log_store
      ≡ store d st (take j es ++ merge (drop j es) req.log_entries)
unfolding accept_entries
accept_entries_log d st es j req r s h g q l =
    let (done_ok, log) = write_entries-store d st es j req.log_entries s h g l in
    rw q (rw done_ok (grind (arith, commit-Committed)))

-- The entry before those of the request is there, with its term.
is_log_okay-store :
    (d : LogEntry) (st : ℕ) (es : List LogEntry) (i : ℕ) (e : LogEntry) (req : Req) (s : Server)
    → 1 ≤ st
    → get_elem? es i ≡ some e
    → i < length es
    → req.last_log_idx ≡ st + i
    → req.last_log_term ≡ e.term
    → s.log_store ≡ store d st es
    → is_log_okay req s ≡ (ok true, s)
unfolding is_log_okay term_for_log start_index
is_log_okay-store d st es i e req s h f b q t l =
    rw l (ground (arith, next_slot-store d st es, (entry_at-store d st es i h f).1))

-- A follower in the term of the request that has the entry before those of the request, with the term
-- that the request says, in a log that starts at 1 or later: it keeps its log up to there, and behind
-- it the log is `merge` of what it was and the entries.
pub handle_append_entries-store :
    (d : LogEntry) (st : ℕ) (es : List LogEntry) (i : ℕ) (e : LogEntry) (req : Req) (s : Server)
    → 1 ≤ st
    → get_elem? es i ≡ some e
    → i < length es
    → req.last_log_idx ≡ st + i
    → req.last_log_term ≡ e.term
    → s.log_store ≡ store d st es
    → s.role ≡ follower
    → req.term ≡ s.state.term
    → (handle_append_entries req s).1.log_store
      ≡ store d st (take (suc i) es ++ merge (drop (suc i) es) req.log_entries)
unfolding handle_append_entries hear_leader
handle_append_entries-store d st es i e req s h f b q t l r k = rw current (
    rw heard (
      rw okay (
        rw not_below (
          accept_entries_log d st es (suc i) req (append_resp req s) u h (omega arith) (omega arith)
            log))))
  where
    u : Server
    u = (restart_election_timer s).1

    log : u.log_store ≡ store d st es
    log = ap (λ (v : Server). v.log_store) (restart_election_timer-Timed s) ∙ l

    okay : is_log_okay req u ≡ (ok true, u)
    okay = is_log_okay-store d st es i e req u h f b q t log

    not_below : ltb req.term s.state.term ≡ false
    not_below = ground arith

    current : (req.term == s.state.term) ≡ true
    current = ground arith

    heard : hear_leader s.role s ≡ (ok tt, u)
    heard =
        subst (λ (r : SrvRole). hear_leader r s ≡ (ok tt, u)) (sym r)
          (ap (λ (x : Result (Unit {0})). (x, u)) (restart_election_timer_ok s))

-- When entries are written behind the first `j` of a log that starts at 1 or later, those `j` stay, and
-- the entries after them have the terms of the entries written.
pub write_entries-terms :
    (d : LogEntry) (st : ℕ) (es : List LogEntry) (j : ℕ) (new : List LogEntry) (s : Server)
    → 1 ≤ st
    → j ≤ length es
    → s.log_store ≡ store d st es
    → (es' : List LogEntry) × ((write_entries (st + j) new s).1.log_store ≡ store d st es')
      × (take j es' ≡ take j es)
      × (terms (take (length new) (drop j es')) ≡ terms new)
write_entries-terms d st es j new s h g l = (
  take j es ++ merge (drop j es) new,
  (write_entries-store d st es j new s h g l).1,
  take-take_append j es (merge (drop j es) new) g,
  rw (drop-take j es (merge (drop j es) new) g) (merge-terms (drop j es) new),
)

-- Entries that a log that starts at 1 or later has already, by their terms, change nothing of it: a
-- request that comes late does not cut the log.
pub write_entries-agree :
    (d : LogEntry) (st : ℕ) (es : List LogEntry) (j : ℕ) (new : List LogEntry) (s : Server)
    → 1 ≤ st
    → j ≤ length es
    → s.log_store ≡ store d st es
    → terms (take (length new) (drop j es)) ≡ terms new
    → (write_entries (st + j) new s).1.log_store ≡ s.log_store
write_entries-agree d st es j new s h g l same =
    (write_entries-store d st es j new s h g l).1
    ∙ ap (λ (m : List LogEntry). store d st (take j es ++ m))
        (merge-agree (drop j es) new (agree-terms (drop j es) new same))
    ∙ ap (store d st) (take-drop j es)
    ∙ sym l
