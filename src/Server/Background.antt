-- ===== src/Server/Background.antt =====
-- raft_enclave/raft/src/raft_server.cxx: the thread that commits, and snapshots.
pub mod Links
pub mod Drained
use enclave_raft.Prelude.{
  ℕ, zero, suc, ◌+◌, ◌-◌, ◌%◌, ◌^◌, Bool, true, false, ◌&&◌, ◌||◌, not, Option, none, some, ltb,
  leb, ◌==◌, if◌then◌else◌, ok, err,
}
use enclave_raft.Buffer.{Buffer, seek}
use enclave_raft.Config.{ClusterConfig, get_server}
use enclave_raft.Config
use enclave_raft.Entry.{LogEntry, app_log, conf, val_eq}
use enclave_raft.Snapshot.{Snapshot}
use enclave_raft.LogStore.{next_slot, start_index, entry_at, term_at, compact}
use enclave_raft.Server.State.{Server, sm_commit, save_config, create_snapshot}
use enclave_raft.Server.Monad.{M, ◌>>=◌, ◌>>◌, pure, done, lift, gets, modify, act, fatal, or_fault}
use enclave_raft.Server.Members.{is_some, reconfigure}

-- `a - b` on 64-bit words.
abbrev sub64 : ℕ → ℕ → ℕ
sub64 a b = (a + 2 ^ 64 - b) % 2 ^ 64

abbrev is_due : Option Snapshot → ℕ → ℕ → Bool
is_due none idx distance = true
is_due (some snp) idx distance = leb distance (sub64 idx snp.last_log_idx)

-- The loop back to a configuration that is committed, by the links in the log. `none` is a loop that goes
-- on when the fuel is out: links that form a circle never end.
unfoldable pub find_conf : ℕ → ℕ → ClusterConfig → M (Option ClusterConfig)
find_conf zero idx c s = (
  ok (if ltb idx c.log_idx && leb (start_index s.log_store) c.prev_log_idx then none else some c),
  s,
)
find_conf (suc fuel) idx c s =
    let older =
      (do
        e ← or_fault (entry_at c.prev_log_idx s.log_store)
        conf_read ← lift (Config.deserialize e.buf)
        find_conf fuel idx conf_read.0)
        s in
    if ltb idx c.log_idx && leb (start_index s.log_store) c.prev_log_idx
    then older
    else (ok (some c), s)

-- The configuration to take along, from the one that the loop ends at.
unfoldable pub conf_taken : ℕ → ClusterConfig → M ClusterConfig
conf_taken idx c = do
  s ← gets (λ s. s)
  if ltb idx c.log_idx && ltb 0 c.prev_log_idx && ltb c.prev_log_idx (start_index s.log_store)
      then elim (s.last_snapshot) [ none ↦ fatal | some snp ↦ pure snp.last_config ]
      else if ltb idx c.log_idx && (c.prev_log_idx == 0)
      then fatal
      else pure c

-- The state machine is asked for a snapshot, whose size is not known here.
unfoldable pub ask_snapshot : ℕ → ClusterConfig → M (Unit {0})
unfolding conf_taken
ask_snapshot idx found = do
  c ← conf_taken idx found
  s ← gets (λ s. s)
  term ← or_fault (term_at idx s.log_store)
  act (
      create_snapshot
        (record { last_log_idx = idx; last_log_term = term; size = 0; last_config = c }))

abbrev pub ask_if_found : ℕ → Option ClusterConfig → M Bool
ask_if_found idx none = pure false
ask_if_found idx (some c) = do ask_snapshot idx c; pure true

-- A snapshot taken; the links are followed from the server's configuration, with fuel for one that goes
-- back by one in each round. `false` is an attempt that has not ended.
unfoldable pub take_snapshot : ℕ → M Bool
unfolding find_conf ask_snapshot
take_snapshot idx = do
  modify (λ s. record s { snp_in_progress = true })
  s ← gets (λ s. s)
  found ← find_conf (s.config.prev_log_idx + 1) idx s.config
  ask_if_found idx found

-- `catch (...)`: a failure ends the attempt.
abbrev pub catch_attempt : M Bool → M Bool
catch_attempt m s =
    let (r, s') = m s in
    elim r [ ok b ↦ (ok b, s') | err e ↦ (ok true, record s' { snp_in_progress = false }) ]

unfoldable pub snapshot_and_compact : ℕ → M Bool
snapshot_and_compact idx s =
    let distance = s.params.snapshot_distance in
    if (distance == 0) || ltb (sub64 idx (start_index s.log_store)) distance
    then (ok true, s)
    else if is_due s.last_snapshot idx distance && not s.snp_in_progress
    then catch_attempt (take_snapshot idx) s
    else (ok true, s)

-- `on_snapshot_completed`, without an error and with what the state machine says of success.
unfoldable pub on_snapshot_completed : Snapshot → Bool → Server → Server
on_snapshot_completed snp success s =
    let t =
      if success
      then record s {
        last_snapshot = some snp;
        log_store =
            if ltb s.params.reserved_log_items snp.last_log_idx
            then compact (snp.last_log_idx - s.params.reserved_log_items) s.log_store
            else s.log_store;
      }
      else s in
    record t { snp_in_progress = false }

-- A configuration that is committed.
unfoldable pub commit_conf : Buffer → M (Unit {0})
commit_conf b = do
  conf_read ← lift (Config.deserialize (seek 0 b))
  let new_conf = conf_read.0
  act (save_config new_conf)
  modify (λ s. record s { config_changing = false })
  s ← gets (λ s. s)
  modify (λ s. if ltb s.config.log_idx new_conf.log_idx then reconfigure new_conf s else s)
  modify (λ s.
      if s.catching_up && is_some (get_server s.id new_conf)
      then record s { catching_up = false }
      else s)

unfoldable pub commit_entry : ℕ → LogEntry → M (Unit {0})
commit_entry idx e =
    if val_eq e.val_type app_log
    then act (sm_commit idx e.buf)
    else if val_eq e.val_type conf
    then commit_conf e.buf
    else done

-- One round of the inner loop of `commit_in_bg`; `false` is a round that has not ended.
unfoldable pub commit_next : M Bool
commit_next = do
  modify (λ s. record s { sm_commit_index = s.sm_commit_index + 1 })
  s ← gets (λ s. s)
  e ← or_fault (entry_at s.sm_commit_index s.log_store)
  commit_entry s.sm_commit_index e
  snapshot_and_compact s.sm_commit_index

-- The test of the inner loop.
abbrev pub has_uncommitted : Server → Bool
has_uncommitted s =
    ltb s.sm_commit_index s.quick_commit_idx && ltb s.sm_commit_index (next_slot s.log_store - 1)

-- `catch (std::exception &)` around the loops: the process exits.
abbrev pub catch_exit : M Bool → M Bool
catch_exit m s = let (r, s') = m s in elim r [ ok b ↦ (ok b, s') | err e ↦ fatal s' ]

-- After a round that has ended, the next ones.
abbrev pub loop_on : M Bool → Bool → M Bool
loop_on m true = m
loop_on m false = pure false

-- The inner loop of `commit_in_bg`, which runs when it is notified; `false` is a loop that has not ended.
-- `commit_available` gives it as many rounds as entries are left.
unfoldable pub commit_loop : ℕ → M Bool
commit_loop zero s = (ok (not (has_uncommitted s)), s)
commit_loop (suc fuel) s =
    let next = (commit_next >>= loop_on (commit_loop fuel)) s in
    if has_uncommitted s then next else (ok true, s)

unfoldable pub commit_available : M Bool
commit_available s = catch_exit (commit_loop (s.quick_commit_idx - s.sm_commit_index)) s
