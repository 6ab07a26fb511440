-- ===== src/Tests/Commits.antt =====
-- The thread that commits on concrete data.
use enclave_raft.Prelude.{ℕ, ◌++◌, [], ◌∷◌}
use enclave_raft.Entry.{LogEntry, conf}
use enclave_raft.LogStore.View.{store}
use enclave_raft.Server.State.{Server, leader}
use enclave_raft.Config.{ClusterConfig}
use enclave_raft.Config
use enclave_raft.Config.RoundTrip.{config_bytes}
use enclave_raft.Buffer.{Buffer}
use enclave_raft.Tests.{dummy, params, cluster, entry, node}

-- A log with two configurations, the second linked to the first, and a server that has given none of its
-- entries to the state machine and takes a snapshot at each.
abbrev conf_at : ℕ → ℕ → ClusterConfig
conf_at idx prev = record cluster { log_idx = idx; prev_log_idx = prev }

abbrev conf_entry : ℕ → ℕ → LogEntry
conf_entry idx prev = record {
  term = 1;
  val_type = conf;
  buf = record { bytes = config_bytes (conf_at idx prev) ++ []; pos = 0 };
}

abbrev behind : Server
behind = record (node leader 1) {
  params = record params { snapshot_distance = 1 };
  quick_commit_idx = 3;
  config = conf_at 3 1;
  log_store = store dummy 1 (conf_entry 1 0 ∷ entry 1 11 ∷ conf_entry 3 1 ∷ []);
}
