-- ===== src/Server/Background/Drained.antt =====
-- The rounds of the thread that commits.
use enclave_raft.Prelude.{ℕ, ◌⊎◌, ◌≡◌, Bool, true, false, Result, ok, err}
use enclave_raft.Buffer.{Buffer}
use enclave_raft.LogStore.{LogStore}
use enclave_raft.Server.State.{Server}
use enclave_raft.Server.Monad.{fatal}
use enclave_raft.Server.Background.{has_uncommitted}

-- How far the server has committed, and how far it may, and its log.
abbrev indices : Server → ℕ × ℕ × LogStore
indices s = (s.sm_commit_index, s.quick_commit_idx, s.log_store)

-- The loop has ended, and by its test.
abbrev Drains : Result Bool → Server → Type 0
Drains (ok b) t = (b ≡ true) × (has_uncommitted t ≡ false)
Drains (err e) t = Unit {0}

-- A turn of the thread that commits: it is through, with no entry left that it could commit, or the
-- process exits.
abbrev pub Through : Result Bool × Server → Type 0
Through x = ((x.0 ≡ ok true) × (has_uncommitted x.1 ≡ false)) ⊎ ((t : Server) × (x ≡ fatal t))
