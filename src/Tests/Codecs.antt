-- ===== src/Tests/Codecs.antt =====
-- What is written is read back: on concrete data.
use enclave_raft.Prelude.{◌≡◌, true, [], ◌∷◌, arith, ok, ◌>>=◌}
use enclave_raft.Buffer.{Buffer, write_loop}
use enclave_raft.Buffer.Cursor.{cursor}
use enclave_raft.Config
use enclave_raft.Config.RoundTrip.{IsClusterConfig, config_bytes, deserialize-serialize_config}
use enclave_raft.Entry
use enclave_raft.Entry.RoundTrip.{deserialize-serialize_entry}
use enclave_raft.Snapshot
use enclave_raft.Snapshot.{
  SnapshotSyncReq, SrvState, serialize_state, deserialize_state, serialize_sync, deserialize_sync,
}
use enclave_raft.Snapshot.RoundTrip.{
  IsSnapshot, snapshot_bytes, state_bytes, deserialize-serialize_snapshot,
  deserialize_sync-serialize_sync, deserialize_state-serialize_state,
}
use enclave_raft.Messages.{Resp, request_vote_response, serialize_resp, deserialize_resp}
use enclave_raft.Messages.RoundTrip.{deserialize_resp-serialize_resp}
use enclave_raft.Tests.{fresh, cluster, entry, snp}

abbrev half_read : Buffer
half_read = record { bytes = 1 ∷ 2 ∷ 3 ∷ []; pos = 1 }

pub cluster-IsClusterConfig : IsClusterConfig cluster
unfolding write_loop
cluster-IsClusterConfig = record {
  log_idx_word = omega arith;
  prev_log_idx_word = omega arith;
  all_servers = ground arith;
  fits = omega arith;
}

deserialize-serialize_config_example :
    (Config.serialize fresh cluster >>= Config.deserialize)
    ≡ ok (cluster, cursor (config_bytes cluster) [])
deserialize-serialize_config_example =
    deserialize-serialize_config fresh cluster cluster-IsClusterConfig

deserialize-serialize_entry_example :
    (Entry.serialize fresh (entry 2 7) >>= Entry.deserialize fresh) ≡ ok (entry 2 7)
unfolding write_loop
deserialize-serialize_entry_example =
    deserialize-serialize_entry fresh (entry 2 7) (omega arith) tt (omega arith)

snp-IsSnapshot : IsSnapshot snp
unfolding write_loop
snp-IsSnapshot = record {
  last_log_idx_word = omega arith;
  last_log_term_word = omega arith;
  size_word = omega arith;
  config = cluster-IsClusterConfig;
  fits = omega arith;
}

deserialize-serialize_snapshot_example :
    (Snapshot.serialize fresh snp >>= Snapshot.deserialize)
    ≡ ok (snp, cursor (snapshot_bytes snp) [])
deserialize-serialize_snapshot_example = deserialize-serialize_snapshot fresh snp snp-IsSnapshot

abbrev block : SnapshotSyncReq
block = record { snapshot = snp; offset = 8; payload = half_read; done = true }

deserialize_sync-serialize_sync_example :
    (serialize_sync fresh block >>= deserialize_sync fresh)
    ≡ ok (record block { payload = cursor [] (2 ∷ 3 ∷ []) })
unfolding write_loop
deserialize_sync-serialize_sync_example =
    deserialize_sync-serialize_sync fresh block snp-IsSnapshot (omega arith) (omega arith)

abbrev vote : SrvState
vote = record { term = 7; voted_for = 2 }

deserialize_state-serialize_state_example :
    (serialize_state fresh vote >>= deserialize_state) ≡ ok (vote, cursor (state_bytes vote) [])
deserialize_state-serialize_state_example =
    deserialize_state-serialize_state fresh vote (omega arith) (omega arith)

abbrev answer : Resp
answer = record {
  term = 3;
  type = request_vote_response;
  src = 2;
  dst = 1;
  next_idx = 4;
  accepted = true;
}

deserialize_resp-serialize_resp_example :
    (serialize_resp fresh answer >>= deserialize_resp) ≡ ok answer
deserialize_resp-serialize_resp_example =
    deserialize_resp-serialize_resp fresh answer tt (omega arith) (omega arith) (omega arith)
      (omega arith)
