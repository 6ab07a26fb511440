-- ===== src/App/StateMgr.antt =====
-- raft_enclave/app_impl/in_memory_state_mgr.hxx: the state manager. The log store that it owns is the
-- server's own from the start on (`Server.State`).
use enclave_raft.Prelude.{ℕ, Option, none, some, List, [], ◌∷◌, Result, ok, ◌>>=◌}
use enclave_raft.Config
use enclave_raft.Config.{SrvConfig, ClusterConfig}
use enclave_raft.Snapshot.{SrvState, serialize_state, deserialize_state}

pub record StateMgr : Type 0 where
  pub my_id : ℕ
  pub my_srv_config : SrvConfig
  pub saved_config : ClusterConfig
  pub saved_state : Option SrvState

-- The first configuration has the server itself and no other.
unfoldable pub new_state_mgr : ℕ → List ℕ → StateMgr
new_state_mgr id endpoint = record {
  my_id = id;
  my_srv_config = record { id = id; endpoint = endpoint };
  saved_config = record {
    log_idx = 0;
    prev_log_idx = 0;
    servers = record { id = id; endpoint = endpoint } ∷ [];
  };
  saved_state = none;
}

unfoldable pub save_config : (ℕ → ℕ) → ClusterConfig → StateMgr → Result StateMgr
save_config raw c m = Config.serialize raw c >>= λ buf.
    Config.deserialize buf >>= λ (saved, rest). ok (record m { saved_config = saved })

unfoldable pub save_state : (ℕ → ℕ) → SrvState → StateMgr → Result StateMgr
save_state raw st m = serialize_state raw st >>= λ buf.
    deserialize_state buf >>= λ (saved, rest). ok (record m { saved_state = some saved })
