-- ===== src/Server/Members/Frames.antt =====
-- What a change of the members leaves alone.
use enclave_raft.Prelude.{
  ℕ, ◌≡◌, refl, ◌∙◌, true, List, [], ◌∷◌, arith, Bool-cases, inl, inr, ◌==◌, ◌&&◌, not,
}
use enclave_raft.Entry.{LogEntry, conf}
use enclave_raft.Server.Elect.{append_entry, enable_hb_for_peer}
use enclave_raft.Server.Replicate.{request_append_entries_all}
use enclave_raft.Config.{serialize, SrvConfig, ClusterConfig}
use enclave_raft.Server.State.{Server}
use enclave_raft.Server.Monad.{bind_keeps, lift, modify, ◌>>◌}
use enclave_raft.Server.Replicate.Frames.{
  Traced, request_append_entries_all-Committed, create_sync_snapshot_req-Traced,
}
use enclave_raft.Server.Members.{
  add_srv_peer, add_srvs, remove_peer, remove_srvs, reconfigure, append_config, sync_log_to_new_srv,
  invite_srv_to_join_cluster, rm_srv_from_cluster,
}

add_srv_peer_state : (c : SrvConfig) (s : Server) → (add_srv_peer c s).state ≡ s.state
unfolding add_srv_peer enable_hb_for_peer
add_srv_peer_state c s = ground arith

pub add_srvs_state : (cs : List SrvConfig) (s : Server) → (add_srvs cs s).state ≡ s.state
unfolding add_srvs
add_srvs_state [] s = refl
add_srvs_state (c ∷ cs) s = add_srvs_state cs (add_srv_peer c s) ∙ add_srv_peer_state c s

remove_peer_state : (k : ℕ) (s : Server) → (remove_peer k s).state ≡ s.state
unfolding remove_peer
remove_peer_state k s = ground arith

pub remove_srvs_state :
    (c : ClusterConfig) (ks : List ℕ) (s : Server) → (remove_srvs c ks s).1.state ≡ s.state
unfolding remove_srvs
remove_srvs_state c [] s = refl
remove_srvs_state c (k ∷ ks) s = elim (Bool-cases ((k == s.id) && not s.catching_up)) [
  | inl h ↦ rw h refl
  | inr h ↦ rw h (remove_srvs_state c ks (remove_peer k s) ∙ remove_peer_state k s)
]

pub reconfigure_state : (c : ClusterConfig) (s : Server) → (reconfigure c s).state ≡ s.state
unfolding reconfigure
reconfigure_state c s = grind (arith, add_srvs_state, remove_srvs_state)

pub append_config_state : (c : ClusterConfig) (s : Server) → (append_config c s).1.state ≡ s.state
unfolding append_config
append_config_state c s =
    bind_keeps (λ (s : Server). s.state) (lift (serialize s.fresh c)) _ s refl
      (λ buf t. append_made t (record { term = s.state.term; val_type = conf; buf = buf }))
  where
    append_made :
        (t : Server) (e : LogEntry)
        → ((append_entry e
              >> (modify (λ s. record s { config_changing = true }) >> request_append_entries_all))
            t).1.state
          ≡ t.state
    append_made t e = unfold append_entry in grind (arith, request_append_entries_all-Committed)

pub sync_log_to_new_srv_state : (i : ℕ) (s : Server) → (sync_log_to_new_srv i s).1.state ≡ s.state
unfolding sync_log_to_new_srv
sync_log_to_new_srv_state i s = grind (arith, append_config_state, create_sync_snapshot_req-Traced)

pub invite_srv_to_join_cluster-Traced : (s : Server) → Traced s (invite_srv_to_join_cluster s).1
unfolding invite_srv_to_join_cluster
invite_srv_to_join_cluster-Traced s = ground arith

pub rm_srv_from_cluster_state : (k : ℕ) (s : Server) → (rm_srv_from_cluster k s).1.state ≡ s.state
unfolding rm_srv_from_cluster
rm_srv_from_cluster_state k s = append_config_state _ (record s { config_changing = true })
