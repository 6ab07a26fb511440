-- ===== src/Server/Leader/Members.antt =====
-- What a request to add a server does on the leader: what it writes of the server is what the
-- handler reads.
use enclave_raft.Prelude.{
  ℕ, ◌<◌, ◌≡◌, ◌≢◌, refl, Bool, true, false, ◌||◌, some, [], ◌∷◌, ◌==◌, if◌then◌else◌, length, ok,
  arith, ◌-◌, ap, ◌∙◌, append-nil, Bool-cases, inl, inr,
}
use enclave_raft.Buffer.{Buffer, max_size}
use enclave_raft.Buffer.Cursor.{cursor, Fits-nil}
use enclave_raft.Config.{SrvConfig, deserialize_srv}
use enclave_raft.Config.RoundTrip.{
  srv_bytes, IsSrvConfig, serialize_srv_lem, deserialize_srv-srv_bytes, config_bytes,
  IsClusterConfig, serialize_lem,
}
use enclave_raft.Entry.{conf, cluster_server}
use enclave_raft.LogStore.{next_slot}
use enclave_raft.Messages.{
  Req, Resp, accept, join_cluster_request, add_server_request, add_server_response,
}
use enclave_raft.AsyncResult.{ready}
use enclave_raft.Server.State.{Server, leader, no_server, send, ex_resp_handler, new_peer}
use enclave_raft.Server.Monad.{emit, find_peer}
use enclave_raft.Server.Members.{is_some, invite_srv_to_join_cluster}
use enclave_raft.Server.Install.{add_new_server, handle_add_srv_req, response}
use enclave_raft.Server.Replicate.{is_leader}
use enclave_raft.Server.Public.{process_req, dispatch_req}
use enclave_raft.Server.Leader.{add_srv, send_msg_to_leader, request_of, entry_for}

-- The request that invites a server to join, with the configuration of the leader.
abbrev pub invitation : SrvConfig → Server → Req
invitation c s = record {
  term = s.state.term;
  type = join_cluster_request;
  src = s.id;
  dst = c.id;
  last_log_term = 0;
  last_log_idx = next_slot s.log_store - 1;
  commit_idx = s.quick_commit_idx;
  log_entries =
      record { term = s.state.term; val_type = conf; buf = cursor [] (config_bytes s.config) } ∷ [];
}

-- The server that has invited `c`.
abbrev pub invited : SrvConfig → Server → Server
invited c s =
    emit (send c.id (invitation c s) ex_resp_handler)
      (record s { conf_to_add = some c; srv_to_join = some (new_peer c s.params) })

abbrev pub is_refused : SrvConfig → Server → Bool
is_refused c s = is_some (find_peer c.id s.peers) || (s.id == c.id) || s.config_changing

invite_lem :
    (c : SrvConfig) (s : Server)
    → IsClusterConfig s.config
    → invite_srv_to_join_cluster
        (record s { conf_to_add = some c; srv_to_join = some (new_peer c s.params) })
      ≡ (ok tt, invited c s)
unfolding invite_srv_to_join_cluster new_peer
invite_lem c s h = rw (serialize_lem s.fresh s.config h) refl

read_srv :
    (c : SrvConfig)
    → IsSrvConfig c
    → length (srv_bytes c) < max_size
    → deserialize_srv (cursor [] (srv_bytes c))
      ≡ ok (c, record { bytes = srv_bytes c; pos = length (srv_bytes c) })
read_srv c h k =
    rw (append-nil (srv_bytes c)) at (
      deserialize_srv-srv_bytes c [] [] h
        (rw (append-nil (srv_bytes c)) (Fits-nil (srv_bytes c) k)))

add_new_server_lem :
    (c : SrvConfig) (resp : Resp) (s : Server)
    → IsSrvConfig c
    → length (srv_bytes c) < max_size
    → IsClusterConfig s.config
    → add_new_server (entry_for cluster_server (cursor [] (srv_bytes c))) resp s ≡ (
        if is_refused c s
        then (ok resp, s)
        else (ok (accept (next_slot s.log_store) resp), invited c s))
unfolding add_new_server
add_new_server_lem c resp s h k g = rw (read_srv c h k) (elim (Bool-cases (is_refused c s)) [
  | inl e ↦ rw e refl
  | inr e ↦ rw (e, invite_lem c s g) refl
])

-- A request to the leader itself is processed here, and its answer is the result.
send_here :
    {H : Type 0} (blank : Bool) (now : ℕ) (req : Req) (resp : Resp) (s t : Server)
    → s.leader_id ≡ s.id
    → s.id ≢ no_server
    → process_req now req s ≡ (ok resp, t)
    → send_msg_to_leader {H = H} blank now req s ≡ (ok (ready resp.accepted), t)
unfolding send_msg_to_leader
send_here blank now req resp s t l n p = rw (known, here) (rw p refl)
  where
    known : (s.leader_id == no_server) ≡ false
    known = ground arith

    here : (s.leader_id == s.id) ≡ true
    here = ground arith

add_here :
    (now : ℕ) (b : Buffer) (s : Server)
    → s.role ≡ leader
    → process_req now (request_of add_server_request (entry_for cluster_server b ∷ [])) s
      ≡ add_new_server (entry_for cluster_server b) (response add_server_response s.leader_id s) s
unfolding process_req dispatch_req handle_add_srv_req
add_here now b s r = rw (ap is_leader r) refl

-- On the leader, a server whose endpoint is a string of C with something in it gets a request in,
-- unless it is a member already or the configuration is changing; then the answer is `false` and
-- nothing has changed. Else the answer is `true`, the server is the one that joins, and it has been
-- sent the invitation with the leader's configuration.
pub add_srv-leader :
    {H : Type 0} (blank : Bool) (now : ℕ) (c : SrvConfig) (s : Server)
    → s.role ≡ leader
    → s.leader_id ≡ s.id
    → s.id ≢ no_server
    → IsSrvConfig c
    → length (srv_bytes c) < max_size
    → IsClusterConfig s.config
    → add_srv {H = H} blank now c s
      ≡ (if is_refused c s then (ok (ready false), s) else (ok (ready true), invited c s))
unfolding add_srv
add_srv-leader blank now c s r l n h k g =
    rw (serialize_srv_lem s.fresh c k) (elim (Bool-cases (is_refused c s)) [
      | inl e ↦ rw e (
          send_here blank now asked resp s s l n
            (add_here now (cursor [] (srv_bytes c)) s r ∙ added ∙ rw e refl))
      | inr e ↦ rw e (
          send_here blank now asked (accept (next_slot s.log_store) resp) s (invited c s) l n
            (add_here now (cursor [] (srv_bytes c)) s r ∙ added ∙ rw e refl))
    ])
  where
    asked : Req
    asked = request_of add_server_request (entry_for cluster_server (cursor [] (srv_bytes c)) ∷ [])

    resp : Resp
    resp = response add_server_response s.leader_id s

    added : add_new_server (entry_for cluster_server (cursor [] (srv_bytes c))) resp s ≡ (
        if is_refused c s
        then (ok resp, s)
        else (ok (accept (next_slot s.log_store) resp), invited c s))
    added = add_new_server_lem c resp s h k g
