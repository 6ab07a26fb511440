-- ===== src/Server/Leader.antt =====
-- raft_enclave/raft/src/raft_server.cxx (`send_msg_to_leader`) and raft_server_public.cxx: what the
-- enclave asks of the cluster, on whatever server it is asked.
pub mod Members
use enclave_raft.Prelude.{
  ℕ, zero, suc, Bool, true, false, ◌&&◌, Option, none, some, List, [], ◌∷◌, ◌++◌, map, ◌==◌,
  if◌then◌else◌, Result, Error, ok, err,
}
use enclave_raft.Buffer.{Buffer, sz_int, alloc, seek, put_int}
use enclave_raft.Config.{SrvConfig, get_server, serialize_srv}
use enclave_raft.Entry.{LogEntry, LogValType, app_log, cluster_server}
use enclave_raft.Messages.{
  Req, Resp, MsgType, client_request, add_server_request, remove_server_request,
}
use enclave_raft.AsyncResult.{AsyncResult, Call, pending, ready, set_result}
use enclave_raft.Server.State.{Server, no_server, send_by_client}
use enclave_raft.Server.Monad.{M, ◌>>=◌, ◌>>◌, pure, lift, gets, modify, act}
use enclave_raft.Server.Public.{process_req}

unfoldable pub find_client : ℕ → List (ℕ × Option ℕ) → Option (Option ℕ)
find_client k [] = none
find_client k ((j, c) ∷ cs) = if j == k then some c else find_client k cs

-- A request with no numbers but its type.
abbrev pub request_of : MsgType → List LogEntry → Req
request_of t es = record {
  term = 0;
  type = t;
  src = 0;
  dst = 0;
  last_log_term = 0;
  last_log_idx = 0;
  commit_idx = 0;
  log_entries = es;
}

abbrev pub entry_for : LogValType → Buffer → LogEntry
entry_for t buf = record { term = 0; val_type = t; buf = buf }

abbrev pub app_entries : List Buffer → List LogEntry
app_entries [] = []
app_entries (b ∷ bs) = entry_for app_log b ∷ app_entries bs

-- `sz_int` bytes that hold an id.
unfoldable pub id_buffer : (ℕ → ℕ) → ℕ → Result Buffer
id_buffer raw id = elim (alloc raw sz_int) [
  | err e ↦ err e
  | ok b ↦ elim (put_int id b) [ err e ↦ err e | ok b' ↦ ok (seek 0 b') ]
]

module _ {H : Type 0} where
  -- What `rpc_success` and `perr` become when the leader's response comes, or an error.
  unfoldable pub leader_answered :
      Option Resp → Option Error → AsyncResult Bool H → AsyncResult Bool H × List (Call Bool H)
  leader_answered resp (some e) r = set_result false (some e) r
  leader_answered none none r = set_result false none r
  leader_answered (some resp) none r = set_result resp.accepted none r

  -- `blank` is what the memory of a `bool` holds before it is set.
  module _ (blank : Bool) where
    abbrev pub send_by : Option ℕ → Req → M (AsyncResult Bool H)
    send_by none req = pure (ready false)
    send_by (some client) req = act (send_by_client client req) >> pure (pending blank)

    -- The client for the leader, made and kept if there is none yet.
    unfoldable pub forward_to_leader : ℕ → Req → M (AsyncResult Bool H)
    unfolding find_client
    forward_to_leader leader req = do
      s ← gets (λ s. s)
      elim (find_client leader s.rpc_clients) [
        | some client ↦ send_by client req
        | none ↦ elim (get_server leader s.config) [
          | none ↦ pure (ready false)
          | some conf ↦
              modify (λ s. record s {
                rpc_clients = (leader, s.create_client conf.endpoint) ∷ s.rpc_clients;
              })
              >> send_by (s.create_client conf.endpoint) req
        ]
      ]

    unfoldable pub send_msg_to_leader : ℕ → Req → M (AsyncResult Bool H)
    unfolding forward_to_leader
    send_msg_to_leader now req = do
      s ← gets (λ s. s)
      if s.leader_id == no_server
          then pure (ready false)
          else if s.leader_id == s.id
          then (do resp ← process_req now req; pure (ready resp.accepted))
          else forward_to_leader s.leader_id req

    unfoldable pub add_srv : ℕ → SrvConfig → M (AsyncResult Bool H)
    unfolding send_msg_to_leader
    add_srv now srv = do
      s ← gets (λ s. s)
      buf ← lift (serialize_srv s.fresh srv)
      send_msg_to_leader now (request_of add_server_request (entry_for cluster_server buf ∷ []))

    unfoldable pub append_entries : ℕ → List Buffer → M (AsyncResult Bool H)
    unfolding send_msg_to_leader
    append_entries now [] = pure (ready false)
    append_entries now (b ∷ bs) =
        send_msg_to_leader now (request_of client_request (app_entries (b ∷ bs)))

    unfoldable pub remove_srv : ℕ → ℕ → M (AsyncResult Bool H)
    unfolding send_msg_to_leader id_buffer
    remove_srv now id = do
      s ← gets (λ s. s)
      buf ← lift (id_buffer s.fresh id)
      send_msg_to_leader now (request_of remove_server_request (entry_for cluster_server buf ∷ []))
