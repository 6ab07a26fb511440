-- ===== src/Tests/Members.antt =====
-- The start of a server, and what it is asked to do for the cluster, on concrete data.
use enclave_raft.Prelude.{
  List, length, ◌≡◌, refl, ℕ, Bool, true, false, none, some, [], ◌∷◌, arith, ok, if◌then◌else◌,
}
use enclave_raft.AsyncResult.{pending, ready, register, call_if_ready, store_result, call_copy}
use enclave_raft.AsyncResult.Once.{
  Step, registers, tests, stores, delivers, Met, take_steps, begun, take_steps-Met, left, right,
  finished,
}
use enclave_raft.Buffer.{write_loop}
use enclave_raft.LogStore.View.{store}
use enclave_raft.Messages.{Req, append_entries_request}
use enclave_raft.App.StateMgr.{StateMgr, save_state}
use enclave_raft.Server.State.{Server, leader}
use enclave_raft.Server.Monad.{find_peer}
use enclave_raft.Server.Leader.{add_srv}
use enclave_raft.Server.Leader.Members.{add_srv-leader, is_refused, invited}
use enclave_raft.Server.Start.{initial, start_server}
use enclave_raft.Server.Start.Restart.{start_server-save_state}
use enclave_raft.Tests.{fresh, srv, cluster, entry, entries, dummy, params, machine, node, req}
use enclave_raft.Tests.Codecs.{cluster-IsClusterConfig}

-- The thread of `set_result` takes its copy before the thread of `when_ready` tests, so both call.
abbrev crossed : List Step
crossed = registers ∷ stores ∷ tests ∷ delivers ∷ []

take_steps-Met_example : Met {H = ℕ} 5 true none (take_steps 5 true none crossed (begun false))
take_steps-Met_example =
    take_steps-Met 5 true none false crossed (left (right (left (right finished))))

crossed_twice : length (take_steps {A = Bool} {H = ℕ} 5 true none crossed (begun false)).calls ≡ 2
unfolding pending register call_if_ready store_result call_copy
crossed_twice = refl

-- Server 1 leads servers 2 and 3.
abbrev first : Server
first = record (node leader 1) { leader_id = 1 }

add_srv-leader_example : add_srv {H = ℕ} false 0 (srv 4) first ≡ (
    if is_refused (srv 4) first
    then (ok (ready false), first)
    else (ok (ready true), invited (srv 4) first))
unfolding write_loop
add_srv-leader_example =
    add_srv-leader false 0 (srv 4) first refl refl (omega arith) (ground arith) (omega arith)
      cluster-IsClusterConfig

add_srv_unknown : is_refused (srv 4) first ≡ false
unfolding find_peer
add_srv_unknown = refl

-- A request whose entry before has another term.
abbrev stale : Req
stale = req append_entries_request 2 7 2 (entry 3 13 ∷ [])

abbrev manager : StateMgr
manager = record { my_id = 1; my_srv_config = srv 1; saved_config = cluster; saved_state = none }

start_server-save_state_example :
    (after : StateMgr) × (save_state fresh (record { term = 7; voted_for = 2 }) manager ≡ ok after)
    × ((start_server (
          initial params fresh machine
            (λ endpoint. some 7)
            1
            (store dummy 1 entries)
            after)).1.state
        ≡ record { term = 7; voted_for = 2 })
start_server-save_state_example =
    start_server-save_state params fresh machine (λ endpoint. some 7) 1 dummy 1 entries
      (record { term = 7; voted_for = 2 }) manager (omega arith) (omega arith) (omega arith)
      (omega arith)
