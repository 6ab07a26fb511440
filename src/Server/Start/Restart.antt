-- ===== src/Server/Start/Restart.antt =====
-- What a server starts with: its vote, its peers, and whether its configuration is changing.
use enclave_raft.Prelude.{
  ℕ, zero, suc, ◌+◌, ◌-◌, ◌≤◌, ◌<◌, ◌%◌, ◌^◌, max, ◌≡◌, refl, ap, ◌∙◌, sym, Bool, true, false,
  Option, none, some, List, [], ◌∷◌, ◌++◌, ◌==◌, if◌then◌else◌, length, drop, drop_all, Result, ok,
  ◌>>=◌, >>=_assoc, arith, Bool-cases, inl, inr,
}
use enclave_raft.Buffer.{Buffer}
use enclave_raft.Config.{SrvConfig, find_server}
use enclave_raft.Entry.{LogEntry, conf, val_eq}
use enclave_raft.Snapshot.{SrvState, serialize_state, deserialize_state}
use enclave_raft.Snapshot.RoundTrip.{deserialize_state-serialize_state}
use enclave_raft.LogStore.{LogStore, make_clone, entry_at, next_slot, start_index}
use enclave_raft.LogStore.View.{store, drop_cons, entry_at-store, next_slot-store}
use enclave_raft.App.StateMgr.{StateMgr, save_state}
use enclave_raft.Server.State.{
  Server, Params, Machine, ClientFactory, Peer, PeerMap, new_peer, no_server, follower,
}
use enclave_raft.Server.Monad.{find_peer}
use enclave_raft.Server.Elect.{restart_election_timer}
use enclave_raft.Server.Elect.Frames.{
  Timed, restart_election_timer-Timed, restart_election_timer_ok,
}
use enclave_raft.Server.Members.{is_some, insert_peer}
use enclave_raft.Server.Start.{
  first_state, initial, has_conf, find_conf_change, config_peers, start_server,
}

find_peer-append :
    (k j : ℕ) (p : Peer) (ps : PeerMap)
    → find_peer k (ps ++ ((j, p) ∷ []))
      ≡ (if is_some (find_peer k ps) then find_peer k ps else if j == k then some p else none)
unfolding find_peer
find_peer-append k j p [] = refl
find_peer-append k j p ((i, q) ∷ ps) = ground (arith, find_peer-append k j p ps)

find_peer-insert_peer :
    (k j : ℕ) (p : Peer) (ps : PeerMap)
    → find_peer k (insert_peer j p ps)
      ≡ (if is_some (find_peer k ps) then find_peer k ps else if j == k then some p else none)
unfolding insert_peer
find_peer-insert_peer k j p ps = ground (arith, find_peer-append k j p ps)

abbrev pub peer_of : Params → Option SrvConfig → Option Peer
peer_of params none = none
peer_of params (some c) = some (new_peer c params)

find_peer-config_peers :
    (k id : ℕ) (params : Params) (cs : List SrvConfig) (ps : PeerMap)
    → find_peer k (config_peers id params cs ps) ≡ (
        if is_some (find_peer k ps)
        then find_peer k ps
        else if k == id
        then none
        else peer_of params (find_server k cs))
unfolding config_peers find_server
find_peer-config_peers k id params [] ps = ground arith
find_peer-config_peers k id params (c ∷ cs) ps = elim (Bool-cases (c.id == id)) [
  | inl e ↦ rw e (ground (arith, find_peer-config_peers k id params cs ps))
  | inr e ↦ rw e (
      ground (
        arith,
        find_peer-config_peers k id params cs (insert_peer c.id (new_peer c params) ps),
        find_peer-insert_peer k c.id (new_peer c params) ps,
      ))
]

-- One of the entries is a configuration.
abbrev pub any_conf : List LogEntry → Bool
any_conf [] = false
any_conf (e ∷ es) = if val_eq e.val_type conf then true else any_conf es

has_conf_step :
    (n i : ℕ) (log : LogStore) (e : LogEntry) (b : Bool)
    → entry_at i log ≡ some e
    → has_conf n (i + 1) log ≡ some b
    → has_conf (suc n) i log ≡ some (if val_eq e.val_type conf then true else b)
unfolding has_conf
has_conf_step n i log e b p q = ground (arith, p, q)

has_conf-store :
    (d : LogEntry) (st : ℕ) (es : List LogEntry) (n j : ℕ)
    → 1 ≤ st
    → n ≡ length es - j
    → has_conf n (st + j) (store d st es) ≡ some (any_conf (drop j es))
has_conf-store d st es zero j h q = unfold has_conf in rw (drop_all j es (omega arith)) refl
has_conf-store d st es (suc n) j h q =
    let (e, at_j, split) = drop_cons j es (omega arith) in
    has_conf_step n (st + j) (store d st es) (make_clone e) (any_conf (drop (suc j) es))
      (entry_at-store d st es j h at_j).0
      (ap (λ (i : ℕ). has_conf n i (store d st es)) (omega arith)
        ∙ has_conf-store d st es n (suc j) h (omega arith))
    ∙ ap (λ (l : List LogEntry). some (any_conf l)) (sym split)

scan_lem :
    (d : LogEntry) (st : ℕ) (es : List LogEntry) (committed : ℕ)
    → 1 ≤ st
    → committed + 1 < 2 ^ 64
    → let i : ℕ = max ((committed + 1) % 2 ^ 64) (start_index (store d st es)) in
      has_conf (next_slot (store d st es) - i) i (store d st es)
      ≡ some (any_conf (drop (committed + 1 - st) es))
unfolding start_index
scan_lem d st es committed h k =
    ap (λ (i : ℕ). has_conf (next_slot (store d st es) - i) i (store d st es)) from
    ∙ has_conf-store d st es (next_slot (store d st es) - (st + j)) j h
        (omega (arith, next_slot-store d st es))
  where
    j : ℕ
    j = committed + 1 - st

    from : max ((committed + 1) % 2 ^ 64) st ≡ st + j
    from = ground arith

pub start_server-initial :
    (params : Params) (fresh : ℕ → ℕ) (machine : Machine) (create : ClientFactory) (committed : ℕ)
    (d : LogEntry) (st : ℕ) (es : List LogEntry) (mgr : StateMgr)
    → 1 ≤ st
    → committed + 1 < 2 ^ 64
    → let s : Server = initial params fresh machine create committed (store d st es) mgr in
      let (r, t) = start_server s in
      (r ≡ ok tt)
      × (t.config_changing ≡ any_conf (drop (committed + 1 - st) es))
      × ((k : ℕ)
          → find_peer k t.peers ≡ (
              if k == mgr.my_id
              then none
              else peer_of params (find_server k mgr.saved_config.servers)))
      × (t.state ≡ first_state mgr.saved_state)
      × (t.role ≡ follower)
      × (t.leader_id ≡ no_server)
unfolding initial start_server find_conf_change find_peer
start_server-initial params fresh machine create committed d st es mgr h k =
    rw (scan_lem d st es committed h k)
      (elim (Bool-cases (any_conf (drop (committed + 1 - st) es))) [
        | inl e ↦ rw e (begins true)
        | inr e ↦ rw e (begins false)
      ])
  where
    begun : Bool → Server
    begun b = record (initial params fresh machine create committed (store d st es) mgr) {
      config_changing = b;
      peers = config_peers mgr.my_id params mgr.saved_config.servers [];
    }

    kept : (b : Bool) → Timed (begun b) (restart_election_timer (begun b)).1
    kept b = restart_election_timer-Timed (begun b)

    begins :
        (b : Bool)
        → let t : Server = (restart_election_timer (begun b)).1 in
          ((restart_election_timer (begun b)).0 ≡ ok tt)
          × (t.config_changing ≡ b)
          × ((k : ℕ)
              → find_peer k t.peers ≡ (
                  if k == mgr.my_id
                  then none
                  else peer_of params (find_server k mgr.saved_config.servers)))
          × (t.state ≡ first_state mgr.saved_state)
          × (t.role ≡ follower)
          × (t.leader_id ≡ no_server)
    begins b = (
      restart_election_timer_ok (begun b),
      ap (λ (v : Server). v.config_changing) (kept b),
      λ k.
          ap (λ (v : Server). find_peer k v.peers) (kept b)
          ∙ find_peer-config_peers k mgr.my_id params mgr.saved_config.servers [],
      ap (λ (v : Server). v.state) (kept b),
      ap (λ (v : Server). v.role) (kept b),
      ap (λ (v : Server). v.leader_id) (kept b),
    )

-- A server started from a state manager that has saved a term below 2 ^ 64 and a vote below 2 ^ 32,
-- on a log that starts at 1 or later, has that term and that vote again.
pub start_server-save_state :
    (params : Params) (fresh : ℕ → ℕ) (machine : Machine) (create : ClientFactory) (committed : ℕ)
    (d : LogEntry) (st : ℕ) (es : List LogEntry) (saved : SrvState) (mgr : StateMgr)
    → 1 ≤ st
    → committed + 1 < 2 ^ 64
    → saved.term < 2 ^ 64
    → saved.voted_for < 2 ^ 32
    → (after : StateMgr) × (save_state fresh saved mgr ≡ ok after)
      × ((start_server
            (initial params fresh machine create committed (store d st es) after)).1.state
          ≡ saved)
unfolding save_state first_state
start_server-save_state params fresh machine create committed d st es saved mgr h k ht hv = (
  record mgr { saved_state = some saved },
  saves,
  (start_server-initial params fresh machine create committed d st es
      (record mgr { saved_state = some saved }) h k).3,
)
  where
    keep : SrvState × Buffer → Result StateMgr
    keep p = ok (record mgr { saved_state = some p.0 })

    saves : save_state fresh saved mgr ≡ ok (record mgr { saved_state = some saved })
    saves =
        >>=_assoc (serialize_state fresh saved) deserialize_state keep
        ∙ ap (λ (r : Result (SrvState × Buffer)). r >>= keep)
            (deserialize_state-serialize_state fresh saved ht hv)
