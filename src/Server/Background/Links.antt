-- ===== src/Server/Background/Links.antt =====
-- The links between configurations, and the loop over them.
use enclave_raft.Prelude.{
  ℕ, zero, suc, ◌+◌, ◌≤◌, ◌<◌, ltb, leb, ◌≢◌, Option, none, some, ◌≡◌, refl, Bool, true, false,
  Result, ok, err, arith, ◌&&◌, if◌then◌else◌,
}
use enclave_raft.Buffer.{Buffer}
use enclave_raft.Config.{SrvConfig, ClusterConfig}
use enclave_raft.Config
use enclave_raft.LogStore.{LogStore, start_index, entry_at}
use enclave_raft.Entry.{LogEntry}
use enclave_raft.Server.State.{Server}
use enclave_raft.Server.Monad.{M, continue, ◌>>=◌, or_fault, lift, pure}
use enclave_raft.Server.Background.{
  find_conf, ask_snapshot, take_snapshot, ask_if_found, catch_attempt, snapshot_and_compact,
}

-- Each configuration that the log holds links to an index before its own.
abbrev pub LinksBack : LogStore → Type 0
LinksBack log =
    (i : ℕ) (e : LogEntry) (c : ClusterConfig × Buffer)
    → start_index log ≤ i
    → entry_at i log ≡ some e
    → Config.deserialize e.buf ≡ ok c
    → c.0.prev_log_idx < i

module _ (fuel idx : ℕ) (s : Server)
    (ends : (c : ClusterConfig)
      → c.prev_log_idx < fuel
      → (find_conf fuel idx c s).0 ≢ ok none) where
  from_read :
      (r : Result (ClusterConfig × Buffer))
      → ((d : ClusterConfig × Buffer) → r ≡ ok d → d.0.prev_log_idx < fuel)
      → ((lift r >>= λ d. find_conf fuel idx d.0) s).0 ≢ ok none
  from_read (ok d) g = ends d.0 (g d refl)
  from_read (err e) g = λ k. cc

  from_entry :
      (o : Option LogEntry)
      → ((e : LogEntry) (d : ClusterConfig × Buffer)
          → o ≡ some e
          → Config.deserialize e.buf ≡ ok d
          → d.0.prev_log_idx < fuel)
      → ((or_fault o >>= λ e. lift (Config.deserialize e.buf) >>= λ d. find_conf fuel idx d.0) s).0
        ≢ ok none
  from_entry none g = λ k. cc
  from_entry (some e) g = from_read (Config.deserialize e.buf) (λ d. g e d refl)

by_condition :
    {A : Type 0} (b : Bool) (x y : Result A × Server) (a : A)
    → (b ≡ true → x.0 ≢ ok a)
    → (b ≡ false → y.0 ≢ ok a)
    → (if b then x else y).0 ≢ ok a
by_condition true x y a h k = h refl
by_condition false x y a h k = k refl

-- Links that go back end: the loop over them is never without fuel.
find_conf_ends :
    (fuel idx : ℕ) (c : ClusterConfig) (s : Server)
    → LinksBack s.log_store
    → c.prev_log_idx < fuel
    → (find_conf fuel idx c s).0 ≢ ok none
unfolding find_conf
find_conf_ends zero idx c s h k = absurd (omega arith)
find_conf_ends (suc fuel) idx c s h k =
    by_condition (ltb idx c.log_idx && leb (start_index s.log_store) c.prev_log_idx)
      ((or_fault (entry_at c.prev_log_idx s.log_store) >>= λ e.
          lift (Config.deserialize e.buf) >>= λ d. find_conf fuel idx d.0)
        s)
      (ok (some c), s) none
      (λ q.
        from_entry fuel idx s (λ d. find_conf_ends fuel idx d s h)
          (entry_at c.prev_log_idx s.log_store)
          (λ e d r l.
            let below : d.0.prev_log_idx < c.prev_log_idx =
              h c.prev_log_idx e d (ground arith) r l in
            omega arith))
      (λ q r. cc)

then_true :
    (r : Result (Unit {0})) (t : Server)
    → (continue {A = Unit {0}} {B = Bool} (λ _. pure true) r t).0 ≢ ok false
then_true (ok u) t k = cc
then_true (err e) t k = cc

asked_ends :
    (idx : ℕ) (r : Result (Option ClusterConfig)) (t : Server)
    → r ≢ ok none
    → (continue (ask_if_found idx) r t).0 ≢ ok false
asked_ends idx (ok none) t h = absurd (h refl)
asked_ends idx (ok (some c)) t h = then_true (ask_snapshot idx c t).0 (ask_snapshot idx c t).1
asked_ends idx (err e) t h = λ k. cc

take_snapshot_ends :
    (idx : ℕ) (s : Server) → LinksBack s.log_store → (take_snapshot idx s).0 ≢ ok false
unfolding take_snapshot
take_snapshot_ends idx s h =
    let t : Server = record s { snp_in_progress = true } in
    let fuel : ℕ = s.config.prev_log_idx + 1 in
    asked_ends idx (find_conf fuel idx s.config t).0 (find_conf fuel idx s.config t).1
      (find_conf_ends fuel idx s.config t h (omega arith))

caught_ends : (m : M Bool) (s : Server) → (m s).0 ≢ ok false → (catch_attempt m s).0 ≢ ok false
caught_ends m s h = go (m s) h
  where
    go : (x : Result Bool × Server) → x.0 ≢ ok false → (catch_attempt (λ _. x) s).0 ≢ ok false
    go (ok b, t) k = k
    go (err e, t) k = λ l. cc

pub snapshot_and_compact_ends :
    (idx : ℕ) (s : Server) → LinksBack s.log_store → (snapshot_and_compact idx s).0 ≢ ok false
unfolding snapshot_and_compact
snapshot_and_compact_ends idx s h =
    ground (arith, caught_ends (take_snapshot idx) s (take_snapshot_ends idx s h))
