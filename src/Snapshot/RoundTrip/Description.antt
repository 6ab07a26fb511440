-- ===== src/Snapshot/RoundTrip/Description.antt =====
-- The bytes of a snapshot's description, written and read.
use enclave_raft.Prelude.{
  ℕ, ◌+◌, ◌^◌, ◌<◌, ◌≡◌, refl, ap, ◌∙◌, List, [], ◌++◌, length, length-append, arith, ok,
  append_assoc,
}
use enclave_raft.Buffer.{max_size}
use enclave_raft.Buffer.Cursor.{Fits, Fits-next, cursor, ulong_bytes, length-write_loop}
use enclave_raft.Buffer.Writes.{alloc-Wrote, put_ulong-Wrote, put_buffer-Wrote, seek-Wrote}
use enclave_raft.Buffer.Reads.{get_ulong-cursor}
use enclave_raft.Config.RoundTrip
use enclave_raft.Config.RoundTrip.{config_bytes, IsClusterConfig}
use enclave_raft.Snapshot.{Snapshot, serialize, deserialize}

abbrev pub snapshot_bytes : Snapshot → List ℕ
snapshot_bytes s =
    ulong_bytes s.last_log_idx
    ++ (ulong_bytes s.last_log_term ++ (ulong_bytes s.size ++ config_bytes s.last_config))

pub record IsSnapshot (s : Snapshot) : Type 0 where
  pub last_log_idx_word : s.last_log_idx < 2 ^ 64
  pub last_log_term_word : s.last_log_term < 2 ^ 64
  pub size_word : s.size < 2 ^ 64
  pub config : IsClusterConfig s.last_config
  pub fits : length (snapshot_bytes s) < max_size

pub length-snapshot_bytes :
    (s : Snapshot) → length (snapshot_bytes s) ≡ 24 + length (config_bytes s.last_config)
length-snapshot_bytes s = omega (
  arith,
  length-append (ulong_bytes s.last_log_idx)
      (ulong_bytes s.last_log_term ++ (ulong_bytes s.size ++ config_bytes s.last_config)),
  length-append (ulong_bytes s.last_log_term) (ulong_bytes s.size ++ config_bytes s.last_config),
  length-append (ulong_bytes s.size) (config_bytes s.last_config),
  length-write_loop 8 0 s.last_log_idx,
  length-write_loop 8 0 s.last_log_term,
  length-write_loop 8 0 s.size,
)

-- A snapshot's description writes its bytes, whatever the fresh memory held.
pub serialize_lem :
    (raw : ℕ → ℕ) (s : Snapshot)
    → IsSnapshot s
    → serialize raw s ≡ ok (cursor [] (snapshot_bytes s))
unfolding serialize
serialize_lem raw s h = rw (RoundTrip.serialize_lem raw s.last_config h.config) (
    seek-Wrote _ _ (
      put_buffer-Wrote (cursor [] conf) _ 0 _ (
        put_ulong-Wrote s.size _ (length conf + 0) _ (
          put_ulong-Wrote s.last_log_term _ (8 + (length conf + 0)) _ (
            put_ulong-Wrote s.last_log_idx [] (8 + (8 + (length conf + 0))) _ (
              alloc-Wrote raw _ _ (omega arith)
                (omega (arith, h.fits, length-snapshot_bytes s)))))))
    ∙ ap (λ (l : List ℕ). ok (cursor [] l)) (simp append_assoc))
  where
    conf : List ℕ
    conf = config_bytes s.last_config

-- A snapshot's description is read off the front of what holds its bytes.
pub deserialize-snapshot_bytes :
    (s : Snapshot) (front rest : List ℕ)
    → IsSnapshot s
    → Fits front (snapshot_bytes s ++ rest)
    → deserialize (cursor front (snapshot_bytes s ++ rest))
      ≡ ok (s, cursor (front ++ snapshot_bytes s) rest)
unfolding deserialize
deserialize-snapshot_bytes s front rest h k = rw regroup (
    rw (get_ulong-cursor s.last_log_idx front _ h.last_log_idx_word whole) (
      rw (get_ulong-cursor s.last_log_term _ _ h.last_log_term_word whole1) (
        rw (get_ulong-cursor s.size _ _ h.size_word whole2) (
          rw (RoundTrip.deserialize-config_bytes s.last_config _ rest h.config whole3)
            (rw done refl)))))
  where
    a : List ℕ
    a = ulong_bytes s.last_log_idx

    b : List ℕ
    b = ulong_bytes s.last_log_term

    c : List ℕ
    c = ulong_bytes s.size

    d : List ℕ
    d = config_bytes s.last_config ++ rest

    regroup : snapshot_bytes s ++ rest ≡ a ++ (b ++ (c ++ d))
    regroup = simp append_assoc

    whole : Fits front (a ++ (b ++ (c ++ d)))
    whole = rw regroup at k

    whole1 : Fits (front ++ a) (b ++ (c ++ d))
    whole1 = Fits-next a front (b ++ (c ++ d)) whole

    whole2 : Fits (front ++ a ++ b) (c ++ d)
    whole2 = Fits-next b (front ++ a) (c ++ d) whole1

    whole3 : Fits (front ++ a ++ b ++ c) d
    whole3 = Fits-next c (front ++ a ++ b) d whole2

    done : front ++ a ++ b ++ c ++ config_bytes s.last_config ≡ front ++ snapshot_bytes s
    done = simp append_assoc
