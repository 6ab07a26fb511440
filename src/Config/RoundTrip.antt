-- ===== src/Config/RoundTrip.antt =====
-- What is written of a configuration is read back.
mod Servers
pub use Servers.{
  srv_bytes, IsSrvConfig, length-srv_bytes, servers_bytes, serialize_srv_lem,
  deserialize_srv-srv_bytes,
}
use Servers.{read_servers-servers_bytes, srv_cursors, srv_buffers_lem, length-servers_bytes}
use enclave_raft.Prelude.{
  subst, ℕ, ◌+◌, ◌%◌, ◌^◌, ◌<◌, ◌≤◌, ◌≡◌, ◌≢◌, refl, ap, ◌∙◌, List, [], ◌∷◌, ◌++◌, length,
  length-append, arith, All, subst, ok, ◌>>=◌, append-nil, append_assoc, lt→leb,
}
use enclave_raft.Buffer.{Buffer, max_size}
use enclave_raft.Buffer.Cursor.{
  Fits, Fits-next, Fits, Fits-next, cursor, ulong_bytes, int_bytes, length-write_loop,
}
use enclave_raft.Buffer.Writes.{
  alloc-Wrote, put_ulong-Wrote, put_int-Wrote, put_str-Wrote, seek-Wrote,
}
use enclave_raft.Buffer.Reads.{get_ulong-cursor, get_int-cursor, get_str-cursor}
use enclave_raft.Config.Blocks.{all_bytes, cursors, total_size-cursors, put_all-Wrote}
use enclave_raft.Config.{
  SrvConfig, serialize_srv, deserialize_srv, ClusterConfig, srv_buffers, total_size, serialize,
  read_servers, rounds, deserialize,
}

abbrev pub config_bytes : ClusterConfig → List ℕ
config_bytes c =
    ulong_bytes c.log_idx
    ++ (ulong_bytes c.prev_log_idx ++ (int_bytes (length c.servers) ++ servers_bytes c.servers))

-- Both indices are 64-bit words, every server is well formed, and their bytes fit a buffer.
pub record IsClusterConfig (c : ClusterConfig) : Type 0 where
  pub log_idx_word : c.log_idx < 2 ^ 64
  pub prev_log_idx_word : c.prev_log_idx < 2 ^ 64
  pub all_servers : All IsSrvConfig c.servers
  pub fits : length (config_bytes c) < max_size

length-config_bytes :
    (c : ClusterConfig) → length (config_bytes c) ≡ 20 + length (servers_bytes c.servers)
length-config_bytes c = omega (
  arith,
  length-append (ulong_bytes c.log_idx)
      (ulong_bytes c.prev_log_idx ++ (int_bytes (length c.servers) ++ servers_bytes c.servers)),
  length-append (ulong_bytes c.prev_log_idx)
      (int_bytes (length c.servers) ++ servers_bytes c.servers),
  length-append (int_bytes (length c.servers)) (servers_bytes c.servers),
  length-write_loop 8 0 c.log_idx,
  length-write_loop 8 0 c.prev_log_idx,
  length-write_loop 4 0 (length c.servers),
)

few_servers : (c : ClusterConfig) → IsClusterConfig c → length c.servers < 2 ^ 31
few_servers c h = omega (arith, h.fits, length-config_bytes c, length-servers_bytes c.servers)

rounds_lem : (n : ℕ) → n < 2 ^ 31 → rounds n ≡ n
unfolding rounds
rounds_lem n h = rw (lt→leb n (2 ^ 31) h)

-- A configuration is read off the front of what holds its bytes, and the cursor moves over them.
pub deserialize-config_bytes :
    (c : ClusterConfig) (front rest : List ℕ)
    → IsClusterConfig c
    → Fits front (config_bytes c ++ rest)
    → deserialize (cursor front (config_bytes c ++ rest))
      ≡ ok (c, cursor (front ++ config_bytes c) rest)
unfolding deserialize
deserialize-config_bytes c front rest h k = rw regroup (
    rw (get_ulong-cursor c.log_idx front _ h.log_idx_word whole) (
      rw (get_ulong-cursor c.prev_log_idx _ _ h.prev_log_idx_word whole1) (
        rw (get_int-cursor n _ _ (omega (arith, few_servers c h)) whole2) (
          rw (rounds_lem n (few_servers c h)) (
            rw (read_servers-servers_bytes c.servers _ rest h.all_servers whole3)
              (rw done refl))))))
  where
    n : ℕ
    n = length c.servers

    a : List ℕ
    a = ulong_bytes c.log_idx

    b : List ℕ
    b = ulong_bytes c.prev_log_idx

    d : List ℕ
    d = servers_bytes c.servers ++ rest

    regroup : config_bytes c ++ rest ≡ a ++ (b ++ (int_bytes n ++ d))
    regroup = simp append_assoc

    whole : Fits front (a ++ (b ++ (int_bytes n ++ d)))
    whole = rw regroup at k

    whole1 : Fits (front ++ a) (b ++ (int_bytes n ++ d))
    whole1 = Fits-next a front (b ++ (int_bytes n ++ d)) whole

    whole2 : Fits (front ++ a ++ b) (int_bytes n ++ d)
    whole2 = Fits-next b (front ++ a) (int_bytes n ++ d) whole1

    whole3 : Fits (front ++ a ++ b ++ int_bytes n) d
    whole3 = Fits-next (int_bytes n) (front ++ a ++ b) d whole2

    done : front ++ a ++ b ++ int_bytes n ++ servers_bytes c.servers ≡ front ++ config_bytes c
    done = simp append_assoc

-- A configuration writes its bytes, whatever the fresh memory held.
pub serialize_lem :
    (raw : ℕ → ℕ) (c : ClusterConfig)
    → IsClusterConfig c
    → serialize raw c ≡ ok (cursor [] (config_bytes c))
unfolding serialize
serialize_lem raw c h =
    rw (srv_buffers_lem raw c.servers (omega (arith, h.fits, length-config_bytes c))) (
      rw count (
        seek-Wrote _ _ (
          put_all-Wrote srv_bytes ss _ 0 _ (
            put_int-Wrote (length ss) _ (length (servers_bytes ss) + 0) _ (
              put_ulong-Wrote c.prev_log_idx _ (4 + (length (servers_bytes ss) + 0)) _ (
                put_ulong-Wrote c.log_idx [] (8 + (4 + (length (servers_bytes ss) + 0))) _
                  (alloc-Wrote raw _ _ room (omega (arith, h.fits, length-config_bytes c)))))))
        ∙ ap (λ (l : List ℕ). ok (cursor [] l)) (simp append_assoc)))
  where
    ss : List SrvConfig
    ss = c.servers

    count : length ss % 2 ^ 32 ≡ length ss
    count = omega (arith, few_servers c h)

    room : 20 + total_size (srv_cursors ss) ≡ 8 + (8 + (4 + (length (servers_bytes ss) + 0)))
    room = omega (arith, total_size-cursors srv_bytes ss)

-- A configuration of two 64-bit indices, of servers with 32-bit ids and non-empty endpoints without a
-- zero byte, and of a size that fits a buffer is read back from what is written of it, whatever the
-- fresh memory held.
pub deserialize-serialize_config :
    (raw : ℕ → ℕ) (c : ClusterConfig)
    → IsClusterConfig c
    → (serialize raw c >>= deserialize) ≡ ok (c, cursor (config_bytes c) [])
deserialize-serialize_config raw c h = rw (serialize_lem raw c h) (
    subst (λ (l : List ℕ). deserialize (cursor [] l) ≡ ok (c, cursor (config_bytes c) []))
      (append-nil (config_bytes c))
      (deserialize-config_bytes c [] [] h
        (omega (arith, h.fits, length-append (config_bytes c) []))))
